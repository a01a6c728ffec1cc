-- ===== src/Frame/Reader/Chunks.antt =====
-- What a reader returns depends on the bytes alone, not on how the connection cuts them into
-- pieces.
use mathlib.Core.Option
use mathlib.Core.Path.{subst}
use go_stomp.Base.{
  ℕ, zero, suc, ◌-◌, ◌≤◌, ◌≡◌, refl, sym, ap, ◌∙◌, true, false, Option, none, some, [], ◌∷◌, ◌++◌,
  Bytes, leb, ◌==◌, if◌then◌else◌, length, take, drop, length-append, leb→le, take-append_le,
  take-append_ge, drop-append_le, drop-append_ge, Bool-cases, inl, inr, arith, Result, ok, err,
  ◌>>=◌, Error, invalid_frame_format,
}
use go_stomp.Frame.Command.{Command, parse_command}
use go_stomp.Frame.Header.{Header, add}
use go_stomp.Frame.Header.ContentLength.{content_length}
use go_stomp.Frame.Reader.{
  Chunks, cut, total, read_bytes, read_byte, read_full, parse_header_line, or_fault, read_line,
  read_headers, read_body, or_invalid, read_frame, read,
}

-- The bytes of an input.
unfoldable pub flatten : Chunks → Bytes
flatten [] = []
flatten (c ∷ cs) = c ++ flatten cs

pub total-flatten : (cs : Chunks) → total cs ≡ length (flatten cs)
unfolding flatten
total-flatten [] = refl
total-flatten (c ∷ cs) = omega (arith, total-flatten cs, length-append c (flatten cs))

-- The same read with the bytes left in place of the pieces left.
abbrev flat {ℓ} : {A : Type ℓ} → Option (A × Chunks) → Option (A × Bytes)
flat none = none
flat (some (a, cs)) = some (a, flatten cs)

cut-append :
    (d : ℕ) (s t : Bytes)
    → cut d (s ++ t) ≡ elim (cut d s) [
      | some (l, r) ↦ some (l, r ++ t)
      | none ↦ Option.map (λ p. (s ++ p.0, p.1)) (cut d t)
    ]
unfolding cut
cut-append d [] t = ground arith
cut-append d (c ∷ s) t = ground (arith, cut-append d s t)

pub read_bytes-flatten : (d : ℕ) (cs : Chunks) → flat (read_bytes d cs) ≡ cut d (flatten cs)
unfolding read_bytes flatten
read_bytes-flatten d [] = refl
read_bytes-flatten d (c ∷ cs) = ground (arith, cut-append d c (flatten cs), read_bytes-flatten d cs)

abbrev pub uncons : Bytes → Option (ℕ × Bytes)
uncons [] = none
uncons (b ∷ s) = some (b, s)

pub read_byte-flatten : (cs : Chunks) → flat (read_byte cs) ≡ uncons (flatten cs)
unfolding read_byte flatten
read_byte-flatten [] = refl
read_byte-flatten ([] ∷ cs) = read_byte-flatten cs
read_byte-flatten ((b ∷ c) ∷ cs) = refl

abbrev pub split_at : ℕ → Bytes → Option (Bytes × Bytes)
split_at n s = if leb n (length s) then some (take n s, drop n s) else none

split_at-append_le :
    (n : ℕ) (a b : Bytes) → n ≤ length a → split_at n (a ++ b) ≡ some (take n a, drop n a ++ b)
split_at-append_le n a b h =
    let t : leb n (length (a ++ b)) ≡ true = ground (arith, length-append a b) in
    rw (t, take-append_le n a b h, drop-append_le n a b h)

split_at-append_ge :
    (n : ℕ) (a b : Bytes)
    → length a ≤ n
    → split_at n (a ++ b) ≡ Option.map (λ p. (a ++ p.0, p.1)) (split_at (n - length a) b)
split_at-append_ge n a b h =
    let t : leb n (length (a ++ b)) ≡ leb (n - length a) (length b) =
      ground (arith, length-append a b) in
    rw (t, take-append_ge n a b h, drop-append_ge n a b h) (ground arith)

flat-map :
    (c : Bytes) (r : Option (Bytes × Chunks))
    → flat (Option.map (λ p. (c ++ p.0, p.1)) r) ≡ Option.map (λ p. (c ++ p.0, p.1)) (flat r)
flat-map c none = refl
flat-map c (some r) = refl

pub read_full-flatten : (n : ℕ) (cs : Chunks) → flat (read_full n cs) ≡ split_at n (flatten cs)
unfolding read_full flatten
read_full-flatten zero cs = ground arith
read_full-flatten (suc n) [] = ground arith
read_full-flatten (suc n) (c ∷ cs) = elim (Bool-cases (leb (suc n) (length c))) [
  | inl t ↦ rw t (sym (split_at-append_le (suc n) c (flatten cs) (leb→le _ _ t)))
  | inr t ↦ rw t (
      flat-map c (read_full (suc n - length c) cs)
      ∙ rw (read_full-flatten (suc n - length c) cs)
          (sym (split_at-append_ge (suc n) c (flatten cs) (ground arith))))
]

-- Two outcomes with the same result and the same bytes left.
abbrev pub Agree : {A : Type 0} → Result (A × Chunks) → Result (A × Chunks) → Type 0
Agree (ok (a, cs)) (ok (b, ds)) = (a ≡ b) × (flatten cs ≡ flatten ds)
Agree (ok _) (err _) = ⊥
Agree (err _) (ok _) = ⊥
Agree (err e) (err f) = e ≡ f

Agree->>= :
    {A B : Type 0} (m n : Result (A × Chunks)) (f g : A × Chunks → Result (B × Chunks))
    → Agree m n
    → ((a : A) (cs ds : Chunks) → flatten cs ≡ flatten ds → Agree (f (a, cs)) (g (a, ds)))
    → Agree (m >>= f) (n >>= g)
Agree->>= (ok (a, cs)) (ok (b, ds)) f g h k =
    subst (λ x. Agree (f (a, cs)) (g (x, ds))) h.0 (k a cs ds h.1)
Agree->>= (ok _) (err _) f g h k = absurd h
Agree->>= (err _) (ok _) f g h k = absurd h
Agree->>= (err _) (err _) f g h k = h

Agree-map :
    {B C : Type 0} (m : Result C) (f g : C → Result (B × Chunks))
    → ((c : C) → Agree (f c) (g c))
    → Agree (m >>= f) (m >>= g)
Agree-map (ok c) f g k = k c
Agree-map (err e) f g k = refl

same : {A : Type 0} {a b c d : A} → a ≡ c → b ≡ d → c ≡ d → a ≡ b
same p q e = p ∙ e ∙ sym q

module _ (fault : Error) where
  or_fault-Agree :
      {A : Type 0} (r q : Option (A × Chunks))
      → flat r ≡ flat q
      → Agree (or_fault fault r) (or_fault fault q)
  or_fault-Agree none none e = refl
  or_fault-Agree none (some q) e = cc
  or_fault-Agree (some r) none e = cc
  or_fault-Agree (some (a, cs)) (some (b, ds)) e = (cc, cc)

  read_bytes-Agree :
      (d : ℕ) (cs ds : Chunks)
      → flatten cs ≡ flatten ds
      → Agree (or_fault fault (read_bytes d cs)) (or_fault fault (read_bytes d ds))
  read_bytes-Agree d cs ds e =
      or_fault-Agree _ _ (same (read_bytes-flatten d cs) (read_bytes-flatten d ds) (ap (cut d) e))

  read_full-Agree :
      (n : ℕ) (cs ds : Chunks)
      → flatten cs ≡ flatten ds
      → Agree (or_fault fault (read_full n cs)) (or_fault fault (read_full n ds))
  read_full-Agree n cs ds e =
      or_fault-Agree _ _
        (same (read_full-flatten n cs) (read_full-flatten n ds) (ap (split_at n) e))

  read_byte-Agree :
      (cs ds : Chunks)
      → flatten cs ≡ flatten ds
      → Agree (or_fault fault (read_byte cs)) (or_fault fault (read_byte ds))
  read_byte-Agree cs ds e =
      or_fault-Agree _ _ (same (read_byte-flatten cs) (read_byte-flatten ds) (ap uncons e))

  read_line-Agree :
      (cs ds : Chunks) → flatten cs ≡ flatten ds → Agree (read_line fault cs) (read_line fault ds)
  unfolding read_line
  read_line-Agree cs ds e =
      Agree->>= (or_fault fault (read_bytes b'\n' cs)) (or_fault fault (read_bytes b'\n' ds)) _ _
        (read_bytes-Agree b'\n' cs ds e) (λ line xs ys f. (refl, f))

  read_headers-Agree :
      (fuel : ℕ) (h : Header) (cs ds : Chunks)
      → flatten cs ≡ flatten ds
      → Agree (read_headers fault fuel h cs) (read_headers fault fuel h ds)
  unfolding read_headers
  read_headers-Agree zero h cs ds e = refl
  read_headers-Agree (suc fuel) h cs ds e =
      Agree->>= (read_line fault cs) (read_line fault ds) _ _ (read_line-Agree cs ds e) (elim [
        | [] ↦ λ xs ys f. (refl, f)
        | c ∷ s ↦ λ xs ys f.
            Agree-map (parse_header_line (c ∷ s)) _ _
              (λ p. read_headers-Agree fuel (add h p.0 p.1) xs ys f)
      ])

  read_body-Agree :
      (h : Header) (cs ds : Chunks)
      → flatten cs ≡ flatten ds
      → Agree (read_body fault h cs) (read_body fault h ds)
  unfolding read_body
  read_body-Agree h cs ds e = Agree-map (content_length h) _ _ (elim [
    | none ↦
        Agree->>= (or_fault fault (read_bytes 0 cs)) (or_fault fault (read_bytes 0 ds)) _ _
          (read_bytes-Agree 0 cs ds e) (λ body xs ys f. (refl, f))
    | some n ↦
        Agree->>= (or_fault fault (read_full n cs)) (or_fault fault (read_full n ds)) _ _
          (read_full-Agree n cs ds e)
          (λ body xs ys f.
            Agree->>= (or_fault fault (read_byte xs)) (or_fault fault (read_byte ys)) _ _
              (read_byte-Agree xs ys f)
              (λ t us vs g.
                elim (t == 0)
                  as (λ b.
                    Agree (if b then ok (body, us) else err invalid_frame_format)
                      (if b then ok (body, vs) else err invalid_frame_format)) [
                        | true ↦ (refl, g)
                        | false ↦ refl
                      ]))
  ])

  read_frame-Agree :
      (command : Command) (cs ds : Chunks)
      → flatten cs ≡ flatten ds
      → Agree (read_frame fault command cs) (read_frame fault command ds)
  unfolding read_frame
  read_frame-Agree command cs ds e =
      let fuel : total cs ≡ total ds = same (total-flatten cs) (total-flatten ds) (ap length e) in
      rw fuel (
        Agree->>= (read_headers fault (total ds) [] cs) (read_headers fault (total ds) [] ds) _ _
          (read_headers-Agree (total ds) [] cs ds e)
          (λ h xs ys f.
            Agree->>= (read_body fault h xs) (read_body fault h ys) _ _ (read_body-Agree h xs ys f)
              (λ body us vs g. (refl, g))))

  -- However the connection cuts the same bytes into pieces, `Read` returns the same frame, the same
  -- heart-beat or the same error, and the same bytes are left.
  pub read-Agree :
      (cs ds : Chunks) → flatten cs ≡ flatten ds → Agree (read fault cs) (read fault ds)
  unfolding read
  read-Agree cs ds e =
      Agree->>= (read_line fault cs) (read_line fault ds) _ _ (read_line-Agree cs ds e) (elim [
        | [] ↦ λ xs ys f. (refl, f)
        | c ∷ s ↦ λ xs ys f. Agree-map (or_invalid fault (parse_command (c ∷ s))) _ _ (λ command.
            Agree->>= (read_frame fault command xs) (read_frame fault command ys) _ _
              (read_frame-Agree command xs ys f) (λ frame us vs g. (refl, g)))
      ])
