-- ===== src/Frame/Reader/Lines.antt =====
-- What the parts of `Read` make of a line or a body that `Write` sent.
use go_stomp.Base.{
  ℕ, suc, ◌-◌, ◌≤◌, ◌≡◌, ◌≢◌, refl, ◌∙◌, true, false, some, [], ◌∷◌, ◌++◌, Bytes, leb, length, take,
  drop, str_eq, append_assoc, length-append, arith, All, All-append, take-append_length,
  drop-append_length, ok,
}
use go_stomp.Frame.Codec.{
  encode_value, encode_value-IsPlain, IsPlain, unencode_value, unencode_value-encode_value,
}
use go_stomp.Frame.Command.{Command, command_name}
use go_stomp.Frame.Reader.{
  cut, read_bytes, read_full, has_suffix, strip_line, index_byte, parse_header_line,
}

cut-append :
    (d : ℕ) (l t : Bytes) → All (λ c. c ≢ d) l → cut d (l ++ (d ∷ t)) ≡ some (l ++ d ∷ [], t)
unfolding cut
cut-append d [] t h = ground arith
cut-append d (c ∷ l) t h = ground (arith, cut-append d l t h.1)

abbrev pub NoBreaks : Bytes → Type 0
NoBreaks = All (λ c. (c ≢ b'\n') × (c ≢ b'\r'))

pub NoBreaks-newline : (l : Bytes) → NoBreaks l → All (λ c. c ≢ b'\n') l
NoBreaks-newline [] h = tt
NoBreaks-newline (c ∷ l) h = (h.0.0, NoBreaks-newline l h.1)

IsPlain-NoBreaks : (l : Bytes) → IsPlain l → NoBreaks l
IsPlain-NoBreaks [] h = tt
IsPlain-NoBreaks (c ∷ l) h = ((h.0.0, h.0.1), IsPlain-NoBreaks l h.1)

IsPlain-colon : (l : Bytes) → IsPlain l → All (λ c. c ≢ b':') l
IsPlain-colon [] h = tt
IsPlain-colon (c ∷ l) h = (h.0.2, IsPlain-colon l h.1)

no_crlf : (l : Bytes) → NoBreaks l → has_suffix (l ++ b'\n' ∷ []) (b'\r' ∷ b'\n' ∷ []) ≡ false
unfolding has_suffix str_eq
no_crlf [] h = refl
no_crlf (c ∷ l) h = ground (arith, no_crlf l h.1)

ends_in_newline : (l : Bytes) → has_suffix (l ++ b'\n' ∷ []) (b'\n' ∷ []) ≡ true
unfolding has_suffix str_eq
ends_in_newline [] = refl
ends_in_newline (c ∷ l) = ground (arith, ends_in_newline l)

pub take_all_but_last : (l : Bytes) (d : ℕ) → take (length (l ++ d ∷ []) - 1) (l ++ d ∷ []) ≡ l
take_all_but_last l d =
    let e : length (l ++ d ∷ []) - 1 ≡ length l = omega (arith, length-append l (d ∷ [])) in
    rw e (take-append_length l (d ∷ []))

pub strip_line-newline : (l : Bytes) → NoBreaks l → strip_line (l ++ b'\n' ∷ []) ≡ l
unfolding strip_line
strip_line-newline l h = rw (no_crlf l h, ends_in_newline l) (take_all_but_last l b'\n')

pub read_bytes-append :
    (d : ℕ) (l t : Bytes)
    → All (λ c. c ≢ d) l
    → read_bytes d ((l ++ (d ∷ t)) ∷ []) ≡ some (l ++ d ∷ [], t ∷ [])
unfolding read_bytes
read_bytes-append d l t h = rw (cut-append d l t h, read_bytes)

pub read_full-append : (b t : Bytes) → read_full (length b) ((b ++ t) ∷ []) ≡ some (b, t ∷ [])
unfolding read_full
read_full-append [] t = refl
read_full-append (c ∷ b) t =
    let e : leb (suc (length b)) (suc (length (b ++ t))) ≡ true =
      ground (arith, length-append b t) in
    rw (e, take-append_length b t, drop-append_length b t)

index_byte-append :
    (k v : Bytes) → All (λ c. c ≢ b':') k → index_byte (k ++ (b':' ∷ v)) b':' ≡ some (length k)
unfolding index_byte
index_byte-append [] v h = refl
index_byte-append (c ∷ k) v h = ground (arith, index_byte-append k v h.1)

abbrev pub header_line : Bytes → Bytes → Bytes
header_line key value = encode_value key ++ (b':' ∷ encode_value value)

encode_value-ne-nil : (key : Bytes) → key ≢ [] → 1 ≤ length (encode_value key)
unfolding encode_value
encode_value-ne-nil [] h = absurd (h refl)
encode_value-ne-nil (c ∷ k) h =
    ground (arith, length-append (go_stomp.Frame.Codec.encode_byte c) (encode_value k))

drop_past : (k v : Bytes) (d : ℕ) → drop (suc (length k)) (k ++ (d ∷ v)) ≡ v
drop_past [] v d = refl
drop_past (c ∷ k) v d = drop_past k v d

parse_header_line-append :
    (k v : Bytes)
    → 1 ≤ length k
    → All (λ c. c ≢ b':') k
    → parse_header_line (k ++ (b':' ∷ v)) ≡ ok (unencode_value k, unencode_value v)
unfolding parse_header_line
parse_header_line-append [] v n h = absurd (omega arith)
parse_header_line-append (c ∷ k) v n h =
    rw (index_byte-append (c ∷ k) v h, parse_header_line)
      (rw (take-append_length k (b':' ∷ v), drop_past k v b':'))

pub line_split :
    (key value g t : Bytes)
    → (encode_value key ++ (b':' ∷ (encode_value value ++ (b'\n' ∷ g)))) ++ t
      ≡ header_line key value ++ (b'\n' ∷ (g ++ t))
line_split key value g t = simp append_assoc

pub parse_header_line-header_line :
    (key value : Bytes) → key ≢ [] → parse_header_line (header_line key value) ≡ ok (key, value)
parse_header_line-header_line key value h =
    parse_header_line-append (encode_value key) (encode_value value) (encode_value-ne-nil key h)
      (IsPlain-colon _ (encode_value-IsPlain key))
    ∙ rw (unencode_value-encode_value key, unencode_value-encode_value value)

pub header_line-NoBreaks : (key value : Bytes) → NoBreaks (header_line key value)
header_line-NoBreaks key value =
    All-append _ (encode_value key) (b':' ∷ encode_value value)
      (IsPlain-NoBreaks _ (encode_value-IsPlain key))
      (omega arith, IsPlain-NoBreaks _ (encode_value-IsPlain value))

pub command_name-NoBreaks : (c : Command) → NoBreaks (command_name c)
unfolding command_name
command_name-NoBreaks Command.connect = omega arith
command_name-NoBreaks _ = omega arith

pub command_name-cons : (c : Command) → (d : ℕ) × (s : Bytes) × (command_name c ≡ d ∷ s)
unfolding command_name
command_name-cons Command.connect = (_, _, refl)
command_name-cons _ = (_, _, refl)
