-- ===== src/Frame/Reader/Fuel.antt =====
-- The header loop ends: the number of bytes that are left is enough fuel.
use mathlib.Core.Path.{fun_ext}
use go_stomp.Base.{
  ℕ, zero, suc, ◌≤◌, ◌<◌, ◌≡◌, refl, ap, some, [], ◌∷◌, Bytes, length, Option-cases, inl, inr,
  arith, Result, ok, err, ◌>>=◌, Error,
}
use go_stomp.Frame.Header.{Header, add}
use go_stomp.Frame.Reader.{
  Chunks, cut, total, read_bytes, parse_header_line, read_line, read_headers,
}

cut-length : (d : ℕ) (s : Bytes) {l r : Bytes} → cut d s ≡ some (l, r) → length r < length s
unfolding cut
cut-length d [] e = cc
cut-length d (c ∷ s) {l} {r} e = elim (Option-cases (cut d s)) [
  | inl n ↦ ground (arith, n)
  | inr (p, q) ↦ ground (arith, q, cut-length d s {l = p.0} {r = p.1} q)
]

read_bytes-total :
    (d : ℕ) (cs : Chunks) {l : Bytes} {rest : Chunks}
    → read_bytes d cs ≡ some (l, rest)
    → total rest < total cs
unfolding read_bytes
read_bytes-total d [] e = cc
read_bytes-total d (c ∷ cs) {l} {rest} e = elim (Option-cases (cut d c)) [
  | inl n ↦ elim (Option-cases (read_bytes d cs)) [
    | inl m ↦ ground (arith, n, m)
    | inr (p, q) ↦ ground (arith, n, q, read_bytes-total d cs {l = p.0} {rest = p.1} q)
  ]
  | inr (p, q) ↦ ground (arith, q, cut-length d c {l = p.0} {r = p.1} q)
]

module _ (fault : Error) where
  read_line-total :
      (cs : Chunks) {l : Bytes} {rest : Chunks}
      → read_line fault cs ≡ ok (l, rest)
      → total rest < total cs
  unfolding read_line
  read_line-total cs {l} {rest} e = elim (Option-cases (read_bytes b'\n' cs)) [
    | inl n ↦ ground (arith, n)
    | inr (p, q) ↦ ground (arith, q, read_bytes-total b'\n' cs {l = p.0} {rest = p.1} q)
  ]

  -- At the end of the input there is no line.
  read_line-end : (cs : Chunks) → total cs ≤ 0 → read_line fault cs ≡ err fault
  unfolding read_line
  read_line-end cs h = elim (Option-cases (read_bytes b'\n' cs)) [
    | inl n ↦ rw n
    | inr (p, q) ↦ absurd (omega (arith, read_bytes-total b'\n' cs {l = p.0} {rest = p.1} q))
  ]

  -- Any fuel from the number of bytes left upwards gives the same headers or the same error, so
  -- the loop that `Read` runs with that fuel never stops for want of it.
  pub read_headers-fuel :
      (fuel more : ℕ) (h : Header) (cs : Chunks)
      → total cs ≤ fuel
      → total cs ≤ more
      → read_headers fault fuel h cs ≡ read_headers fault more h cs
  unfolding read_headers
  read_headers-fuel zero zero h cs f m = refl
  read_headers-fuel zero (suc more) h cs f m = rw (read_line-end cs f, read_headers)
  read_headers-fuel (suc fuel) zero h cs f m = rw (read_line-end cs m, read_headers)
  read_headers-fuel (suc fuel) (suc more) h cs f m =
      go (read_headers-fuel fuel more) (read_line fault cs) refl
    where
      go :
          ((g : Header) (ds : Chunks)
            → total ds ≤ fuel
            → total ds ≤ more
            → read_headers fault fuel g ds ≡ read_headers fault more g ds)
          → (r : Result (Bytes × Chunks)) → read_line fault cs ≡ r
          → read_headers fault (suc fuel) h cs ≡ read_headers fault (suc more) h cs
      go ih (err e) q = rw (q, read_headers)
      go ih (ok ([], rest)) q = rw (q, read_headers)
      go ih (ok (c ∷ s, rest)) q =
          let shorter = read_line-total cs q in
          rw (q, read_headers)
            (ap (λ k. parse_header_line (c ∷ s) >>= k)
              (fun_ext λ p. ih (add h p.0 p.1) rest (omega arith) (omega arith)))
