-- ===== src/Frame/Codec.antt =====
-- frame/encode.go: the two replacers for header names and values. A replacer reads its text from
-- the left; no replaced text begins at two places that overlap, so one pass by clauses does it.
use go_stomp.Base.{
  ℕ, ◌≡◌, ◌≢◌, refl, ap, ◌∙◌, Bool, true, false, [], ◌∷◌, ◌++◌, Bytes, ◌==◌, if◌then◌else◌, arith,
  All,
}

-- `replacerForEncodeValue` on one byte.
unfoldable pub encode_byte : ℕ → Bytes
encode_byte c =
    if c == b'\\'
    then b'\\' ∷ b'\\' ∷ []
    else if c == b'\r'
    then b'\\' ∷ b'r' ∷ []
    else if c == b'\n'
    then b'\\' ∷ b'n' ∷ []
    else if c == b':'
    then b'\\' ∷ b'c' ∷ []
    else c ∷ []

unfoldable pub encode_value : Bytes → Bytes
unfolding encode_byte
encode_value [] = []
encode_value (c ∷ s) = encode_byte c ++ encode_value s

-- `replacerForUnencodeValue` on a backslash and the byte behind it; `[]` where the pair is none of
-- the four.
unfoldable pub unescape : ℕ → Bytes
unescape c =
    if c == b'r'
    then b'\r' ∷ []
    else if c == b'n'
    then b'\n' ∷ []
    else if c == b'c'
    then b':' ∷ []
    else if c == b'\\'
    then b'\\' ∷ []
    else []

-- `unencodeValue`: a backslash with no escape behind it stays.
-- The flag says that the byte in front was a backslash not yet read as part of an escape.
unfoldable pub unencode_onto : Bool → Bytes → Bytes
unfolding unescape
unencode_onto true [] = b'\\' ∷ []
unencode_onto false [] = []
unencode_onto false (c ∷ s) =
    let plain = unencode_onto false s in
    let escape = unencode_onto true s in if c == b'\\' then escape else c ∷ plain
unencode_onto true (c ∷ s) =
    let plain = unencode_onto false s in
    let escape = unencode_onto true s in
    elim (unescape c) [ d ∷ _ ↦ d ∷ plain | [] ↦ b'\\' ∷ c ∷ plain ]

unfoldable pub unencode_value : Bytes → Bytes
unfolding unencode_onto
unencode_value s = unencode_onto false s

unencode-encode_byte :
    (c : ℕ) (s : Bytes) → unencode_onto false (encode_byte c ++ s) ≡ c ∷ unencode_onto false s
unfolding encode_byte unencode_onto
unencode-encode_byte c s = ground arith

-- Unencoding gives back every header name and value that was encoded, whatever bytes it holds.
pub unencode_value-encode_value : (s : Bytes) → unencode_value (encode_value s) ≡ s
unfolding unencode_value encode_value
unencode_value-encode_value [] = refl
unencode_value-encode_value (c ∷ s) =
    unencode-encode_byte c (encode_value s) ∙ ap (◌∷◌ c) (unencode_value-encode_value s)

-- No line feed, carriage return or colon.
abbrev pub IsPlain : Bytes → Type 0
IsPlain = All (λ c. (c ≢ b'\n') × (c ≢ b'\r') × (c ≢ b':'))

-- An encoded name or value holds no line feed, carriage return or colon, so it stays within its
-- header line and its half of it.
pub encode_value-IsPlain : (s : Bytes) → IsPlain (encode_value s)
unfolding encode_value
encode_value-IsPlain [] = tt
encode_value-IsPlain (c ∷ s) = ground (arith, encode_value-IsPlain s)
