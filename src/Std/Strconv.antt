-- ===== src/Std/Strconv.antt =====
-- strconv.ParseUint, ParseInt and FormatUint for base 10.
pub mod RoundTrip
use go_stomp.Base.{
  ℕ, zero, suc, ◌+◌, ◌-◌, ◌*◌, ◌/◌, ◌%◌, ◌^◌, ◌≤◌, ◌≡◌, refl, Bool, ◌&&◌, not, List, [], ◌∷◌, ◌++◌,
  Bytes, Result, ok, err, number_syntax, number_range, leb, ltb, if◌then◌else◌, codes,
}

abbrev pub is_digit : ℕ → Bool
is_digit c = leb b'0' c && leb c b'9'

-- The loop of ParseUint: `max` is the greatest value that the bit size allows.
unfoldable pub scan : ℕ → Bytes → ℕ → Result ℕ
scan max [] n = ok n
scan max (c ∷ s) n =
    let next = n * 10 + (c - b'0') in
    let rest = scan max s next in
    if not (is_digit c) then err number_syntax else if ltb max next then err number_range else rest

-- The value, or ErrSyntax or ErrRange.
unfoldable pub parse_uint : ℕ → Bytes → Result ℕ
unfolding scan
parse_uint max [] = err number_syntax
parse_uint max (c ∷ s) = scan max (c ∷ s) 0

abbrev pub max_uint32 : ℕ
max_uint32 = 2 ^ 32 - 1

abbrev pub max_uint64 : ℕ
max_uint64 = 2 ^ 64 - 1

abbrev pub max_int64 : ℕ
max_int64 = 2 ^ 63 - 1

-- The digits of a number; every division by ten takes it down, so a fuel of `n` is enough.
unfoldable pub digits : ℕ → ℕ → Bytes
digits zero n = (b'0' + n) ∷ []
digits (suc fuel) n =
    let more = digits fuel (n / 10) ++ (b'0' + n % 10) ∷ [] in
    if ltb n 10 then (b'0' + n) ∷ [] else more

unfoldable pub format_uint : ℕ → Bytes
unfolding digits
format_uint n = digits n n

format_uint_ten : format_uint 1900 ≡ codes "1900"
unfolding format_uint
format_uint_ten = refl
