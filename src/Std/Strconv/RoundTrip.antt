-- ===== src/Std/Strconv/RoundTrip.antt =====
-- ParseUint after FormatUint, and the range of what ParseUint accepts.
use go_stomp.Base.{
  length-append, sym, leb, ap, ℕ, zero, suc, ◌+◌, ◌-◌, ◌*◌, ◌/◌, ◌%◌, ◌≤◌, ◌<◌, ◌≡◌, refl, ◌∙◌,
  true, false, [], ◌∷◌, ◌++◌, append_assoc, append-nil, Bytes, ok, err, number_range, length, ltb,
  ltb→lt, arith, All, Bool-cases, if◌then◌else◌, All-append, inl, inr,
}
use go_stomp.Std.Strconv.{is_digit, scan, parse_uint, digits, format_uint}

scan-digit :
    (max n d : ℕ) (rest : Bytes)
    → d < 10
    → scan max ((b'0' + d) ∷ rest) n
      ≡ (if ltb max (n * 10 + d) then err number_range else scan max rest (n * 10 + d))
unfolding scan
scan-digit max n d rest h =
    let e : n * 10 + (b'0' + d - b'0') ≡ n * 10 + d = omega arith in
    let t : is_digit (b'0' + d) ≡ true = ground arith in rw (e, t)

digits-step :
    (fuel n : ℕ) (rest : Bytes)
    → 10 ≤ n
    → digits (suc fuel) n ++ rest ≡ digits fuel (n / 10) ++ ((b'0' + n % 10) ∷ rest)
unfolding digits
digits-step fuel n rest h =
    let t : ltb n 10 ≡ false = ground arith in rw t (append_assoc (digits fuel (n / 10)) _ rest)

digits-one : (fuel n : ℕ) → n < 10 → digits fuel n ≡ (b'0' + n) ∷ []
unfolding digits
digits-one zero n h = refl
digits-one (suc fuel) n h = ground arith

scan-one :
    (max n : ℕ) (rest : Bytes)
    → n < 10
    → scan max ((b'0' + n) ∷ rest) 0 ≡ (if ltb max n then err number_range else scan max rest n)
scan-one max n rest h = let e : 0 * 10 + n ≡ n = omega arith in rw e at (scan-digit max 0 n rest h)

-- What scanning the digits of a number in front of `rest` comes to.
pub scan-digits :
    (fuel max n : ℕ) (rest : Bytes)
    → n ≤ fuel
    → scan max (digits fuel n ++ rest) 0 ≡ (if ltb max n then err number_range else scan max rest n)
scan-digits zero max n rest h =
    rw (digits-one 0 n (omega arith)) (scan-one max n rest (omega arith))
scan-digits (suc fuel) max n rest h = elim (Bool-cases (ltb n 10)) [
  | inl t ↦
      let small : n < 10 = ltb→lt n 10 t in
      rw (digits-one (suc fuel) n small) (scan-one max n rest small)
  | inr t ↦
      let large : 10 ≤ n = ground arith in
      rw (digits-step fuel n rest large)
        (scan-digits fuel max (n / 10) ((b'0' + n % 10) ∷ rest) (omega arith) ∙ last large)
]
  where
    last :
        10 ≤ n
        → (if ltb max (n / 10)
            then err number_range
            else scan max ((b'0' + n % 10) ∷ rest) (n / 10))
          ≡ (if ltb max n then err number_range else scan max rest n)
    last large =
        let e : n / 10 * 10 + n % 10 ≡ n = omega arith in
        rw (rw e at (scan-digit max (n / 10) (n % 10) rest (omega arith))) (ground arith)

digits-cons : (fuel n : ℕ) → (c : ℕ) × (s : Bytes) × (digits fuel n ≡ c ∷ s)
unfolding digits
digits-cons zero n = (b'0' + n, [], refl)
digits-cons (suc fuel) n = elim (Bool-cases (ltb n 10)) [
  | inl t ↦ (b'0' + n, [], rw t)
  | inr t ↦ let (c, s, e) = digits-cons fuel (n / 10) in (c, s ++ (b'0' + n % 10) ∷ [], rw t (rw e))
]

-- ParseUint reads back what FormatUint wrote if the bit size allows the number, and refuses it as
-- out of range if not.
pub parse_uint-format_uint :
    (max n : ℕ) → parse_uint max (format_uint n) ≡ (if ltb max n then err number_range else ok n)
unfolding format_uint
parse_uint-format_uint max n =
    let (c, s, e) = digits-cons n n in
    let whole = rw append-nil at (scan-digits n max n [] (omega arith)) in
    rw e (unfold parse_uint scan in (rw e at whole))

pub scan-le : (max : ℕ) (s : Bytes) (n : ℕ) {v : ℕ} → n ≤ max → scan max s n ≡ ok v → v ≤ max
unfolding scan
scan-le max [] n h e = ground arith
scan-le max (c ∷ s) n {v} h e = ground (arith, scan-le max s (n * 10 + (c - b'0')) {v = v})

-- What ParseUint returns fits the bit size.
pub parse_uint-le : (max : ℕ) (s : Bytes) {v : ℕ} → parse_uint max s ≡ ok v → v ≤ max
unfolding parse_uint
parse_uint-le max [] e = cc
parse_uint-le max (c ∷ s) e = scan-le max (c ∷ s) 0 (omega arith) e

-- Every byte that FormatUint writes is a digit.
digits-All : (fuel n : ℕ) → n ≤ fuel → All (λ c. is_digit c ≡ true) (digits fuel n)
digits-All zero n h = rw (digits-one 0 n (omega arith)) (ground arith, tt)
digits-All (suc fuel) n h = elim (Bool-cases (ltb n 10)) [
  | inl t ↦ rw (digits-one (suc fuel) n (ltb→lt n 10 t)) (ground arith, tt)
  | inr t ↦
      rw (← append-nil (digits (suc fuel) n), digits-step fuel n [] (ground arith))
        (All-append _ (digits fuel (n / 10)) _ (digits-All fuel (n / 10) (omega arith))
          (ground arith, tt))
]

pub format_uint-All : (n : ℕ) → All (λ c. is_digit c ≡ true) (format_uint n)
unfolding format_uint
format_uint-All n = digits-All n n (omega arith)

pub format_uint-length : (n : ℕ) → 1 ≤ length (format_uint n)
unfolding format_uint
format_uint-length n = let (c, s, e) = digits-cons n n in rw e (omega arith)

abbrev pub power_of_ten : ℕ → ℕ
power_of_ten zero = 1
power_of_ten (suc k) = 10 * power_of_ten k

power_of_ten-pos : (k : ℕ) → 1 ≤ power_of_ten k
power_of_ten-pos zero = omega arith
power_of_ten-pos (suc k) = omega (arith, power_of_ten-pos k)

digits-length :
    (fuel n : ℕ) → 10 ≤ n → length (digits (suc fuel) n) ≡ length (digits fuel (n / 10)) + 1
digits-length fuel n h =
    ap length (sym (append-nil (digits (suc fuel) n)) ∙ digits-step fuel n [] h)
    ∙ length-append (digits fuel (n / 10)) _

digits-length-ge : (fuel n : ℕ) → 1 ≤ length (digits fuel n)
digits-length-ge fuel n = let (c, s, e) = digits-cons fuel n in rw e (omega arith)

digits-length-le :
    (k fuel n : ℕ) → n ≤ fuel → leb (length (digits fuel n)) (suc k) ≡ ltb n (power_of_ten (suc k))
digits-length-le k zero n h = rw (digits-one 0 n (omega arith)) (ground (arith, power_of_ten-pos k))
digits-length-le zero (suc fuel) n h = elim (Bool-cases (ltb n 10)) [
  | inl t ↦ rw (digits-one (suc fuel) n (ltb→lt n 10 t)) (ground (arith, t))
  | inr t ↦
      rw (digits-length fuel n (ground arith)) (ground (arith, digits-length-ge fuel (n / 10)))
]
digits-length-le (suc k) (suc fuel) n h = elim (Bool-cases (ltb n 10)) [
  | inl t ↦ rw (digits-one (suc fuel) n (ltb→lt n 10 t)) (ground (arith, power_of_ten-pos k, t))
  | inr t ↦
      rw (digits-length fuel n (ground arith))
        (ground (arith, digits-length-le k fuel (n / 10) (omega arith)))
]

-- A number has at most `k + 1` digits exactly if it is below that power of ten.
pub format_uint-length-le :
    (k n : ℕ) → leb (length (format_uint n)) (suc k) ≡ ltb n (power_of_ten (suc k))
unfolding format_uint
format_uint-length-le k n = digits-length-le k n n (omega arith)
