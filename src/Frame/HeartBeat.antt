-- ===== src/Frame/HeartBeat.antt =====
-- frame/heartbeat.go: `ParseHeartBeat`. A time.Duration is an int64 of nanoseconds.
pub mod Range
use go_stomp.Base.{
  ℕ, ◌+◌, ◌*◌, ◌/◌, ◌%◌, ◌^◌, ◌≤◌, ◌<◌, ◌≡◌, refl, sym, ap, ◌∙◌, Bool, true, false, ◌&&◌, ◌||◌,
  List, [], ◌∷◌, ◌++◌, Bytes, Result, ok, err, ◌>>=◌, ◌>>◌, invalid_heart_beat, leb, ltb,
  if◌then◌else◌, arith, length, codes, get_elem?, Option, none, some, number_range, All, Bool-cases,
}
use go_stomp.Std.Strconv.{parse_uint, max_int64, format_uint, is_digit}
use go_stomp.Std.Strconv.RoundTrip.{parse_uint-format_uint, parse_uint-le}
use go_stomp.Std.Strings.{split, match_pair}
use go_stomp.Std.Strings.Split.{split_pair, match_pair_lem}

abbrev pub millisecond : ℕ
millisecond = 1000000

abbrev pub max_milliseconds : ℕ
max_milliseconds = max_int64 / millisecond

-- Multiplication of durations, in 64 bits.
abbrev pub mul_duration : ℕ → ℕ → ℕ
mul_duration a b = (a * b) % 2 ^ 64

-- `slice[0]`, `slice[1]` and what follows; the pattern that is tested first leaves two parts. An
-- error of the number makes the heart-beat invalid.
unfoldable pub parse_part : Bytes → Result ℕ
parse_part s = elim (parse_uint max_int64 s) [ ok n ↦ ok n | err e ↦ err invalid_heart_beat ]

unfoldable pub parse_values : List Bytes → Result (ℕ × ℕ)
unfolding parse_part
parse_values (first ∷ second ∷ rest) = do
  value1 ← parse_part first
  value2 ← parse_part second
  if ltb max_milliseconds value1 || ltb max_milliseconds value2
      then err invalid_heart_beat
      else ok (mul_duration value1 millisecond, mul_duration value2 millisecond)
parse_values _ = err invalid_heart_beat

unfoldable pub parse_heart_beat : Bytes → Result (ℕ × ℕ)
unfolding parse_values match_pair
parse_heart_beat s =
    if match_pair (leb 1) s then parse_values (split b',' s) else err invalid_heart_beat
