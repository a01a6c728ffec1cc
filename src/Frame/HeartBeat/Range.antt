-- ===== src/Frame/HeartBeat/Range.antt =====
-- The values that `ParseHeartBeat` returns and the texts that it accepts.
use go_stomp.Base.{
  ℕ, ◌*◌, ◌≤◌, ◌≡◌, ◌∙◌, true, ◌&&◌, ◌∷◌, ◌++◌, Bytes, ok, err, invalid_heart_beat, leb, ltb,
  if◌then◌else◌, arith,
}
use go_stomp.Std.Strconv.{max_int64, format_uint}
use go_stomp.Std.Strconv.RoundTrip.{parse_uint-format_uint, format_uint-All, format_uint-length}
use go_stomp.Std.Strings.{match_pair}
use go_stomp.Std.Strings.Split.{split_pair, match_pair_lem}
use go_stomp.Frame.HeartBeat.{
  parse_heart_beat, parse_values, parse_part, max_milliseconds, millisecond,
}

parse_part-format_uint :
    (n : ℕ)
    → parse_part (format_uint n) ≡ (if ltb max_int64 n then err invalid_heart_beat else ok n)
unfolding parse_part
parse_part-format_uint n = rw (parse_uint-format_uint max_int64 n, parse_part) (ground arith)

-- Of two decimal numbers with a comma between them `ParseHeartBeat` gives the two durations in
-- nanoseconds, exactly if neither is above the greatest number of milliseconds; else it fails.
pub parse_heart_beat-format_uint :
    (a b : ℕ)
    → parse_heart_beat (format_uint a ++ (b',' ∷ format_uint b)) ≡ (
        if leb a max_milliseconds && leb b max_milliseconds
        then ok (a * millisecond, b * millisecond)
        else err invalid_heart_beat)
unfolding parse_heart_beat
parse_heart_beat-format_uint a b =
    rw (matches, split_pair _ _ (format_uint-All a) (format_uint-All b), parse_values)
      (rw (parse_part-format_uint a, parse_part-format_uint b) (ground arith))
  where
    matches : match_pair (leb 1) (format_uint a ++ (b',' ∷ format_uint b)) ≡ true
    matches =
        match_pair_lem (leb 1) _ _ (format_uint-All a) (format_uint-All b)
        ∙ ground (arith, format_uint-length a, format_uint-length b)

-- No duration that `ParseHeartBeat` returns overflows an int64.
pub parse_heart_beat-le :
    (s : Bytes) {x y : ℕ} → parse_heart_beat s ≡ ok (x, y) → (x ≤ max_int64) × (y ≤ max_int64)
unfolding parse_heart_beat
parse_heart_beat-le s {x} {y} e = ground arith
