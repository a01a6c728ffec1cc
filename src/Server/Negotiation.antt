-- ===== src/Server/Negotiation.antt =====
-- server/client/frame.go: `determineVersion` and `getHeartBeat`; server/client/util.go; version.go.
pub mod Laws
use go_stomp.Base.{
  ℕ, ◌/◌, ◌%◌, ◌^◌, Bytes, Bool, true, false, ◌&&◌, Option, none, some, List, [], ◌∷◌, Result, ok,
  err, Error, unknown_version, not_connect_frame, missing_header, invalid_operation_for_frame,
  invalid_heart_beat_format, str_eq, codes, ltb, leb, if◌then◌else◌,
}
use go_stomp.Frame.Command.{Command}
use go_stomp.Frame.Data.{Frame}
use go_stomp.Frame.Header.{contains}
use go_stomp.Frame.HeartBeat.{millisecond}
use go_stomp.Frame.Names
use go_stomp.Std.Strconv.{parse_uint, max_uint32}
use go_stomp.Std.Strings.{split, sort_strings, match_pair}

-- version.go: the three versions; `Version` is a string there, and no other value is assigned.
pub data Version : Type 0 where
  v10 v11 v12 : Version

unfoldable pub version_string : Version → Bytes
version_string v10 = codes "1.0"
version_string v11 = codes "1.1"
version_string v12 = codes "1.2"

-- `case stomp.V10: … case stomp.V12:`.
unfoldable pub version_of : Bytes → Option Version
version_of s =
    if str_eq s (codes "1.0")
    then some v10
    else if str_eq s (codes "1.1")
    then some v11
    else if str_eq s (codes "1.2")
    then some v12
    else none

-- The loop over the sorted versions, with the named results `version, err`.
unfoldable pub pick_version : Result Version → List Bytes → Result Version
unfolding version_of
pick_version r [] = r
pick_version r (v ∷ vs) = pick_version (elim (version_of v) [ some w ↦ ok w | none ↦ r ]) vs

abbrev is_connect : Command → Bool
is_connect Command.connect = true
is_connect _ = false

abbrev is_stomp : Command → Bool
is_stomp Command.stomp = true
is_stomp _ = false

unfoldable pub determine_version : Frame → Result Version
unfolding pick_version contains
determine_version f =
    if is_connect f.command
    then elim (contains f.header Names.accept_version) [
      | some accept ↦ pick_version (err unknown_version) (sort_strings (split b',' accept))
      | none ↦ ok v10
    ]
    else if is_stomp f.command
    then elim (contains f.header Names.accept_version) [
      | some accept ↦ pick_version (err unknown_version) (sort_strings (split b',' accept))
      | none ↦ err (missing_header Names.accept_version)
    ]
    else err not_connect_frame

abbrev pub is_connect_frame : Command → Bool
is_connect_frame Command.connect = true
is_connect_frame Command.stomp = true
is_connect_frame Command.connected = true
is_connect_frame _ = false

-- `value, _ := strconv.ParseUint(…, 10, 32)`: on an error of range the value is the greatest one,
-- on one of syntax 0.
unfoldable pub uint_or_limit : Bytes → ℕ
uint_or_limit s = elim (parse_uint max_uint32 s) [
  | ok n ↦ n
  | err Error.number_range ↦ max_uint32
  | err _ ↦ 0
]

-- `slice[0]` and `slice[1]`; the pattern that is tested first leaves two parts.
unfoldable pub pair_values : List Bytes → ℕ × ℕ
unfolding uint_or_limit
pair_values (first ∷ second ∷ rest) = (uint_or_limit first, uint_or_limit second)
pair_values _ = (0, 0)

unfoldable pub get_heart_beat : Frame → Result (ℕ × ℕ)
unfolding pair_values contains
get_heart_beat f =
    if is_connect_frame f.command
    then elim (contains f.header Names.heart_beat) [
      | some value ↦
          if match_pair (λ n. leb 1 n && leb n 9) value
          then ok (pair_values (split b',' value))
          else err invalid_heart_beat_format
      | none ↦ ok (0, 0)
    ]
    else err invalid_operation_for_frame

abbrev pub max_heart_beat : ℕ
max_heart_beat = 999999999

-- `asMilliseconds` of a duration and a limit that are not negative.
unfoldable pub as_milliseconds : ℕ → ℕ → ℕ
as_milliseconds d max = let msec = d / millisecond in if ltb max msec then max else msec

-- The minimum that the server's own heart-beat sets: `if cx > 0 && cx < min { cx = min }`.
unfoldable pub apply_minimum : ℕ → ℕ → ℕ
apply_minimum min cx = if ltb 0 cx && ltb cx min then min else cx
