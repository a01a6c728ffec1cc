-- ===== src/Server/Negotiation/Laws.antt =====
-- Which version `determineVersion` settles on.
use go_stomp.Base.{
  invalid_heart_beat_format, length, ℕ, ◌≤◌, ◌≡◌, refl, ◌∙◌, ◌⊎◌, Bytes, Bool, true, false, ◌&&◌,
  none, some, List, [], ◌∷◌, ◌++◌, Result, ok, err, unknown_version, str_eq_iff, codes, leb,
  if◌then◌else◌, arith,
}
use go_stomp.Frame.Command.{Command}
use go_stomp.Frame.Data.{Frame}
use go_stomp.Frame.Header.{contains}
use go_stomp.Frame.Names
use go_stomp.Std.Strconv.RoundTrip.{
  format_uint-length, format_uint-length-le, parse_uint-format_uint, format_uint-All,
}
use go_stomp.Std.Strconv.{parse_uint, max_uint32, format_uint}
use go_stomp.Std.Strings.Split.{split_pair, match_pair_lem}
use go_stomp.Std.Strings.{match_pair, split, sort_strings, str_lt}
use go_stomp.Std.Strings.Sort.{IsSorted, mem, mem-sort_strings, sort_strings-IsSorted, mem-less}
use go_stomp.Server.Negotiation.{
  Version, v10, v11, v12, version_of, pick_version, determine_version, is_connect_frame,
  get_heart_beat, uint_or_limit, pair_values, max_heart_beat,
}

-- The best of the versions that a list names.
abbrev pub best_version : List Bytes → Result Version → Result Version
best_version vs r =
    if mem (codes "1.2") vs
    then ok v12
    else if mem (codes "1.1") vs
    then ok v11
    else if mem (codes "1.0") vs
    then ok v10
    else r

pick_version-best :
    (r : Result Version) (vs : List Bytes) → IsSorted vs → pick_version r vs ≡ best_version vs r
unfolding pick_version mem str_lt
pick_version-best r [] h = refl
pick_version-best r (v ∷ vs) h =
    pick_version-best next vs h.1
    ∙ ground (
      arith,
      str_eq_iff v (codes "1.0"),
      str_eq_iff v (codes "1.1"),
      str_eq_iff v (codes "1.2"),
      less (codes "1.0") (codes "1.1"),
      less (codes "1.0") (codes "1.2"),
      less (codes "1.1") (codes "1.2"),
    )
  where
    next : Result Version
    next = elim (version_of v) [ some w ↦ ok w | none ↦ r ]

    less : (k s : Bytes) → v ≡ s → str_lt k s ≡ true → mem k vs ≡ false
    less k s e l = mem-less k v vs (rw e l) h.0

-- On a CONNECT or STOMP frame with an "accept-version" header, the version is the highest that the
-- header names among 1.0, 1.1 and 1.2, in whatever order it names them, and it is an error if it
-- names none of these.
pub determine_version-best :
    (f : Frame) (accept : Bytes)
    → (f.command ≡ Command.connect) ⊎ (f.command ≡ Command.stomp)
    → contains f.header Names.accept_version ≡ some accept
    → determine_version f ≡ best_version (split b',' accept) (err unknown_version)
unfolding determine_version
determine_version-best f accept c h = ground (arith, sorted)
  where
    vs : List Bytes
    vs = split b',' accept

    sorted :
        pick_version (err unknown_version) (sort_strings vs) ≡ best_version vs (err unknown_version)
    sorted = pick_version-best _ _ (sort_strings-IsSorted vs) ∙ simp mem-sort_strings

length-format_uint :
    (n : ℕ)
    → (leb 1 (length (format_uint n)) && leb (length (format_uint n)) 9) ≡ leb n max_heart_beat
length-format_uint n = ground (arith, format_uint-length n, format_uint-length-le 8 n)

uint_or_limit-format_uint : (n : ℕ) → n ≤ max_heart_beat → uint_or_limit (format_uint n) ≡ n
unfolding uint_or_limit
uint_or_limit-format_uint n h =
    let e : parse_uint max_uint32 (format_uint n) ≡ ok n =
      parse_uint-format_uint max_uint32 n ∙ ground arith in
    rw (e, uint_or_limit)

-- Of a CONNECT, STOMP or CONNECTED frame whose "heart-beat" header is two decimal numbers with a
-- comma between them, `getHeartBeat` returns these numbers exactly if neither is above
-- 999,999,999, and else an error.
pub get_heart_beat-format_uint :
    (f : Frame) (a b : ℕ)
    → is_connect_frame f.command ≡ true
    → contains f.header Names.heart_beat ≡ some (format_uint a ++ (b',' ∷ format_uint b))
    → get_heart_beat f ≡ (
        if leb a max_heart_beat && leb b max_heart_beat
        then ok (a, b)
        else err invalid_heart_beat_format)
unfolding get_heart_beat pair_values
get_heart_beat-format_uint f a b c h = ground (
  arith,
  c,
  h,
  matched,
  split_pair _ _ (format_uint-All a) (format_uint-All b),
  uint_or_limit-format_uint a,
  uint_or_limit-format_uint b,
)
  where
    fits : ℕ → Bool
    fits n = leb 1 n && leb n 9

    matched :
        match_pair fits (format_uint a ++ (b',' ∷ format_uint b))
        ≡ leb a max_heart_beat && leb b max_heart_beat
    matched =
        match_pair_lem fits _ _ (format_uint-All a) (format_uint-All b)
        ∙ rw (length-format_uint a, length-format_uint b)
