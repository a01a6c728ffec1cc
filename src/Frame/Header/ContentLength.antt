-- ===== src/Frame/Header/ContentLength.antt =====
-- `ContentLength` of a header. An int has 64 bits, so the conversion from uint64 changes nothing.
use go_stomp.Base.{ℕ, Option, none, some, Result, ok, ◌>>=◌}
use go_stomp.Frame.Header.{Header, contains}
use go_stomp.Frame.Names
use go_stomp.Std.Strconv.{parse_uint, max_uint32}

-- `ok none` where the source returns `0, false, nil`.
unfoldable pub content_length : Header → Result (Option ℕ)
unfolding contains
content_length h = elim (contains h Names.content_length) [
  | none ↦ ok none
  | some text ↦ parse_uint max_uint32 text >>= λ n. ok (some n)
]
