-- ===== src/Frame/Writer.antt =====
-- frame/writer.go: `Writer.Write` as writes of byte slices to a connection.
pub mod Render
use go_stomp.Base.{
  ℕ, ◌+◌, ◌-◌, ◌≤◌, ◌≡◌, refl, Bool, true, false, Option, none, some, List, [], ◌∷◌, ◌++◌, Bytes,
  leb, if◌then◌else◌, length, take,
}
use go_stomp.Frame.Codec.{encode_value}
use go_stomp.Frame.Command.{command_name}
use go_stomp.Frame.Data.{Frame}
use go_stomp.Frame.Header.{Header}

-- The connection below the writer: what it has taken, and how many more bytes it takes before it
-- fails (`none`: it never fails). The bytes that bufio.Writer holds back are counted as taken; it
-- reports a fault in a later call, in `Flush` at the latest, so `Write` returns the same.
pub record Sink : Type 0 where
  pub sent : Bytes
  pub room : Option ℕ

-- The new state, and whether the error is nil.
abbrev pub Write : Type 0
Write = Sink → Sink × Bool

-- `if err != nil { return err }` between two writes.
infixl 5 ◌>>◌
abbrev pub ◌>>◌ : Write → Write → Write
◌>>◌ m k s = let (t, fine) = m s in if fine then k t else (t, false)

unfoldable pub write_bytes : Bytes → Write
write_bytes b s = elim s.room [
  | none ↦ (record s { sent = s.sent ++ b }, true)
  | some n ↦
      if leb (length b) n
      then (record { sent = s.sent ++ b; room = some (n - length b) }, true)
      else (record { sent = s.sent ++ take n b; room = some 0 }, false)
]

-- `Flush` at the end, when all is written.
abbrev flush : Write
flush s = (s, true)

abbrev newline_slice : Bytes
newline_slice = b'\n' ∷ []

abbrev colon_slice : Bytes
colon_slice = b':' ∷ []

abbrev null_slice : Bytes
null_slice = 0 ∷ []

unfoldable pub write_headers : Header → Write
unfolding write_bytes encode_value
write_headers [] s = (s, true)
write_headers ((key, value) ∷ h) s =
    (do
      write_bytes (encode_value key)
      write_bytes colon_slice
      write_bytes (encode_value value)
      write_bytes newline_slice
      write_headers h)
      s

unfoldable pub write_body : Bytes → Write
unfolding write_bytes
write_body [] s = (s, true)
write_body (c ∷ body) s = write_bytes (c ∷ body) s

-- `none` is the nil frame, a heart-beat.
unfoldable pub write : Option Frame → Write
unfolding write_bytes write_headers write_body command_name
write none = do write_bytes newline_slice; flush
write (some f) = do
  write_bytes (command_name f.command)
  write_bytes newline_slice
  write_headers f.header
  write_bytes newline_slice
  write_body f.body
  write_bytes null_slice
  flush
