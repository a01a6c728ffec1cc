-- ===== src/Server/Conn/Numbering.antt =====
-- The numbers and headers of the messages that a connection writes.
use go_stomp.Base.{
  ℕ, ◌+◌, ◌%◌, ◌^◌, ◌≡◌, refl, Bytes, [], ◌∷◌, ◌++◌, none, some, str_eq, if◌then◌else◌, true,
  Bool-cases, inl, inr,
}
use go_stomp.Frame.Command.{Command}
use go_stomp.Frame.Data.{Frame}
use go_stomp.Frame.Header.{contains, set, del}
use go_stomp.Frame.Header.Laws.{contains-set, contains-del}
use go_stomp.Frame.Names
use go_stomp.Std.Strconv.{format_uint}
use go_stomp.Server.Conn.{send_immediately, write_link, St, returned}
use go_stomp.Server.Conn.Loop.{number_frame, allocate_message_id, on_write}

-- The header of a numbered frame: "message-id" and "id" are the number; "ack" is the number too
-- where the subscription asks for acknowledgements, and absent where it does not; every other
-- entry is found as before.
pub contains-number_frame :
    (n : ℕ) (ack : Bytes) (f : Frame) (key : Bytes)
    → contains (number_frame n ack f).header key ≡ (
        if str_eq Names.ack key
        then if str_eq ack Names.ack_auto then none else some (format_uint n)
        else if str_eq Names.id key
        then some (format_uint n)
        else if str_eq Names.message_id key
        then some (format_uint n)
        else contains f.header key)
unfolding number_frame
contains-number_frame n ack f key = elim (Bool-cases (str_eq ack Names.ack_auto)) [
  | inl e ↦ rw e (rw (contains-del h Names.ack key) (simp contains-set))
  | inr e ↦ rw e (simp contains-set)
]
  where
    h : go_stomp.Frame.Header.Header
    h = set (set f.header Names.message_id (format_uint n)) Names.id (format_uint n)

-- A MESSAGE frame that a topic sent is numbered, with the mode of an automatic acknowledgement, and
-- written, if the network takes it, and the loop goes on; its number is one above the last number
-- used and is then the last one used. The numbers wrap at 2^64.
pub on_write-numbers :
    (f : Frame) (s : St)
    → f.command ≡ Command.message
    → s.conn.link.room ≡ none
    → (t : St) × (on_write f s ≡ returned true t)
      × (t.conn.last_msg_id ≡ (s.conn.last_msg_id + 1) % 2 ^ 64)
      × (t.conn.link.written
          ≡ s.conn.link.written ++ some (number_frame t.conn.last_msg_id Names.ack_auto f) ∷ [])
unfolding on_write allocate_message_id send_immediately write_link number_frame
on_write-numbers f s c r = (
  record s {
    conn = record (s.conn) {
      last_msg_id = (s.conn.last_msg_id + 1) % 2 ^ 64;
      link = record (s.conn.link) {
        written =
            s.conn.link.written
            ++ some (number_frame ((s.conn.last_msg_id + 1) % 2 ^ 64) Names.ack_auto f) ∷ [];
      };
    };
  },
  rw (c, r),
  refl,
  refl,
)
