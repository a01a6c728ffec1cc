-- ===== src/Client/Loop.antt =====
-- conn.go: `processLoop` and `sendError` of the client. What its `select` receives is an event; a
-- channel for frames is a number, and what is done on such channels is kept in order.
pub mod Channels
pub mod Safety
pub mod Changes
pub mod Requests
pub mod Rounds
pub mod Receipts
use go_stomp.Base.{
  ℕ, Bytes, Bool, true, false, ◌||◌, Option, none, some, List, [], ◌∷◌, ◌++◌, map, Dict, find,
  insert, delete, codes, ◌==◌, if◌then◌else◌,
}
use go_stomp.Client.Conn.{Conn, WriteRequest}
use go_stomp.Frame.Command.{Command}
use go_stomp.Frame.Data.{Frame, new}
use go_stomp.Frame.Header.{contains, set}
use go_stomp.Frame.Link.{Link, write_link}
use go_stomp.Frame.Names
pub use go_stomp.Client.Turns.{
  ChannelUse, Loop, is_shut, Fault, Turn, go_on, ◌>>=◌, ◌>>◌, pure, stop, get_channels,
  put_channels, channels_of, L, delivered, channel_closed, send_on_closed, close_of_closed,
  close_of_nil, went_on, stopped, blocked, panicked,
}
unfoldable pub use go_stomp.Client.Turns.{send_to, close_channel, send_each}

-- `sendError(channels, err)`, given `err.Error()`.
unfoldable pub send_error : Bytes → L (Unit {0})
unfolding new send_each
send_error text = do
  m ← get_channels
  send_each (new Command.error ((Names.message, text) ∷ [])) (channels_of m)

unfoldable pub on_receipt : Frame → L (Unit {0})
unfolding contains find delete send_to close_channel send_error
on_receipt f = elim (contains f.header Names.receipt_id) [
  | some id ↦ do
    m ← get_channels
    elim (find m id) [
      | some ch ↦ do send_to ch f; put_channels (delete m id); close_channel ch
      | none ↦ pure tt
    ]
  | none ↦ do send_error (codes "missing receipt-id"); stop
]

-- The loop over the channels at an ERROR frame.
unfoldable pub finish_each : Frame → List (Option ℕ) → L (Unit {0})
unfolding send_to close_channel
finish_each f [] = pure tt
finish_each f (ch ∷ chs) = send_to ch f >> close_channel ch >> finish_each f chs

abbrev pub close_conn : Conn → Conn
close_conn c = record c { closed = true; link_closed = true }

unfoldable pub on_error : Frame → L (Unit {0})
unfolding finish_each
on_error f = do
  m ← get_channels
  finish_each f (channels_of m)
  λ s. stopped (record s { conn = close_conn s.conn })

unfoldable pub on_message : Frame → L (Unit {0})
unfolding contains find send_to
on_message f = elim (contains f.header Names.subscription) [
  | some id ↦ do m ← get_channels; elim (find m id) [ some ch ↦ send_to ch f | none ↦ pure tt ]
  | none ↦ pure tt
]

-- `switch f.Command` for a frame that was read.
unfoldable pub on_frame : Command → Frame → L (Unit {0})
unfolding on_receipt on_error on_message
on_frame Command.receipt f = on_receipt f
on_frame Command.error f = on_error f
on_frame Command.message f = on_message f
on_frame Command.connect f = pure tt
on_frame Command.stomp f = pure tt
on_frame Command.connected f = pure tt
on_frame Command.send f = pure tt
on_frame Command.subscribe f = pure tt
on_frame Command.unsubscribe f = pure tt
on_frame Command.ack f = pure tt
on_frame Command.nack f = pure tt
on_frame Command.begin f = pure tt
on_frame Command.commit f = pure tt
on_frame Command.abort f = pure tt
on_frame Command.disconnect f = pure tt

-- The channel is remembered under the receipt.
unfoldable pub remember : WriteRequest → L (Unit {0})
unfolding contains insert
remember req = elim req.channel [
  | none ↦ pure tt
  | some c ↦ elim (contains req.frame.header Names.receipt) [
    | none ↦ pure tt
    | some receipt ↦ do m ← get_channels; put_channels (insert m receipt (some c))
  ]
]

-- An id that is not there reads as "".
abbrev pub id_of : Frame → Bytes
id_of f = elim (contains f.header Names.id) [ some id ↦ id | none ↦ [] ]

-- The cases of `switch req.Frame.Command`: the frame to write, if it is to be written.
unfoldable pub on_subscribe : WriteRequest → L (Option Frame)
unfolding contains insert
on_subscribe req = do
  m ← get_channels
  elim (contains req.frame.header Names.reply_to) [
    | some reply_to ↦ do put_channels (insert m reply_to req.channel); pure none
    | none ↦ do put_channels (insert m (id_of req.frame) req.channel); pure (some req.frame)
  ]

unfoldable pub on_unsubscribe : WriteRequest → L (Option Frame)
unfolding contains find delete close_channel set
on_unsubscribe req = do
  m ← get_channels
  elim (contains req.frame.header Names.reply_to) [
    | some reply_to ↦ elim (find m reply_to) [
      | some ch ↦ do put_channels (delete m reply_to); close_channel ch; pure none
      | none ↦ pure none
    ]
    | none ↦ pure (
        some (record (req.frame) { header = set req.frame.header Names.receipt (id_of req.frame) }))
  ]

unfoldable pub prepare : Command → WriteRequest → L (Option Frame)
unfolding on_subscribe on_unsubscribe
prepare Command.subscribe req = on_subscribe req
prepare Command.unsubscribe req = on_unsubscribe req
prepare Command.connect req = pure (some req.frame)
prepare Command.stomp req = pure (some req.frame)
prepare Command.connected req = pure (some req.frame)
prepare Command.send req = pure (some req.frame)
prepare Command.ack req = pure (some req.frame)
prepare Command.nack req = pure (some req.frame)
prepare Command.begin req = pure (some req.frame)
prepare Command.commit req = pure (some req.frame)
prepare Command.abort req = pure (some req.frame)
prepare Command.disconnect req = pure (some req.frame)
prepare Command.message req = pure (some req.frame)
prepare Command.receipt req = pure (some req.frame)
prepare Command.error req = pure (some req.frame)

-- `writer.Write(f)`; on an error every channel gets it, and the loop returns.
unfoldable pub write_or_stop : Bytes → Option Frame → L (Unit {0})
unfolding write_link send_error
write_or_stop fault f s = elim (write_link f s.link) [
  | some l ↦ went_on tt (record s { link = l })
  | none ↦ (send_error fault >> stop) s
]

unfoldable pub on_request : Bytes → WriteRequest → L (Unit {0})
unfolding remember prepare write_or_stop
on_request fault req = do
  remember req
  f ← prepare req.frame.command req
  elim f [ none ↦ pure tt | some g ↦ write_or_stop fault (some g) ]

-- What the loop receives: a timer fires, a frame or a heart-beat is read or the channel of frames
-- is closed, a request to write comes or the channel of requests is closed.
pub data Event : Type 0 where
  read_timeout : Event
  write_timeout : Event
  frame_read : Option (Option Frame) → Event
  write_request : Option WriteRequest → Event

-- One round of the loop; `fault` is the text of a network error.
unfoldable pub on_event : Bytes → Event → L (Unit {0})
unfolding on_frame on_request send_error write_or_stop
on_event fault read_timeout = do send_error (codes "read timeout"); stop
on_event fault write_timeout = write_or_stop fault none
on_event fault (frame_read none) = do send_error (codes "connection closed"); stop
on_event fault (frame_read (some none)) = pure tt
on_event fault (frame_read (some (some f))) = on_frame f.command f
on_event fault (write_request none) = do send_error (codes "write channel closed"); stop
on_event fault (write_request (some req)) = on_request fault req

-- `MustDisconnect`, which `processLoop` defers.
unfoldable pub must_disconnect : Conn → Conn
must_disconnect c =
    if c.closed then c else record c { write_closed = true; closed = true; link_closed = true }

-- The loop over the events that come, with what it defers once it returns.
unfoldable pub process_loop : Bytes → List Event → L (Unit {0})
unfolding must_disconnect
process_loop fault [] s = went_on tt s
process_loop fault (e ∷ es) s = elim (on_event fault e s) [
  | went_on a t ↦ process_loop fault es t
  | stopped t ↦ stopped (record t { conn = must_disconnect t.conn })
  | blocked ↦ blocked
  | panicked p ↦ panicked p
]
