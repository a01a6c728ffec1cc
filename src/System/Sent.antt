-- ===== src/System/Sent.antt =====
-- A call of `Send`, up to the request processor of the server.
use go_stomp.Base.{◌≡◌, refl, Bytes, true, none, some, [], ◌∷◌, ◌++◌, ok, str_eq, arith}
use go_stomp.Client.Calls.{
  Client, Answers, send, create_send_frame, count_write, send_data_to_write_ch_with_timeout,
}
use go_stomp.Client
use go_stomp.Server
use go_stomp.Client.Calls.Sending.{plain_frame, create_send_frame-plain}
use go_stomp.Client.Calls.Transaction.Laws.{IsReady, count_write-conn, send_request-ready}
use go_stomp.Client.Conn.{WriteRequest}
use go_stomp.Client.Loop.{
  Loop, went_on, on_request, remember, prepare, write_or_stop, write_request,
}
use go_stomp.Frame.Command.{Command}
use go_stomp.Frame.Data.{Frame}
use go_stomp.Frame.Header.{contains}
use go_stomp.Frame.Link.{write_link}
use go_stomp.Frame.Names
use go_stomp.Server.Conn.{Config, St, connected, returned}
use go_stomp.Server.Conn.Handlers.{
  call_state, run_connected, dispatch, handle_send, send_receipt_immediately,
}
use go_stomp.Server.Conn.Loop.{on_read, validate, frame_read}
use go_stomp.Server.Objects.{enqueue_op}

-- The header entries that count on the way.
pub plain_frame-contains :
    (d t b : Bytes)
    → (contains (plain_frame d t b).header Names.receipt ≡ none)
      × (contains (plain_frame d t b).header Names.transaction ≡ none)
      × (contains (plain_frame d t b).header Names.destination ≡ some d)
unfolding contains str_eq
plain_frame-contains d [] b = (refl, refl, refl)
plain_frame-contains d (x ∷ t) b = (refl, refl, refl)

abbrev pub plain_request : Bytes → Bytes → Bytes → WriteRequest
plain_request d t b = record { frame = plain_frame d t b; channel = none }

pub send-plain :
    (w : Answers) (d t b : Bytes) (c : Client)
    → IsReady w c.conn
    → (r : Client) × (send w d t b [] c ≡ Client.Calls.returned (ok tt) r)
      × (r.conn.write_requests ≡ c.conn.write_requests ++ plain_request d t b ∷ [])
unfolding send send_data_to_write_ch_with_timeout
send-plain w d t b c y =
    let (n, q) = count_write-conn c in
    let (no_receipt, no_transaction, to) = plain_frame-contains d t b in
    (
      record c {
        conn = record (c.conn) {
          writes_sent = n;
          write_requests = c.conn.write_requests ++ plain_request d t b ∷ [];
        };
      },
      ground (
        arith,
        y.unshut,
        y.writes,
        y.taken,
        create_send_frame-plain d t b c,
        q,
        no_receipt,
        send_request-ready w (plain_request d t b)
            (record c { conn = record (c.conn) { writes_sent = n } })
            (record { unshut = y.unshut; writes = y.writes; taken = y.taken }),
      ),
      refl,
    )

pub on_event-plain_request :
    (fault : Bytes) (d t b : Bytes) (l : Loop)
    → l.link.room ≡ none
    → Client.Loop.on_event fault (write_request (some (plain_request d t b))) l
      ≡ went_on tt (record l {
        link = record (l.link) { written = l.link.written ++ some (plain_frame d t b) ∷ [] };
      })
unfolding Client.Loop.on_event on_request remember prepare write_or_stop write_link
on_event-plain_request fault d t b l r = ground (arith, r)

-- The frame as the request processor gets it.
abbrev pub plain_message : Bytes → Bytes → Bytes → Frame
plain_message d t b = record (plain_frame d t b) { command = Command.message }

pub on_event-plain_frame :
    (config : Config) (d t b : Bytes) (s : St)
    → s.conn.state_func ≡ connected
    → Server.Conn.Loop.on_event config (frame_read (some (plain_frame d t b))) s
      ≡ returned true (record s {
        frame = plain_message d t b;
        requests = s.requests ++ enqueue_op (plain_message d t b) ∷ [];
      })
unfolding Server.Conn.Loop.on_event on_read validate call_state run_connected dispatch handle_send
    send_receipt_immediately
on_event-plain_frame config d t b s k =
    let (no_receipt, no_transaction, to) = plain_frame-contains d t b in
    ground (arith, k, no_receipt, no_transaction)
