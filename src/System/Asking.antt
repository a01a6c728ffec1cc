-- ===== src/System/Asking.antt =====
-- A message that asks for a receipt: the call, the loops and the server's answer.
use go_stomp.Base.{
  ℕ, ◌+◌, ◌≡◌, refl, ◌∙◌, Bytes, true, none, some, [], ◌∷◌, ◌++◌, ok, str_eq, arith, insert,
}
use go_stomp.Client
use go_stomp.Client.Calls.{
  Client, Answers, send, create_send_frame, with_content_type, run_options, count_write,
  send_data_to_write_ch_with_timeout, read_receipt_with_timeout, receipt_or_error,
}
use go_stomp.Client.Calls.Options.{receipt}
use go_stomp.Client.Calls.Sending.{plain_frame}
use go_stomp.Client.Calls.Transaction.Laws.{IsReady, count_write-conn, send_request-ready}
use go_stomp.Client.Conn.{WriteRequest}
use go_stomp.Client.Loop.{
  Loop, is_shut, delivered, channel_closed, went_on, on_request, remember, prepare, write_or_stop,
  write_request,
}
use go_stomp.Client.Versions.{allocate_id}
use go_stomp.Frame.Command.{Command}
use go_stomp.Frame.Data.{Frame, new}
use go_stomp.Frame.Header.{contains, set, del}
use go_stomp.Frame.Header.Laws.{contains-set, without, del-without}
use go_stomp.Frame.Link.{write_link}
use go_stomp.Frame.Names
use go_stomp.Server
use go_stomp.Server.Conn.{Config, St, connected, returned, send_immediately}
use go_stomp.Server.Conn.Handlers.{
  call_state, run_connected, dispatch, handle_send, send_receipt_immediately,
}
use go_stomp.Server.Conn.Loop.{on_read, validate, frame_read}
use go_stomp.Server.Objects.{enqueue_op}
use go_stomp.System.Sent.{plain_message, plain_frame-contains}

abbrev pub asking_frame : Bytes → Bytes → Bytes → Bytes → Frame
asking_frame d t b id = record (plain_frame d t b) {
  header = set (plain_frame d t b).header Names.receipt id;
}

abbrev pub receipt_frame : Bytes → Frame
receipt_frame id = record {
  command = Command.receipt;
  header = (Names.receipt_id, id) ∷ [];
  body = [];
}

-- The method's request is taken, and it receives the RECEIPT frame.
abbrev pub receipted : Bytes → Answers
receipted id = record { taken = true; reply = some (some (receipt_frame id)) }

create_send_frame-receipt :
    (d t b : Bytes) (c : Client)
    → create_send_frame d t b (some receipt ∷ []) c
      ≡ Client.Calls.returned
          (ok (asking_frame d t b (allocate_id c.last_id).0))
          (record c { last_id = (allocate_id c.last_id).1 })
unfolding create_send_frame run_options receipt with_content_type new set str_eq
create_send_frame-receipt d [] b c = refl
create_send_frame-receipt d (x ∷ t) b c = refl

del-asking_frame :
    (d t b id : Bytes)
    → del (asking_frame d t b id).header Names.receipt ≡ (plain_frame d t b).header
unfolding set without str_eq
del-asking_frame d [] b id = del-without (asking_frame d [] b id).header Names.receipt
del-asking_frame d (x ∷ t) b id = del-without (asking_frame d (x ∷ t) b id).header Names.receipt

module _ (d t b : Bytes) where
  asking_frame-contains :
      (id : Bytes)
      → (contains (asking_frame d t b id).header Names.receipt ≡ some id)
        × (contains (asking_frame d t b id).header Names.transaction ≡ none)
  unfolding str_eq
  asking_frame-contains id =
      let (no_receipt, no_transaction, to) = plain_frame-contains d t b in
      (
        contains-set (plain_frame d t b).header Names.receipt id Names.receipt,
        contains-set (plain_frame d t b).header Names.receipt id Names.transaction ∙ no_transaction,
      )

  pub send-receipt :
      (c : Client)
      → IsReady (receipted (allocate_id c.last_id).0) c.conn
      → (r : Client) × (send (receipted (allocate_id c.last_id).0) d t b (some receipt ∷ []) c
          ≡ Client.Calls.returned (ok tt) r)
        × (r.conn.write_requests
            ≡ c.conn.write_requests
              ++ record {
                frame = asking_frame d t b (allocate_id c.last_id).0;
                channel = some c.channels;
              }
                ∷ [])
  unfolding send send_data_to_write_ch_with_timeout read_receipt_with_timeout receipt_or_error
  send-receipt c y =
      let (id, last) = allocate_id c.last_id in
      let c1 : Client = record c { last_id = last } in
      let (n, q) = count_write-conn c1 in
      let (asked, rest) = asking_frame-contains id in
      let request : WriteRequest = record {
        frame = asking_frame d t b id;
        channel = some c.channels;
      } in
      let c2 : Client = record c1 {
        channels = c.channels + 1;
        conn = record (c.conn) { writes_sent = n };
      } in
      (
        record c2 {
          conn = record (c2.conn) { write_requests = c.conn.write_requests ++ request ∷ [] };
        },
        ground (
          arith,
          y.unshut,
          y.writes,
          create_send_frame-receipt d t b c,
          q,
          asked,
          send_request-ready (receipted id) request c2
              (record { unshut = y.unshut; writes = y.writes; taken = y.taken }),
        ),
        refl,
      )

  pub on_event-asking_frame :
      (config : Config) (id : Bytes) (s : St)
      → s.conn.state_func ≡ connected
      → s.conn.link.room ≡ none
      → (u : St) × (Server.Conn.Loop.on_event config (frame_read (some (asking_frame d t b id))) s
          ≡ returned true u)
        × (u.conn.link.written ≡ s.conn.link.written ++ some (receipt_frame id) ∷ [])
        × (u.requests ≡ s.requests ++ enqueue_op (plain_message d t b) ∷ [])
  unfolding Server.Conn.Loop.on_event on_read validate call_state run_connected dispatch handle_send
      send_receipt_immediately send_immediately write_link new
  on_event-asking_frame config id s k r =
      let (asked, no_transaction) = asking_frame-contains id in
      let (no_receipt, none_at_all, to) = plain_frame-contains d t b in
      (
        record s {
          frame = plain_message d t b;
          conn = record (s.conn) {
            link = record (s.conn.link) {
              written = s.conn.link.written ++ some (receipt_frame id) ∷ [];
            };
          };
          requests = s.requests ++ enqueue_op (plain_message d t b) ∷ [];
        },
        ground (arith, k, r, asked, del-asking_frame d t b id, none_at_all),
        refl,
        refl,
      )

  pub on_event-asks :
      (fault : Bytes) (id : Bytes) (ch : ℕ) (l : Loop)
      → l.link.room ≡ none
      → Client.Loop.on_event fault
          (write_request (some (record { frame = asking_frame d t b id; channel = some ch })))
          l
        ≡ went_on tt (record l {
          channels = insert l.channels id (some ch);
          link = record (l.link) { written = l.link.written ++ some (asking_frame d t b id) ∷ [] };
        })
  unfolding Client.Loop.on_event on_request remember prepare write_or_stop write_link
  on_event-asks fault id ch l r = ground (arith, (asking_frame-contains id).0, r)
