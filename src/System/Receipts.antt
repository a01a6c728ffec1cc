-- ===== src/System/Receipts.antt =====
-- A message that is sent with a receipt, from the client's call to its return.
use go_stomp.Base.{
  ◌≡◌, refl, ◌∙◌, Bytes, true, false, none, some, [], ◌∷◌, ◌++◌, ok, str_eq, find, insert,
  find-insert, str_eq_iff,
}
use go_stomp.Client
use go_stomp.Client.Calls.{
  Client, Answers, send, create_send_frame, with_content_type, run_options, count_write,
  send_data_to_write_ch_with_timeout, read_receipt_with_timeout, receipt_or_error,
}
use go_stomp.Client.Calls.Options.{receipt}
use go_stomp.Client.Calls.Transaction.Laws.{IsReady}
use go_stomp.Client.Loop.{
  Loop, is_shut, delivered, channel_closed, went_on, on_request, remember, prepare, write_or_stop,
  write_request,
}
use go_stomp.Client.Loop.Receipts.{on_event-receipt}
use go_stomp.Client.Versions.{allocate_id}
use go_stomp.Frame.Data.{Frame}
use go_stomp.Frame.Header.{contains}
use go_stomp.Server
use go_stomp.Server.Conn.{Config, St, connected, returned, send_immediately}
use go_stomp.Server.Conn.Loop.{on_read, validate, frame_read}
use go_stomp.Server.Objects.{enqueue_op}
use go_stomp.System.Sent.{plain_message}
use go_stomp.System.Asking.{
  asking_frame, receipt_frame, receipted, send-receipt, on_event-asking_frame, on_event-asks,
}

module _ (d t b : Bytes) (c : Client) (l : Loop) (s : St) (config : Config) (fault : Bytes) where
  abbrev pub receipt_id : Bytes
  receipt_id = (allocate_id c.last_id).0

  -- `Send` with a receipt and no other option, from the call to its return. The call asks for a frame
  -- with a new receipt id to be written, on a channel of its own, which the client's loop then knows
  -- by that id; the server's connection that reads the frame answers with a RECEIPT frame of that id,
  -- and asks the processor to enqueue the message, without the header "receipt"; the client's loop
  -- puts the RECEIPT frame on the channel, closes it and forgets it; and with that frame received the
  -- call returns nil. The connections are open, that of the server is past the handshake, the
  -- networks take the frames, and the channel is not closed.
  pub send-receipted :
      IsReady (receipted receipt_id) c.conn
      → l.link.room ≡ none
      → is_shut c.channels l.uses ≡ false
      → s.conn.state_func ≡ connected
      → s.conn.link.room ≡ none
      → (c' : Client) × (f r : Frame) × (asked heard : Loop) × (s' : St) × (send
            (receipted receipt_id)
            d
            t
            b
            (some receipt ∷ [])
            c
          ≡ Client.Calls.returned (ok tt) c')
        × (c'.conn.write_requests
            ≡ c.conn.write_requests ++ record { frame = f; channel = some c.channels } ∷ [])
        × (Client.Loop.on_event fault
              (write_request (some (record { frame = f; channel = some c.channels })))
              l
            ≡ went_on tt asked)
        × (asked.link.written ≡ l.link.written ++ some f ∷ [])
        × (Server.Conn.Loop.on_event config (frame_read (some f)) s ≡ returned true s')
        × (s'.conn.link.written ≡ s.conn.link.written ++ some r ∷ [])
        × (s'.requests ≡ s.requests ++ enqueue_op (plain_message d t b) ∷ [])
        × ((receipted receipt_id).reply ≡ some (some r))
        × (Client.Loop.on_event fault (Client.Loop.frame_read (some (some r))) asked
            ≡ went_on tt heard)
        × (heard.uses ≡ (l.uses ++ delivered c.channels r ∷ []) ++ channel_closed c.channels ∷ [])
        × (find heard.channels receipt_id ≡ none)
  unfolding contains str_eq
  send-receipted y r o k q =
      let (c', sent, requested) = send-receipt d t b c y in
      let (s', answered, written, enqueued) = on_event-asking_frame d t b config receipt_id s k q in
      let asked : Loop = record l {
        channels = insert l.channels receipt_id (some c.channels);
        link = record (l.link) {
          written = l.link.written ++ some (asking_frame d t b receipt_id) ∷ [];
        };
      } in
      let known : find asked.channels receipt_id ≡ some (some c.channels) =
        find-insert l.channels receipt_id (some c.channels) receipt_id
        ∙ rw ((str_eq_iff receipt_id receipt_id).1 refl) refl in
      let (heard, passed, uses, same, gone) =
        on_event-receipt fault asked (receipt_frame receipt_id) refl refl known o in
      (
        c',
        asking_frame d t b receipt_id,
        receipt_frame receipt_id,
        asked,
        heard,
        s',
        sent,
        requested,
        on_event-asks d t b fault receipt_id c.channels l r,
        refl,
        answered,
        written,
        enqueued,
        refl,
        passed,
        uses,
        gone receipt_id ∙ rw ((str_eq_iff receipt_id receipt_id).1 refl) refl,
      )
