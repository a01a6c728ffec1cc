-- ===== src/System/Transactions/Calls.antt =====
-- The client's calls in a transaction.
use go_stomp.Base.{
  ◌≡◌, refl, sym, ap, ◌∙◌, true, false, none, some, List, [], ◌∷◌, ◌++◌, map, ok, str_eq, arith,
  append_assoc, append-nil,
}
use go_stomp.Client
use go_stomp.Client.Calls.{Client, Answers, M, Done, ◌>>◌, pure, send_frame}
use go_stomp.Client.Calls.Sending.{create_send_frame-plain}
use go_stomp.Client.Calls.Transaction.{Transaction, in_transaction, send, complete, with_receipt}
use go_stomp.Client.Calls.Transaction.Laws.{IsReady, send_frame-IsReady, receipt-in_transaction}
use go_stomp.Client.Conn.{WriteRequest}
use go_stomp.Frame.Command.{Command}
use go_stomp.Frame.Data.{Frame, new}
use go_stomp.Frame.Header.{contains}
use go_stomp.Server.Conn.Loop.{Event, frame_read}
use go_stomp.System.Sent.{plain_frame-contains}
use go_stomp.System.Transactions.{Text, frame_of, about}

abbrev pub read_event : Frame → Event
read_event f = frame_read (some f)

-- A request to write a frame, of a call that waits for nothing.
abbrev pub plain : Frame → WriteRequest
plain f = record { frame = f; channel = none }

module _ (w : Answers) (tx : Transaction) where
  -- `Send` on the transaction, for each message.
  abbrev pub send_each : List Text → M (Unit {0})
  send_each [] = pure tt
  send_each (m ∷ ms) = send w tx m.destination m.content_type m.body [] >> send_each ms

  abbrev pub in_tx : Text → Frame
  in_tx m = in_transaction tx (frame_of m)

  -- A call that sent the frames.
  pub record Sent {A : Type 0} (call : Done A) (result : A) (c : Client) (fs : List Frame)
      : Type 0 where
    pub after : Client
    pub returns : call ≡ Client.Calls.returned (ok result) after
    pub requests : after.conn.write_requests ≡ c.conn.write_requests ++ map plain fs
    pub ready : IsReady w after.conn

  send-Sent :
      (m : Text) (c : Client)
      → tx.completed ≡ false
      → IsReady w c.conn
      → Sent (send w tx m.destination m.content_type m.body [] c) tt c (in_tx m ∷ [])
  unfolding send
  send-Sent m c o y =
      let (no_receipt, no_transaction, to) =
        plain_frame-contains m.destination m.content_type m.body in
      let (t, e, l, still) =
        send_frame-IsReady w (in_tx m) c y (receipt-in_transaction tx (frame_of m) ∙ no_receipt) in
      record {
        after = t;
        returns =
            ground (arith, o, create_send_frame-plain m.destination m.content_type m.body c, e);
        requests = l;
        ready = still;
      }

  pub send_each-Sent :
      (ms : List Text) (c : Client)
      → tx.completed ≡ false
      → IsReady w c.conn
      → Sent (send_each ms c) tt c (map in_tx ms)
  send_each-Sent [] c o y = record {
    after = c;
    returns = refl;
    requests = sym (append-nil _);
    ready = y;
  }
  send_each-Sent (m ∷ ms) c o y =
      let one = send-Sent m c o y in
      let more = send_each-Sent ms one.after o one.ready in
      record {
        after = more.after;
        returns = ground (arith, one.returns, more.returns);
        requests =
            more.requests
            ∙ ap (λ l. l ++ map plain (map in_tx ms)) one.requests
            ∙ append_assoc c.conn.write_requests (plain (in_tx m) ∷ []) (map plain (map in_tx ms));
        ready = more.ready;
      }

  pub complete-Sent :
      (command : Command) (c : Client)
      → tx.completed ≡ false
      → IsReady w c.conn
      → Sent
          (complete w command false tx c)
          (record tx { completed = true })
          c
          (about command tx ∷ [])
  unfolding complete with_receipt new contains str_eq
  complete-Sent command c o y =
      let (t, e, l, still) = send_frame-IsReady w (about command tx) c y refl in
      record { after = t; returns = ground (arith, o, e); requests = l; ready = still }
