-- ===== src/Client/Calls/Safety.antt =====
-- Each method of a client's connection keeps its channel of requests open while the connection is.
use mathlib.Core.Path.{subst}
use go_stomp.Base.{
  ℕ, sym, Bytes, Bool, true, false, Option, none, some, List, [], ◌∷◌, ok, err, if◌then◌else◌,
  arith, Bool-cases, inl, inr,
}
use go_stomp.Client.AckMode.{Mode}
use go_stomp.Client.Calls.{
  Done, M, returned, blocked, panicked, ◌>>◌, pure, fail, when, from_attempt, next_id, make_channel,
  Answers, FrameOption, create_send_frame, count_write, send, send_frame,
}
use go_stomp.Client.Calls.Disconnect.{
  after_error, disconnect_open, disconnect, must_disconnect, finish_disconnect,
}
use go_stomp.Client.Calls.Settle
use go_stomp.Client.Calls.Settle.{create_ack_nack_frame}
use go_stomp.Client.Calls.Subscribe.{subscribe, unsubscribe, send_unsubscribe, with_reply_to}
use go_stomp.Client.Calls.Transaction
use go_stomp.Client.Calls.Transaction.{
  Transaction, begin_with_error, complete, with_receipt, in_transaction,
}
use go_stomp.Client.Conn.{Conn}
use go_stomp.Client.Errors.{
  disconnect_receipt_timeout, msg_receipt_timeout, Failure, completed_transaction, already_closed,
}
use go_stomp.Client.Loop
use go_stomp.Client.Message.{Message, Subscription}
use go_stomp.Client.Subscription.{SubState, active, closing, closed}
use go_stomp.Frame.Command.{Command}
use go_stomp.Frame.Data.{Frame, new}
use go_stomp.Frame.Header.{contains}
use go_stomp.Client.Versions.{allocate_id}
use go_stomp.Frame.Names
use go_stomp.Client.Calls.Keeps.{
  IsSound, Fine, Keeps-run_options, Keeps-run_all_options, Keeps-create_send_frame, Keeps-by_option,
  Keeps-with_id, Keeps-with_receipt,
}
use go_stomp.Client.Calls.Open.{
  IsOpen, KeepsOpen, KeepsSound, IsAnswer, Keeps-count_write, Keeps-send_request, Keeps-send_data,
  Keeps-await_receipt, Keeps-read_receipt, Fine-imp, IsOpen-IsSound, unless_closed, bind_open,
  bind_sound,
}

pub send-KeepsSound :
    (w : Answers) (d t b : Bytes) (opts : List (Option FrameOption))
    → IsAnswer w
    → KeepsSound (send w d t b opts)
unfolding send
send-KeepsSound w d t b opts a c s = unless_closed (fail already_closed) _ c s s (
    bind_open (create_send_frame d t b opts) _
      (Keeps-create_send_frame (Unit {0}) IsOpen d t b opts)
      λ f. bind_open count_write _ Keeps-count_write λ u.
        Keeps-by_option (Unit {0}) IsOpen (contains f.header Names.receipt) _ _
          (Keeps-send_data w (record { frame = f; channel = none }) c.conn.msg_send_timeout)
          λ r.
            bind_open make_channel _ (λ d o. o)
              λ ch.
                bind_open _ _
                  (Keeps-send_data w (record { frame = f; channel = some ch })
                    c.conn.msg_send_timeout)
                  λ v. Keeps-read_receipt w c.conn.rcv_receipt_timeout msg_receipt_timeout a)

send_frame-KeepsSound : (w : Answers) (f : Frame) → KeepsSound (send_frame w f)
unfolding send_frame
send_frame-KeepsSound w f c s =
    unless_closed _ _ c s (record { sound = s.sound })
      (bind_open count_write _ Keeps-count_write λ u.
        Keeps-by_option (Unit {0}) IsOpen (contains f.header Names.receipt) _ _
          (Keeps-send_request w (record { frame = f; channel = none }))
          λ r.
            bind_open make_channel _ (λ d o. o)
              λ ch.
                bind_open _ _ (Keeps-send_request w (record { frame = f; channel = some ch }))
                  λ v. Keeps-await_receipt w c.conn.write_timeout)

pub subscribe-KeepsSound :
    (w : Answers) (d : Bytes) (mode : Mode) (opts : List (Option FrameOption))
    → KeepsSound (subscribe w d mode opts)
unfolding subscribe
subscribe-KeepsSound w d mode opts c s =
    unless_closed _ _ c s (record { sound = s.sound })
      (bind_open make_channel _ (λ d o. o)
        λ ch. bind_open _ _ (Keeps-run_options (Unit {0}) IsOpen opts _) λ f.
          bind_open _ _ (Keeps-with_id (Unit {0}) IsOpen (with_reply_to f)) λ p.
            bind_open count_write _ Keeps-count_write λ u.
              bind_open _ _ (Keeps-send_request w (record { frame = p.1; channel = some ch }))
                λ v d o. o)

send_unsubscribe-KeepsSound :
    (w : Answers) (sub : Subscription) (opts : List (Option FrameOption))
    → KeepsSound (send_unsubscribe w sub opts)
unfolding send_unsubscribe
send_unsubscribe-KeepsSound w sub opts =
    bind_sound _ _ (Keeps-run_all_options (Unit {0}) IsSound opts _) λ f. send_frame-KeepsSound w _

pub unsubscribe-KeepsSound :
    (w : Answers) (sub : Subscription) (state : SubState) (opts : List (Option FrameOption))
    → KeepsSound (λ c. (unsubscribe w sub state opts c).1)
unfolding unsubscribe
unsubscribe-KeepsSound w sub active opts c s = send_unsubscribe-KeepsSound w sub opts c s
unsubscribe-KeepsSound w sub closing opts c s = s
unsubscribe-KeepsSound w sub closed opts c s = s

pub settle-KeepsSound :
    (w : Answers) (ack : Bool) (msg : Message) → KeepsSound (Settle.settle w ack msg)
unfolding Settle.settle
settle-KeepsSound w ack msg c s =
    bind_sound (from_attempt (create_ack_nack_frame c.conn.version msg ack)) _ (λ d o. o)
      (λ f. Keeps-by_option (Unit {0}) IsSound f _ _ (λ d o. o) (send_frame-KeepsSound w)) c s

pub begin-KeepsSound : (w : Answers) → KeepsSound (λ c. (begin_with_error w c).1)
unfolding begin_with_error
begin-KeepsSound w c s =
    send_frame-KeepsSound w
      (new Command.begin ((Names.transaction, (allocate_id c.last_id).0) ∷ [])) _ s

when-KeepsSound :
    {A : Type 0} (b : Bool) (e : Failure) (m : M A)
    → KeepsSound m
    → KeepsSound (when b (fail e) >> m)
when-KeepsSound true e m h c s = s
when-KeepsSound false e m h c s = h c s

pub complete-KeepsSound :
    (w : Answers) (command : Command) (receipt : Bool) (tx : Transaction)
    → KeepsSound (complete w command receipt tx)
unfolding complete
complete-KeepsSound w command receipt tx = when-KeepsSound tx.completed completed_transaction _ (
    bind_sound _ _ (Keeps-with_receipt (Unit {0}) IsSound receipt _)
      λ f. bind_sound _ _ (send_frame-KeepsSound w f) λ u c s. s)

pub transaction_send-KeepsSound :
    (w : Answers) (tx : Transaction) (d t b : Bytes) (opts : List (Option FrameOption))
    → KeepsSound (Transaction.send w tx d t b opts)
unfolding Transaction.send
transaction_send-KeepsSound w tx d t b opts = when-KeepsSound tx.completed completed_transaction _ (
    bind_sound _ _ (Keeps-create_send_frame (Unit {0}) IsSound d t b opts)
      λ f. send_frame-KeepsSound w (in_transaction tx f))

pub transaction_settle-KeepsSound :
    (w : Answers) (ack : Bool) (tx : Transaction) (msg : Message)
    → KeepsSound (Transaction.settle w ack tx msg)
unfolding Transaction.settle
transaction_settle-KeepsSound w ack tx msg =
    when-KeepsSound tx.completed completed_transaction _ λ c s.
      bind_sound (from_attempt (create_ack_nack_frame c.conn.version msg ack)) _ (λ d o. o)
        (λ f.
          Keeps-by_option (Unit {0}) IsSound f _ _ (λ d o. o)
            λ g. send_frame-KeepsSound w (in_transaction tx g))
        c s

after_error-KeepsOpen : (r : Option (Option Frame)) (e : Failure) → KeepsOpen (after_error r e)
unfolding after_error
after_error-KeepsOpen none e c o = o
after_error-KeepsOpen (some f) e c o = o

finish_disconnect-Fine :
    (w : Answers) (d : Done (Unit {0}))
    → Fine (Unit {0}) IsOpen d
    → Fine (Unit {0}) IsOpen (finish_disconnect w d)
unfolding finish_disconnect
finish_disconnect-Fine w (returned (ok u) c) h = h
finish_disconnect-Fine w (returned (err e) c) h = after_error-KeepsOpen w.reply e c h
finish_disconnect-Fine w blocked h = h
finish_disconnect-Fine w panicked h = h

disconnect_open-KeepsOpen : (w : Answers) (n : ℕ) → IsAnswer w → KeepsOpen (disconnect_open w n)
unfolding disconnect_open
disconnect_open-KeepsOpen w n a = bind_open count_write _ Keeps-count_write λ u.
    bind_open make_channel _ (λ c o. o)
      λ ch.
        bind_open next_id _ (λ c o. o)
          λ id.
            bind_open _ _
              (Keeps-send_request w (record {
                frame = new Command.disconnect ((Names.receipt, id) ∷ []);
                channel = some ch;
              }))
              λ v c o.
                finish_disconnect-Fine w _ (Keeps-read_receipt w n disconnect_receipt_timeout a c o)

pub disconnect-KeepsSound : (w : Answers) → IsAnswer w → KeepsSound (disconnect w)
unfolding disconnect
disconnect-KeepsSound w a c s =
    let m = disconnect_open w c.conn.disconnect_receipt_timeout in
    elim (Bool-cases c.conn.closed) [
      | inl e ↦ subst (λ b. Fine (Unit {0}) IsSound ((if b then pure tt else m) c)) (sym e) s
      | inr e ↦
          let o : IsOpen (c.conn) = ground (arith, s.sound) in
          subst (λ b. Fine (Unit {0}) IsSound ((if b then pure tt else m) c)) (sym e)
            (Fine-imp (Unit {0}) IsOpen IsSound (m c) IsOpen-IsSound
              (disconnect_open-KeepsOpen w _ a c o))
    ]

must_disconnect-IsSound : (c : Conn) → IsSound c → IsSound (Loop.must_disconnect c)
unfolding Loop.must_disconnect
must_disconnect-IsSound c s = record { sound = ground (arith, s.sound) }

pub must_disconnect-KeepsSound : KeepsSound must_disconnect
unfolding must_disconnect
must_disconnect-KeepsSound c s = must_disconnect-IsSound c.conn s
