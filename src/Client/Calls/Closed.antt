-- ===== src/Client/Calls/Closed.antt =====
-- The methods of a connection that is closed.
use mathlib.Core.Path.{subst}
use go_stomp.Base.{◌≡◌, refl, sym, Bool, true, false, Option, List, [], ◌∷◌, if◌then◌else◌, arith}
use go_stomp.Client.Calls.{
  allocate_id, Client, Done, M, returned, blocked, panicked, ◌>>=◌, ◌>>◌, pure, fail, when,
  from_attempt, Answers, FrameOption, send, send_frame,
}
use go_stomp.Client.Calls.Disconnect.{disconnect_open, disconnect, must_disconnect}
use go_stomp.Client.Calls.Settle
use go_stomp.Client.Calls.Settle.{create_ack_nack_frame}
use go_stomp.Client.Calls.Subscribe.{subscribe, unsubscribe, send_unsubscribe}
use go_stomp.Client.Calls.Transaction
use go_stomp.Client.Calls.Transaction.{
  Transaction, begin_with_error, complete, with_receipt, in_transaction,
}
use go_stomp.Client.Conn.{Conn, WriteRequest}
use go_stomp.Client.Errors.{Failure, Attempt, completed_transaction}
use go_stomp.Client.Loop
use go_stomp.Client.Message.{Subscription}
use go_stomp.Client.Subscription.{SubState, active, closing, closed}
use go_stomp.Frame.Command.{Command}
use go_stomp.Frame.Data.{Frame, new}
use go_stomp.Frame.Names
use go_stomp.Client.Calls.Keeps.{
  Keeps-bind, Keeps-run_all_options, Keeps-create_send_frame, Keeps-by_option, Keeps-with_receipt,
  Fine, Keeps,
}
use go_stomp.Client.Calls.Sequence.{
  Call, send_call, subscribe_call, unsubscribe_call, settle_call, begin_call, commit_call,
  abort_call, transaction_send_call, transaction_settle_call, disconnect_call, must_disconnect_call,
  call_method, ignore,
}

-- Closed, with the requests `q` sent.
abbrev Kept : List WriteRequest → Conn → Type 0
Kept q c = (c.closed ≡ true) × (c.write_requests ≡ q)

must_disconnect-closed : (c : Conn) → c.closed ≡ true → Loop.must_disconnect c ≡ c
unfolding Loop.must_disconnect
must_disconnect-closed c e = ground arith

module _ (q : List WriteRequest) where
  abbrev KeepsClosed : {A : Type 0} → M A → Type 0
  KeepsClosed m = Keeps ⊥ (Kept q) m

  closed_only :
      {A : Type 0} (stop : M (Unit {0})) (rest : M A) (c : Client)
      → c.conn.closed ≡ true
      → Fine ⊥ (Kept q) ((stop >> rest) c)
      → Fine ⊥ (Kept q) ((when c.conn.closed stop >> rest) c)
  closed_only stop rest c e h = subst (λ b. Fine ⊥ (Kept q) ((when b stop >> rest) c)) (sym e) h

  send_frame-KeepsClosed : (w : Answers) (f : Frame) → KeepsClosed (send_frame w f)
  unfolding send_frame
  send_frame-KeepsClosed w f c k = closed_only _ _ c (k.0) k

  bind_closed :
      {A B : Type 0} (m : M A) (f : A → M B)
      → KeepsClosed m
      → ((a : A) → KeepsClosed (f a))
      → KeepsClosed (m >>= f)
  bind_closed = Keeps-bind ⊥ (Kept q)

  when-KeepsClosed :
      {A : Type 0} (b : Bool) (e : Failure) (m : M A)
      → KeepsClosed m
      → KeepsClosed (when b (fail e) >> m)
  when-KeepsClosed true e m h c s = s
  when-KeepsClosed false e m h c s = h c s

  complete-KeepsClosed :
      (w : Answers) (command : Command) (receipt : Bool) (tx : Transaction)
      → KeepsClosed (complete w command receipt tx)
  unfolding complete
  complete-KeepsClosed w command receipt tx =
      when-KeepsClosed tx.completed completed_transaction _ (
        bind_closed _ _ (Keeps-with_receipt ⊥ (Kept q) receipt _)
          λ f. bind_closed _ _ (send_frame-KeepsClosed w f) λ u c s. s)

  unsubscribe-KeepsClosed :
      (w : Answers) (sub : Subscription) (state : SubState) (opts : List (Option FrameOption))
      → KeepsClosed (λ c. (unsubscribe w sub state opts c).1)
  unfolding unsubscribe send_unsubscribe
  unsubscribe-KeepsClosed w sub active opts c s =
      bind_closed _ _ (Keeps-run_all_options ⊥ (Kept q) opts _) (λ f. send_frame-KeepsClosed w _) c
        s
  unsubscribe-KeepsClosed w sub closing opts c s = s
  unsubscribe-KeepsClosed w sub closed opts c s = s

  ignore-KeepsClosed : {A : Type 0} (m : M A) → KeepsClosed m → KeepsClosed (ignore m)
  ignore-KeepsClosed m h = bind_closed m _ h λ a c s. s

  call_method-KeepsClosed : (w : Answers) (m : Call) → KeepsClosed (call_method w m)
  unfolding call_method Transaction.commit Transaction.abort send subscribe Settle.settle
      begin_with_error Transaction.send Transaction.settle disconnect must_disconnect
      Loop.must_disconnect
  call_method-KeepsClosed w (send_call d t b opts) c k = closed_only _ _ c (k.0) k
  call_method-KeepsClosed w (subscribe_call d mode opts) c k =
      ignore-KeepsClosed (subscribe w d mode opts) (λ c k. closed_only _ _ c (k.0) k) c k
  call_method-KeepsClosed w (unsubscribe_call sub state opts) c k =
      unsubscribe-KeepsClosed w sub state opts c k
  call_method-KeepsClosed w (settle_call ack msg) c k =
      bind_closed (from_attempt (create_ack_nack_frame c.conn.version msg ack)) _ (λ c k. k)
        (λ f. Keeps-by_option ⊥ (Kept q) f _ _ (λ c k. k) (send_frame-KeepsClosed w)) c k
  call_method-KeepsClosed w begin_call c k =
      send_frame-KeepsClosed w
        (new Command.begin ((Names.transaction, (allocate_id c.last_id).0) ∷ [])) _ k
  call_method-KeepsClosed w (commit_call receipt tx) c k =
      ignore-KeepsClosed _ (complete-KeepsClosed w Command.commit receipt tx) c k
  call_method-KeepsClosed w (abort_call receipt tx) c k =
      ignore-KeepsClosed _ (complete-KeepsClosed w Command.abort receipt tx) c k
  call_method-KeepsClosed w (transaction_send_call tx d t b opts) c k =
      when-KeepsClosed tx.completed completed_transaction _
        (bind_closed _ _ (Keeps-create_send_frame ⊥ (Kept q) d t b opts)
          λ f. send_frame-KeepsClosed w (in_transaction tx f))
        c k
  call_method-KeepsClosed w (transaction_settle_call ack tx msg) c k =
      when-KeepsClosed tx.completed completed_transaction _
        (λ c k.
          bind_closed (from_attempt (create_ack_nack_frame c.conn.version msg ack)) _ (λ c k. k)
            (λ f.
              Keeps-by_option ⊥ (Kept q) f _ _ (λ c k. k)
                λ g. send_frame-KeepsClosed w (in_transaction tx g))
            c k)
        c k
  call_method-KeepsClosed w disconnect_call c k =
      subst
        (λ b.
          Fine ⊥ (Kept q)
            ((if b then pure tt else disconnect_open w c.conn.disconnect_receipt_timeout) c))
        (sym (k.0)) k
  call_method-KeepsClosed w must_disconnect_call c k =
      subst (Kept q) (sym (must_disconnect-closed c.conn (k.0))) k

  returned-Kept :
      {A : Type 0} (d : Done A)
      → Fine ⊥ (Kept q) d
      → (r : Attempt A) × (t : Client) × (d ≡ returned r t) × Kept q (t.conn)
  returned-Kept (returned r t) h = (r, t, refl, h)
  returned-Kept blocked h = absurd h
  returned-Kept panicked h = absurd h

-- Every method that is called on a closed connection returns, whatever there is to wait for, sends no
-- request, and leaves the connection closed.
pub call_method-closed :
    (w : Answers) (m : Call) (c : Client)
    → c.conn.closed ≡ true
    → (r : Attempt (Unit {0})) × (t : Client) × (call_method w m c ≡ returned r t)
      × (t.conn.closed ≡ true)
      × (t.conn.write_requests ≡ c.conn.write_requests)
call_method-closed w m c e =
    let q = c.conn.write_requests in
    let (r, t, d, k) =
      returned-Kept q (call_method w m c) (call_method-KeepsClosed q w m c (e, refl)) in
    (r, t, d, k.0, k.1)
