-- ===== src/Server/Conn/Deferred/Settle.antt =====
-- What a transaction can hold: the handlers that put a frame into one.
use go_stomp.Base.{
  ℕ, ◌≢◌, Bytes, Bool, List, [], ◌∷◌, none, some, arith, Option-cases, inl, inr, missing_header,
}
use go_stomp.Frame.Command.{Command}
use go_stomp.Frame.Header.{contains}
use go_stomp.Frame.Names
use go_stomp.Server.Conn.{
  request, put_frame, St, M, ◌>>=◌, ◌>>◌, from_result, or_fail, get_frame, get_conn, get_heap,
  put_heap, put_conn, request_all, from_outcome,
}
use go_stomp.Server.Conn.Handlers.{
  handle_send, handle_ack, handle_nack, settle, on_ack, on_nack, acked_id, add_to_transaction,
  send_receipt_immediately,
}
use go_stomp.Std.Strconv.{parse_uint, max_uint64}
use go_stomp.Server.Objects.{
  enqueue_op, stack_overflow, Heap, Subscription, Request, Outcome, done, panicked,
}
use go_stomp.Server.Subscription.{is_acked_by, is_nacked_by}
use go_stomp.Server.SubscriptionList.{ack_loop, ack, nack}
use go_stomp.Server.Conn.Deferred.{
  IsBounded, IsDeferring, After, Moves, bind-Moves, send_receipt-IsDeferring,
  add_to_transaction-IsBounded, or_fail-Moves, from_result-Moves,
}

sent_on : M (Unit {0})
sent_on = do
  f ← get_frame
  elim (contains f.header Names.transaction) [
    | some tx ↦ add_to_transaction tx
    | none ↦ do
      put_frame (record f { command = Command.message })
      request (enqueue_op (record f { command = Command.message }))
  ]

sent_on-IsBounded : Moves IsDeferring IsBounded sent_on
unfolding sent_on
sent_on-IsBounded s z = elim (Option-cases (contains s.frame.header Names.transaction)) [
  | inl e ↦ ground (arith, e, z.0)
  | inr (tx, e) ↦ ground (arith, e, add_to_transaction-IsBounded tx s z)
]

pub handle_send-IsBounded : Moves IsDeferring IsBounded handle_send
unfolding handle_send sent_on
handle_send-IsBounded =
    bind-Moves IsDeferring IsDeferring IsBounded send_receipt_immediately (λ u. sent_on)
      send_receipt-IsDeferring (λ u. sent_on-IsBounded)

-- The method does not overflow.
abbrev IsTame : {A : Type 0} → Outcome A → Type 0
IsTame (done a) = Unit
IsTame (panicked p) = p ≢ stack_overflow

ack_loop-IsTame :
    (acked : Subscription → Outcome Bool) (callback : ℕ → Heap → Heap × List Request)
    → ((s : Subscription) → IsTame (acked s))
    → (l : List ℕ) (h : Heap) → IsTame (ack_loop acked callback h l)
unfolding ack_loop
ack_loop-IsTame acked callback k [] h = tt
ack_loop-IsTame acked callback k (a ∷ l) h = ground (
  arith,
  k (h.at a),
  ack_loop-IsTame acked callback k l h,
  ack_loop-IsTame acked callback k l (callback a h).0,
)

is_acked_by-IsTame : (m : ℕ) (s : Subscription) → IsTame (is_acked_by s m)
unfolding is_acked_by
is_acked_by-IsTame m s = ground (arith)

abbrev Method : Type 0
Method =
    ℕ → (ℕ → Heap → Heap × List Request) → Heap → List ℕ → Outcome (Heap × List ℕ × List Request)

-- What is done with the outcome of the method.
settled-IsBounded :
    (r : Outcome (Heap × List ℕ × List Request)) (s : St)
    → IsTame r
    → IsBounded s
    → After IsBounded (
        (from_outcome r >>= λ e.
        put_heap e.0 >> put_conn (record (s.conn) { sub_list = e.1 }) >> request_all e.2)
          s)
settled-IsBounded (done (h, kept, requests)) s t z = z
settled-IsBounded (panicked p) s t z = t

module _ (method : Method) (callback : ℕ → Heap → Heap × List Request)
    (k : (m : ℕ) (h : Heap) (l : List ℕ) → IsTame (method m callback h l)) where
  after_receipt : ℕ → M (Unit {0})
  after_receipt m = do
    g ← get_frame
    elim (contains g.header Names.transaction) [
      | some tx ↦ add_to_transaction tx
      | none ↦ do
        c ← get_conn
        h ← get_heap
        (h', kept, requests) ← from_outcome (method m callback h c.sub_list)
        put_heap h'
        put_conn (record c { sub_list = kept })
        request_all requests
    ]

  after_receipt-IsBounded : (m : ℕ) → Moves IsDeferring IsBounded (after_receipt m)
  unfolding after_receipt
  after_receipt-IsBounded m s z = elim (Option-cases (contains s.frame.header Names.transaction)) [
    | inl e ↦
        rw (e, After)
          (settled-IsBounded (method m callback s.heap s.conn.sub_list) s
            (k m s.heap s.conn.sub_list) z.0)
    | inr (tx, e) ↦ rw (e, After) (add_to_transaction-IsBounded tx s z)
  ]

  from_id : Bytes → M (Unit {0})
  from_id id =
      from_result (parse_uint max_uint64 id) >>= λ m. send_receipt_immediately >> after_receipt m

  from_id-IsBounded : (id : Bytes) → Moves IsDeferring IsBounded (from_id id)
  unfolding from_id
  from_id-IsBounded id =
      bind-Moves IsDeferring IsDeferring IsBounded (from_result (parse_uint max_uint64 id))
        (λ m. send_receipt_immediately >> after_receipt m)
        (from_result-Moves IsDeferring (parse_uint max_uint64 id) (λ s z. z.0))
        (λ m.
          bind-Moves IsDeferring IsDeferring IsBounded send_receipt_immediately
            (λ u. after_receipt m) send_receipt-IsDeferring (λ u. after_receipt-IsBounded m))

  settle-IsBounded : Moves IsDeferring IsBounded (settle method callback)
  unfolding settle from_id after_receipt
  settle-IsBounded s z =
      bind-Moves IsDeferring IsDeferring IsBounded
        (or_fail (acked_id s.frame) (missing_header Names.message_id)) from_id
        (or_fail-Moves IsDeferring (acked_id s.frame) (missing_header Names.message_id)
          (λ t y. y.0))
        from_id-IsBounded s z

pub handle_ack-IsBounded : Moves IsDeferring IsBounded handle_ack
unfolding handle_ack ack
handle_ack-IsBounded =
    settle-IsBounded ack on_ack
      λ m h l. ack_loop-IsTame (λ s. is_acked_by s m) on_ack (is_acked_by-IsTame m) l h

pub handle_nack-IsBounded : Moves IsDeferring IsBounded handle_nack
unfolding handle_nack nack
handle_nack-IsBounded =
    settle-IsBounded nack on_nack
      λ m h l. ack_loop-IsTame (λ s. done (is_nacked_by s m)) on_nack (λ s. tt) l h
