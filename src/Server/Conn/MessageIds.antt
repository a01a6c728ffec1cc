-- ===== src/Server/Conn/MessageIds.antt =====
-- What the handlers do to the message numbers of subscriptions, the field `msgId`.
pub mod Connected
pub mod Events
use mathlib.Core.Path.{subst}
use go_stomp.Base.{
  ℕ, suc, zero, ◌≡◌, refl, sym, ap, ◌∙◌, Bytes, Bool, true, false, Option, List, [], ◌∷◌, ◌++◌,
  none, some, arith, Option-cases, inl, inr, ok, err, find, missing_header, insert, Result, Dict,
  Error, ◌==◌, if◌then◌else◌,
}
use go_stomp.Frame.Command.{Command}
use go_stomp.Frame.Data.{Frame}
use go_stomp.Frame.Header.{contains}
use go_stomp.Frame.Names
use go_stomp.Server.Conn.{
  Config, StateFunc, connecting, connected, pure, St, Exec, returned, failed, crashed, M, ◌>>=◌,
  ◌>>◌, from_result, or_fail, get_frame, get_conn, get_heap, put_heap, put_conn, request_all,
  from_outcome, send_immediately, write_link,
}
use go_stomp.Server.Conn.Handlers.{
  handle_connect, negotiate, finish_connect, handle_disconnect, handle_begin, handle_abort,
  handle_commit, commit_loop, handle_send, handle_subscribe, handle_unsubscribe, handle_ack,
  handle_nack, settle, on_ack, on_nack, acked_id, add_to_transaction, send_receipt_immediately,
  dispatch, run_connected, run_connecting, commit_depth, with_frame, call_state,
}
use go_stomp.Server.Conn.Transactions.{go_on, go_on-bind, commit_found}
use go_stomp.Server.Conn.Loop.{
  or_stop, Event, frame_to_write, frame_read, subscription_ready, timer_fired, on_event, run_events,
  on_read, on_write, on_timer, on_subscription, after_write, allocate_message_id, validate,
  send_error_immediately,
}
use go_stomp.Server.TxStore
use go_stomp.Std.Strconv.{parse_uint, max_uint64}
use go_stomp.Server.Negotiation.{Version}
use go_stomp.Server.Objects.{Heap, Subscription, Request, Outcome, done, panicked, set_frame, alloc}
use go_stomp.Server.Subscription.{new_subscription, is_acked_by, is_nacked_by}
use go_stomp.Server.SubscriptionList.{add, ack_loop, ack, nack}

-- No subscription has a message number.
abbrev pub Unnumbered : Heap → Type 0
Unnumbered h = (a : ℕ) → (h.at a).msg_id ≡ 0

-- The heap that a handler leaves, whether it returns or fails.
abbrev pub HeapAfter : {A : Type 0} → (Heap → Type 0) → Exec A → Type 0
HeapAfter P (returned a t) = P t.heap
HeapAfter P (failed e t) = P t.heap
HeapAfter P (crashed p) = Unit

-- A handler after which no subscription has a number if none had before.
abbrev pub Keeps : {A : Type 0} → M A → Type 0
Keeps m = (s : St) → Unnumbered s.heap → HeapAfter Unnumbered (m s)

go_on-Keeps :
    {A B : Type 0} (f : A → M B) (e : Exec A)
    → HeapAfter Unnumbered e
    → ((a : A) → Keeps (f a))
    → HeapAfter Unnumbered (go_on f e)
go_on-Keeps f (returned a t) z k = k a t z
go_on-Keeps f (failed e t) z k = z
go_on-Keeps f (crashed p) z k = tt

pub bind-Keeps :
    {A B : Type 0} (m : M A) (f : A → M B) → Keeps m → ((a : A) → Keeps (f a)) → Keeps (m >>= f)
bind-Keeps m f k l s z =
    subst (HeapAfter Unnumbered) (sym (go_on-bind m f s)) (go_on-Keeps f (m s) (k s z) l)

pub send_receipt-Keeps : Keeps send_receipt_immediately
unfolding send_receipt_immediately send_immediately
send_receipt-Keeps s z = ground (arith, z)

pub handle_disconnect-Keeps : Keeps handle_disconnect
unfolding handle_disconnect send_receipt_immediately send_immediately
handle_disconnect-Keeps s z = ground (arith, z)

pub handle_begin-Keeps : Keeps handle_begin
unfolding handle_begin send_receipt_immediately send_immediately
handle_begin-Keeps s z = ground (arith, z)

pub handle_abort-Keeps : Keeps handle_abort
unfolding handle_abort send_receipt_immediately send_immediately
handle_abort-Keeps s z = ground (arith, z)

pub handle_send-Keeps : Keeps handle_send
unfolding handle_send send_receipt_immediately send_immediately add_to_transaction
handle_send-Keeps s z = ground (arith, z)

pub handle_unsubscribe-Keeps : Keeps handle_unsubscribe
unfolding handle_unsubscribe
handle_unsubscribe-Keeps s z = ground (arith, z)

alloc-Unnumbered :
    (h : Heap) (c : ℕ) (dest id mode : Bytes)
    → Unnumbered h
    → Unnumbered (alloc h (new_subscription c dest id mode))
unfolding new_subscription
alloc-Unnumbered h c dest id mode z a = ground (arith, z a)

pub handle_subscribe-Keeps : Keeps handle_subscribe
unfolding handle_subscribe new_subscription
handle_subscribe-Keeps s z = ground (arith, z)

finish_connect-Keeps : (config : Config) (v : Version) → Keeps (finish_connect config v)
unfolding finish_connect send_immediately
finish_connect-Keeps config v s z = ground (arith, z)

pub handle_connect-Keeps : (config : Config) → Keeps (handle_connect config)
unfolding handle_connect negotiate finish_connect send_immediately
handle_connect-Keeps config s z = ground (arith, z)

-- What a list method leaves.
abbrev HeapOf : Outcome (Heap × List ℕ × List Request) → Type 0
HeapOf (done (h, l, r)) = Unnumbered h
HeapOf (panicked p) = Unit

pub set_frame-Unnumbered :
    (h : Heap) (a : ℕ) (f : Option Frame) → Unnumbered h → Unnumbered (set_frame h a f)
set_frame-Unnumbered h a f z b = ground (arith, z a, z b)

pub ack_loop-Unnumbered :
    (acked : Subscription → Outcome Bool) (callback : ℕ → Heap → Heap × List Request)
    → ((a : ℕ) (h : Heap) → Unnumbered h → Unnumbered (callback a h).0)
    → (l : List ℕ) (h : Heap) → Unnumbered h
    → HeapOf (ack_loop acked callback h l)
unfolding ack_loop
ack_loop-Unnumbered acked callback k [] h z = z
ack_loop-Unnumbered acked callback k (a ∷ l) h z = ground (
  arith,
  ack_loop-Unnumbered acked callback k l h z,
  ack_loop-Unnumbered acked callback k l (callback a h).0 (k a h z),
)

abbrev Method : Type 0
Method =
    ℕ → (ℕ → Heap → Heap × List Request) → Heap → List ℕ → Outcome (Heap × List ℕ × List Request)

module _ (method : Method) (callback : ℕ → Heap → Heap × List Request)
    (k : (m : ℕ) (h : Heap) (l : List ℕ) → Unnumbered h → HeapOf (method m callback h l)) where
  -- What `handleAck` and `handleNack` do once the receipt is sent.
  abbrev after_receipt : ℕ → M (Unit {0})
  after_receipt m = do
    g ← get_frame
    elim (contains g.header Names.transaction) [
      | some tx ↦ add_to_transaction tx
      | none ↦ do
        c ← get_conn
        h ← get_heap
        (h', kept, requests) ← from_outcome (method m callback h c.sub_list)
        put_heap h'
        put_conn (record c { sub_list = kept })
        request_all requests
    ]

  after_receipt-Keeps : (m : ℕ) → Keeps (after_receipt m)
  unfolding add_to_transaction
  after_receipt-Keeps m s z = ground (arith, z, k m s.heap s.conn.sub_list z)

  unfoldable from_id : Bytes → M (Unit {0})
  from_id id =
      from_result (parse_uint max_uint64 id) >>= λ m. send_receipt_immediately >> after_receipt m

  from_id-Keeps : (id : Bytes) → Keeps (from_id id)
  unfolding from_id
  from_id-Keeps id =
      bind-Keeps (from_result (parse_uint max_uint64 id))
        (λ m. send_receipt_immediately >> after_receipt m) (λ s z. ground (arith, z))
        (λ m.
          bind-Keeps send_receipt_immediately (λ u. after_receipt m) send_receipt-Keeps
            (λ u. after_receipt-Keeps m))

  pub settle-Keeps : Keeps (settle method callback)
  unfolding settle from_id
  settle-Keeps s z =
      bind-Keeps (or_fail (acked_id s.frame) (missing_header Names.message_id)) from_id
        (λ t y. ground (arith, y)) from_id-Keeps s z
