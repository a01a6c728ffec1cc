-- ===== src/Server/Conn/Deferred.antt =====
-- What a transaction of a connection can hold, and so how deep a COMMIT calls: the handlers.
pub mod Settle
pub mod Connected
pub mod Events
use mathlib.Core.Path.{subst}
use go_stomp.Base.{
  ℕ, suc, zero, ◌≡◌, ◌≢◌, find-insert, find-delete, delete, Bool-cases, str_eq, refl, sym, ap, ◌∙◌,
  Bytes, Bool, true, false, Option, List, [], ◌∷◌, ◌++◌, none, some, arith, Option-cases, inl, inr,
  ok, err, find, missing_header, insert, Result, Dict, Error, ◌==◌, if◌then◌else◌,
}
use go_stomp.Frame.Command.{Command}
use go_stomp.Frame.Data.{Frame}
use go_stomp.Frame.Header.{contains, del}
use go_stomp.Frame.Names
use go_stomp.Server.Conn.{
  put_frame, Config, StateFunc, connecting, connected, pure, St, Exec, returned, failed, crashed, M,
  ◌>>=◌, ◌>>◌, from_result, or_fail, get_frame, get_conn, get_heap, put_heap, put_conn, request_all,
  from_outcome, send_immediately, write_link,
}
use go_stomp.Server.Conn.Handlers.{
  handle_connect, change_txs, negotiate, finish_connect, handle_disconnect, handle_begin,
  handle_abort, handle_commit, commit_loop, handle_send, handle_subscribe, handle_unsubscribe,
  handle_ack, handle_nack, settle, on_ack, on_nack, acked_id, add_to_transaction,
  send_receipt_immediately, dispatch, run_connected, run_connecting, commit_depth, with_frame,
  call_state,
}
use go_stomp.Server.Conn.Transactions.{go_on, go_on-bind, commit_found, is_deferred, AllDeferred}
use go_stomp.Server.Conn.Loop.{
  or_stop, Event, frame_to_write, frame_read, subscription_ready, timer_fired, on_event, run_events,
  on_read, on_write, on_timer, on_subscription, after_write, allocate_message_id, validate,
  send_error_immediately,
}
use go_stomp.Server.TxStore
use go_stomp.Server.TxStore.{TxStore}
use go_stomp.Std.Strconv.{parse_uint, max_uint64}
use go_stomp.Server.Negotiation.{Version}
use go_stomp.Server.Objects.{
  stack_overflow, Heap, Subscription, Request, Outcome, done, panicked, set_frame, alloc,
}
use go_stomp.Server.Subscription.{new_subscription, is_acked_by, is_nacked_by}
use go_stomp.Server.SubscriptionList.{add, ack_loop, ack, nack}

-- Every frame of every transaction is a SEND, ACK or NACK frame.
abbrev pub HoldsDeferred : TxStore → Type 0
HoldsDeferred txs = (tx : Bytes) (l : List Frame) → find txs tx ≡ some l → AllDeferred l

abbrev pub IsBounded : St → Type 0
IsBounded s = HoldsDeferred s.conn.tx_store

-- The frame in hand may go into a transaction.
abbrev pub IsDeferring : St → Type 0
IsDeferring s = HoldsDeferred s.conn.tx_store × (is_deferred s.frame.command ≡ true)

-- `Q` where the handler returns, `IsBounded` where it fails; and no overflow.
abbrev pub After : {A : Type 0} → (St → Type 0) → Exec A → Type 0
After Q (returned a t) = Q t
After Q (failed e t) = IsBounded t
After Q (crashed p) = p ≢ stack_overflow

abbrev pub Moves : {A : Type 0} → (St → Type 0) → (St → Type 0) → M A → Type 0
Moves P Q m = (s : St) → P s → After Q (m s)

go_on-Moves :
    {A B : Type 0} (Q R : St → Type 0) (f : A → M B) (e : Exec A)
    → After Q e
    → ((a : A) → Moves Q R (f a))
    → After R (go_on f e)
go_on-Moves Q R f (returned a t) z k = k a t z
go_on-Moves Q R f (failed e t) z k = z
go_on-Moves Q R f (crashed p) z k = z

pub bind-Moves :
    {A B : Type 0} (P Q R : St → Type 0) (m : M A) (f : A → M B)
    → Moves P Q m
    → ((a : A) → Moves Q R (f a))
    → Moves P R (m >>= f)
bind-Moves P Q R m f k l s z =
    subst (After R) (sym (go_on-bind m f s)) (go_on-Moves Q R f (m s) (k s z) l)

pub AllDeferred-append :
    (l : List Frame) (f : Frame)
    → AllDeferred l
    → is_deferred f.command ≡ true
    → AllDeferred (l ++ f ∷ [])
AllDeferred-append [] f v e = (e, tt)
AllDeferred-append (g ∷ l) f (d, v) e = (d, AllDeferred-append l f v e)

pub insert-HoldsDeferred :
    (txs : TxStore) (tx : Bytes) (l : List Frame)
    → HoldsDeferred txs
    → AllDeferred l
    → HoldsDeferred (insert txs tx l)
insert-HoldsDeferred txs tx l h v r k e = elim (Bool-cases (str_eq tx r)) [
  | inl t ↦
      let same : some l ≡ some k = (ground (arith, find-insert txs tx l r, t)) ∙ e in
      subst AllDeferred (cc) v
  | inr t ↦ h r k ((ground (arith, find-insert txs tx l r, t)) ∙ e)
]

pub delete-HoldsDeferred :
    (txs : TxStore) (tx : Bytes) → HoldsDeferred txs → HoldsDeferred (delete txs tx)
delete-HoldsDeferred txs tx h r k e = elim (Bool-cases (str_eq tx r)) [
  | inl t ↦ ground (arith, find-delete txs tx r, t, e)
  | inr t ↦ h r k ((ground (arith, find-delete txs tx r, t)) ∙ e)
]

pub send_receipt-IsBounded : Moves IsBounded IsBounded send_receipt_immediately
unfolding send_receipt_immediately send_immediately
send_receipt-IsBounded s z = ground (arith, z)

pub send_receipt-IsDeferring : Moves IsDeferring IsDeferring send_receipt_immediately
unfolding send_receipt_immediately send_immediately
send_receipt-IsDeferring s z = ground (arith, z)

pub handle_disconnect-IsBounded : Moves IsBounded IsBounded handle_disconnect
unfolding handle_disconnect send_receipt_immediately send_immediately
handle_disconnect-IsBounded s z = ground (arith, z)

pub handle_subscribe-IsBounded : Moves IsBounded IsBounded handle_subscribe
unfolding handle_subscribe
handle_subscribe-IsBounded s z = ground (arith, z)

pub handle_unsubscribe-IsBounded : Moves IsBounded IsBounded handle_unsubscribe
unfolding handle_unsubscribe
handle_unsubscribe-IsBounded s z = ground (arith, z)

pub or_fail-Moves :
    {A : Type 0} (P : St → Type 0) (o : Option A) (x : Error)
    → ((s : St) → P s → IsBounded s)
    → Moves P P (or_fail o x)
or_fail-Moves P none x k s z = k s z
or_fail-Moves P (some a) x k s z = z

pub from_result-Moves :
    {A : Type 0} (P : St → Type 0) (r : Result A)
    → ((s : St) → P s → IsBounded s)
    → Moves P P (from_result r)
from_result-Moves P (ok a) k s z = z
from_result-Moves P (err e) k s z = k s z

-- After the handler has changed the store.
changed-Moves :
    (r : Result TxStore) (s : St)
    → IsBounded s
    → ((txs : TxStore) → r ≡ ok txs → HoldsDeferred txs)
    → After IsBounded ((from_result r >>= λ txs. put_conn (record (s.conn) { tx_store = txs })) s)
changed-Moves (ok txs) s z k = k txs refl
changed-Moves (err e) s z k = z

begin-HoldsDeferred :
    (txs : TxStore) (tx : Bytes) (new : TxStore)
    → HoldsDeferred txs
    → TxStore.begin txs tx ≡ ok new
    → HoldsDeferred new
unfolding TxStore.begin
begin-HoldsDeferred txs tx new h e = elim (Option-cases (find txs tx)) [
  | inl n ↦ subst HoldsDeferred (ground (arith, n, e)) (insert-HoldsDeferred txs tx [] h tt)
  | inr (l, n) ↦ ground (arith, n, e)
]

abort-HoldsDeferred :
    (txs : TxStore) (tx : Bytes) (new : TxStore)
    → HoldsDeferred txs
    → TxStore.abort txs tx ≡ ok new
    → HoldsDeferred new
unfolding TxStore.abort
abort-HoldsDeferred txs tx new h e = elim (Option-cases (find txs tx)) [
  | inl n ↦ ground (arith, n, e)
  | inr (l, n) ↦ subst HoldsDeferred (ground (arith, n, e)) (delete-HoldsDeferred txs tx h)
]

-- `handleBegin` and `handleAbort` once the transaction is known.
change-Moves :
    (change : TxStore → Result TxStore)
    → ((txs new : TxStore) → HoldsDeferred txs → change txs ≡ ok new → HoldsDeferred new)
    → Moves IsBounded IsBounded (send_receipt_immediately >> change_txs change)
change-Moves change k =
    bind-Moves IsBounded IsBounded IsBounded send_receipt_immediately (λ u. change_txs change)
      send_receipt-IsBounded
      λ u s z. changed-Moves (change s.conn.tx_store) s z λ new e. k s.conn.tx_store new z e

pub handle_begin-IsBounded : Moves IsBounded IsBounded handle_begin
unfolding handle_begin
handle_begin-IsBounded s =
    bind-Moves IsBounded IsBounded IsBounded
      (or_fail (contains s.frame.header Names.transaction) (missing_header Names.transaction))
      (λ tx. send_receipt_immediately >> change_txs (λ txs. TxStore.begin txs tx))
      (or_fail-Moves IsBounded (contains s.frame.header Names.transaction)
        (missing_header Names.transaction) (λ t y. y))
      (λ tx. change-Moves (λ txs. TxStore.begin txs tx) λ txs new. begin-HoldsDeferred txs tx new) s

pub handle_abort-IsBounded : Moves IsBounded IsBounded handle_abort
unfolding handle_abort
handle_abort-IsBounded s =
    bind-Moves IsBounded IsBounded IsBounded
      (or_fail (contains s.frame.header Names.transaction) (missing_header Names.transaction))
      (λ tx. send_receipt_immediately >> change_txs (λ txs. TxStore.abort txs tx))
      (or_fail-Moves IsBounded (contains s.frame.header Names.transaction)
        (missing_header Names.transaction) (λ t y. y))
      (λ tx. change-Moves (λ txs. TxStore.abort txs tx) λ txs new. abort-HoldsDeferred txs tx new) s

-- `txs.Add(tx, f)` and what follows, by what the store gives.
added-Moves :
    (r : Result (TxStore × Frame)) (s : St)
    → IsBounded s
    → ((txs : TxStore) (g : Frame) → r ≡ ok (txs, g) → HoldsDeferred txs)
    → After IsBounded
        ((from_result r >>= λ e. put_conn (record (s.conn) { tx_store = e.0 }) >> put_frame e.1) s)
added-Moves (ok (txs, g)) s z k = k txs g refl
added-Moves (err e) s z k = z

add-HoldsDeferred :
    (txs : TxStore) (tx : Bytes) (f g : Frame) (new : TxStore)
    → HoldsDeferred txs
    → is_deferred f.command ≡ true
    → TxStore.add txs tx f ≡ ok (new, g)
    → HoldsDeferred new
unfolding TxStore.add
add-HoldsDeferred txs tx f g new h d e = elim (Option-cases (find txs tx)) [
  | inl n ↦ ground (arith, n, e)
  | inr (l, n) ↦
      let stripped : Frame = record f { header = del f.header Names.transaction } in
      subst HoldsDeferred (ground (arith, n, e)) (
        insert-HoldsDeferred txs tx (l ++ stripped ∷ []) h
          (AllDeferred-append l stripped (h tx l n) d))
]

pub add_to_transaction-IsBounded :
    (tx : Bytes) → Moves IsDeferring IsBounded (add_to_transaction tx)
unfolding add_to_transaction
add_to_transaction-IsBounded tx s (h, d) =
    added-Moves (TxStore.add s.conn.tx_store tx s.frame) s h
      λ txs g e. add-HoldsDeferred s.conn.tx_store tx s.frame g txs h d e
