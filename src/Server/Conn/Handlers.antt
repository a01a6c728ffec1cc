-- ===== src/Server/Conn/Handlers.antt =====
-- server/client/conn.go: the state functions and the handlers of frames, with `Commit` of
-- server/client/tx_store.go.
use go_stomp.Base.{
  ℕ, zero, suc, Bytes, Option, none, some, List, [], ◌∷◌, Result, missing_header, not_connected,
  unexpected_command, unknown_command, subscription_exists, subscription_not_found, tx_unknown,
  find, insert, delete,
}
use go_stomp.Frame.Command.{Command}
use go_stomp.Frame.Data.{Frame}
use go_stomp.Frame.Header.{contains}
use go_stomp.Frame.Names
use go_stomp.Std.Strconv.{parse_uint, max_uint64}
use go_stomp.Server.Conn.{
  Config, connecting, connected, returned, failed, crashed, M, ◌>>=◌, ◌>>◌, fail, get_conn,
  put_conn, get_frame, put_frame, get_heap, put_heap, request, request_all, from_result,
  from_outcome, or_fail,
}
use go_stomp.Server.Objects.{
  Heap, Subscription, alloc, set_frame, conn_list, Request, subscribe_op, unsubscribe_op,
  enqueue_op, requeue_op, connected_op, stack_overflow,
}
use go_stomp.Server.Subscription.{new_subscription}
use go_stomp.Server.SubscriptionList
use go_stomp.Server.TxStore
unfoldable pub use go_stomp.Server.Conn.Connecting.{
  send_receipt_immediately, finish_connect, negotiate, handle_connect, handle_disconnect,
}
pub use go_stomp.Server.Conn.Connecting.{server_name}

-- The transaction store behind a method that may fail.
abbrev pub change_txs : (TxStore.TxStore → Result TxStore.TxStore) → M (Unit {0})
change_txs change = do
  c ← get_conn
  txs ← from_result (change c.tx_store)
  put_conn (record c { tx_store = txs })

unfoldable pub handle_begin : M (Unit {0})
unfolding send_receipt_immediately contains TxStore.begin
handle_begin = do
  f ← get_frame
  transaction ← or_fail (contains f.header Names.transaction) (missing_header Names.transaction)
  send_receipt_immediately
  change_txs (λ txs. TxStore.begin txs transaction)

unfoldable pub handle_abort : M (Unit {0})
unfolding send_receipt_immediately contains TxStore.abort
handle_abort = do
  f ← get_frame
  transaction ← or_fail (contains f.header Names.transaction) (missing_header Names.transaction)
  send_receipt_immediately
  change_txs (λ txs. TxStore.abort txs transaction)

-- `txs.Add(tx, f)` with the frame in hand.
unfoldable pub add_to_transaction : Bytes → M (Unit {0})
unfolding TxStore.add
add_to_transaction tx = do
  c ← get_conn
  f ← get_frame
  (txs, g) ← from_result (TxStore.add c.tx_store tx f)
  put_conn (record c { tx_store = txs })
  put_frame g

unfoldable pub handle_send : M (Unit {0})
unfolding send_receipt_immediately add_to_transaction contains
handle_send = do
  send_receipt_immediately
  f ← get_frame
  elim (contains f.header Names.transaction) [
    | some tx ↦ add_to_transaction tx
    | none ↦ do
      put_frame (record f { command = Command.message })
      request (enqueue_op (record f { command = Command.message }))
  ]

unfoldable pub ack_or_auto : Frame → Bytes
unfolding contains
ack_or_auto f = elim (contains f.header Names.ack) [ some a ↦ a | none ↦ Names.ack_auto ]

unfoldable pub handle_subscribe : M (Unit {0})
unfolding new_subscription ack_or_auto contains find insert
handle_subscribe = do
  f ← get_frame
  id ← or_fail (contains f.header Names.id) (missing_header Names.id)
  dest ← or_fail (contains f.header Names.destination) (missing_header Names.destination)
  c ← get_conn
  elim (find c.subs id) [
    | some old ↦ fail subscription_exists
    | none ↦ do
      h ← get_heap
      put_heap (alloc h (new_subscription c.address dest id (ack_or_auto f)))
      put_conn (record c { subs = insert c.subs id h.next })
      request (subscribe_op h.next)
  ]

unfoldable pub handle_unsubscribe : M (Unit {0})
unfolding contains find delete
handle_unsubscribe = do
  f ← get_frame
  id ← or_fail (contains f.header Names.id) (missing_header Names.id)
  c ← get_conn
  sub ← or_fail (find c.subs id) subscription_not_found
  put_conn (record c { subs = delete c.subs id })
  request (unsubscribe_op sub)

-- "ack" if it is there, and else "message-id".
unfoldable pub acked_id : Frame → Option Bytes
unfolding contains
acked_id f = elim (contains f.header Names.ack) [
  | some id ↦ some id
  | none ↦ contains f.header Names.message_id
]

-- The callback of `handleAck`.
abbrev pub on_ack : ℕ → Heap → Heap × List Request
on_ack a h = (set_frame h a none, subscribe_op a ∷ [])

-- The callback of `handleNack`.
abbrev pub on_nack : ℕ → Heap → Heap × List Request
on_nack a h = (set_frame h a none, requeue_op (h.at a).frame ∷ subscribe_op a ∷ [])

abbrev ListMethod : Type 0
ListMethod =
    ℕ
    → (ℕ → Heap → Heap × List Request)
    → Heap
    → List ℕ
    → go_stomp.Server.Objects.Outcome (Heap × List ℕ × List Request)

-- `handleAck` and `handleNack`, which differ in the list's method and its callback.
unfoldable pub settle : ListMethod → (ℕ → Heap → Heap × List Request) → M (Unit {0})
unfolding send_receipt_immediately add_to_transaction acked_id
settle method callback = do
  f ← get_frame
  msg_id ← or_fail (acked_id f) (missing_header Names.message_id)
  msg_id64 ← from_result (parse_uint max_uint64 msg_id)
  send_receipt_immediately
  g ← get_frame
  elim (contains g.header Names.transaction) [
    | some tx ↦ add_to_transaction tx
    | none ↦ do
      c ← get_conn
      h ← get_heap
      (h', kept, requests) ← from_outcome (method msg_id64 callback h c.sub_list)
      put_heap h'
      put_conn (record c { sub_list = kept })
      request_all requests
  ]

unfoldable pub handle_ack : M (Unit {0})
unfolding settle SubscriptionList.ack
handle_ack = settle SubscriptionList.ack on_ack

unfoldable pub handle_nack : M (Unit {0})
unfolding settle SubscriptionList.nack
handle_nack = settle SubscriptionList.nack on_nack

-- The loop of `txStore.Commit` over the frames of the transaction: each is taken off the list
-- before it is run.
unfoldable pub commit_loop : (Frame → M (Unit {0})) → Bytes → List Frame → M (Unit {0})
unfolding insert delete
commit_loop run tx [] = do c ← get_conn; put_conn (record c { tx_store = delete c.tx_store tx })
commit_loop run tx (f ∷ rest) = do
  c ← get_conn
  put_conn (record c { tx_store = insert c.tx_store tx rest })
  run f
  commit_loop run tx rest

unfoldable pub handle_commit : (Frame → M (Unit {0})) → M (Unit {0})
unfolding send_receipt_immediately commit_loop contains find
handle_commit run = do
  f ← get_frame
  transaction ← or_fail (contains f.header Names.transaction) (missing_header Names.transaction)
  send_receipt_immediately
  c ← get_conn
  frames ← or_fail (find c.tx_store transaction) tx_unknown
  commit_loop run transaction frames

-- The `switch` of `connected`; `run` is the state function that `handleCommit` calls again.
unfoldable pub dispatch : (Frame → M (Unit {0})) → Command → M (Unit {0})
unfolding handle_disconnect handle_begin handle_abort handle_commit handle_send handle_subscribe
    handle_unsubscribe handle_ack handle_nack
dispatch run Command.connect = fail unexpected_command
dispatch run Command.stomp = fail unexpected_command
dispatch run Command.disconnect = handle_disconnect
dispatch run Command.begin = handle_begin
dispatch run Command.abort = handle_abort
dispatch run Command.commit = handle_commit run
dispatch run Command.send = handle_send
dispatch run Command.subscribe = handle_subscribe
dispatch run Command.unsubscribe = handle_unsubscribe
dispatch run Command.ack = handle_ack
dispatch run Command.nack = handle_nack
dispatch run Command.message = fail unexpected_command
dispatch run Command.receipt = fail unexpected_command
dispatch run Command.error = fail unexpected_command
dispatch run Command.connected = fail unknown_command

-- A call with another frame: the caller's frame is in hand again when it returns.
unfoldable pub with_frame : M (Unit {0}) → Frame → M (Unit {0})
with_frame m g s = elim (m (record s { frame = g })) [
  | returned a t ↦ returned a (record t { frame = s.frame })
  | failed e t ↦ failed e (record t { frame = s.frame })
  | crashed p ↦ crashed p
]

-- `connected`, with a bound on how deep commits call it again.
unfoldable pub run_connected : ℕ → M (Unit {0})
unfolding dispatch with_frame
run_connected zero s = crashed stack_overflow
run_connected (suc depth) s = dispatch (with_frame (run_connected depth)) s.frame.command s

unfoldable pub run_connecting : Config → Command → M (Unit {0})
unfolding handle_connect
run_connecting config Command.connect = handle_connect config
run_connecting config Command.stomp = handle_connect config
run_connecting config _ = fail not_connected

-- Only SEND, ACK and NACK frames are put into a transaction, so one call within another is enough.
abbrev pub commit_depth : ℕ
commit_depth = 2

-- `c.stateFunc(c, f)`.
unfoldable pub call_state : Config → M (Unit {0})
unfolding run_connected run_connecting
call_state config s = elim s.conn.state_func [
  | connecting ↦ run_connecting config s.frame.command s
  | connected ↦ run_connected commit_depth s
]
