-- ===== src/Server/Conn/MessageIds/Connected.antt =====
-- The handlers of the connected state.
use go_stomp.Base.{ℕ, suc, zero, Bytes, List, [], ◌∷◌, none, Option-cases, inl, inr, find, insert}
use go_stomp.Frame.Command.{Command}
use go_stomp.Frame.Data.{Frame}
use go_stomp.Frame.Header.{contains}
use go_stomp.Frame.Names
use go_stomp.Server.Conn.{Exec, returned, failed, crashed, M}
use go_stomp.Server.Conn.Handlers.{
  handle_commit, commit_loop, handle_ack, handle_nack, on_ack, on_nack, send_receipt_immediately,
  dispatch, run_connected, with_frame,
}
use go_stomp.Server.Conn.Transactions.{commit_found}
use go_stomp.Server.Objects.{done}
use go_stomp.Server.Subscription.{is_acked_by, is_nacked_by}
use go_stomp.Server.SubscriptionList.{ack, nack}
use go_stomp.Server.Conn.MessageIds.{
  Unnumbered, HeapAfter, Keeps, bind-Keeps, send_receipt-Keeps, handle_disconnect-Keeps,
  handle_begin-Keeps, handle_abort-Keeps, handle_send-Keeps, handle_unsubscribe-Keeps,
  handle_subscribe-Keeps, set_frame-Unnumbered, ack_loop-Unnumbered, settle-Keeps,
}

commit_loop-Keeps :
    (run : Frame → M (Unit {0}))
    → ((f : Frame) → Keeps (run f))
    → (tx : Bytes) (l : List Frame) → Keeps (commit_loop run tx l)
unfolding commit_loop
commit_loop-Keeps run k tx [] s z = z
commit_loop-Keeps run k tx (f ∷ l) s z =
    bind-Keeps (run f) (λ u. commit_loop run tx l) (k f) (λ u. commit_loop-Keeps run k tx l)
      (record s { conn = record (s.conn) { tx_store = insert s.conn.tx_store tx l } }) z

commit_found-Keeps :
    (run : Frame → M (Unit {0}))
    → ((f : Frame) → Keeps (run f))
    → (tx : Bytes) → Keeps (commit_found run tx)
commit_found-Keeps run k tx s z = elim (Option-cases (find s.conn.tx_store tx)) [
  | inl e ↦ rw e z
  | inr (l, e) ↦ rw e (commit_loop-Keeps run k tx l s z)
]

handle_commit-Keeps :
    (run : Frame → M (Unit {0})) → ((f : Frame) → Keeps (run f)) → Keeps (handle_commit run)
unfolding handle_commit
handle_commit-Keeps run k s z = elim (Option-cases (contains s.frame.header Names.transaction)) [
  | inl e ↦ rw e z
  | inr (tx, e) ↦ rw e (
      bind-Keeps send_receipt_immediately (λ u. commit_found run tx) send_receipt-Keeps
        (λ u. commit_found-Keeps run k tx) s z)
]

handle_ack-Keeps : Keeps handle_ack
unfolding handle_ack ack
handle_ack-Keeps = settle-Keeps ack on_ack λ m h l.
    ack_loop-Unnumbered (λ s. is_acked_by s m) on_ack (λ a g. set_frame-Unnumbered g a none) l h

handle_nack-Keeps : Keeps handle_nack
unfolding handle_nack nack
handle_nack-Keeps = settle-Keeps nack on_nack λ m h l.
    ack_loop-Unnumbered (λ s. done (is_nacked_by s m)) on_nack
      (λ a g. set_frame-Unnumbered g a none) l h

dispatch-Keeps :
    (run : Frame → M (Unit {0}))
    → ((f : Frame) → Keeps (run f))
    → (c : Command) → Keeps (dispatch run c)
unfolding dispatch
dispatch-Keeps run k Command.connect = λ s z. z
dispatch-Keeps run k Command.stomp = λ s z. z
dispatch-Keeps run k Command.disconnect = handle_disconnect-Keeps
dispatch-Keeps run k Command.begin = handle_begin-Keeps
dispatch-Keeps run k Command.abort = handle_abort-Keeps
dispatch-Keeps run k Command.commit = handle_commit-Keeps run k
dispatch-Keeps run k Command.send = handle_send-Keeps
dispatch-Keeps run k Command.subscribe = handle_subscribe-Keeps
dispatch-Keeps run k Command.unsubscribe = handle_unsubscribe-Keeps
dispatch-Keeps run k Command.ack = handle_ack-Keeps
dispatch-Keeps run k Command.nack = handle_nack-Keeps
dispatch-Keeps run k Command.message = λ s z. z
dispatch-Keeps run k Command.receipt = λ s z. z
dispatch-Keeps run k Command.error = λ s z. z
dispatch-Keeps run k Command.connected = λ s z. z

restored-Keeps :
    (e : Exec (Unit {0})) (f : Frame)
    → HeapAfter Unnumbered e
    → HeapAfter Unnumbered (elim e [
      | returned a t ↦ returned a (record t { frame = f })
      | failed x t ↦ failed x (record t { frame = f })
      | crashed p ↦ crashed p
    ])
restored-Keeps (returned a t) f z = z
restored-Keeps (failed x t) f z = z
restored-Keeps (crashed p) f z = z

with_frame-Keeps : (m : M (Unit {0})) (f : Frame) → Keeps m → Keeps (with_frame m f)
unfolding with_frame
with_frame-Keeps m f k s z =
    restored-Keeps (m (record s { frame = f })) s.frame (k (record s { frame = f }) z)

pub run_connected-Keeps : (depth : ℕ) → Keeps (run_connected depth)
unfolding run_connected
run_connected-Keeps zero s z = tt
run_connected-Keeps (suc depth) s z =
    dispatch-Keeps (with_frame (run_connected depth))
      (λ f. with_frame-Keeps (run_connected depth) f (run_connected-Keeps depth)) s.frame.command s
      z
