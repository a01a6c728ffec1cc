-- ===== src/Server/Conn/Deferred/Connected.antt =====
-- What a transaction can hold: COMMIT and the connected state.
use go_stomp.Base.{
  ℕ, suc, ◌≡◌, refl, ap, Bytes, true, List, [], ◌∷◌, Option-cases, inl, inr, find, missing_header,
  insert,
}
use go_stomp.Frame.Command.{Command}
use go_stomp.Frame.Data.{Frame}
use go_stomp.Frame.Header.{contains}
use go_stomp.Frame.Names
use go_stomp.Server.Conn.{St, Exec, returned, failed, crashed, M, ◌>>◌, or_fail}
use go_stomp.Server.Conn.Handlers.{
  handle_commit, commit_loop, send_receipt_immediately, dispatch, run_connected, with_frame,
}
use go_stomp.Server.Conn.Transactions.{commit_found, is_deferred, AllDeferred}
use go_stomp.Server.Conn.Deferred.{
  IsBounded, IsDeferring, After, Moves, bind-Moves, insert-HoldsDeferred, delete-HoldsDeferred,
  send_receipt-IsBounded, handle_disconnect-IsBounded, handle_subscribe-IsBounded,
  handle_unsubscribe-IsBounded, handle_begin-IsBounded, handle_abort-IsBounded, or_fail-Moves,
}
use go_stomp.Server.Conn.Deferred.Settle.{
  handle_send-IsBounded, handle_ack-IsBounded, handle_nack-IsBounded,
}

-- The commands whose handlers may put the frame into a transaction.
dispatch-IsDeferring :
    (run : Frame → M (Unit {0})) (c : Command)
    → is_deferred c ≡ true
    → Moves IsDeferring IsBounded (dispatch run c)
unfolding dispatch
dispatch-IsDeferring run Command.send e = handle_send-IsBounded
dispatch-IsDeferring run Command.ack e = handle_ack-IsBounded
dispatch-IsDeferring run Command.nack e = handle_nack-IsBounded
dispatch-IsDeferring run _ e = cc

run_connected-IsDeferring : (n : ℕ) → Moves IsDeferring IsBounded (run_connected (suc n))
unfolding run_connected
run_connected-IsDeferring n s z =
    dispatch-IsDeferring (with_frame (run_connected n)) s.frame.command z.1 s z

restored-IsBounded :
    (e : Exec (Unit {0})) (f : Frame)
    → After IsBounded e
    → After IsBounded (elim e [
      | returned a t ↦ returned a (record t { frame = f })
      | failed x t ↦ failed x (record t { frame = f })
      | crashed p ↦ crashed p
    ])
restored-IsBounded (returned a t) f z = z
restored-IsBounded (failed x t) f z = z
restored-IsBounded (crashed p) f z = z

-- A frame of a transaction.
replayed-IsBounded :
    (n : ℕ) (f : Frame)
    → is_deferred f.command ≡ true
    → Moves IsBounded IsBounded (with_frame (run_connected (suc n)) f)
unfolding with_frame
replayed-IsBounded n f d s z =
    restored-IsBounded (run_connected (suc n) (record s { frame = f })) s.frame
      (run_connected-IsDeferring n (record s { frame = f }) (z, d))

commit_loop-IsBounded :
    (n : ℕ) (tx : Bytes) (l : List Frame)
    → AllDeferred l
    → Moves IsBounded IsBounded (commit_loop (with_frame (run_connected (suc n))) tx l)
unfolding commit_loop
commit_loop-IsBounded n tx [] v s z = delete-HoldsDeferred s.conn.tx_store tx z
commit_loop-IsBounded n tx (f ∷ l) (d, v) s z =
    bind-Moves IsBounded IsBounded IsBounded (with_frame (run_connected (suc n)) f)
      (λ u. commit_loop (with_frame (run_connected (suc n))) tx l) (replayed-IsBounded n f d)
      (λ u. commit_loop-IsBounded n tx l v)
      (record s { conn = record (s.conn) { tx_store = insert s.conn.tx_store tx l } })
      (insert-HoldsDeferred s.conn.tx_store tx l z v)

commit_found-IsBounded :
    (n : ℕ) (tx : Bytes)
    → Moves IsBounded IsBounded (commit_found (with_frame (run_connected (suc n))) tx)
commit_found-IsBounded n tx s z = elim (Option-cases (find s.conn.tx_store tx)) [
  | inl e ↦ rw (e, After) z
  | inr (l, e) ↦ rw (e, After) (commit_loop-IsBounded n tx l (z tx l e) s z)
]

handle_commit-IsBounded :
    (n : ℕ) → Moves IsBounded IsBounded (handle_commit (with_frame (run_connected (suc n))))
unfolding handle_commit
handle_commit-IsBounded n s z =
    bind-Moves IsBounded IsBounded IsBounded
      (or_fail (contains s.frame.header Names.transaction) (missing_header Names.transaction))
      (λ tx. send_receipt_immediately >> commit_found (with_frame (run_connected (suc n))) tx)
      (or_fail-Moves IsBounded (contains s.frame.header Names.transaction)
        (missing_header Names.transaction) (λ t y. y))
      (λ tx.
        bind-Moves IsBounded IsBounded IsBounded send_receipt_immediately
          (λ u. commit_found (with_frame (run_connected (suc n))) tx) send_receipt-IsBounded
          (λ u. commit_found-IsBounded n tx))
      s z

dispatch-IsBounded :
    (n : ℕ) (c : Command) (s : St)
    → s.frame.command ≡ c
    → IsBounded s
    → After IsBounded (dispatch (with_frame (run_connected (suc n))) c s)
unfolding dispatch
dispatch-IsBounded n Command.connect s e z = z
dispatch-IsBounded n Command.stomp s e z = z
dispatch-IsBounded n Command.disconnect s e z = handle_disconnect-IsBounded s z
dispatch-IsBounded n Command.begin s e z = handle_begin-IsBounded s z
dispatch-IsBounded n Command.abort s e z = handle_abort-IsBounded s z
dispatch-IsBounded n Command.commit s e z = handle_commit-IsBounded n s z
dispatch-IsBounded n Command.send s e z = handle_send-IsBounded s (z, ap is_deferred e)
dispatch-IsBounded n Command.subscribe s e z = handle_subscribe-IsBounded s z
dispatch-IsBounded n Command.unsubscribe s e z = handle_unsubscribe-IsBounded s z
dispatch-IsBounded n Command.ack s e z = handle_ack-IsBounded s (z, ap is_deferred e)
dispatch-IsBounded n Command.nack s e z = handle_nack-IsBounded s (z, ap is_deferred e)
dispatch-IsBounded n Command.message s e z = z
dispatch-IsBounded n Command.receipt s e z = z
dispatch-IsBounded n Command.error s e z = z
dispatch-IsBounded n Command.connected s e z = z

pub run_connected-IsBounded : (n : ℕ) → Moves IsBounded IsBounded (run_connected (suc (suc n)))
unfolding run_connected
run_connected-IsBounded n s z = dispatch-IsBounded n s.frame.command s refl z
