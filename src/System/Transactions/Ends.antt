-- ===== src/System/Transactions/Ends.antt =====
-- The frame that completes a transaction at the server's connection.
use go_stomp.Base.{
  ◌≡◌, refl, ap, ◌∙◌, Bytes, true, none, some, List, [], ◌∷◌, ◌++◌, map, str_eq, if◌then◌else◌,
  arith, All, find, delete, find-delete, inl, inr, Bool-cases,
}
use go_stomp.Client.Calls.Transaction.{Transaction}
use go_stomp.Frame.Command.{Command}
use go_stomp.Frame.Data.{Frame}
use go_stomp.Frame.Header.{contains}
use go_stomp.Server
use go_stomp.Server.Conn.{Config, St, returned}
use go_stomp.Server.Conn.Handlers.{
  call_state, run_connected, dispatch, handle_commit, handle_abort, send_receipt_immediately,
}
use go_stomp.Server.Conn.Loop.{on_event, on_read, validate, frame_read}
use go_stomp.Server.Conn.Replay.{IsStored, sends, commit_loop-sends}
use go_stomp.Server.Objects.{enqueue_op}
use go_stomp.Server.TxStore
use go_stomp.System.Sent.{plain_frame-contains, plain_message}
use go_stomp.System.Transactions.{Text, frame_of, about, Holds, with_store}

frames-IsStored : (ms : List Text) → All IsStored (map frame_of ms)
frames-IsStored [] = tt
frames-IsStored (m ∷ ms) =
    let (no_receipt, no_transaction, to) =
      plain_frame-contains m.destination m.content_type m.body in
    ((refl, no_receipt, no_transaction), frames-IsStored ms)

abbrev pub enqueue_of : Text → Server.Objects.Request
enqueue_of m = enqueue_op (plain_message m.destination m.content_type m.body)

map-sends : (ms : List Text) → map sends (map frame_of ms) ≡ map enqueue_of ms
map-sends [] = refl
map-sends (m ∷ ms) = ap (◌∷◌ (enqueue_of m)) (map-sends ms)

module _ (config : Config) (tx : Transaction) where
  -- The transaction is forgotten, and no other has changed.
  abbrev pub Forgotten : St → St → Type 0
  Forgotten s t =
      (j : Bytes)
      → find t.conn.tx_store j ≡ (if str_eq tx.id j then none else find s.conn.tx_store j)

  pub Forgotten-after :
      (s t u : St) {l : List Frame} → Holds config tx s t l → Forgotten t u → Forgotten s u
  Forgotten-after s t u h g j = elim (Bool-cases (str_eq tx.id j)) [
    | inl e ↦ g j ∙ rw e refl
    | inr n ↦ g j ∙ rw n (h.others j n)
  ]

  pub on_event-commit :
      (ms : List Text) (s u : St)
      → Holds config tx s u (map frame_of ms)
      → (t : St) × (on_event config (frame_read (some (about Command.commit tx))) u
          ≡ returned true t)
        × (t.requests ≡ u.requests ++ map enqueue_of ms)
        × Forgotten u t
  unfolding on_event on_read validate call_state run_connected dispatch handle_commit
      send_receipt_immediately contains str_eq
  on_event-commit ms s u h =
      let (t, r, q, k) =
        commit_loop-sends tx.id (map frame_of ms) (record u { frame = about Command.commit tx })
          (frames-IsStored ms) in
      (t, ground (arith, h.stage, h.found, r), q ∙ ap (λ l. u.requests ++ l) (map-sends ms), k)

  pub on_event-abort :
      (s u : St) {l : List Frame}
      → Holds config tx s u l
      → (t : St) × (on_event config (frame_read (some (about Command.abort tx))) u
          ≡ returned true t)
        × (t.requests ≡ u.requests)
        × Forgotten u t
  unfolding on_event on_read validate call_state run_connected dispatch handle_abort
      send_receipt_immediately TxStore.abort contains str_eq
  on_event-abort s u h = (
    with_store u (delete u.conn.tx_store tx.id) (about Command.abort tx),
    ground (arith, h.stage, h.found),
    refl,
    λ j. find-delete u.conn.tx_store tx.id j,
  )
