-- ===== src/Server/Conn/Replay.antt =====
-- What a COMMIT of sent messages does.
use go_stomp.Base.{
  ◌≡◌, refl, sym, ◌∙◌, Bytes, List, [], ◌∷◌, ◌++◌, map, none, arith, All, str_eq, if◌then◌else◌,
  find, insert, delete, find-insert, find-delete, append_assoc, append-nil,
}
use go_stomp.Frame.Command.{Command}
use go_stomp.Frame.Data.{Frame}
use go_stomp.Frame.Header.{contains}
use go_stomp.Frame.Names
use go_stomp.Server.Conn.{St, returned}
use go_stomp.Server.Conn.Handlers.{
  commit_loop, run_connected, with_frame, dispatch, handle_send, send_receipt_immediately,
}
use go_stomp.Server.Objects.{Request, enqueue_op}

-- A SEND frame as a transaction holds it: with no header for a receipt or a transaction.
abbrev pub IsStored : Frame → Type 0
IsStored f =
    (f.command ≡ Command.send)
    × (contains f.header Names.receipt ≡ none)
    × (contains f.header Names.transaction ≡ none)

-- The request that a SEND frame comes to.
abbrev pub sends : Frame → Request
sends f = enqueue_op (record f { command = Command.message })

run_send :
    (f : Frame) (s : St)
    → IsStored f
    → with_frame (run_connected 1) f s
      ≡ returned tt (record s { requests = s.requests ++ sends f ∷ [] })
unfolding with_frame run_connected dispatch handle_send send_receipt_immediately
run_send f s (c, r, t) = ground (arith, c, r, t)

-- The commit of a transaction of SEND frames sends each as a message to the upper layer, once and
-- in the order in which they came, and removes this transaction and no other.
pub commit_loop-sends :
    (tx : Bytes) (l : List Frame) (s : St)
    → All IsStored l
    → (t : St) × (commit_loop (with_frame (run_connected 1)) tx l s ≡ returned tt t)
      × (t.requests ≡ s.requests ++ map sends l)
      × ((j : Bytes)
          → find t.conn.tx_store j ≡ (if str_eq tx j then none else find s.conn.tx_store j))
unfolding commit_loop
commit_loop-sends tx [] s v = (
  record s { conn = record (s.conn) { tx_store = delete s.conn.tx_store tx } },
  refl,
  sym (append-nil s.requests),
  λ j. ground (arith, find-delete s.conn.tx_store tx j),
)
commit_loop-sends tx (f ∷ l) s (w, v) =
    let s' : St = record s { conn = record (s.conn) { tx_store = insert s.conn.tx_store tx l } } in
    let (t, r, q, k) =
      commit_loop-sends tx l (record s' { requests = s.requests ++ sends f ∷ [] }) v in
    (
      t,
      ground (arith, run_send f s' w, r),
      q ∙ append_assoc s.requests (sends f ∷ []) (map sends l),
      λ j. k j ∙ ground (arith, find-insert s.conn.tx_store tx l j),
    )
