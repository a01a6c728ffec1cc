-- ===== src/System/Transactions.antt =====
-- The frames of a transaction at the server's connection.
pub mod Ends
pub mod Calls
pub mod Completed
use go_stomp.Base.{
  ℕ, zero, suc, ◌+◌, ◌-◌, ◌*◌, ◌%◌, ◌^◌, ◌≡◌, ◌≢◌, refl, sym, ap, ◌∙◌, Bytes, Bool, true, false,
  not, ◌&&◌, ◌||◌, Option, none, some, List, [], ◌∷◌, ◌++◌, map, ok, err, ResultOf, codes, str_eq,
  if◌then◌else◌, take, drop, length, ltb, ◌==◌, arith, append_assoc, append-nil, All, find, insert,
  find-insert, str_eq_iff,
}
use mathlib.Core.Path.{subst}
use go_stomp.Client.Calls.Sending.{plain_frame}
use go_stomp.Client.Calls.Transaction.{Transaction, in_transaction}
use go_stomp.Client.Calls.Transaction.Laws.{receipt-in_transaction, transaction-in_transaction}
use go_stomp.Frame.Command.{Command}
use go_stomp.Frame.Data.{Frame, new}
use go_stomp.Frame.Header.{contains, set, del}
use go_stomp.Frame.Header.Laws.{without, del-without}
use go_stomp.Frame.Names
use go_stomp.Server.Conn.{Config, St, connected, returned}
use go_stomp.Server.Conn.Handlers.{
  call_state, run_connected, dispatch, handle_begin, handle_send, send_receipt_immediately,
  add_to_transaction,
}
use go_stomp.Server.Conn.Loop.{Event, on_event, on_read, validate, frame_read, run_events}
use go_stomp.Server.TxStore
use go_stomp.System.Sent.{plain_frame-contains}

-- A message to send.
pub record Text : Type 0 where
  pub destination : Bytes
  pub content_type : Bytes
  pub body : Bytes

abbrev pub frame_of : Text → Frame
frame_of m = plain_frame m.destination m.content_type m.body

abbrev pub about : Command → Transaction → Frame
about command tx = record { command = command; header = (Names.transaction, tx.id) ∷ []; body = [] }

-- The frame is kept as it was before it was put into the transaction.
del-in_transaction :
    (tx : Transaction) (d t b : Bytes)
    → del (set (plain_frame d t b).header Names.transaction tx.id) Names.transaction
      ≡ (plain_frame d t b).header
unfolding set without str_eq
del-in_transaction tx d [] b =
    del-without (set (plain_frame d [] b).header Names.transaction tx.id) Names.transaction
del-in_transaction tx d (x ∷ t) b =
    del-without (set (plain_frame d (x ∷ t) b).header Names.transaction tx.id) Names.transaction

pub run_events-goes_on :
    (config : Config) (e : Event) (es : List Event) (s t : St)
    → on_event config e s ≡ returned true t
    → run_events config (e ∷ es) s ≡ run_events config es t
unfolding run_events
run_events-goes_on config e es s t r = ground (arith, r)

abbrev pub with_store : St → TxStore.TxStore → Frame → St
with_store s txs f = record s { conn = record (s.conn) { tx_store = txs }; frame = f }

module _ (config : Config) (tx : Transaction) where
  pub on_event-begin :
      (s : St)
      → s.conn.state_func ≡ connected
      → find s.conn.tx_store tx.id ≡ none
      → on_event config (frame_read (some (about Command.begin tx))) s
        ≡ returned true (with_store s (insert s.conn.tx_store tx.id []) (about Command.begin tx))
  unfolding on_event on_read validate call_state run_connected dispatch handle_begin
      send_receipt_immediately TxStore.begin contains str_eq
  on_event-begin s k n = ground (arith, k, n)

  on_event-send :
      (m : Text) (l : List Frame) (s : St)
      → s.conn.state_func ≡ connected
      → find s.conn.tx_store tx.id ≡ some l
      → on_event config (frame_read (some (in_transaction tx (frame_of m)))) s
        ≡ returned true
            (with_store s (insert s.conn.tx_store tx.id (l ++ frame_of m ∷ [])) (frame_of m))
  unfolding on_event on_read validate call_state run_connected dispatch handle_send
      send_receipt_immediately add_to_transaction TxStore.add
  on_event-send m l s k q =
      let (no_receipt, no_transaction, to) =
        plain_frame-contains m.destination m.content_type m.body in
      ground (
        arith,
        k,
        q,
        del-in_transaction tx m.destination m.content_type m.body,
        receipt-in_transaction tx (frame_of m) ∙ no_receipt,
        transaction-in_transaction tx (frame_of m),
      )

  abbrev pub reads : Frame → Event
  reads f = frame_read (some f)

  -- The state of the connection where the transaction, and no other, has changed.
  pub record Holds (s t : St) (l : List Frame) : Type 0 where
    pub stage : t.conn.state_func ≡ connected
    pub requests : t.requests ≡ s.requests
    pub found : find t.conn.tx_store tx.id ≡ some l
    pub others :
        (j : Bytes) → str_eq tx.id j ≡ false → find t.conn.tx_store j ≡ find s.conn.tx_store j

  found-insert : (txs : TxStore.TxStore) (l : List Frame) → find (insert txs tx.id l) tx.id ≡ some l
  found-insert txs l = ground (arith, find-insert txs tx.id l tx.id, str_eq_iff tx.id tx.id)

  Holds-insert :
      (s t : St) (l k : List Frame) (f : Frame)
      → Holds s t l
      → Holds s (with_store t (insert t.conn.tx_store tx.id k) f) k
  Holds-insert s t l k f h = record {
    stage = h.stage;
    requests = h.requests;
    found = found-insert t.conn.tx_store k;
    others = λ j n. (find-insert t.conn.tx_store tx.id k j ∙ rw n refl) ∙ h.others j n;
  }

  -- The messages of a transaction, as the server's connection reads them before `rest`.
  pub run_events-sends :
      (ms : List Text) (rest : List Event) (l : List Frame) (s t : St)
      → Holds s t l
      → (u : St) × (run_events config
            (map (λ m. reads (in_transaction tx (frame_of m))) ms ++ rest)
            t
          ≡ run_events config rest u)
        × Holds s u (l ++ map frame_of ms)
  run_events-sends [] rest l s t h = (t, refl, subst (Holds s t) (sym (append-nil l)) h)
  run_events-sends (m ∷ ms) rest l s t h =
      let t' = with_store t (insert t.conn.tx_store tx.id (l ++ frame_of m ∷ [])) (frame_of m) in
      let (u, r, k) =
        run_events-sends ms rest (l ++ frame_of m ∷ []) s t'
          (Holds-insert s t l (l ++ frame_of m ∷ []) (frame_of m) h) in
      (
        u,
        run_events-goes_on config (reads (in_transaction tx (frame_of m))) _ t t'
              (on_event-send m l t h.stage h.found)
            ∙ r,
        subst (Holds s u) (append_assoc l (frame_of m ∷ []) (map frame_of ms)) k,
      )

  -- BEGIN and the messages.
  pub run_events-begun :
      (ms : List Text) (rest : List Event) (s : St)
      → s.conn.state_func ≡ connected
      → find s.conn.tx_store tx.id ≡ none
      → (u : St) × (run_events config
            (reads (about Command.begin tx)
              ∷ (map (λ m. reads (in_transaction tx (frame_of m))) ms ++ rest))
            s
          ≡ run_events config rest u)
        × Holds s u (map frame_of ms)
  run_events-begun ms rest s k n =
      let t = with_store s (insert s.conn.tx_store tx.id []) (about Command.begin tx) in
      let h : Holds s t [] = record {
        stage = k;
        requests = refl;
        found = found-insert s.conn.tx_store [];
        others = λ j d. find-insert s.conn.tx_store tx.id [] j ∙ rw d refl;
      } in
      let (u, r, held) = run_events-sends ms rest [] s t h in
      (
        u,
        run_events-goes_on config (reads (about Command.begin tx)) _ s t (on_event-begin s k n) ∙ r,
        held,
      )
