-- ===== src/Client/Calls/Transaction/Laws.antt =====
-- A message that is sent in a transaction, from the client's call to the server's store.
use go_stomp.Base.{
  ℕ, ◌+◌, ◌%◌, ◌^◌, ◌≡◌, refl, ap, ◌∙◌, Bytes, true, false, Option, none, some, List, [], ◌∷◌, ◌++◌,
  ok, str_eq, if◌then◌else◌, arith, str_eq_iff, find, insert, find-insert,
}
use go_stomp.Client.Calls.{
  Client, returned, Answers, FrameOption, create_send_frame, count_write, send_request, send_frame,
}
use go_stomp.Client.Calls.Transaction
use go_stomp.Client.Calls.Transaction.{Transaction, in_transaction}
use go_stomp.Client.Conn.{Conn, WriteRequest}
use go_stomp.Frame.Data.{Frame}
use go_stomp.Frame.Header.{Header, contains, del}
use go_stomp.Frame.Header.Laws.{contains-set, contains-del}
use go_stomp.Frame.Names
use go_stomp.Server
use go_stomp.Server.Conn.{St, Exec}
use go_stomp.Server.Conn.Handlers.{handle_send, send_receipt_immediately, add_to_transaction}
use go_stomp.Server.TxStore

pub record IsReady (w : Answers) (c : Conn) : Type 0 where
  pub unshut : c.closed ≡ false
  pub writes : c.write_closed ≡ false
  pub taken : w.taken ≡ true

pub count_write-conn :
    (c : Client)
    → (n : ℕ) × (count_write c
        ≡ returned (ok tt) (record c { conn = record (c.conn) { writes_sent = n } }))
unfolding count_write
count_write-conn c = (
  if c.conn.stats_enabled then (c.conn.writes_sent + 1) % 2 ^ 64 else c.conn.writes_sent,
  ground arith,
)

pub send_request-ready :
    (w : Answers) (r : WriteRequest) (c : Client)
    → IsReady w c.conn
    → send_request w r c
      ≡ returned
          (ok tt)
          (record c { conn = record (c.conn) { write_requests = c.conn.write_requests ++ r ∷ [] } })
unfolding send_request
send_request-ready w r c y = ground (arith, y.writes, y.taken)

pub send_frame-IsReady :
    (w : Answers) (f : Frame) (c : Client)
    → IsReady w c.conn
    → contains f.header Names.receipt ≡ none
    → (t : Client) × (send_frame w f c ≡ returned (ok tt) t)
      × (t.conn.write_requests ≡ c.conn.write_requests ++ record { frame = f; channel = none } ∷ [])
      × IsReady w t.conn
unfolding send_frame
send_frame-IsReady w f c y e =
    let (n, q) = count_write-conn c in
    (
      record c {
        conn = record (c.conn) {
          writes_sent = n;
          write_requests = c.conn.write_requests ++ record { frame = f; channel = none } ∷ [];
        };
      },
      ground (
        arith,
        y.unshut,
        q,
        e,
        send_request-ready w (record { frame = f; channel = none })
            (record c { conn = record (c.conn) { writes_sent = n } })
            (record { unshut = y.unshut; writes = y.writes; taken = y.taken }),
      ),
      refl,
      record { unshut = y.unshut; writes = y.writes; taken = y.taken },
    )

pub receipt-in_transaction :
    (tx : Transaction) (f : Frame)
    → contains (in_transaction tx f).header Names.receipt ≡ contains f.header Names.receipt
unfolding str_eq
receipt-in_transaction tx f = contains-set f.header Names.transaction tx.id Names.receipt

pub transaction-in_transaction :
    (tx : Transaction) (f : Frame)
    → contains (in_transaction tx f).header Names.transaction ≡ some tx.id
unfolding str_eq
transaction-in_transaction tx f = contains-set f.header Names.transaction tx.id Names.transaction

without_transaction : (h : Header) → contains (del h Names.transaction) Names.transaction ≡ none
unfolding str_eq
without_transaction h = contains-del h Names.transaction Names.transaction

handle_send-stores :
    (s : St) (g : Frame) (id : Bytes) (frames : List Frame)
    → contains g.header Names.receipt ≡ none
    → contains g.header Names.transaction ≡ some id
    → find s.conn.tx_store id ≡ some frames
    → (t : St) × (handle_send (record s { frame = g }) ≡ Server.Conn.returned tt t)
      × (t.requests ≡ s.requests)
      × (t.conn.tx_store
          ≡ insert s.conn.tx_store id
              (frames ++ record g { header = del g.header Names.transaction } ∷ []))
unfolding handle_send send_receipt_immediately add_to_transaction TxStore.add
handle_send-stores s g id frames r k q = (
  record s {
    frame = record g { header = del g.header Names.transaction };
    conn = record (s.conn) {
      tx_store =
          insert s.conn.tx_store id
            (frames ++ record g { header = del g.header Names.transaction } ∷ []);
    };
  },
  ground (arith, r, k, q),
  refl,
  refl,
)

-- A frame that a client sends in a transaction that is not completed goes to the server with the
-- transaction's id, and the server, where that transaction has begun, keeps it behind those that it
-- has, without that header, and enqueues nothing. The frame is the one that `createSendFrame` makes
-- with the call's options; it asks for no receipt, the connection is open and its request is taken.
pub send-stores :
    (w : Answers) (tx : Transaction) (d t b : Bytes) (opts : List (Option FrameOption))
    (c c' : Client)
    → (f : Frame) (s : St) (frames : List Frame) → tx.completed ≡ false
    → create_send_frame d t b opts c ≡ returned (ok f) c'
    → IsReady w c'.conn
    → contains f.header Names.receipt ≡ none
    → find s.conn.tx_store tx.id ≡ some frames
    → (g h : Frame) × (r : Client) × (u : St) × (Transaction.send w tx d t b opts c
        ≡ returned (ok tt) r)
      × (r.conn.write_requests
          ≡ c'.conn.write_requests ++ record { frame = g; channel = none } ∷ [])
      × (handle_send (record s { frame = g }) ≡ Server.Conn.returned tt u)
      × (u.requests ≡ s.requests)
      × (find u.conn.tx_store tx.id ≡ some (frames ++ h ∷ []))
      × (contains h.header Names.transaction ≡ none)
      × (h.command ≡ f.command)
      × (h.body ≡ f.body)
unfolding Transaction.send
send-stores w tx d t b opts c c' f s frames o q y n k =
    let g = in_transaction tx f in
    let h : Frame = record g { header = del g.header Names.transaction } in
    let no_receipt = receipt-in_transaction tx f ∙ n in
    let (r, e, l, still) = send_frame-IsReady w g c' y no_receipt in
    let (u, e', i, m) =
      handle_send-stores s g tx.id frames no_receipt (transaction-in_transaction tx f) k in
    (
      g,
      h,
      r,
      u,
      ground (arith, o, q, e),
      l,
      e',
      i,
      ap (λ x. find x tx.id) m
          ∙ ground (
            arith,
            find-insert s.conn.tx_store tx.id (frames ++ h ∷ []) tx.id,
            str_eq_iff tx.id tx.id,
          ),
      without_transaction g.header,
      refl,
      refl,
    )
