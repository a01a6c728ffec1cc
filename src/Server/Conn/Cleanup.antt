-- ===== src/Server/Conn/Cleanup.antt =====
-- What a connection hands back when it closes.
use go_stomp.Base.{ℕ, ◌≡◌, refl, Dict, List, [], ◌∷◌, ◌++◌, map, arith, none}
use go_stomp.Server.Conn.{St, returned}
use go_stomp.Server.Conn.Loop.{requeue_list, cleanup_conn}
use go_stomp.Server.TxStore
use go_stomp.Server.Objects.{
  Heap, set_sub_list, Request, unsubscribe_op, requeue_op, disconnected_op,
}

-- The requests that give back the pending frames of some subscriptions.
abbrev pub give_back : Heap → List ℕ → List Request
give_back h = map (λ a. requeue_op (h.at a).frame)

-- The requests that take some subscriptions off their queues and topics.
abbrev pub unsubscribes : Dict ℕ → List Request
unsubscribes = map (λ e. unsubscribe_op e.1)

abbrev SameFrames : Heap → Heap → Type 0
SameFrames h g = (a : ℕ) → (h.at a).frame ≡ (g.at a).frame

give_back-same : (h g : Heap) → SameFrames h g → (l : List ℕ) → give_back h l ≡ give_back g l
give_back-same h g e [] = refl
give_back-same h g e (a ∷ l) = rw (e a, give_back-same h g e l)

requeue_list-give_back :
    (l : List ℕ) (h g : Heap)
    → SameFrames h g
    → ((requeue_list h l).1 ≡ give_back g l) × SameFrames (requeue_list h l).0 g
unfolding requeue_list
requeue_list-give_back [] h g e = (refl, e)
requeue_list-give_back (a ∷ l) h g e =
    let freed : SameFrames (set_sub_list h a none) g = λ b. ground (arith, e b, e a) in
    let (q, r) = requeue_list-give_back l (set_sub_list h a none) g freed in (rw (q, freed a), r)

-- What a connection that closes leaves and asks for, with the frames of the list as they were at the
-- start: the messages that wait for an acknowledgement go back in the order of the list.
pub cleanup_conn-give_back :
    (first second : List ℕ) (s : St)
    → (t : St) × (cleanup_conn first second s ≡ returned tt t)
      × (t.requests
          ≡ s.requests
            ++ (unsubscribes s.conn.subs
                ++ (give_back s.heap s.conn.sub_list
                    ++ (give_back s.heap first
                        ++ (disconnected_op s.conn.address ∷ give_back s.heap second)))))
      × (t.conn.tx_store ≡ [])
      × (t.conn.subs ≡ [])
      × (t.conn.sub_list ≡ [])
unfolding cleanup_conn TxStore.init
cleanup_conn-give_back first second s =
    let (q, r) = requeue_list-give_back s.conn.sub_list s.heap s.heap (λ a. refl) in
    (
      record s {
        conn = record (s.conn) {
          tx_store = TxStore.init s.conn.tx_store;
          subs = [];
          sub_list = [];
        };
        heap = (requeue_list s.heap s.conn.sub_list).0;
        requests =
            s.requests
            ++ (unsubscribes s.conn.subs
                ++ ((requeue_list s.heap s.conn.sub_list).1
                    ++ (give_back (requeue_list s.heap s.conn.sub_list).0 first
                        ++ (disconnected_op s.conn.address
                            ∷ give_back (requeue_list s.heap s.conn.sub_list).0 second))));
      },
      refl,
      rw (
        q,
        give_back-same (requeue_list s.heap s.conn.sub_list).0 s.heap r first,
        give_back-same (requeue_list s.heap s.conn.sub_list).0 s.heap r second,
      ),
      refl,
      refl,
      refl,
    )
