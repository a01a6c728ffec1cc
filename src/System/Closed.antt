-- ===== src/System/Closed.antt =====
-- The messages that a connection had when it closed.
use go_stomp.Base.{
  ℕ, ◌≡◌, refl, sym, ap, ◌∙◌, Bytes, true, none, some, Dict, List, [], ◌∷◌, ◌++◌, map, str_eq,
  arith, All, inl, inr, Bool-cases,
}
use mathlib.Core.Path.{subst}
use mathlib.Core.List.{map-map}
use go_stomp.Frame.Data.{Frame}
use go_stomp.Frame.Header.{contains}
use go_stomp.Frame.Names
use go_stomp.Server.Broker.{Broker, is_queue_destination, process, serve, remove_first}
use go_stomp.Server.Broker.Queues.{waiting}
use go_stomp.Server.Broker.Queues.Ideal.{Queue, put_back, leave, step}
use go_stomp.Server.Broker.Refines.{view, for_queue, same_name}
use go_stomp.Server.Broker.Refines.Requests.{process-refines}
use go_stomp.Server.Conn.{St, returned}
use go_stomp.Server.Conn.Cleanup.{give_back, unsubscribes, cleanup_conn-give_back}
use go_stomp.Server.Conn.Loop.{cleanup_conn}
use go_stomp.Server.Objects.{Heap, Request, unsubscribe_op, requeue_op, disconnected_op, done}
use go_stomp.Server.Storage.{Storage, IsFifo}

-- Each goes in front of those before it.
abbrev pub reversed_onto : List Frame → List Frame → List Frame
reversed_onto [] l = l
reversed_onto (f ∷ fs) l = reversed_onto fs (f ∷ l)

abbrev pub requeues : List Frame → List Request
requeues = map (λ f. requeue_op (some f))

leave-nobody : (a : ℕ) (q : Queue) → q.waits ≡ [] → (step (leave a) q).0 ≡ q
unfolding remove_first
leave-nobody a q e = ap (λ w. record q { waits = w }) (ap (remove_first a) e ∙ sym e)

put_back-nobody :
    (f : Frame) (q : Queue)
    → q.waits ≡ []
    → (step (put_back f) q).0 ≡ record q { stored = f ∷ q.stored }
put_back-nobody f q e = ground (arith, e)

give_back-requeues :
    (h : Heap) (l : List ℕ) (fs : List Frame)
    → map (λ a. (h.at a).frame) l ≡ map some fs
    → give_back h l ≡ requeues fs
give_back-requeues h l fs e =
    sym (map-map requeue_op (λ a. (h.at a).frame) l)
    ∙ ap (map requeue_op) e
    ∙ map-map requeue_op some fs

module _ (st : Storage) (fifo : IsFifo st) (d : Bytes)
    (queued : is_queue_destination d ≡ true) where
  leave-here :
      (e : Bytes) (a : ℕ) (q : Queue) → q.waits ≡ [] → (step (for_queue d e (leave a)) q).0 ≡ q
  leave-here e a q w = elim (Bool-cases (str_eq e d)) [
    | inl t ↦ rw t (leave-nobody a q w)
    | inr n ↦ rw n refl
  ]

  serve-goes_on :
      (r : Request) (rs : List Request) (b b' : Broker st)
      → process st r b ≡ done b'
      → serve st (r ∷ rs) b ≡ serve st rs b'
  unfolding serve
  serve-goes_on r rs b b' e = ground (arith, e)

  serve-unsubscribes :
      (subs : Dict ℕ) (rs : List Request) (b : Broker st)
      → waiting b.queues d ≡ []
      → (b' : Broker st) × (serve st (unsubscribes subs ++ rs) b ≡ serve st rs b')
        × (view st fifo b' d ≡ view st fifo b d)
  serve-unsubscribes [] rs b w = (b, refl, refl)
  serve-unsubscribes ((id, a) ∷ subs) rs b w =
      let (c, e, here) = process-refines st fifo (unsubscribe_op a) b tt in
      let same : view st fifo c d ≡ view st fifo b d =
        (here d queued).viewed ∙ leave-here (b.heap.at a).dest a (view st fifo b d) w in
      let (b', e', same') = serve-unsubscribes subs rs c (ap (λ q. q.waits) same ∙ w) in
      (b', serve-goes_on (unsubscribe_op a) _ b c e ∙ e', same' ∙ same)

  serve-requeues :
      (fs : List Frame) (rs : List Request) (b : Broker st)
      → All (λ f. contains f.header Names.destination ≡ some d) fs
      → waiting b.queues d ≡ []
      → (b' : Broker st) × (serve st (requeues fs ++ rs) b ≡ serve st rs b')
        × (fifo.contents b'.storage d ≡ reversed_onto fs (fifo.contents b.storage d))
  serve-requeues [] rs b v w = (b, refl, refl)
  serve-requeues (f ∷ fs) rs b (t, v) w =
      let (c, e, here) =
        process-refines st fifo (requeue_op (some f)) b
          (d, t, subst (All (λ a. (b.heap.at a).frame ≡ none)) (sym w) tt) in
      let next : view st fifo c d
          ≡ record (view st fifo b d) { stored = f ∷ fifo.contents b.storage d } =
        (here d queued).viewed
        ∙ rw (t, same_name st fifo d) (put_back-nobody f (view st fifo b d) w) in
      let (b', e', kept) = serve-requeues fs rs c v (ap (λ q. q.waits) next ∙ w) in
      (
        b',
        serve-goes_on (requeue_op (some f)) _ b c e ∙ e',
        kept ∙ ap (λ q. reversed_onto fs q.stored) next,
      )

  -- No message is lost when a connection closes before its client has acknowledged what it was sent. The
  -- cleanup finishes; the processor handles the requests that it made; and the messages of a queue are
  -- in that queue's store again, before those that were there, where no other subscription waits
  -- for them. They stand there in the reverse of the order in which they were sent. The unacknowledged
  -- messages of the connection are all of that queue, and none is left in its channel.
  pub cleanup_conn-keeps_messages :
      (fs : List Frame) (s : St) (b : Broker st)
      → map (λ a. (s.heap.at a).frame) s.conn.sub_list ≡ map some fs
      → All (λ f. contains f.header Names.destination ≡ some d) fs
      → waiting b.queues d ≡ []
      → s.requests ≡ []
      → (t : St) × (b' : Broker st) × (cleanup_conn [] [] s ≡ returned tt t)
        × (serve st t.requests b ≡ done b')
        × (fifo.contents b'.storage d ≡ reversed_onto fs (fifo.contents b.storage d))
  unfolding process serve
  cleanup_conn-keeps_messages fs s b p v w n =
      let (t, cleaned, asked, txs, subs, list) = cleanup_conn-give_back [] [] s in
      let end : List Request = disconnected_op s.conn.address ∷ [] in
      let requests : t.requests ≡ unsubscribes s.conn.subs ++ (requeues fs ++ end) =
        asked ∙ rw (n, give_back-requeues s.heap s.conn.sub_list fs p) refl in
      let (c, left, same) = serve-unsubscribes s.conn.subs (requeues fs ++ end) b w in
      let (b', back, kept) = serve-requeues fs end c v (ap (λ q. q.waits) same ∙ w) in
      (
        t,
        b',
        cleaned,
        ap (λ rs. serve st rs b) requests
            ∙ left
            ∙ back
            ∙ serve-goes_on (disconnected_op s.conn.address) [] b' b' refl,
        kept ∙ ap (λ q. reversed_onto fs q.stored) same,
      )
