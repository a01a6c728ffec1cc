-- ===== src/Server/Broker/Queues/Quiet.antt =====
-- The queues hold frames or subscriptions, never both, whatever is requested.
use go_stomp.Base.{
  ℕ, ◌≡◌, refl, ◌∙◌, Bytes, Bool, true, false, Option, none, some, List, [], ◌∷◌, ◌++◌, Result, ok,
  Error, Dict, find-insert, str_eq, str_eq_iff, if◌then◌else◌, arith, Option-cases, inl, inr, ◌⊎◌,
}
use go_stomp.Frame.Data.{Frame}
use go_stomp.Frame.Header.{contains}
use go_stomp.Frame.Names
use go_stomp.Server.Broker.{
  Broker, find_or_create, is_queue_destination, queue_subscribe, queue_unsubscribe, queue_send,
  topic_enqueue, send_to_all, process, serve, drop_error,
}
use go_stomp.Server.Objects.{
  Request, subscribe_op, unsubscribe_op, enqueue_op, requeue_op, connected_op, disconnected_op,
  Delivery, Outcome, done, panicked, ◌>>=◌, missing_destination,
}
use go_stomp.Server.Storage.{Storage, IsFifo}
use go_stomp.Server.SubscriptionList
use go_stomp.Server.Broker.Queues.{
  waiting, waiting-find_or_create, waiting-create, queue_send-hand_over, queue_send-pending,
  queue_subscribe-wait, queue_subscribe-panic, queue_subscribe-frame, queue_subscribe-pending,
  dequeued,
}

module _ (st : Storage) (fifo : IsFifo st) where
  -- A queue has subscriptions that wait or frames in store, never both.
  abbrev pub IsQuiet : Broker st → Type 0
  IsQuiet b = (d : Bytes) → (waiting b.queues d ≡ []) ⊎ (fifo.contents b.storage d ≡ [])

  abbrev Holds : (Broker st → Type 0) → Outcome (Broker st × Option Error) → Type 0
  Holds P (done (b, e)) = P b
  Holds P (panicked p) = Unit

  queue_send-IsQuiet :
      (put : st.State → Bytes → Frame → Result st.State)
      → ((s : st.State) (q : Bytes) (f : Frame)
          → (t : st.State) × (put s q f ≡ ok t)
            × ((r : Bytes) → str_eq q r ≡ false → fifo.contents t r ≡ fifo.contents s r))
      → (d : Bytes) (f : Frame) (subs : List ℕ) (qs : Dict (List ℕ)) (b : Broker st)
      → subs ≡ waiting b.queues d
      → ((j : Bytes) → waiting qs j ≡ waiting b.queues j)
      → IsQuiet b
      → Holds IsQuiet (queue_send st put d f (subs, qs) b)
  unfolding queue_send
  queue_send-IsQuiet put law d f [] qs b e w q =
      let (t, p, other) = law b.storage d f in
      rw p (λ r. ground (arith, str_eq_iff d r, other r, q r, w r, e))
  queue_send-IsQuiet put law d f (a ∷ l) qs b e w q = elim (Option-cases (b.heap.at a).frame) [
    | inl n ↦
        rw (queue_send-hand_over st fifo put d f a l qs b n)
          (λ r. ground (arith, find-insert qs d l r, str_eq_iff d r, q r, w r, e))
    | inr (g, n) ↦ rw (queue_send-pending st fifo put d f g a l qs b n) tt
  ]

  queue_subscribe-IsQuiet :
      (d : Bytes) (a : ℕ) (subs : List ℕ) (qs : Dict (List ℕ)) (b : Broker st)
      → d ≡ (b.heap.at a).dest
      → subs ≡ waiting b.queues d
      → ((j : Bytes) → waiting qs j ≡ waiting b.queues j)
      → IsQuiet b
      → Holds IsQuiet (queue_subscribe st d a (subs, qs) b)
  queue_subscribe-IsQuiet d a subs qs b h e w q = go (fifo.contents b.storage d) refl
    where
      go :
          (l : List Frame)
          → fifo.contents b.storage d ≡ l
          → Holds IsQuiet (queue_subscribe st d a (subs, qs) b)
      go [] c =
          let (t, p, law) = dequeued st fifo b.storage d (b.heap.at a).dest [] h c in
          elim (Option-cases (b.heap.at a).sub_list) [
            | inl n ↦ rw (queue_subscribe-wait st fifo d a subs qs b p n) (λ r.
                ground
                  (arith, find-insert qs d (subs ++ a ∷ []) r, str_eq_iff d r, q r, w r, law r))
            | inr (x, n) ↦ rw (queue_subscribe-panic st fifo d a subs qs b p n) tt
          ]
      go (f ∷ rest) c =
          let (t, p, law) = dequeued st fifo b.storage d (b.heap.at a).dest (f ∷ rest) h c in
          elim (Option-cases (b.heap.at a).frame) [
            | inl n ↦
                rw (queue_subscribe-frame st fifo d a subs qs b p n)
                  (λ r. ground (arith, str_eq_iff d r, q d, q r, w r, law r, c))
            | inr (x, n) ↦ rw (queue_subscribe-pending st fifo d a subs qs b p n) tt
          ]

  abbrev pub HoldsAfter : (Broker st → Type 0) → Outcome (Broker st) → Type 0
  HoldsAfter P (done b) = P b
  HoldsAfter P (panicked p) = Unit

  drop_error-Holds :
      (P : Broker st → Type 0) (m : Outcome (Broker st × Option Error))
      → Holds P m
      → HoldsAfter P (drop_error st m)
  drop_error-Holds P (done (b, e)) h = h
  drop_error-Holds P (panicked p) h = tt

  if-HoldsAfter :
      (P : Broker st → Type 0) (t : Bool) (m n : Outcome (Broker st))
      → HoldsAfter P m
      → HoldsAfter P n
      → HoldsAfter P (if t then m else n)
  if-HoldsAfter P true m n h k = h
  if-HoldsAfter P false m n h k = k

  at_destination :
      (P : Broker st → Type 0) (o : Option Bytes) (k : Bytes → Outcome (Broker st))
      → ((d : Bytes) → HoldsAfter P (k d))
      → HoldsAfter P (elim o [ none ↦ panicked missing_destination | some d ↦ k d ])
  at_destination P none k h = tt
  at_destination P (some d) k h = h d

  queue_unsubscribe-IsQuiet :
      (d : Bytes) (a : ℕ) (subs : List ℕ) (qs : Dict (List ℕ)) (b : Broker st)
      → subs ≡ waiting b.queues d
      → ((j : Bytes) → waiting qs j ≡ waiting b.queues j)
      → IsQuiet b
      → IsQuiet (queue_unsubscribe st d a (subs, qs) b)
  unfolding queue_unsubscribe
  queue_unsubscribe-IsQuiet d a [] qs b e w q r =
      ground (arith, find-insert qs d [] r, str_eq_iff d r, q r, w r)
  queue_unsubscribe-IsQuiet d a (c ∷ l) qs b e w q r = ground (
    arith,
    find-insert qs d (SubscriptionList.remove a b.heap (c ∷ l)).1 r,
    str_eq_iff d r,
    q r,
    q d,
    w r,
    e,
  )

  topic_enqueue-IsQuiet :
      (d : Bytes) (f : Frame) (b : Broker st)
      → IsQuiet b
      → HoldsAfter IsQuiet (topic_enqueue st d f b)
  unfolding topic_enqueue
  topic_enqueue-IsQuiet d f b q = go (send_to_all b.heap (find_or_create b.topics d).0 f)
    where
      go :
          (m : Outcome (List Delivery))
          → HoldsAfter IsQuiet (
              m >>= λ sent.
              done (record b { topics = (find_or_create b.topics d).1; outbox = b.outbox ++ sent }))
      go (done sent) = q
      go (panicked p) = tt

  IsQuiet-send :
      (put : st.State → Bytes → Frame → Result st.State)
      → ((s : st.State) (q : Bytes) (f : Frame)
          → (t : st.State) × (put s q f ≡ ok t)
            × ((r : Bytes) → str_eq q r ≡ false → fifo.contents t r ≡ fifo.contents s r))
      → (f : Frame) (b : Broker st) → IsQuiet b
      → (d : Bytes)
      → HoldsAfter IsQuiet (drop_error st (queue_send st put d f (find_or_create b.queues d) b))
  IsQuiet-send put law f b q d = drop_error-Holds IsQuiet _ (
      queue_send-IsQuiet put law d f _ _ b (waiting-find_or_create b.queues d)
        (waiting-create b.queues d) q)

  enqueue_elsewhere :
      (s : st.State) (q : Bytes) (f : Frame)
      → (t : st.State) × (st.enqueue s q f ≡ ok t)
        × ((r : Bytes) → str_eq q r ≡ false → fifo.contents t r ≡ fifo.contents s r)
  enqueue_elsewhere s q f =
      let (t, p, law) = fifo.contents-enqueue s q f in (t, p, λ r n. law r ∙ rw n)

  requeue_elsewhere :
      (s : st.State) (q : Bytes) (f : Frame)
      → (t : st.State) × (st.requeue s q f ≡ ok t)
        × ((r : Bytes) → str_eq q r ≡ false → fifo.contents t r ≡ fifo.contents s r)
  requeue_elsewhere s q f =
      let (t, p, law) = fifo.contents-requeue s q f in (t, p, λ r n. law r ∙ rw n)

  -- Every request that the processor handles leaves each queue with subscriptions that wait or with
  -- frames in store but never both, if that was so before.
  pub process-IsQuiet :
      (r : Request) (b : Broker st) → IsQuiet b → HoldsAfter IsQuiet (process st r b)
  unfolding process
  process-IsQuiet (subscribe_op a) b q =
      if-HoldsAfter IsQuiet (is_queue_destination (b.heap.at a).dest) _ _
        (drop_error-Holds IsQuiet _ (
          queue_subscribe-IsQuiet _ a _ _ b refl (waiting-find_or_create b.queues _)
            (waiting-create b.queues _) q))
        q
  process-IsQuiet (unsubscribe_op a) b q =
      if-HoldsAfter IsQuiet (is_queue_destination (b.heap.at a).dest) _ _
        (queue_unsubscribe-IsQuiet _ a _ _ b (waiting-find_or_create b.queues _)
          (waiting-create b.queues _) q)
        q
  process-IsQuiet (enqueue_op f) b q =
      at_destination IsQuiet (contains f.header Names.destination) _ (λ d.
        if-HoldsAfter IsQuiet (is_queue_destination d) _ _
          (IsQuiet-send st.enqueue enqueue_elsewhere f b q d) (topic_enqueue-IsQuiet d f b q))
  process-IsQuiet (requeue_op none) b q = tt
  process-IsQuiet (requeue_op (some f)) b q =
      at_destination IsQuiet (contains f.header Names.destination) _ (λ d.
        if-HoldsAfter IsQuiet (is_queue_destination d) _ _
          (IsQuiet-send st.requeue requeue_elsewhere f b q d) q)
  process-IsQuiet (connected_op c) b q = q
  process-IsQuiet (disconnected_op c) b q = q

  HoldsAfter->>= :
      (P : Broker st → Type 0) (m : Outcome (Broker st)) (k : Broker st → Outcome (Broker st))
      → HoldsAfter P m
      → ((b : Broker st) → P b → HoldsAfter P (k b))
      → HoldsAfter P (m >>= k)
  HoldsAfter->>= P (done b) k h f = f b h
  HoldsAfter->>= P (panicked p) k h f = tt

  -- After any sequence of requests no queue has both subscriptions that wait and frames in store,
  -- if none had before.
  pub serve-IsQuiet :
      (rs : List Request) (b : Broker st) → IsQuiet b → HoldsAfter IsQuiet (serve st rs b)
  unfolding serve
  serve-IsQuiet [] b q = q
  serve-IsQuiet (r ∷ rs) b q =
      HoldsAfter->>= IsQuiet (process st r b) (serve st rs) (process-IsQuiet r b q)
        (serve-IsQuiet rs)
