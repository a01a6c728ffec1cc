-- ===== src/Server/Broker/Queues.antt =====
-- What a request does to the queues, over any storage that keeps the order of frames.
pub mod Quiet
pub mod Ideal
use mathlib.Core.Path.{subst}
use go_stomp.Base.{
  ℕ, ◌≡◌, refl, ap, ◌∙◌, Bytes, Bool, true, false, Option, none, some, List, [], ◌∷◌, ◌++◌, Result,
  ok, Error, Dict, find, insert, find-insert, str_eq, str_eq_iff, if◌then◌else◌, arith,
  Option-cases, inl, inr, ◌⊎◌,
}
use go_stomp.Frame.Data.{Frame}
use go_stomp.Frame.Header.{contains, set}
use go_stomp.Frame.Names
use go_stomp.Server.Broker.{
  Broker, find_or_create, is_queue_destination, queue_subscribe, queue_unsubscribe, queue_send,
  topic_enqueue, send_to_all, process, serve, drop_error,
}
use go_stomp.Server.Objects.{
  Subscription, ListRef, queue_list, set_frame, set_sub_list, Request, subscribe_op, unsubscribe_op,
  enqueue_op, requeue_op, connected_op, disconnected_op, Delivery, to_sub_channel, Outcome, done,
  panicked, ◌>>=◌, already_in_list, missing_destination, frame_pending,
}
use go_stomp.Server.Storage.{Storage, IsFifo, pop}
use go_stomp.Server.SubscriptionList

-- The subscriptions that wait in the queue with a destination, the longest first.
abbrev pub waiting : Dict (List ℕ) → Bytes → List ℕ
waiting m d = elim (find m d) [ none ↦ [] | some l ↦ l ]

pub waiting-find_or_create : (m : Dict (List ℕ)) (d : Bytes) → (find_or_create m d).0 ≡ waiting m d
unfolding find_or_create
waiting-find_or_create m d = ground arith

pub waiting-create :
    (m : Dict (List ℕ)) (d j : Bytes) → waiting (find_or_create m d).1 j ≡ waiting m j
unfolding find_or_create
waiting-create m d j = ground (arith, find-insert m d [] j, str_eq_iff d j)

pub waiting-insert :
    (m : Dict (List ℕ)) (d : Bytes) (l : List ℕ) (j : Bytes)
    → waiting (insert (find_or_create m d).1 d l) j ≡ (if str_eq d j then l else waiting m j)
waiting-insert m d l j =
    ground (arith, find-insert (find_or_create m d).1 d l j, waiting-create m d j)

-- The frame as a subscription gets it.
abbrev pub addressed : Subscription → Frame → Frame
addressed s f = record f { header = set f.header Names.subscription s.id }

module _ (st : Storage) (fifo : IsFifo st) where
  pub queue_send-hand_over :
      (put : st.State → Bytes → Frame → Result st.State) (d : Bytes) (f : Frame) (a : ℕ)
      (l : List ℕ) (qs : Dict (List ℕ)) (b : Broker st)
      → (b.heap.at a).frame ≡ none
      → queue_send st put d f (a ∷ l, qs) b
        ≡ done (
          record b {
            heap = set_frame (set_sub_list b.heap a none) a (some (addressed (b.heap.at a) f));
            queues = insert qs d l;
            outbox = b.outbox ++ to_sub_channel (b.heap.at a).conn a ∷ [];
          },
          none,
        )
  unfolding queue_send
  queue_send-hand_over put d f a l qs b n = ground (arith, n)

  pub queue_send-pending :
      (put : st.State → Bytes → Frame → Result st.State) (d : Bytes) (f g : Frame) (a : ℕ)
      (l : List ℕ) (qs : Dict (List ℕ)) (b : Broker st)
      → (b.heap.at a).frame ≡ some g
      → queue_send st put d f (a ∷ l, qs) b ≡ panicked frame_pending
  unfolding queue_send
  queue_send-pending put d f g a l qs b n = ground (arith, n)

  module _ (d : Bytes) (a : ℕ) (subs : List ℕ) (qs : Dict (List ℕ)) (b : Broker st)
      {t : st.State} where
    pub queue_subscribe-wait :
        st.dequeue b.storage (b.heap.at a).dest ≡ ok (none, t)
        → (b.heap.at a).sub_list ≡ none
        → queue_subscribe st d a (subs, qs) b
          ≡ done (
            record b {
              heap = set_sub_list b.heap a (some (queue_list d));
              storage = t;
              queues = insert qs d (subs ++ a ∷ []);
            },
            none,
          )
    unfolding queue_subscribe
    queue_subscribe-wait p n = rw (p, queue_subscribe) (ground (arith, n))

    pub queue_subscribe-panic :
        {r : ListRef}
        → st.dequeue b.storage (b.heap.at a).dest ≡ ok (none, t)
        → (b.heap.at a).sub_list ≡ some r
        → queue_subscribe st d a (subs, qs) b ≡ panicked already_in_list
    unfolding queue_subscribe
    queue_subscribe-panic p n = rw (p, queue_subscribe) (ground (arith, n))

    pub queue_subscribe-frame :
        {f : Frame}
        → st.dequeue b.storage (b.heap.at a).dest ≡ ok (some f, t)
        → (b.heap.at a).frame ≡ none
        → queue_subscribe st d a (subs, qs) b
          ≡ done (
            record b {
              heap = set_frame b.heap a (some (addressed (b.heap.at a) f));
              storage = t;
              queues = qs;
              outbox = b.outbox ++ to_sub_channel (b.heap.at a).conn a ∷ [];
            },
            none,
          )
    unfolding queue_subscribe
    queue_subscribe-frame p n = rw (p, queue_subscribe) (ground (arith, n))

    pub queue_subscribe-pending :
        {f g : Frame}
        → st.dequeue b.storage (b.heap.at a).dest ≡ ok (some f, t)
        → (b.heap.at a).frame ≡ some g
        → queue_subscribe st d a (subs, qs) b ≡ panicked frame_pending
    unfolding queue_subscribe
    queue_subscribe-pending p n = rw (p, queue_subscribe) (ground (arith, n))

  pub dequeued :
      (s : st.State) (d e : Bytes) (l : List Frame)
      → d ≡ e
      → fifo.contents s d ≡ l
      → (t : st.State) × (st.dequeue s e ≡ ok ((pop l).0, t))
        × ((r : Bytes) → fifo.contents t r ≡ (if str_eq d r then (pop l).1 else fifo.contents s r))
  dequeued s d e l h c =
      let (t, p, law) = fifo.contents-dequeue s d in
      let found : st.dequeue s d ≡ ok ((pop l).0, t) = p ∙ rw c in
      (t, subst (λ x. st.dequeue s x ≡ ok ((pop l).0, t)) h found, λ r. law r ∙ rw c)

  module _ (f : Frame) (d : Bytes) (b : Broker st) where
    pub process-queue_send :
        contains f.header Names.destination ≡ some d
        → is_queue_destination d ≡ true
        → process st (enqueue_op f) b
          ≡ drop_error st (queue_send st st.enqueue d f (find_or_create b.queues d) b)
    unfolding process
    process-queue_send c t = rw (c, process) (rw t)

    -- The state of the processor when the frame was handed to the subscription `a`, and `l` wait still.
    abbrev pub handed_over : ℕ → List ℕ → Broker st
    handed_over a l = record b {
      heap = set_frame (set_sub_list b.heap a none) a (some (addressed (b.heap.at a) f));
      queues = insert (find_or_create b.queues d).1 d l;
      outbox = b.outbox ++ to_sub_channel (b.heap.at a).conn a ∷ [];
    }

    pub enqueue-handed_over :
        {a : ℕ} {l : List ℕ}
        → contains f.header Names.destination ≡ some d
        → is_queue_destination d ≡ true
        → waiting b.queues d ≡ a ∷ l
        → (b.heap.at a).frame ≡ none
        → process st (enqueue_op f) b ≡ done (handed_over a l)
    enqueue-handed_over {a} {l} c t w n =
        process-queue_send c t
        ∙ ap
            (λ s. drop_error st (queue_send st st.enqueue d f (s, (find_or_create b.queues d).1) b))
            (waiting-find_or_create b.queues d ∙ w)
        ∙ ap (drop_error st) (queue_send-hand_over st.enqueue d f a l _ b n)

    -- A frame sent to a queue where subscriptions wait goes, with the header "subscription", to the
    -- one that has waited longest and to no other, if that one has no frame pending: it becomes
    -- its pending frame, it alone is sent to its connection, it waits no longer, and nothing is
    -- stored.
    pub enqueue-serves_oldest :
        {a : ℕ} {l : List ℕ}
        → contains f.header Names.destination ≡ some d
        → is_queue_destination d ≡ true
        → waiting b.queues d ≡ a ∷ l
        → (b.heap.at a).frame ≡ none
        → (b' : Broker st) × (process st (enqueue_op f) b ≡ done b')
          × (b'.outbox ≡ b.outbox ++ to_sub_channel (b.heap.at a).conn a ∷ [])
          × ((b'.heap.at a).frame ≡ some (addressed (b.heap.at a) f))
          × ((j : Bytes) → waiting b'.queues j ≡ (if str_eq d j then l else waiting b.queues j))
          × (b'.storage ≡ b.storage)
    enqueue-serves_oldest {a} {l} c t w n = (
      handed_over a l,
      enqueue-handed_over c t w n,
      refl,
      ground arith,
      λ j. waiting-insert b.queues d l j,
      refl,
    )

    -- A frame sent to a queue where no subscription waits is stored behind those that are there,
    -- and nothing is sent.
    pub enqueue-stores :
        contains f.header Names.destination ≡ some d
        → is_queue_destination d ≡ true
        → waiting b.queues d ≡ []
        → (b' : Broker st) × (process st (enqueue_op f) b ≡ done b')
          × (b'.outbox ≡ b.outbox)
          × ((j : Bytes)
              → fifo.contents b'.storage j ≡ (
                  if str_eq d j
                  then fifo.contents b.storage d ++ f ∷ []
                  else fifo.contents b.storage j))
          × ((j : Bytes) → waiting b'.queues j ≡ waiting b.queues j)
    enqueue-stores c t w =
        let (s, p, law) = fifo.contents-enqueue b.storage d f in
        (
          record b { storage = s; queues = (find_or_create b.queues d).1 },
          process-queue_send c t
              ∙ ap
                  (λ s.
                    drop_error st
                      (queue_send st st.enqueue d f (s, (find_or_create b.queues d).1) b))
                  (waiting-find_or_create b.queues d ∙ w)
              ∙ (unfold queue_send in rw p),
          refl,
          law,
          waiting-create b.queues d,
        )

  -- A subscription that still points to a list it was in makes the processor panic when it is sent
  -- back to a queue from which the storage has no frame to give.
  pub subscribe-panics :
      (a : ℕ) (b : Broker st) {r : ListRef} {s : st.State}
      → is_queue_destination (b.heap.at a).dest ≡ true
      → st.dequeue b.storage (b.heap.at a).dest ≡ ok (none, s)
      → (b.heap.at a).sub_list ≡ some r
      → process st (subscribe_op a) b ≡ panicked already_in_list
  unfolding process
  subscribe-panics a b t p n = rw t (
      ap (drop_error st) (
        queue_subscribe-panic (b.heap.at a).dest a _ (find_or_create b.queues (b.heap.at a).dest).1
          b p n))
