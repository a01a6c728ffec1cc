-- ===== src/Server/Broker/Refines/Requests.antt =====
-- Each request of the processor.
use go_stomp.Base.{
  ◌≡◌, refl, sym, Bytes, none, some, [], ◌∷◌, ◌++◌, map, arith, All, inl, inr, Bool-cases,
}
use mathlib.Core.Path.{subst}
use go_stomp.Frame.Data.{Frame}
use go_stomp.Frame.Header.{contains}
use go_stomp.Frame.Names
use go_stomp.Server.Broker.{
  Broker, find_or_create, is_queue_destination, queue_unsubscribe, topic_enqueue, process,
  topic_subscribe, topic_unsubscribe,
}
use go_stomp.Server.Broker.Queues.{waiting, waiting-find_or_create}
use go_stomp.Server.Broker.Queues.Ideal.{put, put_back, ask, leave}
use go_stomp.Server.Broker.Topics.{send_to_all-copies, copy_for}
use go_stomp.Server.Objects.{
  Request, subscribe_op, unsubscribe_op, enqueue_op, requeue_op, connected_op, disconnected_op,
  done,
}
use go_stomp.Server.Storage.{Storage, IsFifo}
use go_stomp.Server.Broker.Refines.{Free, Ready, Refined, elsewhere, at_topic}
use go_stomp.Server.Broker.Refines.Sends.{send-Refines}
use go_stomp.Server.Broker.Refines.Subscribes.{subscribe-Refines, unsubscribe-Refines}

module _ (st : Storage) (fifo : IsFifo st) where
  enqueue-refines :
      (f : Frame) (e : Bytes) (b : Broker st)
      → contains f.header Names.destination ≡ some e
      → All (Free st fifo b) (waiting b.queues e)
      → All (Free st fifo b) (waiting b.topics e)
      → (b' : Broker st) × (process st (enqueue_op f) b ≡ done b')
        × Refined st fifo (enqueue_op f) b b'
  unfolding process topic_enqueue
  enqueue-refines f e b c v u = elim (Bool-cases (is_queue_destination e)) [
    | inl q ↦
        let (b', r, h) =
          send-Refines st fifo st.enqueue (λ g l. l ++ g ∷ []) fifo.contents-enqueue f e b (put f)
            (λ x. refl) v in
        (b', rw (c, process) (rw q r), λ d _. rw c (h d))
    | inr n ↦
        let b' : Broker st = record b {
          topics = (find_or_create b.topics e).1;
          outbox = b.outbox ++ map (copy_for b.heap f) (find_or_create b.topics e).0;
        } in
        (
          b',
          rw (c, process)
              (rw n (
                ground (
                  arith,
                  send_to_all-copies b.heap (find_or_create b.topics e).0 f
                      (subst (All (Free st fifo b)) (sym (waiting-find_or_create b.topics e)) u),
                ))),
          λ d q. rw c (at_topic st fifo e (put f) b b' n refl refl d q),
        )
  ]

  requeue-refines :
      (f : Frame) (e : Bytes) (b : Broker st)
      → contains f.header Names.destination ≡ some e
      → All (Free st fifo b) (waiting b.queues e)
      → (b' : Broker st) × (process st (requeue_op (some f)) b ≡ done b')
        × Refined st fifo (requeue_op (some f)) b b'
  unfolding process
  requeue-refines f e b c v = elim (Bool-cases (is_queue_destination e)) [
    | inl q ↦
        let (b', r, h) =
          send-Refines st fifo st.requeue (λ g l. g ∷ l) fifo.contents-requeue f e b (put_back f)
            (λ x. refl) v in
        (b', rw (c, process) (rw q r), λ d _. rw c (h d))
    | inr n ↦ (
      b,
      rw (c, process) (rw n refl),
      λ d q. rw c (at_topic st fifo e (put_back f) b b n refl refl d q),
    )
  ]

  -- The processor handles every request that it can rely on, and what it does to a queue is what the
  -- queue without its representation does; the frame that this queue gives goes to the connection
  -- of the subscription that this queue names, with the header "subscription", and to no other. Relied
  -- on are a subscription that is in no list and has no frame pending, and a frame that has a
  -- destination, where the subscriptions that it may go to have no frame pending.
  pub process-refines :
      (r : Request) (b : Broker st)
      → Ready st fifo b r
      → (b' : Broker st) × (process st r b ≡ done b') × Refined st fifo r b b'
  unfolding process topic_subscribe topic_unsubscribe
  process-refines (subscribe_op a) b v =
      elim (Bool-cases (is_queue_destination (b.heap.at a).dest)) [
        | inl q ↦ let (b', e, h) = subscribe-Refines st fifo a b v in (b', rw q e, λ d _. h d)
        | inr n ↦ (
          topic_subscribe st (b.heap.at a).dest a b,
          rw n refl,
          at_topic st fifo (b.heap.at a).dest (ask a) b (topic_subscribe st (b.heap.at a).dest a b)
              n refl refl,
        )
      ]
  process-refines (unsubscribe_op a) b v =
      elim (Bool-cases (is_queue_destination (b.heap.at a).dest)) [
        | inl q ↦ (
          queue_unsubscribe st (b.heap.at a).dest a (find_or_create b.queues (b.heap.at a).dest) b,
          rw q refl,
          λ d _. unsubscribe-Refines st fifo a (b.heap.at a).dest b d,
        )
        | inr n ↦ (
          topic_unsubscribe st (b.heap.at a).dest a b,
          rw n refl,
          at_topic st fifo (b.heap.at a).dest (leave a) b
              (topic_unsubscribe st (b.heap.at a).dest a b) n refl refl,
        )
      ]
  process-refines (enqueue_op f) b (e, c, v, u) = enqueue-refines f e b c v u
  process-refines (requeue_op none) b v = absurd v
  process-refines (requeue_op (some f)) b (e, c, v) = requeue-refines f e b c v
  process-refines (connected_op c) b v = (b, refl, λ d _. elsewhere st fifo b b d refl refl)
  process-refines (disconnected_op c) b v = (b, refl, λ d _. elsewhere st fifo b b d refl refl)
