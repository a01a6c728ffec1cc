-- ===== src/Server/Broker.antt =====
-- The request processor's side: server/queue/queue.go and manager.go, server/topic/topic.go and
-- manager.go, and the request loop of server/processor.go.
pub mod Queues
pub mod Refines
pub mod Topics
pub mod References
use go_stomp.Base.{
  ℕ, Bytes, Bool, true, false, Option, none, some, List, [], ◌∷◌, ◌++◌, Result, ok, err, Error,
  Dict, find, insert, ◌==◌, if◌then◌else◌, codes,
}
use go_stomp.Frame.Data.{Frame, clone}
use go_stomp.Frame.Header.{contains}
use go_stomp.Frame.Names
use go_stomp.Std.Strings.{has_prefix}
use go_stomp.Server.Objects.{
  Heap, queue_list, Request, subscribe_op, unsubscribe_op, enqueue_op, requeue_op, connected_op,
  disconnected_op, Delivery, Outcome, done, panicked, ◌>>=◌, ◌>>◌, missing_destination, nil_frame,
}
use go_stomp.Server.Storage.{Storage}
use go_stomp.Server.Subscription.{send_queue_frame, send_topic_frame}
use go_stomp.Server.SubscriptionList

unfoldable pub is_queue_destination : Bytes → Bool
unfolding has_prefix
is_queue_destination dest = has_prefix dest (codes "/queue")

-- `Topic.Unsubscribe`: the first entry for the subscription.
unfoldable pub remove_first : ℕ → List ℕ → List ℕ
remove_first a [] = []
remove_first a (b ∷ l) = if b == a then l else b ∷ remove_first a l

-- The `switch` of `Topic.Enqueue`: nothing for no subscriber, the frame itself for the last or only
-- one, a clone for each other. A frame is a value here; References has the same with shared headers.
unfoldable pub send_to_all : Heap → List ℕ → Frame → Outcome (List Delivery)
unfolding send_topic_frame
send_to_all h [] f = done []
send_to_all h (a ∷ []) f = do d ← send_topic_frame h a f; done (d ∷ [])
send_to_all h (a ∷ b ∷ l) f = do
  d ← send_topic_frame h a (clone f)
  more ← send_to_all h (b ∷ l) f
  done (d ∷ more)

-- The state of the processor: the subscriptions, the queue storage, the waiting subscriptions of
-- each queue and the subscriptions of each topic that `Find` has made, and what was sent to the
-- connections.
pub record Broker (st : Storage) : Type 0 where
  pub heap : Heap
  pub storage : st.State
  pub queues : Dict (List ℕ)
  pub topics : Dict (List ℕ)
  pub outbox : List Delivery

-- `Find` of either manager: what the map holds, and the map with an empty entry where there was
-- none.
unfoldable pub find_or_create : Dict (List ℕ) → Bytes → List ℕ × Dict (List ℕ)
unfolding find insert
find_or_create m destination = elim (find m destination) [
  | some l ↦ (l, m)
  | none ↦ ([], insert m destination [])
]

module _ (st : Storage) where
  -- `Queue.Subscribe` with the error that it returns. A queue is its destination and the
  -- subscriptions that wait; `qs` is the map that it is kept in.
  unfoldable pub queue_subscribe :
      Bytes → ℕ → List ℕ × Dict (List ℕ) → Broker st → Outcome (Broker st × Option Error)
  unfolding send_queue_frame SubscriptionList.add
  queue_subscribe destination a (subs, qs) b = elim (st.dequeue b.storage (b.heap.at a).dest) [
    | err e ↦ done (record b { queues = qs }, some e)
    | ok (none, s) ↦ do
      (h, subs') ← SubscriptionList.add (queue_list destination) a b.heap subs
      done (record b { heap = h; storage = s; queues = insert qs destination subs' }, none)
    | ok (some f, s) ↦ do
      (h, d) ← send_queue_frame b.heap a f
      done (record b { heap = h; storage = s; queues = qs; outbox = b.outbox ++ d ∷ [] }, none)
  ]

  unfoldable pub queue_unsubscribe : Bytes → ℕ → List ℕ × Dict (List ℕ) → Broker st → Broker st
  unfolding SubscriptionList.remove
  queue_unsubscribe destination a (subs, qs) b =
      let (h, subs') = SubscriptionList.remove a b.heap subs in
      record b { heap = h; queues = insert qs destination subs' }

  -- `Queue.Enqueue`; with the storage's other operation it is `Queue.Requeue`.
  unfoldable pub queue_send :
      (st.State → Bytes → Frame → Result st.State)
      → Bytes
      → Frame
      → List ℕ × Dict (List ℕ)
      → Broker st
      → Outcome (Broker st × Option Error)
  unfolding send_queue_frame SubscriptionList.get
  queue_send put destination f (subs, qs) b =
      let (front, h, subs') = SubscriptionList.get b.heap subs in
      elim front [
        | none ↦ elim (put b.storage destination f) [
          | ok s ↦ done (record b { storage = s; queues = qs }, none)
          | err e ↦ done (record b { queues = qs }, some e)
        ]
        | some a ↦ do
          (h', d) ← send_queue_frame h a f
          done (
            record b {
              heap = h';
              queues = insert qs destination subs';
              outbox = b.outbox ++ d ∷ [];
            },
            none,
          )
      ]

  -- `Find` and the operations of a topic.
  unfoldable pub topic_subscribe : Bytes → ℕ → Broker st → Broker st
  topic_subscribe destination a b =
      let (subs, ts) = find_or_create b.topics destination in
      record b { topics = insert ts destination (subs ++ a ∷ []) }

  unfoldable pub topic_unsubscribe : Bytes → ℕ → Broker st → Broker st
  unfolding remove_first
  topic_unsubscribe destination a b =
      let (subs, ts) = find_or_create b.topics destination in
      record b { topics = insert ts destination (remove_first a subs) }

  unfoldable pub topic_enqueue : Bytes → Frame → Broker st → Outcome (Broker st)
  unfolding send_to_all
  topic_enqueue destination f b =
      let (subs, ts) = find_or_create b.topics destination in
      do
        sent ← send_to_all b.heap subs f
        done (record b { topics = ts; outbox = b.outbox ++ sent })

  -- The errors of the queue operations are dropped, as in the source.
  abbrev pub drop_error : Outcome (Broker st × Option Error) → Outcome (Broker st)
  drop_error m = m >>= λ r. done r.0

  -- One round of the loop of `Serve`.
  unfoldable pub process : Request → Broker st → Outcome (Broker st)
  unfolding is_queue_destination contains queue_subscribe queue_unsubscribe queue_send
      topic_subscribe topic_unsubscribe topic_enqueue
  process (subscribe_op a) b =
      let dest = (b.heap.at a).dest in
      if is_queue_destination dest
      then drop_error (queue_subscribe dest a (find_or_create b.queues dest) b)
      else done (topic_subscribe dest a b)
  process (unsubscribe_op a) b =
      let dest = (b.heap.at a).dest in
      if is_queue_destination dest
      then done (queue_unsubscribe dest a (find_or_create b.queues dest) b)
      else done (topic_unsubscribe dest a b)
  process (enqueue_op f) b = elim (contains f.header Names.destination) [
    | none ↦ panicked missing_destination
    | some dest ↦
        if is_queue_destination dest
        then drop_error (queue_send st.enqueue dest f (find_or_create b.queues dest) b)
        else topic_enqueue dest f b
  ]
  process (requeue_op none) b = panicked nil_frame
  process (requeue_op (some f)) b = elim (contains f.header Names.destination) [
    | none ↦ panicked missing_destination
    | some dest ↦
        if is_queue_destination dest
        then drop_error (queue_send st.requeue dest f (find_or_create b.queues dest) b)
        else done b
  ]
  process (connected_op c) b = done b
  process (disconnected_op c) b = done b

  -- The requests in the order in which the channel delivers them.
  unfoldable pub serve : List Request → Broker st → Outcome (Broker st)
  unfolding process
  serve [] b = done b
  serve (r ∷ rs) b = process r b >>= serve rs
