-- ===== src/Server/Broker/Refines.antt =====
-- What it is that the request processor does, at one queue, what Ideal says.
pub mod Sends
pub mod Subscribes
pub mod Requests
pub mod Runs
use go_stomp.Base.{
  ℕ, zero, suc, ◌+◌, ◌-◌, ◌*◌, ◌%◌, ◌^◌, ◌≡◌, ◌≢◌, refl, sym, ap, ◌∙◌, Bytes, Bool, true, false,
  not, ◌&&◌, ◌||◌, Option, none, some, List, [], ◌∷◌, ◌++◌, map, ok, err, ResultOf, codes, str_eq,
  if◌then◌else◌, take, drop, length, ltb, ◌==◌, arith, append_assoc, append-nil, All, find, insert,
  find-insert, str_eq_iff, Dict, Error, Result, inl, inr, ◌⊎◌, Bool-cases, Option-cases,
}
use mathlib.Core.Path.{subst}
use go_stomp.Frame.Data.{Frame}
use go_stomp.Frame.Header.{contains}
use go_stomp.Frame.Names
use go_stomp.Server.Broker.{
  Broker, find_or_create, is_queue_destination, queue_subscribe, queue_unsubscribe, queue_send,
  topic_enqueue, send_to_all, process, drop_error, remove_first, topic_subscribe, topic_unsubscribe,
}
use go_stomp.Server.Broker.Queues.{
  waiting, waiting-find_or_create, waiting-create, waiting-insert, addressed, queue_send-hand_over,
  queue_subscribe-wait, queue_subscribe-frame, dequeued, handed_over,
}
use go_stomp.Server.Broker.Queues.Ideal.{Queue, Op, put, put_back, ask, leave, other, step}
use go_stomp.Server.Broker.Topics.{send_to_all-copies, copy_for}
use go_stomp.Server.Objects.{
  Heap, Subscription, queue_list, set_frame, set_sub_list, Request, subscribe_op, unsubscribe_op,
  enqueue_op, requeue_op, connected_op, disconnected_op, to_sub_channel, Outcome, done,
}
use go_stomp.Server.Storage.{Storage, IsFifo, pop}
use go_stomp.Server.SubscriptionList

abbrev pub for_queue : Bytes → Bytes → Op → Op
for_queue d e op = if str_eq e d then op else other

abbrev pub for_destination : Bytes → Option Bytes → Op → Op
for_destination d o op = elim o [ none ↦ other | some e ↦ for_queue d e op ]

-- What a request is for the queue `d`.
abbrev pub op_for : Heap → Bytes → Request → Op
op_for h d (subscribe_op a) = for_queue d (h.at a).dest (ask a)
op_for h d (unsubscribe_op a) = for_queue d (h.at a).dest (leave a)
op_for h d (enqueue_op f) = for_destination d (contains f.header Names.destination) (put f)
op_for h d (requeue_op none) = other
op_for h d (requeue_op (some f)) =
    for_destination d (contains f.header Names.destination) (put_back f)
op_for h d (connected_op c) = other
op_for h d (disconnected_op c) = other

module _ (st : Storage) (fifo : IsFifo st) where
  abbrev pub view : Broker st → Bytes → Queue
  view b d = record { stored = fifo.contents b.storage d; waits = waiting b.queues d }

  abbrev pub Free : Broker st → ℕ → Type 0
  Free b a = (b.heap.at a).frame ≡ none

  -- What the processor relies on: a subscription that comes is in no list and has no frame pending, a
  -- frame has a destination, and the subscriptions that it may go to have no frame pending.
  abbrev pub Ready : Broker st → Request → Type 0
  Ready b (subscribe_op a) = Free b a × ((b.heap.at a).sub_list ≡ none)
  Ready b (unsubscribe_op a) = Unit {0}
  Ready b (enqueue_op f) =
      (e : Bytes) × (contains f.header Names.destination ≡ some e)
      × All (Free b) (waiting b.queues e)
      × All (Free b) (waiting b.topics e)
  Ready b (requeue_op none) = ⊥
  Ready b (requeue_op (some f)) =
      (e : Bytes) × (contains f.header Names.destination ≡ some e)
      × All (Free b) (waiting b.queues e)
  Ready b (connected_op c) = Unit {0}
  Ready b (disconnected_op c) = Unit {0}

  -- The frame that the queue gives goes to the subscription that is to have it, and to no other.
  abbrev pub Given : Broker st → Broker st → List (ℕ × Frame) → Type 0
  Given b b' [] = Unit {0}
  Given b b' ((a, f) ∷ given) =
      (b'.outbox ≡ b.outbox ++ to_sub_channel (b.heap.at a).conn a ∷ [])
      × ((b'.heap.at a).frame ≡ some (addressed (b.heap.at a) f))

  -- The processor's round at the queue `d`.
  pub record Refines (d : Bytes) (op : Op) (b b' : Broker st) : Type 0 where
    pub viewed : view b' d ≡ (step op (view b d)).0
    pub given : Given b b' (step op (view b d)).1

  abbrev pub Refined : Request → Broker st → Broker st → Type 0
  Refined r b b' = (d : Bytes) → is_queue_destination d ≡ true → Refines d (op_for b.heap d r) b b'

  pub view-eq :
      (b b' : Broker st) (d : Bytes) {s : List Frame} {l : List ℕ}
      → fifo.contents b'.storage d ≡ s
      → waiting b'.queues d ≡ l
      → view b' d ≡ record { stored = s; waits = l }
  view-eq b b' d e q = λ i. record { stored = e i; waits = q i }

  pub elsewhere :
      (b b' : Broker st) (d : Bytes)
      → fifo.contents b'.storage d ≡ fifo.contents b.storage d
      → waiting b'.queues d ≡ waiting b.queues d
      → Refines d other b b'
  elsewhere b b' d e q = record { viewed = view-eq b b' d e q; given = tt }

  pub by_step :
      (e : Bytes) (op : Op) (b b' : Broker st) {q : Queue} {given : List (ℕ × Frame)}
      → step op (view b e) ≡ (q, given)
      → view b' e ≡ q
      → Given b b' given
      → Refines e op b b'
  by_step e op b b' s v g = record {
    viewed = v ∙ sym (ap (λ x. x.0) s);
    given = subst (Given b b') (sym (ap (λ x. x.1) s)) g;
  }

  pub same_name : (e : Bytes) → str_eq e e ≡ true
  same_name e = (str_eq_iff e e).1 refl

  pub at_queue :
      (e : Bytes) (op : Op) (b b' : Broker st)
      → Refines e op b b'
      → ((d : Bytes) → str_eq e d ≡ false → Refines d other b b')
      → (d : Bytes) → Refines d (for_queue d e op) b b'
  at_queue e op b b' here there d = elim (Bool-cases (str_eq e d)) [
    | inl t ↦ rw t (subst (λ x. Refines x op b b') ((str_eq_iff e d).0 t) here)
    | inr n ↦ rw n (there d n)
  ]

  no_queue :
      (e d : Bytes)
      → is_queue_destination e ≡ false
      → is_queue_destination d ≡ true
      → str_eq e d ≡ false
  no_queue e d n q = ground (arith, str_eq_iff e d)

  pub at_topic :
      (e : Bytes) (op : Op) (b b' : Broker st)
      → is_queue_destination e ≡ false
      → b'.storage ≡ b.storage
      → b'.queues ≡ b.queues
      → (d : Bytes) → is_queue_destination d ≡ true
      → Refines d (for_queue d e op) b b'
  at_topic e op b b' n s w d q =
      rw (no_queue e d n q)
        (elsewhere b b' d (ap (λ x. fifo.contents x d) s) (ap (λ x. waiting x d) w))
