-- ===== src/Server/Broker/Refines/Subscribes.antt =====
-- A subscription that comes to a queue or leaves it.
use go_stomp.Base.{ℕ, ◌≡◌, refl, ap, ◌∙◌, Bytes, some, List, [], ◌∷◌, ◌++◌, arith, insert}
use go_stomp.Frame.Data.{Frame}
use go_stomp.Server.Broker.{
  Broker, find_or_create, queue_subscribe, queue_unsubscribe, drop_error, remove_first,
}
use go_stomp.Server.Broker.Queues.{
  waiting, waiting-find_or_create, waiting-create, waiting-insert, addressed, queue_subscribe-wait,
  queue_subscribe-frame, dequeued,
}
use go_stomp.Server.Broker.Queues.Ideal.{Queue, ask, leave, step}
use go_stomp.Server.Objects.{
  Heap, queue_list, set_frame, set_sub_list, subscribe_op, to_sub_channel, done,
}
use go_stomp.Server.Storage.{Storage, IsFifo}
use go_stomp.Server.SubscriptionList
use go_stomp.Server.Broker.Refines.{
  for_queue, view, Ready, Refines, view-eq, elsewhere, by_step, same_name, at_queue,
}

remove-remove_first :
    (a : ℕ) (h : Heap) (l : List ℕ) → (SubscriptionList.remove a h l).1 ≡ remove_first a l
unfolding SubscriptionList.remove remove_first
remove-remove_first a h [] = refl
remove-remove_first a h (b ∷ l) = ground (arith, remove-remove_first a h l)

module _ (st : Storage) (fifo : IsFifo st) where
  pub subscribe-Refines :
      (a : ℕ) (b : Broker st)
      → Ready st fifo b (subscribe_op a)
      → (b' : Broker st) × (drop_error st
            (queue_subscribe st (b.heap.at a).dest a (find_or_create b.queues (b.heap.at a).dest) b)
          ≡ done b')
        × ((d : Bytes) → Refines st fifo d (for_queue d (b.heap.at a).dest (ask a)) b b')
  subscribe-Refines a b (free, alone) = go (fifo.contents b.storage (b.heap.at a).dest) refl
    where
      go :
          (l : List Frame)
          → fifo.contents b.storage (b.heap.at a).dest ≡ l
          → (b' : Broker st) × (drop_error st (
                queue_subscribe st
                  (b.heap.at a).dest
                  a
                  (find_or_create b.queues (b.heap.at a).dest)
                  b)
              ≡ done b')
            × ((d : Bytes) → Refines st fifo d (for_queue d (b.heap.at a).dest (ask a)) b b')
      go [] c =
          let (t, p, there) =
            dequeued st fifo b.storage (b.heap.at a).dest (b.heap.at a).dest [] refl c in
          let (subs, qs) = find_or_create b.queues (b.heap.at a).dest in
          let b' : Broker st = record b {
            heap = set_sub_list b.heap a (some (queue_list (b.heap.at a).dest));
            storage = t;
            queues = insert qs (b.heap.at a).dest (subs ++ a ∷ []);
          } in
          let after : List Frame → Queue =
            λ l. record { stored = l; waits = waiting b.queues (b.heap.at a).dest ++ a ∷ [] } in
          let stepped_to : step (ask a) (view st fifo b (b.heap.at a).dest) ≡ (after [], []) =
            rw c (ap (λ l. (after l, [])) c) in
          (
            b',
            ap (drop_error st)
                (queue_subscribe-wait st fifo (b.heap.at a).dest a subs qs b p alone),
            at_queue st fifo (b.heap.at a).dest (ask a) b b'
                (by_step st fifo (b.heap.at a).dest (ask a) b b' stepped_to
                  (view-eq st fifo b b' (b.heap.at a).dest
                    (there (b.heap.at a).dest ∙ rw (same_name st fifo (b.heap.at a).dest))
                    (waiting-insert b.queues (b.heap.at a).dest (subs ++ a ∷ []) (b.heap.at a).dest
                      ∙ rw (same_name st fifo (b.heap.at a).dest) (
                          ap (λ l. l ++ a ∷ [])
                            (waiting-find_or_create b.queues (b.heap.at a).dest))))
                  tt)
                (λ d n.
                  elsewhere st fifo b b' d (there d ∙ rw n)
                    (waiting-insert b.queues (b.heap.at a).dest (subs ++ a ∷ []) d ∙ rw n)),
          )
      go (f ∷ rest) c =
          let (t, p, there) =
            dequeued st fifo b.storage (b.heap.at a).dest (b.heap.at a).dest (f ∷ rest) refl c in
          let (subs, qs) = find_or_create b.queues (b.heap.at a).dest in
          let b' : Broker st = record b {
            heap = set_frame b.heap a (some (addressed (b.heap.at a) f));
            storage = t;
            queues = qs;
            outbox = b.outbox ++ to_sub_channel (b.heap.at a).conn a ∷ [];
          } in
          let after : Queue = record {
            stored = rest;
            waits = waiting b.queues (b.heap.at a).dest;
          } in
          let stepped_to : step (ask a) (view st fifo b (b.heap.at a).dest) ≡ (after, (a, f) ∷ []) =
            rw c refl in
          (
            b',
            ap (drop_error st)
                (queue_subscribe-frame st fifo (b.heap.at a).dest a subs qs b p free),
            at_queue st fifo (b.heap.at a).dest (ask a) b b'
                (by_step st fifo (b.heap.at a).dest (ask a) b b' stepped_to
                  (view-eq st fifo b b' (b.heap.at a).dest
                    (there (b.heap.at a).dest ∙ rw (same_name st fifo (b.heap.at a).dest))
                    (waiting-create b.queues (b.heap.at a).dest (b.heap.at a).dest))
                  (refl, ground arith))
                (λ d n.
                  elsewhere st fifo b b' d (there d ∙ rw n)
                    (waiting-create b.queues (b.heap.at a).dest d)),
          )

  pub unsubscribe-Refines :
      (a : ℕ) (e : Bytes) (b : Broker st) (d : Bytes)
      → Refines st fifo d
          (for_queue d e (leave a))
          b
          (queue_unsubscribe st e a (find_or_create b.queues e) b)
  unfolding queue_unsubscribe
  unsubscribe-Refines a e b =
      let (subs, qs) = find_or_create b.queues e in
      let b' = queue_unsubscribe st e a (subs, qs) b in
      let left = (SubscriptionList.remove a b.heap subs).1 in
      at_queue st fifo e (leave a) b b'
        (by_step st fifo e (leave a) b b' refl
          (view-eq st fifo b b' e refl (
            waiting-insert b.queues e left e
            ∙ rw (same_name st fifo e) (
                remove-remove_first a b.heap subs
                ∙ ap (remove_first a) (waiting-find_or_create b.queues e))))
          tt)
        (λ d n. elsewhere st fifo b b' d refl (waiting-insert b.queues e left d ∙ rw n))
