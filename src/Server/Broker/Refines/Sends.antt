-- ===== src/Server/Broker/Refines/Sends.antt =====
-- A frame that comes to a queue.
use go_stomp.Base.{
  ℕ, ◌≡◌, refl, ap, ◌∙◌, Bytes, List, [], ◌∷◌, ok, str_eq, if◌then◌else◌, arith, All, Result,
}
use go_stomp.Frame.Data.{Frame}
use go_stomp.Server.Broker.{Broker, find_or_create, queue_send, drop_error}
use go_stomp.Server.Broker.Queues.{
  waiting, waiting-find_or_create, waiting-create, waiting-insert, queue_send-hand_over,
  handed_over,
}
use go_stomp.Server.Broker.Queues.Ideal.{Queue, Op, step}
use go_stomp.Server.Objects.{Outcome, done}
use go_stomp.Server.Storage.{Storage, IsFifo}
use go_stomp.Server.Broker.Refines.{
  for_queue, view, Free, Refines, view-eq, elsewhere, by_step, same_name, at_queue,
}

module _ (st : Storage) (fifo : IsFifo st) where
  -- The two operations that a frame comes to a queue by.
  module _ (add : st.State → Bytes → Frame → Result st.State)
      (place : Frame → List Frame → List Frame)
      (law : (s : st.State) (q : Bytes) (f : Frame)
        → (t : st.State) × (add s q f ≡ ok t)
          × ((r : Bytes)
              → fifo.contents t r
                ≡ (if str_eq q r then place f (fifo.contents s q) else fifo.contents s r)))
      (f : Frame) (e : Bytes) (b : Broker st) where
    abbrev sent : Outcome (Broker st)
    sent = drop_error st (queue_send st add e f (find_or_create b.queues e) b)

    sent-handed_over :
        (a : ℕ) (l : List ℕ)
        → waiting b.queues e ≡ a ∷ l
        → Free st fifo b a
        → sent ≡ done (handed_over st fifo f e b a l)
    sent-handed_over a l w n =
        ap (λ s. drop_error st (queue_send st add e f (s, (find_or_create b.queues e).1) b))
          (waiting-find_or_create b.queues e ∙ w)
        ∙ ap (drop_error st) (queue_send-hand_over st fifo add e f a l _ b n)

    sent-stored :
        waiting b.queues e ≡ []
        → (b' : Broker st) × (sent ≡ done b')
          × ((j : Bytes)
              → fifo.contents b'.storage j ≡ (
                  if str_eq e j
                  then place f (fifo.contents b.storage e)
                  else fifo.contents b.storage j))
          × ((j : Bytes) → waiting b'.queues j ≡ waiting b.queues j)
    sent-stored w =
        let (s, p, there) = law b.storage e f in
        (
          record b { storage = s; queues = (find_or_create b.queues e).1 },
          ap (λ s. drop_error st (queue_send st add e f (s, (find_or_create b.queues e).1) b))
                (waiting-find_or_create b.queues e ∙ w)
              ∙ (unfold queue_send in rw p),
          there,
          waiting-create b.queues e,
        )

    pub send-Refines :
        (op : Op)
        → ((q : Queue)
            → step op q ≡ elim q.waits [
              | [] ↦ (record q { stored = place f q.stored }, [])
              | a ∷ l ↦ (record q { waits = l }, (a, f) ∷ [])
            ])
        → All (Free st fifo b) (waiting b.queues e)
        → (b' : Broker st) × (sent ≡ done b')
          × ((d : Bytes) → Refines st fifo d (for_queue d e op) b b')
    send-Refines op stepped v = go (waiting b.queues e) refl v
      where
        go :
            (l : List ℕ)
            → waiting b.queues e ≡ l
            → All (Free st fifo b) l
            → (b' : Broker st) × (sent ≡ done b')
              × ((d : Bytes) → Refines st fifo d (for_queue d e op) b b')
        go [] w v =
            let (b', r, there, waits) = sent-stored w in
            let after : Queue = record {
              stored = place f (fifo.contents b.storage e);
              waits = waiting b.queues e;
            } in
            let stepped_to : step op (view st fifo b e) ≡ (after, []) =
              stepped (view st fifo b e)
              ∙ ap
                  (elim [
                    | [] ↦ (after, [])
                    | a ∷ l ↦ (record (view st fifo b e) { waits = l }, (a, f) ∷ [])
                  ])
                  w in
            (
              b',
              r,
              at_queue st fifo e op b b'
                  (by_step st fifo e op b b' stepped_to
                    (view-eq st fifo b b' e (there e ∙ rw (same_name st fifo e)) (waits e)) tt)
                  (λ d n. elsewhere st fifo b b' d (there d ∙ rw n) (waits d)),
            )
        go (a ∷ l) w v =
            let b' = handed_over st fifo f e b a l in
            let after : Queue = record { stored = fifo.contents b.storage e; waits = l } in
            let stepped_to : step op (view st fifo b e) ≡ (after, (a, f) ∷ []) =
              stepped (view st fifo b e) ∙ rw w refl in
            (
              b',
              sent-handed_over a l w (v.0),
              at_queue st fifo e op b b'
                  (by_step st fifo e op b b' stepped_to
                    (view-eq st fifo b b' e refl
                      (waiting-insert b.queues e l e ∙ rw (same_name st fifo e)))
                    (refl, ground arith))
                  (λ d n. elsewhere st fifo b b' d refl (waiting-insert b.queues e l d ∙ rw n)),
            )
