-- ===== src/Server/Broker/Queues/Ideal.antt =====
-- A queue without its representation: the frames in store and the subscriptions that wait.
use go_stomp.Base.{
  ℕ, ◌≡◌, refl, sym, ap, ◌∙◌, List, [], ◌∷◌, ◌++◌, map, append_assoc, append-nil, All, inl, inr,
  ◌⊎◌,
}
use mathlib.Core.List.{map-append}
use go_stomp.Frame.Data.{Frame}
use go_stomp.Server.Broker.{remove_first}

pub record Queue : Type 0 where
  pub stored : List Frame
  pub waits : List ℕ

-- What a request is for one queue: a frame comes, a frame comes back, a subscription asks for a frame or
-- leaves, or the request is not for this queue.
pub data Op : Type 0 where
  put put_back : Frame → Op
  ask leave : ℕ → Op
  other : Op

-- The queue after it, and the frame that a subscription is given.
abbrev pub step : Op → Queue → Queue × List (ℕ × Frame)
step (put f) q = elim q.waits [
  | [] ↦ (record q { stored = q.stored ++ f ∷ [] }, [])
  | a ∷ l ↦ (record q { waits = l }, (a, f) ∷ [])
]
step (put_back f) q = elim q.waits [
  | [] ↦ (record q { stored = f ∷ q.stored }, [])
  | a ∷ l ↦ (record q { waits = l }, (a, f) ∷ [])
]
step (ask a) q = elim q.stored [
  | [] ↦ (record q { waits = q.waits ++ a ∷ [] }, [])
  | f ∷ rest ↦ (record q { stored = rest }, (a, f) ∷ [])
]
step (leave a) q = (record q { waits = remove_first a q.waits }, [])
step other q = (q, [])

abbrev pub steps : List Op → Queue → Queue × List (ℕ × Frame)
steps [] q = (q, [])
steps (op ∷ ops) q =
    let (q', given) = step op q in let (q'', more) = steps ops q' in (q'', given ++ more)

-- The frames that come, and the subscriptions that ask.
abbrev pub come : List Op → List Frame
come [] = []
come (put f ∷ ops) = f ∷ come ops
come (put_back f ∷ ops) = come ops
come (ask a ∷ ops) = come ops
come (leave a ∷ ops) = come ops
come (other ∷ ops) = come ops

abbrev pub askers : List Op → List ℕ
askers [] = []
askers (put f ∷ ops) = askers ops
askers (put_back f ∷ ops) = askers ops
askers (ask a ∷ ops) = a ∷ askers ops
askers (leave a ∷ ops) = askers ops
askers (other ∷ ops) = askers ops

-- No frame comes back, and no subscription leaves.
abbrev pub IsStraight : Op → Type 0
IsStraight (put f) = Unit {0}
IsStraight (put_back f) = ⊥
IsStraight (ask a) = Unit {0}
IsStraight (leave a) = ⊥
IsStraight other = Unit {0}

abbrev pub IsCalm : Queue → Type 0
IsCalm q = (q.waits ≡ []) ⊎ (q.stored ≡ [])

abbrev pub given_to : List (ℕ × Frame) → List ℕ
given_to = map (λ g. g.0)

abbrev pub given_frames : List (ℕ × Frame) → List Frame
given_frames = map (λ g. g.1)

-- One operation: the queue is calm after it, no frame passes another, and no subscription another.
record InOrder (op : Op) (q : Queue) : Type 0 where
  calm : IsCalm (step op q).0
  frames : given_frames (step op q).1 ++ (step op q).0.stored ≡ q.stored ++ come (op ∷ [])
  waits : given_to (step op q).1 ++ (step op q).0.waits ≡ q.waits ++ askers (op ∷ [])

abbrev queue : List Frame → List ℕ → Queue
queue stored waits = record { stored = stored; waits = waits }

step-InOrder :
    (op : Op) (s : List Frame) (l : List ℕ)
    → IsStraight op
    → IsCalm (queue s l)
    → InOrder op (queue s l)
step-InOrder (put f) s [] v k = record { calm = inl refl; frames = refl; waits = refl }
step-InOrder (put f) [] (a ∷ l) v k = record {
  calm = inr refl;
  frames = refl;
  waits = sym (append-nil _);
}
step-InOrder (put f) (g ∷ s) (a ∷ l) v k = elim k [ inl e ↦ cc | inr e ↦ cc ]
step-InOrder (put_back f) s l v k = absurd v
step-InOrder (ask a) [] l v k = record { calm = inr refl; frames = refl; waits = refl }
step-InOrder (ask a) (f ∷ s) [] v k = record {
  calm = inl refl;
  frames = sym (append-nil _);
  waits = refl;
}
step-InOrder (ask a) (f ∷ s) (b ∷ l) v k = elim k [ inl e ↦ cc | inr e ↦ cc ]
step-InOrder (leave a) s l v k = absurd v
step-InOrder other s l v k = record {
  calm = k;
  frames = sym (append-nil _);
  waits = sym (append-nil _);
}

come-append : (op : Op) (ops : List Op) → come (op ∷ ops) ≡ come (op ∷ []) ++ come ops
come-append (put f) ops = refl
come-append (put_back f) ops = refl
come-append (ask a) ops = refl
come-append (leave a) ops = refl
come-append other ops = refl

askers-append : (op : Op) (ops : List Op) → askers (op ∷ ops) ≡ askers (op ∷ []) ++ askers ops
askers-append (put f) ops = refl
askers-append (put_back f) ops = refl
askers-append (ask a) ops = refl
askers-append (leave a) ops = refl
askers-append other ops = refl

-- Two stretches, each in order, one after the other.
join {ℓ} :
    {A : Type ℓ} (given more end mid start one two : List A)
    → more ++ end ≡ mid ++ two
    → given ++ mid ≡ start ++ one
    → given ++ more ++ end ≡ start ++ (one ++ two)
join given more end mid start one two e d =
    append_assoc given more end
    ∙ ap (λ l. given ++ l) e
    ∙ sym (append_assoc given mid two)
    ∙ ap (λ l. l ++ two) d
    ∙ append_assoc start one two

pub steps-in_order :
    (ops : List Op) (q : Queue)
    → All IsStraight ops
    → IsCalm q
    → (given_frames (steps ops q).1 ++ (steps ops q).0.stored ≡ q.stored ++ come ops)
      × (given_to (steps ops q).1 ++ (steps ops q).0.waits ≡ q.waits ++ askers ops)
steps-in_order [] q v k = (sym (append-nil _), sym (append-nil _))
steps-in_order (op ∷ ops) q (w, v) k =
    let now = step-InOrder op q.stored q.waits w k in
    let (frames, waits) = steps-in_order ops (step op q).0 v now.calm in
    let given = (step op q).1 in
    let more = (steps ops (step op q).0).1 in
    (
      ap (λ l. l ++ (steps ops (step op q).0).0.stored) (map-append (λ g. g.1) given more)
          ∙ join (given_frames given) (given_frames more) _ _ q.stored (come (op ∷ [])) (come ops)
              frames now.frames
          ∙ ap (λ l. q.stored ++ l) (sym (come-append op ops)),
      ap (λ l. l ++ (steps ops (step op q).0).0.waits) (map-append (λ g. g.0) given more)
          ∙ join (given_to given) (given_to more) _ _ q.waits (askers (op ∷ [])) (askers ops) waits
              now.waits
          ∙ ap (λ l. q.waits ++ l) (sym (askers-append op ops)),
    )

-- The operations of this queue.
abbrev pub own : List Op → List Op
own [] = []
own (put f ∷ ops) = put f ∷ own ops
own (put_back f ∷ ops) = put_back f ∷ own ops
own (ask a ∷ ops) = ask a ∷ own ops
own (leave a ∷ ops) = leave a ∷ own ops
own (other ∷ ops) = own ops

steps-cons :
    (op : Op) (ops : List Op) (q : Queue)
    → ((r : Queue) → steps ops r ≡ steps (own ops) r)
    → steps (op ∷ ops) q ≡ steps (op ∷ own ops) q
steps-cons op ops q same = ap (λ x. (x.0, (step op q).1 ++ x.1)) (same (step op q).0)

-- What is meant for other queues changes nothing here.
pub steps-own : (ops : List Op) (q : Queue) → steps ops q ≡ steps (own ops) q
steps-own [] q = refl
steps-own (put f ∷ ops) q = steps-cons (put f) ops q (steps-own ops)
steps-own (put_back f ∷ ops) q = steps-cons (put_back f) ops q (steps-own ops)
steps-own (ask a ∷ ops) q = steps-cons (ask a) ops q (steps-own ops)
steps-own (leave a ∷ ops) q = steps-cons (leave a) ops q (steps-own ops)
steps-own (other ∷ ops) q = steps-own ops q
