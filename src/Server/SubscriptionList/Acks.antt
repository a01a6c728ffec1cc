-- ===== src/Server/SubscriptionList/Acks.antt =====
-- Which subscriptions `Ack` and `Nack` take off the list.
use mathlib.Core.Path.{subst}
use go_stomp.Base.{
  ltb, ℕ, ◌≤◌, ◌≡◌, refl, sym, ap, ◌∙◌, Bytes, Bool, true, false, not, Option, none, List, [], ◌∷◌,
  ◌++◌, map, str_eq, str_eq_iff, leb, ltb, ◌==◌, if◌then◌else◌, keep, All, arith, Bool-cases, inl,
  inr, ◌⊎◌,
}
use go_stomp.Frame.Data.{Frame}
use go_stomp.Frame.Names
use go_stomp.Server.Conn.Handlers.{on_ack}
use go_stomp.Server.Objects.{Subscription, Heap, set_frame, Request, subscribe_op, Outcome, done}
use go_stomp.Server.Subscription.{is_acked_by, is_nacked_by}
use go_stomp.Server.SubscriptionList.{ack_loop, ack, nack}

-- The test of the loop as a Boolean.
abbrev acks : ℕ → Subscription → Bool
acks m s =
    if str_eq s.ack Names.ack_auto
    then true
    else if str_eq s.ack Names.ack_client
    then leb s.msg_id m
    else m == s.msg_id

-- One of the three modes.
abbrev pub IsMode : Bytes → Type 0
IsMode a = (a ≡ Names.ack_auto) ⊎ ((a ≡ Names.ack_client) ⊎ (a ≡ Names.ack_client_individual))

is_acked_by-acks : (m : ℕ) (s : Subscription) → IsMode s.ack → is_acked_by s m ≡ done (acks m s)
unfolding is_acked_by
is_acked_by-acks m s v = ground (
  arith,
  str_eq_iff s.ack Names.ack_auto,
  str_eq_iff s.ack Names.ack_client,
  str_eq_iff s.ack Names.ack_client_individual,
)

-- Without the frame that is pending.
abbrev settled : Heap → ℕ → Subscription
settled h a = record (h.at a) { frame = none }

-- Two heaps that differ in pending frames only.
abbrev pub SameButFrames : Heap → Heap → Type 0
SameButFrames h g = (a : ℕ) → settled h a ≡ settled g a

pub set_frame-SameButFrames :
    (h : Heap) (a : ℕ) (f : Option Frame) → SameButFrames (set_frame h a f) h
set_frame-SameButFrames h a f b = ground (arith)

-- One step of the loop, by the outcome of the test.
module _ (acked : Subscription → Outcome Bool) (callback : ℕ → Heap → Heap × List Request) where
  ack_loop-true :
      (a : ℕ) (l : List ℕ) (h h' : Heap) (kept : List ℕ) (rs : List Request)
      → acked (h.at a) ≡ done true
      → ack_loop acked callback (callback a h).0 l ≡ done (h', kept, rs)
      → ack_loop acked callback h (a ∷ l) ≡ done (h', kept, (callback a h).1 ++ rs)
  unfolding ack_loop
  ack_loop-true a l h h' kept rs t q = rw (t, ack_loop) (rw q)

  ack_loop-false :
      (a : ℕ) (l : List ℕ) (h h' : Heap) (kept : List ℕ) (rs : List Request)
      → acked (h.at a) ≡ done false
      → ack_loop acked callback h l ≡ done (h', kept, rs)
      → ack_loop acked callback h (a ∷ l) ≡ done (h', a ∷ kept, rs)
  unfolding ack_loop
  ack_loop-false a l h h' kept rs t q = rw (t, ack_loop) (rw q)

module _ (m : ℕ) where
  ack_loop-on_ack :
      (l : List ℕ) (h g : Heap)
      → SameButFrames h g
      → All (λ a. IsMode (g.at a).ack) l
      → (h' : Heap) × (ack_loop (λ s. is_acked_by s m) on_ack h l
          ≡ done (
            h',
            keep (λ a. not (acks m (g.at a))) l,
            map subscribe_op (keep (λ a. acks m (g.at a)) l),
          ))
        × SameButFrames h' g
  ack_loop-on_ack [] h g e v = (h, unfold ack_loop in refl, e)
  ack_loop-on_ack (a ∷ l) h g e v =
      let same : acks m (h.at a) ≡ acks m (g.at a) = ap (acks m) (e a) in
      let mode = subst IsMode (sym (ap (λ s. s.ack) (e a))) v.0 in
      let test = is_acked_by-acks m (h.at a) mode ∙ ap done same in
      elim (Bool-cases (acks m (g.at a))) [
        | inl t ↦
            let (h', q, r) =
              ack_loop-on_ack l (set_frame h a none) g
                (λ b. set_frame-SameButFrames h a none b ∙ e b) v.1 in
            (h', rw t (ack_loop-true _ on_ack a l h h' _ _ (test ∙ ap done t) q), r)
        | inr t ↦
            let (h', q, r) = ack_loop-on_ack l h g e v.1 in
            (h', rw t (ack_loop-false _ on_ack a l h h' _ _ (test ∙ ap done t) q), r)
      ]

ack_loop_none :
    (acked : Subscription → Outcome Bool) (callback : ℕ → Heap → Heap × List Request) (h : Heap)
    (l : List ℕ)
    → All (λ a. acked (h.at a) ≡ done false) l
    → ack_loop acked callback h l ≡ done (h, l, [])
ack_loop_none acked callback h [] v = unfold ack_loop in refl
ack_loop_none acked callback h (a ∷ l) v =
    ack_loop-false acked callback a l h h l [] v.0 (ack_loop_none acked callback h l v.1)

not_individually_acked :
    (m : ℕ) (s : Subscription)
    → 1 ≤ m
    → s.ack ≡ Names.ack_client_individual
    → s.msg_id ≡ 0
    → is_acked_by s m ≡ done false
unfolding is_acked_by str_eq
not_individually_acked m s p e z = ground (arith, p, e, z)

All-map : {P Q : ℕ → Type 0} (l : List ℕ) → ((a : ℕ) → P a → Q a) → All P l → All Q l
All-map [] f v = tt
All-map (a ∷ l) f v = (f a v.0, All-map l f v.1)

-- On a list whose subscriptions are all in the mode "client-individual" and all have the `msgId`
-- 0, an ACK of a message with a number of at least 1 settles none: the list and the heap stay as
-- they are, and nothing is sent to the upper layer.
pub ack-individual :
    (m : ℕ) (callback : ℕ → Heap → Heap × List Request) (h : Heap) (l : List ℕ)
    → 1 ≤ m
    → All (λ a. ((h.at a).ack ≡ Names.ack_client_individual) × ((h.at a).msg_id ≡ 0)) l
    → ack m callback h l ≡ done (h, l, [])
unfolding ack
ack-individual m callback h l p v =
    ack_loop_none (λ s. is_acked_by s m) callback h l
      (All-map l (λ a e. not_individually_acked m (h.at a) p e.0 e.1) v)

-- While `msgId` of the subscriptions is 0, a NACK of any message settles no subscription, whatever
-- its mode.
pub nack-none :
    (m : ℕ) (callback : ℕ → Heap → Heap × List Request) (h : Heap) (l : List ℕ)
    → 1 ≤ m
    → All (λ a. (h.at a).msg_id ≡ 0) l
    → nack m callback h l ≡ done (h, l, [])
unfolding nack is_nacked_by
nack-none m callback h l p v =
    ack_loop_none (λ s. done (is_nacked_by s m)) callback h l
      (All-map l (λ a e. ground (arith, e)) v)

keep-All :
    (p : ℕ → Bool) (l : List ℕ)
    → All (λ a. p a ≡ true) l
    → (keep p l ≡ l) × (keep (λ a. not (p a)) l ≡ [])
keep-All p [] v = (refl, refl)
keep-All p (a ∷ l) v = (rw v.0 (ap (◌∷◌ a) (keep-All p l v.1).0), rw v.0 (keep-All p l v.1).1)

cumulatively_acked :
    (m : ℕ) (s : Subscription) → s.ack ≡ Names.ack_client → s.msg_id ≤ m → acks m s ≡ true
unfolding str_eq
cumulatively_acked m s e b = ground (arith, e, b)

-- Where all subscriptions of the list are in the mode "client" with numbers at most that of the
-- ACK, none is left.
pub ack-client :
    (m : ℕ) (h : Heap) (l : List ℕ)
    → All (λ a. ((h.at a).ack ≡ Names.ack_client) × ((h.at a).msg_id ≤ m)) l
    → (h' : Heap) × (ack m on_ack h l ≡ done (h', [], map subscribe_op l)) × SameButFrames h' h
unfolding ack
ack-client m h l v =
    let (h', q, r) = ack_loop-on_ack m l h h (λ a. refl) (All-map l (λ a e. inr (inl e.0)) v) in
    let (all, none_left) =
      keep-All (λ a. acks m (h.at a)) l
        (All-map l (λ a e. cumulatively_acked m (h.at a) e.0 e.1) v) in
    (h', q ∙ rw (all, none_left), r)

acks-client : (m : ℕ) (s : Subscription) → s.ack ≡ Names.ack_client → acks m s ≡ leb s.msg_id m
unfolding str_eq
acks-client m s e = ground (arith, e)

not-leb : (n m : ℕ) → not (leb n m) ≡ ltb m n
not-leb n m = ground arith

keep-cong : (p q : ℕ → Bool) (l : List ℕ) → All (λ a. p a ≡ q a) l → keep p l ≡ keep q l
keep-cong p q [] v = refl
keep-cong p q (a ∷ l) v = rw (v.0, keep-cong p q l v.1)

-- An ACK on a list of subscriptions in the mode "client" is cumulative: with the number `m` it takes
-- exactly those off the list whose number is at most `m`, and sends each of them to the upper
-- layer once, in the order of the list; those with a larger number stay on the list, in their
-- order; and of the subscriptions only pending frames change.
pub ack-cumulative :
    (m : ℕ) (h : Heap) (l : List ℕ)
    → All (λ a. (h.at a).ack ≡ Names.ack_client) l
    → (h' : Heap) × (ack m on_ack h l
        ≡ done (
          h',
          keep (λ a. ltb m (h.at a).msg_id) l,
          map subscribe_op (keep (λ a. leb (h.at a).msg_id m) l),
        ))
      × SameButFrames h' h
unfolding ack
ack-cumulative m h l v =
    let (h', q, r) = ack_loop-on_ack m l h h (λ a. refl) (All-map l (λ a e. inr (inl e)) v) in
    let stay =
      keep-cong (λ a. not (acks m (h.at a))) (λ a. ltb m (h.at a).msg_id) l
        (All-map l (λ a e. ap not (acks-client m (h.at a) e) ∙ not-leb (h.at a).msg_id m) v) in
    let go =
      keep-cong (λ a. acks m (h.at a)) (λ a. leb (h.at a).msg_id m) l
        (All-map l (λ a e. acks-client m (h.at a) e) v) in
    (h', q ∙ rw (stay, go) refl, r)
