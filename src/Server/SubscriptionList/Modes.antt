-- ===== src/Server/SubscriptionList/Modes.antt =====
-- What an ACK does about a subscription in a mode that there is not.
use mathlib.Core.Path.{subst}
use go_stomp.Base.{
  ℕ, ◌≡◌, ◌≢◌, ap, Bool, true, none, List, [], ◌∷◌, ◌++◌, str_eq, str_eq_iff, leb, ◌==◌, arith,
  Bool-cases, inl, inr, ◌⊎◌,
}
use go_stomp.Frame.Names
use go_stomp.Server.Conn.Handlers.{on_ack}
use go_stomp.Server.Objects.{invalid_ack, panicked, Subscription, Heap, set_frame, done}
use go_stomp.Server.Subscription.{is_acked_by}
use go_stomp.Server.SubscriptionList.{ack_loop, ack}
use go_stomp.Server.SubscriptionList.Acks.{IsMode, set_frame-SameButFrames}

-- `IsAckedBy` gives a Boolean or panics.
is_acked_by-cases :
    (m : ℕ) (s : Subscription)
    → ((b : Bool) × (is_acked_by s m ≡ done b)) ⊎ (is_acked_by s m ≡ panicked invalid_ack)
unfolding is_acked_by
is_acked_by-cases m s = elim (Bool-cases (str_eq s.ack Names.ack_auto)) [
  | inl e ↦ inl (true, ground (arith, e))
  | inr e ↦ elim (Bool-cases (str_eq s.ack Names.ack_client)) [
    | inl c ↦ inl (leb s.msg_id m, ground (arith, e, c))
    | inr c ↦ elim (Bool-cases (str_eq s.ack Names.ack_client_individual)) [
      | inl i ↦ inl (m == s.msg_id, ground (arith, e, c, i))
      | inr i ↦ inr (ground (arith, e, c, i))
    ]
  ]
]

refuses : (m : ℕ) (s : Subscription) → ¬ IsMode s.ack → is_acked_by s m ≡ panicked invalid_ack
unfolding is_acked_by
refuses m s n =
    let not_auto : s.ack ≢ Names.ack_auto = λ e. n (inl e) in
    let not_client : s.ack ≢ Names.ack_client = λ e. n (inr (inl e)) in
    let not_individual : s.ack ≢ Names.ack_client_individual = λ e. n (inr (inr e)) in
    ground (
      arith,
      str_eq_iff s.ack Names.ack_auto,
      str_eq_iff s.ack Names.ack_client,
      str_eq_iff s.ack Names.ack_client_individual,
    )

module _ (m : ℕ) where
  ack_loop-panics :
      (b : ℕ) (l : List ℕ) (h : Heap)
      → is_acked_by (h.at b) m ≡ panicked invalid_ack
      → ack_loop (λ s. is_acked_by s m) on_ack h (b ∷ l) ≡ panicked invalid_ack
  unfolding ack_loop
  ack_loop-panics b l h e = ground (arith, e)

  ack_loop-invalid :
      (l : List ℕ) (a : ℕ) (h : Heap)
      → ¬ IsMode (h.at a).ack
      → ack_loop (λ s. is_acked_by s m) on_ack h (l ++ a ∷ []) ≡ panicked invalid_ack
  unfolding ack_loop
  ack_loop-invalid [] a h n = ack_loop-panics a [] h (refuses m (h.at a) n)
  ack_loop-invalid (b ∷ l) a h n =
      let freed =
        ack_loop-invalid l a (set_frame h b none)
          λ e. n (subst IsMode (ap (λ s. s.ack) (set_frame-SameButFrames h b none a)) e) in
      let left = ack_loop-invalid l a h n in
      elim (is_acked_by-cases m (h.at b)) [
        | inl (t, e) ↦ elim (Bool-cases t) [
          | inl y ↦ ground (arith, e, y, freed)
          | inr y ↦ ground (arith, e, y, left)
        ]
        | inr e ↦ ack_loop-panics b (l ++ a ∷ []) h e
      ]

-- A subscription whose mode is none of the three makes an ACK panic, after those before it.
pub on_ack-invalid :
    (m : ℕ) (l : List ℕ) (a : ℕ) (h : Heap)
    → ¬ IsMode (h.at a).ack
    → ack m on_ack h (l ++ a ∷ []) ≡ panicked invalid_ack
unfolding ack
on_ack-invalid m l a h n = ack_loop-invalid m l a h n
