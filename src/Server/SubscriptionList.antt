-- ===== src/Server/SubscriptionList.antt =====
-- server/client/subscription_list.go: the list holds addresses of subscriptions.
pub mod Acks
pub mod Modes
use go_stomp.Base.{
  ℕ, Bytes, Bool, true, false, Option, none, some, List, [], ◌∷◌, ◌++◌, str_eq, ◌==◌, if◌then◌else◌,
}
use go_stomp.Server.Objects.{
  Subscription, Heap, ListRef, set_sub_list, Request, Outcome, done, panicked, ◌>>=◌, ◌>>◌,
  already_in_list,
}
use go_stomp.Server.Subscription.{is_acked_by, is_nacked_by}

-- `Add` to the list `r`.
unfoldable pub add : ListRef → ℕ → Heap → List ℕ → Outcome (Heap × List ℕ)
add r a h l = elim (h.at a).sub_list [
  | some other ↦ panicked already_in_list
  | none ↦ done (set_sub_list h a (some r), l ++ a ∷ [])
]

unfoldable pub get : Heap → List ℕ → Option ℕ × Heap × List ℕ
get h [] = (none, h, [])
get h (a ∷ l) = (some a, set_sub_list h a none, l)

unfoldable pub remove : ℕ → Heap → List ℕ → Heap × List ℕ
remove a h [] = (h, [])
remove a h (b ∷ l) =
    let rest = remove a h l in if b == a then (set_sub_list h a none, l) else (rest.0, b ∷ rest.1)

unfoldable pub find_by_id_and_remove : Bytes → Heap → List ℕ → Option ℕ × List ℕ
find_by_id_and_remove id h [] = (none, [])
find_by_id_and_remove id h (a ∷ l) =
    let rest = find_by_id_and_remove id h l in
    if str_eq (h.at a).id id then (some a, l) else (rest.0, a ∷ rest.1)

-- The loop of `Ack` and `Nack`: the callback changes the heap and sends requests.
unfoldable pub ack_loop :
    (Subscription → Outcome Bool)
    → (ℕ → Heap → Heap × List Request)
    → Heap
    → List ℕ
    → Outcome (Heap × List ℕ × List Request)
ack_loop acked callback h [] = done (h, [], [])
ack_loop acked callback h (a ∷ l) = acked (h.at a) >>= elim [
  | true ↦
      let (h', requests) = callback a h in
      do (h'', kept, more) ← ack_loop acked callback h' l; done (h'', kept, requests ++ more)
  | false ↦ do (h', kept, more) ← ack_loop acked callback h l; done (h', a ∷ kept, more)
]

unfoldable pub ack :
    ℕ → (ℕ → Heap → Heap × List Request) → Heap → List ℕ → Outcome (Heap × List ℕ × List Request)
unfolding ack_loop is_acked_by
ack msg_id = ack_loop (λ s. is_acked_by s msg_id)

unfoldable pub nack :
    ℕ → (ℕ → Heap → Heap × List Request) → Heap → List ℕ → Outcome (Heap × List ℕ × List Request)
unfolding ack_loop is_nacked_by
nack msg_id = ack_loop (λ s. done (is_nacked_by s msg_id))

-- `ForEach` with a callback on a state of the caller's.
unfoldable pub for_each : {S : Type 0} → (ℕ → Bool → S → S) → List ℕ → S → S
for_each callback [] s = s
for_each callback (a ∷ []) s = callback a true s
for_each callback (a ∷ b ∷ l) s = for_each callback (b ∷ l) (callback a false s)
