-- ===== src/Base/Lists.antt =====
-- Lists measured and indexed by native numbers, under the library's names.
use Prim.Native.Nat.{ℕ, zero, suc, ◌+◌, ◌-◌, ◌≤◌}
use mathlib.Core.Path.{◌≡◌, refl, ap, ◌∙◌}
use mathlib.Core.List.{List, [], ◌∷◌, ◌++◌}
use mathlib.Core.Option.{Option, none, some}
use mathlib.Core.Bool.{Bool}
use native.Mathlib.Omega.{arith}
use go_stomp.Base.Tests.{if◌then◌else◌}

module _ {ℓ} {A : Type ℓ} where
  abbrev pub length : List A → ℕ
  length [] = 0
  length (x ∷ xs) = suc (length xs)

  abbrev pub get_elem? : List A → ℕ → Option A
  get_elem? [] i = none
  get_elem? (x ∷ xs) zero = some x
  get_elem? (x ∷ xs) (suc i) = get_elem? xs i

  abbrev pub take : ℕ → List A → List A
  take zero xs = []
  take (suc n) [] = []
  take (suc n) (x ∷ xs) = x ∷ take n xs

  abbrev pub drop : ℕ → List A → List A
  drop zero xs = xs
  drop (suc n) [] = []
  drop (suc n) (x ∷ xs) = drop n xs

  -- `filter` by a Boolean test.
  abbrev pub keep : (A → Bool) → List A → List A
  keep p [] = []
  keep p (x ∷ xs) = if p x then x ∷ keep p xs else keep p xs

  pub length-append : (xs ys : List A) → length (xs ++ ys) ≡ length xs + length ys
  length-append [] ys = omega arith
  length-append (x ∷ xs) ys = omega (arith, length-append xs ys)

  pub take-append_length : (xs ys : List A) → take (length xs) (xs ++ ys) ≡ xs
  take-append_length [] ys = refl
  take-append_length (x ∷ xs) ys = ap (◌∷◌ x) (take-append_length xs ys)

  pub drop-append_length : (xs ys : List A) → drop (length xs) (xs ++ ys) ≡ ys
  drop-append_length [] ys = refl
  drop-append_length (x ∷ xs) ys = drop-append_length xs ys

-- A predicate of every element.
abbrev pub All {ℓ κ} : {A : Type ℓ} → (A → Type κ) → List A → Type κ
All P [] = Unit
All P (x ∷ xs) = P x × All P xs

module _ {ℓ κ} {A : Type ℓ} (P : A → Type κ) where
  pub All-append : (xs ys : List A) → All P xs → All P ys → All P (xs ++ ys)
  All-append [] ys hx hy = hy
  All-append (x ∷ xs) ys hx hy = (hx.0, All-append xs ys hx.1 hy)

module _ {ℓ} {A : Type ℓ} where
  pub take-append_le : (n : ℕ) (a b : List A) → n ≤ length a → take n (a ++ b) ≡ take n a
  take-append_le zero a b h = refl
  take-append_le (suc n) [] b h = absurd (omega arith)
  take-append_le (suc n) (x ∷ a) b h = ap (◌∷◌ x) (take-append_le n a b (omega arith))

  pub take-append_ge :
      (n : ℕ) (a b : List A) → length a ≤ n → take n (a ++ b) ≡ a ++ take (n - length a) b
  take-append_ge n [] b h = ap (λ k. take k b) (omega arith)
  take-append_ge zero (x ∷ a) b h = absurd (omega arith)
  take-append_ge (suc n) (x ∷ a) b h =
      ap (◌∷◌ x) (take-append_ge n a b (omega arith) ∙ ap (λ k. a ++ take k b) (omega arith))

  pub drop-append_le : (n : ℕ) (a b : List A) → n ≤ length a → drop n (a ++ b) ≡ drop n a ++ b
  drop-append_le zero a b h = refl
  drop-append_le (suc n) [] b h = absurd (omega arith)
  drop-append_le (suc n) (x ∷ a) b h = drop-append_le n a b (omega arith)

  pub drop-append_ge :
      (n : ℕ) (a b : List A) → length a ≤ n → drop n (a ++ b) ≡ drop (n - length a) b
  drop-append_ge n [] b h = ap (λ k. drop k b) (omega arith)
  drop-append_ge zero (x ∷ a) b h = absurd (omega arith)
  drop-append_ge (suc n) (x ∷ a) b h =
      drop-append_ge n a b (omega arith) ∙ ap (λ k. drop k b) (omega arith)
