-- ===== src/Base/Maps.antt =====
-- Go maps with string keys, as association lists.
use mathlib.Core.Path.{◌≡◌, refl}
use mathlib.Core.List.{List, [], ◌∷◌}
use mathlib.Core.Option.{Option, none, some}
use native.Mathlib.Omega.{arith}
use go_stomp.Base.Tests.{if◌then◌else◌}
use go_stomp.Base.Text.{Bytes, str_eq, str_eq_iff}

abbrev pub Dict {ℓ} : Type ℓ → Type ℓ
Dict V = List (Bytes × V)

module _ {ℓ} {V : Type ℓ} where
  -- `v, ok := m[key]`.
  unfoldable pub find : Dict V → Bytes → Option V
  find [] key = none
  find ((k, v) ∷ m) key = if str_eq k key then some v else find m key

  -- `m[key] = v`.
  unfoldable pub insert : Dict V → Bytes → V → Dict V
  insert [] key v = (key, v) ∷ []
  insert ((k, w) ∷ m) key v = if str_eq k key then (key, v) ∷ m else (k, w) ∷ insert m key v

  -- `delete(m, key)`.
  unfoldable pub delete : Dict V → Bytes → Dict V
  delete [] key = []
  delete ((k, w) ∷ m) key = if str_eq k key then delete m key else (k, w) ∷ delete m key

  pub find-insert :
      (m : Dict V) (key : Bytes) (v : V) (j : Bytes)
      → find (insert m key v) j ≡ (if str_eq key j then some v else find m j)
  unfolding find insert
  find-insert [] key v j = refl
  find-insert ((k, w) ∷ m) key v j =
      ground (arith, str_eq_iff key j, str_eq_iff k key, str_eq_iff k j, find-insert m key v j)

  pub find-delete :
      (m : Dict V) (key j : Bytes)
      → find (delete m key) j ≡ (if str_eq key j then none else find m j)
  unfolding find delete
  find-delete [] key j = ground arith
  find-delete ((k, w) ∷ m) key j =
      ground (arith, str_eq_iff key j, str_eq_iff k key, str_eq_iff k j, find-delete m key j)
