-- ===== src/Frame/Header.antt =====
-- frame/header.go: `Header`. `slice` holds names and values by turns, and every function of the
-- package that writes it writes two elements at a time; the model holds one pair for each two
-- elements, so an index here is half of the source's.
pub mod ContentLength
pub mod Laws
use mathlib.Core.Option
use go_stomp.Base.{
  ℕ, zero, suc, ◌+◌, ◌<◌, ◌≡◌, Bool, not, Option, none, some, List, [], ◌∷◌, ◌++◌, Bytes, str_eq,
  if◌then◌else◌, length, get_elem?, codes,
}

abbrev pub Header : Type 0
Header = List (Bytes × Bytes)

-- `NewHeader`: the flat list of arguments, padded with "" if it is odd.
unfoldable pub new_header : List Bytes → Header
new_header [] = []
new_header (k ∷ []) = (k, []) ∷ []
new_header (k ∷ v ∷ rest) = (k, v) ∷ new_header rest

unfoldable pub add : Header → Bytes → Bytes → Header
add h key value = h ++ (key, value) ∷ []

-- `AddHeader`: the loop over `header`, from the first entry.
unfoldable pub add_header : Header → Header → Header
unfolding add
add_header h [] = h
add_header h ((key, value) ∷ rest) = add_header (add h key value) rest

-- `index`, `none` for its `-1, false`.
unfoldable pub index : Header → Bytes → Option ℕ
index [] key = none
index ((k, v) ∷ h) key = if str_eq k key then some 0 else Option.map suc (index h key)

-- `h.slice[i+1] = value`.
unfoldable pub set_value : Header → ℕ → Bytes → Header
set_value [] i value = []
set_value ((k, v) ∷ h) zero value = (k, value) ∷ h
set_value ((k, v) ∷ h) (suc i) value = (k, v) ∷ set_value h i value

unfoldable pub set : Header → Bytes → Bytes → Header
unfolding index set_value
set h key value = elim (index h key) [
  | some i ↦ set_value h i value
  | none ↦ h ++ (key, value) ∷ []
]

-- `Contains`, `none` for its `"", false`.
unfoldable pub contains : Header → Bytes → Option Bytes
unfolding index
contains h key = elim (index h key) [ none ↦ none | some i ↦ Option.map (λ e. e.1) (get_elem? h i) ]

unfoldable pub get : Header → Bytes → Bytes
unfolding contains
get h key = elim (contains h key) [ none ↦ [] | some v ↦ v ]

unfoldable pub get_all : Header → Bytes → List Bytes
get_all [] key = []
get_all ((k, v) ∷ h) key = if str_eq k key then v ∷ get_all h key else get_all h key

-- `append(h.slice[:i], h.slice[i+2:]...)`.
unfoldable pub remove_at : Header → ℕ → Header
remove_at [] i = []
remove_at (e ∷ h) zero = h
remove_at (e ∷ h) (suc i) = e ∷ remove_at h i

-- The loop of `Del`; each round removes an entry, so the length of the header is enough fuel.
unfoldable pub del_loop : ℕ → Header → Bytes → Header
unfolding index remove_at
del_loop zero h key = h
del_loop (suc fuel) h key = elim (index h key) [
  | none ↦ h
  | some i ↦ del_loop fuel (remove_at h i) key
]

unfoldable pub del : Header → Bytes → Header
unfolding del_loop
del h key = del_loop (length h) h key

-- `GetAt`, `none` for its panic.
unfoldable pub get_at : Header → ℕ → Option (Bytes × Bytes)
get_at h i = get_elem? h i

unfoldable pub clone : Header → Header
clone [] = []
clone (e ∷ h) = e ∷ clone h
