-- ===== src/Frame/Header/Laws.antt =====
-- Headers as dictionaries that keep the first of several values: what each operation does to the
-- value that `Contains` finds.
use go_stomp.Base.{
  ℕ, zero, suc, ◌≤◌, ◌≡◌, refl, sym, ap, ◌∙◌, inl, inr, Option, none, some, [], ◌∷◌, ◌++◌, Bytes,
  str_eq, str_eq_iff, if◌then◌else◌, length, arith, append-nil, append_assoc, Option-cases,
}
use go_stomp.Frame.Header.{
  add_header, Header, add, add_header, index, set, contains, get, get_all, remove_at, del_loop, del,
  clone,
}

-- The value of the first entry with the key.
pub lookup : Header → Bytes → Option Bytes
lookup [] key = none
lookup ((k, v) ∷ h) key = if str_eq k key then some v else lookup h key

pub contains-lookup : (h : Header) (key : Bytes) → contains h key ≡ lookup h key
unfolding contains lookup
contains-lookup [] key = refl
contains-lookup ((k, v) ∷ h) key = ground (arith, contains-lookup h key)

lookup-append :
    (g h : Header) (key : Bytes)
    → lookup (g ++ h) key ≡ elim (lookup g key) [ none ↦ lookup h key | some v ↦ some v ]
unfolding lookup
lookup-append [] h key = refl
lookup-append ((k, v) ∷ g) h key = ground (arith, lookup-append g h key)

lookup-set :
    (h : Header) (key value j : Bytes)
    → lookup (set h key value) j ≡ (if str_eq key j then some value else lookup h j)
unfolding lookup set
lookup-set [] key value j = refl
lookup-set ((k, v) ∷ h) key value j =
    ground (arith, str_eq_iff key j, str_eq_iff k key, str_eq_iff k j, lookup-set h key value j)

lookup-get_all :
    (h : Header) (key : Bytes) → lookup h key ≡ elim (get_all h key) [ [] ↦ none | v ∷ vs ↦ some v ]
unfolding lookup get_all
lookup-get_all [] key = refl
lookup-get_all ((k, v) ∷ h) key = ground (arith, lookup-get_all h key)

-- `Set` gives the key the new value and leaves every other key its value, whether or not the key
-- was there.
pub contains-set :
    (h : Header) (key value j : Bytes)
    → contains (set h key value) j ≡ (if str_eq key j then some value else contains h j)
contains-set h key value j = simp contains-lookup (lookup-set h key value j)

-- `Add` gives the value to the key if it had none, and leaves every key that had a value that one.
pub contains-add :
    (h : Header) (key value j : Bytes)
    → contains (add h key value) j
      ≡ elim (contains h j) [ none ↦ if str_eq key j then some value else none | some v ↦ some v ]
unfolding add lookup
contains-add h key value j = simp contains-lookup (lookup-append h ((key, value) ∷ []) j)

-- The entries whose key is another.
unfoldable pub without : Bytes → Header → Header
without key [] = []
without key ((k, v) ∷ h) = if str_eq k key then without key h else (k, v) ∷ without key h

remove_at-without :
    (h : Header) (key : Bytes) {i : ℕ}
    → index h key ≡ some i
    → (without key (remove_at h i) ≡ without key h) × (suc (length (remove_at h i)) ≡ length h)
unfolding index remove_at without
remove_at-without [] key e = cc
remove_at-without ((k, v) ∷ h) key {i} e = elim (Option-cases (index h key)) [
  | inl q ↦ ground (arith, q)
  | inr (j, q) ↦ ground (arith, q, remove_at-without h key q)
]

without-eq_self : (h : Header) (key : Bytes) → index h key ≡ none → without key h ≡ h
unfolding index without
without-eq_self [] key e = refl
without-eq_self ((k, v) ∷ h) key e = ground (arith, without-eq_self h key)

del_loop-without :
    (fuel : ℕ) (h : Header) (key : Bytes) → length h ≤ fuel → del_loop fuel h key ≡ without key h
unfolding del_loop without
del_loop-without zero [] key b = refl
del_loop-without zero (e ∷ h) key b = absurd (omega arith)
del_loop-without (suc fuel) h key b = elim (Option-cases (index h key)) [
  | inl e ↦ rw (e, del_loop) (sym (without-eq_self h key e))
  | inr (i, e) ↦
      let (same, shorter) = remove_at-without h key e in
      rw (e, del_loop) (del_loop-without fuel (remove_at h i) key (omega arith) ∙ same)
]

-- `Del` ends with no entry of the key left: it leaves exactly the entries of other keys, in order.
pub del-without : (h : Header) (key : Bytes) → del h key ≡ without key h
unfolding del
del-without h key = del_loop-without (length h) h key (omega arith)

lookup-without :
    (h : Header) (key j : Bytes)
    → lookup (without key h) j ≡ (if str_eq key j then none else lookup h j)
unfolding lookup without
lookup-without [] key j = ground arith
lookup-without ((k, v) ∷ h) key j =
    ground (arith, str_eq_iff key j, str_eq_iff k key, str_eq_iff k j, lookup-without h key j)

-- `Del` takes every value of the key away, and leaves every other key its value.
pub contains-del :
    (h : Header) (key j : Bytes)
    → contains (del h key) j ≡ (if str_eq key j then none else contains h j)
contains-del h key j = simp (contains-lookup, del-without) (lookup-without h key j)

-- `GetAll` begins with the value that `Contains` finds, and `Get` gives that value.
pub contains-get_all :
    (h : Header) (key : Bytes)
    → (contains h key ≡ elim (get_all h key) [ [] ↦ none | v ∷ vs ↦ some v ])
      × (get h key ≡ elim (get_all h key) [ [] ↦ [] | v ∷ vs ↦ v ])
unfolding get
contains-get_all h key = (found, rw (found, get) (ground arith))
  where
    found : contains h key ≡ elim (get_all h key) [ [] ↦ none | v ∷ vs ↦ some v ]
    found = contains-lookup h key ∙ lookup-get_all h key

add_header-append : (g h : Header) → add_header g h ≡ g ++ h
unfolding add_header
add_header-append g [] = sym (append-nil g)
add_header-append g ((k, v) ∷ h) = add_header-append (add g k v) h ∙ append_assoc g ((k, v) ∷ []) h

pub clone_lem : (h : Header) → clone h ≡ h
unfolding clone
clone_lem [] = refl
clone_lem (e ∷ h) = ap (◌∷◌ e) (clone_lem h)

lookup-add_header :
    (h g : Header) (j : Bytes)
    → lookup (add_header h g) j ≡ elim (lookup h j) [ none ↦ lookup g j | some v ↦ some v ]
unfolding add_header add lookup
lookup-add_header h [] j = ground arith
lookup-add_header h ((key, value) ∷ g) j =
    lookup-add_header (h ++ (key, value) ∷ []) g j
    ∙ ground (arith, lookup-append h ((key, value) ∷ []) j)

-- The entries of a header that is appended give a value only to the keys that had none.
pub contains-add_header :
    (h g : Header) (j : Bytes)
    → contains (add_header h g) j ≡ elim (contains h j) [ none ↦ contains g j | some v ↦ some v ]
contains-add_header h g j = ground (
  arith,
  contains-lookup (add_header h g) j,
  contains-lookup h j,
  contains-lookup g j,
  lookup-add_header h g j,
)
