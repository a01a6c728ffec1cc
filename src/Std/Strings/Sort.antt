-- ===== src/Std/Strings/Sort.antt =====
-- `sort_strings` gives the same strings in order.
use go_stomp.Base.{
  ◌≡◌, refl, Bool, true, false, ◌||◌, List, [], ◌∷◌, Bytes, str_eq, str_eq_iff, All, arith,
  Bool-cases, inl, inr,
}
use go_stomp.Std.Strings.{str_lt, insert_sorted, sort_strings}

str_lt-asymm : (s t : Bytes) → str_lt s t ≡ true → str_lt t s ≡ false
unfolding str_lt
str_lt-asymm [] [] h = cc
str_lt-asymm (c ∷ s) [] h = cc
str_lt-asymm [] (d ∷ t) h = refl
str_lt-asymm (c ∷ s) (d ∷ t) h = ground (arith, str_lt-asymm s t)

str_lt-of-le : (x s t : Bytes) → str_lt x s ≡ true → str_lt t s ≡ false → str_lt x t ≡ true
unfolding str_lt
str_lt-of-le x [] t h k =
    elim x as (λ y. str_lt y [] ≡ true → str_lt y t ≡ true) [ [] ↦ λ e. cc | c ∷ y ↦ λ e. cc ] h
str_lt-of-le [] (d ∷ s) [] h k = cc
str_lt-of-le [] (d ∷ s) (e ∷ t) h k = refl
str_lt-of-le (c ∷ x) (d ∷ s) [] h k = cc
str_lt-of-le (c ∷ x) (d ∷ s) (e ∷ t) h k = ground (arith, str_lt-of-le x s t)

-- No later string is less than an earlier one.
abbrev pub IsSorted : List Bytes → Type 0
IsSorted [] = Unit
IsSorted (s ∷ ss) = All (λ x. str_lt x s ≡ false) ss × IsSorted ss

unfoldable pub mem : Bytes → List Bytes → Bool
mem k [] = false
mem k (s ∷ ss) = str_eq s k || mem k ss

insert_sorted-All :
    (t s : Bytes) (ss : List Bytes)
    → str_lt s t ≡ false
    → All (λ x. str_lt x t ≡ false) ss
    → All (λ x. str_lt x t ≡ false) (insert_sorted s ss)
unfolding insert_sorted
insert_sorted-All t s [] h a = (h, tt)
insert_sorted-All t s (u ∷ us) h a = ground (arith, insert_sorted-All t s us h a.1)

raise :
    (s t : Bytes) (ts : List Bytes)
    → str_lt t s ≡ false
    → All (λ x. str_lt x t ≡ false) ts
    → All (λ x. str_lt x s ≡ false) ts
raise s t [] h a = tt
raise s t (x ∷ xs) h a = (ground (arith, str_lt-of-le x s t), raise s t xs h a.1)

insert_sorted-IsSorted : (s : Bytes) (ss : List Bytes) → IsSorted ss → IsSorted (insert_sorted s ss)
unfolding insert_sorted
insert_sorted-IsSorted s [] h = (tt, tt)
insert_sorted-IsSorted s (t ∷ ts) h = elim (Bool-cases (str_lt t s)) [
  | inl e ↦
      rw e (insert_sorted-All t s ts (str_lt-asymm t s e) h.0, insert_sorted-IsSorted s ts h.1)
  | inr e ↦ rw e ((e, raise s t ts e h.0), h)
]

pub sort_strings-IsSorted : (ss : List Bytes) → IsSorted (sort_strings ss)
unfolding sort_strings
sort_strings-IsSorted [] = tt
sort_strings-IsSorted (s ∷ ss) = insert_sorted-IsSorted s _ (sort_strings-IsSorted ss)

mem-insert_sorted :
    (k s : Bytes) (ss : List Bytes) → mem k (insert_sorted s ss) ≡ str_eq s k || mem k ss
unfolding mem insert_sorted
mem-insert_sorted k s [] = refl
mem-insert_sorted k s (t ∷ ts) = ground (arith, mem-insert_sorted k s ts)

pub mem-sort_strings : (k : Bytes) (ss : List Bytes) → mem k (sort_strings ss) ≡ mem k ss
unfolding mem sort_strings
mem-sort_strings k [] = refl
mem-sort_strings k (s ∷ ss) = rw (mem-insert_sorted k s (sort_strings ss), mem-sort_strings k ss)

-- A string less than the first one of a sorted list is not in it.
pub mem-less :
    (k s : Bytes) (ss : List Bytes)
    → str_lt k s ≡ true
    → All (λ x. str_lt x s ≡ false) ss
    → mem k ss ≡ false
unfolding mem
mem-less k s [] h a = refl
mem-less k s (t ∷ ts) h a = ground (arith, str_eq_iff t k, mem-less k s ts h a.1)
