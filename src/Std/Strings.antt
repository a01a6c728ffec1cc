-- ===== src/Std/Strings.antt =====
-- strings.Split at one byte, strings.HasPrefix, sort.Strings, and the two heart-beat patterns.
pub mod Sort
pub mod Split
use go_stomp.Base.{
  ℕ, ◌+◌, ◌≡◌, refl, Bool, true, false, ◌&&◌, List, [], ◌∷◌, ◌++◌, Bytes, ltb, ◌==◌, if◌then◌else◌,
  codes,
}
use go_stomp.Std.Strconv.{is_digit}

abbrev pub cons_first : ℕ → List Bytes → List Bytes
cons_first c [] = (c ∷ []) ∷ []
cons_first c (part ∷ parts) = (c ∷ part) ∷ parts

-- strings.Split(s, sep): the parts between the separators, one at least.
unfoldable pub split : ℕ → Bytes → List Bytes
split sep [] = [] ∷ []
split sep (c ∷ s) = let rest = split sep s in if c == sep then [] ∷ rest else cons_first c rest

-- strings.Join(parts, sep) for a separator of one byte.
unfoldable pub join : ℕ → List Bytes → Bytes
join sep [] = []
join sep (part ∷ []) = part
join sep (part ∷ next ∷ parts) = part ++ (sep ∷ join sep (next ∷ parts))

unfoldable pub has_prefix : Bytes → Bytes → Bool
has_prefix s [] = true
has_prefix [] (p ∷ prefix) = false
has_prefix (c ∷ s) (p ∷ prefix) = c == p && has_prefix s prefix

-- `<` of Go strings.
unfoldable pub str_lt : Bytes → Bytes → Bool
str_lt s [] = false
str_lt [] (d ∷ t) = true
str_lt (c ∷ s) (d ∷ t) = if ltb c d then true else c == d && str_lt s t

-- sort.Strings. Equal strings are the same value, so the order of equal ones does not show, and
-- any sorting method gives this list.
unfoldable pub insert_sorted : Bytes → List Bytes → List Bytes
unfolding str_lt
insert_sorted s [] = s ∷ []
insert_sorted s (t ∷ ts) = if str_lt t s then t ∷ insert_sorted s ts else s ∷ t ∷ ts

unfoldable pub sort_strings : List Bytes → List Bytes
unfolding insert_sorted
sort_strings [] = []
sort_strings (s ∷ ss) = insert_sorted s (sort_strings ss)

-- A run of digits of a length that `fits` allows, then what `next` accepts.
unfoldable pub match_digits : (ℕ → Bool) → (Bytes → Bool) → ℕ → Bytes → Bool
match_digits fits next n [] = fits n && next []
match_digits fits next n (c ∷ s) =
    let longer = match_digits fits next (n + 1) s in
    if is_digit c then longer else fits n && next (c ∷ s)

abbrev pub is_end : Bytes → Bool
is_end [] = true
is_end (c ∷ s) = false

unfoldable pub after_comma : (ℕ → Bool) → Bytes → Bool
unfolding match_digits
after_comma fits [] = false
after_comma fits (c ∷ s) = c == b',' && match_digits fits is_end 0 s

-- `^[0-9]{…},[0-9]{…}$`, with a test for the number of digits.
unfoldable pub match_pair : (ℕ → Bool) → Bytes → Bool
unfolding after_comma
match_pair fits s = match_digits fits (after_comma fits) 0 s

split_two : split b',' (codes "1.0,1.2") ≡ codes "1.0" ∷ codes "1.2" ∷ []
unfolding split
split_two = refl
