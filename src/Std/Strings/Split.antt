-- ===== src/Std/Strings/Split.antt =====
-- Splitting and matching a text that is made of two runs of digits and a comma.
use go_stomp.Base.{
  ℕ, ◌+◌, ◌≡◌, ◌≢◌, refl, sym, ap, ◌∙◌, Bool, true, ◌&&◌, [], ◌∷◌, ◌++◌, Bytes, All, length, arith,
  append-nil,
}
use go_stomp.Std.Strconv.{is_digit}
use go_stomp.Std.Strings.{split, match_digits, after_comma, match_pair, is_end}

abbrev IsDigits : Bytes → Type 0
IsDigits = All (λ c. is_digit c ≡ true)

split-part : (sep : ℕ) (s : Bytes) → All (λ c. c ≢ sep) s → split sep s ≡ s ∷ []
unfolding split
split-part sep [] h = refl
split-part sep (c ∷ s) h = ground (arith, split-part sep s h.1)

pub split-append :
    (sep : ℕ) (s t : Bytes) → All (λ c. c ≢ sep) s → split sep (s ++ (sep ∷ t)) ≡ s ∷ split sep t
unfolding split
split-append sep [] t h = ground arith
split-append sep (c ∷ s) t h = ground (arith, split-append sep s t h.1)

digits_ne_comma : (s : Bytes) → IsDigits s → All (λ c. c ≢ b',') s
digits_ne_comma [] h = tt
digits_ne_comma (c ∷ s) h = (ground arith, digits_ne_comma s h.1)

pub split_pair : (s t : Bytes) → IsDigits s → IsDigits t → split b',' (s ++ (b',' ∷ t)) ≡ s ∷ t ∷ []
split_pair s t hs ht =
    split-append b',' s t (digits_ne_comma s hs)
    ∙ ap (◌∷◌ s) (split-part b',' t (digits_ne_comma t ht))

match_digits-append :
    (fits : ℕ → Bool) (next : Bytes → Bool) (n : ℕ) (s t : Bytes)
    → IsDigits s
    → match_digits fits next n (s ++ t) ≡ match_digits fits next (n + length s) t
unfolding match_digits
match_digits-append fits next n [] t h = ap (λ k. match_digits fits next k t) (omega arith)
match_digits-append fits next n (c ∷ s) t h = rw h.0 (
    match_digits-append fits next (n + 1) s t h.1
    ∙ ap (λ k. match_digits fits next k t) (omega arith))

match_digits-end :
    (fits : ℕ → Bool) (s : Bytes) → IsDigits s → match_digits fits is_end 0 s ≡ fits (length s)
unfolding match_digits
match_digits-end fits s h =
    let e : 0 + length s ≡ length s = omega arith in
    ap (match_digits fits is_end 0) (sym (append-nil s))
    ∙ match_digits-append fits is_end 0 s [] h
    ∙ rw e (and_true (fits (length s)))
  where
    and_true : (b : Bool) → b && true ≡ b
    and_true b = ground arith

-- The pattern matches two runs of digits exactly if both have a length that it allows.
pub match_pair_lem :
    (fits : ℕ → Bool) (s t : Bytes)
    → IsDigits s
    → IsDigits t
    → match_pair fits (s ++ (b',' ∷ t)) ≡ fits (length s) && fits (length t)
unfolding match_pair
match_pair_lem fits s t hs ht =
    let e : 0 + length s ≡ length s = omega arith in
    match_digits-append fits (after_comma fits) 0 s (b',' ∷ t) hs
    ∙ rw e (ap (◌&&◌ (fits (length s))) (match_digits-end fits t ht))
