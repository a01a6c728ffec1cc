-- ===== src/Client/Loop/Channels.antt =====
-- The channels that the client's loop holds: they are open and no two of them are the same.
use mathlib.Core.Path.{subst}
use go_stomp.Base.{
  ℕ, ◌<◌, ◌≡◌, ◌≢◌, refl, sym, Bytes, true, false, ◌||◌, Option, none, some, List, [], ◌∷◌, ◌++◌,
  Dict, find, insert, delete, All, str_eq, arith, Bool-cases, inl, inr,
}
use go_stomp.Client.Loop.{ChannelUse, delivered, channel_closed, Loop, is_shut, channels_of}

pub is_shut-append :
    (c : ℕ) (u v : List ChannelUse) → is_shut c (u ++ v) ≡ (is_shut c u || is_shut c v)
is_shut-append c [] v = refl
is_shut-append c (delivered d f ∷ u) v = is_shut-append c u v
is_shut-append c (channel_closed d ∷ u) v = ground (arith, is_shut-append c u v)

-- A channel that is not nil, is open, and has a number below `n`.
abbrev pub Live : ℕ → List ChannelUse → Option ℕ → Type 0
Live n uses none = ⊥
Live n uses (some c) = (is_shut c uses ≡ false) × (c < n)

-- No channel twice.
abbrev pub Apart : List (Option ℕ) → Type 0
Apart [] = Unit
Apart (ch ∷ chs) = All (λ d. ch ≢ d) chs × Apart chs

pub record IsSound (n : ℕ) (s : Loop) : Type 0 where
  pub live : All (Live n s.uses) (channels_of s.channels)
  pub apart : Apart (channels_of s.channels)
  pub shut_below : (c : ℕ) → is_shut c s.uses ≡ true → c < n

pub All-imp {ℓ} :
    {A : Type 0} {P Q : A → Type ℓ} → ((a : A) → P a → Q a) → (l : List A) → All P l → All Q l
All-imp f [] h = tt
All-imp f (a ∷ l) h = (f a h.0, All-imp f l h.1)

-- Two facts of every element at once.
pub All-and {ℓ} :
    {A : Type 0} {P Q R : A → Type ℓ}
    → ((a : A) → P a → Q a → R a)
    → (l : List A) → All P l
    → All Q l
    → All R l
All-and f [] h k = tt
All-and f (a ∷ l) h k = (f a h.0 k.0, All-and f l h.1 k.1)

module _ (P : Option ℕ → Type 0) where
  pub All-find :
      (m : Dict (Option ℕ)) (key : Bytes) {ch : Option ℕ}
      → find m key ≡ some ch
      → All P (channels_of m)
      → P ch
  unfolding find
  All-find [] key e h = cc
  All-find ((k, w) ∷ m) key {ch} e h = elim (Bool-cases (str_eq k key)) [
    | inl t ↦ subst P (ground (arith, t, e)) h.0
    | inr t ↦ All-find m key (ground (arith, t, e)) h.1
  ]

  pub All-delete :
      (m : Dict (Option ℕ)) (key : Bytes)
      → All P (channels_of m)
      → All P (channels_of (delete m key))
  unfolding delete
  All-delete [] key h = tt
  All-delete ((k, w) ∷ m) key h = elim (Bool-cases (str_eq k key)) [
    | inl t ↦ rw t (All-delete m key h.1)
    | inr t ↦ rw t (h.0, All-delete m key h.1)
  ]

  pub All-insert :
      (m : Dict (Option ℕ)) (key : Bytes) (ch : Option ℕ)
      → P ch
      → All P (channels_of m)
      → All P (channels_of (insert m key ch))
  unfolding insert
  All-insert [] key ch p h = (p, tt)
  All-insert ((k, w) ∷ m) key ch p h = elim (Bool-cases (str_eq k key)) [
    | inl t ↦ rw t (p, h.1)
    | inr t ↦ rw t (h.0, All-insert m key ch p h.1)
  ]

pub Apart-delete :
    (m : Dict (Option ℕ)) (key : Bytes) → Apart (channels_of m) → Apart (channels_of (delete m key))
unfolding delete
Apart-delete [] key h = tt
Apart-delete ((k, w) ∷ m) key h = elim (Bool-cases (str_eq k key)) [
  | inl t ↦ rw t (Apart-delete m key h.1)
  | inr t ↦ rw t (All-delete (λ d. w ≢ d) m key h.0, Apart-delete m key h.1)
]

pub Apart-insert :
    (m : Dict (Option ℕ)) (key : Bytes) (ch : Option ℕ)
    → All (λ d. ch ≢ d) (channels_of m)
    → Apart (channels_of m)
    → Apart (channels_of (insert m key ch))
unfolding insert
Apart-insert [] key ch f h = (tt, tt)
Apart-insert ((k, w) ∷ m) key ch f h = elim (Bool-cases (str_eq k key)) [
  | inl t ↦ rw t (f.1, h.1)
  | inr t ↦
      rw t (All-insert (λ d. w ≢ d) m key ch (λ e. f.0 (sym e)) h.0, Apart-insert m key ch f.1 h.1)
]

-- The channel of a key is the channel of no other.
pub find-delete-Apart :
    (m : Dict (Option ℕ)) (key : Bytes) {ch : Option ℕ}
    → find m key ≡ some ch
    → Apart (channels_of m)
    → All (λ d. ch ≢ d) (channels_of (delete m key))
unfolding find delete
find-delete-Apart [] key e h = tt
find-delete-Apart ((k, w) ∷ m) key {ch} e h = elim (Bool-cases (str_eq k key)) [
  | inl t ↦ rw t (
      subst (λ x. All (λ d. x ≢ d) (channels_of (delete m key))) (ground (arith, t, e))
        (All-delete (λ d. w ≢ d) m key h.0))
  | inr t ↦
      let e' : find m key ≡ some ch = ground (arith, t, e) in
      rw t ((λ q. All-find (λ d. w ≢ d) m key e' h.0 (sym q)), find-delete-Apart m key e' h.1)
]
