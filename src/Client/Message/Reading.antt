-- ===== src/Client/Message/Reading.antt =====
-- Reading a message's body in pieces.
use go_stomp.Base.{
  ℕ, zero, suc, ◌+◌, ◌≡◌, refl, sym, ap, ◌∙◌, Bytes, none, some, List, [], ◌∷◌, ◌++◌, take, drop,
  arith,
}
use go_stomp.Client.Message.{Message, read_some}

-- The pieces that reads of the sizes give, one after the other, up to the end of the body.
abbrev pub read_all : List ℕ → Message → Bytes
read_all [] msg = []
read_all (n ∷ ns) msg =
    let (piece, rest) = read_some n msg in
    let more = read_all ns rest in elim piece [ none ↦ [] | some p ↦ p ++ more ]

abbrev pub sum : List ℕ → ℕ
sum [] = 0
sum (n ∷ ns) = n + sum ns

take-nil : (n : ℕ) → take {A = ℕ} n [] ≡ []
take-nil zero = refl
take-nil (suc n) = refl

take-split : (n m : ℕ) (s : Bytes) → take n s ++ take m (drop n s) ≡ take (n + m) s
take-split zero m s = ap (λ k. take k s) (omega arith)
take-split (suc n) m [] = take-nil m ∙ sym (take-nil (suc n + m))
take-split (suc n) m (c ∷ s) =
    ap (◌∷◌ c) (take-split n m s) ∙ ap (λ k. take k (c ∷ s)) {x = suc (n + m)} (omega arith)

read_all-body :
    (ns : List ℕ) (msg : Message) (s : Bytes)
    → read_all ns (record msg { body = s }) ≡ take (sum ns) s
unfolding read_some
read_all-body [] msg s = refl
read_all-body (n ∷ ns) msg [] = sym (take-nil (n + sum ns))
read_all-body (n ∷ ns) msg (c ∷ s) =
    ap (◌++◌ (take n (c ∷ s))) (read_all-body ns msg (drop n (c ∷ s)))
    ∙ take-split n (sum ns) (c ∷ s)

-- Reads into slices of any sizes give the start of the body that is as long as the sizes together:
-- no byte is lost, repeated or moved.
pub read_all-take : (ns : List ℕ) (msg : Message) → read_all ns msg ≡ take (sum ns) msg.body
read_all-take ns msg = read_all-body ns msg msg.body
