-- ===== src/Server/Listen/Backoff.antt =====
-- How long `Listen` sleeps.
use go_stomp.Base.{
  ℕ, zero, suc, ◌*◌, ◌≡◌, refl, ap, List, [], ◌∷◌, ◌++◌, if◌then◌else◌, ltb, arith, ◌≤◌,
}
use go_stomp.Frame.HeartBeat.{millisecond}
use go_stomp.Server.Listen.{
  Accept, accepted, temporary, ListenAct, new_conn, slept, next_timeout, listen,
}

abbrev pub capped : ℕ → ℕ
capped t = if ltb (5000 * millisecond) t then 5000 * millisecond else t

-- The sleeps of `n` temporary errors in a row, from the one that sleeps for `t`.
abbrev pub sleeps : ℕ → ℕ → List ListenAct
sleeps zero t = []
sleeps (suc n) t = slept (capped t) ∷ sleeps n (t * 2)

abbrev pub temporaries : ℕ → List Accept
temporaries zero = []
temporaries (suc n) = temporary ∷ temporaries n

next-capped : (t : ℕ) → 1 ≤ t → next_timeout (capped t) ≡ capped (t * 2)
unfolding next_timeout
next-capped t h = ground arith

listen-temporaries :
    (n t : ℕ) (rest : List Accept) (c : ℕ)
    → 1 ≤ t
    → listen (temporaries n ++ accepted c ∷ rest) (capped t)
      ≡ sleeps n (t * 2) ++ new_conn c ∷ listen rest 0
unfolding listen
listen-temporaries zero t rest c h = refl
listen-temporaries (suc n) t rest c h =
    ground (arith, next-capped t h, listen-temporaries n (t * 2) rest c (omega arith))

-- Through any number of temporary errors in a row `Listen` sleeps first for 5 milliseconds, then for
-- twice as long each time, but never for more than 5 seconds; the connection that comes after them is
-- served, and the next error starts at 5 milliseconds again.
pub listen-sleeps :
    (n : ℕ) (rest : List Accept) (c : ℕ)
    → listen (temporaries n ++ accepted c ∷ rest) 0
      ≡ sleeps n (5 * millisecond) ++ new_conn c ∷ listen rest 0
unfolding listen
listen-sleeps zero rest c = refl
listen-sleeps (suc n) rest c =
    ap (◌∷◌ (slept (5 * millisecond))) (listen-temporaries n (5 * millisecond) rest c (omega arith))
