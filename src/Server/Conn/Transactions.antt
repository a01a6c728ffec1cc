-- ===== src/Server/Conn/Transactions.antt =====
-- What the proofs on transactions share: the frames that they can hold, and parts of the handlers.
use go_stomp.Base.{tx_unknown, ◌≡◌, refl, Bool, true, false, Bytes, List, [], ◌∷◌, find}
use go_stomp.Frame.Command.{Command}
use go_stomp.Frame.Data.{Frame}
use go_stomp.Server.Conn.{get_conn, or_fail, St, Exec, returned, failed, crashed, M, ◌>>=◌}
use go_stomp.Server.Conn.Handlers.{commit_loop}

-- The commands of the frames that a transaction can hold.
abbrev pub is_deferred : Command → Bool
is_deferred Command.send = true
is_deferred Command.ack = true
is_deferred Command.nack = true
is_deferred _ = false

abbrev pub AllDeferred : List Frame → Type 0
AllDeferred [] = Unit
AllDeferred (f ∷ l) = (is_deferred f.command ≡ true) × AllDeferred l

abbrev pub go_on : {A B : Type 0} → (A → M B) → Exec A → Exec B
go_on f (returned a t) = f a t
go_on f (failed e t) = failed e t
go_on f (crashed p) = crashed p

pub go_on-bind : {A B : Type 0} (m : M A) (f : A → M B) (s : St) → (m >>= f) s ≡ go_on f (m s)
go_on-bind m f s =
    elim (m s)
      as (λ e.
        (elim e [ returned a t ↦ f a t | failed x t ↦ failed x t | crashed p ↦ crashed p ])
        ≡ go_on f e) [ returned a t ↦ refl | failed x t ↦ refl | crashed p ↦ refl ]

abbrev pub commit_found : (Frame → M (Unit {0})) → Bytes → M (Unit {0})
commit_found run tx = do
  c ← get_conn
  frames ← or_fail (find c.tx_store tx) tx_unknown
  commit_loop run tx frames
