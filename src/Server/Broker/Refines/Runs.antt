-- ===== src/Server/Broker/Refines/Runs.antt =====
-- The processor's loop, with what the connections do between its rounds.
use mathlib.Core.Path.{subst}
use go_stomp.Server.Broker.Refines.{Given, Refines, op_for, view, Ready}
use go_stomp.Frame.Data.{Frame}
use go_stomp.Server.Broker.Queues.Ideal.{step, Op, steps}
use go_stomp.Base.{ℕ, ◌≡◌, refl, sym, ap, ◌∙◌, Bytes, true, List, [], ◌∷◌, ◌++◌}
use go_stomp.Server.Broker.{Broker, is_queue_destination, process}
use go_stomp.Server.Objects.{Heap, Request, Outcome, done, panicked}
use go_stomp.Server.Storage.{Storage, IsFifo}
use go_stomp.Server.Broker.Refines.Requests.{process-refines}

module _ (st : Storage) (fifo : IsFifo st) (d : Bytes) where
  -- Rounds of the loop, as operations of the queue `d`. Between two of them the connections may change
  -- the subscriptions in any way.
  pub data Run : Broker st → List Op → Broker st → Type 0 where
    rest : {b : Broker st} → Run b [] b
    round :
        {b b' b'' : Broker st} {ops : List Op} (r : Request) (h : Heap)
        → Ready st fifo b r
        → process st r b ≡ done b'
        → Run (record b' { heap = h }) ops b''
        → Run b (op_for b.heap d r ∷ ops) b''

  -- What the queue gives in the rounds, in order, and that each round's goes where it is to go.
  abbrev pub gives : {b b' : Broker st} {ops : List Op} → Run b ops b' → List (ℕ × Frame)
  gives rest = []
  gives (round {b = b} r h v e more) = (step (op_for b.heap d r) (view st fifo b d)).1 ++ gives more

  abbrev pub Gave : {b b' : Broker st} {ops : List Op} → Run b ops b' → Type 0
  Gave rest = Unit {0}
  Gave (round {b = b} {b' = b'} r h v e more) =
      Given st fifo b b' (step (op_for b.heap d r) (view st fifo b d)).1 × Gave more

  round-Refines :
      (r : Request) (b b' : Broker st)
      → is_queue_destination d ≡ true
      → Ready st fifo b r
      → process st r b ≡ done b'
      → Refines st fifo d (op_for b.heap d r) b b'
  round-Refines r b b' q v e =
      let (found, e', here) = process-refines st fifo r b v in
      let result : Outcome (Broker st) → Broker st = elim [ done x ↦ x | panicked p ↦ b ] in
      subst (Refines st fifo d (op_for b.heap d r) b) (ap result (sym e' ∙ e)) (here d q)

  pub Run-refines :
      {b b' : Broker st} {ops : List Op}
      → is_queue_destination d ≡ true
      → (run : Run b ops b')
      → (view st fifo b' d ≡ (steps ops (view st fifo b d)).0)
        × (gives run ≡ (steps ops (view st fifo b d)).1)
        × Gave run
  Run-refines q rest = (refl, refl, tt)
  Run-refines {b} q (round {b' = b'} {ops = ops} r h v e more) =
      let now = round-Refines r b b' q v e in
      let (end, later, gave) = Run-refines q more in
      let given = (step (op_for b.heap d r) (view st fifo b d)).1 in
      (
        end ∙ ap (λ x. (steps ops x).0) now.viewed,
        ap (λ l. given ++ l) (later ∙ ap (λ x. (steps ops x).1) now.viewed),
        (now.given, gave),
      )
