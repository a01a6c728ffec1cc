-- ===== src/Client/Calls/Transaction.antt =====
-- transaction.go, and conn.go: `BeginWithError`. A method that fails leaves the transaction as it was.
pub mod Laws
use go_stomp.Base.{
  ℕ, zero, suc, ◌+◌, ◌-◌, ◌*◌, ◌%◌, ◌^◌, ◌≡◌, ◌≢◌, refl, sym, ap, ◌∙◌, Bytes, Bool, true, false,
  not, ◌&&◌, ◌||◌, Option, none, some, List, [], ◌∷◌, ◌++◌, map, ok, err, ResultOf, codes, str_eq,
  if◌then◌else◌, take, drop, length, ltb, ◌==◌, arith, append_assoc, append-nil, All,
}
use go_stomp.Client.Calls.{
  Client, Done, M, returned, ◌>>=◌, ◌>>◌, pure, fail, from_attempt, get_conn, by_option, when,
  next_id, Answers, FrameOption, create_send_frame, send_frame,
}
use go_stomp.Client.Calls.Settle.{create_ack_nack_frame}
use go_stomp.Client.Errors.{Failure, Attempt, completed_transaction}
use go_stomp.Client.Message.{Message}
use go_stomp.Frame.Command.{Command}
use go_stomp.Frame.Data.{Frame, new}
use go_stomp.Frame.Header.{Header, set}
use go_stomp.Client.Versions.{allocate_id}
use go_stomp.Frame.Names

-- `Transaction`, of this client.
pub record Transaction : Type 0 where
  pub id : Bytes
  pub completed : Bool

-- `f.Header.Set(frame.Transaction, tx.id)`.
abbrev pub in_transaction : Transaction → Frame → Frame
in_transaction tx f = record f { header = set f.header Names.transaction tx.id }

unfoldable pub with_receipt : Bool → Frame → M Frame
unfolding set
with_receipt true f = do id ← next_id; pure (record f { header = set f.header Names.receipt id })
with_receipt false f = pure f

module _ (w : Answers) where
  -- The transaction is made whether or not its BEGIN frame is sent.
  unfoldable pub begin_with_error : Client → Transaction × Done (Unit {0})
  unfolding new send_frame
  begin_with_error c =
      let (id, last) = allocate_id c.last_id in
      (
        record { id = id; completed = false },
        send_frame w (new Command.begin ((Names.transaction, id) ∷ []))
            (record c { last_id = last }),
      )

  -- `abort` and `commit`, which differ in the command.
  unfoldable pub complete : Command → Bool → Transaction → M Transaction
  unfolding new with_receipt send_frame
  complete command receipt tx = do
    when tx.completed (fail completed_transaction)
    f ← with_receipt receipt (new command ((Names.transaction, tx.id) ∷ []))
    send_frame w f
    pure (record tx { completed = true })

  unfoldable pub abort : Bool → Transaction → M Transaction
  unfolding complete
  abort = complete Command.abort

  unfoldable pub commit : Bool → Transaction → M Transaction
  unfolding complete
  commit = complete Command.commit

  unfoldable pub send :
      Transaction → Bytes → Bytes → Bytes → List (Option FrameOption) → M (Unit {0})
  unfolding create_send_frame set send_frame
  send tx destination content_type body opts = do
    when tx.completed (fail completed_transaction)
    f ← create_send_frame destination content_type body opts
    send_frame w (in_transaction tx f)

  unfoldable pub settle : Bool → Transaction → Message → M (Unit {0})
  unfolding create_ack_nack_frame set send_frame
  settle ack tx msg = do
    when tx.completed (fail completed_transaction)
    c ← get_conn
    f ← from_attempt (create_ack_nack_frame c.version msg ack)
    by_option f (pure tt) λ g. send_frame w (in_transaction tx g)

  unfoldable pub ack : Transaction → Message → M (Unit {0})
  unfolding settle
  ack = settle true

  unfoldable pub nack : Transaction → Message → M (Unit {0})
  unfolding settle
  nack = settle false
