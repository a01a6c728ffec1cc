-- ===== src/Client/Calls/Settle.antt =====
-- conn.go: `Ack`, `Nack` and `createAckNackFrame`.
pub mod Refused
use go_stomp.Base.{
  ℕ, zero, suc, ◌+◌, ◌-◌, ◌*◌, ◌%◌, ◌^◌, ◌≡◌, ◌≢◌, refl, sym, ap, ◌∙◌, Bytes, Bool, true, false,
  not, ◌&&◌, ◌||◌, Option, none, some, List, [], ◌∷◌, ◌++◌, map, ok, err, ResultOf, codes, str_eq,
  if◌then◌else◌, take, drop, length, ltb, ◌==◌, arith, append_assoc, append-nil, All,
}
use go_stomp.Client.AckMode.{Mode}
use go_stomp.Client.Calls.{
  Client, Done, M, ◌>>=◌, ◌>>◌, pure, fail, from_attempt, get_conn, by_option, Answers, send_frame,
}
use go_stomp.Client.Errors.{
  Failure, Attempt, nack_not_supported, not_received_message, cannot_nack_auto_sub, missing_header,
}
use go_stomp.Client.Message.{Message, Subscription}
use go_stomp.Client.Versions.{supports_nack}
use go_stomp.Frame.Command.{Command}
use go_stomp.Frame.Data.{Frame, new}
use go_stomp.Frame.Header.{Header, add, contains}
use go_stomp.Frame.Names
use go_stomp.Server.Negotiation.{Version, v10, v11, v12}

abbrev pub settle_command : Bool → Command
settle_command true = Command.ack
settle_command false = Command.nack

-- The frame of versions 1.0 and 1.1, which names the subscription and the message.
unfoldable pub settle_by_message : Bool → Subscription → Header → Attempt (Option Frame)
unfolding new add contains missing_header
settle_by_message ack sub h = elim (contains h Names.message_id) [
  | some message_id ↦
      let f = new (settle_command ack) [] in
      ok (
        some (record f {
          header = add (add f.header Names.subscription sub.id) Names.message_id message_id;
        }))
  | none ↦ err (missing_header Names.message_id)
]

-- The frame of version 1.2, whose id is the message's header "ack".
unfoldable pub settle_by_ack : Bool → Header → Attempt (Option Frame)
unfolding new add contains missing_header
settle_by_ack ack h = elim (contains h Names.ack) [
  | some id ↦
      let f = new (settle_command ack) [] in
      ok (some (record f { header = add f.header Names.id id }))
  | none ↦ err (missing_header Names.ack)
]

-- The `switch c.version`.
unfoldable pub settle_frame : Version → Bool → Subscription → Header → Attempt (Option Frame)
unfolding settle_by_message settle_by_ack
settle_frame v10 ack sub h = settle_by_message ack sub h
settle_frame v11 ack sub h = settle_by_message ack sub h
settle_frame v12 ack sub h = settle_by_ack ack h

unfoldable pub create_ack_nack_frame : Version → Message → Bool → Attempt (Option Frame)
unfolding supports_nack settle_frame
create_ack_nack_frame version msg ack =
    if not ack && not (supports_nack version) then err nack_not_supported else elim msg.header [
      | none ↦ err not_received_message
      | some h ↦ elim msg.subscription [
        | none ↦ err not_received_message
        | some sub ↦ if not msg.has_conn then err not_received_message else elim sub.ack_mode [
          | Mode.auto ↦ if ack then ok none else err cannot_nack_auto_sub
          | Mode.client ↦ settle_frame version ack sub h
          | Mode.client_individual ↦ settle_frame version ack sub h
        ]
      ]
    ]

module _ (w : Answers) where
  unfoldable pub settle : Bool → Message → M (Unit {0})
  unfolding create_ack_nack_frame send_frame
  settle ack msg = do
    c ← get_conn
    f ← from_attempt (create_ack_nack_frame c.version msg ack)
    by_option f (pure tt) (send_frame w)

  unfoldable pub ack : Message → M (Unit {0})
  unfolding settle
  ack = settle true

  unfoldable pub nack : Message → M (Unit {0})
  unfolding settle
  nack = settle false
