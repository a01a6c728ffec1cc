-- ===== src/Client/Message.antt =====
-- message.go: what a subscription delivers, and the identity of a subscription, which messages name.
pub mod Reading
use go_stomp.Base.{
  ℕ, Bool, Bytes, Option, zero, suc, ◌+◌, ◌-◌, ◌*◌, ◌%◌, ◌^◌, ◌≡◌, ◌≢◌, refl, sym, ap, ◌∙◌, true,
  false, not, ◌&&◌, ◌||◌, none, some, List, [], ◌∷◌, ◌++◌, map, ok, err, ResultOf, codes, str_eq,
  if◌then◌else◌, take, drop, length, ltb, ◌==◌, arith, append_assoc, append-nil, All,
}
use go_stomp.Client.AckMode.{Mode}
use go_stomp.Client.Errors.{Failure}
use go_stomp.Frame.Header.{Header}

-- The fields of `Subscription` that never change once it is made.
pub record Subscription : Type 0 where
  pub id : Bytes
  pub reply_to_set : Bool
  pub destination : Bytes
  pub ack_mode : Mode

-- `Message`. Of the connection it only matters whether there is one.
pub record Message : Type 0 where
  pub error : Option Failure
  pub destination : Bytes
  pub content_type : Bytes
  pub has_conn : Bool
  pub subscription : Option Subscription
  pub header : Option Header
  pub body : Bytes

unfoldable pub should_ack : Message → Bool
should_ack msg = elim msg.subscription [
  | none ↦ false
  | some sub ↦ elim sub.ack_mode [ Mode.auto ↦ false | other ↦ true ]
]

-- `Read` into a slice of `n` bytes: what is copied there, `none` for io.EOF, and the message.
unfoldable pub read_some : ℕ → Message → Option Bytes × Message
read_some n msg = elim msg.body [
  | [] ↦ (none, msg)
  | b ∷ rest ↦ (some (take n (b ∷ rest)), record msg { body = drop n (b ∷ rest) })
]

unfoldable pub read_byte : Message → Option ℕ × Message
read_byte msg = elim msg.body [ [] ↦ (none, msg) | b ∷ rest ↦ (some b, record msg { body = rest }) ]
