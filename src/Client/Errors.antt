-- ===== src/Client/Errors.antt =====
-- errors.go: the errors of the client library.
use go_stomp.Base
use go_stomp.Base.{
  Bytes, Option, none, some, List, [], ◌∷◌, ◌++◌, codes, ResultOf, err, str_eq, if◌then◌else◌,
}
use go_stomp.Frame.Command.{Command, command_name}
use go_stomp.Frame.Data.{Frame}
use go_stomp.Frame.Header.{get}
use go_stomp.Frame.Names

-- An `Error` with its message and frame, an error that errors.New made, and an error of package
-- frame or of the network.
pub data Failure : Type 0 where
  stomp_error : Bytes → Option Frame → Failure
  plain_error : Bytes → Failure
  frame_error : Base.Error → Failure

-- A value, or an error.
abbrev pub Attempt {ℓ} : Type ℓ → Type ℓ
Attempt A = ResultOf Failure A

unfoldable pub new_error_message : Bytes → Failure
new_error_message msg = stomp_error msg none

unfoldable pub missing_header : Bytes → Failure
unfolding new_error_message
missing_header name = new_error_message (codes "missing header: " ++ name)

unfoldable pub error_frame_message : Bytes → Bytes
error_frame_message [] = codes "ERROR frame, missing message header"
error_frame_message (c ∷ s) = c ∷ s

unfoldable pub new_error : Frame → Failure
unfolding error_frame_message get command_name
new_error f = elim f.command [
  | Command.error ↦ stomp_error (error_frame_message (get f.header Names.message)) (some f)
  | other ↦ stomp_error (codes "Unexpected frame: " ++ command_name other) (some f)
]

-- The constants of the package.
abbrev pub invalid_command : Failure
invalid_command = stomp_error (codes "invalid command") none

abbrev pub unsupported_version : Failure
unsupported_version = stomp_error (codes "unsupported version") none

abbrev pub completed_transaction : Failure
completed_transaction = stomp_error (codes "transaction is completed") none

abbrev pub nack_not_supported : Failure
nack_not_supported = stomp_error (codes "NACK not supported in STOMP 1.0") none

abbrev pub not_received_message : Failure
not_received_message = stomp_error (codes "cannot ack/nack a message, not from server") none

abbrev pub cannot_nack_auto_sub : Failure
cannot_nack_auto_sub = stomp_error (codes "cannot send NACK for a subscription with ack:auto") none

abbrev pub completed_subscription : Failure
completed_subscription = stomp_error (codes "subscription is unsubscribed") none

abbrev pub closed_unexpectedly : Failure
closed_unexpectedly = stomp_error (codes "connection closed unexpectedly") none

abbrev pub already_closed : Failure
already_closed = stomp_error (codes "connection already closed") none

abbrev pub msg_send_timeout : Failure
msg_send_timeout = stomp_error (codes "msg send timeout") none

abbrev pub msg_receipt_timeout : Failure
msg_receipt_timeout = stomp_error (codes "msg receipt timeout") none

abbrev pub disconnect_receipt_timeout : Failure
disconnect_receipt_timeout = stomp_error (codes "disconnect receipt timeout") none

abbrev pub unsubscribe_receipt_timeout : Failure
unsubscribe_receipt_timeout = stomp_error (codes "unsubscribe receipt timeout") none

abbrev pub nil_option : Failure
nil_option = stomp_error (codes "nil option") none
