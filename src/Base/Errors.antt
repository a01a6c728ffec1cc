-- ===== src/Base/Errors.antt =====
-- Go's `(value, error)` results, and every error value of the modelled packages.
use go_stomp.Base.Text.{Bytes}

-- The errors of frame/errors.go, frame/reader.go and server/client/errors.go, those of
-- strconv.ParseUint and ParseInt, and those of the network connection.
pub data Error : Type 0 where
  invalid_command invalid_frame_format invalid_heart_beat : Error
  number_syntax number_range : Error
  eof link_fault : Error
  not_connected unexpected_command unknown_command receipt_in_connect : Error
  authentication_failed tx_already_in_progress tx_unknown unsupported_version : Error
  subscription_exists subscription_not_found unknown_version not_connect_frame : Error
  invalid_heart_beat_format invalid_operation_for_frame : Error
  missing_header : Bytes → Error

-- A value and a nil error, or an error of the type `E` that is not nil.
pub data ResultOf {ℓ} (E : Type 0) (A : Type ℓ) : Type ℓ where
  err : E → ResultOf E A
  ok : A → ResultOf E A

abbrev pub Result {ℓ} : Type ℓ → Type ℓ
Result A = ResultOf Error A

-- `if err != nil { return err }` between two calls.
infixl 5 ◌>>=◌
abbrev pub ◌>>=◌ {ℓ κ} :
    {E : Type 0} {A : Type ℓ} {B : Type κ} → ResultOf E A → (A → ResultOf E B) → ResultOf E B
err e >>= k = err e
ok value >>= k = k value

infixl 5 ◌>>◌
abbrev pub ◌>>◌ {ℓ} :
    {E : Type 0} {B : Type ℓ} → ResultOf E (Unit {0}) → ResultOf E B → ResultOf E B
first >> second = first >>= λ _. second
