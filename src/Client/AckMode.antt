-- ===== src/Client/AckMode.antt =====
-- ack.go: the acknowledgement mode of a subscription. The source's type is an int; on a value other
-- than the three constants both methods panic.
use go_stomp.Base.{Bytes, Bool, true, false}
use go_stomp.Frame.Names

pub data Mode : Type 0 where
  auto client client_individual : Mode

unfoldable pub mode_string : Mode → Bytes
mode_string auto = Names.ack_auto
mode_string client = Names.ack_client
mode_string client_individual = Names.ack_client_individual

unfoldable pub mode_should_ack : Mode → Bool
mode_should_ack auto = false
mode_should_ack client = true
mode_should_ack client_individual = true
