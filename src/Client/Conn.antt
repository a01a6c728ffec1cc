-- ===== src/Client/Conn.antt =====
-- conn.go: the state of a client connection that its methods share.
use go_stomp.Base.{ℕ, Bytes, Bool, Option, List}
use go_stomp.Frame.Data.{Frame}
use go_stomp.Server.Negotiation.{Version}

-- `writeRequest`. A channel is named by a number; a request with no channel has the nil one.
pub record WriteRequest : Type 0 where
  pub frame : Frame
  pub channel : Option ℕ

-- `Conn`. `closed` is its flag; `write_requests` is what was sent on `writeCh`, `write_closed` says
-- that this channel is closed, and `link_closed` that the network connection is.
pub record Conn : Type 0 where
  pub version : Version
  pub session : Bytes
  pub server : Bytes
  pub read_timeout : ℕ
  pub write_timeout : ℕ
  pub msg_send_timeout : ℕ
  pub rcv_receipt_timeout : ℕ
  pub disconnect_receipt_timeout : ℕ
  pub unsubscribe_receipt_timeout : ℕ
  pub stats_enabled : Bool
  pub writes_sent : ℕ
  pub closed : Bool
  pub write_requests : List WriteRequest
  pub write_closed : Bool
  pub link_closed : Bool
