-- ===== src/Server/Conn/Connecting.antt =====
-- server/client/conn.go: receipts, and the handler of CONNECT and STOMP frames.
use go_stomp.Base.{
  ◌*◌, Bytes, none, some, [], ◌∷◌, ◌++◌, Result, ok, err, receipt_in_connect, authentication_failed,
  unsupported_version, if◌then◌else◌, codes,
}
use go_stomp.Frame.Command.{Command}
use go_stomp.Frame.Data.{new}
use go_stomp.Frame.Header.{contains, get, del}
use go_stomp.Frame.HeartBeat.{millisecond}
use go_stomp.Frame.Names
use go_stomp.Std.Strconv.{format_uint}
use go_stomp.Server.Conn.{
  Config, connected, M, ◌>>=◌, ◌>>◌, pure, fail, ignore, get_conn, put_conn, get_frame, put_frame,
  request, from_result, send_immediately,
}
use go_stomp.Server.Negotiation.{
  Version, v10, version_string, determine_version, get_heart_beat, as_milliseconds, max_heart_beat,
  apply_minimum,
}
use go_stomp.Server.Objects.{connected_op}

-- `sendReceiptImmediately`.
unfoldable pub send_receipt_immediately : M (Unit {0})
unfolding send_immediately new contains del
send_receipt_immediately = do
  f ← get_frame
  elim (contains f.header Names.receipt) [
    | some receipt ↦ do
      put_frame (record f { header = del f.header Names.receipt })
      send_immediately (some (new Command.receipt ((Names.receipt_id, receipt) ∷ [])))
    | none ↦ pure tt
  ]

abbrev pub server_name : Bytes
server_name = codes "stompd/x.y.z"

-- `handleConnect` once a version is agreed on.
unfoldable pub finish_connect : Config → Version → M (Unit {0})
unfolding new send_immediately get_heart_beat as_milliseconds apply_minimum version_string
finish_connect config version = do
  f ← get_frame
  (cx, cy) ← from_result (get_heart_beat f)
  let min = as_milliseconds config.heart_beat max_heart_beat
  let cx' = apply_minimum min cx
  let cy' = apply_minimum min cy
  c ← get_conn
  put_conn (record c { write_timeout = cy' * millisecond })
  ignore (
      send_immediately (
        some (
          new Command.connected (
            (Names.version, version_string version)
            ∷ (Names.server, server_name)
            ∷ (Names.heart_beat, format_uint cy' ++ (b',' ∷ format_uint cx'))
            ∷ []))))
  c' ← get_conn
  put_conn (record c' { state_func = connected })
  request (connected_op c'.address)

unfoldable pub negotiate : Config → Result Version → M (Unit {0})
unfolding finish_connect
negotiate config (err e) = do c ← get_conn; put_conn (record c { version = none }); fail e
negotiate config (ok version) = do
  c ← get_conn
  put_conn (record c { version = some version; validator = some version })
  elim version [ v10 ↦ fail unsupported_version | other ↦ finish_connect config other ]

unfoldable pub handle_connect : Config → M (Unit {0})
unfolding negotiate contains get determine_version
handle_connect config = do
  f ← get_frame
  elim (contains f.header Names.receipt) [
    | some receipt ↦ fail receipt_in_connect
    | none ↦
        if config.authenticate (get f.header Names.login) (get f.header Names.passcode)
        then negotiate config (determine_version f)
        else fail authentication_failed
  ]

unfoldable pub handle_disconnect : M (Unit {0})
unfolding send_receipt_immediately
handle_disconnect = ignore send_receipt_immediately
