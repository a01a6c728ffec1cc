-- ===== src/Client/Dial.antt =====
-- conn.go: `DialWithContext`, `Dial` and `Connect`. The network is an argument: what net.Dial returns, and
-- what net.SplitHostPort makes of the remote address.
use go_stomp.Base.{Bytes, Bool, true, Option, none, some, List, ◌∷◌, ok, err, Error}
use go_stomp.Client.Conn.{Conn}
use go_stomp.Client.Connect.{connect}
use go_stomp.Client.Errors.{Attempt}
use go_stomp.Client.Options.{ConnOption}
use go_stomp.Client.Options.ConnOpt
use go_stomp.Frame.Reader.{Chunks}
use go_stomp.Frame.Writer.{Sink}

-- A network connection: what it was sent, what it delivers, and whether it is closed.
pub record Network : Type 0 where
  pub sink : Sink
  pub input : Chunks
  pub closed : Bool

-- `Connect` on a connection whose remote host is `remote`, `none` if it is no net.Conn.
unfoldable pub connect_network :
    (Error → Bytes)
    → Option Bytes
    → List (Option ConnOption)
    → Error
    → Network
    → Network × Attempt (Conn × Chunks)
unfolding connect
connect_network error_text remote opts fault n =
    let (sink, result) = connect error_text remote opts fault n.sink n.input in
    (record n { sink = sink }, result)

-- The network connection, if one was made, and the result.
unfoldable pub dial :
    (Error → Bytes)
    → Attempt Network
    → Attempt Bytes
    → List (Option ConnOption)
    → Error
    → Option Network × Attempt (Conn × Chunks)
unfolding connect_network
dial error_text (err e) host opts fault = (none, err e)
dial error_text (ok n) (err e) opts fault = (some (record n { closed = true }), err e)
dial error_text (ok n) (ok host) opts fault =
    let (n', result) =
      connect_network error_text (some host) (some (ConnOpt.host host) ∷ opts) fault n in
    (some n', result)
