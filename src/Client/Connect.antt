-- ===== src/Client/Connect.antt =====
-- conn.go: `ConnectWithContext`, over a connection that `Frame/Writer` and `Frame/Reader` describe.
-- The sizes of channels and buffers, the deadline of the context and the callback for the response's
-- headers are left out: they change no result.
pub mod Handshake
use go_stomp.Base.{
  ℕ, ◌+◌, ◌-◌, ◌≡◌, Bytes, Bool, true, false, Option, none, some, List, [], ◌∷◌, ◌++◌, ResultOf,
  Result, ok, err, Error, link_fault, ◌>>=◌, ◌>>◌, codes, if◌then◌else◌, ltb,
}
use go_stomp.Client.Conn.{Conn}
use go_stomp.Client.Errors.{Failure, stomp_error, plain_error, frame_error, Attempt, new_error}
use go_stomp.Client.Options.{ConnOptions, ConnOption, new_conn_options, new_frame, is_empty}
use go_stomp.Client.Versions.{check_supported}
use go_stomp.Frame.Command.{Command}
use go_stomp.Frame.Data.{Frame}
use go_stomp.Frame.Header.{Header, contains, get}
use go_stomp.Frame.HeartBeat.{parse_heart_beat}
use go_stomp.Frame.Names
use go_stomp.Frame.Reader.{Chunks, read}
use go_stomp.Frame.Writer.{Sink, write}
use go_stomp.Std.Strconv.{max_int64}
use go_stomp.Server.Negotiation.{Version, v10}

-- The version that the response names, or 1.0; an error carries the response.
unfoldable pub response_version : Frame → Attempt Version
unfolding get check_supported
response_version response = elim (get response.header Names.version) [
  | [] ↦ ok v10
  | c ∷ s ↦ elim (check_supported (c ∷ s)) [
    | ok v ↦ ok v
    | err (stomp_error message f) ↦ err (stomp_error message (some response))
    | err e ↦ err e
  ]
]

-- The option's host, or that of the network connection where there is one, or "default".
unfoldable pub with_host : Option Bytes → ConnOptions → ConnOptions
with_host remote options =
    if is_empty options.host
    then elim remote [
      | some [] ↦ record options { host = codes "default" }
      | some (c ∷ s) ↦ record options { host = c ∷ s }
      | none ↦ record options { host = codes "default" }
    ]
    else options

-- `+=` on an int64: a sum that is too great is negative, and a timeout that is not positive is
-- none, for which 0 stands.
abbrev pub add_duration : ℕ → ℕ → ℕ
add_duration a b = if ltb max_int64 (a + b) then 0 else a + b

module _ (error_text : Error → Bytes) where
  -- The read and write timeouts that the response leads to, of `ParseHeartBeat`'s two values: the
  -- read timeout is at least the option's, with time added for the network, and the write timeout
  -- has that time taken off where it is longer. `error_text` is `Error()` of package frame.
  unfoldable pub response_timeouts : ConnOptions → Frame → Attempt (ℕ × ℕ)
  response_timeouts options response = elim (contains response.header Names.heart_beat) [
    | none ↦ ok (0, 0)
    | some heart_beat ↦ elim (parse_heart_beat heart_beat) [
      | err e ↦ err (stomp_error (error_text e) (some response))
      | ok (first, write) ↦
          let read = if ltb first options.read_timeout then options.read_timeout else first in
          ok (
            if ltb 0 read then add_duration read options.heart_beat_error else read,
            if ltb options.heart_beat_error write then write - options.heart_beat_error else write,
          )
    ]
  ]

  unfoldable pub make_conn : ConnOptions → Frame → Attempt Conn
  make_conn options response = do
    version ← response_version response
    (read_timeout, write_timeout) ← response_timeouts options response
    ok (record {
      version = version;
      session = get response.header Names.session;
      server = get response.header Names.server;
      read_timeout = read_timeout;
      write_timeout = write_timeout;
      msg_send_timeout = options.msg_send_timeout;
      rcv_receipt_timeout = options.rcv_receipt_timeout;
      disconnect_receipt_timeout = options.disconnect_receipt_timeout;
      unsubscribe_receipt_timeout = options.unsubscribe_receipt_timeout;
      stats_enabled = options.stats_enabled;
      writes_sent = 0;
      closed = false;
      write_requests = [];
      write_closed = false;
      link_closed = false;
    })

  -- What the response, a frame or a heart-beat, leads to.
  unfoldable pub accept_response : ConnOptions → Option Frame → Attempt Conn
  unfolding make_conn
  accept_response options none = err (plain_error (codes "unexpected empty frame"))
  accept_response options (some response) = elim response.command [
    | Command.connected ↦ make_conn options response
    | other ↦ err (new_error response)
  ]

  unfoldable pub receive_response : Error → ConnOptions → Chunks → Attempt (Conn × Chunks)
  unfolding read accept_response
  receive_response fault options input = elim (read fault input) [
    | err e ↦ err (frame_error e)
    | ok (response, rest) ↦ do c ← accept_response options response; ok (c, rest)
  ]

  -- `ConnectWithContext`: what the server gets, and the connection with the input that is left.
  unfoldable pub connect :
      Option Bytes
      → List (Option ConnOption)
      → Error
      → Sink
      → Chunks
      → Sink × Attempt (Conn × Chunks)
  unfolding new_conn_options with_host new_frame write receive_response
  connect remote opts fault sink input = elim (new_conn_options opts) [
    | err e ↦ (sink, err e)
    | ok options ↦
        let options' = with_host remote options in
        let (sink', fine) = write (some (new_frame options')) sink in
        if fine
        then (sink', receive_response fault options' input)
        else (sink', err (frame_error link_fault))
  ]
