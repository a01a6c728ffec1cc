-- ===== src/Server/Conn/Handshake.antt =====
-- A handshake that succeeds.
use go_stomp.Base.{ℕ, ◌*◌, ◌≡◌, ◌≢◌, refl, [], ◌∷◌, ◌++◌, none, some, ok, arith, true, codes}
use go_stomp.Frame.Command.{Command}
use go_stomp.Frame.Data.{Frame, new}
use go_stomp.Frame.Header.{contains, get}
use go_stomp.Frame.HeartBeat.{millisecond}
use go_stomp.Frame.Names
use go_stomp.Std.Strconv.{format_uint}
use go_stomp.Server.Negotiation.{
  Version, v10, v11, v12, version_string, determine_version, get_heart_beat, as_milliseconds,
  max_heart_beat, apply_minimum,
}
use go_stomp.Server.Conn.{Config, connected, St, returned, send_immediately, write_link}
use go_stomp.Server.Conn.Handlers.{handle_connect, negotiate, finish_connect}
use go_stomp.Server.Objects.{connected_op}

-- The time between heart-beats that the server agrees to, in milliseconds, of that in a header.
abbrev pub agreed : Config → ℕ → ℕ
agreed config beat = apply_minimum (as_milliseconds config.heart_beat max_heart_beat) beat

-- The CONNECTED frame: the server promises what the client asks for, and asks for what it offers.
abbrev pub connected_frame : Config → Version → ℕ → ℕ → Frame
connected_frame config version cx cy = new Command.connected (
    (Names.version, version_string version)
    ∷ (Names.server, codes "stompd/x.y.z")
    ∷ (Names.heart_beat, format_uint (agreed config cy) ++ (b',' ∷ format_uint (agreed config cx)))
    ∷ [])

-- The connection after the handshake.
abbrev pub shaken : Config → Version → ℕ → ℕ → St → St
shaken config version cx cy s = record s {
  conn = record (s.conn) {
    version = some version;
    validator = some version;
    write_timeout = agreed config cy * millisecond;
    state_func = connected;
    link = record (s.conn.link) {
      written = s.conn.link.written ++ some (connected_frame config version cx cy) ∷ [];
    };
  };
  requests = s.requests ++ connected_op s.conn.address ∷ [];
}

-- The connection once a version is agreed on.
abbrev settled : Version → St → St
settled v s = record s { conn = record (s.conn) { version = some v; validator = some v } }

finish_connect-shaken :
    (config : Config) (v : Version) (s : St) {cx cy : ℕ}
    → s.conn.link.room ≡ none
    → get_heart_beat s.frame ≡ ok (cx, cy)
    → finish_connect config v (settled v s) ≡ returned tt (shaken config v cx cy s)
unfolding finish_connect send_immediately write_link
finish_connect-shaken config v s r h = rw (h, r)

negotiate-shaken :
    (config : Config) (v : Version) (s : St) {cx cy : ℕ}
    → v ≢ v10
    → s.conn.link.room ≡ none
    → get_heart_beat s.frame ≡ ok (cx, cy)
    → negotiate config (ok v) s ≡ returned tt (shaken config v cx cy s)
unfolding negotiate
negotiate-shaken config v10 s n r h = absurd (n refl)
negotiate-shaken config v11 s n r h = finish_connect-shaken config v11 s r h
negotiate-shaken config v12 s n r h = finish_connect-shaken config v12 s r h

-- A CONNECT frame with no receipt header that is authenticated, whose version is agreed on and is
-- not 1.0, and whose heart-beats are well-formed, makes the connection connected, if the network
-- takes the CONNECTED frame: that frame names the version and the heart-beats, the time between the
-- server's heart-beats is the one promised in it, and the upper layer is told once.
pub handle_connect-shaken :
    (config : Config) (v : Version) (s : St) {cx cy : ℕ}
    → contains s.frame.header Names.receipt ≡ none
    → config.authenticate (get s.frame.header Names.login) (get s.frame.header Names.passcode)
      ≡ true
    → determine_version s.frame ≡ ok v
    → v ≢ v10
    → get_heart_beat s.frame ≡ ok (cx, cy)
    → s.conn.link.room ≡ none
    → handle_connect config s ≡ returned tt (shaken config v cx cy s)
unfolding handle_connect
handle_connect-shaken config v s c a d n h r =
    ground (arith, c, a, d, negotiate-shaken config v s n r h)
