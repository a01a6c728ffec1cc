-- ===== src/Client/Connect/Handshake.antt =====
-- The handshake of the client with the server of this repository.
use go_stomp.Base.{
  false, ℕ, ◌*◌, ◌/◌, ◌≤◌, ◌≡◌, refl, sym, ap, ◌∙◌, Bytes, true, some, none, [], ◌∷◌, ok, ◌⊎◌,
  codes, arith, ◌^◌, if◌then◌else◌, ltb, ◌-◌, ◌++◌, Error, str_eq,
}
use go_stomp.Client.Conn.{Conn}
use go_stomp.Client.Connect.{add_duration, accept_response, response_timeouts, response_version}
use go_stomp.Client.Options.{ConnOptions, new_frame}
use go_stomp.Client.Options.NewFrame.{
  new_frame-receipt, new_frame-heart_beat, new_frame-accept_version, new_frame-login,
}
use go_stomp.Frame.Command.{Command}
use go_stomp.Frame.Data.{Frame, new}
use go_stomp.Frame.Header.{contains, get, add}
use go_stomp.Frame.HeartBeat.{millisecond}
use go_stomp.Frame.HeartBeat.Range.{parse_heart_beat-format_uint}
use go_stomp.Frame.Names
use go_stomp.Server.Conn.{Config, St, returned}
use go_stomp.Server.Conn.Handlers.{handle_connect}
use go_stomp.Server.Conn.Handshake.{agreed, connected_frame, shaken, handle_connect-shaken}
use go_stomp.Server.Negotiation.{
  v12, determine_version, get_heart_beat, max_heart_beat, as_milliseconds, apply_minimum,
  version_string,
}
use go_stomp.Server.Negotiation.Laws.{determine_version-best, get_heart_beat-format_uint}
use go_stomp.Std.Strconv.{format_uint}
use go_stomp.Std.Strings.{split, join}
use go_stomp.Std.Strings.Sort.{mem}

-- The options of a client that asks for any version, and whose own header entries leave the
-- handshake alone.
pub record IsPlainClient (co : ConnOptions) : Type 0 where
  pub command : (co.frame_command ≡ Command.connect) ⊎ (co.frame_command ≡ Command.stomp)
  pub versions : co.accept_versions ≡ codes "1.0" ∷ codes "1.1" ∷ codes "1.2" ∷ []
  pub receipt : contains co.header Names.receipt ≡ none
  pub login : contains co.header Names.login ≡ none
  pub passcode : contains co.header Names.passcode ≡ none
  pub sends : co.write_timeout / millisecond ≤ max_heart_beat
  pub receives : co.read_timeout / millisecond ≤ max_heart_beat

module _ (co : ConnOptions) (plain : IsPlainClient co) where
  open plain use {command, versions, receipt, login, passcode, sends, receives}

  command_lem :
      ((new_frame co).command ≡ Command.connect) ⊎ ((new_frame co).command ≡ Command.stomp)
  unfolding new_frame
  command_lem = command

  determine_version-new_frame : determine_version (new_frame co) ≡ ok v12
  unfolding join split mem str_eq
  determine_version-new_frame =
      determine_version-best (new_frame co) (codes "1.0,1.1,1.2") command_lem
        (new_frame-accept_version co ∙ ap (λ l. some (join b',' l)) versions)

  get_heart_beat-new_frame :
      get_heart_beat (new_frame co)
      ≡ ok (co.write_timeout / millisecond, co.read_timeout / millisecond)
  unfolding new_frame
  get_heart_beat-new_frame =
      get_heart_beat-format_uint (new_frame co) (co.write_timeout / millisecond)
        (co.read_timeout / millisecond) (ground (arith, command)) (new_frame-heart_beat co)
      ∙ ground arith

  -- The server accepts the CONNECT frame of such a client, if it authenticates the login and the
  -- passcode, and chooses version 1.2.
  pub handle_connect-new_frame :
      (config : Config) (s : St)
      → s.frame ≡ new_frame co
      → s.conn.link.room ≡ none
      → config.authenticate co.login co.passcode ≡ true
      → handle_connect config s
        ≡ returned tt
            (shaken config v12 (co.write_timeout / millisecond) (co.read_timeout / millisecond) s)
  handle_connect-new_frame config s f r a =
      let names = new_frame-login co login passcode in
      handle_connect-shaken config v12 s
        (ap (λ g. contains g.header Names.receipt) f ∙ new_frame-receipt co receipt)
        ((λ i. config.authenticate (get (f i).header Names.login) (get (f i).header Names.passcode))
          ∙ (λ i. config.authenticate (names.0 i) (names.1 i))
          ∙ a)
        (ap determine_version f ∙ determine_version-new_frame) (λ e. cc)
        (ap get_heart_beat f ∙ get_heart_beat-new_frame) r

agreed-le : (config : Config) (n : ℕ) → n ≤ max_heart_beat → agreed config n ≤ max_heart_beat
unfolding apply_minimum as_milliseconds
agreed-le config n h = ground arith

-- The longest of the timeouts for which the server's promise leaves room.
abbrev read_limit : ConnOptions → ℕ → ℕ
read_limit co promised = if ltb promised co.read_timeout then co.read_timeout else promised

module _ (error_text : Error → Bytes) (config : Config) (co : ConnOptions) (cx cy : ℕ) where
  abbrev promised : ℕ
  promised = agreed config cy * millisecond

  abbrev expected : ℕ
  expected = agreed config cx * millisecond

  abbrev read_for : ℕ
  read_for =
      if ltb 0 (read_limit co promised)
      then add_duration (read_limit co promised) co.heart_beat_error
      else read_limit co promised

  abbrev write_for : ℕ
  write_for = if ltb co.heart_beat_error expected then expected - co.heart_beat_error else expected

  contains-connected_frame :
      contains (connected_frame config v12 cx cy).header Names.heart_beat
      ≡ some (format_uint (agreed config cy) ++ (b',' ∷ format_uint (agreed config cx)))
  unfolding contains new add str_eq
  contains-connected_frame = refl

  response_timeouts-connected :
      cx ≤ max_heart_beat
      → cy ≤ max_heart_beat
      → response_timeouts error_text co (connected_frame config v12 cx cy)
        ≡ ok (read_for, write_for)
  unfolding response_timeouts
  response_timeouts-connected x y = ground (
    arith,
    contains-connected_frame,
    agreed-le config cx x,
    agreed-le config cy y,
    parse_heart_beat-format_uint (agreed config cy) (agreed config cx),
  )

  response_version-connected : response_version (connected_frame config v12 cx cy) ≡ ok v12
  unfolding response_version contains new add str_eq version_string
  response_version-connected = refl

-- What the client makes of the server's answer.
pub accept_response-connected :
    (error_text : Error → Bytes) (config : Config) (co : ConnOptions) (cx cy : ℕ)
    → cx ≤ max_heart_beat
    → cy ≤ max_heart_beat
    → co.read_timeout / millisecond ≤ max_heart_beat
    → co.heart_beat_error ≤ 2 ^ 62
    → (c : Conn) × (accept_response error_text co (some (connected_frame config v12 cx cy)) ≡ ok c)
      × (c.version ≡ v12)
      × (c.write_timeout ≤ agreed config cx * millisecond)
      × (agreed config cy * millisecond ≤ c.read_timeout)
unfolding accept_response new
accept_response-connected error_text config co cx cy x y r e = (
  record {
    version = v12;
    session = get (connected_frame config v12 cx cy).header Names.session;
    server = get (connected_frame config v12 cx cy).header Names.server;
    read_timeout = read_for error_text config co cx cy;
    write_timeout = write_for error_text config co cx cy;
    msg_send_timeout = co.msg_send_timeout;
    rcv_receipt_timeout = co.rcv_receipt_timeout;
    disconnect_receipt_timeout = co.disconnect_receipt_timeout;
    unsubscribe_receipt_timeout = co.unsubscribe_receipt_timeout;
    stats_enabled = co.stats_enabled;
    writes_sent = 0;
    closed = false;
    write_requests = [];
    write_closed = false;
    link_closed = false;
  },
  ground (
    arith,
    response_version-connected error_text config co cx cy,
    response_timeouts-connected error_text config co cx cy x y,
  ),
  refl,
  ground arith,
  ground (arith, agreed-le config cy y),
)

-- A client that asks for any version, and whose own header entries leave the handshake alone, and
-- the server of this repository agree on version 1.2, if the server authenticates the client and
-- the network takes its frames: the server answers the CONNECT frame with one frame, which the
-- client accepts. The client's read and write timeouts are at most 999,999,999 whole milliseconds.
-- The client waits for the server's heart-beats no shorter than the server's own timeout, and sends
-- its own at intervals no longer than the server was told to expect. The time added for the network
-- is at most 2^62 nanoseconds.
pub handshake-agrees :
    (error_text : Error → Bytes) (config : Config) (co : ConnOptions) (s : St)
    → IsPlainClient co
    → co.heart_beat_error ≤ 2 ^ 62
    → s.frame ≡ new_frame co
    → s.conn.link.room ≡ none
    → config.authenticate co.login co.passcode ≡ true
    → (t : St) × (f : Frame) × (c : Conn) × (handle_connect config s ≡ returned tt t)
      × (t.conn.link.written ≡ s.conn.link.written ++ some f ∷ [])
      × (accept_response error_text co (some f) ≡ ok c)
      × (t.conn.version ≡ some c.version)
      × (c.version ≡ v12)
      × (t.conn.write_timeout ≤ c.read_timeout)
      × (c.write_timeout ≤ agreed config (co.write_timeout / millisecond) * millisecond)
handshake-agrees error_text config co s plain e f r a =
    let cx = co.write_timeout / millisecond in
    let cy = co.read_timeout / millisecond in
    let (c, accepted, v, w, reads) =
      accept_response-connected error_text config co cx cy plain.sends plain.receives plain.receives
        e in
    (
      shaken config v12 cx cy s,
      connected_frame config v12 cx cy,
      c,
      handle_connect-new_frame co plain config s f r a,
      refl,
      accepted,
      ap some (sym v),
      v,
      reads,
      w,
    )
