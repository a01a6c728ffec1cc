-- ===== src/Client/Options.antt =====
-- conn_options.go. A time.Duration is a number of nanoseconds that is not negative here. The
-- multiplier of the grace period and the logger are left out: the one only scales a timer.
pub mod ConnOpt
pub mod NewFrame
use go_stomp.Base.{
  ℕ, ◌/◌, ◌*◌, Bytes, Bool, true, false, ◌||◌, Option, none, some, List, [], ◌∷◌, ◌++◌, ok, err,
  ◌>>=◌, ◌>>◌, codes, if◌then◌else◌, str_eq, not,
}
use go_stomp.Client.Errors.{Attempt}
use go_stomp.Client.Versions.{check_supported}
use go_stomp.Frame.Command.{Command}
use go_stomp.Frame.Data.{Frame, new}
use go_stomp.Frame.Header.{Header, set, add, add_header, new_header}
use go_stomp.Frame.HeartBeat.{millisecond}
use go_stomp.Frame.Names
use go_stomp.Std.Strconv.{format_uint}
use go_stomp.Std.Strings.{join}

abbrev pub second : ℕ
second = 1000 * millisecond

-- `connOptions`, and `statsEnabled` of the connection, which an option sets too.
pub record ConnOptions : Type 0 where
  pub frame_command : Command
  pub host : Bytes
  pub read_timeout : ℕ
  pub write_timeout : ℕ
  pub heart_beat_error : ℕ
  pub msg_send_timeout : ℕ
  pub rcv_receipt_timeout : ℕ
  pub disconnect_receipt_timeout : ℕ
  pub unsubscribe_receipt_timeout : ℕ
  pub login : Bytes
  pub passcode : Bytes
  pub accept_versions : List Bytes
  pub header : Header
  pub read_channel_capacity : ℕ
  pub write_channel_capacity : ℕ
  pub read_buffer_size : ℕ
  pub write_buffer_size : ℕ
  pub stats_enabled : Bool

abbrev pub default_options : ConnOptions
default_options = record {
  frame_command = Command.connect;
  host = [];
  read_timeout = 60 * second;
  write_timeout = 60 * second;
  heart_beat_error = 5 * second;
  msg_send_timeout = 10 * second;
  rcv_receipt_timeout = 30 * second;
  disconnect_receipt_timeout = 30 * second;
  unsubscribe_receipt_timeout = 30 * second;
  login = [];
  passcode = [];
  accept_versions = [];
  header = [];
  read_channel_capacity = 0;
  write_channel_capacity = 0;
  read_buffer_size = 0;
  write_buffer_size = 0;
  stats_enabled = false;
}

-- A `func(*Conn) error`.
abbrev pub ConnOption : Type 0
ConnOption = ConnOptions → Attempt ConnOptions

-- The loop of `newConnOptions`; a nil option is passed over.
unfoldable pub run_options : List (Option ConnOption) → ConnOption
run_options [] co = ok co
run_options (none ∷ opts) co = run_options opts co
run_options (some opt ∷ opts) co = opt co >>= λ co'. run_options opts co'

abbrev pub or_all_versions : List Bytes → List Bytes
or_all_versions [] = codes "1.0" ∷ codes "1.1" ∷ codes "1.2" ∷ []
or_all_versions (v ∷ vs) = v ∷ vs

unfoldable pub new_conn_options : List (Option ConnOption) → Attempt ConnOptions
unfolding run_options
new_conn_options opts = do
  co ← run_options opts default_options
  ok (record co { accept_versions = or_all_versions co.accept_versions })

abbrev pub is_empty : Bytes → Bool
is_empty [] = true
is_empty (c ∷ s) = false

-- `NewFrame`: the parts of the header, in the order of the source.
unfoldable pub host_header : ConnOptions → Header → Header
host_header co h = if is_empty co.host then h else set h Names.host co.host

unfoldable pub heart_beat_header : ConnOptions → Header → Header
heart_beat_header co h =
    let send = co.write_timeout / millisecond in
    let recv = co.read_timeout / millisecond in
    set h Names.heart_beat (format_uint send ++ (b',' ∷ format_uint recv))

unfoldable pub login_header : ConnOptions → Header → Header
login_header co h =
    if not (is_empty co.login) || not (is_empty co.passcode)
    then set (set h Names.login co.login) Names.passcode co.passcode
    else h

unfoldable pub new_frame : ConnOptions → Frame
unfolding new
new_frame co =
    let f = new co.frame_command [] in
    let h = login_header co (heart_beat_header co (host_header co f.header)) in
    let h' = set h Names.accept_version (join b',' co.accept_versions) in
    record f { header = add_header h' co.header }
