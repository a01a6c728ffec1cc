-- ===== src/Client/Options/ConnOpt.antt =====
-- conn_options.go: the functions of `ConnOpt`.
use go_stomp.Base.{ℕ, Bytes, List, [], ◌∷◌, ◌++◌, ok, ◌>>=◌, true}
use go_stomp.Client.Options.{ConnOption}
use go_stomp.Client.Versions.{check_supported}
use go_stomp.Frame.Command.{Command}
use go_stomp.Frame.Header.{add}

abbrev pub login : Bytes → Bytes → ConnOption
login name passcode co = ok (record co { login = name; passcode = passcode })

abbrev pub host : Bytes → ConnOption
host name co = ok (record co { host = name })

abbrev pub use_stomp : ConnOption
use_stomp co = ok (record co { frame_command = Command.stomp })

-- The versions before one that is not supported are appended, but the error drops the options.
unfoldable pub accept_version : List Bytes → ConnOption
unfolding check_supported
accept_version [] co = ok co
accept_version (v ∷ vs) co = check_supported v >>= λ supported.
    accept_version vs (record co { accept_versions = co.accept_versions ++ v ∷ [] })

abbrev pub heart_beat : ℕ → ℕ → ConnOption
heart_beat send_timeout recv_timeout co =
    ok (record co { write_timeout = send_timeout; read_timeout = recv_timeout })

-- `NewHeader` makes the first entry, and `Add` appends to a header that is there.
unfoldable pub header : Bytes → Bytes → ConnOption
unfolding add
header key value co = ok (record co { header = add co.header key value })

abbrev pub with_stats : ConnOption
with_stats co = ok (record co { stats_enabled = true })

abbrev pub heart_beat_error : ℕ → ConnOption
heart_beat_error error_timeout co = ok (record co { heart_beat_error = error_timeout })

abbrev pub msg_send_timeout : ℕ → ConnOption
msg_send_timeout timeout co = ok (record co { msg_send_timeout = timeout })

abbrev pub rcv_receipt_timeout : ℕ → ConnOption
rcv_receipt_timeout timeout co = ok (record co { rcv_receipt_timeout = timeout })

abbrev pub disconnect_receipt_timeout : ℕ → ConnOption
disconnect_receipt_timeout timeout co = ok (record co { disconnect_receipt_timeout = timeout })

abbrev pub unsubscribe_receipt_timeout : ℕ → ConnOption
unsubscribe_receipt_timeout timeout co = ok (record co { unsubscribe_receipt_timeout = timeout })

abbrev pub read_channel_capacity : ℕ → ConnOption
read_channel_capacity capacity co = ok (record co { read_channel_capacity = capacity })

abbrev pub write_channel_capacity : ℕ → ConnOption
write_channel_capacity capacity co = ok (record co { write_channel_capacity = capacity })

abbrev pub read_buffer_size : ℕ → ConnOption
read_buffer_size size co = ok (record co { read_buffer_size = size })

abbrev pub write_buffer_size : ℕ → ConnOption
write_buffer_size size co = ok (record co { write_buffer_size = size })
