-- ===== src/Server/Listen.antt =====
-- server/server.go, and `newRequestProcessor`, `Listen` and `config` of server/processor.go. The logger
-- is left out. What `Accept` and net.Listen give is an argument.
pub mod Backoff
use go_stomp.Base.{
  ℕ, zero, suc, ◌+◌, ◌-◌, ◌*◌, ◌%◌, ◌^◌, ◌≡◌, ◌≢◌, refl, sym, ap, ◌∙◌, Bytes, Bool, true, false,
  not, ◌&&◌, ◌||◌, Option, none, some, List, [], ◌∷◌, ◌++◌, map, ok, err, ResultOf, codes, str_eq,
  if◌then◌else◌, take, drop, length, ltb, ◌==◌, arith, append_assoc, append-nil, All, Error,
}
use go_stomp.Frame.HeartBeat.{millisecond}
use go_stomp.Server.Conn.{Config}
use go_stomp.Server.Storage.{Storage}
use go_stomp.Server.Storage.Memory.{memory_storage}

-- `DefaultAddr` and `DefaultHeartBeat`.
abbrev pub default_addr : Bytes
default_addr = codes ":61613"

abbrev pub default_heart_beat : ℕ
default_heart_beat = 60000 * millisecond

-- `Server`; `none` stands for a nil interface.
pub record Server : Type 1 where
  pub addr : Bytes
  pub authenticator : Option (Bytes → Bytes → Bool)
  pub queue_storage : Option Storage
  pub heart_beat : ℕ

-- The methods of `config`.
unfoldable pub config_heart_beat : Server → ℕ
config_heart_beat s = if s.heart_beat == 0 then default_heart_beat else s.heart_beat

unfoldable pub config_authenticate : Server → Bytes → Bytes → Bool
config_authenticate s login passcode = elim s.authenticator [
  | none ↦ true
  | some authenticate ↦ authenticate login passcode
]

-- `newConfig`, with the texts of the errors that other packages word.
unfoldable pub new_config : (Error → Bytes) → Server → Config
unfolding config_heart_beat config_authenticate
new_config library_text s = record {
  authenticate = config_authenticate s;
  heart_beat = config_heart_beat s;
  library_text = library_text;
}

-- The storage that `newRequestProcessor` gives the queues.
unfoldable pub queue_storage_of : Server → Storage
queue_storage_of s = elim s.queue_storage [ none ↦ memory_storage | some st ↦ st ]

-- The address that `ListenAndServe` listens on.
unfoldable pub listen_addr : Server → Bytes
listen_addr s = elim s.addr [ [] ↦ default_addr | c ∷ addr ↦ c ∷ addr ]

-- What `Accept` returns: a connection, named by a number, a temporary error or another.
pub data Accept : Type 0 where
  accepted : ℕ → Accept
  temporary failed : Accept

-- What `Listen` does: it serves a connection, or sleeps.
pub data ListenAct : Type 0 where
  new_conn : ℕ → ListenAct
  slept : ℕ → ListenAct

-- The next `timeout` at a temporary error.
unfoldable pub next_timeout : ℕ → ℕ
next_timeout timeout =
    let t = if timeout == 0 then 5 * millisecond else timeout * 2 in
    if ltb (5000 * millisecond) t then 5000 * millisecond else t

unfoldable pub listen : List Accept → ℕ → List ListenAct
unfolding next_timeout
listen [] timeout = []
listen (accepted c ∷ rest) timeout = new_conn c ∷ listen rest 0
listen (temporary ∷ rest) timeout =
    slept (next_timeout timeout) ∷ listen rest (next_timeout timeout)
listen (failed ∷ rest) timeout = []

-- `ListenAndServe`: the error of net.Listen, or what `Listen` does with the listener.
unfoldable pub listen_and_serve :
    (Bytes → ResultOf Error (List Accept)) → Server → ResultOf Error (List ListenAct)
unfolding listen_addr listen
listen_and_serve net_listen s = elim (net_listen (listen_addr s)) [
  | err e ↦ err e
  | ok l ↦ ok (listen l 0)
]
