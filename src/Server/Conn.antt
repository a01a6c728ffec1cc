-- ===== src/Server/Conn.antt =====
-- server/client/conn.go: the state of a connection, and what its handlers are written in.
pub mod Cleanup
pub mod Deferred
pub mod Connecting
pub mod Handlers
pub mod Disconnect
pub mod Handshake
pub mod Numbering
pub mod ReadLoop
pub mod Replay
pub mod States
pub mod Transactions
pub mod MessageIds
pub mod Loop
use go_stomp.Base.{
  ℕ, zero, suc, Bytes, Bool, true, false, Option, none, some, List, [], ◌∷◌, ◌++◌, Result, ok, err,
  Error, link_fault, Dict,
}
use go_stomp.Frame.Data.{Frame}
pub use go_stomp.Frame.Link.{Link}
unfoldable pub use go_stomp.Frame.Link.{write_link}
use go_stomp.Server.Negotiation.{Version}
use go_stomp.Server.Objects.{Heap, Request, Outcome, done, panicked, Panic}
use go_stomp.Server.TxStore.{TxStore}

-- server/client/config.go, and the texts of errors that the package does not write itself.
pub record Config : Type 0 where
  pub authenticate : Bytes → Bytes → Bool
  pub heart_beat : ℕ
  pub library_text : Error → Bytes

-- `stateFunc`.
pub data StateFunc : Type 0 where
  connecting connected : StateFunc

-- The channels are not part of the state: Loop takes what is received as an argument, and what is
-- sent to the request processor is in `St`.
pub record Conn : Type 0 where
  pub address : ℕ
  pub link : Link
  pub state_func : StateFunc
  pub write_timeout : ℕ
  pub version : Option Version
  pub validator : Option Version
  pub tx_store : TxStore
  pub last_msg_id : ℕ
  pub sub_list : List ℕ
  pub subs : Dict ℕ

-- `NewConn`, with the writer and the state function that the process loop sets first.
unfoldable pub new_conn : ℕ → Link → Conn
new_conn address link = record {
  address = address;
  link = link;
  state_func = connecting;
  write_timeout = 0;
  version = none;
  validator = none;
  tx_store = [];
  last_msg_id = 0;
  sub_list = [];
  subs = [];
}

-- What a handler works on: the connection, the subscriptions, the frame that it was called with,
-- and the requests sent so far.
pub record St : Type 0 where
  pub conn : Conn
  pub heap : Heap
  pub frame : Frame
  pub requests : List Request

-- A handler returns, or returns an error, or panics. What it changed stays changed on an error.
pub data Exec (A : Type 0) : Type 0 where
  returned : A → St → Exec A
  failed : Error → St → Exec A
  crashed : Panic → Exec A

abbrev pub M : Type 0 → Type 0
M A = St → Exec A

infixl 5 ◌>>=◌ ◌>>◌
abbrev pub ◌>>=◌ : {A B : Type 0} → M A → (A → M B) → M B
◌>>=◌ m f s = elim (m s) [ returned a t ↦ f a t | failed e t ↦ failed e t | crashed p ↦ crashed p ]

abbrev pub ◌>>◌ : {B : Type 0} → M (Unit {0}) → M B → M B
m >> k = m >>= λ _. k

abbrev pub pure : {A : Type 0} → A → M A
pure a s = returned a s

-- `return err`.
abbrev pub fail : {A : Type 0} → Error → M A
fail e s = failed e s

-- `_ = f()`.
abbrev pub ignore : M (Unit {0}) → M (Unit {0})
ignore m s = elim (m s) [
  | returned a t ↦ returned tt t
  | failed e t ↦ returned tt t
  | crashed p ↦ crashed p
]

abbrev pub get_conn : M Conn
get_conn s = returned s.conn s

abbrev pub put_conn : Conn → M (Unit {0})
put_conn c s = returned tt (record s { conn = c })

abbrev pub get_frame : M Frame
get_frame s = returned s.frame s

abbrev pub put_frame : Frame → M (Unit {0})
put_frame f s = returned tt (record s { frame = f })

abbrev pub get_heap : M Heap
get_heap s = returned s.heap s

abbrev pub put_heap : Heap → M (Unit {0})
put_heap h s = returned tt (record s { heap = h })

-- `c.requestChannel <- r`.
abbrev pub request : Request → M (Unit {0})
request r s = returned tt (record s { requests = s.requests ++ r ∷ [] })

abbrev pub request_all : List Request → M (Unit {0})
request_all rs s = returned tt (record s { requests = s.requests ++ rs })

abbrev pub from_result : {A : Type 0} → Result A → M A
from_result (ok a) s = returned a s
from_result (err e) s = failed e s

abbrev pub from_outcome : {A : Type 0} → Outcome A → M A
from_outcome (done a) s = returned a s
from_outcome (panicked p) s = crashed p

-- A header that must be there, or the error for it.
abbrev pub or_fail : {A : Type 0} → Option A → Error → M A
or_fail none e s = failed e s
or_fail (some a) e s = returned a s

unfoldable pub send_immediately : Option Frame → M (Unit {0})
unfolding write_link
send_immediately f s = elim (write_link f s.conn.link) [
  | some l ↦ returned tt (record s { conn = record (s.conn) { link = l } })
  | none ↦ failed link_fault s
]
