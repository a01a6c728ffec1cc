-- ===== src/Client/Calls.antt =====
-- conn.go: the methods of the client's connection that send frames. A method runs to its end under
-- the connection's mutex, or up to its wait for a receipt, after which it reads no state; so each is
-- a function of the state, and what it waits for is an argument.
pub mod Options
pub mod Subscribe
pub mod Disconnect
pub mod Settle
pub mod Transaction
pub mod Keeps
pub mod Open
pub mod Safety
pub mod Sequence
pub mod Closed
pub mod Sending
use go_stomp.Base.{
  ℕ, zero, suc, ◌+◌, ◌-◌, ◌*◌, ◌%◌, ◌^◌, ◌≡◌, ◌≢◌, refl, sym, ap, ◌∙◌, Bytes, Bool, true, false,
  not, ◌&&◌, ◌||◌, Option, none, some, List, [], ◌∷◌, ◌++◌, map, ok, err, ResultOf, codes, str_eq,
  if◌then◌else◌, take, drop, length, ltb, ◌==◌, arith, append_assoc, append-nil, All,
}
use go_stomp.Client.Conn.{Conn, WriteRequest}
use go_stomp.Client.Errors.{
  Failure, Attempt, new_error, msg_send_timeout, msg_receipt_timeout, closed_unexpectedly,
  already_closed,
}
use go_stomp.Client.Versions.{allocate_id}
use go_stomp.Frame.Command.{Command}
use go_stomp.Frame.Data.{Frame, new}
use go_stomp.Frame.Header.{Header, set, contains}
use go_stomp.Frame.Names
use go_stomp.Std.Strconv.{format_uint}

-- The connection, `_lastId`, and the number of channels that were made.
pub record Client : Type 0 where
  pub conn : Conn
  pub last_id : ℕ
  pub channels : ℕ

-- A method returns a value or an error, blocks for ever, or panics.
pub data Done (A : Type 0) : Type 0 where
  returned : Attempt A → Client → Done A
  blocked : Done A
  panicked : Done A

abbrev pub M : Type 0 → Type 0
M A = Client → Done A

abbrev pub and_then : {A B : Type 0} → (A → M B) → Done A → Done B
and_then f (returned (ok a) c) = f a c
and_then f (returned (err e) c) = returned (err e) c
and_then f blocked = blocked
and_then f panicked = panicked

infixl 5 ◌>>=◌
abbrev pub ◌>>=◌ : {A B : Type 0} → M A → (A → M B) → M B
◌>>=◌ m f c = and_then f (m c)

infixl 5 ◌>>◌
abbrev pub ◌>>◌ : {B : Type 0} → M (Unit {0}) → M B → M B
m >> k = m >>= λ _. k

abbrev pub pure : {A : Type 0} → A → M A
pure a c = returned (ok a) c

abbrev pub fail : {A : Type 0} → Failure → M A
fail e c = returned (err e) c

abbrev pub block : {A : Type 0} → M A
block c = blocked

abbrev pub panic : {A : Type 0} → M A
panic c = panicked

abbrev pub from_attempt : {A : Type 0} → Attempt A → M A
from_attempt a c = returned a c

abbrev pub get_conn : M Conn
get_conn c = returned (ok c.conn) c

abbrev pub put_conn : Conn → M (Unit {0})
put_conn conn c = returned (ok tt) (record c { conn = conn })

abbrev pub when : Bool → M (Unit {0}) → M (Unit {0})
when b m = if b then m else pure tt

-- `none` leads to the one, and `some` to the other.
abbrev pub by_option : {A B : Type 0} → Option A → M B → (A → M B) → M B
by_option none m f = m
by_option (some a) m f = f a

-- `allocateId()`.
abbrev pub next_id : M Bytes
next_id c = let (id, last) = allocate_id c.last_id in returned (ok id) (record c { last_id = last })

-- `make(chan *frame.Frame)`.
abbrev pub make_channel : M ℕ
make_channel c = returned (ok c.channels) (record c { channels = c.channels + 1 })

-- What a method waits for: whether its request is taken before a timer fires, and what it receives
-- before its timer fires, a frame or the closing of the channel, if it receives anything.
pub record Answers : Type 0 where
  pub taken : Bool
  pub reply : Option (Option Frame)

-- An option of `Send`, `Subscribe` and `Unsubscribe`, which may read and write `_lastId`.
abbrev pub FrameOption : Type 0
FrameOption = ℕ → Frame → ℕ × Attempt Frame

abbrev pub apply_option : FrameOption → Frame → M Frame
apply_option opt f c =
    let (last, result) = opt c.last_id f in returned result (record c { last_id = last })

-- The loop over the options, which passes over a nil one.
unfoldable pub run_options : List (Option FrameOption) → Frame → M Frame
run_options [] f = pure f
run_options (none ∷ opts) f = run_options opts f
run_options (some opt ∷ opts) f = apply_option opt f >>= run_options opts

-- The header with a content type, if that is not "".
unfoldable pub with_content_type : Bytes → Header → Header
unfolding set
with_content_type [] h = h
with_content_type (b ∷ s) h = set h Names.content_type (b ∷ s)

unfoldable pub create_send_frame : Bytes → Bytes → Bytes → List (Option FrameOption) → M Frame
unfolding new set with_content_type run_options
create_send_frame destination content_type body opts =
    let f = new Command.send ((Names.content_length, format_uint (length body)) ∷ []) in
    let h = set f.header Names.destination destination in
    let h' = with_content_type content_type h in
    run_options opts (record f { header = h'; body = body })

-- `atomic.AddInt64(&c.writesSent, 1)`, of an int64 as its remainder.
unfoldable pub count_write : M (Unit {0})
count_write = do
  c ← get_conn
  when c.stats_enabled (put_conn (record c { writes_sent = (c.writes_sent + 1) % 2 ^ 64 }))

-- A response that is no RECEIPT frame is an error.
unfoldable pub receipt_or_error : Frame → Attempt (Unit {0})
unfolding new_error
receipt_or_error response = elim response.command [
  | Command.receipt ↦ ok tt
  | other ↦ err (new_error response)
]

module _ (w : Answers) where
  -- `c.writeCh <- request`.
  unfoldable pub send_request : WriteRequest → M (Unit {0})
  send_request request = do
    c ← get_conn
    when c.write_closed panic
    if w.taken
        then put_conn (record c { write_requests = c.write_requests ++ request ∷ [] })
        else block

  -- A send on a closed channel panics in a `select` too.
  unfoldable pub send_data_to_write_ch_with_timeout : WriteRequest → ℕ → M (Unit {0})
  unfolding send_request
  send_data_to_write_ch_with_timeout request timeout = do
    c ← get_conn
    when c.write_closed panic
    if w.taken || timeout == 0 then send_request request else fail msg_send_timeout

  -- A closed channel gives a nil frame.
  unfoldable pub read_receipt_with_timeout : ℕ → Failure → M (Unit {0})
  unfolding receipt_or_error
  read_receipt_with_timeout timeout timeout_err =
      by_option w.reply (if timeout == 0 then block else fail timeout_err)
        λ response. by_option response panic λ f. from_attempt (receipt_or_error f)

  -- The wait of `sendFrame`.
  unfoldable pub await_receipt : ℕ → M (Unit {0})
  unfolding receipt_or_error
  await_receipt timeout =
      by_option w.reply (if timeout == 0 then block else fail closed_unexpectedly) λ response.
        by_option response (fail closed_unexpectedly) λ f. from_attempt (receipt_or_error f)

  unfoldable pub send : Bytes → Bytes → Bytes → List (Option FrameOption) → M (Unit {0})
  unfolding create_send_frame count_write contains send_data_to_write_ch_with_timeout
      read_receipt_with_timeout
  send destination content_type body opts = do
    c ← get_conn
    when c.closed (fail already_closed)
    f ← create_send_frame destination content_type body opts
    count_write
    by_option (contains f.header Names.receipt)
        (send_data_to_write_ch_with_timeout (record { frame = f; channel = none })
          c.msg_send_timeout)
        λ receipt. do
          ch ← make_channel
          send_data_to_write_ch_with_timeout (record { frame = f; channel = some ch })
              c.msg_send_timeout
          read_receipt_with_timeout c.rcv_receipt_timeout msg_receipt_timeout

  unfoldable pub send_frame : Frame → M (Unit {0})
  unfolding count_write contains send_request await_receipt
  send_frame f = do
    c ← get_conn
    when c.closed (put_conn (record c { link_closed = true }) >> fail closed_unexpectedly)
    count_write
    by_option (contains f.header Names.receipt)
        (send_request (record { frame = f; channel = none }))
        λ receipt. do
          ch ← make_channel
          send_request (record { frame = f; channel = some ch })
          await_receipt c.write_timeout
