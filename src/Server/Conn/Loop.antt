-- ===== src/Server/Conn/Loop.antt =====
-- server/client/conn.go: the branches of `processLoop`, and `cleanupConn`.
use go_stomp.Base.{
  ℕ, suc, ◌+◌, ◌%◌, ◌^◌, Bytes, Bool, true, false, ◌||◌, Option, none, some, List, [], ◌∷◌, ◌++◌,
  map, Error, Dict, find, if◌then◌else◌, str_eq, codes,
}
use go_stomp.Base
use go_stomp.Frame.Command.{Command}
use go_stomp.Frame.Data.{Frame, new}
use go_stomp.Frame.Header.{contains, set, del, add}
use go_stomp.Frame.Names
use go_stomp.Std.Strconv.{format_uint}
use go_stomp.Server.Conn.{
  Config, returned, failed, crashed, M, ◌>>=◌, ◌>>◌, pure, ignore, get_conn, put_conn, get_frame,
  get_heap, put_heap, request, from_outcome, send_immediately,
}
use go_stomp.Server.Conn.Handlers.{call_state}
use go_stomp.Server.Negotiation.{Version}
use go_stomp.Server.Objects.{
  Heap, set_frame, conn_list, Request, subscribe_op, unsubscribe_op, requeue_op, disconnected_op,
  nil_frame,
}
use go_stomp.Server.SubscriptionList
use go_stomp.Server.TxStore

-- server/client/errors.go: `Error()` of the errors of the package, for the ERROR frame.
unfoldable pub error_text : Config → Error → Bytes
error_text config Error.not_connected = codes "expected CONNECT or STOMP frame"
error_text config Error.unexpected_command = codes "unexpected frame command"
error_text config Error.unknown_command = codes "unknown command"
error_text config Error.receipt_in_connect =
    codes "receipt header prohibited in CONNECT or STOMP frame"
error_text config Error.authentication_failed = codes "authentication failed"
error_text config Error.tx_already_in_progress = codes "transaction already in progress"
error_text config Error.tx_unknown = codes "unknown transaction"
error_text config Error.unsupported_version = codes "unsupported version"
error_text config Error.subscription_exists = codes "subscription already exists"
error_text config Error.subscription_not_found = codes "subscription not found"
error_text config Error.unknown_version = codes "incompatible version"
error_text config Error.not_connect_frame =
    codes "operation valid for STOMP and CONNECT frames only"
error_text config Error.invalid_heart_beat_format = codes "invalid format for heart-beat"
error_text config Error.invalid_operation_for_frame = codes "invalid operation for frame"
error_text config (Error.missing_header name) = codes "missing header: " ++ name
error_text config e = config.library_text e

-- `sendErrorImmediately(err, f)` with the frame in hand.
unfoldable pub send_error_immediately : Config → Error → M (Unit {0})
unfolding error_text contains add new send_immediately
send_error_immediately config e = do
  f ← get_frame
  let g = new Command.error ((Names.message, error_text config e) ∷ [])
  ignore (
      send_immediately (
        some (elim (contains f.header Names.receipt) [
          | some receipt ↦ record g { header = add g.header Names.receipt_id receipt }
          | none ↦ g
        ])))

abbrev is_numbered : Command → Bool
is_numbered Command.message = true
is_numbered Command.ack = true
is_numbered _ = false

-- The headers that `allocateMessageId` writes; no subscription counts as ack mode "auto".
unfoldable pub number_frame : ℕ → Bytes → Frame → Frame
unfolding set del
number_frame n ack f =
    let id = format_uint n in
    let h = set (set f.header Names.message_id id) Names.id id in
    record f { header = if str_eq ack Names.ack_auto then del h Names.ack else set h Names.ack id }

-- `allocateMessageId(f, sub)`, given the ack mode of `sub`. `lastMsgId` is a uint64.
unfoldable pub allocate_message_id : Frame → Bytes → M Frame
unfolding number_frame
allocate_message_id f ack s =
    if is_numbered f.command
    then (let n = (s.conn.last_msg_id + 1) % 2 ^ 64 in
        returned (number_frame n ack f) (record s { conn = record (s.conn) { last_msg_id = n } }))
    else returned f s

-- A branch of the loop: whether the loop goes on.
abbrev pub Branch : Type 0
Branch = M Bool

-- `if err != nil { return }`, and what follows.
abbrev pub or_stop : M (Unit {0}) → Branch → Branch
or_stop m k s = elim (m s) [
  | returned a t ↦ k t
  | failed e t ↦ returned false t
  | crashed p ↦ crashed p
]

abbrev is_error : Command → Bool
is_error Command.error = true
is_error _ = false

-- `case f, ok := <-c.writeChannel`. No one closes this channel.
unfoldable pub on_write : Frame → Branch
unfolding allocate_message_id send_immediately
on_write f = do
  g ← allocate_message_id f Names.ack_auto
  or_stop (send_immediately (some g)) (pure (Base.not (is_error g.command)))

-- stomp.NewValidator gives a validator that accepts every frame.
unfoldable pub validate : Option Version → Frame → Option Error
validate validator f = none

-- `case f, ok := <-c.readChannel`, `none` where the channel is closed.
unfoldable pub on_read : Config → Option Frame → Branch
unfolding call_state send_error_immediately validate
on_read config none s = returned false s
on_read config (some f) s = elim (validate s.conn.validator f) [
  | some e ↦ (send_error_immediately config e >> pure false) (record s { frame = f })
  | none ↦ elim (call_state config (record s { frame = f })) [
    | returned a t ↦ returned true t
    | failed e t ↦ (send_error_immediately config e >> pure false) t
    | crashed p ↦ crashed p
  ]
]

-- After the write: back to the upper layer at once, or onto the list of those to be acknowledged.
unfoldable pub after_write : ℕ → Branch
unfolding SubscriptionList.add
after_write a = do
  h ← get_heap
  c ← get_conn
  if str_eq (h.at a).ack Names.ack_auto
      then (do put_heap (set_frame h a none); request (subscribe_op a); pure true)
      else (do
        (h', l) ← from_outcome (SubscriptionList.add (conn_list c.address) a h c.sub_list)
        put_heap h'
        put_conn (record c { sub_list = l })
        pure true)

-- `case sub, ok := <-c.subChannel`. No one closes this channel.
unfoldable pub on_subscription : ℕ → Branch
unfolding find allocate_message_id send_immediately after_write
on_subscription a s = elim (find s.conn.subs (s.heap.at a).id) [
  | none ↦ (request (requeue_op (s.heap.at a).frame) >> pure true) s
  | some b ↦ elim (s.heap.at a).frame [
    | none ↦ crashed nil_frame
    | some f ↦
        (do
          g ← allocate_message_id f (s.heap.at a).ack
          h ← get_heap
          put_heap (set_frame h a (some g))
          or_stop (send_immediately (some g)) (after_write a))
          s
  ]
]

-- `case _ = <-timerChannel`.
unfoldable pub on_timer : Branch
unfolding send_immediately
on_timer = or_stop (send_immediately none) (pure true)

-- What reaches the process loop, one at a time.
pub data Event : Type 0 where
  frame_to_write : Frame → Event
  frame_read : Option Frame → Event
  subscription_ready : ℕ → Event
  timer_fired : Event

unfoldable pub on_event : Config → Event → Branch
unfolding on_write on_read on_subscription on_timer
on_event config (frame_to_write f) = on_write f
on_event config (frame_read f) = on_read config f
on_event config (subscription_ready a) = on_subscription a
on_event config timer_fired = on_timer

-- The `for` loop of `processLoop` over what reaches it: to the first branch that returns, or to the
-- last event.
unfoldable pub run_events : Config → List Event → M (Unit {0})
unfolding on_event
run_events config [] = pure tt
run_events config (e ∷ es) =
    on_event config e >>= elim [ true ↦ run_events config es | false ↦ pure tt ]

-- The frames of the subscriptions that a loop of `cleanupSubChannel` finds in the channel.
abbrev requeues : Heap → List ℕ → List Request
requeues h = map (λ a. requeue_op (h.at a).frame)

-- `for sub := c.subList.Get(); …`: the loop takes one subscription off the list each time.
unfoldable pub requeue_list : Heap → List ℕ → Heap × List Request
unfolding SubscriptionList.get
requeue_list h [] = (h, [])
requeue_list h (a ∷ l) =
    let (front, h', l') = SubscriptionList.get h (a ∷ l) in
    let rest = requeue_list h' l in (rest.0, requeue_op (h'.at a).frame ∷ rest.1)

-- `cleanupConn`. The map of subscriptions is visited in the order of its list; Go visits it in any
-- order. `first` and `second` are what the two loops over the subscription channel find in it.
-- `discardWriteChannelFrames` drops what waits in the write channel, which is no part of the state.
unfoldable pub cleanup_conn : List ℕ → List ℕ → M (Unit {0})
unfolding TxStore.init requeue_list
cleanup_conn first second s =
    let (h, unacked) = requeue_list s.heap s.conn.sub_list in
    returned tt (record s {
      conn = record (s.conn) { tx_store = TxStore.init s.conn.tx_store; subs = []; sub_list = [] };
      heap = h;
      requests =
          s.requests
          ++ (map (λ e. unsubscribe_op e.1) s.conn.subs
              ++ (unacked
                  ++ (requeues h first ++ (disconnected_op s.conn.address ∷ requeues h second))));
    })
