-- ===== src/Client/Subscription.antt =====
-- subscription.go: `readLoop`, and what `Unsubscribe` does to the subscription while the loop runs.
-- The client reads what is sent on `C`, so that no send on it blocks.
pub mod Delivery
use go_stomp.Base.{
  ℕ, zero, suc, ◌+◌, ◌-◌, ◌*◌, ◌%◌, ◌^◌, ◌≡◌, ◌≢◌, refl, sym, ap, ◌∙◌, Bytes, Bool, true, false,
  not, ◌&&◌, ◌||◌, Option, none, some, List, [], ◌∷◌, ◌++◌, map, ok, err, ResultOf, codes, str_eq,
  if◌then◌else◌, take, drop, length, ltb, ◌==◌, arith, append_assoc, append-nil, All,
}
use go_stomp.Client.Errors.{
  Attempt, completed_subscription, unsubscribe_receipt_timeout, plain_error, frame_error, Failure,
  stomp_error,
}
use go_stomp.Client.Message.{Subscription, Message}
use go_stomp.Frame.Command.{Command}
use go_stomp.Frame.Data.{Frame}
use go_stomp.Frame.Header.{Header, get, contains}
use go_stomp.Frame.Names

pub data SubState : Type 0 where
  active closing closed : SubState

-- What changes in a subscription: its state, what was sent on `C`, and whether `C` is closed, which
-- `closeOnce` does; `running` says that `readLoop` has not returned.
pub record Live : Type 0 where
  pub state : SubState
  pub sent : List Message
  pub shut : Bool
  pub running : Bool

-- A step is done, or it sends on the closed channel and panics.
pub data Step : Type 0 where
  done : Live → Step
  panicked : Step

abbrev pub start : Live
start = record { state = active; sent = []; shut = false; running = true }

unfoldable pub subscription_error_message : Subscription → Bytes → Message
subscription_error_message sub message = record {
  error = some (
      stomp_error
        (codes "Subscription " ++ sub.id ++ codes ": " ++ sub.destination ++ codes ": " ++ message)
        none);
  destination = [];
  content_type = [];
  has_conn = false;
  subscription = none;
  header = none;
  body = [];
}

-- `s.C <- msg`.
unfoldable pub send_message : Message → Live → Step
send_message msg s = if s.shut then panicked else done (record s { sent = s.sent ++ msg ∷ [] })

-- `closeChannel`, where `closeOnce` was done just when the channel is closed.
unfoldable pub close_channel : Option Message → Live → Live
close_channel msg s = if s.shut then s else elim msg [
  | none ↦ record s { state = closed; shut = true }
  | some m ↦ record s { sent = s.sent ++ m ∷ []; state = closed; shut = true }
]

-- The test that comes before each `closeChannel` of the loop, and the return after it.
unfoldable pub close_if_open : Option Message → Live → Live
unfolding close_channel
close_if_open msg s =
    record (elim s.state [
      | active ↦ close_channel msg s
      | closing ↦ close_channel msg s
      | closed ↦ s
    ]) { running = false }

unfoldable pub message_of : Subscription → Frame → Message
unfolding get
message_of sub f = record {
  error = none;
  destination = get f.header Names.destination;
  content_type = get f.header Names.content_type;
  has_conn = true;
  subscription = some sub;
  header = some f.header;
  body = f.body;
}

unfoldable pub error_of : Subscription → Frame → Message
unfolding get
error_of sub f = record {
  error = some (stomp_error (get f.header Names.message) (some f));
  destination = [];
  content_type = get f.header Names.content_type;
  has_conn = true;
  subscription = some sub;
  header = some f.header;
  body = f.body;
}

-- One round of `readLoop`: the channel is closed, or a frame comes. A frame that is of no use is
-- logged.
unfoldable pub on_input : Subscription → Option Frame → Live → Step
unfolding subscription_error_message send_message close_if_open message_of error_of
on_input sub none s =
    done (close_if_open (some (subscription_error_message sub (codes "channel read failed"))) s)
on_input sub (some f) s = elim f.command [
  | Command.message ↦ send_message (message_of sub f) s
  | Command.error ↦ done (close_if_open (some (error_of sub f)) s)
  | Command.receipt ↦ done (close_if_open none s)
  | other ↦ done s
]

-- What comes to a subscription: the loop's input, while it runs; the first step of `Unsubscribe`;
-- its end where `sendFrame` fails since the connection is closed; its end at a timeout.
pub data Event : Type 0 where
  input : Option Frame → Event
  unsubscribe : Event
  send_failed : Event
  timed_out : Event

-- `CompareAndSwapInt32(&s.state, subStateActive, subStateClosing)`.
unfoldable pub begin_closing : Live → Live
begin_closing s = elim s.state [ active ↦ record s { state = closing } | closing ↦ s | closed ↦ s ]

unfoldable pub on_event : Subscription → Event → Live → Step
unfolding on_input begin_closing subscription_error_message send_message close_channel
on_event sub (input f) s = if s.running then on_input sub f s else done s
on_event sub unsubscribe s = done (begin_closing s)
on_event sub send_failed s = done (
    close_channel (some (subscription_error_message sub (codes "connection closed unexpectedly")))
      s)
on_event sub timed_out s = elim s.state [
  | closed ↦ done s
  | other ↦
      send_message (subscription_error_message sub (codes "channel unsubscribe receipt timeout")) s
]

abbrev pub and_then : (Live → Step) → Step → Step
and_then f (done s) = f s
and_then f panicked = panicked

unfoldable pub run : Subscription → List Event → Live → Step
run sub [] s = done s
run sub (e ∷ es) s = and_then (run sub es) (on_event sub e s)

-- `Active`.
unfoldable pub is_active : SubState → Bool
is_active active = true
is_active closing = false
is_active closed = false

-- `Read`, given what is received on `C`: a message, or nothing as it is closed.
unfoldable pub read : SubState → Option Message → Attempt Message
unfolding is_active
read state received =
    if is_active state
    then elim received [
      | none ↦ err completed_subscription
      | some msg ↦ elim msg.error [ some e ↦ err e | none ↦ ok msg ]
    ]
    else err completed_subscription

-- `errors.Is(err, ErrClosedUnexpectedly)`.
unfoldable pub is_closed_unexpectedly : Failure → Bool
is_closed_unexpectedly (stomp_error message none) =
    str_eq message (codes "connection closed unexpectedly")
is_closed_unexpectedly (stomp_error message (some f)) = false
is_closed_unexpectedly (plain_error message) = false
is_closed_unexpectedly (frame_error e) = false

abbrev pub is_closed : SubState → Bool
is_closed active = false
is_closed closing = false
is_closed closed = true

-- The loop of `Unsubscribe` that waits for the state `closed`, with the error that it would return.
-- Each end of `waitWithTimeout` says whether the timeout has passed, and what the subscription is
-- then; there is no result where the method waits still. When a wake-up comes is an input: a
-- `Broadcast` that comes before the wait, and is missed, is a list without it.
unfoldable pub await_closed :
    Subscription
    → Attempt (Unit {0})
    → Live
    → List (Bool × Live)
    → Option (Attempt (Unit {0}) × Step)
unfolding send_message subscription_error_message
await_closed sub result s [] = if is_closed s.state then some (result, done s) else none
await_closed sub result s ((late, t) ∷ rest) =
    let later = await_closed sub (ok tt) t rest in
    let timeout_message =
      subscription_error_message sub (codes "channel unsubscribe receipt timeout") in
    if is_closed s.state
    then some (result, done s)
    else if late
    then some (
      err unsubscribe_receipt_timeout,
      if is_closed t.state then done t else send_message timeout_message t,
    )
    else later

-- `Unsubscribe` from what `sendFrame` returned.
unfoldable pub finish_unsubscribe :
    Subscription
    → Attempt (Unit {0})
    → Live
    → List (Bool × Live)
    → Option (Attempt (Unit {0}) × Step)
unfolding is_closed_unexpectedly close_channel subscription_error_message await_closed
finish_unsubscribe sub (ok u) s wakes = await_closed sub (ok u) s wakes
finish_unsubscribe sub (err e) s wakes =
    if is_closed_unexpectedly e
    then some (
      err e,
      done (
          close_channel
            (some (subscription_error_message sub (codes "connection closed unexpectedly"))) s),
    )
    else await_closed sub (err e) s wakes
