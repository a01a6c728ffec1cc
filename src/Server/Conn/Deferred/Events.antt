-- ===== src/Server/Conn/Deferred/Events.antt =====
-- What a transaction can hold: a whole run of a connection.
use mathlib.Core.Path.{subst}
use go_stomp.Base.{
  ℕ, ◌≡◌, sym, Bytes, Bool, true, false, Option, List, [], ◌∷◌, none, some, arith, Option-cases,
  inl, inr, find, Error,
}
use go_stomp.Frame.Command.{Command}
use go_stomp.Frame.Data.{Frame}
use go_stomp.Server.Conn.{
  Config, StateFunc, connecting, connected, pure, St, Exec, returned, failed, crashed, M, ◌>>=◌,
  ◌>>◌, get_heap, put_heap, send_immediately,
}
use go_stomp.Server.Conn.Handlers.{
  run_connected, run_connecting, commit_depth, call_state, handle_connect, negotiate,
  finish_connect,
}
use go_stomp.Server.Conn.Loop.{
  or_stop, Event, frame_to_write, frame_read, subscription_ready, timer_fired, on_event, run_events,
  on_read, on_write, on_timer, on_subscription, after_write, allocate_message_id, validate,
  send_error_immediately,
}
use go_stomp.Server.Objects.{set_frame}
use go_stomp.Server.SubscriptionList.{add}
use go_stomp.Server.Conn.Deferred.{IsBounded, After, Moves, bind-Moves}
use go_stomp.Server.Conn.Deferred.Connected.{run_connected-IsBounded}
use go_stomp.Server.Negotiation.{Version}

finish_connect-IsBounded :
    (config : Config) (v : Version) → Moves IsBounded IsBounded (finish_connect config v)
unfolding finish_connect send_immediately
finish_connect-IsBounded config v s z = ground (arith, z)

handle_connect-IsBounded : (config : Config) → Moves IsBounded IsBounded (handle_connect config)
unfolding handle_connect negotiate finish_connect send_immediately
handle_connect-IsBounded config s z = ground (arith, z)

connecting-IsBounded :
    (config : Config) (c : Command) → Moves IsBounded IsBounded (run_connecting config c)
unfolding run_connecting
connecting-IsBounded config Command.connect = handle_connect-IsBounded config
connecting-IsBounded config Command.stomp = handle_connect-IsBounded config
connecting-IsBounded config Command.disconnect = λ s z. z
connecting-IsBounded config Command.begin = λ s z. z
connecting-IsBounded config Command.abort = λ s z. z
connecting-IsBounded config Command.commit = λ s z. z
connecting-IsBounded config Command.send = λ s z. z
connecting-IsBounded config Command.subscribe = λ s z. z
connecting-IsBounded config Command.unsubscribe = λ s z. z
connecting-IsBounded config Command.ack = λ s z. z
connecting-IsBounded config Command.nack = λ s z. z
connecting-IsBounded config Command.message = λ s z. z
connecting-IsBounded config Command.receipt = λ s z. z
connecting-IsBounded config Command.error = λ s z. z
connecting-IsBounded config Command.connected = λ s z. z

call_state-IsBounded_at :
    (config : Config) (f : StateFunc) (s : St)
    → IsBounded s
    → After IsBounded (elim f [
      | connecting ↦ run_connecting config s.frame.command s
      | connected ↦ run_connected commit_depth s
    ])
call_state-IsBounded_at config connecting s z = connecting-IsBounded config s.frame.command s z
call_state-IsBounded_at config connected s z = run_connected-IsBounded 0 s z

call_state-IsBounded : (config : Config) → Moves IsBounded IsBounded (call_state config)
unfolding call_state
call_state-IsBounded config s z = call_state-IsBounded_at config s.conn.state_func s z

send_error-IsBounded :
    (config : Config) (e : Error) → Moves IsBounded IsBounded (send_error_immediately config e)
unfolding send_error_immediately send_immediately
send_error-IsBounded config e s z = ground (arith, z)

-- What `on_read` does with the outcome of the state function.
answered-IsBounded :
    (config : Config) (e : Exec (Unit {0}))
    → After IsBounded e
    → After IsBounded (elim e [
      | returned a t ↦ returned true t
      | failed x t ↦ (send_error_immediately config x >> pure false) t
      | crashed p ↦ crashed p
    ])
answered-IsBounded config (returned a t) z = z
answered-IsBounded config (failed x t) z =
    bind-Moves IsBounded IsBounded IsBounded (send_error_immediately config x) (λ u. pure false)
      (send_error-IsBounded config x) (λ u s y. y) t z
answered-IsBounded config (crashed p) z = z

on_read-IsBounded :
    (config : Config) (f : Option Frame) → Moves IsBounded IsBounded (on_read config f)
unfolding on_read validate
on_read-IsBounded config none s z = z
on_read-IsBounded config (some f) s z =
    answered-IsBounded config (call_state config (record s { frame = f }))
      (call_state-IsBounded config (record s { frame = f }) z)

on_write-IsBounded : (f : Frame) → Moves IsBounded IsBounded (on_write f)
unfolding on_write allocate_message_id send_immediately
on_write-IsBounded f s z = ground (arith, z)

on_timer-IsBounded : Moves IsBounded IsBounded on_timer
unfolding on_timer send_immediately
on_timer-IsBounded s z = ground (arith, z)

allocate-IsBounded :
    (f : Frame) (mode : Bytes) → Moves IsBounded IsBounded (allocate_message_id f mode)
unfolding allocate_message_id
allocate-IsBounded f mode s z = ground (arith, z)

after_write-IsBounded : (a : ℕ) → Moves IsBounded IsBounded (after_write a)
unfolding after_write add
after_write-IsBounded a s z = ground (arith, z)

send-IsBounded : (g : Option Frame) → Moves IsBounded IsBounded (send_immediately g)
unfolding send_immediately
send-IsBounded g s z = ground (arith, z)

stopped-IsBounded :
    (k : M Bool) (e : Exec (Unit {0}))
    → Moves IsBounded IsBounded k
    → After IsBounded e
    → After IsBounded
        (elim e [ returned a t ↦ k t | failed x t ↦ returned false t | crashed p ↦ crashed p ])
stopped-IsBounded k (returned a t) l z = l t z
stopped-IsBounded k (failed x t) l z = z
stopped-IsBounded k (crashed p) l z = z

-- The part of `on_subscription` that follows the numbering.
abbrev numbered : ℕ → Frame → M Bool
numbered a g = do
  h ← get_heap
  put_heap (set_frame h a (some g))
  or_stop (send_immediately (some g)) (after_write a)

numbered-IsBounded : (a : ℕ) (g : Frame) → Moves IsBounded IsBounded (numbered a g)
numbered-IsBounded a g s z =
    stopped-IsBounded (after_write a)
      (send_immediately (some g) (record s { heap = set_frame s.heap a (some g) }))
      (after_write-IsBounded a)
      (send-IsBounded (some g) (record s { heap = set_frame s.heap a (some g) }) z)

on_subscription-numbered :
    (a : ℕ) (s : St) (f : Frame) {b : ℕ}
    → find s.conn.subs (s.heap.at a).id ≡ some b
    → (s.heap.at a).frame ≡ some f
    → on_subscription a s ≡ (allocate_message_id f (s.heap.at a).ack >>= numbered a) s
unfolding on_subscription
on_subscription-numbered a s f e n = cc

on_subscription-IsBounded : (a : ℕ) → Moves IsBounded IsBounded (on_subscription a)
unfolding on_subscription
on_subscription-IsBounded a s z = elim (Option-cases (find s.conn.subs (s.heap.at a).id)) [
  | inl e ↦ ground (arith, e, z)
  | inr (b, e) ↦ elim (Option-cases (s.heap.at a).frame) [
    | inl n ↦ ground (arith, e, n)
    | inr (f, n) ↦
        let kept =
          bind-Moves IsBounded IsBounded IsBounded (allocate_message_id f (s.heap.at a).ack)
            (numbered a) (allocate-IsBounded f (s.heap.at a).ack) (numbered-IsBounded a) s z in
        subst (After IsBounded) (sym (on_subscription-numbered a s f e n)) kept
  ]
]

on_event-IsBounded : (config : Config) (e : Event) → Moves IsBounded IsBounded (on_event config e)
unfolding on_event
on_event-IsBounded config (frame_to_write f) = on_write-IsBounded f
on_event-IsBounded config (frame_read f) = on_read-IsBounded config f
on_event-IsBounded config (subscription_ready a) = on_subscription-IsBounded a
on_event-IsBounded config timer_fired = on_timer-IsBounded

-- Whatever reaches a connection, in whatever order: if its transactions hold SEND, ACK and NACK frames
-- only, then so do the transactions that the run leaves, whether it returns or fails; and no run
-- ends because the calls of the connected state by a COMMIT go deeper than 2, one within the other.
-- The connection may panic for other reasons.
pub run_events-IsBounded :
    (config : Config) (es : List Event) (s : St)
    → IsBounded s
    → After IsBounded (run_events config es s)
unfolding run_events
run_events-IsBounded config [] s z = z
run_events-IsBounded config (e ∷ es) s z =
    bind-Moves IsBounded IsBounded IsBounded (on_event config e)
      (elim [ true ↦ run_events config es | false ↦ pure tt ]) (on_event-IsBounded config e)
      (elim [ true ↦ run_events-IsBounded config es | false ↦ λ t y. y ]) s z
