-- ===== src/Server/Conn/MessageIds/Events.antt =====
-- What a whole run of a connection does to the message numbers of subscriptions.
use mathlib.Core.Path.{subst}
use go_stomp.Base.{
  ℕ, ◌≡◌, sym, Bytes, Bool, true, false, Option, List, [], ◌∷◌, none, some, arith, Option-cases,
  inl, inr, find, Error,
}
use go_stomp.Frame.Command.{Command}
use go_stomp.Frame.Data.{Frame}
use go_stomp.Server.Conn.{
  Config, StateFunc, connecting, connected, pure, St, Exec, returned, failed, crashed, M, ◌>>=◌,
  ◌>>◌, get_heap, put_heap, send_immediately,
}
use go_stomp.Server.Conn.Handlers.{run_connected, run_connecting, commit_depth, call_state}
use go_stomp.Server.Conn.Loop.{
  or_stop, Event, frame_to_write, frame_read, subscription_ready, timer_fired, on_event, run_events,
  on_read, on_write, on_timer, on_subscription, after_write, allocate_message_id, validate,
  send_error_immediately,
}
use go_stomp.Server.Objects.{set_frame}
use go_stomp.Server.SubscriptionList.{add}
use go_stomp.Server.Conn.MessageIds.Connected.{run_connected-Keeps}
use go_stomp.Server.Conn.MessageIds.{
  Unnumbered, HeapAfter, Keeps, bind-Keeps, handle_connect-Keeps, set_frame-Unnumbered,
}

connecting-Keeps : (config : Config) (c : Command) → Keeps (run_connecting config c)
unfolding run_connecting
connecting-Keeps config Command.connect = handle_connect-Keeps config
connecting-Keeps config Command.stomp = handle_connect-Keeps config
connecting-Keeps config Command.disconnect = λ s z. z
connecting-Keeps config Command.begin = λ s z. z
connecting-Keeps config Command.abort = λ s z. z
connecting-Keeps config Command.commit = λ s z. z
connecting-Keeps config Command.send = λ s z. z
connecting-Keeps config Command.subscribe = λ s z. z
connecting-Keeps config Command.unsubscribe = λ s z. z
connecting-Keeps config Command.ack = λ s z. z
connecting-Keeps config Command.nack = λ s z. z
connecting-Keeps config Command.message = λ s z. z
connecting-Keeps config Command.receipt = λ s z. z
connecting-Keeps config Command.error = λ s z. z
connecting-Keeps config Command.connected = λ s z. z

call_state-Keeps_at :
    (config : Config) (f : StateFunc) (s : St)
    → Unnumbered s.heap
    → HeapAfter Unnumbered (elim f [
      | connecting ↦ run_connecting config s.frame.command s
      | connected ↦ run_connected commit_depth s
    ])
call_state-Keeps_at config connecting s z = connecting-Keeps config s.frame.command s z
call_state-Keeps_at config connected s z = run_connected-Keeps commit_depth s z

call_state-Keeps : (config : Config) → Keeps (call_state config)
unfolding call_state
call_state-Keeps config s z = call_state-Keeps_at config s.conn.state_func s z

send_error-Keeps : (config : Config) (e : Error) → Keeps (send_error_immediately config e)
unfolding send_error_immediately send_immediately
send_error-Keeps config e s z = ground (arith, z)

-- What `on_read` does with the outcome of the state function.
answered-Keeps :
    (config : Config) (e : Exec (Unit {0}))
    → HeapAfter Unnumbered e
    → HeapAfter Unnumbered (elim e [
      | returned a t ↦ returned true t
      | failed x t ↦ (send_error_immediately config x >> pure false) t
      | crashed p ↦ crashed p
    ])
answered-Keeps config (returned a t) z = z
answered-Keeps config (failed x t) z =
    bind-Keeps (send_error_immediately config x) (λ u. pure false) (send_error-Keeps config x)
      (λ u s y. y) t z
answered-Keeps config (crashed p) z = tt

on_read-Keeps : (config : Config) (f : Option Frame) → Keeps (on_read config f)
unfolding on_read validate
on_read-Keeps config none s z = z
on_read-Keeps config (some f) s z =
    answered-Keeps config (call_state config (record s { frame = f }))
      (call_state-Keeps config (record s { frame = f }) z)

on_write-Keeps : (f : Frame) → Keeps (on_write f)
unfolding on_write allocate_message_id send_immediately
on_write-Keeps f s z = ground (arith, z)

on_timer-Keeps : Keeps on_timer
unfolding on_timer send_immediately
on_timer-Keeps s z = ground (arith, z)

allocate-Keeps : (f : Frame) (mode : Bytes) → Keeps (allocate_message_id f mode)
unfolding allocate_message_id
allocate-Keeps f mode s z = ground (arith, z)

after_write-Keeps : (a : ℕ) → Keeps (after_write a)
unfolding after_write add
after_write-Keeps a s z = ground (arith, z)

send-Keeps : (g : Option Frame) → Keeps (send_immediately g)
unfolding send_immediately
send-Keeps g s z = ground (arith, z)

stopped-Keeps :
    (k : M Bool) (e : Exec (Unit {0}))
    → Keeps k
    → HeapAfter Unnumbered e
    → HeapAfter Unnumbered
        (elim e [ returned a t ↦ k t | failed x t ↦ returned false t | crashed p ↦ crashed p ])
stopped-Keeps k (returned a t) l z = l t z
stopped-Keeps k (failed x t) l z = z
stopped-Keeps k (crashed p) l z = tt

-- The part of `on_subscription` that follows the numbering.
abbrev numbered : ℕ → Frame → M Bool
numbered a g = do
  h ← get_heap
  put_heap (set_frame h a (some g))
  or_stop (send_immediately (some g)) (after_write a)

numbered-Keeps : (a : ℕ) (g : Frame) → Keeps (numbered a g)
numbered-Keeps a g s z =
    stopped-Keeps (after_write a)
      (send_immediately (some g) (record s { heap = set_frame s.heap a (some g) }))
      (after_write-Keeps a)
      (send-Keeps (some g) (record s { heap = set_frame s.heap a (some g) })
        (set_frame-Unnumbered s.heap a (some g) z))

on_subscription-numbered :
    (a : ℕ) (s : St) (f : Frame) {b : ℕ}
    → find s.conn.subs (s.heap.at a).id ≡ some b
    → (s.heap.at a).frame ≡ some f
    → on_subscription a s ≡ (allocate_message_id f (s.heap.at a).ack >>= numbered a) s
unfolding on_subscription
on_subscription-numbered a s f e n = cc

on_subscription-Keeps : (a : ℕ) → Keeps (on_subscription a)
unfolding on_subscription
on_subscription-Keeps a s z = elim (Option-cases (find s.conn.subs (s.heap.at a).id)) [
  | inl e ↦ ground (arith, e, z)
  | inr (b, e) ↦ elim (Option-cases (s.heap.at a).frame) [
    | inl n ↦ ground (arith, e, n)
    | inr (f, n) ↦
        let kept =
          bind-Keeps (allocate_message_id f (s.heap.at a).ack) (numbered a)
            (allocate-Keeps f (s.heap.at a).ack) (numbered-Keeps a) s z in
        subst (HeapAfter Unnumbered) (sym (on_subscription-numbered a s f e n)) kept
  ]
]

on_event-Keeps : (config : Config) (e : Event) → Keeps (on_event config e)
unfolding on_event
on_event-Keeps config (frame_to_write f) = on_write-Keeps f
on_event-Keeps config (frame_read f) = on_read-Keeps config f
on_event-Keeps config (subscription_ready a) = on_subscription-Keeps a
on_event-Keeps config timer_fired = on_timer-Keeps

-- Whatever reaches a connection, in whatever order, the field `msgId` of every subscription is
-- still 0 if it was 0 at the start: no frame, delivery, acknowledgement or transaction assigns it.
pub run_events-Unnumbered :
    (config : Config) (es : List Event) (s : St)
    → Unnumbered s.heap
    → HeapAfter Unnumbered (run_events config es s)
unfolding run_events
run_events-Unnumbered config [] s z = z
run_events-Unnumbered config (e ∷ es) s z =
    bind-Keeps (on_event config e) (elim [ true ↦ run_events config es | false ↦ pure tt ])
      (on_event-Keeps config e) (elim [ true ↦ run_events-Unnumbered config es | false ↦ λ t y. y ])
      s z
