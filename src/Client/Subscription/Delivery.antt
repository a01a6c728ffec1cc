-- ===== src/Client/Subscription/Delivery.antt =====
-- What a subscription delivers, whatever else happens while its loop runs.
use go_stomp.Base.{
  Bool-cases, inl, inr, ◌≡◌, ◌≢◌, refl, sym, ap, ◌∙◌, Bool, true, false, not, ◌||◌, Option, none,
  some, List, [], ◌∷◌, ◌++◌, codes, if◌then◌else◌, arith, append_assoc, append-nil, All,
}
use go_stomp.Client.Subscription.{
  Live, closed, and_then, done, panicked, send_message, close_channel, close_if_open, message_of,
  error_of, on_input, Event, input, unsubscribe, send_failed, timed_out, begin_closing, on_event,
  run, subscription_error_message,
}
use go_stomp.Client.Message.{Subscription, Message}
use go_stomp.Frame.Command.{Command}
use go_stomp.Frame.Data.{Frame}

-- The loop's inputs among the events, in order.
abbrev pub inputs : List Event → List (Option Frame)
inputs [] = []
inputs (input f ∷ es) = f ∷ inputs es
inputs (unsubscribe ∷ es) = inputs es
inputs (send_failed ∷ es) = inputs es
inputs (timed_out ∷ es) = inputs es

-- The input ends the loop.
abbrev pub is_last : Option Frame → Bool
is_last none = true
is_last (some f) = elim f.command [ Command.error ↦ true | Command.receipt ↦ true | other ↦ false ]

-- The inputs up to the first that ends the loop, with that one.
abbrev pub until_last : List (Option Frame) → List (Option Frame)
until_last [] = []
until_last (f ∷ fs) = if is_last f then f ∷ [] else f ∷ until_last fs

-- What one input delivers.
abbrev pub delivery : Subscription → Option Frame → List Message
delivery sub none = subscription_error_message sub (codes "channel read failed") ∷ []
delivery sub (some f) = elim f.command [
  | Command.message ↦ message_of sub f ∷ []
  | Command.error ↦ error_of sub f ∷ []
  | other ↦ []
]

abbrev pub deliveries : Subscription → List (Option Frame) → List Message
deliveries sub [] = []
deliveries sub (f ∷ fs) = delivery sub f ++ deliveries sub fs

abbrev pub any_last : List (Option Frame) → Bool
any_last [] = false
any_last (f ∷ fs) = is_last f || any_last fs

-- `Unsubscribe` is not left by an error of its own.
abbrev pub IsQuiet : Event → Type 0
IsQuiet (input f) = Unit {0}
IsQuiet unsubscribe = Unit {0}
IsQuiet send_failed = ⊥
IsQuiet timed_out = ⊥

-- The loop runs just while the channel is open, and the state says so.
pub record IsOpen (s : Live) : Type 0 where
  pub unshut : s.shut ≡ false
  pub running : s.running ≡ true
  pub state : s.state ≢ closed

-- The loop has returned and the channel is closed.
record IsOver (s : Live) : Type 0 where
  shut : s.shut ≡ true
  running : s.running ≡ false
  state : s.state ≡ closed

on_event-IsOver :
    (sub : Subscription) (e : Event) (s : Live) → IsOver s → IsQuiet e → on_event sub e s ≡ done s
unfolding on_event begin_closing
on_event-IsOver sub (input f) s o q = ground arith
on_event-IsOver sub unsubscribe s o q = ground arith
on_event-IsOver sub send_failed s o q = absurd q
on_event-IsOver sub timed_out s o q = absurd q

run-IsOver :
    (sub : Subscription) (es : List Event) (s : Live)
    → IsOver s
    → All IsQuiet es
    → run sub es s ≡ done s
unfolding run
run-IsOver sub [] s o q = refl
run-IsOver sub (e ∷ es) s o q =
    ap (and_then (run sub es)) (on_event-IsOver sub e s o (q.0)) ∙ run-IsOver sub es s o (q.1)

on_event-unsubscribe :
    (sub : Subscription) (s : Live)
    → IsOpen s
    → (t : Live) × (on_event sub unsubscribe s ≡ done t) × (t.sent ≡ s.sent) × IsOpen t
unfolding on_event begin_closing
on_event-unsubscribe sub s o = (
  begin_closing s,
  refl,
  ground arith,
  record { unshut = ground arith; running = ground arith; state = ground arith },
)

on_event-more :
    (sub : Subscription) (f : Option Frame) (s : Live)
    → IsOpen s
    → is_last f ≡ false
    → on_event sub (input f) s ≡ done (record s { sent = s.sent ++ delivery sub f })
unfolding on_event on_input send_message
on_event-more sub none s o l = absurd (ground arith)
on_event-more sub (some f) s o l = ground (arith, append-nil (s.sent))

on_event-last :
    (sub : Subscription) (f : Option Frame) (s : Live)
    → IsOpen s
    → is_last f ≡ true
    → (t : Live) × (on_event sub (input f) s ≡ done t)
      × (t.sent ≡ s.sent ++ delivery sub f)
      × IsOver t
unfolding on_event on_input close_if_open close_channel
on_event-last sub none s o l = (
  record s { state = closed; shut = true; running = false; sent = s.sent ++ delivery sub none },
  ground arith,
  refl,
  record { shut = refl; running = refl; state = refl },
)
on_event-last sub (some f) s o l = (
  record s { state = closed; shut = true; running = false; sent = s.sent ++ delivery sub (some f) },
  ground (arith, append-nil (s.sent)),
  refl,
  record { shut = refl; running = refl; state = refl },
)

-- However `Unsubscribe` calls and the loop's inputs interleave, the loop does not panic, it delivers
-- the MESSAGE frames in their order up to the first ERROR or RECEIPT frame or the end of the input,
-- with a last message for an ERROR frame or that end, and it has closed the channel and returned just
-- when such a last input came. No call of `Unsubscribe` fails on a closed connection or times out.
pub run-deliveries :
    (sub : Subscription) (es : List Event) (s : Live)
    → IsOpen s
    → All IsQuiet es
    → (t : Live) × (run sub es s ≡ done t)
      × (t.sent ≡ s.sent ++ deliveries sub (until_last (inputs es)))
      × (t.shut ≡ any_last (inputs es))
      × (t.running ≡ not (any_last (inputs es)))
unfolding run
run-deliveries sub [] s o q = (s, refl, sym (append-nil (s.sent)), o.unshut, o.running)
run-deliveries sub (unsubscribe ∷ es) s o q =
    let (t, e, sent, o') = on_event-unsubscribe sub s o in
    let (r, e', rest, shut, running) = run-deliveries sub es t o' (q.1) in
    (
      r,
      ap (and_then (run sub es)) e ∙ e',
      rest ∙ ap (λ m. m ++ deliveries sub (until_last (inputs es))) sent,
      shut,
      running,
    )
run-deliveries sub (send_failed ∷ es) s o q = absurd (q.0)
run-deliveries sub (timed_out ∷ es) s o q = absurd (q.0)
run-deliveries sub (input f ∷ es) s o q = elim (Bool-cases (is_last f)) [
  | inl last ↦
      let (t, e, sent, v) = on_event-last sub f s o last in
      (
        t,
        ap (and_then (run sub es)) e ∙ run-IsOver sub es t v (q.1),
        ground (arith, sent, append-nil (delivery sub f)),
        ground (arith, v.shut),
        ground (arith, v.running),
      )
  | inr more ↦
      let t : Live = record s { sent = s.sent ++ delivery sub f } in
      let (r, e', rest, shut, running) =
        run-deliveries sub es t (record { unshut = o.unshut; running = o.running; state = o.state })
          (q.1) in
      (
        r,
        ap (and_then (run sub es)) (on_event-more sub f s o more) ∙ e',
        ground (
          arith,
          rest,
          append_assoc (s.sent) (delivery sub f) (deliveries sub (until_last (inputs es))),
        ),
        ground (arith, shut),
        ground (arith, running),
      )
]

-- Once `Unsubscribe` failed on a closed connection, the channel is closed and the loop still runs: a
-- MESSAGE frame that comes then makes it panic.
pub run-panics :
    (sub : Subscription) (s : Live) (f : Frame)
    → IsOpen s
    → f.command ≡ Command.message
    → run sub (unsubscribe ∷ send_failed ∷ input (some f) ∷ []) s ≡ panicked
unfolding run on_event on_input begin_closing close_channel send_message
run-panics sub s f o k = ground arith
