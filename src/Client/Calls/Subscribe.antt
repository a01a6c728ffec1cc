-- ===== src/Client/Calls/Subscribe.antt =====
-- conn.go: `Subscribe`, and subscription.go: `Unsubscribe` up to its wait for the loop.
pub mod Delivers
use go_stomp.Base.{Bytes, Bool, true, false, Option, none, some, List, [], ◌∷◌, if◌then◌else◌}
use go_stomp.Client.AckMode.{Mode, mode_string}
use go_stomp.Client.Calls.{
  Client, Done, M, ◌>>=◌, ◌>>◌, pure, fail, get_conn, put_conn, when, by_option, next_id,
  make_channel, Answers, FrameOption, apply_option, run_options, count_write, send_request,
  send_frame,
}
use go_stomp.Client.Errors.{closed_unexpectedly, nil_option, completed_subscription}
use go_stomp.Client.Message.{Subscription}
use go_stomp.Client.Subscription.{SubState, active, closing, closed}
use go_stomp.Frame.Command.{Command}
use go_stomp.Frame.Data.{Frame, new}
use go_stomp.Frame.Header.{set, add, contains}
use go_stomp.Frame.Names

abbrev is_some : {A : Type 0} → Option A → Bool
is_some none = false
is_some (some a) = true

-- The header "reply-to", where it is set, is the id too.
unfoldable pub with_reply_to : Frame → Frame
unfolding contains set
with_reply_to f = elim (contains f.header Names.reply_to) [
  | none ↦ f
  | some reply_to ↦ record f { header = set f.header Names.id reply_to }
]

-- The header's id, or a new one, with the frame that carries it.
unfoldable pub with_id : Frame → M (Bytes × Frame)
unfolding contains add
with_id f =
    by_option (contains f.header Names.id)
      (do id ← next_id; pure (id, record f { header = add f.header Names.id id }))
      λ id. pure (id, f)

-- The loop over the options of `Unsubscribe`.
unfoldable pub run_all_options : List (Option FrameOption) → Frame → M Frame
run_all_options [] f = pure f
run_all_options (none ∷ opts) f = fail nil_option
run_all_options (some opt ∷ opts) f = apply_option opt f >>= run_all_options opts

module _ (w : Answers) where
  unfoldable pub subscribe : Bytes → Mode → List (Option FrameOption) → M Subscription
  unfolding new mode_string run_options contains with_reply_to with_id count_write send_request
  subscribe destination mode opts = do
    c ← get_conn
    when c.closed (put_conn (record c { link_closed = true }) >> fail closed_unexpectedly)
    ch ← make_channel
    f ← run_options opts (
        new Command.subscribe
          ((Names.destination, destination) ∷ (Names.ack, mode_string mode) ∷ []))
    (id, g) ← with_id (with_reply_to f)
    count_write
    send_request w (record { frame = g; channel = some ch })
    pure (record {
      id = id;
      reply_to_set = is_some (contains f.header Names.reply_to);
      destination = destination;
      ack_mode = mode;
    })

  -- The UNSUBSCRIBE frame, sent once the state has gone from active to closing.
  unfoldable pub send_unsubscribe : Subscription → List (Option FrameOption) → M (Unit {0})
  unfolding new run_all_options set send_frame
  send_unsubscribe sub opts = do
    f ← run_all_options opts (new Command.unsubscribe ((Names.id, sub.id) ∷ []))
    send_frame w
        (if sub.reply_to_set then record f { header = set f.header Names.reply_to sub.id } else f)

  -- `Unsubscribe` on the state, which it changes whether the frame is sent or not.
  unfoldable pub unsubscribe :
      Subscription → SubState → List (Option FrameOption) → Client → SubState × Done (Unit {0})
  unfolding send_unsubscribe
  unsubscribe sub active opts c = (closing, send_unsubscribe sub opts c)
  unsubscribe sub closing opts c = (closing, fail completed_subscription c)
  unsubscribe sub closed opts c = (closed, fail completed_subscription c)
