-- ===== src/Server/Subscription.antt =====
-- server/client/subscription.go.
use go_stomp.Base.{ℕ, Bytes, Bool, true, none, some, str_eq, leb, ◌==◌, if◌then◌else◌}
use go_stomp.Frame.Data.{Frame}
use go_stomp.Frame.Header.{set}
use go_stomp.Frame.Names
use go_stomp.Server.Objects.{
  Subscription, Heap, set_frame, Delivery, to_sub_channel, to_write_channel, Outcome, done,
  panicked, ◌>>=◌, frame_pending, invalid_ack,
}

unfoldable pub new_subscription : ℕ → Bytes → Bytes → Bytes → Subscription
new_subscription c dest id ack = record {
  conn = c;
  dest = dest;
  id = id;
  ack = ack;
  msg_id = 0;
  sub_list = none;
  frame = none;
}

unfoldable pub is_acked_by : Subscription → ℕ → Outcome Bool
is_acked_by s msg_id =
    if str_eq s.ack Names.ack_auto
    then done true
    else if str_eq s.ack Names.ack_client
    then done (leb s.msg_id msg_id)
    else if str_eq s.ack Names.ack_client_individual
    then done (msg_id == s.msg_id)
    else panicked invalid_ack

unfoldable pub is_nacked_by : Subscription → ℕ → Bool
is_nacked_by s msg_id = msg_id == s.msg_id

-- The frame with its new header.
unfoldable pub set_subscription_header : Subscription → Frame → Outcome Frame
unfolding set
set_subscription_header s f = elim s.frame [
  | some pending ↦ panicked frame_pending
  | none ↦ done (record f { header = set f.header Names.subscription s.id })
]

unfoldable pub send_queue_frame : Heap → ℕ → Frame → Outcome (Heap × Delivery)
unfolding set_subscription_header
send_queue_frame h a f = do
  g ← set_subscription_header (h.at a) f
  done (set_frame h a (some g), to_sub_channel (h.at a).conn a)

unfoldable pub send_topic_frame : Heap → ℕ → Frame → Outcome Delivery
unfolding set_subscription_header
send_topic_frame h a f = do
  g ← set_subscription_header (h.at a) f
  done (to_write_channel (h.at a).conn g)
