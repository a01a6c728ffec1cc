-- ===== src/Server/Broker/Topics.antt =====
-- What a topic sends.
use go_stomp.Base.{ℕ, ◌≡◌, refl, none, List, [], ◌∷◌, map, All, arith}
use go_stomp.Frame.Data.{Frame, clone-eq_self}
use go_stomp.Server.Broker.{send_to_all}
use go_stomp.Server.Broker.Queues.{addressed}
use go_stomp.Server.Objects.{Heap, Delivery, to_write_channel, done}
use go_stomp.Server.Subscription.{send_topic_frame}

-- The frame on its way to a subscription's connection.
abbrev pub copy_for : Heap → Frame → ℕ → Delivery
copy_for h f a = to_write_channel (h.at a).conn (addressed (h.at a) f)

send_topic_frame_lem :
    (h : Heap) (a : ℕ) (f : Frame)
    → (h.at a).frame ≡ none
    → send_topic_frame h a f ≡ done (copy_for h f a)
unfolding send_topic_frame
send_topic_frame_lem h a f n = ground (arith, n)

-- A frame sent to a topic goes to every subscription of the topic, in the order of subscribing and
-- once for each time it subscribed, each copy with that subscription's id in its header and with
-- the same command, body and other headers; the subscriptions have no frame pending.
pub send_to_all-copies :
    (h : Heap) (l : List ℕ) (f : Frame)
    → All (λ a. (h.at a).frame ≡ none) l
    → send_to_all h l f ≡ done (map (copy_for h f) l)
unfolding send_to_all
send_to_all-copies h [] f v = refl
send_to_all-copies h (a ∷ []) f v = rw (send_topic_frame_lem h a f v.0)
send_to_all-copies h (a ∷ b ∷ l) f v =
    rw (clone-eq_self f, send_topic_frame_lem h a f v.0, send_to_all-copies h (b ∷ l) f v.1)
