-- ===== src/Server/Broker/References.antt =====
-- server/topic/topic.go: `Enqueue`, with server/client/subscription.go, `SendTopicFrame`, on frames
-- that share a header: a `*Header` is an address, and `Set` changes the header at it. A frame is a
-- value with the address of its header, since the code changes nothing else of it.
pub mod Copies
use go_stomp.Base.{
  ℕ, ◌≡◌, ◌≢◌, ◌≤◌, ◌<◌, ◌+◌, ◌==◌, refl, sym, ap, ◌∙◌, Bytes, Option, none, some, List, [], ◌∷◌,
  map, All, arith, if◌then◌else◌, ◌⊎◌, inl, inr,
}
use go_stomp.Frame.Command.{Command}
use go_stomp.Frame.Data.{Frame}
use go_stomp.Frame.Header
use go_stomp.Frame.Header.{Header, set}
use go_stomp.Frame.Header.Laws.{clone_lem}
use go_stomp.Frame.Names
use go_stomp.Server.Objects.{
  Heap, Delivery, to_write_channel, Outcome, done, panicked, ◌>>=◌, frame_pending,
}
use go_stomp.Server.Broker.Queues.{addressed}
use go_stomp.Server.Broker.Topics.{copy_for, send_to_all-copies}
use go_stomp.Server.Broker.{send_to_all}

-- `Frame`.
pub record FrameRef : Type 0 where
  pub command : Command
  pub header : ℕ
  pub body : Bytes

-- What the addresses of headers hold. Those from `next` on are not in use.
pub record Headers : Type 0 where
  pub next : ℕ
  pub at : ℕ → Header

-- `f.Clone()`, which gives the copy a header of its own.
unfoldable pub clone : FrameRef → Headers → FrameRef × Headers
clone f m = (
  record f { header = m.next },
  record {
    next = m.next + 1;
    at = λ q. if m.next == q then Header.clone (m.at f.header) else m.at q;
  },
)

-- `f.Header.Set(key, value)`.
abbrev set_header : FrameRef → Bytes → Bytes → Headers → Headers
set_header f key value m = record m {
  at = λ q. if f.header == q then set (m.at f.header) key value else m.at q;
}

-- `sub.SendTopicFrame(f)`: the connection, and the frame put on its write channel.
unfoldable pub send_topic_frame : Heap → ℕ → FrameRef → Headers → Outcome (Headers × ℕ × FrameRef)
send_topic_frame h a f m = elim (h.at a).frame [
  | some pending ↦ panicked frame_pending
  | none ↦ done (set_header f Names.subscription (h.at a).id m, (h.at a).conn, f)
]

-- `t.Enqueue(f)`, with the subscriptions of the topic.
unfoldable pub enqueue :
    Heap → List ℕ → FrameRef → Headers → Outcome (Headers × List (ℕ × FrameRef))
unfolding clone send_topic_frame
enqueue h [] f m = done (m, [])
enqueue h (a ∷ []) f m = do (m', c, g) ← send_topic_frame h a f m; done (m', (c, g) ∷ [])
enqueue h (a ∷ b ∷ l) f m =
    let (copy, m') = clone f m in
    do
      (m'', c, g) ← send_topic_frame h a copy m'
      (after, more) ← enqueue h (b ∷ l) f m''
      done (after, (c, g) ∷ more)

-- A frame as it reads.
abbrev pub read : Headers → FrameRef → Frame
read m f = record { command = f.command; header = m.at f.header; body = f.body }

-- What a connection finds in its write channel once `Enqueue` has returned.
abbrev pub received : Headers → ℕ × FrameRef → Delivery
received m (c, f) = to_write_channel c (read m f)

-- No two of the frames share a header.
abbrev pub AreApart : List (ℕ × FrameRef) → Type 0
AreApart [] = Unit
AreApart (d ∷ ds) = All (λ e. d.1.header ≢ e.1.header) ds × AreApart ds
