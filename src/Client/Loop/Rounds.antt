-- ===== src/Client/Loop/Rounds.antt =====
-- The client's loop never panics on its channels: from one event to any sequence of them.
use go_stomp.Base.{ℕ, Bytes, none, some, List, [], ◌∷◌, codes}
use go_stomp.Client.Loop.{
  Loop, Turn, L, went_on, stopped, blocked, panicked, Event, read_timeout, write_timeout,
  frame_read, write_request, on_event, process_loop, must_disconnect,
}
use go_stomp.Client.Loop.Channels.{IsSound}
use go_stomp.Client.Loop.Safety.{Safe, stop_with-Safe}
use go_stomp.Client.Loop.Safety.Frames.{on_frame-Safe}
use go_stomp.Client.Loop.Requests.{next_channel, IsFresh, on_request-Safe}
use go_stomp.Client.Loop.Changes.{write_or_stop-Safe}

-- The events whose requests bring new channels, given a bound on those in use.
abbrev pub AllFresh : ℕ → List Event → Type 0
AllFresh n [] = Unit
AllFresh n (write_request (some req) ∷ es) =
    IsFresh n req.frame req.channel × AllFresh (next_channel n req.channel) es
AllFresh n (write_request none ∷ es) = AllFresh n es
AllFresh n (read_timeout ∷ es) = AllFresh n es
AllFresh n (write_timeout ∷ es) = AllFresh n es
AllFresh n (frame_read f ∷ es) = AllFresh n es

-- The bound after an event.
abbrev bound_after : ℕ → Event → ℕ
bound_after n (write_request (some req)) = next_channel n req.channel
bound_after n e = n

AllFresh-rest :
    (n : ℕ) (e : Event) (es : List Event) → AllFresh n (e ∷ es) → AllFresh (bound_after n e) es
AllFresh-rest n (write_request (some req)) es h = h.1
AllFresh-rest n (write_request none) es h = h
AllFresh-rest n read_timeout es h = h
AllFresh-rest n write_timeout es h = h
AllFresh-rest n (frame_read f) es h = h

on_event-Safe :
    (n : ℕ) (fault : Bytes) (e : Event) (es : List Event) (s : Loop)
    → IsSound n s
    → AllFresh n (e ∷ es)
    → Safe (λ u t. IsSound (bound_after n e) t) (on_event fault e s)
unfolding on_event
on_event-Safe n fault read_timeout es s x h =
    stop_with-Safe n (λ u t. IsSound n t) (codes "read timeout") s x.live
on_event-Safe n fault write_timeout es s x h = write_or_stop-Safe n s x fault none
on_event-Safe n fault (frame_read none) es s x h =
    stop_with-Safe n (λ u t. IsSound n t) (codes "connection closed") s x.live
on_event-Safe n fault (frame_read (some none)) es s x h = x
on_event-Safe n fault (frame_read (some (some f))) es s x h = on_frame-Safe n f s x f.command
on_event-Safe n fault (write_request none) es s x h =
    stop_with-Safe n (λ u t. IsSound n t) (codes "write channel closed") s x.live
on_event-Safe n fault (write_request (some req)) es s x h =
    on_request-Safe n req.frame req.channel fault s x h.0

-- What the loop does with the outcome of a round.
next_round-Safe :
    (k : ℕ) (m : Turn (Unit {0})) (more : L (Unit {0}))
    → Safe (λ u t. IsSound k t) m
    → ((t : Loop) → IsSound k t → Safe (λ u r. Unit {0}) (more t))
    → Safe
        (λ u t. Unit {0})
        (elim m [
          | went_on a t ↦ more t
          | stopped t ↦ stopped (record t { conn = must_disconnect t.conn })
          | blocked ↦ blocked
          | panicked p ↦ panicked p
        ])
next_round-Safe k (went_on a t) more h c = c t h
next_round-Safe k (stopped t) more h c = tt
next_round-Safe k blocked more h c = h
next_round-Safe k (panicked p) more h c = h

-- The client's loop never panics and never waits on a nil channel, whatever comes and in whatever
-- order: it sends on no closed channel and closes none twice. The channels that it starts with are
-- open, different and numbered below `n`; every request brings a channel that no one had before or
-- none, and a SUBSCRIBE frame brings one and asks for no receipt.
pub process_loop-Safe :
    (fault : Bytes) (es : List Event) (n : ℕ) (s : Loop)
    → IsSound n s
    → AllFresh n es
    → Safe (λ u t. Unit {0}) (process_loop fault es s)
unfolding process_loop
process_loop-Safe fault [] n s x h = tt
process_loop-Safe fault (e ∷ es) n s x h =
    next_round-Safe (bound_after n e) (on_event fault e s) (process_loop fault es)
      (on_event-Safe n fault e es s x h)
      λ t y. process_loop-Safe fault es (bound_after n e) t y (AllFresh-rest n e es h)
