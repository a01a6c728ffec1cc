-- ===== src/Client/ReadLoop.antt =====
-- conn.go: `readLoop` of the client, and the counter of the frames that it read.
use go_stomp.Base.{
  ℕ, zero, suc, ◌+◌, ◌%◌, ◌^◌, ◌≡◌, refl, Bool, true, false, Option, none, some, List, [], ◌∷◌,
  ◌++◌, map, ok, err, if◌then◌else◌, length, arith, Error, ◌<◌,
}
use go_stomp.Client.Conn.{Conn}
use go_stomp.Client.Loop.{Event, frame_read}
use go_stomp.Frame.Data.{Frame}
use go_stomp.Frame.Reader.{Chunks, read}
use go_stomp.Frame.Reader.Chunks.{flatten}
use go_stomp.Frame.Reader.Session.{written, AllSendable, read-end, read-written}

-- `atomic.AddInt64(&c.readsReceived, 1)`, of an int64 as its remainder.
unfoldable pub count_read : Bool → ℕ → ℕ
count_read enabled n = if enabled then (n + 1) % 2 ^ 64 else n

-- The loop, as what the process loop receives of it, with `readsReceived` at its end; a round of fuel
-- for each frame or heart-beat, and one for the end.
unfoldable pub read_loop : Error → Bool → ℕ → ℕ → Chunks → List Event × ℕ
unfolding count_read
read_loop fault enabled zero n input = ([], n)
read_loop fault enabled (suc fuel) n input = elim (read fault input) [
  | err e ↦ (frame_read none ∷ [], n)
  | ok (f, rest) ↦
      let (more, total) = read_loop fault enabled fuel (count_read enabled n) rest in
      (frame_read (some f) ∷ more, total)
]

-- `ConnectionStats`.
pub record ConnectionStats : Type 0 where
  pub current_write_chan_size : ℕ
  pub current_read_chan_size : ℕ
  pub writes_sent : ℕ
  pub reads_received : ℕ

-- `Stats`, given the lengths of the two channels and `readsReceived`.
unfoldable pub stats : ℕ → ℕ → ℕ → Conn → ConnectionStats
stats write_size read_size reads c = record {
  current_write_chan_size = write_size;
  current_read_chan_size = read_size;
  writes_sent = c.writes_sent;
  reads_received = reads;
}

AllSendable-rest :
    (f : Option Frame) (fs : List (Option Frame)) → AllSendable (f ∷ fs) → AllSendable fs
AllSendable-rest none fs v = v
AllSendable-rest (some f) fs v = v.1

count_read-more :
    (enabled : Bool) (n k : ℕ)
    → (if enabled then (count_read enabled n + k) % 2 ^ 64 else count_read enabled n)
      ≡ (if enabled then (n + suc k) % 2 ^ 64 else n)
unfolding count_read
count_read-more true n k = omega arith
count_read-more false n k = refl

count_read-bound : (enabled : Bool) (n : ℕ) → n < 2 ^ 64 → count_read enabled n < 2 ^ 64
unfolding count_read
count_read-bound true n b = omega arith
count_read-bound false n b = b

count_read-none :
    (enabled : Bool) (n : ℕ) → n < 2 ^ 64 → n ≡ (if enabled then (n + 0) % 2 ^ 64 else n)
count_read-none true n b = omega arith
count_read-none false n b = refl

-- The frames and heart-beats that a server writes reach the client's process loop in their order, and
-- then the closing of its channel, however the connection cuts the bytes. With statistics enabled
-- the 64-bit counter grows by their number, and may wrap; otherwise it stays. The wire form can
-- carry each frame, and the rounds of the loop are at least one more than the frames and heart-beats.
pub read_loop-frame_read :
    (fault : Error) (enabled : Bool) (fs : List (Option Frame)) (fuel n : ℕ) (cs : Chunks)
    → AllSendable fs
    → flatten cs ≡ written fs
    → length fs < fuel
    → n < 2 ^ 64
    → (read_loop fault enabled fuel n cs).0
        ≡ map (λ f. frame_read (some f)) fs ++ frame_read none ∷ []
      × ((read_loop fault enabled fuel n cs).1 ≡ (if enabled then (n + length fs) % 2 ^ 64 else n))
unfolding read_loop
read_loop-frame_read fault enabled fs zero n cs v e l b = absurd (omega arith)
read_loop-frame_read fault enabled [] (suc fuel) n cs v e l b =
    ground (arith, read-end fault cs e, count_read-none enabled n b)
read_loop-frame_read fault enabled (f ∷ fs) (suc fuel) n cs v e l b =
    let (ds, q, d) = read-written fault f fs cs v e in
    let (same, total) =
      read_loop-frame_read fault enabled fs fuel (count_read enabled n) ds (AllSendable-rest f fs v)
        d (omega arith) (count_read-bound enabled n b) in
    ground (arith, q, same, total, count_read-more enabled n (length fs))
