-- ===== src/Server/Conn/ReadLoop.antt =====
-- server/client/conn.go: `readLoop`, which reads the frames that a client sends.
use go_stomp.Base.{
  ℕ, zero, suc, ◌*◌, ◌≡◌, Bool, true, false, Option, none, some, List, [], ◌∷◌, ◌++◌, map, ok, err,
  length, arith, Error, ◌<◌,
}
use go_stomp.Frame.Data.{Frame}
use go_stomp.Frame.HeartBeat.{millisecond}
use go_stomp.Frame.Reader.{Chunks, read}
use go_stomp.Frame.Reader.Chunks.{flatten}
use go_stomp.Frame.Reader.Session.{written, frames, AllSendable, read-end, read-written}
use go_stomp.Server.Conn.{Config}
use go_stomp.Server.Negotiation.{get_heart_beat, as_milliseconds, max_heart_beat, apply_minimum}

-- What the loop does: it sets the deadline for a read, 0 for none and else a time from now; it pushes
-- a frame onto the read channel; or it closes that channel.
pub data ReadAct : Type 0 where
  deadline : ℕ → ReadAct
  pushed : Frame → ReadAct
  shut_down : ReadAct

-- Whether a CONNECT frame is expected still, and the read timeout, after a frame.
unfoldable pub observe : Config → Frame → Bool × ℕ → Bool × ℕ
unfolding get_heart_beat apply_minimum as_milliseconds
observe config f (false, timeout) = (false, timeout)
observe config f (true, timeout) = elim (get_heart_beat f) [
  | err e ↦ (true, timeout)
  | ok (cx, cy) ↦
      (false, apply_minimum (as_milliseconds config.heart_beat max_heart_beat) cx * millisecond)
]

-- The loop, from `expectingConnect` and `readTimeout`; a round of fuel for each frame or heart-beat,
-- and one for the end.
unfoldable pub read_loop : Config → Error → ℕ → Bool × ℕ → Chunks → List ReadAct
unfolding observe
read_loop config fault zero state input = []
read_loop config fault (suc fuel) state input = deadline (state.1 * 2) ∷ elim (read fault input) [
  | err e ↦ shut_down ∷ []
  | ok (none, rest) ↦ read_loop config fault fuel state rest
  | ok (some f, rest) ↦ pushed f ∷ read_loop config fault fuel (observe config f state) rest
]

-- What the process loop receives, `none` for the closing of the channel.
abbrev pub received : List ReadAct → List (Option Frame)
received [] = []
received (deadline n ∷ acts) = received acts
received (pushed f ∷ acts) = some f ∷ received acts
received (shut_down ∷ acts) = none ∷ received acts

-- The frames that a client writes, with heart-beats anywhere between them, are pushed onto the read
-- channel in their order, and then the channel is closed, however the connection cuts the bytes: no
-- frame is lost, repeated or merged. The wire form can carry each frame, and the rounds are one more
-- than the frames and heart-beats.
pub read_loop-received :
    (config : Config) (fault : Error) (fs : List (Option Frame)) (fuel : ℕ) (state : Bool × ℕ)
    → (cs : Chunks) → AllSendable fs
    → flatten cs ≡ written fs
    → length fs < fuel
    → received (read_loop config fault fuel state cs) ≡ map some (frames fs) ++ none ∷ []
unfolding read_loop
read_loop-received config fault fs zero state cs v e l = absurd (omega arith)
read_loop-received config fault [] (suc fuel) state cs v e l = ground (arith, read-end fault cs e)
read_loop-received config fault (none ∷ fs) (suc fuel) state cs v e l =
    let (ds, q, d) = read-written fault none fs cs v e in
    let rest = read_loop-received config fault fs fuel state ds v d (omega arith) in
    ground (arith, q, rest)
read_loop-received config fault (some f ∷ fs) (suc fuel) state cs v e l =
    let (ds, q, d) = read-written fault (some f) fs cs v e in
    let rest =
      read_loop-received config fault fs fuel (observe config f state) ds (v.1) d (omega arith) in
    ground (arith, q, rest)
