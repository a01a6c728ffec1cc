-- ===== src/Frame/Reader/Session.antt =====
-- What `Read` makes of all that `Write` put on a connection, frames and heart-beats.
use go_stomp.Base.{
  ◌≡◌, refl, sym, ap, ◌∙◌, Bytes, Option, none, some, List, [], ◌∷◌, ◌++◌, ok, err, append-nil, All,
  Error, Result,
}
use go_stomp.Frame.Data.{Frame}
use go_stomp.Frame.Reader.{Chunks, read}
use go_stomp.Frame.Reader.Chunks.{Agree, flatten, read-Agree}
use go_stomp.Frame.Reader.RoundTrip.{IsSendable, read-write, read_line-append}
use go_stomp.Frame.Writer.{write, write_bytes}

-- The bytes that `Write` puts on a connection that takes them all; `none` is a heart-beat.
abbrev pub written : List (Option Frame) → Bytes
written [] = []
written (f ∷ fs) = (write f (record { sent = []; room = none })).0.sent ++ written fs

-- The frames among them.
abbrev pub frames : List (Option Frame) → List Frame
frames [] = []
frames (none ∷ fs) = frames fs
frames (some f ∷ fs) = f ∷ frames fs

abbrev pub AllSendable : List (Option Frame) → Type 0
AllSendable fs = All IsSendable (frames fs)

Agree-err : {A : Type 0} (r : Result (A × Chunks)) {e : Error} → Agree r (err e) → r ≡ err e
Agree-err (ok (a, cs)) h = absurd h
Agree-err (err e) h = ap err h

Agree-ok :
    {A : Type 0} (r : Result (A × Chunks)) {a : A} (cs : Chunks)
    → Agree r (ok (a, cs))
    → (ds : Chunks) × (r ≡ ok (a, ds)) × (flatten ds ≡ flatten cs)
Agree-ok (ok (a, ds)) cs h = (ds, ap (λ x. ok (x, ds)) (h.0), h.1)
Agree-ok (err e) cs h = absurd h

module _ (fault : Error) where
  pub read-end : (cs : Chunks) → flatten cs ≡ [] → read fault cs ≡ err fault
  unfolding read flatten
  read-end cs e = Agree-err (read fault cs) (read-Agree fault cs [] e)

  read-newline : (t : Bytes) → read fault ((b'\n' ∷ t) ∷ []) ≡ ok (none, t ∷ [])
  unfolding read
  read-newline t = rw (read_line-append fault [] t tt, read) refl

  read-heart_beat :
      (cs : Chunks) (fs : List (Option Frame))
      → flatten cs ≡ written (none ∷ fs)
      → Agree (read fault cs) (ok (none, written fs ∷ []))
  unfolding write write_bytes flatten
  read-heart_beat cs fs e =
      rw (read-newline (written fs)) at
        (read-Agree fault cs ((b'\n' ∷ written fs) ∷ []) (e ∙ sym (append-nil _)))

  read-Agree_written :
      (f : Option Frame) (fs : List (Option Frame)) (cs : Chunks)
      → AllSendable (f ∷ fs)
      → flatten cs ≡ written (f ∷ fs)
      → Agree (read fault cs) (ok (f, written fs ∷ []))
  read-Agree_written none fs cs v e = read-heart_beat cs fs e
  read-Agree_written (some f) fs cs v e = read-write fault f cs (written fs) (v.0) e

  -- One round of a loop that reads what was written.
  pub read-written :
      (f : Option Frame) (fs : List (Option Frame)) (cs : Chunks)
      → AllSendable (f ∷ fs)
      → flatten cs ≡ written (f ∷ fs)
      → (ds : Chunks) × (read fault cs ≡ ok (f, ds)) × (flatten ds ≡ written fs)
  unfolding flatten
  read-written f fs cs v e =
      let (ds, q, d) =
        Agree-ok (read fault cs) (written fs ∷ []) (read-Agree_written f fs cs v e) in
      (ds, q, d ∙ append-nil (written fs))
