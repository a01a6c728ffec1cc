-- ===== src/Client/Loop/Requests.antt =====
-- What the client's loop does with one request leaves its channels sound.
use go_stomp.Base.{
  ℕ, suc, ◌≤◌, ◌≡◌, ◌≢◌, refl, Bytes, Option, none, some, insert, arith, Option-cases, inl, inr,
}
use go_stomp.Client.Conn.{WriteRequest}
use go_stomp.Client.Loop.{
  Loop, Turn, L, went_on, stopped, blocked, panicked, go_on, remember, on_subscribe, prepare,
  write_or_stop, on_request, pure, ◌>>◌, ◌>>=◌, id_of,
}
use go_stomp.Client.Loop.Channels.{IsSound}
use go_stomp.Client.Loop.Safety.{Safe, Safe-go_on, Safe-eq}
use go_stomp.Frame.Command.{Command}
use go_stomp.Frame.Data.{Frame}
use go_stomp.Frame.Header.{contains}
use go_stomp.Frame.Names
use go_stomp.Client.Loop.Changes.{
  raise-IsSound, put-IsSound, write_or_stop-Safe, on_unsubscribe-Safe,
}

-- The bound on channels after a request.
abbrev pub next_channel : ℕ → Option ℕ → ℕ
next_channel n none = n
next_channel n (some c) = suc c

-- A channel that no one had before, and a SUBSCRIBE frame has one and asks for no receipt.
abbrev pub IsFresh : ℕ → Frame → Option ℕ → Type 0
IsFresh n g none = g.command ≢ Command.subscribe
IsFresh n g (some c) =
    (n ≤ c) × (g.command ≡ Command.subscribe → contains g.header Names.receipt ≡ none)

-- What the request leaves to be written, and the state, before it is written.
abbrev prepared : Command → WriteRequest → L (Option Frame)
prepared c req = remember req >> prepare c req

module _ (n : ℕ) (g : Frame) (s : Loop) (sound : IsSound n s) where
  remember-Safe :
      (ch : Option ℕ)
      → IsFresh n g ch
      → Safe
          (λ u t. IsSound (next_channel n ch) t)
          (remember (record { frame = g; channel = ch }) s)
  unfolding remember
  remember-Safe none h = sound
  remember-Safe (some c) h = elim (Option-cases (contains g.header Names.receipt)) [
    | inl e ↦
        Safe-eq (λ u t. IsSound (suc c) t) {k = went_on tt s} (cc)
          (raise-IsSound n s sound (suc c) (omega (arith, h.0)))
    | inr (r, e) ↦
        Safe-eq (λ u t. IsSound (suc c) t)
          {k = went_on tt (record s { channels = insert s.channels r (some c) })} (cc)
          (put-IsSound n s sound r c (h.0))
  ]

  on_subscribe-Safe :
      (c : ℕ)
      → n ≤ c
      → Safe (λ u t. IsSound (suc c) t) (on_subscribe (record { frame = g; channel = some c }) s)
  unfolding on_subscribe
  on_subscribe-Safe c h = elim (Option-cases (contains g.header Names.reply_to)) [
    | inl e ↦
        Safe-eq (λ u t. IsSound (suc c) t)
          {k = went_on (some g) (record s { channels = insert s.channels (id_of g) (some c) })} (cc)
          (put-IsSound n s sound (id_of g) c h)
    | inr (r, e) ↦
        Safe-eq (λ u t. IsSound (suc c) t)
          {k = went_on none (record s { channels = insert s.channels r (some c) })} (cc)
          (put-IsSound n s sound r c h)
  ]

  subscribed-Safe :
      (ch : Option ℕ)
      → IsFresh n g ch
      → g.command ≡ Command.subscribe
      → Safe
          (λ u t. IsSound (next_channel n ch) t)
          (prepared Command.subscribe (record { frame = g; channel = ch }) s)
  unfolding remember prepare
  subscribed-Safe none h p = absurd (h p)
  subscribed-Safe (some c) h p =
      let e = h.1 p in
      Safe-eq (λ u t. IsSound (suc c) t)
        {k = on_subscribe (record { frame = g; channel = some c }) s} (cc)
        (on_subscribe-Safe c (h.0))

go_on-go_on :
    {A B C : Type 0} (m : Turn A) (f : A → L B) (k : B → L C)
    → go_on (λ a. f a >>= k) m ≡ go_on k (go_on f m)
go_on-go_on (went_on a t) f k = refl
go_on-go_on (stopped t) f k = refl
go_on-go_on blocked f k = refl
go_on-go_on (panicked p) f k = refl

-- What `on_request` does once the frame is prepared.
abbrev write_prepared : Bytes → Option Frame → L (Unit {0})
write_prepared fault f = elim f [ none ↦ pure tt | some g ↦ write_or_stop fault (some g) ]

write_prepared-Safe :
    (n : ℕ) (s : Loop)
    → IsSound n s
    → (fault : Bytes) (f : Option Frame) → Safe (λ u t. IsSound n t) (write_prepared fault f s)
write_prepared-Safe n s sound fault none = sound
write_prepared-Safe n s sound fault (some g) = write_or_stop-Safe n s sound fault (some g)

-- After `remember`, any other command.
module _ (n : ℕ) (g : Frame) (ch : Option ℕ) where
  abbrev brought : WriteRequest
  brought = record { frame = g; channel = ch }

  other-Safe :
      (c : Command)
      → ((t : Loop)
          → IsSound (next_channel n ch) t
          → Safe (λ u r. IsSound (next_channel n ch) r) (prepare c brought t))
      → (s : Loop) → IsSound n s
      → IsFresh n g ch
      → Safe (λ u t. IsSound (next_channel n ch) t) (prepared c brought s)
  other-Safe c k s sound h =
      Safe-go_on (λ u t. IsSound (next_channel n ch) t) (λ u t. IsSound (next_channel n ch) t)
        (remember brought s) (λ u. prepare c brought) (remember-Safe n g s sound ch h)
        λ u t x. k t x

  prepared-Safe :
      (c : Command)
      → g.command ≡ c
      → (s : Loop) → IsSound n s
      → IsFresh n g ch
      → Safe (λ u t. IsSound (next_channel n ch) t) (prepared c brought s)
  unfolding prepare
  prepared-Safe Command.subscribe p = λ s sound h. subscribed-Safe n g s sound ch h p
  prepared-Safe Command.unsubscribe p =
      other-Safe Command.unsubscribe λ t x. on_unsubscribe-Safe (next_channel n ch) t x brought
  prepared-Safe Command.connect p = other-Safe Command.connect λ t x. x
  prepared-Safe Command.stomp p = other-Safe Command.stomp λ t x. x
  prepared-Safe Command.connected p = other-Safe Command.connected λ t x. x
  prepared-Safe Command.send p = other-Safe Command.send λ t x. x
  prepared-Safe Command.ack p = other-Safe Command.ack λ t x. x
  prepared-Safe Command.nack p = other-Safe Command.nack λ t x. x
  prepared-Safe Command.begin p = other-Safe Command.begin λ t x. x
  prepared-Safe Command.commit p = other-Safe Command.commit λ t x. x
  prepared-Safe Command.abort p = other-Safe Command.abort λ t x. x
  prepared-Safe Command.disconnect p = other-Safe Command.disconnect λ t x. x
  prepared-Safe Command.message p = other-Safe Command.message λ t x. x
  prepared-Safe Command.receipt p = other-Safe Command.receipt λ t x. x
  prepared-Safe Command.error p = other-Safe Command.error λ t x. x

  pub on_request-Safe :
      (fault : Bytes) (s : Loop)
      → IsSound n s
      → IsFresh n g ch
      → Safe (λ u t. IsSound (next_channel n ch) t) (on_request fault brought s)
  unfolding on_request
  on_request-Safe fault s sound h =
      Safe-eq (λ u t. IsSound (next_channel n ch) t)
        (go_on-go_on (remember brought s) (λ u. prepare g.command brought) (write_prepared fault))
        (Safe-go_on (λ u t. IsSound (next_channel n ch) t) (λ u t. IsSound (next_channel n ch) t)
          (prepared g.command brought s) (write_prepared fault)
          (prepared-Safe g.command refl s sound h)
          λ f t x. write_prepared-Safe (next_channel n ch) t x fault f)
