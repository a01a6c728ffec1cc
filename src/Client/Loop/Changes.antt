-- ===== src/Client/Loop/Changes.antt =====
-- What a change of the map of channels, and a write, leave sound.
use go_stomp.Base.{
  ℕ, suc, ◌≤◌, ◌≡◌, ◌≢◌, refl, Bytes, false, Option, none, some, List, find, insert, delete, arith,
  Option-cases, Bool-cases, inl, inr,
}
use go_stomp.Client.Conn.{WriteRequest}
use go_stomp.Client.Loop.{
  ChannelUse, Loop, is_shut, channels_of, went_on, close_channel, send_error, on_unsubscribe,
  write_or_stop, stop, pure, ◌>>◌, id_of,
}
use go_stomp.Client.Loop.Channels.{Live, IsSound, All-imp, All-find, All-insert, Apart-insert}
use go_stomp.Client.Loop.Safety.{
  Safe, Safe-go_on, Safe-eq, Shuts, close_channel-Safe, stop_with-Safe,
}
use go_stomp.Client.Loop.Safety.Frames.{taken-IsSound}
use go_stomp.Frame.Data.{Frame}
use go_stomp.Frame.Header.{contains, set}
use go_stomp.Frame.Link.{Link, write_link}
use go_stomp.Frame.Names

Live-le :
    (n k : ℕ) (uses : List ChannelUse) (ch : Option ℕ) → n ≤ k → Live n uses ch → Live k uses ch
Live-le n k uses none h l = l
Live-le n k uses (some c) h l = (l.0, omega arith)

Live-apart :
    (n c : ℕ) (uses : List ChannelUse) (ch : Option ℕ) → n ≤ c → Live n uses ch → some c ≢ ch
Live-apart n c uses none h l e = absurd l
Live-apart n c uses (some d) h l e = ground (arith, e)

module _ (n : ℕ) (s : Loop) (sound : IsSound n s) where
  open sound use {live, apart, shut_below}

  pub raise-IsSound : (k : ℕ) → n ≤ k → IsSound k s
  raise-IsSound k h = record {
    live = All-imp (λ x. Live-le n k s.uses x h) (channels_of s.channels) live;
    apart = apart;
    shut_below = λ c q. omega (arith, shut_below c q);
  }

  relink-IsSound : (l : Link) → IsSound n (record s { link = l })
  relink-IsSound l = record { live = live; apart = apart; shut_below = shut_below }

  -- A new channel in the map.
  pub put-IsSound :
      (key : Bytes) (c : ℕ)
      → n ≤ c
      → IsSound (suc c) (record s { channels = insert s.channels key (some c) })
  put-IsSound key c h = record {
    live =
        All-insert (Live (suc c) s.uses) s.channels key (some c) (open_lem, omega arith)
          (All-imp (λ x. Live-le n (suc c) s.uses x (omega arith)) (channels_of s.channels) live);
    apart =
        Apart-insert s.channels key (some c)
          (All-imp (λ x. Live-apart n c s.uses x h) (channels_of s.channels) live) apart;
    shut_below = λ d q. omega (arith, shut_below d q);
  }
    where
      open_lem : is_shut c s.uses ≡ false
      open_lem = elim (Bool-cases (is_shut c s.uses)) [
        | inl e ↦ absurd (omega (arith, shut_below c e))
        | inr e ↦ e
      ]

  pub write_or_stop-Safe :
      (fault : Bytes) (f : Option Frame) → Safe (λ u t. IsSound n t) (write_or_stop fault f s)
  unfolding write_or_stop
  write_or_stop-Safe fault f = elim (Option-cases (write_link f s.link)) [
    | inl e ↦
        Safe-eq (λ u t. IsSound n t) {k = (send_error fault >> stop) s} (cc)
          (stop_with-Safe n (λ u t. IsSound n t) fault s live)
    | inr (l, e) ↦
        Safe-eq (λ u t. IsSound n t) {k = went_on tt (record s { link = l })} (cc)
          (relink-IsSound l)
  ]

  pub on_unsubscribe-Safe : (req : WriteRequest) → Safe (λ u t. IsSound n t) (on_unsubscribe req s)
  unfolding on_unsubscribe
  on_unsubscribe-Safe req = elim (Option-cases (contains req.frame.header Names.reply_to)) [
    | inl e ↦
        Safe-eq (λ u t. IsSound n t)
          {k = went_on
            (some (record (req.frame) {
              header = set req.frame.header Names.receipt (id_of req.frame);
            }))
            s}
          (cc) sound
    | inr (id, e) ↦ elim (Option-cases (find s.channels id)) [
      | inl q ↦ Safe-eq (λ u t. IsSound n t) {k = went_on none s} (cc) sound
      | inr (ch, q) ↦
          Safe-eq (λ u t. IsSound n t)
            {k = (close_channel ch >> pure none) (record s { channels = delete s.channels id })}
            (cc)
            (Safe-go_on (λ u t. Shuts ch (record s { channels = delete s.channels id }) t)
              (λ u t. IsSound n t) (close_channel ch (record s { channels = delete s.channels id }))
              (λ u. pure none)
              (close_channel-Safe n ch (record s { channels = delete s.channels id })
                (All-find (Live n s.uses) s.channels id q live))
              λ u t k. taken-IsSound n req.frame s sound id ch s t q (refl, λ c. refl) k)
    ]
  ]
