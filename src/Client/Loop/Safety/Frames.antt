-- ===== src/Client/Loop/Safety/Frames.antt =====
-- What the loop does at a frame that it reads.
use mathlib.Core.Path.{subst}
use go_stomp.Base.{
  ℕ, ◌<◌, ◌≡◌, sym, ◌∙◌, Bytes, Option, none, some, find, delete, All, arith, Option-cases,
  Bool-cases, inl, inr, codes,
}
use go_stomp.Client.Loop.{
  ChannelUse, delivered, channel_closed, Loop, is_shut, channels_of, Turn, L, went_on, stopped,
  blocked, panicked, go_on, send_to, close_channel, send_each, send_error, finish_each, on_receipt,
  on_error, on_message, on_frame, remember, on_subscribe, on_unsubscribe, prepare, write_or_stop,
  on_request, Event, read_timeout, write_timeout, frame_read, write_request, on_event, process_loop,
  put_channels, stop, pure, get_channels, ◌>>◌, ◌>>=◌, id_of,
}
use go_stomp.Client.Loop.Channels.{
  Live, Apart, IsSound, All-imp, All-and, All-find, All-delete, Apart-delete, find-delete-Apart,
}
use go_stomp.Frame.Command.{Command}
use go_stomp.Frame.Data.{Frame}
use go_stomp.Frame.Header.{contains}
use go_stomp.Frame.Names
use go_stomp.Client.Loop.Safety.{
  Safe, Safe-go_on, Safe-imp, Safe-eq, SameShut, Shuts, Live-same, Live-shuts, send_to-Safe,
  close_channel-Safe, finish_each-Safe, stop_with-Safe,
}

module _ (n : ℕ) (f : Frame) (s : Loop) (sound : IsSound n s) where
  open sound use {live, apart, shut_below}

  pub on_error-Safe : Safe (λ u t. IsSound n t) (on_error f s)
  unfolding on_error
  on_error-Safe =
      Safe-go_on (λ u t. Unit {0}) (λ u t. IsSound n t) (finish_each f (channels_of s.channels) s)
        (λ u t. stopped (record t { conn = go_stomp.Client.Loop.close_conn t.conn }))
        (finish_each-Safe n f (channels_of s.channels) s live apart) λ u t e. tt

  IsSound-same : (t : Loop) → SameShut s t → IsSound n t
  IsSound-same t e = record {
    live =
        subst (λ m. All (Live n t.uses) (channels_of m)) (sym (e.0))
          (All-imp (λ x. Live-same n s t x e) (channels_of s.channels) live);
    apart = subst (λ m. Apart (channels_of m)) (sym (e.0)) apart;
    shut_below = λ c q. shut_below c (sym (e.1 c) ∙ q);
  }

  pub on_message-Safe : Safe (λ u t. IsSound n t) (on_message f s)
  unfolding on_message
  on_message-Safe = elim (Option-cases (contains f.header Names.subscription)) [
    | inl e ↦ Safe-eq (λ u t. IsSound n t) {k = went_on tt s} (cc) sound
    | inr (id, e) ↦ elim (Option-cases (find s.channels id)) [
      | inl q ↦ Safe-eq (λ u t. IsSound n t) {k = went_on tt s} (cc) sound
      | inr (ch, q) ↦
          Safe-eq (λ u t. IsSound n t) {k = send_to ch f s} (cc)
            (Safe-imp (λ u t. SameShut s t) (λ u t. IsSound n t) (send_to ch f s)
              (λ u t r. IsSound-same t r)
              (send_to-Safe n ch f s (All-find (Live n s.uses) s.channels id q live)))
    ]
  ]

  -- A channel that is taken out of the map and closed.
  pub taken-IsSound :
      (id : Bytes) (ch : Option ℕ) (r t : Loop)
      → find s.channels id ≡ some ch
      → SameShut s r
      → Shuts ch (record r { channels = delete s.channels id }) t
      → IsSound n t
  taken-IsSound id none r t q e k = absurd k
  taken-IsSound id (some d) r t q e k = record {
    live =
        subst (λ m. All (Live n t.uses) (channels_of m)) (sym (k.0))
          (All-and
            (λ x l p.
              Live-shuts n (record r { channels = delete s.channels id }) t (some d) x k
                (Live-same n s r x e l) p)
            (channels_of (delete s.channels id)) (All-delete (Live n s.uses) s.channels id live)
            (find-delete-Apart s.channels id q apart));
    apart = subst (λ m. Apart (channels_of m)) (sym (k.0)) (Apart-delete s.channels id apart);
    shut_below = λ c p. elim (Bool-cases (is_shut c s.uses)) [
      | inl w ↦ shut_below c w
      | inr w ↦
          subst (λ x. x < n) (ground (arith, k.1 c, e.1 c, w, p))
            (All-find (Live n s.uses) s.channels id q live).1
    ];
  }

  -- Sending, forgetting and closing, at a RECEIPT.
  abbrev answer : Bytes → Option ℕ → L (Unit {0})
  answer id ch = do send_to ch f; put_channels (delete s.channels id); close_channel ch

  answer-Safe :
      (id : Bytes) (ch : Option ℕ)
      → find s.channels id ≡ some ch
      → Safe (λ u t. IsSound n t) (answer id ch s)
  answer-Safe id ch q =
      let there = All-find (Live n s.uses) s.channels id q live in
      Safe-go_on (λ u r. SameShut s r) (λ u t. IsSound n t) (send_to ch f s)
        (λ u. put_channels (delete s.channels id) >> close_channel ch) (send_to-Safe n ch f s there)
        λ u r e.
          Safe-imp (λ v t. Shuts ch (record r { channels = delete s.channels id }) t)
            (λ v t. IsSound n t) (close_channel ch (record r { channels = delete s.channels id }))
            (λ v t k. taken-IsSound id ch r t q e k)
            (close_channel-Safe n ch (record r { channels = delete s.channels id })
              (Live-same n s r ch e there))

  pub on_receipt-Safe : Safe (λ u t. IsSound n t) (on_receipt f s)
  unfolding on_receipt
  on_receipt-Safe = elim (Option-cases (contains f.header Names.receipt_id)) [
    | inl e ↦
        Safe-eq (λ u t. IsSound n t) {k = (send_error (codes "missing receipt-id") >> stop) s} (cc)
          (stop_with-Safe n (λ u t. IsSound n t) (codes "missing receipt-id") s live)
    | inr (id, e) ↦ elim (Option-cases (find s.channels id)) [
      | inl q ↦ Safe-eq (λ u t. IsSound n t) {k = went_on tt s} (cc) sound
      | inr (ch, q) ↦ Safe-eq (λ u t. IsSound n t) {k = answer id ch s} (cc) (answer-Safe id ch q)
    ]
  ]

  pub on_frame-Safe : (c : Command) → Safe (λ u t. IsSound n t) (on_frame c f s)
  unfolding on_frame
  on_frame-Safe Command.connect = sound
  on_frame-Safe Command.stomp = sound
  on_frame-Safe Command.connected = sound
  on_frame-Safe Command.send = sound
  on_frame-Safe Command.subscribe = sound
  on_frame-Safe Command.unsubscribe = sound
  on_frame-Safe Command.ack = sound
  on_frame-Safe Command.nack = sound
  on_frame-Safe Command.begin = sound
  on_frame-Safe Command.commit = sound
  on_frame-Safe Command.abort = sound
  on_frame-Safe Command.disconnect = sound
  on_frame-Safe Command.message = on_message-Safe
  on_frame-Safe Command.receipt = on_receipt-Safe
  on_frame-Safe Command.error = on_error-Safe
