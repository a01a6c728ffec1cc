-- ===== src/Client/Loop/Receipts.antt =====
-- What becomes of a channel that waits for a receipt.
use go_stomp.Base.{
  ℕ, ◌≡◌, ◌≢◌, refl, ap, ◌∙◌, Bytes, true, false, none, some, [], ◌∷◌, ◌++◌, find, insert, delete,
  find-insert, find-delete, str_eq, str_eq_iff, arith, if◌then◌else◌,
}
use go_stomp.Client.Loop.{
  delivered, channel_closed, Loop, is_shut, went_on, panicked, send_on_closed, on_receipt,
  on_message, remember, on_subscribe, prepare, write_or_stop, on_request, frame_read, write_request,
  on_event, process_loop,
}
use go_stomp.Client.Loop.Channels.{is_shut-append}
use go_stomp.Frame.Command.{Command}
use go_stomp.Frame.Data.{Frame}
use go_stomp.Frame.Header.{contains}
use go_stomp.Frame.Names

-- A RECEIPT frame goes to the channel that waits for it, if that is open, which is then closed and
-- forgotten; every other channel stays in the map, and nothing else is sent or written.
pub on_event-receipt :
    (fault : Bytes) (s : Loop) (f : Frame) {id : Bytes} {c : ℕ}
    → f.command ≡ Command.receipt
    → contains f.header Names.receipt_id ≡ some id
    → find s.channels id ≡ some (some c)
    → is_shut c s.uses ≡ false
    → (t : Loop) × (on_event fault (frame_read (some (some f))) s ≡ went_on tt t)
      × (t.uses ≡ (s.uses ++ delivered c f ∷ []) ++ channel_closed c ∷ [])
      × (t.link ≡ s.link)
      × ((j : Bytes) → find t.channels j ≡ (if str_eq id j then none else find s.channels j))
unfolding on_event on_receipt
on_event-receipt fault s f {id} {c} k r q o = (
  record s {
    channels = delete s.channels id;
    uses = (s.uses ++ delivered c f ∷ []) ++ channel_closed c ∷ [];
  },
  ground (arith, k, r, q, o, is_shut-append c s.uses (delivered c f ∷ [])),
  refl,
  refl,
  find-delete s.channels id,
)

on_event-shut :
    (fault : Bytes) (s : Loop) (f : Frame) {id : Bytes} {c : ℕ}
    → f.command ≡ Command.message
    → contains f.header Names.subscription ≡ some id
    → find s.channels id ≡ some (some c)
    → is_shut c s.uses ≡ true
    → on_event fault (frame_read (some (some f))) s ≡ panicked send_on_closed
unfolding on_event on_message
on_event-shut fault s f k r q o = ground (arith, k, r, q, o)

module _ (fault : Bytes) (s : Loop) (g r m : Frame) (receipt id : Bytes) (c : ℕ) where
  abbrev subscribed : Loop
  subscribed = record s {
    channels = insert (insert s.channels receipt (some c)) id (some c);
    link = record (s.link) { written = s.link.written ++ some g ∷ [] };
  }

  on_event-subscribe :
      g.command ≡ Command.subscribe
      → contains g.header Names.receipt ≡ some receipt
      → contains g.header Names.id ≡ some id
      → contains g.header Names.reply_to ≡ none
      → s.link.room ≡ none
      → on_event fault (write_request (some (record { frame = g; channel = some c }))) s
        ≡ went_on tt subscribed
  unfolding on_event on_request remember prepare on_subscribe write_or_stop
  on_event-subscribe k p q n l = ground (arith, k, p, q, n, l)

  -- A SUBSCRIBE frame that asks for a receipt makes the client panic: the RECEIPT frame closes the
  -- channel of the subscription, and the next MESSAGE frame for the subscription is sent on it. The
  -- receipt is not the subscription's id, the channel is open, and the network takes the frame.
  pub process_loop-panics :
      g.command ≡ Command.subscribe
      → contains g.header Names.receipt ≡ some receipt
      → contains g.header Names.id ≡ some id
      → contains g.header Names.reply_to ≡ none
      → receipt ≢ id
      → is_shut c s.uses ≡ false
      → s.link.room ≡ none
      → r.command ≡ Command.receipt
      → contains r.header Names.receipt_id ≡ some receipt
      → m.command ≡ Command.message
      → contains m.header Names.subscription ≡ some id
      → process_loop fault
          (write_request (some (record { frame = g; channel = some c }))
            ∷ frame_read (some (some r))
            ∷ frame_read (some (some m))
            ∷ [])
          s
        ≡ panicked send_on_closed
  unfolding process_loop
  process_loop-panics k p q n d o l kr pr km pm =
      let twice = find-insert (insert s.channels receipt (some c)) id (some c) in
      let first = find-insert s.channels receipt (some c) in
      let (t, e, u, same, found) =
        on_event-receipt fault subscribed r kr pr
          (twice receipt
            ∙ ground (arith, str_eq_iff id receipt, str_eq_iff receipt receipt, first receipt))
          o in
      let shut : is_shut c t.uses ≡ true =
        ap (is_shut c) u
        ∙ ground (arith, is_shut-append c (s.uses ++ delivered c r ∷ []) (channel_closed c ∷ [])) in
      let here : find t.channels id ≡ some (some c) =
        found id ∙ ground (arith, str_eq_iff receipt id, str_eq_iff id id, twice id) in
      ground (arith, on_event-subscribe k p q n l, e, on_event-shut fault t m km pm here shut)
