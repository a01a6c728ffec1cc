-- ===== src/System/Received.antt =====
-- A message that the request processor handed to a subscription, up to the channel that its client reads.
use go_stomp.Base.{
  inr, inl, Bool-cases, ℕ, ◌+◌, ◌%◌, ◌^◌, ◌≡◌, refl, sym, ap, ◌∙◌, Bytes, true, false, none, some,
  [], ◌∷◌, ◌++◌, str_eq, if◌then◌else◌, arith, append-nil, find,
}
use go_stomp.Client
use go_stomp.Client.Loop.{is_shut}
use go_stomp.Server.Broker.Queues.{addressed}
use go_stomp.Client.Message.{Subscription}
use go_stomp.Client.Subscription.{Live, done, active, message_of, on_input, send_message, input}
use go_stomp.Frame.Command.{Command}
use go_stomp.Frame.Data.{Frame}
use go_stomp.Frame.Header.{set, contains, get}
use go_stomp.Frame.Header.Laws.{contains-set, contains-del}
use go_stomp.Frame.Names
use go_stomp.Server
use go_stomp.Server.Conn.{Config, St, send_immediately, write_link, returned}
use go_stomp.Server.Conn.Loop.{
  on_event, subscription_ready, on_subscription, allocate_message_id, number_frame, after_write,
}
use go_stomp.Server.Objects.{Heap, Request, subscribe_op, set_frame, set_sub_list, conn_list}
use go_stomp.Server.SubscriptionList
use go_stomp.Std.Strconv.{format_uint}

-- The number of the next message of a connection.
abbrev pub next_number : St → ℕ
next_number s = (s.conn.last_msg_id + 1) % 2 ^ 64

-- `allocateMessageId` leaves a frame its other headers.
number_frame-contains :
    (n : ℕ) (ack : Bytes) (f : Frame) (j : Bytes)
    → str_eq Names.message_id j ≡ false
    → str_eq Names.id j ≡ false
    → str_eq Names.ack j ≡ false
    → contains (number_frame n ack f).header j ≡ contains f.header j
unfolding number_frame
number_frame-contains n ack f j p q r =
    let id = format_uint n in
    ground (
      arith,
      contains-set f.header Names.message_id id j,
      contains-set (set f.header Names.message_id id) Names.id id j,
      contains-set (set (set f.header Names.message_id id) Names.id id) Names.ack id j,
      contains-del (set (set f.header Names.message_id id) Names.id id) Names.ack j,
    )

-- What the connection does with the subscription once the frame is written.
abbrev pub Settled : ℕ → Bytes → St → St → Type 0
Settled a ack s t =
    (t.requests ≡ s.requests ++ (if str_eq ack Names.ack_auto then subscribe_op a ∷ [] else []))
    × (t.conn.sub_list ≡ s.conn.sub_list ++ (if str_eq ack Names.ack_auto then [] else a ∷ []))

after_write-Settled :
    (a : ℕ) (ack : Bytes) (s : St)
    → (s.heap.at a).ack ≡ ack
    → (s.heap.at a).sub_list ≡ none
    → (t : St) × (after_write a s ≡ returned true t)
      × (t.conn.link ≡ s.conn.link)
      × Settled a ack s t
unfolding after_write SubscriptionList.add
after_write-Settled a ack s k n = elim (Bool-cases (str_eq ack Names.ack_auto)) [
  | inl e ↦ (
    record s { heap = set_frame s.heap a none; requests = s.requests ++ subscribe_op a ∷ [] },
    rw (k, e) refl,
    refl,
    (rw e refl, rw e (sym (append-nil _))),
  )
  | inr e ↦ (
    record s {
      heap = set_sub_list s.heap a (some (conn_list s.conn.address));
      conn = record (s.conn) { sub_list = s.conn.sub_list ++ a ∷ [] };
    },
    ground (arith, k, e, n),
    refl,
    (rw e (sym (append-nil _)), rw e refl),
  )
]

pub allocate_message_id-message :
    (f : Frame) (ack : Bytes) (s : St)
    → f.command ≡ Command.message
    → allocate_message_id f ack s
      ≡ returned
          (number_frame (next_number s) ack f)
          (record s { conn = record (s.conn) { last_msg_id = next_number s } })
unfolding allocate_message_id
allocate_message_id-message f ack s c = rw c refl

pub on_subscription-writes :
    (config : Config) (a b : ℕ) (f : Frame) (s : St)
    → find s.conn.subs (s.heap.at a).id ≡ some b
    → (s.heap.at a).frame ≡ some f
    → (s.heap.at a).sub_list ≡ none
    → f.command ≡ Command.message
    → s.conn.link.room ≡ none
    → (t : St) × (on_event config (subscription_ready a) s ≡ returned true t)
      × (t.conn.link.written
          ≡ s.conn.link.written ++ some (number_frame (next_number s) (s.heap.at a).ack f) ∷ [])
      × Settled a (s.heap.at a).ack s t
unfolding on_event on_subscription send_immediately write_link
on_subscription-writes config a b f s k q n c r =
    let ack = (s.heap.at a).ack in
    let g = number_frame (next_number s) ack f in
    let s' : St = record s {
      conn = record (s.conn) {
        last_msg_id = next_number s;
        link = record (s.conn.link) { written = s.conn.link.written ++ some g ∷ [] };
      };
      heap = set_frame s.heap a (some g);
    } in
    let (t, e, same, end) = after_write-Settled a ack s' (ground arith) (ground (arith, n)) in
    (
      t,
      ground (arith, k, q, allocate_message_id-message f ack s c, r, e),
      ap (λ l. l.written) same,
      end,
    )

-- The client's end: the subscription `id` has a channel that is open, and its loop runs.
pub record IsListening (id : Bytes) (ch : ℕ) (l : Client.Loop.Loop) (live : Live) : Type 0 where
  pub channel : find l.channels id ≡ some (some ch)
  pub unshut : is_shut ch l.uses ≡ false
  pub unclosed : live.shut ≡ false
  pub running : live.running ≡ true

pub on_event-sends_message :
    (sub : Subscription) (f : Frame) (live : Live)
    → f.command ≡ Command.message
    → live.shut ≡ false
    → live.running ≡ true
    → Client.Subscription.on_event sub (input (some f)) live
      ≡ done (record live { sent = live.sent ++ message_of sub f ∷ [] })
unfolding Client.Subscription.on_event on_input send_message
on_event-sends_message sub f live c o r = ground (arith, c, o, r)

pub number_frame-keeps :
    (n : ℕ) (ack : Bytes) (f : Frame)
    → ((number_frame n ack f).command ≡ f.command) × ((number_frame n ack f).body ≡ f.body)
unfolding number_frame
number_frame-keeps n ack f = (refl, refl)

-- What the subscription's message says of a frame that was addressed to it and numbered.
pub message_of-numbered :
    (sub : Subscription) (owner : Server.Objects.Subscription) (n : ℕ) (ack : Bytes) (f : Frame)
    → (contains (number_frame n ack (addressed owner f)).header Names.subscription ≡ some owner.id)
      × ((message_of sub (number_frame n ack (addressed owner f))).destination
          ≡ get f.header Names.destination)
      × ((message_of sub (number_frame n ack (addressed owner f))).content_type
          ≡ get f.header Names.content_type)
      × ((message_of sub (number_frame n ack (addressed owner f))).body ≡ f.body)
unfolding message_of get str_eq
message_of-numbered sub owner n ack f =
    let kept = number_frame-contains n ack (addressed owner f) in
    let set_id = contains-set f.header Names.subscription owner.id in
    (
      kept Names.subscription refl refl refl ∙ set_id Names.subscription,
      ap (λ o. elim o [ none ↦ [] | some v ↦ v ])
          (kept Names.destination refl refl refl ∙ set_id Names.destination),
      ap (λ o. elim o [ none ↦ [] | some v ↦ v ])
          (kept Names.content_type refl refl refl ∙ set_id Names.content_type),
      (number_frame-keeps n ack (addressed owner f)).1,
    )
