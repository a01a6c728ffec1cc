-- ===== src/System/OddMode.antt =====
-- A subscription in a mode that there is not, from its SUBSCRIBE frame to the ACK that stops the
-- server.
use mathlib.Core.Path.{subst}
use go_stomp.Base.{
  ℕ, ◌≡◌, refl, false, inl, insert, find-insert, str_eq_iff, ◌∙◌, Bytes, true, none, some, [], ◌∷◌,
  ◌++◌, str_eq, arith, find,
}
use go_stomp.Frame.Command.{Command}
use go_stomp.Frame.Data.{Frame}
use go_stomp.Frame.Header.{contains}
use go_stomp.Frame.Names
use go_stomp.Server.Conn.{Config, St, crashed, connected, returned, send_immediately}
use go_stomp.Server.Conn.Handlers.{
  ack_or_auto, handle_subscribe, call_state, run_connected, dispatch, handle_ack, settle, on_ack,
  send_receipt_immediately,
}
use go_stomp.Server.Conn.Loop.{
  on_event, on_read, validate, frame_read, subscription_ready, on_subscription, after_write,
  number_frame, run_events,
}
use go_stomp.Server.Objects.{
  alloc, invalid_ack, set_frame, set_sub_list, conn_list, subscribe_op, panicked,
}
use go_stomp.Server.SubscriptionList
use go_stomp.Server.SubscriptionList.Acks.{IsMode}
use go_stomp.Server.SubscriptionList.Modes.{on_ack-invalid}
use go_stomp.System.Acknowledged.{Acks}
use go_stomp.Server.Subscription.{new_subscription}
use go_stomp.Frame.Link.{write_link}
use go_stomp.System.Received.{next_number, allocate_message_id-message}
use go_stomp.System.Transactions.{run_events-goes_on}

-- A SUBSCRIBE frame with an id, a destination and a value of the header "ack".
pub record Subscribes (f : Frame) (id dest mode : Bytes) : Type 0 where
  pub command : f.command ≡ Command.subscribe
  pub named : contains f.header Names.id ≡ some id
  pub destined : contains f.header Names.destination ≡ some dest
  pub moded : contains f.header Names.ack ≡ some mode

-- A connection once it has written the message `g` of the subscription at `a`, in a mode other than
-- "auto".
abbrev written : St → ℕ → Frame → St
written s a g =
    let f = number_frame (next_number s) (s.heap.at a).ack g in
    record s {
      conn = record (s.conn) {
        last_msg_id = next_number s;
        link = record (s.conn.link) { written = s.conn.link.written ++ some f ∷ [] };
        sub_list = s.conn.sub_list ++ a ∷ [];
      };
      heap = set_sub_list (set_frame s.heap a (some f)) a (some (conn_list s.conn.address));
    }

after_write-kept :
    (t : St) (a : ℕ)
    → str_eq (t.heap.at a).ack Names.ack_auto ≡ false
    → (t.heap.at a).sub_list ≡ none
    → after_write a t
      ≡ returned true (record t {
        heap = set_sub_list t.heap a (some (conn_list t.conn.address));
        conn = record (t.conn) { sub_list = t.conn.sub_list ++ a ∷ [] };
      })
unfolding after_write SubscriptionList.add
after_write-kept t a k n = ground (arith, k, n)

on_event-written :
    (config : Config) (s : St) (a : ℕ) (g : Frame) {owner : ℕ}
    → find s.conn.subs (s.heap.at a).id ≡ some owner
    → (s.heap.at a).frame ≡ some g
    → str_eq (s.heap.at a).ack Names.ack_auto ≡ false
    → (s.heap.at a).sub_list ≡ none
    → g.command ≡ Command.message
    → s.conn.link.room ≡ none
    → on_event config (subscription_ready a) s ≡ returned true (written s a g)
unfolding on_event on_subscription send_immediately write_link
on_event-written config s a g known pending mode alone m r =
    let f = number_frame (next_number s) (s.heap.at a).ack g in
    let t : St = record s {
      conn = record (s.conn) {
        last_msg_id = next_number s;
        link = record (s.conn.link) { written = s.conn.link.written ++ some f ∷ [] };
      };
      heap = set_frame s.heap a (some f);
    } in
    let kept = after_write-kept t a (ground (arith, mode)) (ground (arith, alone)) in
    ground (arith, known, pending, allocate_message_id-message g (s.heap.at a).ack s m, r, kept)

module _ (config : Config) (s : St) (f g : Frame) (id dest mode : Bytes) where
  -- The address of the new subscription.
  abbrev new_sub : ℕ
  new_sub = s.heap.next

  -- The connection with the subscription.
  abbrev subscribed : St
  subscribed = record s {
    frame = f;
    heap = alloc s.heap (new_subscription s.conn.address dest id mode);
    conn = record (s.conn) { subs = insert s.conn.subs id new_sub };
    requests = s.requests ++ subscribe_op new_sub ∷ [];
  }

  -- The processor has given the subscription a message.
  abbrev given : St
  given = record subscribed { heap = set_frame subscribed.heap new_sub (some g) }

  abbrev wrote : St
  wrote = written given new_sub g

  on_event-subscribed :
      Subscribes f id dest mode
      → s.conn.state_func ≡ connected
      → find s.conn.subs id ≡ none
      → on_event config (frame_read (some f)) s ≡ returned true subscribed
  unfolding on_event on_read validate call_state run_connected dispatch handle_subscribe ack_or_auto
      new_subscription
  on_event-subscribed v k n = ground (arith, k, n, v.command, v.named, v.destined, v.moded)

  not-auto : ¬ IsMode mode → str_eq mode Names.ack_auto ≡ false
  not-auto n =
      ground (arith, str_eq_iff mode Names.ack_auto, λ (e : mode ≡ Names.ack_auto). n (inl e))

  on_event-writes :
      ¬ IsMode mode
      → g.command ≡ Command.message
      → s.conn.link.room ≡ none
      → on_event config (subscription_ready new_sub) given ≡ returned true wrote
  unfolding new_subscription
  on_event-writes n m r =
      let known : find given.conn.subs (given.heap.at new_sub).id ≡ some new_sub =
        ground (arith, find-insert s.conn.subs id new_sub id, str_eq_iff id id) in
      on_event-written config given new_sub g known (ground arith) (ground (arith, not-auto n))
        (ground arith) m r

  on_event-Acks :
      (k : Frame) (n : ℕ) (t : St)
      → Acks k n
      → t.conn.state_func ≡ connected
      → SubscriptionList.ack n on_ack t.heap t.conn.sub_list ≡ panicked invalid_ack
      → on_event config (frame_read (some k)) t ≡ crashed invalid_ack
  unfolding on_event on_read validate call_state run_connected dispatch handle_ack settle
      send_receipt_immediately
  on_event-Acks k n t v c e =
      ground (arith, c, v.command, v.no_receipt, v.no_transaction, v.named, v.number, e)

  -- A client can stop the server by the mode of a subscription. The server accepts a SUBSCRIBE
  -- frame with an id, a destination and a value of the header "ack" that is none of the three
  -- modes, and asks the processor for messages; once a MESSAGE frame of the subscription is
  -- written, the next ACK of any message, outside a transaction and without a receipt, makes the
  -- connection panic, whatever else waits for an acknowledgement. The connection is past the
  -- handshake, has no subscription with that id, and the network takes the message.
  pub subscribe-crashes :
      (k : Frame) (n : ℕ)
      → Subscribes f id dest mode
      → ¬ IsMode mode
      → g.command ≡ Command.message
      → Acks k n
      → s.conn.state_func ≡ connected
      → s.conn.link.room ≡ none
      → find s.conn.subs id ≡ none
      → (t : St) × (run_events config (frame_read (some f) ∷ []) s ≡ returned tt t)
        × (t.requests ≡ s.requests ++ subscribe_op s.heap.next ∷ [])
        × (run_events config
              (subscription_ready s.heap.next ∷ frame_read (some k) ∷ [])
              (record t { heap = set_frame t.heap s.heap.next (some g) })
            ≡ crashed invalid_ack)
  unfolding run_events
  subscribe-crashes k n v odd m w c r fresh =
      let panics = on_event-Acks k n wrote w c (
        on_ack-invalid n s.conn.sub_list new_sub wrote.heap
          λ e. odd (subst IsMode (unfold new_subscription in ground arith) e)) in
      (
        subscribed,
        run_events-goes_on config (frame_read (some f)) [] s subscribed
            (on_event-subscribed v c fresh),
        refl,
        run_events-goes_on config (subscription_ready new_sub) (frame_read (some k) ∷ []) given
              wrote (on_event-writes odd m r)
            ∙ ground (arith, panics),
      )
