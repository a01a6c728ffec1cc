-- ===== src/System/Acknowledged.antt =====
-- A message of a queue in the mode "client", from its subscription to its acknowledgement.
use go_stomp.Base.{
  ℕ, ◌≡◌, refl, ap, ◌∙◌, Bytes, true, none, some, [], ◌∷◌, ◌++◌, ok, str_eq, arith, find, ◌≤◌,
}
use go_stomp.Frame.Command.{Command}
use go_stomp.Frame.Data.{Frame}
use go_stomp.Frame.Header.{contains}
use go_stomp.Frame.Names
use go_stomp.Server.Broker.{Broker, is_queue_destination, process}
use go_stomp.Server.Broker.Queues.{subscribe-panics}
use go_stomp.Server.Conn.{Config, St, connected, returned, send_immediately}
use go_stomp.Server.Conn.Handlers.{
  acked_id, call_state, run_connected, dispatch, handle_ack, settle, on_ack,
  send_receipt_immediately,
}
use go_stomp.Server.Conn.Loop.{
  on_event, on_read, validate, frame_read, subscription_ready, on_subscription, after_write,
  number_frame, run_events,
}
use go_stomp.Server.Objects.{
  Heap, set_frame, set_sub_list, conn_list, subscribe_op, panicked, already_in_list, done,
}
use go_stomp.Server.SubscriptionList
use go_stomp.Server.SubscriptionList.Acks.{ack-client}
use go_stomp.Server.Storage.{Storage, IsFifo}
use go_stomp.Frame.Link.{write_link}
use go_stomp.Std.Strconv.{parse_uint, max_uint64}
use go_stomp.System.Received.{next_number, allocate_message_id-message}
use go_stomp.System.Transactions.{run_events-goes_on}

-- A subscription in the mode "client" with a message that its connection may write.
pub record IsWaiting (s : St) (a : ℕ) (f : Frame) : Type 0 where
  pub known : (owner : ℕ) × (find s.conn.subs (s.heap.at a).id ≡ some owner)
  pub frame : (s.heap.at a).frame ≡ some f
  pub mode : (s.heap.at a).ack ≡ Names.ack_client
  pub alone : (s.heap.at a).sub_list ≡ none
  pub message : f.command ≡ Command.message
  pub first : s.conn.sub_list ≡ []
  pub stage : s.conn.state_func ≡ connected
  pub room : s.conn.link.room ≡ none

-- An ACK frame that names the message `n`.
pub record Acks (g : Frame) (n : ℕ) : Type 0 where
  pub command : g.command ≡ Command.ack
  pub no_receipt : contains g.header Names.receipt ≡ none
  pub no_transaction : contains g.header Names.transaction ≡ none
  pub id : Bytes
  pub named : acked_id g ≡ some id
  pub number : parse_uint max_uint64 id ≡ ok n

module _ (config : Config) (s : St) (a : ℕ) (f : Frame) where
  abbrev numbered : Frame
  numbered = number_frame (next_number s) (s.heap.at a).ack f

  -- The connection once it has written the message.
  abbrev wrote : St
  wrote = record s {
    conn = record (s.conn) {
      last_msg_id = next_number s;
      link = record (s.conn.link) { written = s.conn.link.written ++ some numbered ∷ [] };
      sub_list = a ∷ [];
    };
    heap = set_sub_list (set_frame s.heap a (some numbered)) a (some (conn_list s.conn.address));
  }

  after_write-client :
      (t : St)
      → (t.heap.at a).ack ≡ Names.ack_client
      → (t.heap.at a).sub_list ≡ none
      → after_write a t
        ≡ returned true (record t {
          heap = set_sub_list t.heap a (some (conn_list t.conn.address));
          conn = record (t.conn) { sub_list = t.conn.sub_list ++ a ∷ [] };
        })
  unfolding after_write SubscriptionList.add str_eq
  after_write-client t k n = ground (arith, k, n)

  on_event-writes : IsWaiting s a f → on_event config (subscription_ready a) s ≡ returned true wrote
  unfolding on_event on_subscription send_immediately write_link
  on_event-writes v =
      let t : St = record wrote {
        conn = record (wrote.conn) { sub_list = s.conn.sub_list };
        heap = set_frame s.heap a (some numbered);
      } in
      let kept = after_write-client t (ground (arith, v.mode)) (ground (arith, v.alone)) in
      ground (
        arith,
        v.known.1,
        v.frame,
        allocate_message_id-message f (s.heap.at a).ack s v.message,
        v.room,
        v.first,
        kept,
      )

  on_event-Acks :
      (g : Frame) (n : ℕ) (t : St) (h : Heap)
      → Acks g n
      → t.conn.state_func ≡ connected
      → SubscriptionList.ack n on_ack t.heap t.conn.sub_list ≡ done (h, [], subscribe_op a ∷ [])
      → on_event config (frame_read (some g)) t
        ≡ returned true (record t {
          frame = g;
          heap = h;
          conn = record (t.conn) { sub_list = [] };
          requests = t.requests ++ subscribe_op a ∷ [];
        })
  unfolding on_event on_read validate call_state run_connected dispatch handle_ack settle
      send_receipt_immediately
  on_event-Acks g n t h v k e =
      ground (arith, k, v.command, v.no_receipt, v.no_transaction, v.named, v.number, e)

  -- An acknowledgement that stops the server. A connection writes a message of a queue to its client in
  -- the mode "client", and reads the client's ACK frame for it: it sends the subscription back to the
  -- processor, for the next message; and if the queue is empty, the processor panics on it, since the
  -- subscription still points to the list of the connection, which it has left. No other message
  -- waits for an acknowledgement on the connection.
  pub ack-stops_server :
      (st : Storage) (fifo : IsFifo st) (b : Broker st) (g : Frame) (n : ℕ) {left : st.State}
      → IsWaiting s a f
      → Acks g n
      → (s.heap.at a).msg_id ≤ n
      → is_queue_destination (s.heap.at a).dest ≡ true
      → st.dequeue b.storage (s.heap.at a).dest ≡ ok (none, left)
      → (t : St) × (run_events config (subscription_ready a ∷ frame_read (some g) ∷ []) s
          ≡ returned tt t)
        × (t.conn.link.written ≡ s.conn.link.written ++ some numbered ∷ [])
        × (t.conn.sub_list ≡ [])
        × (t.requests ≡ s.requests ++ subscribe_op a ∷ [])
        × (process st (subscribe_op a) (record b { heap = t.heap }) ≡ panicked already_in_list)
  unfolding run_events
  ack-stops_server st fifo b g n v w m q e =
      let (h, acked, same) =
        ack-client n wrote.heap (a ∷ []) ((ground (arith, v.mode), ground (arith, m)), tt) in
      let home : (h.at a).dest ≡ (s.heap.at a).dest = ap (λ x. x.dest) (same a) ∙ ground arith in
      let t : St = record wrote {
        frame = g;
        heap = h;
        conn = record (wrote.conn) { sub_list = [] };
        requests = s.requests ++ subscribe_op a ∷ [];
      } in
      (
        t,
        run_events-goes_on config (subscription_ready a) (frame_read (some g) ∷ []) s wrote
              (on_event-writes v)
            ∙ run_events-goes_on config (frame_read (some g)) [] wrote t
                (on_event-Acks g n wrote h w v.stage acked),
        refl,
        refl,
        refl,
        subscribe-panics st fifo a (record b { heap = h }) {r = conn_list s.conn.address}
            (ap is_queue_destination home ∙ q) (ap (st.dequeue b.storage) home ∙ e)
            (ap (λ x. x.sub_list) (same a) ∙ ground arith),
      )
