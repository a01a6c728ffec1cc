-- ===== src/System/Delivery.antt =====
-- A message from the sender's call to the channel of a subscription at another client.
use go_stomp.Base.{
  ℕ, ◌≡◌, refl, ◌∙◌, Bytes, true, none, some, List, [], ◌∷◌, ◌++◌, ok, arith, find, str_eq_iff,
}
use go_stomp.Client
use go_stomp.Client.Calls.{Client, Answers, send}
use go_stomp.Client.Calls.Transaction.Laws.{IsReady}
use go_stomp.Client.Calls.Sending.{plain_frame, plain_frame-headers}
use go_stomp.Client.Calls.Subscribe.Delivers.{on_event-delivers}
use go_stomp.Client.Loop.{Loop, went_on, delivered, write_request}
use go_stomp.Client.Message.{Subscription}
use go_stomp.Client.Subscription.{Live, done, message_of, input}
use go_stomp.Frame.Data.{Frame}
use go_stomp.Server
use go_stomp.Server.Broker.{Broker, is_queue_destination, process}
use go_stomp.Server.Broker.Queues.{
  waiting, addressed, handed_over, enqueue-handed_over, waiting-insert,
}
use go_stomp.Server.Conn.{Config, St, connected, returned}
use go_stomp.Server.Conn.Loop.{number_frame, frame_read, subscription_ready}
use go_stomp.Server.Objects.{enqueue_op, to_sub_channel, set_frame, set_sub_list}
use go_stomp.Server.Storage.{Storage, IsFifo}
use go_stomp.System.Received.{
  IsListening, on_subscription-writes, on_event-sends_message, message_of-numbered,
  number_frame-keeps, next_number,
}
use go_stomp.System.Sent.{
  plain_message, plain_frame-contains, send-plain, on_event-plain_request, on_event-plain_frame,
}

module _ (w : Answers) (d t b : Bytes) (c : Client) (sender : Loop) (from : St) (st : Storage)
    (fifo : IsFifo st) (broker : Broker st) (to : St) (receiver : Loop) (sub : Subscription)
    (live : Live) (config : Config) (fault : Bytes) where
  -- A message from client to client. `Send` with no option to a queue where subscriptions wait returns
  -- nil; its frame is written by the client's loop and read by the server's connection, which asks
  -- the processor to enqueue it; the processor hands it to the subscription `a` that has waited
  -- longest, and stores nothing; the connection of `a` writes it; its client's loop puts it on the
  -- channel of the subscription, and there the loop of the subscription sends, on `C`, a message with
  -- the call's destination, content type and body. The connections are open, the sender's is past the
  -- handshake, the networks take the frames, no frame of `a` is pending, the connection of `a` still
  -- has a subscription of that id, and at its client the channel is open and the loop runs.
  pub send-arrives :
      {a owner ch : ℕ} {rest : List ℕ}
      → IsReady w c.conn
      → sender.link.room ≡ none
      → from.conn.state_func ≡ connected
      → is_queue_destination d ≡ true
      → waiting broker.queues d ≡ a ∷ rest
      → (broker.heap.at a).frame ≡ none
      → find to.conn.subs (broker.heap.at a).id ≡ some owner
      → to.conn.link.room ≡ none
      → IsListening (broker.heap.at a).id ch receiver live
      → (c' : Client) × (f m g : Frame) × (sender' : Loop) × (from' to' : St) × (broker' : Broker
          st)
        × (send w d t b [] c ≡ Client.Calls.returned (ok tt) c')
        × (c'.conn.write_requests
            ≡ c.conn.write_requests ++ record { frame = f; channel = none } ∷ [])
        × (Client.Loop.on_event fault
              (write_request (some (record { frame = f; channel = none })))
              sender
            ≡ went_on tt sender')
        × (sender'.link.written ≡ sender.link.written ++ some f ∷ [])
        × (Server.Conn.Loop.on_event config (frame_read (some f)) from ≡ returned true from')
        × (from'.requests ≡ from.requests ++ enqueue_op m ∷ [])
        × (process st (enqueue_op m) broker ≡ Server.Objects.done broker')
        × (broker'.outbox ≡ broker.outbox ++ to_sub_channel (broker.heap.at a).conn a ∷ [])
        × (waiting broker'.queues d ≡ rest)
        × (broker'.storage ≡ broker.storage)
        × (Server.Conn.Loop.on_event config
              (subscription_ready a)
              (record to { heap = broker'.heap })
            ≡ returned true to')
        × (to'.conn.link.written ≡ to.conn.link.written ++ some g ∷ [])
        × (Client.Loop.on_event fault (Client.Loop.frame_read (some (some g))) receiver
            ≡ went_on tt (record receiver { uses = receiver.uses ++ delivered ch g ∷ [] }))
        × (Client.Subscription.on_event sub (input (some g)) live
            ≡ done (record live { sent = live.sent ++ message_of sub g ∷ [] }))
        × ((message_of sub g).destination ≡ d)
        × ((message_of sub g).content_type ≡ t)
        × ((message_of sub g).body ≡ b)
  send-arrives {a} {owner} {ch} {rest} y r k q x n e o listen =
      let (c', sent, requested) = send-plain w d t b c y in
      let (no_receipt, no_transaction, to_d) = plain_frame-contains d t b in
      let (dest_is, kind_is) = plain_frame-headers d t b in
      let m = plain_message d t b in
      let broker' = handed_over st fifo m d broker a rest in
      let here : St = record to { heap = broker'.heap } in
      let f' = addressed (broker.heap.at a) m in
      let ack = (broker'.heap.at a).ack in
      let g = number_frame (next_number to) ack f' in
      let (to', wrote, written, end) =
        on_subscription-writes config a owner f' here (ground (arith, e)) (ground arith)
          (ground arith) refl o in
      let (names, dest, kind_of, body) =
        message_of-numbered sub (broker.heap.at a) (next_number to) ack m in
      let (command, same) = number_frame-keeps (next_number to) ack f' in
      (
        c',
        plain_frame d t b,
        m,
        g,
        record sender {
          link = record (sender.link) {
            written = sender.link.written ++ some (plain_frame d t b) ∷ [];
          };
        },
        record from { frame = m; requests = from.requests ++ enqueue_op m ∷ [] },
        to',
        broker',
        sent,
        requested,
        on_event-plain_request fault d t b sender r,
        refl,
        on_event-plain_frame config d t b from k,
        refl,
        enqueue-handed_over st fifo m d broker to_d q x n,
        refl,
        ground (arith, waiting-insert broker.queues d rest d, str_eq_iff d d),
        refl,
        wrote,
        written,
        on_event-delivers fault g (broker.heap.at a).id ch receiver command names listen.channel
            listen.unshut,
        on_event-sends_message sub g live command listen.unclosed listen.running,
        dest ∙ dest_is,
        kind_of ∙ kind_is,
        body,
      )
