-- ===== src/Tests/Receipts.antt =====
-- Runs of the theorems on what a client and a server do about receipts.
use go_stomp.Base.{
  inr, inl, ◌∙◌, arith, ◌≡◌, refl, true, false, none, some, [], ◌∷◌, ok, err, codes, str_eq, find,
}
use go_stomp.Client
use go_stomp.Client.Calls.{Client, send}
use go_stomp.Client.Calls.Options.{receipt}
use go_stomp.Client.Calls.Subscribe.{unsubscribe}
use go_stomp.Client.Errors.{unsubscribe_receipt_timeout}
use go_stomp.Client.Loop.{Loop, went_on, delivered, channel_closed, write_request}
use go_stomp.Client.Subscription.{Live, active, closing, closed, start, done, finish_unsubscribe}
use go_stomp.Client.Versions.{allocate_id}
use go_stomp.Frame.Data.{Frame}
use go_stomp.Frame.Header.{contains}
use go_stomp.Frame.Names
use go_stomp.Server
use go_stomp.Server.Conn.{crashed, St, returned}
use go_stomp.Server.Conn.Loop.{frame_read, subscription_ready, run_events, number_frame}
use go_stomp.Server.Objects.{
  invalid_ack, enqueue_op, unsubscribe_op, subscribe_op, set_frame, panicked, already_in_list,
}
use go_stomp.Std.Strconv.{format_uint, max_uint64}
use go_stomp.System.Asking.{receipted}
use go_stomp.System.Receipts.{send-receipted}
use go_stomp.System.Sent.{plain_message}
use go_stomp.System.Unsubscribed.{in_time, timed_out, unsubscribe-unanswered}
use go_stomp.Tests
use go_stomp.Tests.Brokers.{queue}
use go_stomp.Server.SubscriptionList.Acks.{IsMode}
use go_stomp.System.OddMode.{Subscribes, subscribe-crashes}
use go_stomp.System.Acknowledged.{IsWaiting, Acks, ack-stops_server}
use go_stomp.Frame.Command.{Command}
use go_stomp.Server.Broker.{is_queue_destination, process}
use go_stomp.Server.Conn.Handlers.{acked_id}
use go_stomp.Server.Storage.Memory.{memory_storage, memory_storage-IsFifo, dequeue}
use go_stomp.Std.Strings.{has_prefix}
use go_stomp.Std.Strconv.RoundTrip.{parse_uint-format_uint}
use go_stomp.Tests.Calls.{client, answers, client-IsReady}
use go_stomp.Tests.Clients.{frame, loop, sub, config}
use go_stomp.Tests.Systems.{server, subscriber}

abbrev quiet_loop : Loop
quiet_loop = record loop { channels = [] }

send-receipted_example :
    (c : Client) × (f r : Frame) × (asked heard : Loop) × (s : St) × (send
        (receipted (format_uint 1))
        queue
        []
        (codes "hello")
        (some receipt ∷ [])
        client
      ≡ Client.Calls.returned (ok tt) c)
    × (c.conn.write_requests ≡ record { frame = f; channel = some 0 } ∷ [])
    × (Client.Loop.on_event []
          (write_request (some (record { frame = f; channel = some 0 })))
          quiet_loop
        ≡ went_on tt asked)
    × (asked.link.written ≡ some f ∷ [])
    × (Server.Conn.Loop.on_event config (frame_read (some f)) server ≡ returned true s)
    × (s.conn.link.written ≡ some r ∷ [])
    × (s.requests ≡ enqueue_op (plain_message queue [] (codes "hello")) ∷ [])
    × ((receipted (format_uint 1)).reply ≡ some (some r))
    × (Client.Loop.on_event [] (Client.Loop.frame_read (some (some r))) asked ≡ went_on tt heard)
    × (heard.uses ≡ delivered 0 r ∷ channel_closed 0 ∷ [])
    × (find heard.channels (format_uint 1) ≡ none)
unfolding allocate_id Server.Conn.new_conn
send-receipted_example =
    send-receipted queue [] (codes "hello") client quiet_loop server config []
      (record { unshut = refl; writes = refl; taken = refl }) refl refl refl refl

abbrev leaving : Live
leaving = record start { state = closing }

abbrev left : Live
left = record start { state = closed; shut = true; running = false }

unsubscribe-unanswered_example :
    (c : Client) × (f g : Frame) × (l : Loop) × (s : St) × (unsubscribe answers sub active [] client
      ≡ (closing, Client.Calls.returned (ok tt) c))
    × (c.conn.write_requests ≡ record { frame = f; channel = none } ∷ [])
    × (Client.Loop.on_event [] (write_request (some (record { frame = f; channel = none }))) loop
        ≡ went_on tt l)
    × (l.link.written ≡ some g ∷ [])
    × (contains g.header Names.receipt ≡ some sub.id)
    × (Server.Conn.Loop.on_event config (frame_read (some g)) subscriber ≡ returned true s)
    × (s.conn.link ≡ subscriber.conn.link)
    × (s.requests ≡ unsubscribe_op 0 ∷ [])
    × (find s.conn.subs sub.id ≡ none)
    × (finish_unsubscribe sub (ok tt) leaving (in_time leaving ∷ (true, leaving) ∷ [])
        ≡ some (err unsubscribe_receipt_timeout, done (timed_out sub leaving)))
unfolding Server.Conn.new_conn find str_eq
unsubscribe-unanswered_example =
    unsubscribe-unanswered answers sub client loop subscriber config [] (leaving ∷ []) leaving
      leaving client-IsReady refl refl refl refl (λ e. cc) ((λ e. cc), tt) (λ e. cc) refl

-- A subscription in the mode "client" with a message that its connection is to write, and the ACK frame
-- for it.
abbrev writing : St
writing = record subscriber { heap = set_frame Tests.Brokers.client 0 (some Tests.Brokers.message) }

abbrev ack_frame : Frame
ack_frame = frame Command.ack ((Names.message_id, format_uint 1) ∷ [])

writing-IsWaiting : IsWaiting writing 0 Tests.Brokers.message
unfolding Server.Conn.new_conn find str_eq
writing-IsWaiting = record {
  known = (0, refl);
  frame = refl;
  mode = refl;
  alone = refl;
  message = refl;
  first = refl;
  stage = refl;
  room = refl;
}

ack_frame-Acks : Acks ack_frame 1
unfolding contains acked_id str_eq
ack_frame-Acks = record {
  command = refl;
  no_receipt = refl;
  no_transaction = refl;
  id = format_uint 1;
  named = refl;
  number = parse_uint-format_uint max_uint64 1 ∙ ground arith;
}

ack-stops_server_example :
    (t : St) × (run_events config (subscription_ready 0 ∷ frame_read (some ack_frame) ∷ []) writing
      ≡ returned tt t)
    × (t.conn.link.written ≡ some (number_frame 1 Names.ack_client Tests.Brokers.message) ∷ [])
    × (t.conn.sub_list ≡ [])
    × (t.requests ≡ subscribe_op 0 ∷ [])
    × (process memory_storage (subscribe_op 0) (record (Tests.Brokers.broker []) { heap = t.heap })
        ≡ panicked already_in_list)
unfolding Server.Conn.new_conn str_eq is_queue_destination has_prefix dequeue find
ack-stops_server_example =
    ack-stops_server config writing 0 Tests.Brokers.message memory_storage memory_storage-IsFifo
      (Tests.Brokers.broker []) ack_frame 1 writing-IsWaiting ack_frame-Acks (ground arith) refl
      refl

-- A SUBSCRIBE frame in a mode that there is not.
abbrev odd_frame : Frame
odd_frame = record {
  command = Command.subscribe;
  header =
      (Names.id, codes "s")
      ∷ (Names.destination, Tests.Brokers.queue)
      ∷ (Names.ack, codes "other")
      ∷ [];
  body = [];
}

odd_frame-Subscribes : Subscribes odd_frame (codes "s") Tests.Brokers.queue (codes "other")
unfolding contains str_eq
odd_frame-Subscribes = record { command = refl; named = refl; destined = refl; moded = refl }

other-not-IsMode : ¬ IsMode (codes "other")
other-not-IsMode (inl e) = cc
other-not-IsMode (inr (inl e)) = cc
other-not-IsMode (inr (inr e)) = cc

subscribe-crashes_example :
    (t : St) × (run_events config (frame_read (some odd_frame) ∷ []) server ≡ returned tt t)
    × (t.requests ≡ subscribe_op server.heap.next ∷ [])
    × (run_events config
          (subscription_ready server.heap.next ∷ frame_read (some ack_frame) ∷ [])
          (record t { heap = set_frame t.heap server.heap.next (some Tests.Brokers.message) })
        ≡ crashed invalid_ack)
unfolding Server.Conn.new_conn find
subscribe-crashes_example =
    subscribe-crashes config server odd_frame Tests.Brokers.message (codes "s") Tests.Brokers.queue
      (codes "other") ack_frame 1 odd_frame-Subscribes other-not-IsMode refl ack_frame-Acks refl
      refl refl
