-- ===== src/Tests/Systems.antt =====
-- Runs of the theorems on a client and a server together, and on their loops at the network.
use go_stomp.Base.{
  ◌*◌, ◌≡◌, refl, Bytes, true, false, none, some, List, [], ◌∷◌, map, ok, codes, str_eq, arith,
  append-nil, find, eof,
}
use go_stomp.Client
use go_stomp.Client.Calls.{Client, send, ◌>>◌}
use go_stomp.Client.Calls.Transaction.{Transaction, begin_with_error, commit, abort}
use go_stomp.Client.Loop.{Loop, went_on, delivered, write_request}
use go_stomp.Client.ReadLoop.{read_loop, read_loop-frame_read}
use go_stomp.Client.Subscription.{start, message_of, input, done}
use go_stomp.Frame.Command.{Command}
use go_stomp.Frame.Data.{Frame}
use go_stomp.Frame.HeartBeat.{millisecond}
use go_stomp.Frame.Reader.Chunks.{flatten}
use go_stomp.Frame.Reader.Session.{written}
use go_stomp.Server
use go_stomp.Server.Broker.{Broker, is_queue_destination, process}
use go_stomp.Server.Broker.Queues.{waiting}
use go_stomp.Server.Conn.{St, connected, returned}
use go_stomp.Server.Conn.Loop.{frame_read, subscription_ready, run_events}
use go_stomp.Server.Listen.{temporary, accepted, slept, new_conn, listen}
use go_stomp.Server.Listen.Backoff.{listen-sleeps}
use go_stomp.Server.Objects.{enqueue_op, to_sub_channel}
use go_stomp.Server.Storage.Memory.{memory_storage, memory_storage-IsFifo}
use go_stomp.Std.Strings.{has_prefix}
use go_stomp.System.Delivery.{send-arrives}
use go_stomp.System.Transactions.{Text}
use go_stomp.System.Transactions.Calls.{send_each, read_event, plain}
use go_stomp.System.Transactions.Completed.{opened, wire, commit-enqueues, abort-drops}
use go_stomp.System.Transactions.Ends.{enqueue_of}
use go_stomp.Tests
use go_stomp.Tests.Calls.{client, answers, client-IsReady, plain-IsSendable}
use go_stomp.Tests.Clients.{loop, sub, greeting, config}

listen-sleeps_example :
    listen (temporary ∷ temporary ∷ accepted 3 ∷ temporary ∷ []) 0
    ≡ slept (5 * millisecond) ∷ slept (10 * millisecond) ∷ new_conn 3 ∷ slept (5 * millisecond) ∷ []
unfolding listen
listen-sleeps_example = listen-sleeps 2 (temporary ∷ []) 3

read_loop-frame_read_example :
    ((read_loop eof true 3 5 (written (none ∷ some Tests.Calls.plain ∷ []) ∷ [])).0
      ≡ Client.Loop.frame_read (some none)
        ∷ Client.Loop.frame_read (some (some Tests.Calls.plain))
        ∷ Client.Loop.frame_read none
        ∷ [])
    × ((read_loop eof true 3 5 (written (none ∷ some Tests.Calls.plain ∷ []) ∷ [])).1 ≡ 7)
unfolding flatten
read_loop-frame_read_example =
    read_loop-frame_read eof true (none ∷ some Tests.Calls.plain ∷ []) 3 5
      (written (none ∷ some Tests.Calls.plain ∷ []) ∷ []) (plain-IsSendable, tt) (append-nil _)
      (ground arith) (ground arith)

abbrev pub server : St
server = record greeting { conn = record (greeting.conn) { state_func = connected } }

abbrev texts : List Text
texts =
    record { destination = Tests.Brokers.queue; content_type = []; body = codes "one" }
    ∷ record { destination = Tests.Brokers.queue; content_type = []; body = codes "two" }
    ∷ []

abbrev tx : Transaction
tx = opened answers config texts client

commit-enqueues_example :
    (begun after : Client) × (t : St) × ((begin_with_error answers client).1
      ≡ Client.Calls.returned (ok tt) begun)
    × ((send_each answers tx texts >> commit answers false tx) begun
        ≡ Client.Calls.returned (ok (record tx { completed = true })) after)
    × (after.conn.write_requests ≡ map plain (wire answers config texts client Command.commit))
    × (run_events config (map read_event (wire answers config texts client Command.commit)) server
        ≡ returned tt t)
    × (t.requests ≡ map enqueue_of texts)
    × ((j : Bytes) → find t.conn.tx_store j ≡ none)
unfolding find Server.Conn.new_conn
commit-enqueues_example =
    commit-enqueues answers config texts client server client-IsReady refl refl

abort-drops_example :
    (begun after : Client) × (t : St) × ((begin_with_error answers client).1
      ≡ Client.Calls.returned (ok tt) begun)
    × ((send_each answers tx texts >> abort answers false tx) begun
        ≡ Client.Calls.returned (ok (record tx { completed = true })) after)
    × (after.conn.write_requests ≡ map plain (wire answers config texts client Command.abort))
    × (run_events config (map read_event (wire answers config texts client Command.abort)) server
        ≡ returned tt t)
    × (t.requests ≡ [])
    × ((j : Bytes) → find t.conn.tx_store j ≡ none)
unfolding find Server.Conn.new_conn
abort-drops_example = abort-drops answers config texts client server client-IsReady refl refl

-- The subscription 0 waits in the queue, and another client listens for it.
abbrev pub subscriber : St
subscriber = record server { conn = record (server.conn) { subs = (codes "s", 0) ∷ [] } }

abbrev waiting_broker : Broker memory_storage
waiting_broker = Tests.Brokers.broker (0 ∷ [])

send-arrives_example :
    (c : Client) × (f m g : Frame) × (sender : Loop) × (from to : St) × (broker : Broker
      memory_storage)
    × (send answers Tests.Brokers.queue (codes "text") (codes "hello") [] client
        ≡ Client.Calls.returned (ok tt) c)
    × (c.conn.write_requests ≡ record { frame = f; channel = none } ∷ [])
    × (Client.Loop.on_event [] (write_request (some (record { frame = f; channel = none }))) loop
        ≡ went_on tt sender)
    × (sender.link.written ≡ some f ∷ [])
    × (Server.Conn.Loop.on_event config (frame_read (some f)) server ≡ returned true from)
    × (from.requests ≡ enqueue_op m ∷ [])
    × (process memory_storage (enqueue_op m) waiting_broker ≡ Server.Objects.done broker)
    × (broker.outbox ≡ to_sub_channel 7 0 ∷ [])
    × (waiting broker.queues Tests.Brokers.queue ≡ [])
    × (broker.storage ≡ waiting_broker.storage)
    × (Server.Conn.Loop.on_event config
          (subscription_ready 0)
          (record subscriber { heap = broker.heap })
        ≡ returned true to)
    × (to.conn.link.written ≡ some g ∷ [])
    × (Client.Loop.on_event [] (Client.Loop.frame_read (some (some g))) loop
        ≡ went_on tt (record loop { uses = delivered 1 g ∷ [] }))
    × (Client.Subscription.on_event sub (input (some g)) start
        ≡ done (record start { sent = message_of sub g ∷ [] }))
    × ((message_of sub g).destination ≡ Tests.Brokers.queue)
    × ((message_of sub g).content_type ≡ codes "text")
    × ((message_of sub g).body ≡ codes "hello")
unfolding find str_eq Server.Conn.new_conn is_queue_destination has_prefix
send-arrives_example =
    send-arrives answers Tests.Brokers.queue (codes "text") (codes "hello") client loop server
      memory_storage memory_storage-IsFifo waiting_broker subscriber loop sub start config []
      client-IsReady refl refl refl refl refl refl refl
      (record { channel = refl; unshut = refl; unclosed = refl; running = refl })
