-- ===== src/Lib.antt =====
-- A verification library for go-stomp, a STOMP message broker and client library in Go.
--
-- The program's parts. Package `frame` is the wire format: a frame is a command, a header and a
-- body, `Reader` turns the bytes of a connection into frames and `Writer` turns frames into bytes.
-- Package `server/client` is the server's end of one connection: a process loop receives the frames
-- that the client sent, the frames and subscriptions that the upper layer hands over, and timer
-- events, one at a time; its handlers answer the client and send requests to the upper layer. The
-- upper layer is the request processor of package `server`: it takes the requests of all
-- connections off one channel and works on queues (`server/queue`, over a storage) and topics
-- (`server/topic`). A subscription is shared: a connection's map and list, a queue's list and a
-- request point to the same object. The package at the root is the client library: its methods put
-- requests on one channel, from which a process loop writes frames, and the loop hands the frames
-- that the server sends to the channels of subscriptions and of methods that wait for a receipt.
--
-- The files.
--   Base       bytes, errors and results, dictionaries, and lemmas on them.
--   Std        the parts of Go's strconv, strings and sort that the code calls: parsing
--              and printing of numbers, Split, HasPrefix, Strings.
--   Frame      frame/*.go. Names (header.go, ack.go), Command (command.go), Codec (encode.go), Data
--              (frame.go), Header (header.go), HeartBeat (heartbeat.go), Reader (reader.go) and
--              Writer (writer.go). A file in a folder of one of these names holds its proofs, but
--              for Header/ContentLength, which is the method of that name.
--   Server     Negotiation (server/client/frame.go, util.go, version.go), Objects and Subscription
--              (server/client/subscription.go, request.go), SubscriptionList
--              (server/client/subscription_list.go), TxStore (server/client/tx_store.go), Storage
--              (server/queue/storage.go) and Storage/Memory (server/queue/memory_queue.go), Broker
--              (server/queue, server/topic and the loop of server/processor.go), and Conn
--              (server/client/conn.go): its state in Conn, the state functions and handlers in
--              Conn/Connecting and Conn/Handlers, the process loop and the cleanup in Conn/Loop,
--              and `readLoop` in Conn/ReadLoop. Listen is server/server.go, and of server/processor.go
--              the making of the processor, `Listen` and the configuration. The other files of a
--              folder hold proofs; Broker/Queues/Ideal is the queue without its representation,
--              Broker/Refines what the processor does in its terms, and Broker/References what a topic
--              sends with headers that frames share by address.
--   Client     the client library. Errors (errors.go), AckMode (ack.go), Versions (version.go, id.go),
--              Options and Options/ConnOpt (conn_options.go), Connect (`ConnectWithContext` of
--              conn.go), Dial (`Dial` and `Connect` of conn.go), ReadLoop (`readLoop` and `Stats` of
--              conn.go), Turns and Loop (`processLoop` of conn.go), Calls (the methods of conn.go
--              that send: Calls/Options is send_options.go and subscribe_options.go, Calls/Subscribe is
--              `Subscribe` and `Unsubscribe`, Calls/Disconnect, Calls/Settle for `Ack` and `Nack`,
--              Calls/Transaction for transaction.go), Message (message.go) and Subscription
--              (subscription.go). The other files hold proofs, some on both ends: Connect/Handshake,
--              Calls/Subscribe/Delivers, Calls/Settle/Refused, Calls/Transaction/Laws and
--              Calls/Sending.
--   System     proofs on a client and a server together: a message from one client to another (Sent,
--              Received, Delivery), a transaction (Transactions), a message that is sent with a
--              receipt (Asking, Receipts), an acknowledgement (Acknowledged), a subscription
--              in a mode that there is not (OddMode), the end of a subscription (Unsubscribed) and of
--              a connection (Closed). Frame/Reader/Session has all the frames of a connection.
--   Tests      runs of the theorems on concrete values.
--
-- How state and operations correspond. A function keeps the source's name in snake case: `Read` is
-- `read`, `handleAck` is `handle_ack`, `cleanupConn` is `cleanup_conn`. A pointer to a subscription
-- is an address in a `Heap`. A frame is a value, but for Server/Broker/References. A handler is a
-- function on `St`, which holds the connection, the heap, the frame in hand and the requests sent so
-- far; it returns, returns an error or panics, and keeps what it changed on an error. The request
-- processor works on a `Broker` over any `Storage` that keeps the order `IsFifo`; what it sends to
-- connections is kept in `outbox`. A connection below the reader is the list of the pieces it
-- delivers, and below the writer a `Sink` that may fail after some number of bytes.
--
-- The client's process loop works on a `Loop`, where a channel of frames is a number and what is done
-- on channels is a list; a part of its body goes on, returns, blocks on a nil channel or panics. A
-- method of the client's connection is a function of a `Client` and of `Answers`, what it waits for;
-- it returns a value or an error, blocks or panics. A subscription is a `Live` that events change,
-- the frames that its loop receives and the steps of `Unsubscribe`.
--
-- Bounds and fuel. Numbers are naturals; the message number wraps at 2^64 and products of durations
-- are taken in 64 bits. The header loop of `Read` has the number of bytes left as fuel, since each
-- line takes one; the loop of `Del` has the length of the header, since each round removes an entry.
-- A COMMIT calls the connected state again for each frame of the transaction; the depth of such
-- calls is bounded by 2, since the handlers put only SEND, ACK and NACK frames into a transaction.
-- Either read loop has a round of fuel for each frame or heart-beat, and one for the end. The other
-- loops are structural recursion.
--
-- What is not modelled. The sizes of buffers, since they change no result; the capacities of
-- channels and the waiting on them; clocks, and so the deadline of a context and the length of a
-- sleep but as a number; mutexes; the wake-ups of `closeCond`, which are given to `await_closed` as a
-- list, so that a `Broadcast` that comes too early for the wait of `Unsubscribe` is not seen;
-- logging; the multiplier of the grace period and the callback for response headers
-- (conn_options.go); the command stompd. What net.Listen, `Accept`, net.Dial and
-- net.SplitHostPort return is an argument. The server's errors that other packages word are
-- parameters (`library_text`), and so are the authenticator and any storage but the one in memory.
pub mod Base
pub mod Server
pub mod System
pub mod Std
pub mod Frame
pub mod Client
pub mod Tests
