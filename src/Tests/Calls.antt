-- ===== src/Tests/Calls.antt =====
-- Runs of the theorems on the methods of the client library.
use go_stomp.Base.{
  ℕ, zero, suc, ◌+◌, ◌-◌, ◌*◌, ◌%◌, ◌^◌, ◌≡◌, ◌≢◌, refl, sym, ap, ◌∙◌, Bytes, Bool, true, false,
  not, ◌&&◌, ◌||◌, Option, none, some, List, [], ◌∷◌, ◌++◌, map, ok, err, ResultOf, codes, str_eq,
  if◌then◌else◌, take, drop, length, ltb, ◌==◌, arith, append_assoc, append-nil, All, inl, inr, ◌≤◌,
  Error, eof, find,
}
use go_stomp.Base
use go_stomp.Client.AckMode.{Mode, mode_string}
use go_stomp.Client.Calls.{Client, returned, Answers, create_send_frame}
use go_stomp.Client.Calls.Closed.{call_method-closed}
use go_stomp.Client.Calls.Keeps.{IsSound, Fine}
use go_stomp.Client.Calls.Open.{IsAnswer}
use go_stomp.Client.Calls.Sending.{plain_frame, read-create_send_frame}
use go_stomp.Client.Calls.Sequence.{
  send_call, subscribe_call, disconnect_call, must_disconnect_call, call_method, call_methods,
  call_methods-Fine,
}
use go_stomp.Client.Calls.Settle.{create_ack_nack_frame}
use go_stomp.Client.Calls.Settle.Refused.{create_ack_nack_frame-acked_id, settle-refuses}
use go_stomp.Client.Calls.Transaction.{Transaction}
use go_stomp.Client.Calls.Transaction.Laws.{IsReady}
use go_stomp.Client.Calls.Subscribe.{subscribe}
use go_stomp.Client.Calls.Subscribe.Delivers.{subscription, subscribe-delivers}
use go_stomp.Client.Versions.{allocate_id}
use go_stomp.Client.Loop.{Loop, delivered, went_on, frame_read, write_request, on_event}
use go_stomp.Server.Conn.Handlers.{handle_subscribe, handle_ack, handle_nack, acked_id}
use go_stomp.Tests.Clients.{loop, frame, conn, receipt, message, sub, greeting, config}
use go_stomp.Client.Errors.{Attempt}
use go_stomp.Client.Subscription.{message_of}
use go_stomp.Frame.Command.{Command}
use go_stomp.Frame.Data.{Frame}
use go_stomp.Frame.Header.{contains, get}
use go_stomp.Frame.Names
use go_stomp.Frame.Reader.{Chunks, read}
use go_stomp.Frame.Reader.Chunks.{Agree, flatten}
use go_stomp.Frame.Header.ContentLength.{content_length}
use go_stomp.Frame.Reader.RoundTrip.{IsSendable}
use go_stomp.Frame.Writer.{write}
use go_stomp.Server
use go_stomp.Server.Conn.{Config, St, failed}
use go_stomp.Server.Conn.Loop.{number_frame}
use go_stomp.Server.Conn.ReadLoop.{read_loop, received, read_loop-received}
use go_stomp.Frame.Reader.Session.{written}
use go_stomp.Server.Negotiation.{v11, v12}
use go_stomp.Std.Strconv.{parse_uint, format_uint, max_uint64}

-- A client whose connection is open, and the answers that a RECEIPT frame gives.
abbrev pub client : Client
client = record { conn = conn; last_id = 0; channels = 0 }

abbrev pub answers : Answers
answers = record { taken = true; reply = some (some receipt) }

answers-IsAnswer : IsAnswer answers
answers-IsAnswer = record { received = λ e. cc }

call_methods-Fine_example : Fine (Unit {0}) IsSound (
    call_methods
      ((answers, subscribe_call (codes "/queue/a") Mode.client [])
        ∷ (answers, must_disconnect_call)
        ∷ (answers, send_call (codes "/queue/a") [] (codes "hello") [])
        ∷ (answers, disconnect_call)
        ∷ [])
      client)
call_methods-Fine_example =
    call_methods-Fine
      ((answers, subscribe_call (codes "/queue/a") Mode.client [])
        ∷ (answers, must_disconnect_call)
        ∷ (answers, send_call (codes "/queue/a") [] (codes "hello") [])
        ∷ (answers, disconnect_call)
        ∷ [])
      client (record { sound = λ e. cc })
      (answers-IsAnswer, (answers-IsAnswer, (answers-IsAnswer, (answers-IsAnswer, tt))))

abbrev closed_client : Client
closed_client = record client { conn = record conn { closed = true } }

call_method-closed_example :
    (r : Attempt (Unit {0})) × (t : Client) × (call_method answers
        (send_call (codes "/queue/a") [] [] [])
        closed_client
      ≡ returned r t)
    × (t.conn.closed ≡ true)
    × (t.conn.write_requests ≡ [])
call_method-closed_example =
    call_method-closed answers (send_call (codes "/queue/a") [] [] []) closed_client refl

create_ack_nack_frame-acked_id_example :
    (g : Frame) × (create_ack_nack_frame v11
        (message_of sub (number_frame 3 (mode_string Mode.client) message))
        false
      ≡ ok (some g))
    × (g.command ≡ Command.nack)
    × (contains g.header Names.subscription ≡ some (codes "s"))
    × ((id : Bytes) × (acked_id g ≡ some id) × (parse_uint max_uint64 id ≡ ok 3))
create_ack_nack_frame-acked_id_example =
    create_ack_nack_frame-acked_id 3 message sub (λ e. cc) v11 false (λ e. cc) (inr λ e. cc)
      (ground arith)

settle-refuses_example :
    (g : Frame) × (create_ack_nack_frame v12
        (message_of sub (number_frame 3 (mode_string Mode.client) message))
        true
      ≡ ok (some g))
    × (contains g.header Names.id ≡ some (format_uint 3))
    × (handle_ack (record greeting { frame = g })
        ≡ failed (Base.missing_header Names.message_id) (record greeting { frame = g }))
    × (handle_nack (record greeting { frame = g })
        ≡ failed (Base.missing_header Names.message_id) (record greeting { frame = g }))
settle-refuses_example = settle-refuses 3 message sub (λ e. cc) true greeting

abbrev transaction : Transaction
transaction = record { id = codes "1"; completed = false }

abbrev begun : St
begun = record greeting { conn = record (greeting.conn) { tx_store = (codes "1", []) ∷ [] } }

abbrev sent : Chunks
sent =
    ((write (some (plain_frame (codes "/queue/a") [] (codes "hello")))
      (record { sent = []; room = none })).0.sent)
    ∷ []

read-create_send_frame_example :
    (create_send_frame (codes "/queue/a") [] (codes "hello") [] client
      ≡ returned (ok (plain_frame (codes "/queue/a") [] (codes "hello"))) client)
    × (get (plain_frame (codes "/queue/a") [] (codes "hello")).header Names.destination
        ≡ codes "/queue/a")
    × (get (plain_frame (codes "/queue/a") [] (codes "hello")).header Names.content_type ≡ [])
    × Agree (read eof sent) (ok (some (plain_frame (codes "/queue/a") [] (codes "hello")), [] ∷ []))
unfolding flatten
read-create_send_frame_example =
    read-create_send_frame eof (codes "/queue/a") [] (codes "hello") client sent [] (ground arith)
      refl

abbrev pub plain : Frame
plain = record {
  command = Command.send;
  header = (Names.destination, codes "/queue/a") ∷ [];
  body = codes "hello";
}

pub plain-IsSendable : IsSendable plain
unfolding content_length contains str_eq
plain-IsSendable = record { names = ((λ e. cc), tt); body = inr (refl, ground arith) }

read_loop-received_example :
    received (read_loop config eof 4 (true, 0) (written (some plain ∷ none ∷ some plain ∷ []) ∷ []))
    ≡ some plain ∷ some plain ∷ none ∷ []
unfolding flatten
read_loop-received_example =
    read_loop-received config eof (some plain ∷ none ∷ some plain ∷ []) 4 (true, 0)
      (written (some plain ∷ none ∷ some plain ∷ []) ∷ [])
      (plain-IsSendable, (plain-IsSendable, tt)) (append-nil _) (ground arith)

abbrev delivered_message : Frame
delivered_message = frame Command.message ((Names.subscription, format_uint 1) ∷ [])

pub client-IsReady : IsReady answers conn
client-IsReady = record { unshut = refl; writes = refl; taken = refl }

subscribe-delivers_example :
    (t : Client) × (g : Frame) × (k : Loop) × (u : St) × (subscribe answers
        (codes "/queue/a")
        Mode.client
        []
        client
      ≡ returned (ok (subscription (codes "/queue/a") Mode.client (format_uint 1))) t)
    × (t.conn.write_requests ≡ record { frame = g; channel = some 0 } ∷ [])
    × (on_event [] (write_request (some (record { frame = g; channel = some 0 }))) loop
        ≡ went_on tt k)
    × (k.link.written ≡ some g ∷ [])
    × (handle_subscribe (record greeting { frame = g }) ≡ Server.Conn.returned tt u)
    × (find u.conn.subs (format_uint 1) ≡ some 0)
    × ((u.heap.at 0).id ≡ format_uint 1)
    × ((u.heap.at 0).dest ≡ codes "/queue/a")
    × ((u.heap.at 0).ack ≡ mode_string Mode.client)
    × (on_event [] (frame_read (some (some delivered_message))) k
        ≡ went_on tt (record k { uses = delivered 0 delivered_message ∷ [] }))
unfolding contains str_eq find allocate_id Server.Conn.new_conn
subscribe-delivers_example =
    subscribe-delivers answers (codes "/queue/a") Mode.client client loop greeting []
      delivered_message client-IsReady refl refl refl refl refl
