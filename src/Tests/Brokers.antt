-- ===== src/Tests/Brokers.antt =====
-- Runs of the theorems on negotiation, subscriptions and the request processor.
use go_stomp.Base.{
  ℕ, ◌≡◌, refl, Bytes, codes, List, [], ◌∷◌, ◌++◌, map, none, err, str_eq, arith, inl, find,
  unknown_version,
}
use go_stomp.Frame.Command.{Command}
use go_stomp.Frame.Data.{Frame}
use go_stomp.Frame.Header.{contains}
use go_stomp.Frame.Names
use go_stomp.Std.Strconv.{format_uint}
use go_stomp.Std.Strings.{split}
use go_stomp.Server.Negotiation.{determine_version}
use go_stomp.Server.Negotiation.Laws.{best_version, determine_version-best}
use go_stomp.Server.Objects.{Heap, store, Subscription, subscribe_op, enqueue_op, done}
use go_stomp.Server.Conn.Handlers.{on_ack}
use go_stomp.Server.SubscriptionList.{ack}
use go_stomp.Server.SubscriptionList.Acks.{SameButFrames, ack-individual, ack-cumulative}
use go_stomp.Server.Storage.Memory.{memory_storage, new_memory_queue_storage, memory_storage-IsFifo}
use go_stomp.Server.Broker.{Broker, serve, send_to_all}
use go_stomp.Server.Broker.Queues.Quiet.{IsQuiet, HoldsAfter, serve-IsQuiet}
use go_stomp.Server.Broker.References.{FrameRef, Headers, received}
use go_stomp.Server.Broker.References.Copies.{OwnCopies, enqueue-copies}

abbrev connect_frame : Bytes → Frame
connect_frame beat = record {
  command = Command.connect;
  header = (Names.accept_version, codes "1.1,1.2,1.0") ∷ (Names.heart_beat, beat) ∷ [];
  body = [];
}

determine_version-best_example :
    determine_version (connect_frame [])
    ≡ best_version (split b',' (codes "1.1,1.2,1.0")) (err unknown_version)
unfolding contains str_eq
determine_version-best_example =
    determine_version-best (connect_frame []) (codes "1.1,1.2,1.0") (inl refl) refl

abbrev beat : Bytes
beat = format_uint 500 ++ (b',' ∷ format_uint 1000)

-- Two subscriptions to one destination in one mode, on connection 7.
abbrev subscription : Bytes → Bytes → Subscription
subscription dest mode = record {
  conn = 7;
  dest = dest;
  id = codes "s";
  ack = mode;
  msg_id = 0;
  sub_list = none;
  frame = none;
}

abbrev heap : Bytes → Bytes → Heap
heap dest mode = record { next = 2; at = λ a. subscription dest mode }

abbrev pub queue : Bytes
queue = codes "/queue/a"

abbrev individual : Heap
individual = heap queue Names.ack_client_individual

ack-individual_example : ack 1 on_ack individual (0 ∷ 1 ∷ []) ≡ done (individual, 0 ∷ 1 ∷ [], [])
ack-individual_example =
    ack-individual 1 on_ack individual (0 ∷ 1 ∷ []) (omega arith) ((refl, refl), ((refl, refl), tt))

abbrev pub client : Heap
client = heap queue Names.ack_client

-- The second has the number 5, the others have 0.
abbrev later : Heap
later = store client 1 (record (client.at 1) { msg_id = 5 })

ack-cumulative_example :
    (h : Heap) × (ack 3 on_ack later (0 ∷ 1 ∷ 2 ∷ [])
      ≡ done (h, 1 ∷ [], subscribe_op 0 ∷ subscribe_op 2 ∷ []))
    × SameButFrames h later
ack-cumulative_example = ack-cumulative 3 later (0 ∷ 1 ∷ 2 ∷ []) (refl, (refl, (refl, tt)))

abbrev pub message : Frame
message = record {
  command = Command.message;
  header = (Names.destination, queue) ∷ [];
  body = codes "hello";
}

-- A processor with the subscriptions of `waits` in the queue.
abbrev pub broker : List ℕ → Broker memory_storage
broker waits = record {
  heap = client;
  storage = new_memory_queue_storage;
  queues = (queue, waits) ∷ [];
  topics = [];
  outbox = [];
}

idle-IsQuiet : IsQuiet memory_storage memory_storage-IsFifo (broker [])
unfolding find
idle-IsQuiet d = inl (ground arith)

serve-IsQuiet_example :
    HoldsAfter memory_storage memory_storage-IsFifo
      (IsQuiet memory_storage memory_storage-IsFifo)
      (serve memory_storage (enqueue_op message ∷ subscribe_op 0 ∷ subscribe_op 1 ∷ []) (broker []))
serve-IsQuiet_example =
    serve-IsQuiet memory_storage memory_storage-IsFifo
      (enqueue_op message ∷ subscribe_op 0 ∷ subscribe_op 1 ∷ []) (broker []) idle-IsQuiet

-- The two subscriptions have different ids.
abbrev readers : Heap
readers = store client 1 (record (client.at 1) { id = codes "t" })

abbrev letter : FrameRef
letter = record { command = Command.message; header = 0; body = codes "hello" }

abbrev headers : Headers
headers = record { next = 1; at = λ q. message.header }

enqueue-copies_example :
    (r : OwnCopies readers (0 ∷ 1 ∷ []) letter headers) × (send_to_all readers (0 ∷ 1 ∷ []) message
      ≡ done (map (received r.after) r.sent))
enqueue-copies_example =
    enqueue-copies readers (0 ∷ 1 ∷ []) letter headers (refl, (refl, tt)) (omega arith)
