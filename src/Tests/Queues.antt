-- ===== src/Tests/Queues.antt =====
-- Runs of the theorems on the queues of the request processor.
use go_stomp.Base.{◌≡◌, refl, [], ◌∷◌, str_eq, find}
use go_stomp.Frame.Header.{contains}
use go_stomp.Server.Broker.{Broker, process}
use go_stomp.Server.Broker.Queues.Ideal.{Queue}
use go_stomp.Server.Broker.Refines.{Ready, Refined, op_for, view}
use go_stomp.Server.Broker.Refines.Requests.{process-refines}
use go_stomp.Server.Broker.Refines.Runs.{Run, rest, round}
use go_stomp.Server.Objects.{connected_op, connected_op, enqueue_op, subscribe_op, done}
use go_stomp.Server.Storage.{IsFifo}
use go_stomp.Server.Storage.Memory.{memory_storage, memory_storage-IsFifo}
use go_stomp.Tests.Brokers.{message, broker, queue, client}

abbrev fifo : IsFifo memory_storage
fifo = memory_storage-IsFifo

sent-Ready : Ready memory_storage fifo (broker (0 ∷ [])) (enqueue_op message)
unfolding contains str_eq find
sent-Ready = (queue, refl, (refl, tt), tt)

stored-Ready : Ready memory_storage fifo (broker []) (enqueue_op message)
unfolding contains str_eq find
stored-Ready = (queue, refl, tt, tt)

process-refines_example :
    (b : Broker memory_storage) × (process memory_storage (enqueue_op message) (broker (0 ∷ []))
      ≡ done b)
    × Refined memory_storage fifo (enqueue_op message) (broker (0 ∷ [])) b
process-refines_example =
    process-refines memory_storage fifo (enqueue_op message) (broker (0 ∷ [])) sent-Ready

abbrev stored : Broker memory_storage
stored = (process-refines memory_storage fifo (enqueue_op message) (broker []) stored-Ready).0

abbrev asked : Broker memory_storage
asked =
    (process-refines memory_storage fifo (subscribe_op 1) (record stored { heap = client })
      (refl, refl)).0

-- A frame comes to an empty queue, and then the subscription 1 asks for a frame.
abbrev run :
    Run memory_storage fifo queue
      (broker [])
      (op_for client queue (enqueue_op message) ∷ op_for client queue (subscribe_op 1) ∷ [])
      (record asked { heap = client })
run =
    round (enqueue_op message) client stored-Ready
      ((process-refines memory_storage fifo (enqueue_op message) (broker []) stored-Ready).1)
      (round (subscribe_op 1) client (refl, refl)
        ((process-refines memory_storage fifo (subscribe_op 1) (record stored { heap = client })
          (refl, refl)).1)
        rest)

abbrev empty : Queue
empty = view memory_storage fifo (broker []) queue

untouched : process memory_storage (connected_op 3) (broker []) ≡ done (broker [])
unfolding process
untouched = refl

-- The same with a request between that is not for the queue.
abbrev longer_run :
    Run memory_storage fifo queue
      (broker [])
      (op_for client queue (connected_op 3)
        ∷ op_for client queue (enqueue_op message)
        ∷ op_for client queue (subscribe_op 1)
        ∷ [])
      (record asked { heap = client })
longer_run = round (connected_op 3) client tt untouched run
