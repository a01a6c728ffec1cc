-- ===== src/Server/Storage/Memory.antt =====
-- server/queue/memory_queue.go: `MemoryQueueStorage`. A list.List is a list of frames here.
use go_stomp.Base.{
  ◌≡◌, refl, Bytes, Option, none, some, List, [], ◌∷◌, ◌++◌, Result, ok, str_eq, str_eq_iff,
  if◌then◌else◌, Dict, find, insert, find-insert, arith,
}
use go_stomp.Frame.Data.{Frame}
use go_stomp.Server.Storage.{Storage, IsFifo, pop}

pub record MemoryQueueStorage : Type 0 where
  pub lists : Dict (List Frame)

abbrev pub new_memory_queue_storage : MemoryQueueStorage
new_memory_queue_storage = record { lists = [] }

-- `l, ok := m.lists[queue]`, with a new list where there is none.
abbrev list_of : MemoryQueueStorage → Bytes → List Frame
list_of m queue = elim (find m.lists queue) [ none ↦ [] | some l ↦ l ]

unfoldable pub enqueue : MemoryQueueStorage → Bytes → Frame → Result MemoryQueueStorage
enqueue m queue f = ok (record { lists = insert m.lists queue (list_of m queue ++ f ∷ []) })

unfoldable pub requeue : MemoryQueueStorage → Bytes → Frame → Result MemoryQueueStorage
requeue m queue f = ok (record { lists = insert m.lists queue (f ∷ list_of m queue) })

unfoldable pub dequeue : MemoryQueueStorage → Bytes → Result (Option Frame × MemoryQueueStorage)
dequeue m queue = elim (find m.lists queue) [
  | none ↦ ok (none, m)
  | some l ↦ elim l [
    | [] ↦ ok (none, m)
    | f ∷ rest ↦ ok (some f, record { lists = insert m.lists queue rest })
  ]
]

-- `Start`, and `Stop`: a nil map reads as an empty one. The server calls neither.
abbrev pub start : MemoryQueueStorage → MemoryQueueStorage
start m = record { lists = [] }

abbrev pub stop : MemoryQueueStorage → MemoryQueueStorage
stop m = record { lists = [] }

abbrev pub memory_storage : Storage
memory_storage = record {
  State = MemoryQueueStorage;
  enqueue = enqueue;
  requeue = requeue;
  dequeue = dequeue;
}

contents-enqueue :
    (m : MemoryQueueStorage) (q : Bytes) (f : Frame)
    → (t : MemoryQueueStorage) × (enqueue m q f ≡ ok t)
      × ((r : Bytes) → list_of t r ≡ (if str_eq q r then list_of m q ++ f ∷ [] else list_of m r))
unfolding enqueue
contents-enqueue m q f =
    (_, refl, λ r. ground (arith, find-insert m.lists q (list_of m q ++ f ∷ []) r))

contents-requeue :
    (m : MemoryQueueStorage) (q : Bytes) (f : Frame)
    → (t : MemoryQueueStorage) × (requeue m q f ≡ ok t)
      × ((r : Bytes) → list_of t r ≡ (if str_eq q r then f ∷ list_of m q else list_of m r))
unfolding requeue
contents-requeue m q f = (_, refl, λ r. ground (arith, find-insert m.lists q (f ∷ list_of m q) r))

contents-dequeue :
    (m : MemoryQueueStorage) (q : Bytes)
    → (t : MemoryQueueStorage) × (dequeue m q ≡ ok ((pop (list_of m q)).0, t))
      × ((r : Bytes) → list_of t r ≡ (if str_eq q r then (pop (list_of m q)).1 else list_of m r))
unfolding dequeue
contents-dequeue m q = go (find m.lists q) refl
  where
    go :
        (o : Option (List Frame))
        → find m.lists q ≡ o
        → (t : MemoryQueueStorage) × (dequeue m q ≡ ok ((pop (list_of m q)).0, t))
          × ((r : Bytes)
              → list_of t r ≡ (if str_eq q r then (pop (list_of m q)).1 else list_of m r))
    go none e = (m, ground (arith, e), λ r. ground (arith, e, str_eq_iff q r))
    go (some []) e = (m, ground (arith, e), λ r. ground (arith, e, str_eq_iff q r))
    go (some (f ∷ rest)) e = (
      record { lists = insert m.lists q rest },
      ground (arith, e),
      λ r. ground (arith, e, find-insert m.lists q rest r),
    )

-- The storage in memory keeps for each name the frames in the order of a queue: `Enqueue` puts a
-- frame at the end, `Requeue` at the head, and `Dequeue` takes the one at the head, or none of an
-- empty queue. The frame is stored as it is, without the header "message-id" that the comments on
-- the interface say is set; no operation fails, and the other names keep their frames.
pub memory_storage-IsFifo : IsFifo memory_storage
memory_storage-IsFifo = record {
  contents = list_of;
  contents-enqueue = contents-enqueue;
  contents-requeue = contents-requeue;
  contents-dequeue = contents-dequeue;
}
