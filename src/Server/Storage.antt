-- ===== src/Server/Storage.antt =====
-- server/queue/storage.go: the interface `Storage`, and server/queue/memory_queue.go.
pub mod Memory
use go_stomp.Base.{
  ◌≡◌, Bytes, Option, none, some, List, [], ◌∷◌, ◌++◌, Result, ok, err, str_eq, if◌then◌else◌,
}
use go_stomp.Frame.Data.{Frame}

-- The interface, with its state passed along; `Dequeue` gives no frame where the source gives nil.
pub record Storage : Type 1 where
  pub State : Type 0
  pub enqueue : State → Bytes → Frame → Result State
  pub requeue : State → Bytes → Frame → Result State
  pub dequeue : State → Bytes → Result (Option Frame × State)

abbrev pub pop : List Frame → Option Frame × List Frame
pop [] = (none, [])
pop (f ∷ fs) = (some f, fs)

-- The order that the queues rely on, which is not all that the comments on the interface say: for
-- each name a sequence of frames, which `Enqueue` extends at its end, `Requeue` at its head and
-- `Dequeue` shortens at its head, with no error. The other names keep theirs. The frames are stored
-- as they are: the header "message-id", which the comments on `Enqueue` and `Requeue` name, is no
-- part of it.
pub record IsFifo (st : Storage) : Type 1 where
  pub contents : st.State → Bytes → List Frame
  pub contents-enqueue :
      (s : st.State) (q : Bytes) (f : Frame)
      → (t : st.State) × (st.enqueue s q f ≡ ok t)
        × ((r : Bytes)
            → contents t r ≡ (if str_eq q r then contents s q ++ f ∷ [] else contents s r))
  pub contents-requeue :
      (s : st.State) (q : Bytes) (f : Frame)
      → (t : st.State) × (st.requeue s q f ≡ ok t)
        × ((r : Bytes) → contents t r ≡ (if str_eq q r then f ∷ contents s q else contents s r))
  pub contents-dequeue :
      (s : st.State) (q : Bytes)
      → (t : st.State) × (st.dequeue s q ≡ ok ((pop (contents s q)).0, t))
        × ((r : Bytes)
            → contents t r ≡ (if str_eq q r then (pop (contents s q)).1 else contents s r))
