-- ===== src/Server/Objects.antt =====
-- The values that connections and the request processor share: subscriptions on the heap, the
-- requests of server/client/request.go, what is sent to a connection's channels, and panics.
use go_stomp.Base.{ℕ, ◌+◌, Bytes, Option, ◌==◌, if◌then◌else◌}
use go_stomp.Frame.Data.{Frame}

-- A `*SubscriptionList`: that of a connection, or that of the queue with a destination.
pub data ListRef : Type 0 where
  conn_list : ℕ → ListRef
  queue_list : Bytes → ListRef

-- server/client/subscription.go: `Subscription`. A connection is named by a number.
pub record Subscription : Type 0 where
  pub conn : ℕ
  pub dest : Bytes
  pub id : Bytes
  pub ack : Bytes
  pub msg_id : ℕ
  pub sub_list : Option ListRef
  pub frame : Option Frame

-- What the pointers to subscriptions point to. The addresses from `next` on are not in use.
pub record Heap : Type 0 where
  pub next : ℕ
  pub at : ℕ → Subscription

abbrev pub store : Heap → ℕ → Subscription → Heap
store h a s = record h { at = λ b. if a == b then s else h.at b }

-- `&Subscription{…}`.
abbrev pub alloc : Heap → Subscription → Heap
alloc h s = record { next = h.next + 1; at = λ b. if h.next == b then s else h.at b }

-- `s.frame = f`.
abbrev pub set_frame : Heap → ℕ → Option Frame → Heap
set_frame h a f = store h a (record (h.at a) { frame = f })

-- `s.subList = l`.
abbrev pub set_sub_list : Heap → ℕ → Option ListRef → Heap
set_sub_list h a l = store h a (record (h.at a) { sub_list = l })

-- `Request`, a constructor for each opcode with the fields that it uses. The frame of a requeue is
-- a subscription's, which may be nil.
pub data Request : Type 0 where
  subscribe_op unsubscribe_op : ℕ → Request
  enqueue_op : Frame → Request
  requeue_op : Option Frame → Request
  connected_op disconnected_op : ℕ → Request

-- A send on the channels of a connection: a subscription with its frame, or a frame.
pub data Delivery : Type 0 where
  to_sub_channel : ℕ → ℕ → Delivery
  to_write_channel : ℕ → Frame → Delivery

-- The places where the server panics.
pub data Panic : Type 0 where
  already_in_list frame_pending invalid_ack missing_destination nil_frame stack_overflow : Panic

pub data Outcome {ℓ} (A : Type ℓ) : Type ℓ where
  done : A → Outcome A
  panicked : Panic → Outcome A

infixl 5 ◌>>=◌ ◌>>◌
abbrev pub ◌>>=◌ {ℓ κ} : {A : Type ℓ} {B : Type κ} → Outcome A → (A → Outcome B) → Outcome B
done a >>= f = f a
panicked p >>= f = panicked p

abbrev pub ◌>>◌ {ℓ} : {B : Type ℓ} → Outcome (Unit {0}) → Outcome B → Outcome B
m >> k = m >>= λ _. k
