-- ===== src/Frame/Data.antt =====
-- frame/frame.go: `Frame`. A nil `Header` and a nil `Body` are empty ones here: no function of the
-- packages tells them apart.
use go_stomp.Base.{◌≡◌, List, [], ◌∷◌, Bytes}
use go_stomp.Frame.Command.{Command}
use go_stomp.Frame.Header.{Header, add}
use go_stomp.Frame.Header
use go_stomp.Frame.Header.Laws.{clone_lem}

pub record Frame : Type 0 where
  pub command : Command
  pub header : Header
  pub body : Bytes

-- The loop of `New` over its flat list, two at a time, in pairs here.
unfoldable pub add_pairs : Header → List (Bytes × Bytes) → Header
unfolding add
add_pairs h [] = h
add_pairs h ((key, value) ∷ rest) = add_pairs (add h key value) rest

unfoldable pub new : Command → List (Bytes × Bytes) → Frame
unfolding add_pairs
new command headers = record { command = command; header = add_pairs [] headers; body = [] }

-- `Clone`: the copies are fresh slices with the same elements.
unfoldable pub clone : Frame → Frame
clone f = record { command = f.command; header = Header.clone f.header; body = f.body }

pub clone-eq_self : (f : Frame) → clone f ≡ f
unfolding clone
clone-eq_self f = rw (clone_lem f.header)
