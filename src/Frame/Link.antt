-- ===== src/Frame/Link.antt =====
-- A frame.Writer seen as a place for whole frames: `Writer.Write` (Frame/Writer) over a network
-- that takes a number of them.
use go_stomp.Base.{ℕ, zero, suc, Option, none, some, List, [], ◌∷◌, ◌++◌}
use go_stomp.Frame.Data.{Frame}

-- The frames written (`none` is a heart-beat), and how many more the network takes before it fails
-- (`none`: it never fails).
pub record Link : Type 0 where
  pub written : List (Option Frame)
  pub room : Option ℕ

-- `writer.Write(f)`, `none` for an error.
unfoldable pub write_link : Option Frame → Link → Option Link
write_link f l = elim l.room [
  | none ↦ some (record l { written = l.written ++ f ∷ [] })
  | some n ↦ elim n [
    | zero ↦ none
    | suc m ↦ some (record { written = l.written ++ f ∷ []; room = some m })
  ]
]
