-- ===== src/Server/TxStore.antt =====
-- server/client/tx_store.go, but for `Commit`, whose loop runs handlers of the connection
-- (Server/Conn). A list.List is a list of frames here; a nil map reads as an empty one, and
-- `Begin` makes the map before it writes.
use go_stomp.Base.{
  Bytes, none, some, List, [], ◌∷◌, ◌++◌, Result, ok, err, tx_already_in_progress, tx_unknown, Dict,
  find, insert, delete,
}
use go_stomp.Frame.Data.{Frame}
use go_stomp.Frame.Header.{del}
use go_stomp.Frame.Names

abbrev pub TxStore : Type 0
TxStore = Dict (List Frame)

unfoldable pub init : TxStore → TxStore
init txs = []

unfoldable pub begin : TxStore → Bytes → Result TxStore
begin txs tx = elim (find txs tx) [
  | some l ↦ err tx_already_in_progress
  | none ↦ ok (insert txs tx [])
]

unfoldable pub abort : TxStore → Bytes → Result TxStore
abort txs tx = elim (find txs tx) [ some l ↦ ok (delete txs tx) | none ↦ err tx_unknown ]

-- `Add`: the new store and the frame without its transaction header.
unfoldable pub add : TxStore → Bytes → Frame → Result (TxStore × Frame)
unfolding del
add txs tx f = elim (find txs tx) [
  | some l ↦
      let g : Frame = record f { header = del f.header Names.transaction } in
      ok (insert txs tx (l ++ g ∷ []), g)
  | none ↦ err tx_unknown
]
