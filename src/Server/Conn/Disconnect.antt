-- ===== src/Server/Conn/Disconnect.antt =====
-- What follows a DISCONNECT frame.
use go_stomp.Base.{◌≡◌, refl, ◌∙◌, Option, [], ◌∷◌, some, arith, Option-cases, inl, inr, true}
use go_stomp.Frame.Command.{Command}
use go_stomp.Frame.Data.{Frame, new}
use go_stomp.Frame.Header.{contains, del}
use go_stomp.Frame.Names
use go_stomp.Server.Conn.{Config, connected, St, returned, ignore, send_immediately, write_link}
use go_stomp.Server.Conn.Handlers.{
  call_state, run_connected, dispatch, handle_disconnect, send_receipt_immediately,
}
use go_stomp.Server.Conn.Loop.{on_read, validate}

-- A state with the same state function and the same requests as another.
abbrev SameStage : St → St → Type 0
SameStage t s = (t.conn.state_func ≡ s.conn.state_func) × (t.requests ≡ s.requests)

send-SameStage :
    (g : Option Frame) (s : St)
    → (t : St) × (ignore (send_immediately g) s ≡ returned tt t) × SameStage t s
unfolding send_immediately
send-SameStage g s = elim (Option-cases (write_link g s.conn.link)) [
  | inl e ↦ (s, ground (arith, e), (refl, refl))
  | inr (l, e) ↦ (record s { conn = record (s.conn) { link = l } }, ground (arith, e), (refl, refl))
]

disconnect-SameStage : (s : St) → (t : St) × (handle_disconnect s ≡ returned tt t) × SameStage t s
unfolding handle_disconnect send_receipt_immediately
disconnect-SameStage s = elim (Option-cases (contains s.frame.header Names.receipt)) [
  | inl e ↦ (s, ground (arith, e), (refl, refl))
  | inr (receipt, e) ↦
      let f : Frame = record (s.frame) { header = del s.frame.header Names.receipt } in
      let (t, r, same) =
        send-SameStage (some (new Command.receipt ((Names.receipt_id, receipt) ∷ [])))
          (record s { frame = f }) in
      (t, ground (arith, e, r), same)
]

call_state-disconnect :
    (config : Config) (s t : St)
    → s.conn.state_func ≡ connected
    → s.frame.command ≡ Command.disconnect
    → handle_disconnect s ≡ returned tt t
    → call_state config s ≡ returned tt t
unfolding call_state run_connected dispatch
call_state-disconnect config s t c d r = ground (arith, c, d, r)

-- A connection that is connected and reads a DISCONNECT frame stays connected, and its loop goes
-- on, whatever the network does; nothing is sent to the upper layer.
pub on_read-disconnect :
    (config : Config) (f : Frame) (s : St)
    → s.conn.state_func ≡ connected
    → f.command ≡ Command.disconnect
    → (t : St) × (on_read config (some f) s ≡ returned true t)
      × (t.conn.state_func ≡ connected)
      × (t.requests ≡ s.requests)
unfolding on_read validate
on_read-disconnect config f s c d =
    let (t, r, same) = disconnect-SameStage (record s { frame = f }) in
    (
      t,
      rw (on_read, call_state-disconnect config (record s { frame = f }) t c d r),
      same.0 ∙ c,
      same.1,
    )
