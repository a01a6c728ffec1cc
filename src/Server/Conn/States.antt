-- ===== src/Server/Conn/States.antt =====
-- The states of a connection: what is refused before the handshake.
use go_stomp.Base.{false, ◌≡◌, ◌≢◌, refl, [], ◌∷◌, ◌++◌, none, some, Error}
use go_stomp.Frame.Command.{Command}
use go_stomp.Frame.Data.{Frame, new}
use go_stomp.Frame.Header.{contains, add}
use go_stomp.Frame.Names
use go_stomp.Server.Conn.{Config, connecting, St, returned, failed, send_immediately, write_link}
use go_stomp.Server.Conn.Handlers.{call_state, run_connecting}
use go_stomp.Server.Conn.Loop.{on_read, send_error_immediately, error_text, validate}

-- The ERROR frame that answers a frame.
abbrev pub error_frame : Config → Error → Frame → Frame
error_frame config e f =
    let g = new Command.error ((Names.message, error_text config e) ∷ []) in
    elim (contains f.header Names.receipt) [
      | some receipt ↦ record g { header = add g.header Names.receipt_id receipt }
      | none ↦ g
    ]

run_connecting-refuses :
    (config : Config) (c : Command)
    → c ≢ Command.connect
    → c ≢ Command.stomp
    → (s : St) → run_connecting config c s ≡ failed Error.not_connected s
unfolding run_connecting
run_connecting-refuses config Command.connect p q s = absurd (p refl)
run_connecting-refuses config Command.stomp p q s = absurd (q refl)
run_connecting-refuses config Command.disconnect p q s = refl
run_connecting-refuses config Command.begin p q s = refl
run_connecting-refuses config Command.abort p q s = refl
run_connecting-refuses config Command.commit p q s = refl
run_connecting-refuses config Command.send p q s = refl
run_connecting-refuses config Command.subscribe p q s = refl
run_connecting-refuses config Command.unsubscribe p q s = refl
run_connecting-refuses config Command.ack p q s = refl
run_connecting-refuses config Command.nack p q s = refl
run_connecting-refuses config Command.message p q s = refl
run_connecting-refuses config Command.receipt p q s = refl
run_connecting-refuses config Command.error p q s = refl
run_connecting-refuses config Command.connected p q s = refl

call_state-refuses :
    (config : Config) (s : St)
    → s.conn.state_func ≡ connecting
    → s.frame.command ≢ Command.connect
    → s.frame.command ≢ Command.stomp
    → call_state config s ≡ failed Error.not_connected s
unfolding call_state
call_state-refuses config s c p q = rw c (
    run_connecting-refuses config s.frame.command p q
      (record s { conn = record (s.conn) { state_func = connecting } }))

-- Before the handshake, a frame that is neither CONNECT nor STOMP is answered with the one ERROR
-- frame for it, if the network takes it, and the loop ends; nothing is sent to the upper layer, and
-- the connection is otherwise as it was.
pub on_read-refuses :
    (config : Config) (f : Frame) (s : St)
    → s.conn.state_func ≡ connecting
    → s.conn.link.room ≡ none
    → f.command ≢ Command.connect
    → f.command ≢ Command.stomp
    → on_read config (some f) s
      ≡ returned false (record s {
        frame = f;
        conn = record (s.conn) {
          link = record (s.conn.link) {
            written = s.conn.link.written ++ some (error_frame config Error.not_connected f) ∷ [];
          };
        };
      })
unfolding on_read send_error_immediately send_immediately write_link validate
on_read-refuses config f s c r p q =
    rw (on_read, call_state-refuses config (record s { frame = f }) c p q, r) refl
