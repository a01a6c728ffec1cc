-- ===== src/Tests/Clients.antt =====
-- Runs of the theorems on the loops of the client library and on its handshake.
use go_stomp.Base.{
  ℕ, ◌*◌, ◌≡◌, refl, ap, Bytes, true, false, none, some, List, [], ◌∷◌, ok, codes, str_eq, arith,
  inl, ◌≤◌,
}
use go_stomp.Client.AckMode.{Mode}
use go_stomp.Client.Conn.{Conn}
use go_stomp.Client.Connect.{accept_response}
use go_stomp.Client.Connect.Handshake.{IsPlainClient, handshake-agrees}
use go_stomp.Client.Loop.{Loop, panicked, send_on_closed, frame_read, write_request, process_loop}
use go_stomp.Client.Loop.Channels
use go_stomp.Client.Loop.Receipts.{process_loop-panics}
use go_stomp.Client.Loop.Rounds.{process_loop-Safe}
use go_stomp.Client.Loop.Safety.{Safe}
use go_stomp.Client.Message.{Subscription}
use go_stomp.Client.Options.{ConnOptions, default_options, new_frame}
use go_stomp.Client.Subscription.{Live, start, message_of, input, unsubscribe, run, done}
use go_stomp.Client.Subscription.Delivery.{IsOpen, run-deliveries}
use go_stomp.Frame.Command.{Command}
use go_stomp.Frame.Data.{Frame}
use go_stomp.Frame.Header.{contains}
use go_stomp.Frame.HeartBeat.{millisecond}
use go_stomp.Frame.Names
use go_stomp.Server
use go_stomp.Server.Conn.{Config, St, failed}
use go_stomp.Server.Conn.Handlers.{handle_connect}
use go_stomp.Server.Conn.Handshake.{agreed}
use go_stomp.Server.Negotiation.{v12}

abbrev pub frame : Command → List (Bytes × Bytes) → Frame
frame c h = record { command = c; header = h; body = codes "hello" }

abbrev pub conn : Conn
conn = record {
  version = v12;
  session = [];
  server = [];
  read_timeout = 0;
  write_timeout = 0;
  msg_send_timeout = 1000;
  rcv_receipt_timeout = 1000;
  disconnect_receipt_timeout = 1000;
  unsubscribe_receipt_timeout = 1000;
  stats_enabled = true;
  writes_sent = 0;
  closed = false;
  write_requests = [];
  write_closed = false;
  link_closed = false;
}

abbrev pub loop : Loop
loop = record {
  channels = (codes "7", some 0) ∷ (codes "s", some 1) ∷ [];
  uses = [];
  link = record { written = []; room = none };
  conn = conn;
}

loop-IsSound : Channels.IsSound 2 loop
loop-IsSound = record {
  live = ((refl, omega arith), ((refl, omega arith), tt));
  apart = (((λ e. cc), tt), (tt, tt));
  shut_below = λ c e. cc;
}

abbrev pub receipt : Frame
receipt = frame Command.receipt ((Names.receipt_id, codes "7") ∷ [])

abbrev pub message : Frame
message = frame Command.message ((Names.subscription, codes "s") ∷ [])

process_loop-Safe_example :
    Safe
      (λ u t. Unit {0})
      (process_loop []
        (frame_read (some (some receipt))
          ∷ write_request (
              some (record {
                frame = frame Command.send ((Names.receipt, codes "8") ∷ []);
                channel = some 2;
              }))
          ∷ frame_read (some (some message))
          ∷ frame_read none
          ∷ [])
        loop)
process_loop-Safe_example = process_loop-Safe [] _ 2 loop loop-IsSound ((omega arith, λ e. cc), tt)

abbrev first : Bytes → ℕ
first [] = 0
first (c ∷ s) = c

process_loop-panics_example :
    process_loop []
      (write_request (
          some (record {
            frame =
                frame Command.subscribe ((Names.receipt, codes "r") ∷ (Names.id, codes "t") ∷ []);
            channel = some 2;
          }))
        ∷ frame_read (some (some (frame Command.receipt ((Names.receipt_id, codes "r") ∷ []))))
        ∷ frame_read (some (some (frame Command.message ((Names.subscription, codes "t") ∷ []))))
        ∷ [])
      loop
    ≡ panicked send_on_closed
unfolding contains str_eq
process_loop-panics_example =
    process_loop-panics [] loop
      (frame Command.subscribe ((Names.receipt, codes "r") ∷ (Names.id, codes "t") ∷ []))
      (frame Command.receipt ((Names.receipt_id, codes "r") ∷ []))
      (frame Command.message ((Names.subscription, codes "t") ∷ [])) (codes "r") (codes "t") 2 refl
      refl refl refl (λ e. omega (arith, ap first e)) refl refl refl refl refl refl

abbrev pub sub : Subscription
sub = record {
  id = codes "s";
  reply_to_set = false;
  destination = codes "/queue/a";
  ack_mode = Mode.client;
}

start-IsOpen : IsOpen start
start-IsOpen = record { unshut = refl; running = refl; state = λ e. cc }

run-deliveries_example :
    (t : Live) × (run sub
        (input (some message) ∷ unsubscribe ∷ input (some message) ∷ input (some receipt) ∷ [])
        start
      ≡ done t)
    × (t.sent ≡ message_of sub message ∷ message_of sub message ∷ [])
    × (t.shut ≡ true)
    × (t.running ≡ false)
run-deliveries_example =
    run-deliveries sub
      (input (some message) ∷ unsubscribe ∷ input (some message) ∷ input (some receipt) ∷ []) start
      start-IsOpen (tt, (tt, (tt, (tt, tt))))

abbrev options : ConnOptions
options = record default_options { accept_versions = codes "1.0" ∷ codes "1.1" ∷ codes "1.2" ∷ [] }

abbrev pub greeting : St
greeting = record {
  conn = Server.Conn.new_conn 7 (record { written = []; room = none });
  heap = record {
    next = 0;
    at = λ a. record {
      conn = 7;
      dest = [];
      id = [];
      ack = [];
      msg_id = 0;
      sub_list = none;
      frame = none;
    };
  };
  frame = new_frame options;
  requests = [];
}

abbrev pub config : Config
config = record {
  authenticate = λ login passcode. true;
  heart_beat = 60000000000;
  library_text = λ e. [];
}

options-IsPlainClient : IsPlainClient options
unfolding contains
options-IsPlainClient = record {
  command = inl refl;
  versions = refl;
  receipt = refl;
  login = refl;
  passcode = refl;
  sends = ground arith;
  receives = ground arith;
}

handshake-agrees_example :
    (t : St) × (f : Frame) × (c : Conn) × (handle_connect config greeting
      ≡ Server.Conn.returned tt t)
    × (t.conn.link.written ≡ some f ∷ [])
    × (accept_response (λ e. []) options (some f) ≡ ok c)
    × (t.conn.version ≡ some c.version)
    × (c.version ≡ v12)
    × (t.conn.write_timeout ≤ c.read_timeout)
    × (c.write_timeout ≤ agreed config 60000 * millisecond)
unfolding Server.Conn.new_conn
handshake-agrees_example =
    handshake-agrees (λ e. []) config options greeting options-IsPlainClient (ground arith) refl
      refl refl
