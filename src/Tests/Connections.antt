-- ===== src/Tests/Connections.antt =====
-- Runs of the theorems on the connections of the server.
use go_stomp.Base.{
  ◌++◌, inl, ok, ◌≡◌, refl, Bytes, codes, [], ◌∷◌, none, some, Error, str_eq, arith, find, true,
  false,
}
use go_stomp.Frame.Command.{Command}
use go_stomp.Frame.Data.{Frame}
use go_stomp.Frame.Header.{contains}
use go_stomp.Frame.Names
use go_stomp.Std.Strconv.{format_uint}
use go_stomp.Server.Objects.{Heap, conn_list}
use go_stomp.Server.Conn.{Config, connecting, connected, St, returned}
use go_stomp.Std.Strings.{split}
use go_stomp.Std.Strings.Sort.{mem}
use go_stomp.Server.Negotiation.{determine_version, v12}
use go_stomp.Server.Negotiation.Laws.{determine_version-best}
use go_stomp.Server.Conn.Disconnect.{on_read-disconnect}
use go_stomp.Server.Conn.MessageIds.{HeapAfter, Unnumbered}
use go_stomp.Server.Conn.MessageIds.Events.{run_events-Unnumbered}
use go_stomp.Server.Conn.Loop.{run_events, frame_read, subscription_ready, on_read}
use go_stomp.Server.Conn.States.{error_frame, on_read-refuses}
use go_stomp.Server.Conn.Deferred.{IsBounded, After}
use go_stomp.Server.Conn.Deferred.Events.{run_events-IsBounded}

abbrev config : Config
config = record {
  authenticate = λ login passcode. true;
  heart_beat = 60000000000;
  library_text = λ e. [];
}

abbrev frame : Command → Frame
frame c = record {
  command = c;
  header = (Names.destination, codes "/queue/a") ∷ (Names.transaction, codes "t") ∷ [];
  body = codes "hello";
}

-- Subscription 0 waits for an acknowledgement of its frame.
abbrev heap : Heap
heap = record {
  next = 1;
  at = λ a. record {
    conn = 7;
    dest = codes "/queue/a";
    id = codes "s";
    ack = Names.ack_client;
    msg_id = 0;
    sub_list = some (conn_list 7);
    frame = some (frame Command.message);
  };
}

-- Connection 7 with one subscription and a transaction of one SEND frame.
abbrev state : Command → St
state c = record {
  conn = record {
    address = 7;
    link = record { written = []; room = none };
    state_func = connecting;
    write_timeout = 0;
    version = none;
    validator = none;
    tx_store = (codes "t", frame Command.send ∷ []) ∷ [];
    last_msg_id = 4;
    sub_list = 0 ∷ [];
    subs = (codes "s", 0) ∷ [];
  };
  heap = heap;
  frame = frame c;
  requests = [];
}

-- The same after the handshake.
abbrev online : Command → St
online c = record (state c) { conn = record ((state c).conn) { state_func = connected } }

on_read-refuses_example :
    on_read config (some (frame Command.send)) (state Command.ack)
    ≡ returned false (record (state Command.send) {
      conn = record ((state Command.send).conn) {
        link = record {
          written = some (error_frame config Error.not_connected (frame Command.send)) ∷ [];
          room = none;
        };
      };
    })
on_read-refuses_example =
    on_read-refuses config (frame Command.send) (state Command.ack) refl refl (λ e. cc) (λ e. cc)

deferred : IsBounded (online Command.send)
unfolding find
deferred tx l e = ground (arith, e)

-- In a transaction that holds a SEND frame, a COMMIT, and an ACK that the connection refuses.
run_events-IsBounded_example : After IsBounded (
    run_events config
      (frame_read (some (frame Command.commit)) ∷ frame_read (some (frame Command.ack)) ∷ [])
      (online Command.send))
run_events-IsBounded_example =
    run_events-IsBounded config
      (frame_read (some (frame Command.commit)) ∷ frame_read (some (frame Command.ack)) ∷ [])
      (online Command.send) deferred

on_read-disconnect_example :
    (t : St) × (on_read config (some (frame Command.disconnect)) (online Command.ack)
      ≡ returned true t)
    × (t.conn.state_func ≡ connected)
    × (t.requests ≡ [])
on_read-disconnect_example =
    on_read-disconnect config (frame Command.disconnect) (online Command.ack) refl refl

abbrev beat : Bytes
beat = format_uint 500 ++ (b',' ∷ format_uint 1000)

-- A connection that has read a CONNECT frame.
abbrev greeting : St
greeting = record (state Command.connect) {
  frame = record {
    command = Command.connect;
    header = (Names.accept_version, codes "1.1,1.2") ∷ (Names.heart_beat, beat) ∷ [];
    body = [];
  };
}

greeting-version : determine_version greeting.frame ≡ ok v12
unfolding contains str_eq split mem
greeting-version = determine_version-best greeting.frame (codes "1.1,1.2") (inl refl) refl

-- A SEND frame as a transaction holds it.
abbrev stored : Frame
stored = record {
  command = Command.send;
  header = (Names.destination, codes "/queue/a") ∷ [];
  body = codes "hello";
}

-- Connection 7 where no subscription has a number: it reads a SEND frame, and then subscription 0
-- comes with a frame.
run_events-Unnumbered_example : HeapAfter Unnumbered (
    run_events config
      (frame_read (some (frame Command.send)) ∷ subscription_ready 0 ∷ [])
      (online Command.ack))
run_events-Unnumbered_example =
    run_events-Unnumbered config
      (frame_read (some (frame Command.send)) ∷ subscription_ready 0 ∷ []) (online Command.ack)
      (λ a. refl)
