-- ===== src/Tests/Closed.antt =====
-- A run of the theorem on a connection that closes.
use go_stomp.Base.{◌≡◌, refl, some, [], ◌∷◌, codes, str_eq, find}
use go_stomp.Frame.Data.{Frame}
use go_stomp.Frame.Header.{contains}
use go_stomp.Server.Broker.{Broker, serve, is_queue_destination}
use go_stomp.Server.Conn.{St, returned}
use go_stomp.Server.Conn.Loop.{cleanup_conn}
use go_stomp.Server.Objects.{set_frame, done}
use go_stomp.Server.Storage.Memory.{memory_storage, memory_storage-IsFifo, new_memory_queue_storage}
use go_stomp.Std.Strings.{has_prefix}
use go_stomp.System.Closed.{cleanup_conn-keeps_messages}
use go_stomp.Tests.Brokers.{broker, client, message, queue}
use go_stomp.Tests.Systems.{server}

abbrev other_message : Frame
other_message = record message { body = codes "again" }

-- A connection with two messages that its client has not acknowledged.
abbrev leaving : St
leaving = record server {
  conn = record (server.conn) {
    sub_list = 0 ∷ 1 ∷ [];
    subs = (codes "a", 0) ∷ (codes "b", 1) ∷ [];
  };
  heap = set_frame (set_frame client 0 (some message)) 1 (some other_message);
}

cleanup_conn-keeps_messages_example :
    (t : St) × (b : Broker memory_storage) × (cleanup_conn [] [] leaving ≡ returned tt t)
    × (serve memory_storage t.requests (broker []) ≡ done b)
    × (memory_storage-IsFifo.contents b.storage queue
        ≡ other_message ∷ message ∷ memory_storage-IsFifo.contents new_memory_queue_storage queue)
unfolding contains str_eq find is_queue_destination has_prefix
cleanup_conn-keeps_messages_example =
    cleanup_conn-keeps_messages memory_storage memory_storage-IsFifo queue refl
      (message ∷ other_message ∷ []) leaving (broker []) refl (refl, (refl, tt)) refl refl
