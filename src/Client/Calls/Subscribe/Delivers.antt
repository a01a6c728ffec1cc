-- ===== src/Client/Calls/Subscribe/Delivers.antt =====
-- A subscription from end to end: the client's call, its process loop, and the server's handler.
use go_stomp.Base.{
  ℕ, ◌+◌, ◌≡◌, refl, Bytes, false, none, some, [], ◌∷◌, ◌++◌, ok, str_eq, arith, find, insert,
  find-insert, str_eq_iff,
}
use go_stomp.Client.AckMode.{Mode, mode_string}
use go_stomp.Client.Calls.{Client, returned, Answers, run_options}
use go_stomp.Client.Calls.Subscribe.{subscribe, with_id, with_reply_to}
use go_stomp.Client.Calls.Transaction.Laws.{IsReady, count_write-conn, send_request-ready}
use go_stomp.Client.Conn.{WriteRequest}
use go_stomp.Client.Loop.{
  Loop, is_shut, delivered, went_on, send_to, on_message, on_frame, remember, on_subscribe, prepare,
  write_or_stop, on_request, frame_read, write_request, on_event,
}
use go_stomp.Client.Message.{Subscription}
use go_stomp.Client.Versions.{allocate_id}
use go_stomp.Frame.Command.{Command}
use go_stomp.Frame.Data.{Frame, new}
use go_stomp.Frame.Header.{contains, add}
use go_stomp.Frame.Link.{write_link}
use go_stomp.Frame.Names
use go_stomp.Server
use go_stomp.Server.Conn.{St}
use go_stomp.Server.Conn.Handlers.{handle_subscribe, ack_or_auto}
use go_stomp.Server.Objects
use go_stomp.Server.Subscription.{new_subscription}

-- The SUBSCRIBE frame of a call with no option.
abbrev pub subscribe_frame : Bytes → Mode → Bytes → Frame
subscribe_frame d mode id = record {
  command = Command.subscribe;
  header = (Names.destination, d) ∷ (Names.ack, mode_string mode) ∷ (Names.id, id) ∷ [];
  body = [];
}

abbrev pub subscription : Bytes → Mode → Bytes → Subscription
subscription d mode id = record { id = id; reply_to_set = false; destination = d; ack_mode = mode }

headers :
    (d : Bytes) (mode : Mode) (id : Bytes)
    → (contains (subscribe_frame d mode id).header Names.id ≡ some id)
      × (contains (subscribe_frame d mode id).header Names.destination ≡ some d)
      × (contains (subscribe_frame d mode id).header Names.ack ≡ some (mode_string mode))
      × (contains (subscribe_frame d mode id).header Names.receipt ≡ none)
      × (contains (subscribe_frame d mode id).header Names.reply_to ≡ none)
unfolding contains str_eq
headers d mode id = (refl, refl, refl, refl, refl)

subscribe-plain :
    (w : Answers) (d : Bytes) (mode : Mode) (c : Client)
    → IsReady w c.conn
    → (t : Client) × (subscribe w d mode [] c
        ≡ returned (ok (subscription d mode (allocate_id c.last_id).0)) t)
      × (t.conn.write_requests
          ≡ c.conn.write_requests
            ++ record {
              frame = subscribe_frame d mode (allocate_id c.last_id).0;
              channel = some c.channels;
            }
              ∷ [])
unfolding subscribe run_options with_id with_reply_to contains str_eq new add
subscribe-plain w d mode c y =
    let id = (allocate_id c.last_id).0 in
    let c1 : Client = record c { channels = c.channels + 1; last_id = (allocate_id c.last_id).1 } in
    let (n, q) = count_write-conn c1 in
    let r : WriteRequest = record {
      frame = subscribe_frame d mode id;
      channel = some c.channels;
    } in
    (
      record c1 {
        conn = record (c.conn) {
          writes_sent = n;
          write_requests = c.conn.write_requests ++ r ∷ [];
        };
      },
      ground (
        arith,
        y.unshut,
        q,
        send_request-ready w r (record c1 { conn = record (c.conn) { writes_sent = n } })
            (record { unshut = y.unshut; writes = y.writes; taken = y.taken }),
      ),
      refl,
    )

on_event-subscribe_frame :
    (fault : Bytes) (d : Bytes) (mode : Mode) (id : Bytes) (ch : ℕ) (l : Loop)
    → l.link.room ≡ none
    → on_event fault
        (write_request (some (record { frame = subscribe_frame d mode id; channel = some ch })))
        l
      ≡ went_on tt (record l {
        channels = insert l.channels id (some ch);
        link = record (l.link) {
          written = l.link.written ++ some (subscribe_frame d mode id) ∷ [];
        };
      })
unfolding on_event on_request remember prepare on_subscribe write_or_stop write_link
on_event-subscribe_frame fault d mode id ch l r =
    let (i, p, a, x, z) = headers d mode id in ground (arith, i, x, z, r)

pub on_event-delivers :
    (fault : Bytes) (m : Frame) (id : Bytes) (ch : ℕ) (l : Loop)
    → m.command ≡ Command.message
    → contains m.header Names.subscription ≡ some id
    → find l.channels id ≡ some (some ch)
    → is_shut ch l.uses ≡ false
    → on_event fault (frame_read (some (some m))) l
      ≡ went_on tt (record l { uses = l.uses ++ delivered ch m ∷ [] })
unfolding on_event on_frame on_message send_to
on_event-delivers fault m id ch l k q e o = ground (arith, k, q, e, o)

handle_subscribe-registers :
    (s : St) (d : Bytes) (mode : Mode) (id : Bytes)
    → find s.conn.subs id ≡ none
    → (u : St) × (handle_subscribe (record s { frame = subscribe_frame d mode id })
        ≡ Server.Conn.returned tt u)
      × (find u.conn.subs id ≡ some s.heap.next)
      × ((u.heap.at s.heap.next).id ≡ id)
      × ((u.heap.at s.heap.next).dest ≡ d)
      × ((u.heap.at s.heap.next).ack ≡ mode_string mode)
unfolding handle_subscribe new_subscription ack_or_auto
handle_subscribe-registers s d mode id e =
    let (i, p, a, x, z) = headers d mode id in
    (
      record s {
        frame = subscribe_frame d mode id;
        heap =
            Server.Objects.alloc s.heap (new_subscription s.conn.address d id (mode_string mode));
        conn = record (s.conn) { subs = insert s.conn.subs id s.heap.next };
        requests = s.requests ++ Server.Objects.subscribe_op s.heap.next ∷ [];
      },
      ground (arith, i, p, a, e),
      ground (arith, find-insert s.conn.subs id s.heap.next id, str_eq_iff id id),
      ground arith,
      ground arith,
      ground arith,
    )

module _ (w : Answers) (d : Bytes) (mode : Mode) (c : Client) (l : Loop) (s : St)
    (fault : Bytes) where
  abbrev new_id : Bytes
  new_id = (allocate_id c.last_id).0

  -- `Subscribe` with no option, from end to end. The client's call returns a subscription and sends a
  -- request, whose frame the process loop writes; the server, where no subscription of the connection
  -- has that id, registers the subscription with its id, destination and mode; and a MESSAGE frame
  -- with that id goes to the channel that the client made for it. The connection is open, the request
  -- is taken, the network takes the frame, and the channel is not closed.
  pub subscribe-delivers :
      (m : Frame)
      → IsReady w c.conn
      → l.link.room ≡ none
      → is_shut c.channels l.uses ≡ false
      → find s.conn.subs new_id ≡ none
      → m.command ≡ Command.message
      → contains m.header Names.subscription ≡ some new_id
      → (t : Client) × (g : Frame) × (k : Loop) × (u : St) × (subscribe w d mode [] c
          ≡ returned (ok (subscription d mode new_id)) t)
        × (t.conn.write_requests
            ≡ c.conn.write_requests ++ record { frame = g; channel = some c.channels } ∷ [])
        × (on_event fault (write_request (some (record { frame = g; channel = some c.channels }))) l
            ≡ went_on tt k)
        × (k.link.written ≡ l.link.written ++ some g ∷ [])
        × (handle_subscribe (record s { frame = g }) ≡ Server.Conn.returned tt u)
        × (find u.conn.subs new_id ≡ some s.heap.next)
        × ((u.heap.at s.heap.next).id ≡ new_id)
        × ((u.heap.at s.heap.next).dest ≡ d)
        × ((u.heap.at s.heap.next).ack ≡ mode_string mode)
        × (on_event fault (frame_read (some (some m))) k
            ≡ went_on tt (record k { uses = l.uses ++ delivered c.channels m ∷ [] }))
  subscribe-delivers m y r o e x z =
      let (t, call, sent) = subscribe-plain w d mode c y in
      let (u, handled, found, id, dest, ack) = handle_subscribe-registers s d mode new_id e in
      let k : Loop = record l {
        channels = insert l.channels new_id (some c.channels);
        link = record (l.link) {
          written = l.link.written ++ some (subscribe_frame d mode new_id) ∷ [];
        };
      } in
      (
        t,
        subscribe_frame d mode new_id,
        k,
        u,
        call,
        sent,
        on_event-subscribe_frame fault d mode new_id c.channels l r,
        refl,
        handled,
        found,
        id,
        dest,
        ack,
        on_event-delivers fault m new_id c.channels k x z
            (ground (
              arith,
              find-insert l.channels new_id (some c.channels) new_id,
              str_eq_iff new_id new_id,
            ))
            o,
      )
