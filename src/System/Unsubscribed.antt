-- ===== src/System/Unsubscribed.antt =====
-- `Unsubscribe`, from the client's call to the server and to its return.
use go_stomp.Base.{
  ℕ, ◌≡◌, ◌≢◌, refl, ◌∙◌, Bytes, Bool, true, false, none, some, List, [], ◌∷◌, ◌++◌, map, ok, err,
  codes, str_eq, arith, All, find, delete, find-delete, str_eq_iff,
}
use go_stomp.Client
use go_stomp.Client.Calls.{Client, Answers}
use go_stomp.Client.Calls.Subscribe.{unsubscribe, send_unsubscribe, run_all_options}
use go_stomp.Client.Calls.Transaction.Laws.{IsReady, send_frame-IsReady}
use go_stomp.Client.Errors.{Attempt, unsubscribe_receipt_timeout}
use go_stomp.Client.Loop.{
  Loop, went_on, on_request, remember, prepare, on_unsubscribe, write_or_stop, write_request, id_of,
}
use go_stomp.Client.Message.{Subscription}
use go_stomp.Client.Subscription.{
  Live, SubState, active, closing, closed, is_closed, done, send_message, await_closed,
  finish_unsubscribe, subscription_error_message,
}
use go_stomp.Frame.Command.{Command}
use go_stomp.Frame.Data.{Frame, new}
use go_stomp.Frame.Header.{contains, set}
use go_stomp.Frame.Link.{write_link}
use go_stomp.Frame.Names
use go_stomp.Server
use go_stomp.Server.Conn.{Config, St, connected, returned}
use go_stomp.Server.Conn.Handlers.{call_state, run_connected, dispatch, handle_unsubscribe}
use go_stomp.Server.Conn.Loop.{on_read, validate, frame_read}
use go_stomp.Server.Objects.{unsubscribe_op}

-- The frame as the client's loop writes it.
abbrev pub unsubscribe_frame : Bytes → Frame
unsubscribe_frame id = record {
  command = Command.unsubscribe;
  header = (Names.id, id) ∷ (Names.receipt, id) ∷ [];
  body = [];
}

abbrev asked_frame : Bytes → Frame
asked_frame id = record { command = Command.unsubscribe; header = (Names.id, id) ∷ []; body = [] }

unsubscribe-asks :
    (w : Answers) (sub : Subscription) (c : Client)
    → IsReady w c.conn
    → sub.reply_to_set ≡ false
    → (t : Client) × (unsubscribe w sub active [] c ≡ (closing, Client.Calls.returned (ok tt) t))
      × (t.conn.write_requests
          ≡ c.conn.write_requests ++ record { frame = asked_frame sub.id; channel = none } ∷ [])
unfolding unsubscribe send_unsubscribe run_all_options new contains str_eq
unsubscribe-asks w sub c y n =
    let (t, e, l, still) = send_frame-IsReady w (asked_frame sub.id) c y refl in
    (t, ground (arith, n, e), l)

on_event-unsubscribe :
    (fault : Bytes) (id : Bytes) (l : Loop)
    → l.link.room ≡ none
    → Client.Loop.on_event fault
        (write_request (some (record { frame = asked_frame id; channel = none })))
        l
      ≡ went_on tt (record l {
        link = record (l.link) { written = l.link.written ++ some (unsubscribe_frame id) ∷ [] };
      })
unfolding Client.Loop.on_event on_request remember prepare on_unsubscribe write_or_stop write_link
    contains set str_eq
on_event-unsubscribe fault id l r = ground (arith, r)

on_event-unsubscribe_frame :
    (config : Config) (id : Bytes) (a : ℕ) (s : St)
    → s.conn.state_func ≡ connected
    → find s.conn.subs id ≡ some a
    → Server.Conn.Loop.on_event config (frame_read (some (unsubscribe_frame id))) s
      ≡ returned true (record s {
        frame = unsubscribe_frame id;
        conn = record (s.conn) { subs = delete s.conn.subs id };
        requests = s.requests ++ unsubscribe_op a ∷ [];
      })
unfolding Server.Conn.Loop.on_event on_read validate call_state run_connected dispatch
    handle_unsubscribe contains str_eq
on_event-unsubscribe_frame config id a s k q = ground (arith, k, q)

not-closed : (state : SubState) → state ≢ closed → is_closed state ≡ false
not-closed active n = refl
not-closed closing n = refl
not-closed closed n = absurd (n refl)

abbrev pub in_time : Live → Bool × Live
in_time t = (false, t)

abbrev pub NotClosed : Live → Type 0
NotClosed t = t.state ≢ closed

-- What a timeout puts on the channel.
abbrev pub timed_out : Subscription → Live → Live
timed_out sub t = record t {
  sent =
      t.sent ++ subscription_error_message sub (codes "channel unsubscribe receipt timeout") ∷ [];
}

module _ (sub : Subscription) where
  await_closed-late :
      (before : List Live) (result : Attempt (Unit {0})) (s t : Live)
      → NotClosed s
      → All NotClosed before
      → NotClosed t
      → t.shut ≡ false
      → await_closed sub result s (map in_time before ++ (true, t) ∷ [])
        ≡ some (err unsubscribe_receipt_timeout, done (timed_out sub t))
  unfolding await_closed send_message
  await_closed-late [] result s t n v m o =
      ground (arith, not-closed s.state n, not-closed t.state m, o)
  await_closed-late (u ∷ us) result s t n v m o =
      let more = await_closed-late us (ok tt) u t (v.0) (v.1) m o in
      ground (arith, not-closed s.state n, more)

module _ (w : Answers) (sub : Subscription) (c : Client) (l : Loop) (s : St) (config : Config)
    (fault : Bytes) where
  -- `Unsubscribe` with no option, against the server of this repository. The client's loop writes the
  -- UNSUBSCRIBE frame with a header "receipt"; the server forgets the subscription and asks the
  -- processor to do so, but writes no RECEIPT frame and nothing else; and where nothing closes the
  -- channel before the timeout, the call returns the error of the timeout, and puts a message of it on
  -- the channel. The connections are open, that of the server is past the handshake and has the
  -- subscription, the network takes the frame, and the subscription has no header "reply-to".
  pub unsubscribe-unanswered :
      {a : ℕ} (before : List Live) (start end : Live)
      → IsReady w c.conn
      → sub.reply_to_set ≡ false
      → l.link.room ≡ none
      → s.conn.state_func ≡ connected
      → find s.conn.subs sub.id ≡ some a
      → NotClosed start
      → All NotClosed before
      → NotClosed end
      → end.shut ≡ false
      → (c' : Client) × (f g : Frame) × (l' : Loop) × (s' : St) × (unsubscribe w sub active [] c
          ≡ (closing, Client.Calls.returned (ok tt) c'))
        × (c'.conn.write_requests
            ≡ c.conn.write_requests ++ record { frame = f; channel = none } ∷ [])
        × (Client.Loop.on_event fault
              (write_request (some (record { frame = f; channel = none })))
              l
            ≡ went_on tt l')
        × (l'.link.written ≡ l.link.written ++ some g ∷ [])
        × (contains g.header Names.receipt ≡ some sub.id)
        × (Server.Conn.Loop.on_event config (frame_read (some g)) s ≡ returned true s')
        × (s'.conn.link ≡ s.conn.link)
        × (s'.requests ≡ s.requests ++ unsubscribe_op a ∷ [])
        × (find s'.conn.subs sub.id ≡ none)
        × (finish_unsubscribe sub (ok tt) start (map in_time before ++ (true, end) ∷ [])
            ≡ some (err unsubscribe_receipt_timeout, done (timed_out sub end)))
  unfolding finish_unsubscribe contains str_eq
  unsubscribe-unanswered {a} before start end y n r k q o v m u =
      let (c', asked, requested) = unsubscribe-asks w sub c y n in
      (
        c',
        asked_frame sub.id,
        unsubscribe_frame sub.id,
        record l {
          link = record (l.link) {
            written = l.link.written ++ some (unsubscribe_frame sub.id) ∷ [];
          };
        },
        record s {
          frame = unsubscribe_frame sub.id;
          conn = record (s.conn) { subs = delete s.conn.subs sub.id };
          requests = s.requests ++ unsubscribe_op a ∷ [];
        },
        asked,
        requested,
        on_event-unsubscribe fault sub.id l r,
        refl,
        refl,
        on_event-unsubscribe_frame config sub.id a s k q,
        refl,
        refl,
        find-delete s.conn.subs sub.id sub.id ∙ rw ((str_eq_iff sub.id sub.id).1 refl) refl,
        await_closed-late sub before (ok tt) start end o v m u,
      )
