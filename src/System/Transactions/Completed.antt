-- ===== src/System/Transactions/Completed.antt =====
-- What becomes of the messages of a transaction.
use go_stomp.Base.{
  ◌≡◌, refl, sym, ap, ◌∙◌, Bytes, true, false, none, List, [], ◌∷◌, ◌++◌, map, ok, str_eq, arith,
  append_assoc, find, str_eq_iff,
}
use mathlib.Core.List.{map-append}
use go_stomp.Client
use go_stomp.Client.Calls.{Client, Answers, M, Done, ◌>>◌, pure, send_frame}
use go_stomp.Client.Calls.Transaction.{
  Transaction, in_transaction, begin_with_error, commit, abort, complete,
}
use go_stomp.Client.Calls.Transaction.Laws.{IsReady, send_frame-IsReady}
use go_stomp.Client.Conn.{WriteRequest}
use go_stomp.Client.Versions.{allocate_id}
use go_stomp.Frame.Command.{Command}
use go_stomp.Frame.Data.{Frame, new}
use go_stomp.Frame.Header.{contains}
use go_stomp.Server.Conn.{Config, St, connected, returned}
use go_stomp.Server.Conn.Loop.{run_events}
use go_stomp.System.Transactions.{
  Text, frame_of, about, Holds, run_events-begun, run_events-goes_on,
}
use go_stomp.System.Transactions.Ends.{
  Forgotten, Forgotten-after, on_event-commit, on_event-abort, enqueue_of,
}
use go_stomp.System.Transactions.Calls.{read_event, plain, send_each, send_each-Sent, complete-Sent}

module _ (w : Answers) (config : Config) (ms : List Text) (c : Client) where
  -- The transaction that `BeginWithError` makes.
  abbrev pub opened : Transaction
  opened = (begin_with_error w c).0

  -- What the client sends: BEGIN, the messages, and the frame that completes the transaction.
  abbrev pub wire : Command → List Frame
  wire command =
      about Command.begin opened
      ∷ (map (λ m. in_transaction opened (frame_of m)) ms ++ about command opened ∷ [])

  -- The client's three calls return, and they asked for those frames to be written.
  record Called (command : Command) : Type 0 where
    begun : Client
    after : Client
    begins : (begin_with_error w c).1 ≡ Client.Calls.returned (ok tt) begun
    completes :
        (send_each w opened ms >> complete w command false opened) begun
        ≡ Client.Calls.returned (ok (record opened { completed = true })) after
    requests : after.conn.write_requests ≡ c.conn.write_requests ++ map plain (wire command)

  calls-Called : (command : Command) → IsReady w c.conn → Called command
  unfolding begin_with_error new contains str_eq
  calls-Called command y =
      let (begun, e, l, still) =
        send_frame-IsReady w (about Command.begin opened)
          (record c { last_id = (allocate_id c.last_id).1 }) y refl in
      let each = send_each-Sent w opened ms begun refl still in
      let in_this : Text → Frame = λ m. in_transaction opened (frame_of m) in
      let first : List WriteRequest = plain (about Command.begin opened) ∷ [] in
      let middle : List WriteRequest = map plain (map in_this ms) in
      let last : List WriteRequest = plain (about command opened) ∷ [] in
      let end = complete-Sent w opened command each.after refl each.ready in
      record {
        begun = begun;
        after = end.after;
        begins = e;
        completes = ground (arith, each.returns, end.returns);
        requests =
            end.requests
            ∙ ap (λ r. r ++ last) (each.requests ∙ ap (λ r. r ++ middle) l)
            ∙ append_assoc (c.conn.write_requests ++ first) middle last
            ∙ append_assoc c.conn.write_requests first (middle ++ last)
            ∙ ap (λ r. c.conn.write_requests ++ (first ++ r))
                (sym (map-append plain (map in_this ms) (about command opened ∷ [])));
      }

  reads-wire :
      (rest : List Text) (f : Frame)
      → map read_event (map (λ m. in_transaction opened (frame_of m)) rest ++ f ∷ [])
        ≡ map (λ m. read_event (in_transaction opened (frame_of m))) rest ++ read_event f ∷ []
  reads-wire [] f = refl
  reads-wire (m ∷ rest) f =
      ap (◌∷◌ (read_event (in_transaction opened (frame_of m)))) (reads-wire rest f)

  run-wire :
      (command : Command) (s : St)
      → s.conn.state_func ≡ connected
      → find s.conn.tx_store opened.id ≡ none
      → (u : St) × (run_events config (map read_event (wire command)) s
          ≡ run_events config (read_event (about command opened) ∷ []) u)
        × Holds config opened s u (map frame_of ms)
  run-wire command s k n =
      let (u, r, held) =
        run_events-begun config opened ms (read_event (about command opened) ∷ []) s k n in
      (
        u,
        ap (λ es. run_events config (read_event (about Command.begin opened) ∷ es) s)
              (reads-wire ms (about command opened))
            ∙ r,
        held,
      )

  Forgotten-none :
      (s t : St)
      → find s.conn.tx_store opened.id ≡ none
      → Forgotten config opened s t
      → (j : Bytes) → find t.conn.tx_store j ≡ find s.conn.tx_store j
  Forgotten-none s t n g j = g j ∙ ground (arith, n, str_eq_iff opened.id j)

  -- A whole transaction, from the client's calls to the server's requests. `BeginWithError`, `Send` with
  -- no option for each message, and `Commit` return nil, and their frames are asked for in that order;
  -- and the server's connection that reads these frames asks the processor to enqueue the messages,
  -- each once and in the order of the calls, and no transaction is left or lost in its store. The
  -- connections are open, the requests are taken, and the server has no transaction of that id.
  pub commit-enqueues :
      (s : St)
      → IsReady w c.conn
      → s.conn.state_func ≡ connected
      → find s.conn.tx_store opened.id ≡ none
      → (begun after : Client) × (t : St) × ((begin_with_error w c).1
          ≡ Client.Calls.returned (ok tt) begun)
        × ((send_each w opened ms >> commit w false opened) begun
            ≡ Client.Calls.returned (ok (record opened { completed = true })) after)
        × (after.conn.write_requests ≡ c.conn.write_requests ++ map plain (wire Command.commit))
        × (run_events config (map read_event (wire Command.commit)) s ≡ returned tt t)
        × (t.requests ≡ s.requests ++ map enqueue_of ms)
        × ((j : Bytes) → find t.conn.tx_store j ≡ find s.conn.tx_store j)
  unfolding commit run_events
  commit-enqueues s y k n =
      let called = calls-Called Command.commit y in
      let (u, r, held) = run-wire Command.commit s k n in
      let (t, e, asked, gone) = on_event-commit config opened ms s u held in
      (
        called.begun,
        called.after,
        t,
        called.begins,
        called.completes,
        called.requests,
        r ∙ run_events-goes_on config (read_event (about Command.commit opened)) [] u t e,
        asked ∙ ap (λ l. l ++ map enqueue_of ms) held.requests,
        Forgotten-none s t n (Forgotten-after config opened s u t held gone),
      )

  -- The same with `Abort`: the calls return nil and their frames are asked for in that order, and the
  -- server's connection that reads these frames asks the processor for nothing, and no transaction is
  -- left or lost in its store. The connections are open, the requests are taken, and the server has no
  -- transaction of that id.
  pub abort-drops :
      (s : St)
      → IsReady w c.conn
      → s.conn.state_func ≡ connected
      → find s.conn.tx_store opened.id ≡ none
      → (begun after : Client) × (t : St) × ((begin_with_error w c).1
          ≡ Client.Calls.returned (ok tt) begun)
        × ((send_each w opened ms >> abort w false opened) begun
            ≡ Client.Calls.returned (ok (record opened { completed = true })) after)
        × (after.conn.write_requests ≡ c.conn.write_requests ++ map plain (wire Command.abort))
        × (run_events config (map read_event (wire Command.abort)) s ≡ returned tt t)
        × (t.requests ≡ s.requests)
        × ((j : Bytes) → find t.conn.tx_store j ≡ find s.conn.tx_store j)
  unfolding abort run_events
  abort-drops s y k n =
      let called = calls-Called Command.abort y in
      let (u, r, held) = run-wire Command.abort s k n in
      let (t, e, asked, gone) = on_event-abort config opened s u held in
      (
        called.begun,
        called.after,
        t,
        called.begins,
        called.completes,
        called.requests,
        r ∙ run_events-goes_on config (read_event (about Command.abort opened)) [] u t e,
        asked ∙ held.requests,
        Forgotten-none s t n (Forgotten-after config opened s u t held gone),
      )
