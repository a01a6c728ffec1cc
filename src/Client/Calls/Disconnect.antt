-- ===== src/Client/Calls/Disconnect.antt =====
-- conn.go: `Disconnect` and `MustDisconnect`, for a network connection that closes with no error.
use go_stomp.Base.{ℕ, true, Option, none, some, [], ◌∷◌, ok, err, if◌then◌else◌}
use go_stomp.Client.Calls.{
  Done, M, returned, blocked, panicked, ◌>>=◌, ◌>>◌, pure, fail, get_conn, put_conn, next_id,
  make_channel, Answers, count_write, send_request, read_receipt_with_timeout,
}
use go_stomp.Client.Conn.{Conn}
use go_stomp.Client.Errors.{Failure, disconnect_receipt_timeout}
use go_stomp.Client.Loop
use go_stomp.Frame.Command.{Command}
use go_stomp.Frame.Data.{Frame, new}
use go_stomp.Frame.Names

-- `c.closed = true` and `c.conn.Close()`.
unfoldable pub close_both : Conn → Conn
close_both c = record c { closed = true; link_closed = true }

-- The timeout closes the connection too; an ERROR frame does not.
unfoldable pub after_error : Option (Option Frame) → Failure → M (Unit {0})
unfolding close_both
after_error none e = do c ← get_conn; put_conn (close_both c); fail e
after_error (some f) e = fail e

module _ (w : Answers) where
  -- What follows the wait for the receipt.
  unfoldable pub finish_disconnect : Done (Unit {0}) → Done (Unit {0})
  unfolding close_both after_error
  finish_disconnect (returned (ok u) c) = returned (ok tt) (record c { conn = close_both c.conn })
  finish_disconnect (returned (err e) c) = after_error w.reply e c
  finish_disconnect blocked = blocked
  finish_disconnect panicked = panicked

  -- `Disconnect` behind its test of `closed`.
  unfoldable pub disconnect_open : ℕ → M (Unit {0})
  unfolding count_write new send_request finish_disconnect read_receipt_with_timeout
  disconnect_open timeout = do
    count_write
    ch ← make_channel
    id ← next_id
    send_request w
        (record { frame = new Command.disconnect ((Names.receipt, id) ∷ []); channel = some ch })
    λ s. finish_disconnect (read_receipt_with_timeout w timeout disconnect_receipt_timeout s)

  unfoldable pub disconnect : M (Unit {0})
  unfolding disconnect_open
  disconnect =
      get_conn >>= λ c. if c.closed then pure tt else disconnect_open c.disconnect_receipt_timeout

unfoldable pub must_disconnect : M (Unit {0})
unfolding Loop.must_disconnect
must_disconnect = do c ← get_conn; put_conn (Loop.must_disconnect c)
