-- ===== src/Client/Calls/Sequence.antt =====
-- Calls of the methods of a client's connection, in any order.
use go_stomp.Base.{Bytes, Bool, Option, List, [], ◌∷◌, All}
use go_stomp.Client.AckMode.{Mode}
use go_stomp.Client.Calls.{
  Client, Done, M, returned, blocked, panicked, ◌>>=◌, pure, Answers, FrameOption, send,
}
use go_stomp.Client.Calls.Disconnect.{disconnect, must_disconnect}
use go_stomp.Client.Calls.Settle
use go_stomp.Client.Calls.Settle.{create_ack_nack_frame}
use go_stomp.Client.Calls.Subscribe.{subscribe, unsubscribe}
use go_stomp.Client.Calls.Transaction
use go_stomp.Client.Calls.Transaction.{
  Transaction, begin_with_error, complete, with_receipt, in_transaction,
}
use go_stomp.Client.Message.{Message, Subscription}
use go_stomp.Client.Subscription.{SubState}
use go_stomp.Frame.Command.{Command}
use go_stomp.Client.Calls.Keeps.{IsSound, Fine}
use go_stomp.Client.Calls.Open.{KeepsSound, IsAnswer, bind_sound}
use go_stomp.Client.Calls.Safety.{
  send-KeepsSound, subscribe-KeepsSound, unsubscribe-KeepsSound, settle-KeepsSound,
  begin-KeepsSound, complete-KeepsSound, transaction_send-KeepsSound, transaction_settle-KeepsSound,
  disconnect-KeepsSound, must_disconnect-KeepsSound,
}

-- A call of a method, with its receiver where that is not the connection.
pub data Call : Type 0 where
  send_call : Bytes → Bytes → Bytes → List (Option FrameOption) → Call
  subscribe_call : Bytes → Mode → List (Option FrameOption) → Call
  unsubscribe_call : Subscription → SubState → List (Option FrameOption) → Call
  settle_call : Bool → Message → Call
  begin_call : Call
  commit_call abort_call : Bool → Transaction → Call
  transaction_send_call : Transaction → Bytes → Bytes → Bytes → List (Option FrameOption) → Call
  transaction_settle_call : Bool → Transaction → Message → Call
  disconnect_call must_disconnect_call : Call

abbrev pub ignore : {A : Type 0} → M A → M (Unit {0})
ignore m = m >>= λ a. pure tt

-- The call, its value left out.
unfoldable pub call_method : Answers → Call → M (Unit {0})
unfolding send subscribe unsubscribe Settle.settle begin_with_error Transaction.commit
    Transaction.abort Transaction.send Transaction.settle disconnect must_disconnect
call_method w (send_call destination content_type body opts) =
    send w destination content_type body opts
call_method w (subscribe_call destination mode opts) = ignore (subscribe w destination mode opts)
call_method w (unsubscribe_call sub state opts) = λ c. (unsubscribe w sub state opts c).1
call_method w (settle_call ack msg) = Settle.settle w ack msg
call_method w begin_call = λ c. (begin_with_error w c).1
call_method w (commit_call receipt tx) = ignore (Transaction.commit w receipt tx)
call_method w (abort_call receipt tx) = ignore (Transaction.abort w receipt tx)
call_method w (transaction_send_call tx destination content_type body opts) =
    Transaction.send w tx destination content_type body opts
call_method w (transaction_settle_call ack tx msg) = Transaction.settle w ack tx msg
call_method w disconnect_call = disconnect w
call_method w must_disconnect_call = must_disconnect

-- Calls one after the other; an error of one does not stop the next.
abbrev pub go_on : M (Unit {0}) → Done (Unit {0}) → Done (Unit {0})
go_on m (returned r c) = m c
go_on m blocked = blocked
go_on m panicked = panicked

unfoldable pub call_methods : List (Answers × Call) → M (Unit {0})
unfolding call_method
call_methods [] c = pure tt c
call_methods ((w, m) ∷ ms) c = go_on (call_methods ms) (call_method w m c)

ignore-KeepsSound : {A : Type 0} (m : M A) → KeepsSound m → KeepsSound (ignore m)
ignore-KeepsSound m h = bind_sound m _ h λ a c s. s

pub call_method-KeepsSound : (w : Answers) (m : Call) → IsAnswer w → KeepsSound (call_method w m)
unfolding call_method Transaction.commit Transaction.abort
call_method-KeepsSound w (send_call d t b opts) a = send-KeepsSound w d t b opts a
call_method-KeepsSound w (subscribe_call d mode opts) a =
    ignore-KeepsSound _ (subscribe-KeepsSound w d mode opts)
call_method-KeepsSound w (unsubscribe_call sub state opts) a =
    unsubscribe-KeepsSound w sub state opts
call_method-KeepsSound w (settle_call ack msg) a = settle-KeepsSound w ack msg
call_method-KeepsSound w begin_call a = begin-KeepsSound w
call_method-KeepsSound w (commit_call receipt tx) a =
    ignore-KeepsSound _ (complete-KeepsSound w Command.commit receipt tx)
call_method-KeepsSound w (abort_call receipt tx) a =
    ignore-KeepsSound _ (complete-KeepsSound w Command.abort receipt tx)
call_method-KeepsSound w (transaction_send_call tx d t b opts) a =
    transaction_send-KeepsSound w tx d t b opts
call_method-KeepsSound w (transaction_settle_call ack tx msg) a =
    transaction_settle-KeepsSound w ack tx msg
call_method-KeepsSound w disconnect_call a = disconnect-KeepsSound w a
call_method-KeepsSound w must_disconnect_call a = must_disconnect-KeepsSound

go_on-Fine :
    (m : M (Unit {0})) (d : Done (Unit {0}))
    → Fine (Unit {0}) IsSound d
    → KeepsSound m
    → Fine (Unit {0}) IsSound (go_on m d)
go_on-Fine m (returned r c) h k = k c h
go_on-Fine m blocked h k = h
go_on-Fine m panicked h k = h

-- Whatever methods of a connection are called, in whatever order and with whatever options, from a
-- state where the channel of requests is closed only if the connection is, none of them panics by
-- sending on that channel once it is closed, and the state they leave is such a state again. What a
-- method waits for is not the closing of its channel without a frame.
pub call_methods-Fine :
    (ms : List (Answers × Call)) (c : Client)
    → IsSound c.conn
    → All (λ m. IsAnswer (m.0)) ms
    → Fine (Unit {0}) IsSound (call_methods ms c)
unfolding call_methods
call_methods-Fine [] c s a = s
call_methods-Fine ((w, m) ∷ ms) c s a =
    go_on-Fine (call_methods ms) (call_method w m c) (call_method-KeepsSound w m (a.0) c s)
      λ d t. call_methods-Fine ms d t (a.1)
