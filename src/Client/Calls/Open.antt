-- ===== src/Client/Calls/Open.antt =====
-- What the parts of a method do to a connection whose channel of requests is open.
use mathlib.Core.Path.{subst}
use go_stomp.Base.{
  ℕ, ◌≡◌, ◌≢◌, refl, sym, false, ◌||◌, Option, none, some, [], ◌∷◌, ◌++◌, if◌then◌else◌, ◌==◌,
  arith, Bool-cases, inl, inr,
}
use go_stomp.Client.Calls.{
  block, panic, Client, Done, M, returned, blocked, panicked, ◌>>=◌, ◌>>◌, fail, when, put_conn,
  by_option, Answers, count_write, send_request, send_data_to_write_ch_with_timeout,
  read_receipt_with_timeout, await_receipt,
}
use go_stomp.Client.Conn.{Conn, WriteRequest}
use go_stomp.Client.Errors.{msg_send_timeout, Failure}
use go_stomp.Frame.Data.{Frame}
use go_stomp.Client.Calls.Keeps.{IsSound, Fine, Keeps, Keeps-bind, Keeps-by_option, Keeps-if}

abbrev pub IsOpen : Conn → Type 0
IsOpen c = c.write_closed ≡ false

abbrev pub KeepsOpen : {A : Type 0} → M A → Type 0
KeepsOpen m = Keeps (Unit {0}) IsOpen m

pub Keeps-count_write : KeepsOpen count_write
unfolding count_write
Keeps-count_write c o = elim (Bool-cases c.conn.stats_enabled) [
  | inl e ↦ rw (e) o
  | inr e ↦ rw (e) o
]

when_writable :
    {A : Type 0} (m : M A)
    → KeepsOpen m
    → (c : Client) → IsOpen c.conn
    → Fine (Unit {0}) IsOpen ((when c.conn.write_closed panic >> m) c)
when_writable m k c o = subst (λ b. Fine (Unit {0}) IsOpen ((when b panic >> m) c)) (sym o) (k c o)

pub Keeps-send_request : (w : Answers) (r : WriteRequest) → KeepsOpen (send_request w r)
unfolding send_request
Keeps-send_request w r c o =
    when_writable
      (if w.taken
        then put_conn (record (c.conn) { write_requests = c.conn.write_requests ++ r ∷ [] })
        else block)
      (Keeps-if (Unit {0}) IsOpen w.taken _ _ (λ d p. o) (λ d p. tt)) c o

pub Keeps-send_data :
    (w : Answers) (r : WriteRequest) (n : ℕ) → KeepsOpen (send_data_to_write_ch_with_timeout w r n)
unfolding send_data_to_write_ch_with_timeout
Keeps-send_data w r n c o =
    when_writable (if w.taken || n == 0 then send_request w r else fail msg_send_timeout)
      (Keeps-if (Unit {0}) IsOpen (w.taken || n == 0) _ _ (Keeps-send_request w r) (λ d p. p)) c o

-- What is received is not the closing of the channel.
pub record IsAnswer (w : Answers) : Type 0 where
  pub received : w.reply ≢ some none

pub Keeps-await_receipt : (w : Answers) (n : ℕ) → KeepsOpen (await_receipt w n)
unfolding await_receipt
Keeps-await_receipt w n =
    Keeps-by_option (Unit {0}) IsOpen w.reply _ _
      (Keeps-if (Unit {0}) IsOpen (n == 0) _ _ (λ c o. tt) (λ c o. o))
      λ r. Keeps-by_option (Unit {0}) IsOpen r _ _ (λ c o. o) (λ f c o. o)

pub Keeps-reply :
    (r : Option (Option Frame)) (m : M (Unit {0})) (f : Frame → M (Unit {0}))
    → r ≢ some none
    → KeepsOpen m
    → ((g : Frame) → KeepsOpen (f g))
    → KeepsOpen (by_option r m λ response. by_option response panic f)
Keeps-reply none m f n h k = h
Keeps-reply (some none) m f n h k = absurd (n refl)
Keeps-reply (some (some g)) m f n h k = k g

pub Keeps-read_receipt :
    (w : Answers) (n : ℕ) (e : Failure) → IsAnswer w → KeepsOpen (read_receipt_with_timeout w n e)
unfolding read_receipt_with_timeout
Keeps-read_receipt w n e a =
    Keeps-reply w.reply _ _ a.received
      (Keeps-if (Unit {0}) IsOpen (n == 0) _ _ (λ c o. tt) (λ c o. o)) (λ f c o. o)

pub Fine-imp :
    {A : Type 0} (W : Type 0) (P Q : Conn → Type 0) (d : Done A)
    → ((c : Conn) → P c → Q c)
    → Fine W P d
    → Fine W Q d
Fine-imp W P Q (returned r c) k h = k (c.conn) h
Fine-imp W P Q blocked k h = h
Fine-imp W P Q panicked k h = h

pub IsOpen-IsSound : (c : Conn) → IsOpen c → IsSound c
IsOpen-IsSound c o = record { sound = λ e. absurd (ground arith) }

abbrev pub KeepsSound : {A : Type 0} → M A → Type 0
KeepsSound m = Keeps (Unit {0}) IsSound m

-- What a method does behind its test of `closed`.
pub unless_closed :
    {A : Type 0} (stop : M (Unit {0})) (rest : M A) (c : Client)
    → IsSound c.conn
    → Fine (Unit {0}) IsSound ((stop >> rest) c)
    → KeepsOpen rest
    → Fine (Unit {0}) IsSound ((when c.conn.closed stop >> rest) c)
unless_closed stop rest c s h k = elim (Bool-cases c.conn.closed) [
  | inl e ↦ subst (λ b. Fine (Unit {0}) IsSound ((when b stop >> rest) c)) (sym e) h
  | inr e ↦
      let o : IsOpen (c.conn) = ground (arith, s.sound) in
      subst (λ b. Fine (Unit {0}) IsSound ((when b stop >> rest) c)) (sym e)
        (Fine-imp (Unit {0}) IsOpen IsSound (rest c) IsOpen-IsSound (k c o))
]

pub bind_open :
    {A B : Type 0} (m : M A) (f : A → M B)
    → KeepsOpen m
    → ((a : A) → KeepsOpen (f a))
    → KeepsOpen (m >>= f)
bind_open = Keeps-bind (Unit {0}) IsOpen

pub bind_sound :
    {A B : Type 0} (m : M A) (f : A → M B)
    → KeepsSound m
    → ((a : A) → KeepsSound (f a))
    → KeepsSound (m >>= f)
bind_sound = Keeps-bind (Unit {0}) IsSound
