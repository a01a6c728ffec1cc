-- ===== src/Client/Loop/Safety.antt =====
-- The client's loop never panics on its channels and never waits on a nil one.
pub mod Frames
use mathlib.Core.Path.{subst}
use go_stomp.Base.{
  ℕ, ◌<◌, ◌≡◌, ◌≢◌, refl, sym, ap, ◌∙◌, Bytes, ◌||◌, Option, none, some, List, [], ◌∷◌, find,
  delete, All, ◌==◌, arith, Option-cases, Bool-cases, inl, inr, codes,
}
use go_stomp.Client.Loop.{
  ChannelUse, delivered, channel_closed, Loop, is_shut, channels_of, Turn, L, went_on, stopped,
  blocked, panicked, go_on, send_to, close_channel, send_each, send_error, finish_each, on_receipt,
  on_error, on_message, on_frame, remember, on_subscribe, on_unsubscribe, prepare, write_or_stop,
  on_request, Event, read_timeout, write_timeout, frame_read, write_request, on_event, process_loop,
  put_channels, stop, pure, get_channels, ◌>>◌, ◌>>=◌, id_of,
}
use go_stomp.Client.Loop.Channels.{
  is_shut-append, Live, Apart, IsSound, All-imp, All-and, All-find, All-delete, Apart-delete,
  find-delete-Apart,
}
use go_stomp.Frame.Command.{Command}
use go_stomp.Frame.Data.{Frame, new}
use go_stomp.Frame.Header.{contains}
use go_stomp.Frame.Names

-- Neither blocked nor panicked; what goes on meets `P`.
abbrev pub Safe : {A : Type 0} → (A → Loop → Type 0) → Turn A → Type 0
Safe P (went_on a t) = P a t
Safe P (stopped t) = Unit
Safe P blocked = ⊥
Safe P (panicked p) = ⊥

pub Safe-go_on :
    {A B : Type 0} (P : A → Loop → Type 0) (Q : B → Loop → Type 0) (m : Turn A) (f : A → L B)
    → Safe P m
    → ((a : A) (t : Loop) → P a t → Safe Q (f a t))
    → Safe Q (go_on f m)
Safe-go_on P Q (went_on a t) f h k = k a t h
Safe-go_on P Q (stopped t) f h k = tt
Safe-go_on P Q blocked f h k = h
Safe-go_on P Q (panicked p) f h k = h

pub Safe-imp :
    {A : Type 0} (P Q : A → Loop → Type 0) (m : Turn A)
    → ((a : A) (t : Loop) → P a t → Q a t)
    → Safe P m
    → Safe Q m
Safe-imp P Q (went_on a t) k h = k a t h
Safe-imp P Q (stopped t) k h = tt
Safe-imp P Q blocked k h = h
Safe-imp P Q (panicked p) k h = h

pub Safe-eq : {A : Type 0} (P : A → Loop → Type 0) {m k : Turn A} → m ≡ k → Safe P k → Safe P m
Safe-eq P e h = subst (Safe P) (sym e) h

-- The same channels, and the same of them shut.
abbrev pub SameShut : Loop → Loop → Type 0
SameShut s t = (t.channels ≡ s.channels) × ((c : ℕ) → is_shut c t.uses ≡ is_shut c s.uses)

-- The same channels, and `d` shut besides.
abbrev pub Shuts : Option ℕ → Loop → Loop → Type 0
Shuts none s t = ⊥
Shuts (some d) s t =
    (t.channels ≡ s.channels) × ((c : ℕ) → is_shut c t.uses ≡ (is_shut c s.uses || c == d))

pub Live-same :
    (n : ℕ) (s t : Loop) (ch : Option ℕ) → SameShut s t → Live n s.uses ch → Live n t.uses ch
Live-same n s t none e l = l
Live-same n s t (some c) e l = (e.1 c ∙ l.0, l.1)

pub Live-shuts :
    (n : ℕ) (s t : Loop) (d ch : Option ℕ)
    → Shuts d s t
    → Live n s.uses ch
    → d ≢ ch
    → Live n t.uses ch
Live-shuts n s t none ch e l p = absurd e
Live-shuts n s t (some d) none e l p = l
Live-shuts n s t (some d) (some c) e l p =
    (e.1 c ∙ ground (arith, l.0, λ (q : d ≡ c). p (ap some q)), l.1)

pub send_to-Safe :
    (n : ℕ) (ch : Option ℕ) (f : Frame) (s : Loop)
    → Live n s.uses ch
    → Safe (λ u t. SameShut s t) (send_to ch f s)
unfolding send_to
send_to-Safe n none f s l = l
send_to-Safe n (some c) f s l =
    rw (l.0) (refl, λ d. ground (arith, is_shut-append d s.uses (delivered c f ∷ [])))

pub close_channel-Safe :
    (n : ℕ) (ch : Option ℕ) (s : Loop)
    → Live n s.uses ch
    → Safe (λ u t. Shuts ch s t) (close_channel ch s)
unfolding close_channel
close_channel-Safe n none s l = l
close_channel-Safe n (some c) s l =
    rw (l.0) (refl, λ d. ground (arith, is_shut-append d s.uses (channel_closed c ∷ [])))

send_each-Safe :
    (n : ℕ) (f : Frame) (l : List (Option ℕ)) (s : Loop)
    → All (Live n s.uses) l
    → Safe (λ u t. SameShut s t) (send_each f l s)
unfolding send_each
send_each-Safe n f [] s h = (refl, λ c. refl)
send_each-Safe n f (ch ∷ l) s h =
    Safe-go_on (λ u t. SameShut s t) (λ u t. SameShut s t) (send_to ch f s) (λ u. send_each f l)
      (send_to-Safe n ch f s h.0)
      λ u t e.
        Safe-imp (λ v r. SameShut t r) (λ v r. SameShut s r) (send_each f l t)
          (λ v r e'. (e'.0 ∙ e.0, λ c. e'.1 c ∙ e.1 c))
          (send_each-Safe n f l t (All-imp (λ x. Live-same n s t x e) l h.1))

pub finish_each-Safe :
    (n : ℕ) (f : Frame) (l : List (Option ℕ)) (s : Loop)
    → All (Live n s.uses) l
    → Apart l
    → Safe (λ u t. Unit {0}) (finish_each f l s)
unfolding finish_each
finish_each-Safe n f [] s h a = tt
finish_each-Safe n f (ch ∷ l) s h a =
    Safe-go_on (λ u r. Closed r) (λ u r. Unit {0}) ((send_to ch f >> close_channel ch) s)
      (λ u. finish_each f l)
      (Safe-go_on (λ u t. SameShut s t) (λ u r. Closed r) (send_to ch f s) (λ u. close_channel ch)
        (send_to-Safe n ch f s h.0)
        λ u t e.
          Safe-imp (λ v r. Shuts ch t r) (λ v r. Closed r) (close_channel ch t)
            (λ v r c.
              All-and (λ x live apart. Live-shuts n t r ch x c (Live-same n s t x e live) apart) l
                h.1 a.0)
            (close_channel-Safe n ch t (Live-same n s t ch e h.0)))
      λ u r live. finish_each-Safe n f l r live a.1
  where
    Closed : Loop → Type 0
    Closed r = All (Live n r.uses) l

send_error-Safe :
    (n : ℕ) (text : Bytes) (s : Loop)
    → All (Live n s.uses) (channels_of s.channels)
    → Safe (λ u t. SameShut s t) (send_error text s)
unfolding send_error
send_error-Safe n text s h =
    send_each-Safe n (new Command.error ((Names.message, text) ∷ [])) (channels_of s.channels) s h

-- `send_error` and the return after it.
pub stop_with-Safe :
    (n : ℕ) (P : Unit {0} → Loop → Type 0) (text : Bytes) (s : Loop)
    → All (Live n s.uses) (channels_of s.channels)
    → Safe P ((send_error text >> stop) s)
stop_with-Safe n P text s h =
    Safe-go_on (λ u t. SameShut s t) P (send_error text s) (λ u. stop) (send_error-Safe n text s h)
      λ u t e. tt
