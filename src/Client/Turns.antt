-- ===== src/Client/Turns.antt =====
-- conn.go: what `processLoop` of the client is written in: the state of the loop, what is done on
-- channels for frames, which are numbers here, and how a part of the loop's body ends.
use go_stomp.Base.{
  ℕ, Bool, false, ◌||◌, Option, none, some, List, [], ◌∷◌, ◌++◌, map, Dict, ◌==◌, if◌then◌else◌,
}
use go_stomp.Client.Conn.{Conn}
use go_stomp.Frame.Data.{Frame}
use go_stomp.Frame.Link.{Link}

-- A send on a channel that its receiver took, or a close.
pub data ChannelUse : Type 0 where
  delivered : ℕ → Frame → ChannelUse
  channel_closed : ℕ → ChannelUse

-- The loop's map `channels`, in which a nil channel may stand; what was done on channels; the
-- writer; and the connection. A map is visited in the order of its list, which stands for any.
pub record Loop : Type 0 where
  pub channels : Dict (Option ℕ)
  pub uses : List ChannelUse
  pub link : Link
  pub conn : Conn

abbrev pub is_shut : ℕ → List ChannelUse → Bool
is_shut c [] = false
is_shut c (delivered d f ∷ uses) = is_shut c uses
is_shut c (channel_closed d ∷ uses) = c == d || is_shut c uses

pub data Fault : Type 0 where
  send_on_closed close_of_closed close_of_nil : Fault

-- A part of the loop's body goes on, or returns, or blocks for ever, or panics.
pub data Turn (A : Type 0) : Type 0 where
  went_on : A → Loop → Turn A
  stopped : Loop → Turn A
  blocked : Turn A
  panicked : Fault → Turn A

abbrev pub L : Type 0 → Type 0
L A = Loop → Turn A

abbrev pub go_on : {A B : Type 0} → (A → L B) → Turn A → Turn B
go_on f (went_on a t) = f a t
go_on f (stopped t) = stopped t
go_on f blocked = blocked
go_on f (panicked p) = panicked p

infixl 5 ◌>>=◌
abbrev pub ◌>>=◌ : {A B : Type 0} → L A → (A → L B) → L B
◌>>=◌ m f s = go_on f (m s)

infixl 5 ◌>>◌
abbrev pub ◌>>◌ : {B : Type 0} → L (Unit {0}) → L B → L B
m >> k = m >>= λ _. k

abbrev pub pure : {A : Type 0} → A → L A
pure a s = went_on a s

-- `return`.
abbrev pub stop : L (Unit {0})
stop s = stopped s

abbrev pub get_channels : L (Dict (Option ℕ))
get_channels s = went_on s.channels s

abbrev pub put_channels : Dict (Option ℕ) → L (Unit {0})
put_channels m s = went_on tt (record s { channels = m })

-- `ch <- f`.
unfoldable pub send_to : Option ℕ → Frame → L (Unit {0})
send_to none f s = blocked
send_to (some c) f s =
    if is_shut c s.uses
    then panicked send_on_closed
    else went_on tt (record s { uses = s.uses ++ delivered c f ∷ [] })

-- `close(ch)`.
unfoldable pub close_channel : Option ℕ → L (Unit {0})
close_channel none s = panicked close_of_nil
close_channel (some c) s =
    if is_shut c s.uses
    then panicked close_of_closed
    else went_on tt (record s { uses = s.uses ++ channel_closed c ∷ [] })

abbrev pub channels_of : Dict (Option ℕ) → List (Option ℕ)
channels_of = map (λ e. e.1)

unfoldable pub send_each : Frame → List (Option ℕ) → L (Unit {0})
send_each f [] = pure tt
send_each f (ch ∷ chs) = send_to ch f >> send_each f chs
