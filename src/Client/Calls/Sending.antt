-- ===== src/Client/Calls/Sending.antt =====
-- What a server reads of the frame that `Send` makes.
use go_stomp.Base.{
  ℕ, ◌≡◌, refl, Bytes, none, some, [], ◌∷◌, ◌++◌, ok, str_eq, length, arith, inl, ◌≤◌, Error,
}
use go_stomp.Client.Calls.{Client, returned, create_send_frame, with_content_type, run_options}
use go_stomp.Frame.Command.{Command}
use go_stomp.Frame.Data.{Frame, new}
use go_stomp.Frame.Header.{Header, contains, get, set}
use go_stomp.Frame.Header.ContentLength.{content_length}
use go_stomp.Frame.Names
use go_stomp.Frame.Reader.{Chunks, read}
use go_stomp.Frame.Reader.Chunks.{Agree, flatten}
use go_stomp.Frame.Reader.RoundTrip.{IsSendable, read-write}
use go_stomp.Frame.Writer.{write}
use go_stomp.Std.Strconv.{format_uint, max_uint32}
use go_stomp.Std.Strconv.RoundTrip.{parse_uint-format_uint}

abbrev content_type_entry : Bytes → Header
content_type_entry [] = []
content_type_entry (b ∷ s) = (Names.content_type, b ∷ s) ∷ []

-- The frame that is made with no option.
abbrev pub plain_frame : Bytes → Bytes → Bytes → Frame
plain_frame destination content_type body = record {
  command = Command.send;
  header =
      (Names.content_length, format_uint (length body))
      ∷ (Names.destination, destination)
      ∷ content_type_entry content_type;
  body = body;
}

pub create_send_frame-plain :
    (d t b : Bytes) (c : Client)
    → create_send_frame d t b [] c ≡ returned (ok (plain_frame d t b)) c
unfolding create_send_frame run_options with_content_type new set str_eq
create_send_frame-plain d [] b c = refl
create_send_frame-plain d (x ∷ t) b c = refl

content_length-found :
    (h : Header) (n : ℕ)
    → contains h Names.content_length ≡ some (format_uint n)
    → n ≤ max_uint32
    → content_length h ≡ ok (some n)
unfolding content_length
content_length-found h n e l = ground (arith, e, parse_uint-format_uint max_uint32 n)

plain_frame-IsSendable : (d t b : Bytes) → length b ≤ max_uint32 → IsSendable (plain_frame d t b)
unfolding contains str_eq
plain_frame-IsSendable d [] b l = record {
  names = ((λ e. cc), ((λ e. cc), tt));
  body = inl (content_length-found _ (length b) refl l);
}
plain_frame-IsSendable d (x ∷ t) b l = record {
  names = ((λ e. cc), ((λ e. cc), ((λ e. cc), tt)));
  body = inl (content_length-found _ (length b) refl l);
}

pub plain_frame-headers :
    (d t b : Bytes)
    → (get (plain_frame d t b).header Names.destination ≡ d)
      × (get (plain_frame d t b).header Names.content_type ≡ t)
unfolding get contains str_eq
plain_frame-headers d [] b = (refl, refl)
plain_frame-headers d (x ∷ t) b = (refl, refl)

-- The frame that `Send` makes with no option, written by the client and read by the server, however
-- the connection cuts it and whatever follows: a SEND frame with the call's destination, content type
-- and body, whatever bytes these hold. The body is no longer than an unsigned number of 32 bits can say.
pub read-create_send_frame :
    (fault : Error) (d t b : Bytes) (c : Client) (cs : Chunks) (rest : Bytes)
    → length b ≤ max_uint32
    → flatten cs
      ≡ (write (some (plain_frame d t b)) (record { sent = []; room = none })).0.sent ++ rest
    → (create_send_frame d t b [] c ≡ returned (ok (plain_frame d t b)) c)
      × (get (plain_frame d t b).header Names.destination ≡ d)
      × (get (plain_frame d t b).header Names.content_type ≡ t)
      × Agree (read fault cs) (ok (some (plain_frame d t b), rest ∷ []))
read-create_send_frame fault d t b c cs rest l e =
    let (to, kind) = plain_frame-headers d t b in
    (
      create_send_frame-plain d t b c,
      to,
      kind,
      read-write fault (plain_frame d t b) cs rest (plain_frame-IsSendable d t b l) e,
    )
