-- ===== src/Client/Calls/Settle/Refused.antt =====
-- What the server makes of the client's ACK and NACK frames for a message that it numbered.
use go_stomp.Base.{
  ◌⊎◌, ◌≤◌, ℕ, zero, suc, ◌+◌, ◌-◌, ◌*◌, ◌%◌, ◌^◌, ◌≡◌, ◌≢◌, refl, sym, ap, ◌∙◌, Bytes, Bool, true,
  false, not, ◌&&◌, ◌||◌, Option, none, some, List, [], ◌∷◌, ◌++◌, map, ok, err, ResultOf, codes,
  str_eq, if◌then◌else◌, take, drop, length, ltb, ◌==◌, arith, append_assoc, append-nil, All, inl,
  inr, Bool-cases, str_eq_iff,
}
use go_stomp.Base
use go_stomp.Client.AckMode.{Mode, mode_string}
use go_stomp.Client.Calls.Settle.{
  settle_command, settle_by_message, settle_by_ack, settle_frame, create_ack_nack_frame,
}
use go_stomp.Client.Message.{Subscription}
use go_stomp.Client.Subscription.{message_of}
use go_stomp.Client.Versions.{supports_nack}
use go_stomp.Frame.Data.{Frame, new}
use go_stomp.Frame.Header.{Header, contains, set}
use go_stomp.Frame.Header.Laws.{contains-set}
use go_stomp.Frame.Names
use go_stomp.Server.Conn.{St, failed}
use go_stomp.Server.Conn.Handlers.{handle_ack, handle_nack, settle, acked_id}
use go_stomp.Server.Conn.Loop.{number_frame}
use go_stomp.Server.Negotiation.{Version, v10, v11, v12}
use go_stomp.Std.Strconv.{parse_uint, format_uint, max_uint64}
use go_stomp.Std.Strconv.RoundTrip.{parse_uint-format_uint}

is_auto : (mode : Mode) → mode ≢ Mode.auto → str_eq (mode_string mode) Names.ack_auto ≡ false
unfolding mode_string str_eq
is_auto Mode.auto h = absurd (h refl)
is_auto Mode.client h = refl
is_auto Mode.client_individual h = refl

abbrev by_message : Bool → Bytes → Bytes → Frame
by_message ack sub message_id = record {
  command = settle_command ack;
  header = (Names.subscription, sub) ∷ (Names.message_id, message_id) ∷ [];
  body = [];
}

abbrev by_ack : Bool → Bytes → Frame
by_ack ack id = record { command = settle_command ack; header = (Names.id, id) ∷ []; body = [] }

settle_by_message-found :
    (ack : Bool) (sub : Subscription) (h : Header) {id : Bytes}
    → contains h Names.message_id ≡ some id
    → settle_by_message ack sub h ≡ ok (some (by_message ack sub.id id))
unfolding settle_by_message new
settle_by_message-found ack sub h e = rw (e, settle_by_message) refl

settle_by_ack-found :
    (ack : Bool) (h : Header) {id : Bytes}
    → contains h Names.ack ≡ some id
    → settle_by_ack ack h ≡ ok (some (by_ack ack id))
unfolding settle_by_ack new
settle_by_ack-found ack h e = rw (e, settle_by_ack) refl

settle_frame-early :
    (version : Version) (ack : Bool) (sub : Subscription) (h : Header)
    → version ≢ v12
    → settle_frame version ack sub h ≡ settle_by_message ack sub h
unfolding settle_frame
settle_frame-early v10 ack sub h v = refl
settle_frame-early v11 ack sub h v = refl
settle_frame-early v12 ack sub h v = absurd (v refl)

module _ (n : ℕ) (f : Frame) (sub : Subscription) (manual : sub.ack_mode ≢ Mode.auto) where
  -- The frame that the server sends for the subscription.
  abbrev numbered : Frame
  numbered = number_frame n (mode_string sub.ack_mode) f

  abbrev named : Header
  named = set (set f.header Names.message_id (format_uint n)) Names.id (format_uint n)

  numbered_header : numbered.header ≡ set named Names.ack (format_uint n)
  unfolding number_frame
  numbered_header = rw (is_auto sub.ack_mode manual) refl

  message_id-numbered : contains numbered.header Names.message_id ≡ some (format_uint n)
  unfolding str_eq
  message_id-numbered =
      ap (λ h. contains h Names.message_id) numbered_header
      ∙ contains-set named Names.ack (format_uint n) Names.message_id
      ∙ contains-set (set f.header Names.message_id (format_uint n)) Names.id (format_uint n)
          Names.message_id
      ∙ contains-set f.header Names.message_id (format_uint n) Names.message_id

  ack-numbered : contains numbered.header Names.ack ≡ some (format_uint n)
  unfolding str_eq
  ack-numbered =
      ap (λ h. contains h Names.ack) numbered_header
      ∙ contains-set named Names.ack (format_uint n) Names.ack

  create-settle_frame :
      (version : Version) (ack : Bool)
      → ack ≡ true ⊎ version ≢ v10
      → create_ack_nack_frame version (message_of sub numbered) ack
        ≡ settle_frame version ack sub numbered.header
  unfolding create_ack_nack_frame supports_nack message_of
  create-settle_frame version ack r = ground (arith, r, manual)

  -- The client's ACK or NACK frame by version 1.0 or 1.1, for a message that the server numbered: the
  -- server finds the number in it. A NACK frame wants version 1.1.
  pub create_ack_nack_frame-acked_id :
      (version : Version) (ack : Bool)
      → version ≢ v12
      → ack ≡ true ⊎ version ≢ v10
      → n ≤ max_uint64
      → (g : Frame) × (create_ack_nack_frame version (message_of sub numbered) ack ≡ ok (some g))
        × (g.command ≡ settle_command ack)
        × (contains g.header Names.subscription ≡ some sub.id)
        × ((id : Bytes) × (acked_id g ≡ some id) × (parse_uint max_uint64 id ≡ ok n))
  unfolding acked_id contains str_eq
  create_ack_nack_frame-acked_id version ack v r l = (
    by_message ack sub.id (format_uint n),
    create-settle_frame version ack r
        ∙ settle_frame-early version ack sub numbered.header v
        ∙ settle_by_message-found ack sub numbered.header message_id-numbered,
    refl,
    refl,
    (format_uint n, refl, parse_uint-format_uint max_uint64 n ∙ ground arith),
  )

  -- The ACK or NACK frame of a client by version 1.2, for a message that the server numbered: the
  -- server's handler fails, as the frame has the number under "id" and the handler wants it under
  -- "ack" or "message-id". The server is in any state.
  pub settle-refuses :
      (ack : Bool) (s : St)
      → (g : Frame) × (create_ack_nack_frame v12 (message_of sub numbered) ack ≡ ok (some g))
        × (contains g.header Names.id ≡ some (format_uint n))
        × (handle_ack (record s { frame = g })
            ≡ failed (Base.missing_header Names.message_id) (record s { frame = g }))
        × (handle_nack (record s { frame = g })
            ≡ failed (Base.missing_header Names.message_id) (record s { frame = g }))
  unfolding handle_ack handle_nack settle acked_id str_eq settle_frame contains
  settle-refuses ack s = (
    by_ack ack (format_uint n),
    create-settle_frame v12 ack (inr λ e. cc)
        ∙ settle_by_ack-found ack numbered.header ack-numbered,
    refl,
    refl,
    refl,
  )
