-- ===== src/Frame/Reader/RoundTrip.antt =====
-- `Read` over what `Write` sent.
use go_stomp.Base.{
  ℕ, zero, suc, ◌≤◌, ◌<◌, ◌≡◌, ◌≢◌, refl, sym, ◌∙◌, none, some, [], ◌∷◌, ◌++◌, Bytes, length,
  append_assoc, append-nil, length-append, inl, inr, ◌⊎◌, arith, All, ok, ◌>>=◌, Error,
}
use go_stomp.Frame.Codec.{encode_value}
use go_stomp.Frame.Command.{Command, parse_command, command_name, parse_command-command_name}
use go_stomp.Frame.Data.{Frame}
use go_stomp.Frame.Header.{Header, add}
use go_stomp.Frame.Header.ContentLength.{content_length}
use go_stomp.Frame.Reader.{
  Chunks, total, read_byte, parse_header_line, read_line, read_headers, read_body, or_invalid,
  read_frame, read,
}
use go_stomp.Frame.Reader.Chunks.{flatten, Agree, read-Agree}
use go_stomp.Frame.Writer.{write, write_bytes}
use go_stomp.Frame.Writer.Render.{render, render_headers, write-render}
use go_stomp.Frame.Reader.Lines.{
  NoBreaks, NoBreaks-newline, take_all_but_last, strip_line-newline, read_bytes-append,
  read_full-append, header_line, line_split, parse_header_line-header_line, header_line-NoBreaks,
  command_name-NoBreaks, command_name-cons,
}

module _ (fault : Error) where
  pub read_line-append :
      (l t : Bytes) → NoBreaks l → read_line fault ((l ++ (b'\n' ∷ t)) ∷ []) ≡ ok (l, t ∷ [])
  unfolding read_line
  read_line-append l t h =
      rw (read_bytes-append b'\n' l t (NoBreaks-newline l h), strip_line-newline l h)

  abbrev HasNames : Header → Type 0
  HasNames = All (λ e. e.0 ≢ [])

  read_headers-line :
      (l rest key value : Bytes) (h : Header) (fuel : ℕ)
      → NoBreaks l
      → parse_header_line l ≡ ok (key, value)
      → read_headers fault (suc fuel) h ((l ++ (b'\n' ∷ rest)) ∷ [])
        ≡ read_headers fault fuel (add h key value) (rest ∷ [])
  unfolding read_headers
  read_headers-line [] rest key value h fuel n e = cc
  read_headers-line (c ∷ s) rest key value h fuel n e =
      rw (read_line-append (c ∷ s) rest n, read_headers) (rw e)

  read_headers-render :
      (g h : Header) (t : Bytes) (fuel : ℕ)
      → HasNames g
      → length g < fuel
      → read_headers fault fuel h ((render_headers g ++ (b'\n' ∷ t)) ∷ []) ≡ ok (h ++ g, t ∷ [])
  unfolding render_headers
  read_headers-render g h t zero n f = absurd (omega arith)
  read_headers-render [] h t (suc fuel) n f =
      unfold read_headers in rw (read_line-append [] t tt, read_headers) (rw append-nil)
  read_headers-render ((key, value) ∷ g) h t (suc fuel) n f =
      rw (line_split key value (render_headers g) (b'\n' ∷ t)) (
        read_headers-line (header_line key value) _ key value h fuel
          (header_line-NoBreaks key value) (parse_header_line-header_line key value n.0)
        ∙ read_headers-render g (add h key value) t fuel n.1 (omega arith)
        ∙ unfold add in rw append_assoc)

-- A frame that the wire form can carry: every header has a name, and the body is as long as
-- "content-length" says or, with no such header, holds no null byte.
pub record IsSendable (f : Frame) : Type 0 where
  pub names : All (λ e. e.0 ≢ []) f.header
  pub body :
      (content_length f.header ≡ ok (some (length f.body)))
      ⊎ ((content_length f.header ≡ ok none) × All (λ c. c ≢ 0) f.body)

module _ (fault : Error) where
  read_body-append :
      (f : Frame) (t : Bytes)
      → IsSendable f
      → read_body fault f.header ((f.body ++ (0 ∷ t)) ∷ []) ≡ ok (f.body, t ∷ [])
  unfolding read_body
  read_body-append f t v = elim v.body [
    | inl e ↦ rw (e, read_body) (rw (read_full-append f.body (0 ∷ t)) (unfold read_byte in refl))
    | inr (e, n) ↦
        rw (e, read_body) (rw (read_bytes-append 0 f.body t n, take_all_but_last f.body 0))
  ]

render_split :
    (f : Frame) (t : Bytes)
    → render f ++ t
      ≡ command_name f.command
        ++ (b'\n' ∷ (render_headers f.header ++ (b'\n' ∷ (f.body ++ (0 ∷ t)))))
unfolding render
render_split f t = simp append_assoc

length-render_headers : (g : Header) → length g ≤ length (render_headers g)
unfolding render_headers
length-render_headers [] = omega arith
length-render_headers ((key, value) ∷ g) = omega (
  arith,
  length-render_headers g,
  length-append (encode_value key) (b':' ∷ (encode_value value ++ (b'\n' ∷ render_headers g))),
  length-append (encode_value value) (b'\n' ∷ render_headers g),
)

module _ (fault : Error) where
  read_frame-append :
      (f : Frame) (t : Bytes)
      → IsSendable f
      → read_frame fault f.command ((render_headers f.header ++ (b'\n' ∷ (f.body ++ (0 ∷ t)))) ∷ [])
        ≡ ok (f, t ∷ [])
  unfolding read_frame
  read_frame-append f t v =
      rw (read_headers-render fault f.header [] _ _ v.names enough)
        (rw (read_body-append fault f t v))
    where
      rest : Bytes
      rest = b'\n' ∷ (f.body ++ (0 ∷ t))

      enough : length f.header < total ((render_headers f.header ++ rest) ∷ [])
      enough =
          omega
            (arith, length-render_headers f.header, length-append (render_headers f.header) rest)

  read_command :
      (l rest : Bytes) (c : Command)
      → NoBreaks l
      → l ≢ []
      → parse_command l ≡ some c
      → read fault ((l ++ (b'\n' ∷ rest)) ∷ [])
        ≡ (read_frame fault c (rest ∷ []) >>= λ p. ok (some p.0, p.1))
  unfolding read or_invalid
  read_command [] rest c n h e = absurd (h refl)
  read_command (d ∷ s) rest c n h e =
      rw (read_line-append fault (d ∷ s) rest n, read) (rw (e, or_invalid))

  read-render :
      (f : Frame) (t : Bytes)
      → IsSendable f
      → read fault ((render f ++ t) ∷ []) ≡ ok (some f, t ∷ [])
  read-render f t v = rw (render_split f t) (
      read_command (command_name f.command) _ f.command (command_name-NoBreaks f.command) ne
        (parse_command-command_name f.command)
      ∙ rw (read_frame-append f t v))
    where
      ne : command_name f.command ≢ []
      ne e = let (d, s, q) = command_name-cons f.command in cc

  -- Whatever frame `Write` sends in full, `Read` gives back with nothing lost, whatever follows it
  -- and however the connection cuts the bytes into pieces; what follows is left to be read. The
  -- command line and the headers may be of any length. The frame must be one that the wire form
  -- can carry: no header name is empty, and the body has the length of "content-length", or there
  -- is no such header and the body holds no null byte.
  pub read-write :
      (f : Frame) (cs : Chunks) (t : Bytes)
      → IsSendable f
      → flatten cs ≡ (write (some f) (record { sent = []; room = none })).0.sent ++ t
      → Agree (read fault cs) (ok (some f, t ∷ []))
  read-write f cs t v e = rw (read-render f t v) at (
      read-Agree fault cs ((render f ++ t) ∷ [])
        (e ∙ rw (write-render f) (unfold write_bytes flatten in sym (append-nil _))))
