-- ===== src/Frame/Writer/Render.antt =====
-- The bytes of a frame, and that `Write` sends these and no others.
use mathlib.Core.Path.{fun_ext}
use go_stomp.Base.{
  ℕ, ◌-◌, ◌≡◌, refl, sym, true, Option, none, some, [], ◌∷◌, ◌++◌, Bytes, length, take,
  length-append, append_assoc, take-append_le, take-append_ge, append-nil, arith,
}
use go_stomp.Frame.Codec.{encode_value}
use go_stomp.Frame.Command.{command_name}
use go_stomp.Frame.Data.{Frame}
use go_stomp.Frame.Header.{Header}
use go_stomp.Frame.Writer.{Sink, Write, ◌>>◌, write_bytes, write_headers, write_body, write}

unfoldable pub render_headers : Header → Bytes
render_headers [] = []
render_headers ((key, value) ∷ h) =
    encode_value key ++ (b':' ∷ (encode_value value ++ (b'\n' ∷ render_headers h)))

-- A frame on the wire: the command line, the header lines, an empty line, the body, a null byte.
unfoldable pub render : Frame → Bytes
unfolding render_headers
render f =
    command_name f.command ++ (b'\n' ∷ (render_headers f.header ++ (b'\n' ∷ (f.body ++ (0 ∷ [])))))

write_both :
    (a b sent : Bytes) (room : Option ℕ)
    → (write_bytes a >> write_bytes b) (record { sent = sent; room = room })
      ≡ write_bytes (a ++ b) (record { sent = sent; room = room })
unfolding write_bytes
write_both a b sent none = ground (arith, append_assoc sent a b)
write_both a b sent (some n) = ground (
  arith,
  append_assoc sent a b,
  append_assoc sent a (take (n - length a) b),
  length-append a b,
  take-append_le n a b,
  take-append_ge n a b,
)

-- Two writes in a row are one write of both.
write_bytes-append :
    (a b : Bytes) (s : Sink) → (write_bytes a >> write_bytes b) s ≡ write_bytes (a ++ b) s
write_bytes-append a b s = write_both a b s.sent s.room

write_nothing :
    (sent : Bytes) (room : Option ℕ)
    → write_bytes [] (record { sent = sent; room = room })
      ≡ (record { sent = sent; room = room }, true)
unfolding write_bytes
write_nothing sent none = ground (arith, append-nil sent)
write_nothing sent (some n) = ground (arith, append-nil sent)

then_write :
    {k : Write} (a r : Bytes) → k ≡ write_bytes r → (write_bytes a >> k) ≡ write_bytes (a ++ r)
then_write a r e = rw e (fun_ext λ s. write_bytes-append a r s)

then_flush : (a : Bytes) → (write_bytes a >> (λ s. (s, true))) ≡ write_bytes a
then_flush a = fun_ext λ s. ground arith

write_headers-render : (h : Header) → write_headers h ≡ write_bytes (render_headers h)
unfolding write_headers render_headers
write_headers-render [] = fun_ext λ s. sym (write_nothing s.sent s.room)
write_headers-render ((key, value) ∷ h) = then_write (encode_value key) _ (
    then_write (b':' ∷ []) _
      (then_write (encode_value value) _ (then_write (b'\n' ∷ []) _ (write_headers-render h))))

write_body-eq-write_bytes : (b : Bytes) → write_body b ≡ write_bytes b
unfolding write_body
write_body-eq-write_bytes [] = fun_ext λ s. sym (write_nothing s.sent s.room)
write_body-eq-write_bytes (c ∷ b) = refl

then_headers :
    {k : Write} (h : Header) (r : Bytes)
    → k ≡ write_bytes r
    → (write_headers h >> k) ≡ write_bytes (render_headers h ++ r)
then_headers h r e = rw (write_headers-render h) (then_write (render_headers h) r e)

then_body :
    {k : Write} (b r : Bytes) → k ≡ write_bytes r → (write_body b >> k) ≡ write_bytes (b ++ r)
then_body b r e = rw (write_body-eq-write_bytes b) (then_write b r e)

-- `Write` of a frame is one write of its wire form: it sends all of it and returns nil if the
-- connection takes that many bytes, and else sends as much of its beginning as fits and returns
-- an error.
pub write-render : (f : Frame) → write (some f) ≡ write_bytes (render f)
unfolding write render
write-render f = then_write (command_name f.command) _ (
    then_write (b'\n' ∷ []) _ (
      then_headers f.header _
        (then_write (b'\n' ∷ []) _ (then_body f.body _ (then_flush (0 ∷ []))))))

-- A heart-beat is a single line feed.
pub write_heart_beat : write none ≡ write_bytes (b'\n' ∷ [])
unfolding write
write_heart_beat = then_flush (b'\n' ∷ [])
