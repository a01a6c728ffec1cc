-- ===== src/Tests/Frames.antt =====
-- Runs of the theorems on frames, headers and their wire form.
use go_stomp.Base.{
  ℕ, ◌≡◌, refl, Bytes, codes, List, [], ◌∷◌, ◌++◌, Option, none, some, ok, err, eof, str_eq, arith,
  inl, inr, ◌≤◌, ◌*◌, Error, invalid_heart_beat,
}
use go_stomp.Frame.Codec.{encode_value, unencode_value, unencode_value-encode_value}
use go_stomp.Frame.Command.{Command}
use go_stomp.Frame.Data.{Frame}
use go_stomp.Frame.Header.{Header, contains}
use go_stomp.Frame.Header.ContentLength.{content_length}
use go_stomp.Frame.Reader.{read}
use go_stomp.Frame.Reader.Chunks.{Agree, read-Agree, flatten}
use go_stomp.Frame.Reader.RoundTrip.{IsSendable, read-write}
use go_stomp.Frame.Writer.{write, write_bytes}
use go_stomp.Frame.Writer.Render.{render, write-render}

unencode_value-encode_value_example :
    unencode_value (encode_value (codes "a:b\\\n\r")) ≡ codes "a:b\\\n\r"
unencode_value-encode_value_example = unencode_value-encode_value (codes "a:b\\\n\r")

abbrev header : Header
header = (codes "a", codes "1") ∷ (codes "b", codes "2") ∷ (codes "a", codes "3") ∷ []

abbrev hello : Frame
hello = record {
  command = Command.message;
  header = (codes "destination", codes "/queue/a:1") ∷ [];
  body = codes "hello";
}

hello-IsSendable : IsSendable hello
unfolding content_length contains str_eq
hello-IsSendable = record { names = ((λ e. cc), tt); body = inr (refl, ground arith) }

write-render_example : write (some hello) ≡ write_bytes (render hello)
write-render_example = write-render hello

read-Agree_example :
    Agree
      (read eof (codes "SEND\na:" ∷ codes "1\n\nhi" ∷ (0 ∷ []) ∷ []))
      (read eof (codes "SEND\n" ∷ (codes "a:1\n\nhi" ++ 0 ∷ []) ∷ []))
unfolding flatten
read-Agree_example =
    read-Agree eof (codes "SEND\na:" ∷ codes "1\n\nhi" ∷ (0 ∷ []) ∷ [])
      (codes "SEND\n" ∷ (codes "a:1\n\nhi" ++ 0 ∷ []) ∷ []) refl

-- What the connection delivers: the frame and then a heart-beat.
abbrev wire : Bytes
wire = (write (some hello) (record { sent = []; room = none })).0.sent ++ b'\n' ∷ []

read-write_example : Agree (read eof (wire ∷ [])) (ok (some hello, (b'\n' ∷ []) ∷ []))
unfolding flatten
read-write_example =
    read-write eof hello (wire ∷ []) (b'\n' ∷ []) hello-IsSendable (go_stomp.Base.append-nil wire)
