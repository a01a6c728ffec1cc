-- ===== src/Client/Calls/Keeps.antt =====
-- What the parts of a method do to the connection, for any property of it that they keep.
use go_stomp.Base.{
  ◌≡◌, Bytes, Bool, true, false, Option, none, some, List, [], ◌∷◌, ok, err, if◌then◌else◌,
}
use go_stomp.Client.Calls.{
  Client, Done, M, returned, blocked, panicked, and_then, ◌>>=◌, by_option, FrameOption,
  apply_option, run_options, create_send_frame,
}
use go_stomp.Client.Calls.Subscribe.{run_all_options, with_id}
use go_stomp.Client.Calls.Transaction.{with_receipt}
use go_stomp.Client.Conn.{Conn}
use go_stomp.Frame.Data.{Frame}
use go_stomp.Frame.Header.{contains}
use go_stomp.Frame.Names

-- The channel of requests is closed only if the connection is.
pub record IsSound (c : Conn) : Type 0 where
  pub sound : c.write_closed ≡ true → c.closed ≡ true

-- No panic, and `P` of the connection that is left; `W` where the method blocks.
abbrev pub Fine : Type 0 → (Conn → Type 0) → {A : Type 0} → Done A → Type 0
Fine W P (returned r c) = P c.conn
Fine W P blocked = W
Fine W P panicked = ⊥

abbrev pub Keeps : Type 0 → (Conn → Type 0) → {A : Type 0} → M A → Type 0
Keeps W P m = (c : Client) → P c.conn → Fine W P (m c)

module _ (W : Type 0) (P : Conn → Type 0) where
  pub Fine-and_then :
      {A B : Type 0} (f : A → M B) (d : Done A)
      → Fine W P d
      → ((a : A) → Keeps W P (f a))
      → Fine W P (and_then f d)
  Fine-and_then f (returned (ok a) c) h k = k a c h
  Fine-and_then f (returned (err e) c) h k = h
  Fine-and_then f blocked h k = h
  Fine-and_then f panicked h k = h

  pub Keeps-bind :
      {A B : Type 0} (m : M A) (f : A → M B)
      → Keeps W P m
      → ((a : A) → Keeps W P (f a))
      → Keeps W P (m >>= f)
  Keeps-bind m f h k c o = Fine-and_then f (m c) (h c o) k

  pub Keeps-run_options :
      (opts : List (Option FrameOption)) (f : Frame) → Keeps W P (run_options opts f)
  unfolding run_options
  Keeps-run_options [] f c o = o
  Keeps-run_options (none ∷ opts) f c o = Keeps-run_options opts f c o
  Keeps-run_options (some opt ∷ opts) f c o =
      Keeps-bind (apply_option opt f) (run_options opts) (λ c o. o) (Keeps-run_options opts) c o

  pub Keeps-run_all_options :
      (opts : List (Option FrameOption)) (f : Frame) → Keeps W P (run_all_options opts f)
  unfolding run_all_options
  Keeps-run_all_options [] f c o = o
  Keeps-run_all_options (none ∷ opts) f c o = o
  Keeps-run_all_options (some opt ∷ opts) f c o =
      Keeps-bind (apply_option opt f) (run_all_options opts) (λ c o. o) (Keeps-run_all_options opts)
        c o

  pub Keeps-create_send_frame :
      (d t b : Bytes) (opts : List (Option FrameOption)) → Keeps W P (create_send_frame d t b opts)
  unfolding create_send_frame
  Keeps-create_send_frame d t b opts c o = Keeps-run_options opts _ c o

  pub Keeps-by_option :
      {A B : Type 0} (o : Option A) (m : M B) (f : A → M B)
      → Keeps W P m
      → ((a : A) → Keeps W P (f a))
      → Keeps W P (by_option o m f)
  Keeps-by_option none m f h k = h
  Keeps-by_option (some a) m f h k = k a

  pub Keeps-if :
      {A : Type 0} (b : Bool) (m k : M A)
      → Keeps W P m
      → Keeps W P k
      → Keeps W P (if b then m else k)
  Keeps-if true m k h l = h
  Keeps-if false m k h l = l

  pub Keeps-with_id : (f : Frame) → Keeps W P (with_id f)
  unfolding with_id
  Keeps-with_id f = Keeps-by_option (contains f.header Names.id) _ _ (λ c o. o) (λ id c o. o)

  pub Keeps-with_receipt : (r : Bool) (f : Frame) → Keeps W P (with_receipt r f)
  unfolding with_receipt
  Keeps-with_receipt true f c o = o
  Keeps-with_receipt false f c o = o
