-- ===== src/Server/Broker/References/Copies.antt =====
-- Each subscription of a topic gets a copy of its own.
use go_stomp.Base.{
  ℕ, ◌≡◌, ◌≢◌, ◌≤◌, ◌<◌, ◌+◌, refl, sym, ap, ◌∙◌, none, List, [], ◌∷◌, map, All, arith, ◌⊎◌, inl,
  inr,
}
use go_stomp.Frame.Header.{set}
use go_stomp.Frame.Header.Laws.{clone_lem}
use go_stomp.Frame.Names
use go_stomp.Server.Objects.{Heap, done}
use go_stomp.Server.Broker.Topics.{copy_for, send_to_all-copies}
use go_stomp.Server.Broker.{send_to_all}
use go_stomp.Server.Broker.References.{
  FrameRef, Headers, clone, set_header, send_topic_frame, enqueue, read, received, AreApart,
}

-- What `Enqueue` of a topic does with a frame: what its connections receive (`reads`), without
-- sharing (`apart`, `fresh`), and what becomes of other headers (`others`).
pub record OwnCopies (h : Heap) (l : List ℕ) (f : FrameRef) (m : Headers) : Type 0 where
  pub after : Headers
  pub sent : List (ℕ × FrameRef)
  pub ran : enqueue h l f m ≡ done (after, sent)
  pub reads : map (received after) sent ≡ map (copy_for h (read m f)) l
  pub apart : AreApart sent
  pub fresh : All (λ d. (d.1.header ≡ f.header) ⊎ (m.next ≤ d.1.header)) sent
  pub others : (q : ℕ) → q < m.next → q ≢ f.header → after.at q ≡ m.at q

All-weaken :
    {P Q : ℕ × FrameRef → Type 0} (l : List (ℕ × FrameRef))
    → ((d : ℕ × FrameRef) → P d → Q d)
    → All P l
    → All Q l
All-weaken [] k v = tt
All-weaken (d ∷ l) k v = (k d v.0, All-weaken l k v.1)

module _ (h : Heap) (f : FrameRef) (m : Headers) where
  abbrev copy : FrameRef
  copy = record f { header = m.next }

  -- The headers once the frame is copied, and the copy is addressed to `a`.
  abbrev copied : ℕ → Headers
  copied a = set_header copy Names.subscription (h.at a).id (clone f m).1

  send_topic_frame_lem :
      (a : ℕ) (g : FrameRef) (k : Headers)
      → (h.at a).frame ≡ none
      → send_topic_frame h a g k
        ≡ done (set_header g Names.subscription (h.at a).id k, (h.at a).conn, g)
  unfolding send_topic_frame
  send_topic_frame_lem a g k n = ground (arith, n)

  read-copied : (a : ℕ) → f.header < m.next → read (copied a) f ≡ read m f
  unfolding clone
  read-copied a b = ground (arith, b)

  copied-at : (a : ℕ) → (copied a).at m.next ≡ set (m.at f.header) Names.subscription (h.at a).id
  unfolding clone
  copied-at a = ground (arith, clone_lem (m.at f.header))

  copied-next : (a : ℕ) → (copied a).next ≡ m.next + 1
  unfolding clone
  copied-next a = refl

  copied-others : (a q : ℕ) → q < m.next → (copied a).at q ≡ m.at q
  unfolding clone
  copied-others a q b = ground (arith, b)

  enqueue-last : (a : ℕ) → (h.at a).frame ≡ none → OwnCopies h (a ∷ []) f m
  unfolding enqueue
  enqueue-last a n = record {
    after = set_header f Names.subscription (h.at a).id m;
    sent = ((h.at a).conn, f) ∷ [];
    ran = rw (send_topic_frame_lem a f m n) refl;
    reads = ground arith;
    apart = (tt, tt);
    fresh = (inl refl, tt);
    others = λ q b n. ground arith;
  }

  enqueue-more :
      (a b : ℕ) (l : List ℕ)
      → (h.at a).frame ≡ none
      → f.header < m.next
      → OwnCopies h (b ∷ l) f (copied a)
      → OwnCopies h (a ∷ b ∷ l) f m
  unfolding enqueue clone
  enqueue-more a b l n i r =
      let kept : r.after.at m.next ≡ set (m.at f.header) Names.subscription (h.at a).id =
        r.others m.next (omega arith) (omega arith) ∙ copied-at a in
      record {
        after = r.after;
        sent = ((h.at a).conn, copy) ∷ r.sent;
        ran = rw (send_topic_frame_lem a copy (clone f m).1 n) (ground (arith, r.ran));
        reads = rw kept (
            ap (◌∷◌ (copy_for h (read m f) a))
              (r.reads ∙ ap (λ g. map (copy_for h g) (b ∷ l)) (read-copied a i)));
        apart = (All-weaken r.sent (λ d v. ground (arith, v, i)) r.fresh, r.apart);
        fresh = (inr (omega arith), All-weaken r.sent (λ d v. ground (arith, v)) r.fresh);
        others = λ q c o. r.others q (omega arith) o ∙ copied-others a q c;
      }

enqueue-OwnCopies :
    (h : Heap) (l : List ℕ) (f : FrameRef) (m : Headers)
    → All (λ a. (h.at a).frame ≡ none) l
    → f.header < m.next
    → OwnCopies h l f m
unfolding enqueue
enqueue-OwnCopies h [] f m v i = record {
  after = m;
  sent = [];
  ran = refl;
  reads = refl;
  apart = tt;
  fresh = tt;
  others = λ q b n. refl;
}
enqueue-OwnCopies h (a ∷ []) f m v i = enqueue-last h f m a v.0
enqueue-OwnCopies h (a ∷ b ∷ l) f m v i =
    enqueue-more h f m a b l v.0 i
      (enqueue-OwnCopies h (b ∷ l) f (copied h f m a) v.1 (ground (arith, i, copied-next h f m a)))

-- A topic gives every subscription a frame of its own. `Enqueue`, with frames that share a header by
-- its address, sends one frame to each subscription of the topic, in their order; once it is done,
-- each connection reads the frame that was sent, with the id of its own subscription in the header
-- "subscription"; no two of these frames share a header, and each has that of the frame sent or a new
-- one; and no other header in use has changed. This is what the model of `Enqueue` with frames as
-- values sends. The subscriptions have no frame pending, and the frame's header is in use.
pub enqueue-copies :
    (h : Heap) (l : List ℕ) (f : FrameRef) (m : Headers)
    → All (λ a. (h.at a).frame ≡ none) l
    → f.header < m.next
    → (r : OwnCopies h l f m) × (send_to_all h l (read m f) ≡ done (map (received r.after) r.sent))
enqueue-copies h l f m v i =
    let r = enqueue-OwnCopies h l f m v i in
    (r, send_to_all-copies h l (read m f) v ∙ ap done (sym r.reads))
