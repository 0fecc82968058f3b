-- ===== src/Session/Spending/Splitting.antt =====
-- writesched.go, Consume and the queue's consume: what is popped is paid for.
use h2stream.Prelude.{
  ℕ, ◌≡◌, refl, ap, subst, Option, none, some, [], ◌∷◌, List, Bool, ok, Post, Post-bind, Post-any,
  Post-if, Post-ok, ltb, length,
}
use h2stream.Prelude.Int.{ℤ, pos, ltb_ℤ, pos_part}
use h2stream.Flow
use h2stream.Flow.{Flow}
use h2stream.Flow.Laws.{IsFlow}
use h2stream.Frame.{WriteFramer, write_data}
use h2stream.WriteQueue.{
  FrameWriteRequest, WriteQueue, Consumed, nothing, whole, split, allowed, consume, consume_data,
  consume_queue,
}
use h2stream.WriteQueue.Consume.{sent, Splits, consume-Splits}
use h2stream.Session.Spending.{PaidBy}

-- What a request for a stream in the window `f` gives.
abbrev pub Taken : Option Flow → Option ℕ → Option FrameWriteRequest → Option Flow → Type 0
Taken f o none out = Unit {0}
Taken f o (some w) out = (w.stream ≡ o) × PaidBy f w out

abbrev SameStream : Option ℕ → Option FrameWriteRequest → Type 0
SameStream o none = Unit {0}
SameStream o (some w) = w.stream ≡ o

abbrev pub IsWindow : Option Flow → Type 0
IsWindow none = Unit {0}
IsWindow (some f) = IsFlow f

consume_data-SameStream :
    (wr : FrameWriteRequest) (f : Flow) (a : ℤ) (id : ℕ) (p : List ℕ) (e : Bool)
    → Post (consume_data wr f a id p e) (λ (c, _). SameStream wr.stream (sent c))
unfolding consume_data
consume_data-SameStream wr f a id p e =
    Post-if _ (ltb_ℤ (pos 0) a) _ (ok (nothing, f))
      (Post-if _ (ltb (pos_part a) (length p)) _ _ (Post-any _ (Flow.take f a) _ (λ f'. refl))
        (Post-any _ (Flow.take f (pos (length p))) _ (λ f'. refl)))
      tt

consume-SameStream :
    (wr : FrameWriteRequest) (f : Flow) (m n : ℤ)
    → Post (consume wr (some f) m n) (λ (c, _). SameStream wr.stream (sent c))
unfolding consume
consume-SameStream wr f m n = go wr.write
  where
    go :
        (w : Option WriteFramer)
        → Post
            (consume (record wr { write = w }) (some f) m n)
            (λ (c, _). SameStream wr.stream (sent c))
    go (some (write_data id (x ∷ p) e)) =
        Post-bind _ _
          (consume_data (record wr { write = some (write_data id (x ∷ p) e) }) f (allowed f m n) id
            (x ∷ p) e)
          _
          (consume_data-SameStream (record wr { write = some (write_data id (x ∷ p) e) }) f
            (allowed f m n) id (x ∷ p) e)
          (λ (c, f') h. h)
    go _ = refl

split_charge :
    (wr : FrameWriteRequest) (f : Flow) (m n : ℤ) (c : Consumed) (f' : Flow)
    → Splits wr f m n c f'
    → SameStream wr.stream (sent c)
    → Taken (some f) wr.stream (sent c) (some f')
split_charge wr f m n nothing f' s h = tt
split_charge wr f m n (whole w) f' s h =
    (h, (ap some s.paid, λ k. (s.limited k).2, subst IsFlow s.paid s.valid))
split_charge wr f m n (split w rest) f' s h =
    (h, (ap some s.paid, λ k. (s.limited k).2, subst IsFlow s.paid s.valid))

consume-Taken :
    (wr : FrameWriteRequest) (f : Option Flow) (m n : ℤ)
    → IsWindow f
    → Post (consume wr f m n) (λ (c, out). Taken f wr.stream (sent c) out)
unfolding consume
consume-Taken wr (some f) m n v =
    let (c, f', e, s) = consume-Splits wr f m n v in
    let h = Post-ok _ (consume wr (some f) m n) (c, some f') (consume-SameStream wr f m n) e in
    rw e (split_charge wr f m n c f' s h)
consume-Taken wr none m n v = go wr.write
  where
    go :
        (w : Option WriteFramer)
        → Post
            (consume (record wr { write = w }) none m n)
            (λ (c, out). Taken none wr.stream (sent c) out)
    go (some (write_data id (x ∷ p) e)) = tt
    go (some (write_data id [] e)) = (refl, (refl, refl))
    go _ = (refl, (refl, refl))

-- The queue's consume takes the bytes of what it gives from the window, and no more than is available.
pub consume_queue-Taken :
    (wr : FrameWriteRequest) (q : WriteQueue) (f : Option Flow) (m n : ℤ)
    → IsWindow f
    → Post (consume_queue (wr ∷ q) f m n) (λ (o, _, out). Taken f wr.stream o out)
unfolding consume_queue
consume_queue-Taken wr q f m n v =
    Post-bind _ _ (consume wr f m n) _ (consume-Taken wr f m n v) (λ (c, out) h. go c out h)
  where
    go :
        (c : Consumed) (out : Option Flow)
        → Taken f wr.stream (sent c) out
        → Post {A = Option FrameWriteRequest × WriteQueue × Option Flow}
            (elim c [
              | nothing ↦ ok (none, wr ∷ q, out)
              | whole w ↦ ok (some w, q, out)
              | split w rest ↦ ok (some w, rest ∷ q, out)
            ])
            (λ (o, _, x). Taken f wr.stream o x)
    go nothing out h = tt
    go (whole w) out h = h
    go (split w rest) out h = h
