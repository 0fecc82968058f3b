-- ===== src/WriteQueue/Fifo.antt =====
-- writesched.go, writeQueue: the queued bytes as one sequence.
use h2stream.Prelude.{
  ℕ, ◌+◌, ◌≡◌, refl, sym, ap, ◌∙◌, Option, none, some, List, [], ◌∷◌, ◌++◌, length, append-nil,
  append_assoc, arith, Run, ok,
}
use h2stream.Prelude.Int.{ℤ}
use h2stream.Flow.{Flow}
use h2stream.Flow.Laws.{IsFlow}
use h2stream.WriteQueue.{
  FrameWriteRequest, WriteQueue, Consumed, nothing, whole, split, consume, consume_queue, push,
}
use h2stream.WriteQueue.Consume.{
  bytes_of, ends_of, bytes, ends, spent, spent_zero, Splits, consume-Splits,
}

-- The bytes of a queue's DATA frames in order, and its number of END_STREAM flags.
abbrev pub queued : WriteQueue → List ℕ
queued [] = []
queued (wr ∷ q) = bytes_of wr ++ queued q

abbrev pub endings : WriteQueue → ℕ
endings [] = 0
endings (wr ∷ q) = ends_of wr + endings q

-- What is pushed comes last.
pub queued-push :
    (q : WriteQueue) (wr : FrameWriteRequest)
    → (queued (push q wr) ≡ queued q ++ bytes_of wr)
      × (endings (push q wr) ≡ endings q + ends_of wr)
unfolding push
queued-push [] wr = (append-nil (bytes_of wr), omega arith)
queued-push (x ∷ q) wr =
    let (b, e) = queued-push q wr in
    (
      ap (◌++◌ (bytes_of x)) b ∙ sym (append_assoc (bytes_of x) (queued q) (bytes_of wr)),
      omega (arith, e),
    )

abbrev Front :
    WriteQueue → Flow → Run (Option FrameWriteRequest × WriteQueue × Option Flow) → Type 0
Front q f r =
    (o : Option FrameWriteRequest) × (q' : WriteQueue) × (f' : Flow) × (r ≡ ok (o, q', some f'))
    × (bytes o ++ queued q' ≡ queued q)
    × (ends o + endings q' ≡ endings q)
    × (f' ≡ spent f (length (bytes o)))
    × IsFlow f'

step-Front :
    (wr : FrameWriteRequest) (q : WriteQueue) (f f' : Flow) (m n : ℤ) (c : Consumed)
    → consume wr (some f) m n ≡ ok (c, some f')
    → Splits wr f m n c f'
    → Front (wr ∷ q) f (consume_queue (wr ∷ q) (some f) m n)
unfolding consume_queue
step-Front wr q f f' m n nothing e s =
    (none, wr ∷ q, f', rw e refl, refl, omega arith, s.paid, s.valid)
step-Front wr q f f' m n (whole x) e s = (
  some x,
  q,
  f',
  rw e refl,
  ap (λ b. b ++ queued q) (sym (append-nil (bytes_of x)) ∙ s.joined),
  omega (arith, s.ended),
  s.paid,
  s.valid,
)
step-Front wr q f f' m n (split x y) e s = (
  some x,
  y ∷ q,
  f',
  rw e refl,
  sym (append_assoc (bytes_of x) (bytes_of y) (queued q)) ∙ ap (λ b. b ++ queued q) s.joined,
  omega (arith, s.ended),
  s.paid,
  s.valid,
)

-- A step of the queue under the flow of its stream: the front of the queued bytes is sent and paid
-- for, the rest stays queued in order, and no END_STREAM flag is lost or doubled. No step panics.
pub consume_queue-front :
    (q : WriteQueue) (f : Flow) (m n : ℤ)
    → IsFlow f
    → (o : Option FrameWriteRequest) × (q' : WriteQueue) × (f' : Flow) × (consume_queue q
          (some f)
          m
          n
        ≡ ok (o, q', some f'))
      × (bytes o ++ queued q' ≡ queued q)
      × (ends o + endings q' ≡ endings q)
      × (f' ≡ spent f (length (bytes o)))
      × IsFlow f'
unfolding consume_queue
consume_queue-front [] f m n v = (none, [], f, refl, refl, omega arith, sym (spent_zero f), v)
consume_queue-front (wr ∷ q) f m n v =
    let (c, f', e, s) = consume-Splits wr f m n v in step-Front wr q f f' m n c e s
