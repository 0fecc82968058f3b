-- ===== src/Priority/Taking.antt =====
-- writesched_priority.go, the callback of Pop: a frame is taken from the queue of one node.
use h2stream.Prelude.{
  ℕ, ◌≤◌, ◌<◌, ◌≡◌, ◌⊎◌, subst, inl, inr, refl, ap, Option, none, some, List, [], ◌∷◌, ◌==◌, ==→≡,
  Bool, arith, Bool-cases, ok, Post, Post-ok, Post-bind, length, Post-any, ltb,
}
use h2stream.Prelude.Int.{ℤ, pos, ◌≤ℤ◌, ltb_ℤ, pos_part}
use h2stream.Flow
use h2stream.Flow.{Flow}
use h2stream.Flow.Laws.{IsFlow}
use h2stream.Frame.{WriteFramer, write_data}
use h2stream.WriteQueue.{
  FrameWriteRequest, WriteQueue, Consumed, nothing, whole, split, data_size, allowed, consume,
  consume_data, consume_queue,
}
use h2stream.WriteQueue.Consume.{spent_zero, Splits, consume-Splits}
use h2stream.Priority.{set, Nodes}
use h2stream.Priority.Charging.{IsRanked, Charged, add_bytes_ends}
use h2stream.Priority.Scheduler.{PriorityWriteScheduler, head_flow, limit_for, throttle, pop_node}

-- The request at the head of the queue has a stream with int32 windows, or carries no bytes.
abbrev pub IsFed : WriteQueue → Option Flow → Type 0
IsFed q (some f) = IsFlow f
IsFed [] none = Unit
IsFed (wr ∷ q) none = data_size wr ≡ 0

-- The head of the queue is a DATA frame with bytes.
abbrev pub CarriesBytes : WriteQueue → Type 0
CarriesBytes q =
    (wr : FrameWriteRequest) × (rest : WriteQueue) × (q ≡ wr ∷ rest) × (0 < data_size wr)

-- Nothing can be sent now: the queue is empty, or its head carries bytes and the limits leave none.
abbrev pub Stuck : WriteQueue → Option Flow → ℤ → ℤ → Type 0
Stuck q flow m n =
    (q ≡ []) ⊎ (CarriesBytes q × (f : Flow) × (flow ≡ some f) × (allowed f m n ≤ℤ pos 0))

pub data Step (q : WriteQueue) (flow : Option Flow) (m n : ℤ) : Type 0 where
  stays : Stuck q flow m n → consume_queue q flow m n ≡ ok (none, q, flow) → Step q flow m n
  sends :
      (wr : FrameWriteRequest) (q' : WriteQueue) (flow' : Option Flow)
      → consume_queue q flow m n ≡ ok (some wr, q', flow')
      → Step q flow m n

-- Nothing is returned only if the limits leave no byte, and the request has bytes.
abbrev Nothing : ℤ → Consumed → Type 0
Nothing a c = c ≡ nothing → a ≤ℤ pos 0

has_bytes :
    (wr : FrameWriteRequest) (id x : ℕ) (p : List ℕ) (e : Bool)
    → wr.write ≡ some (write_data id (x ∷ p) e)
    → 0 < data_size wr
unfolding data_size
has_bytes wr id x p e q = rw q (omega arith)

consume_data-Nothing :
    (wr : FrameWriteRequest) (f : Flow) (a : ℤ) (id : ℕ) (p : List ℕ) (e : Bool)
    → Post (consume_data wr f a id p e) (λ (c, _). Nothing a c)
unfolding consume_data
consume_data-Nothing wr f a id p e = elim (Bool-cases (ltb_ℤ (pos 0) a)) [
  | inr y ↦ rw (Post, y) (λ _. ground (arith, y))
  | inl y ↦ elim (Bool-cases (ltb (pos_part a) (length p))) [
    | inl z ↦
        rw (y, z) (Post-any (λ (c, _). Nothing a c) (Flow.take f a) _ (λ f' x. ground (arith, x)))
    | inr z ↦
        rw (y, z)
          (Post-any (λ (c, _). Nothing a c) (Flow.take f (pos (length p))) _
            (λ f' x. ground (arith, x)))
  ]
]

abbrev Refused : ℕ → ℤ → Consumed → Type 0
Refused size a c = c ≡ nothing → (0 < size) × (a ≤ℤ pos 0)

consume_cases :
    (wr : FrameWriteRequest) (f : Flow) (m n : ℤ) (w : Option WriteFramer) (size : ℕ)
    → wr.write ≡ w
    → data_size wr ≡ size
    → Post (consume wr (some f) m n) (λ (c, _). Refused size (allowed f m n) c)
unfolding consume
consume_cases wr f m n (some (write_data id (x ∷ p) e)) size q k =
    rw (Post, q)
      (Post-bind (λ (c, _). Nothing (allowed f m n) c) (λ (c, _). Refused size (allowed f m n) c)
        (consume_data wr f (allowed f m n) id (x ∷ p) e) _
        (consume_data-Nothing wr f (allowed f m n) id (x ∷ p) e)
        (λ _ h c. (subst (λ z. 0 < z) k (has_bytes wr id x p e q), h c)))
consume_cases wr f m n _ size q k = rw (Post, q) (λ e. ground (arith, e))

-- A request without a flow carries no bytes, and goes out.
consume-bare :
    (wr : FrameWriteRequest) (m n : ℤ) (w : Option WriteFramer)
    → wr.write ≡ w
    → data_size wr ≡ 0
    → consume wr none m n ≡ ok (whole wr, none)
unfolding consume data_size
consume-bare wr m n (some (write_data id (x ∷ p) e)) q h = absurd (ground (arith, rw q at h))
consume-bare wr m n _ q h = rw q refl

consume_queue-Step :
    (q : WriteQueue) (flow : Option Flow) (m n : ℤ) → IsFed q flow → Step q flow m n
unfolding consume_queue
consume_queue-Step [] none m n v = stays (inl refl) refl
consume_queue-Step [] (some f) m n v = stays (inl refl) refl
consume_queue-Step (wr ∷ q) none m n v =
    sends wr q none (rw (consume-bare wr m n wr.write refl v) refl)
consume_queue-Step (wr ∷ q) (some f) m n v =
    let (c, f', e, s) = consume-Splits wr f m n v in step c f' e s
  where
    step :
        (c : Consumed) (f' : Flow)
        → consume wr (some f) m n ≡ ok (c, some f')
        → Splits wr f m n c f'
        → Step (wr ∷ q) (some f) m n
    step nothing f' e s =
        stays
          (let (bytes, none_left) =
              Post-ok (λ (c, _). Refused (data_size wr) (allowed f m n) c) (consume wr (some f) m n)
                (nothing, some f') (consume_cases wr f m n wr.write (data_size wr) refl refl) e
                refl in
            inr ((wr, q, refl, bytes), f, refl, none_left))
          (rw (e, s.paid, spent_zero f) refl)
    step (whole x) f' e s = sends x q (some f') (rw e refl)
    step (split x y) f' e s = sends x (y ∷ q) (some f') (rw e refl)

-- What the callback does at a node: nothing, or a frame leaves the node's queue, the bytes are
-- charged, and the limit for throttling is adjusted.
pub data Taking (flows : ℕ → Option Flow) (m : ℤ) (n : ℕ) (b : Bool) (s : PriorityWriteScheduler)
    (par : ℕ → Option ℕ) (top : ℕ) : Type 0 where
  stays :
      Stuck (s.tree.q n) (head_flow flows (s.tree.q n)) m (limit_for b s.write_throttle_limit)
      → ((c : ℕ) → pop_node c flows m n b s ≡ ok (none, s))
      → Taking flows m n b s par top
  sends :
      (wr : FrameWriteRequest) (q' : WriteQueue) (flow' : Option Flow) (t' : Nodes)
      → consume_queue
          (s.tree.q n)
          (head_flow flows (s.tree.q n))
          m
          (limit_for b s.write_throttle_limit)
        ≡ ok (some wr, q', flow')
      → Charged par n (pos (data_size wr)) (record (s.tree) { q = set s.tree.q n q' }) t'
      → ((c : ℕ)
          → top ≤ c
          → pop_node c flows m n b s
            ≡ ok (
              some (wr, flow'),
              record s {
                tree = t';
                write_throttle_limit = throttle b s.enable_write_throttle s.write_throttle_limit;
              },
            ))
      → Taking flows m n b s par top

set_at : (f : ℕ → WriteQueue) (n b : ℕ) → set f n (f n) b ≡ f b
set_at f n b = elim (Bool-cases (n == b)) [
  | inl y ↦ rw (y) (ap f (==→≡ n b y))
  | inr y ↦ rw (y) refl
]

set-id : (f : ℕ → WriteQueue) (n : ℕ) → set f n (f n) ≡ f
set-id f n i b = set_at f n b i

pub pop_node-Taking :
    (flows : ℕ → Option Flow) (m : ℤ) (n : ℕ) (b : Bool) (s : PriorityWriteScheduler)
    (par : ℕ → Option ℕ) (v : IsRanked par)
    → ((a : ℕ) → s.links.parent a ≡ par a)
    → IsFed (s.tree.q n) (head_flow flows (s.tree.q n))
    → Taking flows m n b s par v.top
unfolding pop_node
pop_node-Taking flows m n b s par v same fed =
    elim (consume_queue-Step (s.tree.q n) (head_flow flows (s.tree.q n)) m
      (limit_for b s.write_throttle_limit) fed) [
        | stays x e ↦ stays x (λ c. rw (e, set-id s.tree.q n) refl)
        | sends wr q' flow' e ↦
            let (t', r, q) =
              add_bytes_ends par v s.links same n (pos (data_size wr))
                (record (s.tree) { q = set s.tree.q n q' }) in
            sends wr q' flow' t' e q (λ c i. rw (e, r c i) refl)
      ]
