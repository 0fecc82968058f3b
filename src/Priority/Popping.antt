-- ===== src/Priority/Popping.antt =====
-- writesched_priority.go, Pop: it returns, and what it takes.
use mathlib.Core.List.{Permᴰ}
use h2stream.Prelude.{
  ℕ, suc, ◌≤◌, ◌≡◌, ◌⊎◌, inl, inr, refl, sym, ◌∙◌, Option, none, some, List, [], Bool, true, false,
  arith, ok,
}
use h2stream.Prelude.Int.{ℤ, pos, ◌≤ℤ◌, wrap32, ◌+ℤ◌, ◌-ℤ◌}
use h2stream.Flow
use h2stream.Flow.{Flow}
use h2stream.WriteQueue.{FrameWriteRequest, WriteQueue, consume_queue, data_size, allowed}
use h2stream.Priority.{set, Links, Nodes}
use h2stream.Priority.Chains.{IsForest}
use h2stream.Priority.Order.{Float64, less}
use h2stream.Priority.Scheduler.{
  PriorityWriteScheduler, root, max_int32, head_flow, limit_for, throttle, pop,
}
use h2stream.Priority.Charging.{IsRanked, Below, Charged}
use h2stream.Priority.Taking.{IsFed, CarriesBytes, Stuck}
use h2stream.Priority.Visiting.{Visited, idles, takes, walk-Walked}

-- The nodes form a tree, and the limit for throttling is a positive int32.
pub record IsTree (s : PriorityWriteScheduler) : Type 0 where
  pub forest : IsForest s.links
  pub ranked : IsRanked s.links.parent
  pub positive : pos 1 ≤ℤ s.write_throttle_limit
  pub limited : s.write_throttle_limit ≤ℤ max_int32

-- The queue is empty, or its head is a DATA frame with bytes, and flow control leaves none for it.
abbrev pub Waits : WriteQueue → Option Flow → Type 0
Waits q flow =
    (q ≡ []) ⊎ (CarriesBytes q × (f : Flow) × (flow ≡ some f) × (Flow.available f ≤ℤ pos 0))

stuck→Waits :
    (q : WriteQueue) (flow : Option Flow) (m n : ℤ)
    → pos 1 ≤ℤ m
    → pos 1 ≤ℤ n
    → Stuck q flow m n
    → Waits q flow
unfolding allowed
stuck→Waits q flow m n h k (inl e) = inl e
stuck→Waits q flow m n h k (inr (d, f, e, x)) = inr (d, f, e, ground (arith, h, k, x))

limit_for_bounds : (b : Bool) (limit : ℤ) → pos 1 ≤ℤ limit → pos 1 ≤ℤ limit_for b limit
limit_for_bounds true limit h = h
limit_for_bounds false limit h = omega arith

-- The limit stays a positive int32.
throttle_bounds :
    (b enabled : Bool) (limit : ℤ)
    → pos 1 ≤ℤ limit
    → limit ≤ℤ max_int32
    → (pos 1 ≤ℤ throttle b enabled limit) × (throttle b enabled limit ≤ℤ max_int32)
unfolding throttle wrap32 ◌+ℤ◌ ◌-ℤ◌
throttle_bounds true enabled limit h k = ground (arith, h, k)
throttle_bounds false true limit h k = (omega arith, omega arith)
throttle_bounds false false limit h k = (h, k)

pub data Popped (flows : ℕ → Option Flow) (m : ℤ) (s : PriorityWriteScheduler)
    : Option (FrameWriteRequest × Option Flow) × PriorityWriteScheduler → Type 0 where
  all_wait :
      (l' : Links)
      → ((a : ℕ) → l'.parent a ≡ s.links.parent a)
      → ((a : ℕ) → Below s.links.parent root a → Waits (s.tree.q a) (head_flow flows (s.tree.q a)))
      → Popped flows m s (none, record s { links = l' })
  one_sends :
      (a : ℕ) (b : Bool) (wr : FrameWriteRequest) (q' : WriteQueue) (flow' : Option Flow)
      (t' : Nodes) (l' : Links)
      → Below s.links.parent root a
      → consume_queue
          (s.tree.q a)
          (head_flow flows (s.tree.q a))
          m
          (limit_for b s.write_throttle_limit)
        ≡ ok (some wr, q', flow')
      → Charged s.links.parent a (pos (data_size wr)) (record (s.tree) { q = set s.tree.q a q' }) t'
      → ((a : ℕ) → l'.parent a ≡ s.links.parent a)
      → Popped flows m s (
        some (wr, flow'),
        record s {
          links = l';
          tree = t';
          write_throttle_limit = throttle b s.enable_write_throttle s.write_throttle_limit;
        },
      )

-- Other links with the same parents.
relinked-IsRanked :
    (l l' : Links) → ((a : ℕ) → l'.parent a ≡ l.parent a) → IsRanked l.parent → IsRanked l'.parent
relinked-IsRanked l l' e v = record {
  rank = v.rank;
  top = v.top;
  rises = λ a p q. v.rises a p (sym (e a) ∙ q);
  under = v.under;
}

-- The streams of the requests at the heads of the queues have int32 windows.
abbrev pub Fed : (ℕ → Option Flow) → PriorityWriteScheduler → Type 0
Fed flows s = (n : ℕ) → IsFed (s.tree.q n) (head_flow flows (s.tree.q n))

module _ (fl : Float64) (sort : (ℕ → ℕ → Bool) → List ℕ → List ℕ)
    (perm : (r : ℕ → ℕ → Bool) (ks : List ℕ) → Permᴰ (sort r ks) ks) where
  abbrev Out : Type 0
  Out = Option (FrameWriteRequest × Option Flow) × PriorityWriteScheduler

  -- On a well-formed tree, with a positive maximal frame size, heads of queues whose streams have
  -- int32 windows, and whatever order of siblings, Pop with enough fuel returns without a panic. Either
  -- it takes one frame by consume from the queue of one node of the tree, under one of the two limits
  -- of its code, every other queue is as before, and the frame's bytes are added to the bytes of that
  -- node and to the subtree bytes of it and of every node above it, once each, and to no others; or it
  -- returns no frame, changes the links only, and every queue in the tree is empty, or its head is a
  -- DATA frame with bytes and the windows leave none for it. Every node keeps its parent, the tree
  -- stays well-formed, and the limit for throttling a positive int32.
  pub pop-Popped :
      (flows : ℕ → Option Flow) (m : ℤ) (s : PriorityWriteScheduler)
      → IsTree s
      → Fed flows s
      → pos 1 ≤ℤ m
      → (o : Out) × ((enough : ℕ) × ((fuel : ℕ)
            → enough ≤ fuel
            → pop fl sort fuel flows m s ≡ ok o))
        × Popped flows m s o
        × IsTree (o.1)
  unfolding pop
  pop-Popped flows m s v fed h =
      let (o, (e, r), d) =
        walk-Walked (λ ns. sort (less fl ns)) (λ ns ks. perm (less fl ns) ks) flows m s
          s.links.parent v.ranked fed (suc (v.ranked.rank root)) root false s.links (omega arith)
          (v.forest, λ a. refl) in
      let (x, y) = outcome o d in (o, (e, λ fuel i. r fuel fuel i i), x, y)
    where
      outcome :
          (o : Out)
          → Visited
              (λ ns. sort (less fl ns))
              (λ ns ks. perm (less fl ns) ks)
              flows
              m
              s
              s.links.parent
              v.ranked
              fed
              (Below s.links.parent root)
              root
              s.links
              o
          → Popped flows m s o × IsTree (o.1)
      outcome _ (idles l' (w, e) stuck out) = (
        all_wait l' e (λ a i.
            let (b, j) = stuck a i in
            stuck→Waits _ _ m (limit_for b s.write_throttle_limit) h
              (limit_for_bounds b s.write_throttle_limit v.positive) j),
        record {
          forest = w;
          ranked = relinked-IsRanked s.links l' e v.ranked;
          positive = v.positive;
          limited = v.limited;
        },
      )
      outcome _ (takes a b wr q' flow' t' l' i e q (w, k)) =
          let (x, y) =
            throttle_bounds b s.enable_write_throttle s.write_throttle_limit v.positive v.limited in
          (
            one_sends a b wr q' flow' t' l' i e q k,
            record {
              forest = w;
              ranked = relinked-IsRanked s.links l' k v.ranked;
              positive = x;
              limited = y;
            },
          )
