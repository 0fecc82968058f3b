-- ===== src/Session/Spending/Popping.antt =====
-- writesched_priority.go, Pop, as the session uses it: every frame that it returns is paid for.
use h2stream.Prelude.{
  ℕ, zero, suc, ◌≡◌, refl, sym, subst, Bool, false, Option, none, some, List, [], ◌∷◌, Run, ok,
  panic, out_of_fuel, ◌>>=◌, Post, Post-bind, Post-any, Post-if,
}
use h2stream.Prelude.Int.{ℤ, pos}
use h2stream.Flow.{Flow}
use h2stream.Flow.Laws.{IsFlow}
use h2stream.WriteQueue.{FrameWriteRequest, WriteQueue, consume_queue, data_size, empty}
use h2stream.Priority.{set, Links, Nodes, add_bytes}
use h2stream.Priority.Order.{Float64, less}
use h2stream.Priority.Walk.{walk, walk_below, walk_kids, open_below, in_order}
use h2stream.Priority.Scheduler.{
  PriorityWriteScheduler, root, head_flow, limit_for, throttle, pop_node, pop,
  priority_write_scheduler,
}
use h2stream.Session.Spending.{PaidBy, Paid, Paying, window_for}
use h2stream.Session.Spending.Splitting.{Taken, IsWindow, consume_queue-Taken}

module _ {S : Type 0} (links : S → Links) (nodes : S → Nodes) (relink : S → Links → S)
    (sort : Nodes → List ℕ → List ℕ) {R : Type 0} (f : ℕ → Bool → S → Run (Option R × S))
    (P : Option R → Type 0) (unfound : P none)
    (found : (n : ℕ) (b : Bool) (s : S) → Post (f n b s) (λ (o, _). P o)) where
  Good : Run (Option R × S) → Type 0
  Good r = Post r (λ (o, _). P o)

  or_else-Good :
      (r : Run (Option R × S)) (k : S → Run (Option R × S))
      → Post r (λ (o, _). P o)
      → ((s : S) → Post (k s) (λ (o, _). P o))
      → Post {A = Option R × S}
          (r >>= λ (o, s). elim o [ some a ↦ ok (some a, s) | none ↦ k s ])
          (λ (o, _). P o)
  or_else-Good r k h j = Post-bind (λ (o, _). P o) _ r _ h (λ (o, s). go o s)
    where
      go :
          (o : Option R) (s : S)
          → P o
          → Post {A = Option R × S}
              (elim o [ some a ↦ ok (some a, s) | none ↦ k s ])
              (λ (o, _). P o)
      go (some a) s x = x
      go none s x = j s

  mutual
    unfolding walk walk_below walk_kids

    -- What holds of every result of the callback holds of the walk's.
    pub walk-Post :
        (fuel n : ℕ) (b : Bool) (s : S)
        → Post (walk links nodes relink sort f fuel n b s) (λ (o, _). P o)
    walk-Post zero n b s = tt
    walk-Post (suc g) n b s =
        or_else-Good _ _
          (Post-if _ (empty ((nodes s).q n)) (ok (none, s)) (f n b s) unfound (found n b s))
          (λ s'. below-Post g n b s' ((links s').kids n))

    below-Post :
        (fuel n : ℕ) (b : Bool) (s : S) (o : Option ℕ)
        → Post (walk_below links nodes relink sort f fuel n b s o) (λ (o, _). P o)
    below-Post zero n b s none = unfound
    below-Post (suc g) n b s none = unfound
    below-Post zero n b s (some k) = tt
    below-Post (suc g) n b s (some k) =
        Post-any _ (in_order links nodes relink sort g n k s) _
          (λ s'. kids-Post g (open_below links nodes relink sort n b s) s' ((links s').kids n))

    kids-Post :
        (fuel : ℕ) (b : Bool) (s : S) (o : Option ℕ)
        → Post (walk_kids links nodes relink sort f fuel b s o) (λ (o, _). P o)
    kids-Post zero b s none = unfound
    kids-Post (suc g) b s none = unfound
    kids-Post zero b s (some k) = tt
    kids-Post (suc g) b s (some k) =
        or_else-Good _ _ (walk-Post g k b s) (λ s'. kids-Post g b s' ((links s').next k))

-- The window is found by the stream of the queue's first request.
module _ (flows : ℕ → Option Flow) (v : (id : ℕ) (f : Flow) → flows id ≡ some f → IsFlow f)
    (m : ℤ) where
  abbrev Pays : Option FrameWriteRequest → Option Flow → Type 0
  Pays none out = Unit {0}
  Pays (some w) out = PaidBy (window_for flows w.stream) w out

  window_for-IsWindow : (o : Option ℕ) → IsWindow (window_for flows o)
  window_for-IsWindow none = tt
  window_for-IsWindow (some id) = go (flows id) refl
    where
      go : (x : Option Flow) → flows id ≡ x → IsWindow x
      go none e = tt
      go (some f) e = v id f e

  head :
      (wr : FrameWriteRequest) (q : WriteQueue)
      → head_flow flows (wr ∷ q) ≡ window_for flows wr.stream
  head wr q = go wr.stream
    where
      go : (o : Option ℕ) → head_flow flows (record wr { stream = o } ∷ q) ≡ window_for flows o
      go none = refl
      go (some id) = refl

  queue-Pays :
      (n : ℤ) (q : WriteQueue)
      → Post (consume_queue q (head_flow flows q) m n) (λ (o, _, out). Pays o out)
  unfolding consume_queue
  queue-Pays n [] = tt
  queue-Pays n (wr ∷ q) = rw (head wr q) (
      widen (consume_queue (wr ∷ q) (window_for flows wr.stream) m n)
        (consume_queue-Taken wr q (window_for flows wr.stream) m n (window_for-IsWindow wr.stream)))
    where
      same :
          (o : Option FrameWriteRequest) (out : Option Flow)
          → Taken (window_for flows wr.stream) wr.stream o out
          → Pays o out
      same none out h = tt
      same (some w) out (e, h) = subst (λ o. PaidBy (window_for flows o) w out) (sym e) h

      widen :
          (r : Run (Option FrameWriteRequest × WriteQueue × Option Flow))
          → Post r (λ (o, _, out). Taken (window_for flows wr.stream) wr.stream o out)
          → Post r (λ (o, _, out). Pays o out)
      widen (ok (o, q', out)) h = same o out h
      widen panic h = tt
      widen out_of_fuel h = tt

  pop_node-Paid :
      (fuel n : ℕ) (b : Bool) (s : PriorityWriteScheduler)
      → Post (pop_node fuel flows m n b s) (λ (o, _). Paid flows o)
  unfolding pop_node
  pop_node-Paid fuel n b s =
      Post-bind _ _ (consume_queue (s.tree.q n) (head_flow flows (s.tree.q n)) m _) _
        (queue-Pays (limit_for b s.write_throttle_limit) (s.tree.q n))
        (λ (o, q, out) h. go o q out h)
    where
      go :
          (o : Option FrameWriteRequest) (q : WriteQueue) (out : Option Flow)
          → Pays o out
          → Post {A = Option (FrameWriteRequest × Option Flow) × PriorityWriteScheduler}
              (elim o [
                | none ↦ ok (none, record s { tree = record (s.tree) { q = set s.tree.q n q } })
                | some wr ↦
                    add_bytes fuel s.links n
                      (pos (data_size wr))
                      (record (s.tree) { q = set s.tree.q n q })
                    >>= λ t'. ok (
                      some (wr, out),
                      record s {
                        tree = t';
                        write_throttle_limit =
                            throttle b s.enable_write_throttle s.write_throttle_limit;
                      },
                    )
              ])
              (λ (o, _). Paid flows o)
      go none q out h = tt
      go (some wr) q out h =
          Post-any _ (add_bytes fuel s.links n (pos (data_size wr)) _) _ (λ t'. h)

-- Whatever the tree and the order of the siblings, if the streams' windows are int32 values, a frame
-- that Pop returns carries no more DATA than its stream's window and the connection's allow, and both
-- are returned less by exactly its bytes. Without a stream, the frame carries no DATA.
pub pop-Paid :
    (fl : Float64) (sort : (ℕ → ℕ → Bool) → List ℕ → List ℕ) (fuel : ℕ) (flows : ℕ → Option Flow)
    (m : ℤ) (s : PriorityWriteScheduler)
    → ((id : ℕ) (f : Flow) → flows id ≡ some f → IsFlow f)
    → Post (pop fl sort fuel flows m s) (λ (o, _). Paid flows o)
unfolding pop
pop-Paid fl sort fuel flows m s v =
    walk-Post (λ t. t.links) (λ t. t.tree) (λ t l. record t { links = l }) (λ ns. sort (less fl ns))
      (pop_node fuel flows m) (Paid flows) tt (pop_node-Paid flows v m fuel) fuel root false s

-- The priority write scheduler consumes what it pops.
pub priority-Paying :
    (fl : Float64) (sort : (ℕ → ℕ → Bool) → List ℕ → List ℕ) (fuel : ℕ)
    → Paying (priority_write_scheduler fl sort fuel)
priority-Paying fl sort fuel = record { pop_pays = pop-Paid fl sort fuel }
