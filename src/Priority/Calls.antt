-- ===== src/Priority/Calls.antt =====
-- writesched_priority.go: any sequence of calls of the scheduler, from a new one.
use mathlib.Core.List.{Permᴰ}
use h2stream.Prelude.{
  ℕ, ◌+◌, ◌≤◌, ◌≡◌, refl, sym, ◌∙◌, subst, Option, none, some, List, Bool, arith, Run, ok, ◌>>=◌,
}
use h2stream.Prelude.Int.{ℤ, pos, ◌≤ℤ◌}
use h2stream.Flow.{Flow}
use h2stream.WriteQueue.{FrameWriteRequest}
use h2stream.Session.{PriorityParam}
use h2stream.Priority.{Links}
use h2stream.Priority.Chains.{IsForest}
use h2stream.Priority.Order.{Float64}
use h2stream.Priority.Scheduler.{
  PriorityWriteScheduler, Config, default_config, configured, new_priority_write_scheduler, root,
  max_int32, open_stream, close_stream, adjust_stream, push, pop,
}
use h2stream.Priority.Charging.{IsRanked}
use h2stream.Priority.Popping.{IsTree, Popped, all_wait, one_sends, Fed, pop-Popped}
use h2stream.Priority.Keeping.{
  Holds, IsScheduler, Settled, Settles, tree_of, Settles-now, Settles-bind,
}
use h2stream.Priority.Settling.{
  open_stream-Settles, close_stream-Settles, push-Settles, adjust_stream-Settles,
}

abbrev S : Type 0
S = PriorityWriteScheduler

module _ (fl : Float64) (sort : (ℕ → ℕ → Bool) → List ℕ → List ℕ)
    (perm : (r : ℕ → ℕ → Bool) (ks : List ℕ) → Permᴰ (sort r ks) ks) where
  -- The same tree, with other links.
  relinked-Holds :
      (s : S) (l' : Links) (limit : ℤ)
      → IsScheduler s
      → ((a : ℕ) → l'.parent a ≡ s.links.parent a)
      → IsForest l'
      → IsRanked l'.parent
      → pos 1 ≤ℤ limit
      → limit ≤ℤ max_int32
      → Holds l' limit s.fresh s.nodes
  relinked-Holds s l' limit v e f r h k = record {
    forest = f;
    ranked = r;
    positive = h;
    limited = k;
    small = λ a b q. v.small a b (sym (e a) ∙ q);
    known = v.known;
    started = v.started;
    root_top = e root ∙ v.root_top;
    nonroot = v.nonroot;
  }

  Popped-IsScheduler :
      (flows : ℕ → Option Flow) (m : ℤ) (s : S) (o : Option (FrameWriteRequest × Option Flow) × S)
      → IsScheduler s
      → Popped flows m s o
      → IsTree (o.1)
      → IsScheduler (o.1)
  Popped-IsScheduler flows m s _ v (all_wait l' e _) w =
      relinked-Holds s l' s.write_throttle_limit v e w.forest w.ranked w.positive w.limited
  Popped-IsScheduler flows m s _ v (one_sends a b wr q' flow' t' l' i e q k) w =
      relinked-Holds s l' _ v k w.forest w.ranked w.positive w.limited

  -- A call of the scheduler's methods, where Pop is called with what the session knows of its streams.
  pub data Call : Type 0 where
    opens : ℕ → ℕ → Call
    closes : ℕ → Call
    adjusts : ℕ → PriorityParam → Call
    pushes : FrameWriteRequest → Call
    pops : (ℕ → Option Flow) → ℤ → Call

  -- What Pop asks of its caller.
  abbrev pub Legal : Call → S → Type 0
  Legal (pops flows m) s = Fed flows s × (pos 1 ≤ℤ m)
  Legal _ s = Unit

  abbrev pub call : Call → ℕ → S → Run S
  call (opens id pusher) fuel s = open_stream id pusher s
  call (closes id) fuel s = close_stream fuel id s
  call (adjusts id p) fuel s = adjust_stream fuel id p s
  call (pushes wr) fuel s = push wr s
  call (pops flows m) fuel s = pop fl sort fuel flows m s >>= λ (_, s'). ok s'

  call-Settles : (c : Call) (s : S) → IsScheduler s → Legal c s → Settles (λ fuel. call c fuel s)
  call-Settles (opens id pusher) s v h = open_stream-Settles id pusher s v
  call-Settles (closes id) s v h = close_stream-Settles id s v
  call-Settles (adjusts id p) s v h = adjust_stream-Settles id p s v
  call-Settles (pushes wr) s v h = push-Settles wr s v
  call-Settles (pops flows m) s v (fed, h) =
      let (o, r, d, w) = pop-Popped fl sort perm flows m s (tree_of s v) fed h in
      Settles-bind (λ f. pop fl sort f flows m s) (λ _ (_, s'). ok s') o r
        (Settles-now (ok (o.1)) (Popped-IsScheduler flows m s o v d w))

  -- The schedulers that calls lead to from a new one.
  pub data Reaches (cfg : Option Config) : S → Type 0 where
    new : Reaches cfg (new_priority_write_scheduler cfg)
    next :
        (s s' : S) (c : Call)
        → Reaches cfg s
        → Legal c s
        → ((enough : ℕ) × ((fuel : ℕ) → enough ≤ fuel → call c fuel s ≡ ok s'))
        → Reaches cfg s'

  configured-IsScheduler : (cfg : Config) → IsScheduler (configured cfg)
  unfolding configured
  configured-IsScheduler cfg = record {
    forest = record {
      place = λ _. 0;
      bound = 1;
      linked = λ a. record {
        next_back = λ b q. ground arith;
        prev_forth = λ b q. ground arith;
        kids_up = λ b q. ground arith;
        first_kid = λ r q e. ground arith;
        alone = λ q. (refl, refl);
        own_parent = λ q. ground arith;
        ordered = λ b q. ground arith;
      };
      near = λ a. omega arith;
    };
    ranked = record {
      rank = λ _. 0;
      top = 1;
      rises = λ a p q. ground arith;
      under = λ a. omega arith;
    };
    positive = ground arith;
    limited = ground arith;
    small = λ a b q. ground arith;
    known = λ id a q. ground arith;
    started = omega arith;
    root_top = refl;
    nonroot = λ id q. ground arith;
  }

  new-IsScheduler : (cfg : Option Config) → IsScheduler (new_priority_write_scheduler cfg)
  unfolding new_priority_write_scheduler
  new-IsScheduler none = configured-IsScheduler default_config
  new-IsScheduler (some cfg) = configured-IsScheduler cfg

  reached-IsScheduler : (cfg : Option Config) (s : S) → Reaches cfg s → IsScheduler s
  reached-IsScheduler cfg _ new = new-IsScheduler cfg
  reached-IsScheduler cfg _ (next s s' c r h (d, e)) =
      let (x, (d', e'), w) = call-Settles c s (reached-IsScheduler cfg s r) h in
      subst Settled (sym (e' (d + d') (omega arith)) ∙ e (d + d') (omega arith)) w

  -- From a new scheduler, after any calls of its methods that returned, the next call does not run
  -- without end: with enough fuel it panics, or it returns. What it leaves is well-formed: the nodes form
  -- a tree without a cycle, below the root or taken out of the tree, the lists of siblings are right,
  -- the map has nodes that were made, the root for the stream 0 only, and the limit for throttling is
  -- a positive int32. Pop is called with a positive maximal frame size, and int32 windows for the
  -- streams of the requests at the heads of the queues.
  pub reached-Settles :
      (cfg : Option Config) (s : S) (c : Call)
      → Reaches cfg s
      → Legal c s
      → (x : Run S) × ((enough : ℕ) × ((fuel : ℕ) → enough ≤ fuel → call c fuel s ≡ x)) × Settled x
  reached-Settles cfg s c r h = call-Settles c s (reached-IsScheduler cfg s r) h
