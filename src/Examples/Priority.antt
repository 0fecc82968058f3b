-- ===== src/Examples/Priority.antt =====
-- writesched_priority.go at concrete inputs: the root and the nodes 1 and 2 of two streams.
use mathlib.Core.List.Permᴰ
use h2stream.Prelude.{
  ◌≢◌, ◌++◌, panic, ℕ, zero, suc, ◌≤◌, ◌≡◌, refl, Option, none, some, [], ◌∷◌, true, false, not,
  arith, Run, ok,
}
use h2stream.Prelude.Int.{ℤ, pos, ltb_ℤ}
use h2stream.Flow
use h2stream.WriteQueue
use h2stream.Priority
use h2stream.Priority.Walk
use h2stream.Flow.{Flow}
use h2stream.Frame.{write_data}
use h2stream.WriteQueue.{FrameWriteRequest, WriteQueue}
use h2stream.Priority.{set, NodeState, opened, Links, Nodes, set_parent}
use h2stream.Priority.Siblings.{IsLinked}
use h2stream.Priority.Moving.{Moved, set_parent-Moved}
use h2stream.Priority.Chains.{IsForest}
use h2stream.Priority.Order.{Float64}
use h2stream.Priority.Scheduler.{PriorityWriteScheduler, root, pop, configured, zero_nodes}
use h2stream.Priority.Charging.{IsRanked, Below}
use h2stream.Priority.Removing.{remove_node_loses, evicted_stream-panic}
use h2stream.Priority.Adjusting.{Adjusted, adjust_node-Adjusted}
use h2stream.Priority.Keeping.{Settled}
use h2stream.Priority.Calls.{adjusts, call, new, reached-Settles}
use h2stream.Priority.Scheduler.{
  adjust_node, remove_node, add_closed_or_idle_node, close_stream, new_priority_write_scheduler,
}
use h2stream.Priority.Popping.{IsTree, Popped, Fed, pop-Popped}

abbrev links : Links
links = record {
  parent = set (set (λ _. none) 1 (some 0)) 2 (some 0);
  kids = set (λ _. none) 0 (some 2);
  prev = set (λ _. none) 1 (some 2);
  next = set (λ _. none) 2 (some 1);
}

abbrev place : ℕ → ℕ
place = set (λ _. 0) 1 1

links-IsLinked : IsLinked links place
links-IsLinked a = record {
  next_back = λ b q. ground arith;
  prev_forth = λ b q. ground arith;
  kids_up = λ b q. ground arith;
  first_kid = λ r q s. ground arith;
  alone = λ q. ground arith;
  own_parent = λ q. ground arith;
  ordered = λ b q. ground arith;
}

-- Node 1 moves below node 2.
set_parent-Moved_example :
    (l' : Links) × (set_parent links 1 (some 2) ≡ ok l') × Moved links place 1 (some 2) l'
set_parent-Moved_example =
    set_parent-Moved links place 1 (some 2) links-IsLinked (λ e. ground (arith, e))

links-IsForest : IsForest links
links-IsForest = record {
  place = place;
  bound = 2;
  linked = links-IsLinked;
  near = λ a. ground arith;
}

links-IsRanked : IsRanked links.parent
links-IsRanked = record {
  rank = set (λ _. 0) 0 1;
  top = 2;
  rises = λ a p q. ground arith;
  under = λ a. ground arith;
}

abbrev pub request : FrameWriteRequest
request = record {
  write = some (write_data 1 (7 ∷ 8 ∷ 9 ∷ []) true);
  stream = some 1;
  done = some 0;
}

-- The node 1 has a frame to send, and the nodes have different weights.
abbrev pub scheduler : PriorityWriteScheduler
scheduler =
    record (configured (record {
      max_closed_nodes_in_tree = 10;
      max_idle_nodes_in_tree = 10;
      throttle_out_of_order_writes = true;
    })) {
      links = links;
      tree = record zero_nodes {
        q = set (λ _. []) 1 (request ∷ []);
        id = set (set (λ _. 0) 1 1) 2 3;
        weight = set (set (λ _. 0) 1 15) 2 200;
      };
      fresh = 3;
      nodes = set (set (set (λ _. none) 0 (some 0)) 1 (some 1)) 3 (some 2);
      max_id = 3;
    }

pub scheduler-IsTree : IsTree scheduler
unfolding configured
scheduler-IsTree = record {
  forest = links-IsForest;
  ranked = links-IsRanked;
  positive = omega arith;
  limited = omega arith;
}

abbrev pub flows : ℕ → Option Flow
flows = set (λ _. none) 1 (some (record { n = pos 100; conn = some (pos 2) }))

scheduler-Fed : Fed flows scheduler
unfolding configured
scheduler-Fed zero = tt
scheduler-Fed (suc zero) = omega arith
scheduler-Fed (suc (suc n)) =
    let none_here : scheduler.tree.q (suc (suc n)) ≡ [] = ground arith in rw none_here tt

-- Floating-point numbers, of which only integers are compared here.
abbrev pub floats : Float64
floats = record { F = ℤ; float = λ z. z; div = λ a b. a; leb_F = λ a b. not (ltb_ℤ b a) }

pop-Popped_example :
    (o : Option (FrameWriteRequest × Option Flow) × PriorityWriteScheduler) × ((enough : ℕ)
      × ((fuel : ℕ)
          → enough ≤ fuel
          → pop floats (λ r ks. ks) fuel flows (pos 16384) scheduler ≡ ok o))
    × Popped flows (pos 16384) scheduler o
    × IsTree (o.1)
pop-Popped_example =
    pop-Popped floats (λ r ks. ks) (λ r ks. Permᴰ.refl ks) flows (pos 16384) scheduler
      scheduler-IsTree scheduler-Fed (omega arith)

-- A run with fuel that is enough: the frame of node 1, within the window of the connection.

apart : ◌≢◌ {A = ℕ} 1 2
apart e = omega (arith, e)

-- Stream 1 becomes the sole dependency of stream 3.
adjust_node-Adjusted_example :
    (s' : PriorityWriteScheduler) × ((enough : ℕ) × ((fuel : ℕ)
        → enough ≤ fuel
        → adjust_node fuel scheduler 1 (record { stream_dep = 3; exclusive = true; weight = 7 })
          ≡ ok s'))
    × Adjusted scheduler 1
        (record { stream_dep = 3; exclusive = true; weight = 7 })
        2
        scheduler-IsTree
        apart
        s'
adjust_node-Adjusted_example =
    adjust_node-Adjusted scheduler 1 (record { stream_dep = 3; exclusive = true; weight = 7 }) 2
      scheduler-IsTree apart refl

-- The node 1 has the kids 3 and 2.
abbrev family : Links
family = record {
  parent = set (set (set (λ _. none) 1 (some 0)) 2 (some 1)) 3 (some 1);
  kids = set (set (λ _. none) 0 (some 1)) 1 (some 3);
  prev = set (λ _. none) 2 (some 3);
  next = set (λ _. none) 3 (some 2);
}

family-AtNode : IsLinked family (set (λ _. 0) 2 1)
family-AtNode a = record {
  next_back = λ b q. ground arith;
  prev_forth = λ b q. ground arith;
  kids_up = λ b q. ground arith;
  first_kid = λ r q s. ground arith;
  alone = λ q. ground arith;
  own_parent = λ q. ground arith;
  ordered = λ b q. ground arith;
}

abbrev family_scheduler : PriorityWriteScheduler
family_scheduler = record scheduler {
  links = family;
  tree = record (scheduler.tree) { id = set (set (set (λ _. 0) 1 1) 2 3) 3 5 };
  fresh = 4;
}

family-IsTree : IsTree family_scheduler
unfolding configured
family-IsTree = record {
  forest = record {
    place = set (λ _. 0) 2 1;
    bound = 2;
    linked = family-AtNode;
    near = λ a. ground arith;
  };
  ranked = record {
    rank = set (set (λ _. 0) 0 2) 1 1;
    top = 3;
    rises = λ a p q. ground arith;
    under = λ a. ground arith;
  };
  positive = omega arith;
  limited = omega arith;
}

remove_node_loses_example :
    (s' : PriorityWriteScheduler) × ((enough : ℕ) × ((fuel : ℕ)
        → enough ≤ fuel
        → remove_node fuel family_scheduler 1 ≡ ok s'))
    × ¬ Below s'.links.parent root 2
remove_node_loses_example =
    remove_node_loses family_scheduler 1 3 2 family-IsTree (λ e. ground (arith, e)) refl refl refl

evicted_stream-panic_example :
    (s' : PriorityWriteScheduler) × ((enough : ℕ) × ((fuel : ℕ)
        → enough ≤ fuel
        → add_closed_or_idle_node fuel (1 ∷ []) 1 2 scheduler ≡ ok ([] ++ 2 ∷ [], s')))
    × ((fuel : ℕ) → close_stream fuel (scheduler.tree.id 1) s' ≡ panic)
evicted_stream-panic_example = evicted_stream-panic scheduler 1 2 1 [] scheduler-IsTree refl

-- A first AdjustStream.
reached-Settles_example :
    (x : Run PriorityWriteScheduler) × ((enough : ℕ) × ((fuel : ℕ)
        → enough ≤ fuel
        → call floats
            (λ r ks. ks)
            (λ r ks. Permᴰ.refl ks)
            (adjusts 5 (record { stream_dep = 3; exclusive = true; weight = 7 }))
            fuel
            (new_priority_write_scheduler none)
          ≡ x))
    × Settled x
reached-Settles_example =
    reached-Settles floats (λ r ks. ks) (λ r ks. Permᴰ.refl ks) none
      (new_priority_write_scheduler none)
      (adjusts 5 (record { stream_dep = 3; exclusive = true; weight = 7 })) new tt

-- What Pop sends here: two bytes, all that the connection's window allows.
abbrev sent :
    Run (Option (FrameWriteRequest × Option Flow) × PriorityWriteScheduler)
    → Option FrameWriteRequest
sent (ok (some (wr, _), _)) = some wr
sent _ = none

pop_test :
    sent (pop floats (λ r ks. ks) 10 flows (pos 16384) scheduler)
    ≡ some (record { write = some (write_data 1 (7 ∷ 8 ∷ []) false); stream = some 1; done = none })
unfolding pop configured Walk.walk WriteQueue.empty Walk.in_order Walk.need_sort Walk.detach
    set_parent Walk.attach WriteQueue.consume_queue WriteQueue.consume WriteQueue.allowed
    Flow.available Flow.take Priority.add_bytes
pop_test = refl
