-- ===== src/Examples/Order.antt =====
-- A request that is pushed behind another one of its stream, and a frame that is popped.
use mathlib.Core.List.Permᴰ
use h2stream.Prelude.{ℕ, zero, suc, ◌≤◌, ◌≡◌, refl, Option, [], ◌++◌, arith, ok}
use h2stream.Prelude.Int.{pos}
use h2stream.Flow.{Flow}
use h2stream.WriteQueue
use h2stream.WriteQueue.{FrameWriteRequest, stream_id}
use h2stream.WriteQueue.Content.{content, items_for, taken}
use h2stream.Priority.{set}
use h2stream.Priority.Scheduler.{PriorityWriteScheduler, configured, push, pop}
use h2stream.Priority.Popping.{IsTree, Fed, pop-Popped}
use h2stream.Priority.Fifo.{Owns, request as sent, none_yet, pushed, popped, push_pop-fifo}
use h2stream.Examples.Priority.{scheduler, scheduler-IsTree, flows, floats, request}

abbrev two : PriorityWriteScheduler
two = record scheduler {
  tree = record (scheduler.tree) {
    q = set scheduler.tree.q 1 (WriteQueue.push (scheduler.tree.q 1) request);
  };
}

two-pushed : push request scheduler ≡ ok two
unfolding push stream_id configured
two-pushed = refl

two-IsTree : IsTree two
unfolding configured
two-IsTree = record {
  forest = scheduler-IsTree.forest;
  ranked = scheduler-IsTree.ranked;
  positive = scheduler-IsTree.positive;
  limited = scheduler-IsTree.limited;
}

two-Fed : Fed flows two
unfolding configured WriteQueue.push
two-Fed zero = tt
two-Fed (suc zero) = omega arith
two-Fed (suc (suc n)) =
    let none_here : two.tree.q (suc (suc n)) ≡ [] = ground arith in rw none_here tt

scheduler-Owns : Owns 1 1 scheduler
unfolding configured
scheduler-Owns =
    (refl, λ b other. let here : scheduler.tree.q b ≡ [] = ground (arith, other) in rw here refl)

abbrev outcome :
    (x : Option (FrameWriteRequest × Option Flow) × PriorityWriteScheduler) × ((enough : ℕ)
      × ((fuel : ℕ) → enough ≤ fuel → pop floats (λ r ks. ks) fuel flows (pos 16384) two ≡ ok x))
outcome =
    let r =
      pop-Popped floats (λ r ks. ks) (λ r ks. Permᴰ.refl ks) flows (pos 16384) two two-IsTree
        two-Fed (omega arith) in
    (r.0, r.1)

push_pop-fifo_example :
    (([] ++ taken 1 (sent ((outcome.0).0))) ++ content 1 (((outcome.0).1).tree.q 1)
      ≡ content 1 (scheduler.tree.q 1) ++ ([] ++ items_for 1 request))
    × Owns 1 1 ((outcome.0).1)
    × IsTree ((outcome.0).1)
push_pop-fifo_example =
    push_pop-fifo floats (λ r ks. ks) (λ r ks. Permᴰ.refl ks) 1 1 scheduler ((outcome.0).1)
      ([] ++ items_for 1 request) ([] ++ taken 1 (sent ((outcome.0).0))) (omega arith)
      scheduler-Owns scheduler-IsTree
      (popped flows (pos 16384) ((outcome.0).0) (pushed request none_yet two-pushed) two-Fed
        (omega arith) (outcome.1))
