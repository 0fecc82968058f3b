-- ===== src/Priority/Fifo.antt =====
-- writesched_priority.go, Push and Pop: each stream's requests come out in the order in which they went
-- in.
use mathlib.Core.List.{Permᴰ}
use h2stream.Prelude.{
  ℕ, ◌+◌, ◌≤◌, ◌≡◌, ◌≢◌, refl, sym, ap, ◌∙◌, subst, Bool, true, false, Option, none, some, List, [],
  ◌∷◌, ◌++◌, append_assoc, append-nil, ◌==◌, ==→≡, ltb, if◌then◌else◌, arith, Bool-cases,
  Option-cases, inl, inr, Run, ok, panic, Post, Post-ok, Post-if_known,
}
use h2stream.Prelude.Int.{ℤ, pos, ◌≤ℤ◌}
use h2stream.Flow.{Flow}
use h2stream.WriteQueue
use h2stream.WriteQueue.{FrameWriteRequest, WriteQueue, stream_id, data_size, consume_queue}
use h2stream.WriteQueue.Content.{
  Item, items_for, content, taken, consume_queue-content, content-push,
}
use h2stream.Priority.{set}
use h2stream.Priority.Chains.{IsForest}
use h2stream.Priority.Charging.{IsRanked}
use h2stream.Priority.Order.{Float64}
use h2stream.Priority.Scheduler.{
  PriorityWriteScheduler, root, max_int32, head_flow, limit_for, push, pop,
}
use h2stream.Priority.Popping.{IsTree, Popped, all_wait, one_sends, Fed, pop-Popped}

abbrev S : Type 0
S = PriorityWriteScheduler

-- The stream `k` has the node `a`, and no other node has requests of it.
abbrev pub Owns : ℕ → ℕ → S → Type 0
Owns k a s = (s.nodes k ≡ some a) × ((b : ℕ) → b ≢ a → content k (s.tree.q b) ≡ [])

abbrev pub request : Option (FrameWriteRequest × Option Flow) → Option FrameWriteRequest
request none = none
request (some (wr, _)) = some wr

node_same : (n a : ℕ) → ◌≡◌ {A = Option ℕ} (some n) (some a) → n ≡ a
node_same n a h = cc

no_node : (a : ℕ) → ◌≢◌ {A = Option ℕ} none (some a)
no_node a h = cc

items_for-other :
    (k : ℕ) (wr : FrameWriteRequest) → (stream_id wr == k) ≡ false → items_for k wr ≡ []
items_for-other k wr e = rw e refl

both_empty : (xs ys : List Item) → xs ++ ys ≡ [] → (xs ≡ []) × (ys ≡ [])
both_empty [] ys h = (refl, h)
both_empty (x ∷ xs) ys h = absurd (cc)

-- What a call leaves, where the node of `k` has its content from before and some items more.
abbrev Gains : ℕ → ℕ → S → List Item → S → Type 0
Gains k a s xs u = Owns k a u × (content k (u.tree.q a) ≡ content k (s.tree.q a) ++ xs) × IsTree u

pushed_at :
    (k b n : ℕ) (wr : FrameWriteRequest) (q : ℕ → WriteQueue)
    → content k (set q n (WriteQueue.push (q n) wr) b)
      ≡ content k (q b) ++ (if n == b then items_for k wr else [])
pushed_at k b n wr q = elim (Bool-cases (n == b)) [
  | inl e ↦
      let same = ==→≡ n b e in
      rw e (content-push k (q n) wr ∙ ap (λ j. content k (q j) ++ items_for k wr) same)
  | inr e ↦ rw e (sym (append-nil (content k (q b))))
]

-- Elsewhere than at the node of its stream, a request has no items of the stream.
none_at :
    (k a n b : ℕ) (wr : FrameWriteRequest)
    → ((stream_id wr == k) ≡ true → n ≡ a)
    → b ≢ a
    → (if n == b then items_for k wr else []) ≡ []
none_at k a n b wr at other = elim (Bool-cases (n == b)) [
  | inr e ↦ rw e refl
  | inl e ↦ rw e (elim (Bool-cases (stream_id wr == k)) [
    | inl y ↦ absurd (other (sym (==→≡ n b e) ∙ at y))
    | inr y ↦ items_for-other k wr y
  ])
]

all_at :
    (k a n : ℕ) (wr : FrameWriteRequest)
    → ((stream_id wr == k) ≡ true → n ≡ a)
    → (if n == a then items_for k wr else []) ≡ items_for k wr
all_at k a n wr at = elim (Bool-cases (n == a)) [
  | inl e ↦ rw e refl
  | inr e ↦ rw e (elim (Bool-cases (stream_id wr == k)) [
    | inl y ↦ absurd (ground (arith, at y, e))
    | inr y ↦ sym (items_for-other k wr y)
  ])
]

relinked-IsTree :
    (s u : S)
    → u.links ≡ s.links
    → u.write_throttle_limit ≡ s.write_throttle_limit
    → IsTree s
    → IsTree u
relinked-IsTree s u e f v = record {
  forest = subst IsForest (sym e) v.forest;
  ranked = subst (λ l. IsRanked l.parent) (sym e) v.ranked;
  positive = subst (λ z. pos 1 ≤ℤ z) (sym f) v.positive;
  limited = subst (λ z. z ≤ℤ max_int32) (sym f) v.limited;
}

queued_at :
    (k a n : ℕ) (wr : FrameWriteRequest) (s : S)
    → Owns k a s
    → IsTree s
    → ((stream_id wr == k) ≡ true → n ≡ a)
    → Gains k a s (items_for k wr) (record s {
      tree = record (s.tree) { q = set s.tree.q n (WriteQueue.push (s.tree.q n) wr) };
    })
queued_at k a n wr s (own, apart) v at = (
  (
    own,
    λ b other.
        pushed_at k b n wr s.tree.q
        ∙ ap (λ l. l ++ (if n == b then items_for k wr else [])) (apart b other)
        ∙ none_at k a n b wr at other,
  ),
  pushed_at k a n wr s.tree.q ∙ ap (◌++◌ (content k (s.tree.q a))) (all_at k a n wr at),
  relinked-IsTree s _ refl refl v,
)

push-Gains :
    (k a : ℕ) (wr : FrameWriteRequest) (s : S)
    → 1 ≤ k
    → Owns k a s
    → IsTree s
    → Post (push wr s) (Gains k a s (items_for k wr))
unfolding push
push-Gains k a wr s pos_k (own, apart) v =
    let P = Gains k a s (items_for k wr) in
    Post-if_known P (stream_id wr == 0) _ _
      (λ z. queued_at k a root wr s (own, apart) v (λ y. absurd (ground (arith, z, y, pos_k))))
      (λ _. elim (Option-cases (s.nodes (stream_id wr))) [
        | inr (n, e) ↦ rw e (
            queued_at k a n wr s (own, apart) v
              (λ y. node_same n a (sym e ∙ ap s.nodes (==→≡ (stream_id wr) k y) ∙ own)))
        | inl e ↦ rw e (
            Post-if_known P (ltb 0 (data_size wr)) panic _ (λ _. tt)
              (λ _.
                queued_at k a root wr s (own, apart) v
                  (λ y. absurd (no_node a (sym e ∙ ap s.nodes (==→≡ (stream_id wr) k y) ∙ own)))))
      ])

-- What Pop takes is the front of the content of its stream's node.
front_content :
    (k a : ℕ) (flows : ℕ → Option Flow) (m : ℤ) (s : S)
    (o : Option (FrameWriteRequest × Option Flow) × S)
    → Owns k a s
    → Popped flows m s o
    → Owns k a (o.1)
      × (taken k (request (o.0)) ++ content k ((o.1).tree.q a) ≡ content k (s.tree.q a))
front_content k a flows m s _ own (all_wait l' _ _) = (own, refl)
front_content k a flows m s _ (own, apart) (one_sends b d wr q' flow' t' l' i e charged p) =
    let front : taken k (some wr) ++ content k q' ≡ content k (s.tree.q b) =
      Post-ok (λ (o, r, f). taken k o ++ content k r ≡ content k (s.tree.q b)) _ _
        (consume_queue-content k (s.tree.q b) (head_flow flows (s.tree.q b)) m
          (limit_for d s.write_throttle_limit))
        e in
    elim (Bool-cases (b == a)) [
      | inl y ↦
          let same = ==→≡ b a y in
          (
            (
              own,
              λ c other. rw charged.same_q (elim (Bool-cases (b == c)) [
                | inl z ↦ absurd (other (sym (==→≡ b c z) ∙ same))
                | inr z ↦ rw z (apart c other)
              ]),
            ),
            rw (charged.same_q, y) (front ∙ ap (λ j. content k (s.tree.q j)) same),
          )
      | inr n ↦
          let other_node : b ≢ a = λ h. absurd (ground (arith, n, h)) in
          let (x, z) = both_empty _ _ (front ∙ apart b other_node) in
          (
            (
              own,
              λ c other.
                  rw charged.same_q
                    (elim (Bool-cases (b == c)) [ inl w ↦ rw w z | inr w ↦ rw w (apart c other) ]),
            ),
            rw (charged.same_q, n) (ap (λ l. l ++ content k (s.tree.q a)) x),
          )
    ]

module _ (fl : Float64) (sort : (ℕ → ℕ → Bool) → List ℕ → List ℕ)
    (perm : (r : ℕ → ℕ → Bool) (ks : List ℕ) → Permᴰ (sort r ks) ks) where
  -- Calls of Push and Pop that return, with the items of the stream `k` that go in and come out. Pop is
  -- called with enough fuel, a positive maximal frame size, and int32 windows for the streams of the
  -- requests at the heads of the queues.
  pub data Exchange (k : ℕ) (s : S) : List Item → List Item → S → Type 0 where
    none_yet : Exchange k s [] [] s
    pushed :
        {i o : List Item} {t u : S} (wr : FrameWriteRequest)
        → Exchange k s i o t
        → push wr t ≡ ok u
        → Exchange k s (i ++ items_for k wr) o u
    popped :
        {i o : List Item} {t u : S} (flows : ℕ → Option Flow) (m : ℤ)
        (x : Option (FrameWriteRequest × Option Flow))
        → Exchange k s i o t
        → Fed flows t
        → pos 1 ≤ℤ m
        → ((enough : ℕ) × ((fuel : ℕ) → enough ≤ fuel → pop fl sort fuel flows m t ≡ ok (x, u)))
        → Exchange k s i (o ++ taken k (request x)) u

  abbrev Kept : ℕ → ℕ → S → List Item → List Item → S → Type 0
  Kept k a s i o u =
      (o ++ content k (u.tree.q a) ≡ content k (s.tree.q a) ++ i) × Owns k a u × IsTree u

  result_same :
      (x y : Option (FrameWriteRequest × Option Flow) × S)
      → ◌≡◌ {A = Run (Option (FrameWriteRequest × Option Flow) × S)} (ok x) (ok y)
      → x ≡ y
  result_same x y h = cc

  after_pop :
      (k a : ℕ) (s t u : S) (i o : List Item) (flows : ℕ → Option Flow) (m : ℤ)
      (x : Option (FrameWriteRequest × Option Flow))
      → Kept k a s i o t
      → Fed flows t
      → pos 1 ≤ℤ m
      → ((enough : ℕ) × ((fuel : ℕ) → enough ≤ fuel → pop fl sort fuel flows m t ≡ ok (x, u)))
      → Kept k a s i (o ++ taken k (request x)) u
  after_pop k a s t u i o flows m x (kept, own, v) fed h (d, e) =
      let (y, (d', e'), p, w) = pop-Popped fl sort perm flows m t v fed h in
      let same : y ≡ (x, u) =
        result_same y (x, u) (sym (e' (d + d') (omega arith)) ∙ e (d + d') (omega arith)) in
      let (own', front) = front_content k a flows m t y own p in
      subst (λ z. Kept k a s i (o ++ taken k (request (z.0))) (z.1)) same
        (
          append_assoc o (taken k (request (y.0))) (content k ((y.1).tree.q a))
              ∙ ap (◌++◌ o) front
              ∙ kept,
          own',
          w,
        )

  -- On a well-formed tree, where the stream `k`, not 0, has a node and no other node has requests of it:
  -- after any calls of Push and Pop, what has come out for the stream, and then what is queued at its node,
  -- is what was queued there, and then what went in: the bytes of its DATA frames, their END_STREAM flags
  -- and its other frames, all in order.
  pub push_pop-fifo :
      (k a : ℕ) (s u : S) (i o : List Item)
      → 1 ≤ k
      → Owns k a s
      → IsTree s
      → Exchange k s i o u
      → (o ++ content k (u.tree.q a) ≡ content k (s.tree.q a) ++ i) × Owns k a u × IsTree u
  push_pop-fifo k a s _ _ _ pos_k own v none_yet =
      (sym (append-nil (content k (s.tree.q a))), own, v)
  push_pop-fifo k a s u _ _ pos_k own v (pushed {i} {o} {t} wr r e) =
      let (kept, own', w) = push_pop-fifo k a s t i o pos_k own v r in
      let (own'', more, w') =
        Post-ok (Gains k a t (items_for k wr)) (push wr t) u (push-Gains k a wr t pos_k own' w) e in
      (
        ap (◌++◌ o) more
            ∙ sym (append_assoc o (content k (t.tree.q a)) (items_for k wr))
            ∙ ap (λ l. l ++ items_for k wr) kept
            ∙ append_assoc (content k (s.tree.q a)) i (items_for k wr),
        own'',
        w',
      )
  push_pop-fifo k a s u _ _ pos_k own v (popped {i} {o} {t} flows m x r fed h e) =
      after_pop k a s t u i o flows m x (push_pop-fifo k a s t i o pos_k own v r) fed h e
