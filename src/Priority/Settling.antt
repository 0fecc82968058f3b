-- ===== src/Priority/Settling.antt =====
-- writesched_priority.go: OpenStream, CloseStream, Push and AdjustStream end.
use mathlib.Core.List.Memᴰ
use h2stream.Prelude.{
  ℕ, ◌+◌, ◌<◌, ◌≡◌, ◌≢◌, ◌⊎◌, inl, inr, refl, sym, ap, ◌∙◌, subst, Option, none, some, [], ◌∷◌,
  ◌==◌, ltb, ◌||◌, leb, arith, Option-cases, Bool-cases, ok, panic,
}
use h2stream.Prelude.Int.{pos, ◌-ℤ◌}
use h2stream.WriteQueue
use h2stream.WriteQueue.{FrameWriteRequest, WriteQueue, stream_id, data_size}
use h2stream.Session.{PriorityParam}
use h2stream.Priority.{add_bytes, set, NodeState, opened, closed, idle}
use h2stream.Priority.Scheduler.{
  PriorityWriteScheduler, root, default_weight, or_root, open_stream, close_node, close_stream,
  adjust_node, adjust_stream, push,
}
use h2stream.Priority.Charging.{add_bytes_ends}
use h2stream.Priority.{add_bytes}
use h2stream.Priority.Adjusting.{Adjusted, adjust_node-Adjusted}
use h2stream.Priority.Keeping.{
  Holds, IsScheduler, Settled, Settles, tree_of, attach_node, Settles-now, make_node-IsScheduler,
  Settles-bind, remove_node_ends, add_closed_or_idle_node_ends,
}

abbrev S : Type 0
S = PriorityWriteScheduler

or_root_small :
    (o : Option ℕ) (fresh : ℕ) → 0 < fresh → ((a : ℕ) → o ≡ some a → a < fresh) → or_root o < fresh
or_root_small none fresh h k = h
or_root_small (some a) fresh h k = k a refl

State-cases : (t : NodeState) → (t ≡ opened) ⊎ ((t ≡ closed) ⊎ (t ≡ idle))
State-cases opened = inl refl
State-cases closed = inr (inl refl)
State-cases idle = inr (inr refl)

pub open_stream-Settles :
    (id pusher : ℕ) (s : S) → IsScheduler s → Settles (λ _. open_stream id pusher s)
unfolding open_stream
open_stream-Settles id pusher s v =
    Settles-now (open_stream id pusher s) (elim (Option-cases (s.nodes id)) [
      | inl e ↦
          let (s', q, w, _) =
            make_node-IsScheduler s id opened (or_root (s.nodes pusher)) v
              (or_root_small (s.nodes pusher) s.fresh v.started (v.known pusher)) in
          rw (Settled, e, q) w
      | inr (n, e) ↦ elim (State-cases (s.tree.state n)) [
        | inl q ↦ rw (Settled, e, q) tt
        | inr (inl q) ↦ rw (Settled, e, q) tt
        | inr (inr q) ↦ rw (Settled, e, q) v
      ]
    ])

close_node-Settles : (s : S) (n : ℕ) → IsScheduler s → Settles (λ f. close_node f s n)
unfolding close_node
close_node-Settles s n v =
    let t = record (s.tree) { state = set s.tree.state n closed } in
    let (t', r, _) =
      add_bytes_ends s.links.parent v.ranked s.links (λ _. refl) n (pos 0 -ℤ t.bytes n) t in
    let emptied : S = record s {
      tree = record t' { q = set t'.q n [] };
      queue_pool = WriteQueue.put s.queue_pool (t'.q n);
    } in
    Settles-bind (λ f. add_bytes f s.links n (pos 0 -ℤ t.bytes n) t) _ t' (v.ranked.top, r)
      (elim (Bool-cases (ltb 0 s.max_closed_nodes_in_tree)) [
        | inl y ↦
            let ((ns, s'), (d, q), w, _) =
              add_closed_or_idle_node_ends s.closed_nodes s.max_closed_nodes_in_tree n emptied v in
            (ok (record s' { closed_nodes = ns }), (d, λ f i. rw (y, q f i) refl), w)
        | inr y ↦
            let (s', (d, q), w, _) = remove_node_ends emptied n v in
            (ok s', (d, λ f i. rw (y, q f i) refl), w)
      ])

pub close_stream-Settles : (id : ℕ) (s : S) → IsScheduler s → Settles (λ f. close_stream f id s)
unfolding close_stream
close_stream-Settles id s v = elim (Bool-cases (id == 0)) [
  | inl y ↦ (panic, (0, λ _ _. rw y refl), tt)
  | inr y ↦ elim (Option-cases (s.nodes id)) [
    | inl e ↦ (panic, (0, λ _ _. rw (y, e) refl), tt)
    | inr (n, e) ↦ elim (State-cases (s.tree.state n)) [
      | inl q ↦
          let (x, (d, r), h) = close_node-Settles s n v in (x, (d, λ f i. rw (y, e, q) (r f i)), h)
      | inr (inl q) ↦ (panic, (0, λ _ _. rw (y, e, q) refl), tt)
      | inr (inr q) ↦ (panic, (0, λ _ _. rw (y, e, q) refl), tt)
    ]
  ]
]

pub push-Settles : (wr : FrameWriteRequest) (s : S) → IsScheduler s → Settles (λ _. push wr s)
unfolding push
push-Settles wr s v = Settles-now (push wr s) (elim (Bool-cases (stream_id wr == 0)) [
  | inl y ↦ rw (Settled, y) v
  | inr y ↦ elim (Option-cases (s.nodes (stream_id wr))) [
    | inr (n, e) ↦ rw (Settled, y, e) v
    | inl e ↦ elim (Bool-cases (ltb 0 (data_size wr))) [
      | inl z ↦ rw (Settled, y, e, z) tt
      | inr z ↦ rw (Settled, y, e, z) v
    ]
  ]
])

-- The links after AdjustStream for a node and another one as the parent.
Adjusted-IsScheduler :
    (s : S) (n : ℕ) (pp : PriorityParam) (p : ℕ) (v : IsScheduler s) (other : n ≢ p) (s' : S)
    → n ≢ root
    → n < s.fresh
    → p < s.fresh
    → Adjusted s n pp p (tree_of s v) other s'
    → IsScheduler s'
Adjusted-IsScheduler s n pp p v other s' h i j a =
    let good : Holds s'.links s.write_throttle_limit s.fresh s.nodes = record {
      forest = a.well_formed.forest;
      ranked = a.well_formed.ranked;
      positive = v.positive;
      limited = v.limited;
      small = λ x b q. ground (
        arith,
        a.placed,
        a.kids x,
        a.others x,
        a.above,
        q,
        v.small x b,
        v.small n b,
        v.small p b,
        i,
        j,
      );
      known = v.known;
      started = v.started;
      root_top = ground (arith, a.others root, a.above, a.kids root, v.root_top, h);
      nonroot = v.nonroot;
    } in
    subst IsScheduler (sym a.rest) good

adjust_node-Settles :
    (s : S) (n : ℕ) (pp : PriorityParam)
    → IsScheduler s
    → n ≢ root
    → n < s.fresh
    → Settles (λ f. adjust_node f s n pp)
unfolding adjust_node
adjust_node-Settles s n pp v h i = elim (Option-cases (s.nodes pp.stream_dep)) [
  | inl e ↦
      let (l, q, w) =
        attach_node s.links s.write_throttle_limit s.fresh s.nodes n root (root ∷ []) v h v.started
          (refl, v.root_top) (λ m. elim (Memᴰ.cases_cons m) [ inl z ↦ h z | inr z ↦ elim z [ ] ]) in
      (
        ok (record s {
          links = l;
          tree = record (s.tree) { weight = set s.tree.weight n default_weight };
        }),
        (0, λ _ _. rw (adjust_node, e, q) refl),
        w,
      )
  | inr (p, e) ↦ elim (Bool-cases (n == p)) [
    | inl y ↦ (ok s, (0, λ _ _. rw (adjust_node, e, y) refl), v)
    | inr y ↦
        let other : n ≢ p = λ z. ground (arith, y, z) in
        let (s', r, a) = adjust_node-Adjusted s n pp p (tree_of s v) other e in
        (ok s', r, Adjusted-IsScheduler s n pp p v other s' h i (v.known pp.stream_dep p e) a)
  ]
]

pub adjust_stream-Settles :
    (id : ℕ) (pp : PriorityParam) (s : S) → IsScheduler s → Settles (λ f. adjust_stream f id pp s)
unfolding adjust_stream
adjust_stream-Settles id pp s v = elim (Bool-cases (id == 0)) [
  | inl y ↦ (panic, (0, λ _ _. rw y refl), tt)
  | inr y ↦ elim (Option-cases (s.nodes id)) [
    | inr (n, e) ↦
        let (x, (d, r), h) =
          adjust_node-Settles s n pp v (λ z. ground (arith, y, v.nonroot id (e ∙ ap some z)))
            (v.known id n e) in
        (x, (d, λ f i. rw (y, e) (r f i)), h)
    | inl e ↦ elim (Bool-cases (leb id s.max_id || s.max_idle_nodes_in_tree == 0)) [
      | inl z ↦ (ok s, (0, λ _ _. rw (y, e, z) refl), v)
      | inr z ↦
          let (s', q, w, more) =
            make_node-IsScheduler (record s { max_id = id }) id idle root v v.started in
          let (x, (d, r), w', same_fresh) =
            add_closed_or_idle_node_ends s'.idle_nodes s'.max_idle_nodes_in_tree s.fresh s' w in
          let (y', (d', r'), h) =
            adjust_node-Settles (record (x.1) { idle_nodes = x.0 }) s.fresh pp w'
              (λ u. ground (arith, u, v.started)) (omega (arith, same_fresh, more)) in
          (
            y',
            (d + d', λ f i. rw (y, e, z, q, r f (omega (arith, i))) (r' f (omega (arith, i)))),
            h,
          )
    ]
  ]
]
