-- ===== src/Priority/Removing.antt =====
-- writesched_priority.go, removeNode: what becomes of the kids.
use h2stream.Prelude.{
  ℕ, suc, ◌≤◌, ◌<◌, ◌≡◌, ◌≢◌, ◌⊎◌, inl, inr, refl, sym, ap, ◌∙◌, Option, none, some, List, [], ◌∷◌,
  length, ◌++◌, panic, Bool-cases, false, Memᴰ, ◌==◌, ≡→==, ≢→==, if◌then◌else◌, arith,
  Option-cases, ok,
}
use h2stream.Priority.{set, Links, same, set_parent}
use h2stream.Priority.Chains.{Chain, IsForest, nodes_from, nodes_parent}
use h2stream.Priority.Returns.{from-suc}
use h2stream.Priority.Scheduler.{
  PriorityWriteScheduler, root, move_kids, remove_node, add_closed_or_idle_node, close_stream,
}
use h2stream.Priority.Sorting.{move-IsForest}
use h2stream.Priority.Charging.{IsRanked, Below, top, under}
use h2stream.Priority.Popping.{IsTree}

-- A node that has the parent already stays.
set_parent_same :
    (l : Links) (v : IsForest l) (a q : ℕ) → l.parent a ≡ some q → set_parent l a (some q) ≡ ok l
unfolding set_parent
set_parent_same l v a q e =
    rw (≢→== a q (λ x. (v.linked a).own_parent (e ∙ ap some (sym x))), e, ≡→== q q refl) refl

-- The loop of removeNode over nodes that have the parent already.
move_kids_same :
    (l : Links) (v : IsForest l) (q : ℕ) (o : Option ℕ) (ks : List ℕ)
    → Chain l o ks
    → ((a : ℕ) → Memᴰ a ks → l.parent a ≡ some q)
    → (enough : ℕ) × ((f : ℕ) → enough ≤ f → move_kids f l (some q) o ≡ ok l)
unfolding move_kids
move_kids_same l v q o [] c h = (0, λ f _. rw c refl)
move_kids_same l v q o (k ∷ ks) (e, c) h =
    let (d, r) = move_kids_same l v q (l.next k) ks c (λ a i. h a (Memᴰ.tail i)) in
    (
      suc d,
      from-suc (λ f. move_kids f l (some q) o) l d
          (λ f i. rw (e, set_parent_same l v k q (h k (Memᴰ.head refl))) (r f i)),
    )

-- The loop ends at once, or goes on among the kids of the parent, which have it already.
rest_of_kids :
    (l : Links) (v : IsForest l) (k : ℕ) (p : Option ℕ)
    → l.parent k ≡ p
    → (enough : ℕ) × ((f : ℕ) → enough ≤ f → move_kids f l p (l.next k) ≡ ok l)
unfolding move_kids
rest_of_kids l v k none e = (0, λ f _. rw (((v.linked k).alone e).0) refl)
rest_of_kids l v k (some q) e =
    let (ks, c) = nodes_from l v v.bound (l.next k) (λ _ _. omega arith) in
    move_kids_same l v q (l.next k) ks c
      (nodes_parent l v q (l.next k) ks c (λ b x. ((v.linked k).next_back b x).1 ∙ e))

-- The parents after removeNode: of the kids only the first one moves.
abbrev pub removed : Links → ℕ → ℕ → Option ℕ
removed l n a =
    if n == a then none else (if same (l.kids n) (some a) then l.parent n else l.parent a)

removed_rises :
    (l : Links) (v : IsForest l) (w : IsRanked l.parent) (n a p : ℕ)
    → removed l n a ≡ some p
    → w.rank a < w.rank p
removed_rises l v w n a p e = elim (Option-cases (l.kids n)) [
  | inl q ↦ ground (arith, rw q at e, w.rises a p)
  | inr (k, q) ↦
      ground (arith, rw q at e, w.rises a p, w.rises k n ((v.linked n).kids_up k q).0, w.rises n p)
]

-- The loop as a whole.
move_kids_ends :
    (l : Links) (v : IsForest l) (w : IsRanked l.parent) (n : ℕ)
    → (l' : Links) × ((enough : ℕ) × ((f : ℕ)
          → enough ≤ f
          → move_kids f l (l.parent n) (l.kids n) ≡ ok l'))
      × IsForest l'
      × ((a : ℕ) → l'.parent a ≡ (if same (l.kids n) (some a) then l.parent n else l.parent a))
unfolding move_kids
move_kids_ends l v w n = elim (Option-cases (l.kids n)) [
  | inl e ↦ (l, (0, λ f _. rw e refl), v, λ a. rw e refl)
  | inr (k, e) ↦
      let (up, _) = (v.linked n).kids_up k e in
      let (l', q, v', moved, _) =
        move-IsForest l k (l.parent n) v
          (λ x. omega (arith, w.rises n k (sym x), w.rises k n up)) in
      let (d, r) = rest_of_kids l' v' k (l.parent n) (ground (arith, moved k)) in
      (
        l',
        (
          suc d,
          from-suc (λ f. move_kids f l (l.parent n) (l.kids n)) l' d (λ f i. rw (e, q) (r f i)),
        ),
        v',
        λ a. rw e (moved a),
      )
]

-- removeNode of a node with the links of a tree returns for every large enough fuel, and leaves a tree:
-- the node has no parent, its first kid has the node's, and every other node the parent it had.
pub remove_node-IsTree :
    (s : PriorityWriteScheduler) (n : ℕ)
    → IsTree s
    → (s' : PriorityWriteScheduler) × ((enough : ℕ) × ((fuel : ℕ)
          → enough ≤ fuel
          → remove_node fuel s n ≡ ok s'))
      × IsTree s'
      × ((a : ℕ) → s'.links.parent a ≡ removed s.links n a)
      × (s' ≡ record s { links = s'.links; nodes = set s.nodes (s.tree.id n) none })
unfolding remove_node
remove_node-IsTree s n v =
    let (l, (d, r), w, moved) = move_kids_ends s.links v.forest v.ranked n in
    let (l', q, w', gone, _) = move-IsForest l n none w (λ x. ground (arith, x)) in
    let parents : (a : ℕ) → l'.parent a ≡ removed s.links n a =
      λ a. ground (arith, gone a, moved a) in
    (
      record s { links = l'; nodes = set s.nodes (s.tree.id n) none },
      (d, λ f i. rw (r f i, q) refl),
      record {
        forest = w';
        ranked = record {
          rank = v.ranked.rank;
          top = v.ranked.top;
          rises = λ a p e. removed_rises s.links v.forest v.ranked n a p (sym (parents a) ∙ e);
          under = v.ranked.under;
        };
        positive = v.positive;
        limited = v.limited;
      },
      parents,
      refl,
    )

-- A node is below another if its parent is.
Below-up :
    (par : ℕ → Option ℕ) (r a : ℕ)
    → Below par r a
    → (r ≡ a) ⊎ ((p : ℕ) × (par a ≡ some p) × Below par r p)
Below-up par r _ (top _) = inl refl
Below-up par r a (under _ k _ e d) = elim (Below-up par k a d) [
  | inl q ↦ inr (r, ap par (sym q) ∙ e, top r)
  | inr (p, q, d') ↦ inr (p, q, under r k p e d')
]

-- removeNode leaves the second kid of a node, and all below it, outside of the tree that Pop walks:
-- the loop reads the next kid from the first one after it has moved.
pub remove_node_loses :
    (s : PriorityWriteScheduler) (n k j : ℕ)
    → IsTree s
    → n ≢ root
    → s.links.parent root ≡ none
    → s.links.kids n ≡ some k
    → s.links.next k ≡ some j
    → (s' : PriorityWriteScheduler) × ((enough : ℕ) × ((fuel : ℕ)
          → enough ≤ fuel
          → remove_node fuel s n ≡ ok s'))
      × ¬ Below s'.links.parent root j
remove_node_loses s n k j v h top_none e f =
    let (s', r, w, parents, _) = remove_node-IsTree s n v in
    let up = ((v.forest.linked n).kids_up k e).0 in
    let up' = ((v.forest.linked k).next_back j f).1 ∙ up in
    let on : s'.links.parent j ≡ some n =
      parents j
      ∙ rw
          (
            ≢→== n j (λ x. (v.forest.linked j).own_parent (up' ∙ ap some x)),
            e,
            ≢→== k j (λ x. ground (arith, (v.forest.linked k).ordered j f, x)),
          )
          up' in
    let off : s'.links.parent n ≡ none = ground (arith, parents n) in
    (
      s',
      r,
      λ d. elim (Below-up s'.links.parent root j d) [
        | inl q ↦ ground (arith, up', top_none, q)
        | inr (p, q, d') ↦ elim (Below-up s'.links.parent root p d') [
          | inl z ↦ ground (arith, q, on, z, h)
          | inr (p', z, _) ↦ ground (arith, z, q, on, off)
        ]
      ],
    )

-- A list of idle nodes that is full gives up its oldest node without a look at its state. The stream
-- of that node, which may have been opened since, is then unknown to the scheduler, and CloseStream of
-- it panics.
pub evicted_stream-panic :
    (s : PriorityWriteScheduler) (n x max : ℕ) (rest : List ℕ)
    → IsTree s
    → length (n ∷ rest) ≡ max
    → (s' : PriorityWriteScheduler) × ((enough : ℕ) × ((fuel : ℕ)
          → enough ≤ fuel
          → add_closed_or_idle_node fuel (n ∷ rest) max x s ≡ ok (rest ++ x ∷ [], s')))
      × ((fuel : ℕ) → close_stream fuel (s.tree.id n) s' ≡ panic)
unfolding add_closed_or_idle_node close_stream
evicted_stream-panic s n x max rest v h =
    let (s', (d, r), _, _, e) = remove_node-IsTree s n v in
    let gone : s'.nodes (s.tree.id n) ≡ none = ap (λ t. t.nodes (s.tree.id n)) e ∙ ground arith in
    let some_max : (max == 0) ≡ false = ground (arith, h) in
    (
      s',
      (d, λ f i. rw (some_max, ≡→== (length (n ∷ rest)) max h, r f i) refl),
      λ f. elim (Bool-cases (s.tree.id n == 0)) [ inl y ↦ rw y refl | inr y ↦ rw (y, gone) refl ],
    )
