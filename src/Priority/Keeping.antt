-- ===== src/Priority/Keeping.antt =====
-- writesched_priority.go: what holds of a scheduler between calls, and nodes that are made and removed.
use h2stream.Prelude.{
  ℕ, suc, ◌+◌, ◌≤◌, ◌<◌, ◌≡◌, ◌≢◌, inl, inr, refl, sym, ap, ◌∙◌, subst, Option, none, some, List,
  [], ◌∷◌, Memᴰ, ◌==◌, ≢→==, true, false, length, ◌++◌, arith, Option-cases, Bool-cases, Run, ok,
  panic, out_of_fuel, ◌>>=◌,
}
use h2stream.Prelude.Int.{ℤ, pos, ◌≤ℤ◌}
use h2stream.WriteQueue
use h2stream.WriteQueue.{FrameWriteRequest, WriteQueue, stream_id, data_size}
use h2stream.Priority.{set, NodeState, Links, set_parent}
use h2stream.Priority.Chains.{IsForest}
use h2stream.Priority.Scheduler.{
  PriorityWriteScheduler, root, max_int32, default_weight, make_node, move, remove_node,
  add_closed_or_idle_node,
}
use h2stream.Priority.Sorting.{move-IsForest}
use h2stream.Priority.Charging.{IsRanked}
use h2stream.Priority.Popping.{IsTree}
use h2stream.Priority.Removing.{removed, remove_node-IsTree}
use h2stream.Priority.Ranking.{Ancestors, all-Ancestors, Ancestors-head, attached-IsRanked}

abbrev S : Type 0
S = PriorityWriteScheduler

-- The links form a tree of nodes that were made, with the root at the top, and the map of the
-- scheduler has such nodes, the root for the stream 0 only.
pub record Holds (l : Links) (limit : ℤ) (fresh : ℕ) (nodes : ℕ → Option ℕ) : Type 0 where
  pub forest : IsForest l
  pub ranked : IsRanked l.parent
  pub positive : pos 1 ≤ℤ limit
  pub limited : limit ≤ℤ max_int32
  pub small : (a b : ℕ) → l.parent a ≡ some b → b < fresh
  pub known : (id a : ℕ) → nodes id ≡ some a → a < fresh
  pub started : 0 < fresh
  pub root_top : l.parent root ≡ none
  pub nonroot : (id : ℕ) → nodes id ≡ some root → id ≡ 0

abbrev pub IsScheduler : S → Type 0
IsScheduler s = Holds s.links s.write_throttle_limit s.fresh s.nodes

pub tree_of : (s : S) → IsScheduler s → IsTree s
tree_of s v = record {
  forest = v.forest;
  ranked = v.ranked;
  positive = v.positive;
  limited = v.limited;
}

-- The ancestors of a node were made.
Ancestors-small :
    (l : Links) (fresh : ℕ) (o : Option ℕ) (xs : List ℕ)
    → ((a b : ℕ) → l.parent a ≡ some b → b < fresh)
    → Ancestors l.parent o xs
    → ((x : ℕ) → o ≡ some x → x < fresh)
    → (a : ℕ) → Memᴰ a xs
    → a < fresh
Ancestors-small l fresh o [] h c k a m = elim m [ ]
Ancestors-small l fresh o (x ∷ xs) h (e, c) k a (Memᴰ.head q) = rw q (k x e)
Ancestors-small l fresh o (x ∷ xs) h (e, c) k a (Memᴰ.tail m) =
    Ancestors-small l fresh (l.parent x) xs h c (h x) a m

-- A node that is not above `p` is linked below it.
pub attach_node :
    (l : Links) (limit : ℤ) (fresh : ℕ) (nodes : ℕ → Option ℕ) (n p : ℕ) (xs : List ℕ)
    → Holds l limit fresh nodes
    → n ≢ root
    → p < fresh
    → Ancestors l.parent (some p) xs
    → ¬ Memᴰ n xs
    → (l' : Links) × (set_parent l n (some p) ≡ ok l') × Holds l' limit fresh nodes
attach_node l limit fresh nodes n p xs v h i above apart =
    let (l', e, w, up, _) = move-IsForest l n (some p) v.forest (λ x. apart (
      subst (λ z. Memᴰ z xs) (ground (arith, x))
        (Ancestors-head l.parent (some p) xs p above refl))) in
    (
      l',
      e,
      record {
        forest = w;
        ranked =
            attached-IsRanked l.parent l'.parent v.ranked n p xs above apart (up n ∙ ground arith)
              (λ a k. inl (up a ∙ rw (≢→== n a (λ x. k (sym x))) refl));
        positive = v.positive;
        limited = v.limited;
        small = λ a b q. ground (arith, up a, q, v.small a b, i);
        known = v.known;
        started = v.started;
        root_top = up root ∙ rw (≢→== n root h) v.root_top;
        nonroot = v.nonroot;
      },
    )

-- How a call ends, for every large enough fuel: it panics, or it returns such a scheduler.
abbrev pub Settled : Run S → Type 0
Settled (ok s) = IsScheduler s
Settled panic = Unit
Settled out_of_fuel = ⊥

abbrev pub Settles : (ℕ → Run S) → Type 0
Settles r = (x : Run S) × ((enough : ℕ) × ((fuel : ℕ) → enough ≤ fuel → r fuel ≡ x)) × Settled x

pub Settles-now : (r : Run S) → Settled r → Settles (λ _. r)
Settles-now r h = (r, (0, λ _ _. refl), h)

-- The scheduler with a new node.
abbrev with_node : S → ℕ → NodeState → Links → S
with_node s id state l =
    let n = s.fresh in
    let t = s.tree in
    record s {
      links = l;
      fresh = suc n;
      queue_pool = (WriteQueue.get s.queue_pool).1;
      nodes = set s.nodes id (some n);
      tree = record {
        q = set t.q n (WriteQueue.get s.queue_pool).0;
        id = set t.id n id;
        weight = set t.weight n default_weight;
        state = set t.state n state;
        bytes = set t.bytes n (pos 0);
        subtree_bytes = set t.subtree_bytes n (pos 0);
      };
    }

-- A node that is made under one that was made before.
pub make_node-IsScheduler :
    (s : S) (id : ℕ) (state : NodeState) (p : ℕ)
    → IsScheduler s
    → p < s.fresh
    → (s' : S) × (make_node s id state p ≡ ok s') × IsScheduler s' × (s'.fresh ≡ suc s.fresh)
unfolding make_node move
make_node-IsScheduler s id state p v h =
    let n = s.fresh in
    let (xs, c) = all-Ancestors s.links.parent v.ranked (some p) in
    let bigger : Holds s.links s.write_throttle_limit (suc n) (set s.nodes id (some n)) = record {
      forest = v.forest;
      ranked = v.ranked;
      positive = v.positive;
      limited = v.limited;
      small = λ a b q. ground (arith, v.small a b);
      known = λ j a q. ground (arith, v.known j a);
      started = omega arith;
      root_top = v.root_top;
      nonroot = λ j q. ground (arith, v.nonroot j, v.started);
    } in
    let (l', e, w) =
      attach_node s.links s.write_throttle_limit (suc n) (set s.nodes id (some n)) n p xs bigger
        (λ x. ground (arith, x, v.started)) (omega (arith, h)) c
        (λ m. ground (
          arith,
          Ancestors-small s.links n (some p) xs v.small c (λ x q. ground (arith, q, h)) n m,
        )) in
    (with_node s id state l', rw e refl, w, refl)

-- A first call returns, and the rest settles.
module _ {A : Type 0} where
  pub Settles-bind :
      (r : ℕ → Run A) (k : ℕ → A → Run S) (a : A)
      → ((enough : ℕ) × ((f : ℕ) → enough ≤ f → r f ≡ ok a))
      → Settles (λ f. k f a)
      → Settles (λ f. r f >>= k f)
  Settles-bind r k a (d, x) (y, (e, z), w) =
      (y, (d + e, λ f i. rw (x f (omega (arith, i))) (z f (omega (arith, i)))), w)

removed-root : (s : S) → IsScheduler s → (n : ℕ) → removed s.links n root ≡ none
removed-root s v n = elim (Option-cases (s.links.kids n)) [
  | inl e ↦ ground (arith, e, v.root_top)
  | inr (k, e) ↦ ground (arith, e, v.root_top, ((v.forest.linked n).kids_up k e).0)
]

pub remove_node_ends :
    (s : S) (n : ℕ)
    → IsScheduler s
    → (s' : S) × ((enough : ℕ) × ((f : ℕ) → enough ≤ f → remove_node f s n ≡ ok s'))
      × IsScheduler s'
      × (s'.fresh ≡ s.fresh)
remove_node_ends s n v =
    let (s', r, w, parents, e) = remove_node-IsTree s n (tree_of s v) in
    let good : Holds s'.links s.write_throttle_limit s.fresh (set s.nodes (s.tree.id n) none) =
      record {
        forest = w.forest;
        ranked = w.ranked;
        positive = v.positive;
        limited = v.limited;
        small = λ a b q. ground (arith, parents a, q, v.small a b, v.small n b);
        known = λ id a q. ground (arith, q, v.known id a);
        started = v.started;
        root_top = parents root ∙ removed-root s v n;
        nonroot = λ id q. ground (arith, q, v.nonroot id);
      } in
    (s', r, subst IsScheduler (sym e) good, ap (λ t. t.fresh) e)

pub add_closed_or_idle_node_ends :
    (ns : List ℕ) (max n : ℕ) (s : S)
    → IsScheduler s
    → (x : List ℕ × S) × ((enough : ℕ) × ((f : ℕ)
          → enough ≤ f
          → add_closed_or_idle_node f ns max n s ≡ ok x))
      × IsScheduler (x.1)
      × (x.1.fresh ≡ s.fresh)
unfolding add_closed_or_idle_node
add_closed_or_idle_node_ends ns max n s v = elim (Bool-cases (max == 0)) [
  | inl y ↦ ((ns, s), (0, λ _ _. rw y refl), v, refl)
  | inr y ↦ elim (Bool-cases (length ns == max)) [
    | inr z ↦ ((ns ++ n ∷ [], s), (0, λ _ _. rw (y, z) refl), v, refl)
    | inl z ↦ full ns y z
  ]
]
  where
    full :
        (ns : List ℕ)
        → (max == 0) ≡ false
        → (length ns == max) ≡ true
        → (x : List ℕ × S) × ((enough : ℕ) × ((f : ℕ)
              → enough ≤ f
              → add_closed_or_idle_node f ns max n s ≡ ok x))
          × IsScheduler (x.1)
          × (x.1.fresh ≡ s.fresh)
    full [] y z = absurd (ground (arith, y, z))
    full (o ∷ rest) y z =
        let (s', (d, r), w, e) = remove_node_ends s o v in
        ((rest ++ n ∷ [], s'), (d, λ f i. rw (y, z, r f i) refl), w, e)
