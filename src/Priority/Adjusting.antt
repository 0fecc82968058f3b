-- ===== src/Priority/Adjusting.antt =====
-- writesched_priority.go, AdjustStream: the new place of a node in the tree.
use mathlib.Core.List.Memᴰ
use h2stream.Prelude.{
  ℕ, suc, ◌+◌, ◌≤◌, ◌<◌, ◌≡◌, ◌≢◌, ◌⊎◌, inl, inr, refl, sym, ap, ◌∙◌, Option, none, some, List, [],
  ◌∷◌, Memᴰ, ◌==◌, ==→≡, ≢→==, if◌then◌else◌, arith, Bool-cases, Run, ok,
}
use h2stream.Session.{PriorityParam}
use h2stream.Priority.{set, same, Links}
use h2stream.Priority.Moving.{same→≡}
use h2stream.Priority.Chains.{
  Chain, IsForest, kids-Chain, nodes_parent, nodes_above, kids_all, Chain-same,
}
use h2stream.Priority.Returns.{from-suc}
use h2stream.Priority.Scheduler.{PriorityWriteScheduler, move_aside, take_over, adjust_node}
use h2stream.Priority.Sorting.{move-IsForest}
use h2stream.Priority.Charging.{IsRanked}
use h2stream.Priority.Popping.{IsTree}
use h2stream.Priority.Ranking.{
  Ancestors, all-Ancestors, Ancestors-above, Ancestors-some, depends_on_ends, attached-IsRanked,
}

abbrev Ends {ℓ} : {A : Type ℓ} → (ℕ → Run A) → A → Type ℓ
Ends r v = (enough : ℕ) × ((f : ℕ) → enough ≤ f → r f ≡ ok v)

-- The nodes of a list of siblings move below `n`, but for `n` itself.
abbrev Taken : Links → ℕ → List ℕ → Links → Type 0
Taken l n ks l' =
    ((a : ℕ) → a ≢ n → Memᴰ a ks → l'.parent a ≡ some n)
    × ((a : ℕ) → (a ≡ n) ⊎ (¬ Memᴰ a ks) → l'.parent a ≡ l.parent a)

take_over-Ends :
    (n : ℕ) (o : Option ℕ) (ks : List ℕ) (l : Links)
    → IsForest l
    → Chain l o ks
    → (l' : Links) × Ends (λ f. take_over f l n o) l' × IsForest l' × Taken l n ks l'
unfolding take_over
take_over-Ends n o [] l v c = (l, (0, λ f _. rw c refl), v, (λ a h m. elim m [ ], λ a h. refl))
take_over-Ends n o (k ∷ ks) l v (e, c) = elim (Bool-cases (k == n)) [
  | inl y ↦
      let (l', (d, r), v', (moved, same)) = take_over-Ends n (l.next k) ks l v c in
      (
        l',
        (suc d, from-suc (λ f. take_over f l n o) l' d (λ f i. rw (e, y) (r f i))),
        v',
        (
          λ a h m. elim (Memᴰ.cases_cons m) [
            | inl q ↦ absurd (h (q ∙ ==→≡ k n y))
            | inr i ↦ moved a h i
          ],
          λ a h. same a (elim h [ inl q ↦ inl q | inr i ↦ inr (λ m. i (Memᴰ.tail m)) ]),
        ),
      )
  | inr y ↦
      let (l1, q, v1, up, rest) = move-IsForest l k (some n) v (λ x. ground (arith, x, y)) in
      let after : (a : ℕ) → Memᴰ a ks → v.place k < v.place a =
        nodes_above l v (v.place k) (l.next k) ks c (v.linked k).ordered in
      let c1 = Chain-same l l1 (l.next k) ks c (λ a m.
        rest a (λ x. ground (arith, x, after a m))
          (λ x.
            omega (arith, after a m, (v.linked a).ordered k (((v.linked k).prev_forth a x).0)))) in
      let (l', (d, r), v', (moved, same)) = take_over-Ends n (l.next k) ks l1 v1 c1 in
      (
        l',
        (suc d, from-suc (λ f. take_over f l n o) l' d (λ f i. rw (e, y, q) (r f i))),
        v',
        (
          λ a h m. elim (Memᴰ.cases_cons m) [
            | inl x ↦
                same a (inr (λ m'. omega (arith, after a m', ap v.place x)))
                ∙ up a
                ∙ ground (arith, x)
            | inr i ↦ moved a h i
          ],
          λ a h. elim h [
            | inl q ↦ same a (inl q) ∙ up a ∙ ground (arith, q, y)
            | inr i ↦
                same a (inr (λ m. i (Memᴰ.tail m)))
                ∙ up a
                ∙ rw (≢→== k a (λ q. i (Memᴰ.head (sym q)))) refl
          ],
        ),
      )
]

module _ (s : PriorityWriteScheduler) (n : ℕ) (pp : PriorityParam) (p : ℕ) (v : IsTree s)
    (other : n ≢ p) where
  -- The parent of the new parent: it changes only where there was one.
  abbrev Above : Links → Type 0
  Above l =
      (l.parent p ≡ s.links.parent p)
      ⊎ ((s.links.parent p ≢ none) × (l.parent p ≡ s.links.parent n))

  -- The links before the kids of the new parent move: the node is not above it.
  step_aside :
      (l : Links) × Ends (λ f. move_aside f s.links n p) l
      × IsForest l
      × IsRanked l.parent
      × ((a : ℕ) → a ≢ p → l.parent a ≡ s.links.parent a)
      × ((xs : List ℕ) × Ancestors l.parent (some p) xs × ¬ Memᴰ n xs)
      × Above l
  unfolding move_aside
  step_aside =
      let (xs, c) = all-Ancestors s.links.parent v.ranked (s.links.parent p) in
      let (b, (d, r), h) = depends_on_ends s.links n (s.links.parent p) xs c in
      elim h [
        | inr (q, m) ↦ (
          s.links,
          (d, λ f i. rw (r f i, q) refl),
          v.forest,
          v.ranked,
          (λ a _. refl),
          (p ∷ xs, (refl, c), λ z. elim (Memᴰ.cases_cons z) [ inl w ↦ other w | inr w ↦ m w ]),
          inl refl,
        )
        | inl (q, m) ↦
            let low : v.ranked.rank p < v.ranked.rank n =
              Ancestors-above s.links.parent v.ranked (v.ranked.rank p) (s.links.parent p) xs c
                (v.ranked.rises p) n m in
            let (l, e, w, up, _) =
              move-IsForest s.links p (s.links.parent n) v.forest
                (λ x. omega (arith, low, v.ranked.rises n p (sym x))) in
            let up_p : l.parent p ≡ s.links.parent n = ground (arith, up p) in
            let ranked : IsRanked l.parent = record {
              rank = v.ranked.rank;
              top = v.ranked.top;
              rises = λ a q z. elim (Bool-cases (p == a)) [
                | inl y ↦ ground (arith, low, y, up a, z, v.ranked.rises n q)
                | inr y ↦ ground (arith, y, up a, z, v.ranked.rises a q)
              ];
              under = v.ranked.under;
            } in
            let (ys, c') = all-Ancestors l.parent ranked (l.parent p) in
            (
              l,
              (d, λ f i. rw (r f i, q) e),
              w,
              ranked,
              (λ a h. up a ∙ rw (≢→== p a (λ x. h (sym x))) refl),
              (
                p ∷ ys,
                (refl, c'),
                λ z. elim (Memᴰ.cases_cons z) [
                  | inl w ↦ other w
                  | inr i ↦
                      let high : v.ranked.rank n < v.ranked.rank n =
                        Ancestors-above l.parent ranked (v.ranked.rank n) (l.parent p) ys c'
                          (λ x g. v.ranked.rises n x (sym up_p ∙ g)) n i in
                      absurd (omega (arith, high))
                ],
              ),
              inr (Ancestors-some s.links.parent (s.links.parent p) xs n c m, up_p),
            )
      ]

  -- The kids of the new parent, if the dependency is exclusive.
  kids_taken :
      (l : Links)
      → IsForest l
      → (l' : Links) × Ends (λ f. if pp.exclusive then take_over f l n (l.kids p) else ok l) l'
        × IsForest l'
        × (l'.parent n ≡ l.parent n)
        × ((a : ℕ)
            → a ≢ n
            → l.parent a ≡ some p
            → l'.parent a ≡ (if pp.exclusive then some n else some p))
        × ((a : ℕ) → l.parent a ≢ some p → l'.parent a ≡ l.parent a)
  kids_taken l v = elim (Bool-cases pp.exclusive) [
    | inr y ↦ (l, (0, λ f _. rw y refl), v, refl, (λ a _ e. rw y e), λ a _. refl)
    | inl y ↦
        let (ks, c) = kids-Chain l v p in
        let (l', (d, r), w, (moved, same)) = take_over-Ends n (l.kids p) ks l v c in
        (
          l',
          (d, λ f i. rw y (r f i)),
          w,
          same n (inl refl),
          (λ a h e. rw y (moved a h (kids_all l v p ks c a e))),
          λ a h. same a (
              inr (λ m.
                h (nodes_parent l v p (l.kids p) ks c (λ b q. ((v.linked p).kids_up b q).0) a m))),
        )
  ]

  moved_there :
      (l1 l2 l3 : Links) (a : ℕ)
      → l3.parent a ≡ l2.parent a
      → (l1.parent a ≡ some p → l2.parent a ≡ (if pp.exclusive then some n else some p))
      → (l1.parent a ≢ some p → l2.parent a ≡ l1.parent a)
      → (l3.parent a ≡ l1.parent a) ⊎ ((l1.parent a ≡ some p) × (l3.parent a ≡ some n))
  moved_there l1 l2 l3 a e f g = elim (Bool-cases (same (l1.parent a) (some p))) [
    | inl y ↦
        let x = same→≡ (l1.parent a) (some p) y in
        elim (Bool-cases pp.exclusive) [
          | inl z ↦ inr (x, e ∙ rw z at (f x))
          | inr z ↦ inl (e ∙ rw z at (f x) ∙ sym x)
        ]
    | inr y ↦ inl (e ∙ g (λ x. ground (arith, rw x at y)))
  ]

  abbrev in_place : Links → PriorityWriteScheduler
  in_place l = record s {
    links = l;
    tree = record (s.tree) { weight = set s.tree.weight n pp.weight };
  }

  -- How the tree stands when the node has its new parent.
  pub record Adjusted (s' : PriorityWriteScheduler) : Type 0 where
    pub well_formed : IsTree s'
    pub placed : s'.links.parent n ≡ some p
    pub weighed : s'.tree.weight n ≡ pp.weight
    pub kids :
        (a : ℕ)
        → a ≢ n
        → s.links.parent a ≡ some p
        → s'.links.parent a ≡ (if pp.exclusive then some n else some p)
    pub above : Above s'.links
    pub rest : s' ≡ record s {
      links = s'.links;
      tree = record (s.tree) { weight = set s.tree.weight n pp.weight };
    }
    pub others :
        (a : ℕ) → a ≢ n → a ≢ p → s.links.parent a ≢ some p → s'.links.parent a ≡ s.links.parent a

  -- AdjustStream for a node of a tree and another node as the new parent returns for every large
  -- enough fuel, also where the new parent is below the node. It leaves a tree, without a cycle: the
  -- node has the new parent and the new weight; if the dependency is exclusive, the former kids of the
  -- new parent are the node's, and else they stay; every node but these two keeps its parent.
  pub adjust_node-Adjusted :
      s.nodes pp.stream_dep ≡ some p
      → (s' : PriorityWriteScheduler) × ((enough : ℕ) × ((fuel : ℕ)
            → enough ≤ fuel
            → adjust_node fuel s n pp ≡ ok s'))
        × Adjusted s'
  unfolding adjust_node
  adjust_node-Adjusted known =
      let (l1, (d1, r1), v1, w1, same1, (xs, above, apart), up_p) = step_aside in
      let (l2, (d2, r2), v2, same_n, kids2, same2) = kids_taken l1 v1 in
      let (l3, q, v3, up, _) = move-IsForest l2 n (some p) v2 (λ x. ground (arith, x, other)) in
      let up_n : l3.parent n ≡ some p = ground (arith, up n) in
      let up_other : (a : ℕ) → a ≢ n → l3.parent a ≡ l2.parent a =
        λ a h. up a ∙ rw (≢→== n a (λ x. h (sym x))) refl in
      (
        in_place l3,
        (
          d1 + d2,
          λ f i.
              rw
                (
                  adjust_node,
                  known,
                  ≢→== n p other,
                  r1 f (omega (arith, i)),
                  r2 f (omega (arith, i)),
                  q,
                )
                refl,
        ),
        record {
          well_formed = record {
            forest = v3;
            ranked =
                attached-IsRanked l1.parent l3.parent w1 n p xs above apart up_n
                  (λ a h. moved_there l1 l2 l3 a (up_other a h) (kids2 a h) (same2 a));
            positive = v.positive;
            limited = v.limited;
          };
          placed = up_n;
          weighed = ground arith;
          kids = λ a h e.
              up_other a h
              ∙ kids2 a h (same1 a (λ x. (v.forest.linked a).own_parent (e ∙ ap some (sym x))) ∙ e);
          above =
              let stays = up_other p (λ x. other (sym x)) ∙ same2 p (v1.linked p).own_parent in
              elim up_p [ inl e ↦ inl (stays ∙ e) | inr (h, e) ↦ inr (h, stays ∙ e) ];
          rest = refl;
          others = λ a h i e. up_other a h ∙ same2 a (λ z. e (sym (same1 a i) ∙ z)) ∙ same1 a i;
        },
      )
