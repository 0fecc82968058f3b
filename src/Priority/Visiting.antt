-- ===== src/Priority/Visiting.antt =====
-- writesched_priority.go, walkReadyInOrder with the callback of Pop: what a walk returns.
use mathlib.Core.List.{Permᴰ}
use mathlib.Core.List.Memᴰ
use h2stream.Prelude.{
  ℕ, zero, suc, ◌<◌, ◌≡◌, ◌⊎◌, inl, inr, refl, sym, ◌∙◌, subst, Option, none, some, List, [], ◌∷◌,
  Memᴰ, if◌then◌else◌, Bool, true, arith, Option-cases, Bool-cases, Run, ok,
}
use h2stream.Prelude.Int.{ℤ, pos}
use h2stream.Flow.{Flow}
use h2stream.WriteQueue.{FrameWriteRequest, WriteQueue, consume_queue, data_size, empty}
use h2stream.Priority.{set, Links, Nodes}
use h2stream.Priority.Chains.{Chain, IsForest, kids-Chain, nodes_parent, kids_all, Chain-same}
use h2stream.Priority.Returns.{Returns, Returns-bind, Returns-suc, Returns-ok}
use h2stream.Priority.Walk.{walk, walk_below, walk_kids, open_below}
use h2stream.Priority.Scheduler.{PriorityWriteScheduler, head_flow, limit_for, throttle, pop_node}
use h2stream.Priority.Sorting.{ordered_kids, in_order-Returns}
use h2stream.Priority.Charging.{IsRanked, Below, top, under, Below-rank, Charged}
use h2stream.Priority.Taking.{IsFed, Stuck, stays, sends, pop_node-Taking}

empty→[] : (q : WriteQueue) → empty q ≡ true → q ≡ []
unfolding empty
empty→[] [] e = refl
empty→[] (_ ∷ _) e = absurd (ground (arith, e))

module _ (sort : Nodes → List ℕ → List ℕ)
    (perm : (ns : Nodes) (ks : List ℕ) → Permᴰ (sort ns ks) ks) (flows : ℕ → Option Flow) (m : ℤ)
    (s0 : PriorityWriteScheduler) (par : ℕ → Option ℕ) (v : IsRanked par)
    (fed : (n : ℕ) → IsFed (s0.tree.q n) (head_flow flows (s0.tree.q n))) where
  abbrev pub S : Type 0
  S = PriorityWriteScheduler

  abbrev pub at : Links → S
  at l = record s0 { links = l }

  abbrev pub Out : Type 0
  Out = Option (FrameWriteRequest × Option Flow) × S

  abbrev pub visit : ℕ → ℕ → ℕ → Bool → S → Run Out
  visit c g n b s =
      walk (λ t. t.links) (λ t. t.tree) (λ t l. record t { links = l }) sort (pop_node c flows m) g
        n b s

  abbrev visit_below : ℕ → ℕ → ℕ → Bool → S → Option ℕ → Run Out
  visit_below c g n b s o =
      walk_below (λ t. t.links) (λ t. t.tree) (λ t l. record t { links = l }) sort
        (pop_node c flows m) g n b s o

  abbrev visit_kids : ℕ → ℕ → Bool → S → Option ℕ → Run Out
  visit_kids c g b s o =
      walk_kids (λ t. t.links) (λ t. t.tree) (λ t l. record t { links = l }) sort
        (pop_node c flows m) g b s o

  -- The links stand for the same tree.
  abbrev pub Same : Links → Type 0
  Same l = IsForest l × ((a : ℕ) → l.parent a ≡ par a)

  abbrev pub Idle : ℕ → Type 0
  Idle a =
      (b : Bool) × Stuck (s0.tree.q a) (head_flow flows (s0.tree.q a)) m
        (limit_for b s0.write_throttle_limit)

  -- Siblings outside of the subtree at `n` stay where they are.
  abbrev pub Outside : ℕ → Links → Links → Type 0
  Outside n l l' = (a p : ℕ) → par a ≡ some p → ¬ Below par n p → l'.next a ≡ l.next a

  -- The result of a walk over nodes `B` of the subtree at `n`.
  pub data Visited (B : ℕ → Type 0) (n : ℕ) (l : Links) : Out → Type 0 where
    idles :
        (l' : Links)
        → Same l'
        → ((a : ℕ) → B a → Idle a)
        → Outside n l l'
        → Visited B n l (none, at l')
    takes :
        (a : ℕ) (b : Bool) (wr : FrameWriteRequest) (q' : WriteQueue) (flow' : Option Flow)
        (t' : Nodes) (l' : Links)
        → B a
        → consume_queue
            (s0.tree.q a)
            (head_flow flows (s0.tree.q a))
            m
            (limit_for b s0.write_throttle_limit)
          ≡ ok (some wr, q', flow')
        → Charged par a (pos (data_size wr)) (record (s0.tree) { q = set s0.tree.q a q' }) t'
        → Same l'
        → Visited B n l (
          some (wr, flow'),
          record s0 {
            links = l';
            tree = t';
            write_throttle_limit = throttle b s0.enable_write_throttle s0.write_throttle_limit;
          },
        )

  abbrev pub Walked : (ℕ → Type 0) → ℕ → Links → (ℕ → ℕ → Run Out) → Type 0
  Walked B n l r = (o : Out) × Returns r o × Visited B n l o

  abbrev OfKids : List ℕ → ℕ → Type 0
  OfKids ks a = (k : ℕ) × Memᴰ k ks × Below par k a

  -- The subtree of a first kid `k` and the walk over the others.
  kids_more :
      (n k : ℕ) (ks : List ℕ) (l l' : Links) (x : Out)
      → par k ≡ some n
      → ((a : ℕ) → Below par k a → Idle a)
      → Outside k l l'
      → Visited (OfKids ks) n l' x
      → Visited (OfKids (k ∷ ks)) n l x
  kids_more n k ks l l' _ up stuck out (idles l'' w rest out') =
      idles l'' w
        (λ a (j, i, d). elim (Memᴰ.cases_cons i) [
          | inl q ↦ stuck a (subst (λ z. Below par z a) q d)
          | inr i' ↦ rest a (j, i', d)
        ])
        (λ a p q h. out' a p q h ∙ out a p q (λ d. h (under n k p up d)))
  kids_more n k ks l l' _ up stuck out (takes a b wr q' flow' t' l'' (j, i, d) e q w) =
      takes a b wr q' flow' t' l'' (j, Memᴰ.tail i, d) e q w

  -- The loop over kids, where each one's walk returns.
  kids-Walked :
      (n : ℕ) (b : Bool) (ks : List ℕ) (o : Option ℕ) (l : Links)
      → ((k : ℕ)
          → par k ≡ some n
          → (b : Bool) (l : Links) → Same l
          → Walked (Below par k) k l (λ c g. visit c g k b (at l)))
      → Same l
      → Chain l o ks
      → ((k : ℕ) → Memᴰ k ks → par k ≡ some n)
      → Walked (OfKids ks) n l (λ c g. visit_kids c g b (at l) o)
  unfolding walk_kids
  kids-Walked n b [] o l ih w c up = (
    (none, at l),
    Returns-ok _ _ (λ _ _. rw c refl),
    idles l w (λ a (k, i, _). elim i [ ]) (λ _ _ _ _. refl),
  )
  kids-Walked n b (k ∷ ks) o l ih w (e, c) up =
      let (x, r, d) = ih k (up k (Memᴰ.head refl)) b l w in
      go (λ l' w' c'. kids-Walked n b ks (l'.next k) l' ih w' c' (λ a i. up a (Memᴰ.tail i))) x r d
    where
      go :
          ((l' : Links)
            → Same l'
            → Chain l' (l'.next k) ks
            → Walked (OfKids ks) n l' (λ c g. visit_kids c g b (at l') (l'.next k)))
          → (x : Out) → Returns (λ c g. visit c g k b (at l)) x
          → Visited (Below par k) k l x
          → Walked (OfKids (k ∷ ks)) n l (λ c g. visit_kids c g b (at l) o)
      go rec _ r (idles l' w' stuck out) =
          let up_k = up k (Memᴰ.head refl) in
          let stays_at : (a : ℕ) → par a ≡ some n → l'.next a ≡ l.next a =
            λ a q. out a n q (λ d. omega (arith, Below-rank par v k n d, v.rises k n up_k)) in
          let (y, r', d) = rec l' w' (
            rw (stays_at k up_k)
              (Chain-same l l' (l.next k) ks c (λ a i. stays_at a (up a (Memᴰ.tail i))))) in
          (
            y,
            Returns-suc (λ c g. visit_kids c g b (at l) o) y
                (rw e (Returns-bind (λ c g. visit c g k b (at l)) _ (none, at l') y r r')),
            kids_more n k ks l l' y up_k stuck out d,
          )
      go rec x r (takes a b' wr q' flow' t' l' i j q w') = (
        x,
        Returns-suc (λ c g. visit_kids c g b (at l) o) x
            (rw e
              (Returns-bind (λ c g. visit c g k b (at l)) _ x x r (Returns-ok _ _ (λ _ _. refl)))),
        takes a b' wr q' flow' t' l' (k, Memᴰ.head refl, i) j q w',
      )

  abbrev under_open : ℕ → Bool → S → Bool
  under_open n b s =
      open_below (λ t. t.links) (λ t. t.tree) (λ t l. record t { links = l }) sort n b s

  abbrev Strictly : ℕ → ℕ → Type 0
  Strictly n a = (k : ℕ) × (par k ≡ some n) × Below par k a

  Below-cases : (n a : ℕ) → Idle n → Below par n a → Idle a ⊎ Strictly n a
  Below-cases n _ i (top _) = inl i
  Below-cases n a i (under _ k _ up d) = inr (k, up, d)

  -- The nodes of a walk, under other names, and links from before the kids were sorted.
  restate :
      (B C : ℕ → Type 0) (n : ℕ) (l l' : Links) (x : Out)
      → ((a : ℕ) → B a → C a)
      → ((a : ℕ) → C a → Idle a ⊎ B a)
      → Outside n l l'
      → Visited B n l' x
      → Visited C n l x
  restate B C n l l' _ f g out (idles l'' w stuck out') =
      idles l'' w (λ a x. elim (g a x) [ inl i ↦ i | inr y ↦ stuck a y ])
        (λ a p q h. out' a p q h ∙ out a p q h)
  restate B C n l l' _ f g out (takes a b wr q' flow' t' l'' i e q w) =
      takes a b wr q' flow' t' l'' (f a i) e q w

  under-Walked :
      (n : ℕ) (b : Bool) (l : Links)
      → ((k : ℕ)
          → par k ≡ some n
          → (b : Bool) (l : Links) → Same l
          → Walked (Below par k) k l (λ c g. visit c g k b (at l)))
      → Same l
      → Walked (Strictly n) n l (λ c g. visit_below c g n b (at l) (l.kids n))
  unfolding walk_below
  under-Walked n b l ih (w, same) = elim (Option-cases (l.kids n)) [
    | inl e ↦ (
      (none, at l),
      Returns-ok _ _ (λ _ _. rw e refl),
      idles l (w, same) (λ a (k, up, _). elim (kids_all l w n [] e k (same k ∙ up)) [ ])
          (λ _ _ _ _. refl),
    )
    | inr (k, e) ↦
        let (l', r, (w', same', kept)) = in_order-Returns sort perm par n k (at l) w same e in
        let (ks, c) = kids-Chain l' w' n in
        let up : (a : ℕ) → Memᴰ a ks → par a ≡ some n = λ a i.
          sym (same' a)
          ∙ nodes_parent l' w' n (l'.kids n) ks c (λ j q. ((w'.linked n).kids_up j q).0) a i in
        let (x, r', d) =
          kids-Walked n (under_open n b (at l)) ks (l'.kids n) l' ih (w', same') c up in
        (
          x,
          Returns-suc (λ c g. visit_below c g n b (at l) (l.kids n)) x
              (rw e (Returns-bind (λ _ g. ordered_kids sort perm g n k (at l)) _ (at l') x r r')),
          restate (OfKids ks) (Strictly n) n l l' x (λ a (j, i, d). (j, up j i, d))
              (λ a (j, q, d). inr (j, kids_all l' w' n ks c j (same' j ∙ q), d))
              (λ a p q h. kept a (λ z. h (subst (Below par n) (ground (arith, z, q)) (top n)))) d,
        )
  ]

  -- The visit of the node itself.
  abbrev first : ℕ → Bool → Links → ℕ → Run Out
  first n b l c = if empty (s0.tree.q n) then ok (none, at l) else pop_node c flows m n b (at l)

  first-Walked :
      (n : ℕ) (b : Bool) (l : Links)
      → Same l
      → (Idle n × Returns (λ c _. first n b l c) (none, at l))
        ⊎ ((x : FrameWriteRequest × Option Flow) × (s' : S) × Returns
              (λ c _. first n b l c)
              (some x, s')
            × Visited (Below par n) n l (some x, s'))
  first-Walked n b l (w, same) = elim (Bool-cases (empty (s0.tree.q n))) [
    | inl y ↦ inl ((b, inl (empty→[] (s0.tree.q n) y)), Returns-ok _ _ (λ _ _. rw y refl))
    | inr y ↦ elim (pop_node-Taking flows m n b (at l) par v same (fed n)) [
      | stays i e ↦ inl ((b, i), Returns-ok _ _ (λ c _. rw y (e c)))
      | sends wr q' flow' t' e q r ↦ inr (
        (wr, flow'),
        record (at l) {
          tree = t';
          write_throttle_limit = throttle b s0.enable_write_throttle s0.write_throttle_limit;
        },
        (v.top, λ c _ i _. rw y (r c i)),
        takes n b wr q' flow' t' l (top n) e q (w, same),
      )
    ]
  ]

  -- The walk returns, for every large enough fuel.
  pub walk-Walked :
      (r n : ℕ) (b : Bool) (l : Links)
      → v.rank n < r
      → Same l
      → Walked (Below par n) n l (λ c g. visit c g n b (at l))
  unfolding walk
  walk-Walked zero n b l h w = absurd (omega (arith, h))
  walk-Walked (suc r) n b l h w = elim (first-Walked n b l w) [
    | inl (stuck, q) ↦
        let (x, r', d) =
          under-Walked n b l
            (λ k up b' l' w'. walk-Walked r k b' l' (omega (arith, h, v.rises k n up)) w') w in
        (
          x,
          Returns-suc (λ c g. visit c g n b (at l)) x
              (Returns-bind (λ c _. first n b l c) _ (none, at l) x q r'),
          restate (Strictly n) (Below par n) n l l x (λ a (k, up, d). under n k a up d)
              (λ a d. Below-cases n a stuck d) (λ _ _ _ _. refl) d,
        )
    | inr (x, s', q, d) ↦ (
      (some x, s'),
      Returns-suc (λ c g. visit c g n b (at l)) (some x, s')
          (Returns-bind (λ c _. first n b l c) _ (some x, s') (some x, s') q
            (Returns-ok _ _ (λ _ _. refl))),
      d,
    )
  ]
