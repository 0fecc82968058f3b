-- ===== src/Priority/Sorting.antt =====
-- writesched_priority.go, walkReadyInOrder: the kids of a node are taken off, sorted and linked again.
use h2stream.Prelude.{
  ℕ, suc, ◌≡◌, ◌≢◌, ◌⊎◌, inl, inr, refl, sym, ap, ◌∙◌, Option, none, some, List, [], ◌∷◌, Memᴰ,
  ◌==◌, ≡→==, Bool, true, false, arith, Option-cases, Bool-cases, Run, ok, ◌>>=◌, Post, Post-ok,
}
use mathlib.Core.List.Memᴰ
use h2stream.Priority.{set, Links, Nodes, set_parent, unlink, unlink_from, close_up, link}
use h2stream.Priority.Moving.{set_parent-Moved}
use h2stream.Priority.Walk.{need_sort, detach, attach, in_order}
use h2stream.Priority.Scheduler.{PriorityWriteScheduler}
use mathlib.Core.List.{Permᴰ}
use mathlib.Core.List.Permᴰ
use h2stream.Priority.Chains.{
  Chain, IsForest, nodes_from, kids-Chain, nodes_parent, nodes_above, kids_all, Chain-same,
}
use h2stream.Priority.Returns.{Returns, Returns-bind, Returns-suc, Returns-ok}

-- setParent on well-formed links.
pub move-IsForest :
    (l : Links) (n : ℕ) (parent : Option ℕ)
    → IsForest l
    → some n ≢ parent
    → (l' : Links) × (set_parent l n parent ≡ ok l')
      × IsForest l'
      × ((a : ℕ) → l'.parent a ≡ set l.parent n parent a)
      × ((a : ℕ) → a ≢ n → l.prev n ≢ some a → l'.next a ≡ l.next a)
move-IsForest l n parent v h =
    let (l', e, m) = set_parent-Moved l v.place n parent v.linked h in
    (
      l',
      e,
      record {
        place = m.place;
        bound = suc v.bound;
        linked = m.linked;
        near = λ a. omega (arith, m.close a, v.near a);
      },
      m.parents,
      m.rest,
    )

abbrev First : Links → ℕ → ℕ → Links → Type 0
First l n k l' = (l'.kids n ≡ l.next k) × ((a : ℕ) → a ≢ k → l'.next a ≡ l.next a)

-- The first kid of `n` leaves: the second one is then the first.
detached_links :
    (l l' : Links) (n k : ℕ)
    → l.parent k ≡ some n
    → l.prev k ≡ none
    → set_parent l k none ≡ ok l'
    → First l n k l'
unfolding set_parent link unlink unlink_from close_up
detached_links l l' n k e f q =
    Post-ok (First l n k) (set_parent l k none) l'
      (elim (Option-cases (l.next k)) [
        | inl g ↦ rw (Post, e, f, g, ≡→== n n refl) (refl, λ a h. ground (arith, g))
        | inr (c, g) ↦ rw (Post, e, f, g, ≡→== n n refl) (refl, λ a h. ground (arith, g))
      ])
      q

-- The parents, where kids of `n` may be detached.
abbrev pub Loose : (ℕ → Option ℕ) → ℕ → Links → Type 0
Loose par n l = (a : ℕ) → (l.parent a ≡ par a) ⊎ ((par a ≡ some n) × (l.parent a ≡ none))

-- The nodes that are not kids of `n` keep their next sibling.
abbrev pub Kept : (ℕ → Option ℕ) → ℕ → Links → Links → Type 0
Kept par n l l' = (a : ℕ) → par a ≢ some n → l'.next a ≡ l.next a

-- All kids leave, the first one first.
detach-Returns :
    (par : ℕ → Option ℕ) (n : ℕ) (ks : List ℕ) (l : Links)
    → IsForest l
    → Loose par n l
    → Chain l (l.kids n) ks
    → (l' : Links) × Returns (λ c g. detach g l n (l.kids n)) (ks, l')
      × IsForest l'
      × Loose par n l'
      × Kept par n l l'
unfolding detach
detach-Returns par n [] l v o c = (l, Returns-ok _ _ (λ _ g. rw c refl), v, o, λ a h. refl)
detach-Returns par n (k ∷ ks) l v o (e, c) =
    let (up, first) = (v.linked n).kids_up k e in
    let (l', q, v', same, _) = move-IsForest l k none v (λ x. ground (arith, x)) in
    let (kids', next') = detached_links l l' n k up first q in
    let (l'', r, v'', o'', kept) =
      detach-Returns par n ks l' v' (λ a. ground (arith, same a, o a, up))
        (rw kids' (
          Chain-same l l' (l.next k) ks c (λ a m. next' a (λ x.
            ground (
              arith,
              x,
              nodes_above l v (v.place k) (l.next k) ks c (v.linked k).ordered a m,
            ))))) in
    (
      l'',
      Returns-suc (λ _ g. detach g l n (l.kids n)) (k ∷ ks, l'')
          (rw (e, q)
            (Returns-bind (λ _ g. detach g l' n (l'.kids n)) (λ _ g (js, m). ok (k ∷ js, m))
              (ks, l'') (k ∷ ks, l'') r (Returns-ok _ _ (λ _ g. refl)))),
      v'',
      o'',
      λ a h. kept a h ∙ next' a (λ x. ground (arith, x, h, o k, up)),
    )

-- A kid is linked again.
attach-links :
    (par : ℕ → Option ℕ) (n : ℕ) (ks : List ℕ) (l : Links)
    → IsForest l
    → Loose par n l
    → ((a : ℕ) → Memᴰ a ks → (a ≢ n) × (par a ≡ some n))
    → (l' : Links) × (attach l n ks ≡ ok l')
      × IsForest l'
      × Loose par n l'
      × ((a : ℕ) → Memᴰ a ks → l'.parent a ≡ some n)
      × Kept par n l l'
unfolding attach
attach-links par n [] l v o h = (l, refl, v, o, λ a m. elim m [ ], λ a h. refl)
attach-links par n (k ∷ ks) l v o h =
    let (l', q, v', o', done, kept) = attach-links par n ks l v o (λ a m. h a (Memᴰ.tail m)) in
    let (other, up) = h k (Memᴰ.head refl) in
    let (l'', r, v'', same, rest) =
      move-IsForest l' k (some n) v' (λ x. ground (arith, x, other)) in
    (
      l'',
      rw (q, r) refl,
      v'',
      λ a. ground (arith, same a, o' a, up),
      λ a m. ground (arith, same a, Memᴰ.cases_cons m, done a),
      λ a i.
          rest a (λ x. ground (arith, x, i, up))
            (λ x.
              ground (arith, i, o' a, o' k, (v'.linked k).prev_forth a x, (v'.linked k).alone, x))
          ∙ kept a i,
    )

need_sort-Returns :
    (l : Links) (ns : Nodes) (w : ℕ) (o : Option ℕ) (ks : List ℕ)
    → Chain l o ks
    → (b : Bool) × Returns (λ c g. need_sort g l ns w o) b
unfolding need_sort
need_sort-Returns l ns w o [] c = (false, Returns-ok _ _ (λ _ g. rw c refl))
need_sort-Returns l ns w o (k ∷ ks) (e, c) =
    let (b, r) = need_sort-Returns l ns w (l.next k) ks c in
    elim (Bool-cases (ns.weight k == w)) [
      | inl y ↦ (b, Returns-suc (λ _ g. need_sort g l ns w o) b (rw (e, y) r))
      | inr y ↦ (
        true,
        Returns-suc (λ _ g. need_sort g l ns w o) true (rw (e, y) (Returns-ok _ _ (λ _ g. refl))),
      )
    ]

perm-Memᴰ : (xs ys : List ℕ) (a : ℕ) → Permᴰ xs ys → Memᴰ a xs → Memᴰ a ys
perm-Memᴰ [] [] a Permᴰ.nil m = m
perm-Memᴰ (x ∷ xs) (y ∷ ys) a (Permᴰ.cons e d) (Memᴰ.head q) = Memᴰ.head (q ∙ e)
perm-Memᴰ (x ∷ xs) (y ∷ ys) a (Permᴰ.cons e d) (Memᴰ.tail m) = Memᴰ.tail (perm-Memᴰ xs ys a d m)
perm-Memᴰ (x ∷ y ∷ xs) (z ∷ w ∷ ys) a (Permᴰ.swap e d) (Memᴰ.head q) = Memᴰ.tail (Memᴰ.head (q ∙ e))
perm-Memᴰ (x ∷ y ∷ xs) (z ∷ w ∷ ys) a (Permᴰ.swap e d) (Memᴰ.tail (Memᴰ.head q)) = Memᴰ.head (q ∙ d)
perm-Memᴰ (x ∷ y ∷ xs) (z ∷ w ∷ ys) a (Permᴰ.swap e d) (Memᴰ.tail (Memᴰ.tail m)) =
    Memᴰ.tail (Memᴰ.tail m)
perm-Memᴰ xs ys a (Permᴰ.trans d d') m = perm-Memᴰ _ ys a d' (perm-Memᴰ xs _ a d m)

abbrev S : Type 0
S = PriorityWriteScheduler

module _ (sort : Nodes → List ℕ → List ℕ)
    (perm : (ns : Nodes) (ks : List ℕ) → Permᴰ (sort ns ks) ks) where
  abbrev pub ordered_kids : ℕ → ℕ → ℕ → S → Run S
  ordered_kids g n k s =
      in_order (λ t. t.links) (λ t. t.tree) (λ t l. record t { links = l }) sort g n k s

  -- How the links may change: every node keeps its parent, and nodes with another parent than `n`
  -- their next sibling.
  abbrev pub Sorted : (ℕ → Option ℕ) → ℕ → Links → Links → Type 0
  Sorted par n l l' = IsForest l' × ((a : ℕ) → l'.parent a ≡ par a) × Kept par n l l'

  -- The kids leave and come back in another order.
  sort_kids-Returns :
      (par : ℕ → Option ℕ) (n k : ℕ) (s : S)
      → IsForest s.links
      → ((a : ℕ) → s.links.parent a ≡ par a)
      → s.links.kids n ≡ some k
      → (l' : Links) × Returns
          (λ c g. detach g s.links n (some k) >>= λ (ks, l).
            attach l n (sort s.tree ks) >>= λ l'. ok (record s { links = l' }))
          (record s { links = l' })
        × Sorted par n s.links l'
  sort_kids-Returns par n k s v p e =
      let l = s.links in
      let (ks, c) = kids-Chain l v n in
      let (l', r, v', o', kept) = detach-Returns par n ks l v (λ a. inl (p a)) c in
      let member : (a : ℕ) → Memᴰ a ks → l.parent a ≡ some n =
        nodes_parent l v n (l.kids n) ks c (λ b q. ((v.linked n).kids_up b q).0) in
      let (l'', q, v'', o'', done, kept') = attach-links par n (sort s.tree ks) l' v' o' (λ a m.
        let up = member a (perm-Memᴰ _ _ a (perm s.tree ks) m) in
        (λ x. (v.linked a).own_parent (up ∙ ap some (sym x)), sym (p a) ∙ up)) in
      let all : (a : ℕ) → par a ≡ some n → l''.parent a ≡ some n = λ a x.
        done a (perm-Memᴰ _ _ a (Permᴰ.symm (perm s.tree ks)) (kids_all l v n ks c a (p a ∙ x))) in
      (
        l'',
        Returns-bind (λ _ g. detach g l n (some k)) _ (ks, l') (record s { links = l'' })
            (rw (sym e) r) (Returns-ok _ _ (λ _ _. rw q refl)),
        (v'', λ a. ground (arith, o'' a, all a), λ a h. kept' a h ∙ kept a h),
      )

  -- The kids of a node are put in order.
  pub in_order-Returns :
      (par : ℕ → Option ℕ) (n k : ℕ) (s : S)
      → IsForest s.links
      → ((a : ℕ) → s.links.parent a ≡ par a)
      → s.links.kids n ≡ some k
      → (l' : Links) × Returns (λ c g. ordered_kids g n k s) (record s { links = l' })
        × Sorted par n s.links l'
  unfolding in_order
  in_order-Returns par n k s v p e =
      let l = s.links in
      let (js, d) = nodes_from l v v.bound (l.next k) (λ j q. omega arith) in
      let (mixed, r) = need_sort-Returns l s.tree (s.tree.weight k) (l.next k) js d in
      let (l', r', w) = sort_kids-Returns par n k s v p e in
      elim (Bool-cases mixed) [
        | inl y ↦ (
          l',
          Returns-bind (λ _ g. need_sort g l s.tree (s.tree.weight k) (l.next k)) _ mixed
              (record s { links = l' }) r (rw y r'),
          w,
        )
        | inr y ↦ (
          l,
          Returns-bind (λ _ g. need_sort g l s.tree (s.tree.weight k) (l.next k)) _ mixed s r
              (rw y (Returns-ok _ _ (λ _ _. refl))),
          (v, p, λ a h. refl),
        )
      ]
