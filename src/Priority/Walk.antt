-- ===== src/Priority/Walk.antt =====
-- writesched_priority.go, walkReadyInOrder: the walk over the tree in priority order. `links` and
-- `nodes` are those of the scheduler S; `f` is the callback, which gives a result to end the walk.
-- `sort` is sort.Sort on the siblings' addresses, by the order Less.
use h2stream.Prelude.{
  ℕ, zero, suc, Bool, true, false, ◌||◌, Option, none, some, List, [], ◌∷◌, ◌==◌, if◌then◌else◌,
  Run, ok, out_of_fuel, ◌>>=◌,
}
use h2stream.WriteQueue.{empty}
use h2stream.Priority.{Links, Nodes, NodeState, opened, set_parent}

abbrev is_opened : NodeState → Bool
is_opened opened = true
is_opened _ = false

-- Whether a sibling from `k` on has a weight other than `w`.
unfoldable pub need_sort : ℕ → Links → Nodes → ℕ → Option ℕ → Run Bool
need_sort f l ns w none = ok false
need_sort zero l ns w (some k) = out_of_fuel
need_sort (suc f) l ns w (some k) =
    let rest = need_sort f l ns w (l.next k) in if ns.weight k == w then rest else ok true

-- The kids of `n` are taken off, the first one first.
unfoldable pub detach : ℕ → Links → ℕ → Option ℕ → Run (List ℕ × Links)
detach f l n none = ok ([], l)
detach zero l n (some k) = out_of_fuel
detach (suc f) l n (some k) =
    set_parent l k none >>= λ l'. detach f l' n (l'.kids n) >>= λ (ks, l''). ok (k ∷ ks, l'')

-- setParent inserts at the head of n.kids, so the last one is linked first.
unfoldable pub attach : Links → ℕ → List ℕ → Run Links
attach l n [] = ok l
attach l n (k ∷ ks) = attach l n ks >>= λ l'. set_parent l' k (some n)

module _ {S : Type 0} (links : S → Links) (nodes : S → Nodes) (relink : S → Links → S)
    (sort : Nodes → List ℕ → List ℕ) where
  -- The kids in the order of their priority.
  unfoldable pub in_order : ℕ → ℕ → ℕ → S → Run S
  in_order fuel n k s =
      need_sort fuel (links s) (nodes s) ((nodes s).weight k) ((links s).next k) >>= λ mixed.
      let sorted : Run S = detach fuel (links s) n (some k) >>= λ (ks, l).
      attach l n (sort (nodes s) ks) >>= λ l'. ok (relink s l') in
      if mixed then sorted else ok s

  -- openParent for the kids of `n`.
  abbrev pub open_below : ℕ → Bool → S → Bool
  open_below n open_parent s =
      if (nodes s).id n == 0 then open_parent else open_parent || is_opened ((nodes s).state n)

  module _ {R : Type 0} (f : ℕ → Bool → S → Run (Option R × S)) where
    abbrev pub Visit : Type 0
    Visit = Run (Option R × S)

    -- What follows a visit that may end the walk.
    abbrev pub or_else : Visit → (S → Visit) → Visit
    or_else r k = r >>= λ (o, s). elim o [ some a ↦ ok (some a, s) | none ↦ k s ]

    unfoldable mutual
      pub walk : ℕ → ℕ → Bool → S → Visit
      walk zero n open_parent s = out_of_fuel
      walk (suc fuel) n open_parent s =
          or_else (if empty ((nodes s).q n) then ok (none, s) else f n open_parent s)
            (λ s'. walk_below fuel n open_parent s' ((links s').kids n))

      -- The part of the walk below `n`, whose first kid is given.
      pub walk_below : ℕ → ℕ → Bool → S → Option ℕ → Visit
      walk_below fuel n open_parent s none = ok (none, s)
      walk_below zero n open_parent s (some k) = out_of_fuel
      walk_below (suc fuel) n open_parent s (some k) = in_order fuel n k s >>= λ s'.
          walk_kids fuel (open_below n open_parent s) s' ((links s').kids n)

      -- The loop over the kids from `k` on.
      pub walk_kids : ℕ → Bool → S → Option ℕ → Visit
      walk_kids fuel open_parent s none = ok (none, s)
      walk_kids zero open_parent s (some k) = out_of_fuel
      walk_kids (suc fuel) open_parent s (some k) =
          or_else (walk fuel k open_parent s)
            (λ s'. walk_kids fuel open_parent s' ((links s').next k))
