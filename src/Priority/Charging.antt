-- ===== src/Priority/Charging.antt =====
-- writesched_priority.go, addBytes: the bytes are charged to a node and to every node above it.
use h2stream.Prelude.{
  ℕ, zero, suc, ◌+◌, ◌≤◌, ◌<◌, ◌≡◌, ◌⊎◌, inl, inr, refl, ap, sym, ◌∙◌, subst, Option, none, some,
  ◌==◌, ==→≡, arith, Bool-cases, ok,
}
use h2stream.Prelude.Int.{ℤ, ◌+ℤ◌, wrap64}
use h2stream.Priority.{set, Links, Nodes, climb, add_bytes}
use h2stream.Priority.Returns.{from-suc}

-- A rank of the nodes below a bound, which rises to a node's parent: the links have no cycle.
pub record IsRanked (par : ℕ → Option ℕ) : Type 0 where
  pub rank : ℕ → ℕ
  pub top : ℕ
  pub rises : (a p : ℕ) → par a ≡ some p → rank a < rank p
  pub under : (a : ℕ) → rank a < top

-- The nodes of the subtree at `n`.
pub data Below (par : ℕ → Option ℕ) : ℕ → ℕ → Type 0 where
  top : (n : ℕ) → Below par n n
  under : (n k a : ℕ) → par k ≡ some n → Below par k a → Below par n a

pub Below-rank :
    (par : ℕ → Option ℕ) (v : IsRanked par) (n a : ℕ) → Below par n a → v.rank a ≤ v.rank n
Below-rank par v n _ (top _) = omega arith
Below-rank par v n a (under _ k _ e b) = omega (arith, v.rises k n e, Below-rank par v k a b)

-- A node is in the subtree of each node above its parent.
Below-up : (par : ℕ → Option ℕ) (k p n : ℕ) → par n ≡ some p → Below par k p → Below par k n
Below-up par k _ n e (top _) = under k n n e (top n)
Below-up par k p n e (under _ j _ e' d) = under k j n e' (Below-up par j p n e d)

-- The node at the end of some link, and the nodes above it.
abbrev Above : (ℕ → Option ℕ) → ℕ → Option ℕ → Type 0
Above par k o = (n : ℕ) × (o ≡ some n) × Below par k n

Below-parent : (par : ℕ → Option ℕ) (k n : ℕ) → Below par k n → (k ≡ n) ⊎ Above par k (par n)
Below-parent par k _ (top _) = inl refl
Below-parent par k n (under _ j _ e d) = elim (Below-parent par j n d) [
  | inl q ↦ inr (k, subst (λ z. par z ≡ some k) q e, top k)
  | inr (p, e', d') ↦ inr (p, e', under k j p e d')
]

-- The bytes are counted once for every node of `B`, and for no other; what else nodes hold stays.
pub record Counts (B : ℕ → Type 0) (b : ℤ) (ns ns' : Nodes) : Type 0 where
  pub counted : (k : ℕ) → B k → ns'.subtree_bytes k ≡ wrap64 (ns.subtree_bytes k +ℤ b)
  pub apart : (k : ℕ) → ¬ B k → ns'.subtree_bytes k ≡ ns.subtree_bytes k
  pub same_q : ns'.q ≡ ns.q
  pub same_id : ns'.id ≡ ns.id
  pub same_weight : ns'.weight ≡ ns.weight
  pub same_state : ns'.state ≡ ns.state
  pub same_bytes : ns'.bytes ≡ ns.bytes

-- The bytes are charged to the node, and to the subtree of every node above it.
abbrev pub Charged : (ℕ → Option ℕ) → ℕ → ℤ → Nodes → Nodes → Type 0
Charged par n b ns ns' =
    Counts (λ k. Below par k n) b (record ns { bytes = set ns.bytes n (wrap64 (ns.bytes n +ℤ b)) })
      ns'

module _ (par : ℕ → Option ℕ) (v : IsRanked par) (l : Links)
    (same_par : (a : ℕ) → l.parent a ≡ par a) where
  abbrev charged : ℕ → ℤ → Nodes → Nodes
  charged n b ns = record ns {
    subtree_bytes = set ns.subtree_bytes n (wrap64 (ns.subtree_bytes n +ℤ b));
  }

  no_cycle : (n : ℕ) → ¬ Above par n (l.parent n)
  no_cycle n (p, e, d) = omega (arith, Below-rank par v n p d, v.rises n p (sym (same_par n) ∙ e))

  count_more :
      (n : ℕ) (b : ℤ) (ns ns' : Nodes)
      → Counts (λ k. Above par k (l.parent n)) b (charged n b ns) ns'
      → Counts (λ k. Above par k (some n)) b ns ns'
  count_more n b ns ns' c = record {
    counted = λ k (j, e, d).
        let e' : n ≡ j = ground (arith, e) in
        elim (Below-parent par k n (subst (Below par k) (sym e') d)) [
          | inl q ↦ rw q (c.apart n (no_cycle n) ∙ at_n)
          | inr (p, u, d') ↦
              c.counted k (p, same_par n ∙ u, d')
              ∙ ap (λ z. wrap64 (z +ℤ b))
                  (off k
                    (λ q. no_cycle n (p, same_par n ∙ u, subst (λ z. Below par z p) (sym q) d')))
        ];
    apart = λ k h.
        c.apart k (λ (p, u, d). h (n, refl, Below-up par k p n (sym (same_par n) ∙ u) d))
        ∙ off k (λ q. h (n, refl, subst (λ z. Below par z n) q (top n)));
    same_q = c.same_q;
    same_id = c.same_id;
    same_weight = c.same_weight;
    same_state = c.same_state;
    same_bytes = c.same_bytes;
  }
    where
      at_n : (charged n b ns).subtree_bytes n ≡ wrap64 (ns.subtree_bytes n +ℤ b)
      at_n = ground arith

      off : (k : ℕ) → ¬ (n ≡ k) → (charged n b ns).subtree_bytes k ≡ ns.subtree_bytes k
      off k h = elim (Bool-cases (n == k)) [ inl y ↦ absurd (h (==→≡ n k y)) | inr y ↦ rw y refl ]

  climb_ends :
      (d : ℕ) (o : Option ℕ) (b : ℤ) (ns : Nodes)
      → ((n : ℕ) → o ≡ some n → v.top ≤ d + v.rank n)
      → (ns' : Nodes) × ((c : ℕ) → d ≤ c → climb c l o b ns ≡ ok ns')
        × Counts (λ k. Above par k o) b ns ns'
  unfolding climb
  climb_ends d none b ns h = (
    ns,
    λ c _. refl,
    record {
      counted = λ k (j, e, d). absurd (ground (arith, e));
      apart = λ k h. refl;
      same_q = refl;
      same_id = refl;
      same_weight = refl;
      same_state = refl;
      same_bytes = refl;
    },
  )
  climb_ends zero (some n) b ns h = absurd (ground (arith, h n refl, v.under n))
  climb_ends (suc d) (some n) b ns h =
      let (ns', e, q) =
        climb_ends d (l.parent n) b (charged n b ns)
          (λ p x. ground (arith, h n refl, v.rises n p, same_par n, x)) in
      (ns', from-suc (λ c. climb c l (some n) b ns) ns' d e, count_more n b ns ns' q)

  -- addBytes ends, and charges the node and the nodes above it.
  pub add_bytes_ends :
      (n : ℕ) (b : ℤ) (ns : Nodes)
      → (ns' : Nodes) × ((c : ℕ) → v.top ≤ c → add_bytes c l n b ns ≡ ok ns')
        × Charged par n b ns ns'
  unfolding add_bytes
  add_bytes_ends n b ns =
      let (ns', e, c) =
        climb_ends v.top (some n) b
          (record ns { bytes = set ns.bytes n (wrap64 (ns.bytes n +ℤ b)) }) (λ _ _. omega arith) in
      (
        ns',
        e,
        record {
          counted = λ k d. c.counted k (n, refl, d);
          apart = λ k h. c.apart k (λ (j, q, d). h (subst (Below par k) (ground (arith, q)) d));
          same_q = c.same_q;
          same_id = c.same_id;
          same_weight = c.same_weight;
          same_state = c.same_state;
          same_bytes = c.same_bytes;
        },
      )
