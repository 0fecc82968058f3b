-- ===== src/Priority/Chains.antt =====
-- writesched_priority.go: the kids of a node as a list, which the loops along next go through.
use h2stream.Prelude.{
  ℕ, zero, suc, ◌+◌, ◌≤◌, ◌<◌, ◌≡◌, inl, inr, refl, sym, ap, ◌∙◌, Option, none, some, List, [], ◌∷◌,
  Memᴰ, arith, Option-cases,
}
use h2stream.Priority.{Links}
use h2stream.Priority.Siblings.{IsLinked}

-- The nodes from `o` on along next.
abbrev pub Chain : Links → Option ℕ → List ℕ → Type 0
Chain l o [] = o ≡ none
Chain l o (k ∷ ks) = (o ≡ some k) × Chain l (l.next k) ks

-- The siblings' lists are well-formed and finite.
pub record IsForest (l : Links) : Type 0 where
  pub place : ℕ → ℕ
  pub bound : ℕ
  pub linked : IsLinked l place
  pub near : (a : ℕ) → place a < bound

pub nodes_from :
    (l : Links) (v : IsForest l) (f : ℕ) (o : Option ℕ)
    → ((k : ℕ) → o ≡ some k → v.bound ≤ f + v.place k)
    → (ks : List ℕ) × Chain l o ks
nodes_from l v zero o h = elim (Option-cases o) [
  | inl e ↦ ([], e)
  | inr (k, e) ↦ absurd (ground (arith, h k e, v.near k))
]
nodes_from l v (suc f) o h = elim (Option-cases o) [
  | inl e ↦ ([], e)
  | inr (k, e) ↦
      let (ks, c) =
        nodes_from l v f (l.next k) (λ b q. ground (arith, h k e, (v.linked k).ordered b q)) in
      (k ∷ ks, (e, c))
]

-- The kids of a node.
pub kids-Chain : (l : Links) (v : IsForest l) (n : ℕ) → (ks : List ℕ) × Chain l (l.kids n) ks
kids-Chain l v n = nodes_from l v v.bound (l.kids n) (λ k q. omega arith)

-- All of them have the node as parent.
pub nodes_parent :
    (l : Links) (v : IsForest l) (n : ℕ) (o : Option ℕ) (ks : List ℕ)
    → Chain l o ks
    → ((k : ℕ) → o ≡ some k → l.parent k ≡ some n)
    → (a : ℕ) → Memᴰ a ks
    → l.parent a ≡ some n
nodes_parent l v n o [] c h a m = elim m [ ]
nodes_parent l v n o (k ∷ ks) (e, c) h a (Memᴰ.head q) = rw q (h k e)
nodes_parent l v n o (k ∷ ks) (e, c) h a (Memᴰ.tail m) =
    nodes_parent l v n (l.next k) ks c (λ b q. ((v.linked k).next_back b q).1 ∙ h k e) a m

-- The places rise.
pub nodes_above :
    (l : Links) (v : IsForest l) (p : ℕ) (o : Option ℕ) (ks : List ℕ)
    → Chain l o ks
    → ((k : ℕ) → o ≡ some k → p < v.place k)
    → (a : ℕ) → Memᴰ a ks
    → p < v.place a
nodes_above l v p o [] c h a m = elim m [ ]
nodes_above l v p o (k ∷ ks) (e, c) h a (Memᴰ.head q) = rw q (h k e)
nodes_above l v p o (k ∷ ks) (e, c) h a (Memᴰ.tail m) =
    nodes_above l v p (l.next k) ks c (λ b q. ground (arith, h k e, (v.linked k).ordered b q)) a m

nodes_head :
    (l : Links) (o : Option ℕ) (ks : List ℕ) (a : ℕ) → Chain l o ks → o ≡ some a → Memᴰ a ks
nodes_head l o [] a c e = absurd (ground (arith, c, e))
nodes_head l o (k ∷ ks) a (q, c) e = Memᴰ.head (ground (arith, q, e))

-- What follows a member is a member.
nodes_next :
    (l : Links) (o : Option ℕ) (ks : List ℕ) (a b : ℕ)
    → Chain l o ks
    → Memᴰ a ks
    → l.next a ≡ some b
    → Memᴰ b ks
nodes_next l o [] a b c m h = elim m [ ]
nodes_next l o (k ∷ ks) a b (e, c) (Memᴰ.head q) h =
    Memᴰ.tail (nodes_head l (l.next k) ks b c (ap l.next (sym q) ∙ h))
nodes_next l o (k ∷ ks) a b (e, c) (Memᴰ.tail m) h =
    Memᴰ.tail (nodes_next l (l.next k) ks a b c m h)

-- Every node with the parent is among the parent's kids.
kids_all_from :
    (l : Links) (v : IsForest l) (n : ℕ) (ks : List ℕ)
    → Chain l (l.kids n) ks
    → (f a : ℕ) → v.place a < f
    → l.parent a ≡ some n
    → Memᴰ a ks
kids_all_from l v n ks c zero a h e = elim h [ ]
kids_all_from l v n ks c (suc f) a h e = elim (Option-cases (l.prev a)) [
  | inl q ↦ nodes_head l (l.kids n) ks a c ((v.linked a).first_kid n e q)
  | inr (b, q) ↦
      let (x, y) = (v.linked a).prev_forth b q in
      nodes_next l (l.kids n) ks b a c
        (kids_all_from l v n ks c f b (ground (arith, (v.linked b).ordered a x)) (y ∙ e)) x
]

pub kids_all :
    (l : Links) (v : IsForest l) (n : ℕ) (ks : List ℕ)
    → Chain l (l.kids n) ks
    → (a : ℕ) → l.parent a ≡ some n
    → Memᴰ a ks
kids_all l v n ks c a e = kids_all_from l v n ks c (suc (v.place a)) a (omega arith) e

-- A chain does not see a change of other nodes.
pub Chain-same :
    (l l' : Links) (o : Option ℕ) (ks : List ℕ)
    → Chain l o ks
    → ((a : ℕ) → Memᴰ a ks → l'.next a ≡ l.next a)
    → Chain l' o ks
Chain-same l l' o [] c h = c
Chain-same l l' o (k ∷ ks) (e, c) h =
    (e, rw (h k (Memᴰ.head refl)) (Chain-same l l' (l.next k) ks c (λ a m. h a (Memᴰ.tail m))))
