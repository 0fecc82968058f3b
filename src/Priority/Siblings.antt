-- ===== src/Priority/Siblings.antt =====
-- writesched_priority.go, setParent: the doubly linked lists of siblings, and a node's way out of one.
use h2stream.Prelude.{
  ℕ, ◌<◌, ◌≡◌, ◌≢◌, refl, Bool, true, false, Option, none, some, ◌==◌, if◌then◌else◌, arith,
  Option-cases, inl, inr,
}
use h2stream.Priority.{set, Links, close_up, unlink_from, unlink}

-- What the links of one node say agrees with those of its neighbours; `pos` rises along a list.
pub record AtNode (l : Links) (pos : ℕ → ℕ) (a : ℕ) : Type 0 where
  pub next_back : (b : ℕ) → l.next a ≡ some b → (l.prev b ≡ some a) × (l.parent b ≡ l.parent a)
  pub prev_forth : (b : ℕ) → l.prev a ≡ some b → (l.next b ≡ some a) × (l.parent b ≡ l.parent a)
  pub kids_up : (b : ℕ) → l.kids a ≡ some b → (l.parent b ≡ some a) × (l.prev b ≡ none)
  pub first_kid : (p : ℕ) → l.parent a ≡ some p → l.prev a ≡ none → l.kids p ≡ some a
  pub alone : l.parent a ≡ none → (l.next a ≡ none) × (l.prev a ≡ none)
  pub own_parent : l.parent a ≢ some a
  pub ordered : (b : ℕ) → l.next a ≡ some b → pos a < pos b

abbrev pub IsLinked : Links → (ℕ → ℕ) → Type 0
IsLinked l pos = (a : ℕ) → AtNode l pos a

-- The same for every node but `n`, to which no link leads.
pub record IsOff (l : Links) (pos : ℕ → ℕ) (n : ℕ) : Type 0 where
  pub next_back :
      (a b : ℕ)
      → a ≢ n
      → l.next a ≡ some b
      → (b ≢ n) × (l.prev b ≡ some a) × (l.parent b ≡ l.parent a)
  pub prev_forth :
      (a b : ℕ)
      → a ≢ n
      → l.prev a ≡ some b
      → (b ≢ n) × (l.next b ≡ some a) × (l.parent b ≡ l.parent a)
  pub kids_up : (a b : ℕ) → l.kids a ≡ some b → (b ≢ n) × (l.parent b ≡ some a) × (l.prev b ≡ none)
  pub first_kid : (a p : ℕ) → a ≢ n → l.parent a ≡ some p → l.prev a ≡ none → l.kids p ≡ some a
  pub alone : (a : ℕ) → a ≢ n → l.parent a ≡ none → (l.next a ≡ none) × (l.prev a ≡ none)
  pub own_parent : (a : ℕ) → a ≢ n → l.parent a ≢ some a
  pub ordered : (a b : ℕ) → a ≢ n → l.next a ≡ some b → pos a < pos b

-- A node with no parent is not linked to.
free-IsOff : (l : Links) (pos : ℕ → ℕ) (n : ℕ) → IsLinked l pos → l.parent n ≡ none → IsOff l pos n
free-IsOff l pos n v e = record {
  next_back = λ a b h q. ground (arith, (v a).next_back b, (v n).alone);
  prev_forth = λ a b h q. ground (arith, (v a).prev_forth b, (v n).alone);
  first_kid = λ a r h. (v a).first_kid r;
  alone = λ a h. (v a).alone;
  own_parent = λ a h. (v a).own_parent;
  ordered = λ a b h. (v a).ordered b;
  kids_up = λ a b q. ground (arith, (v a).kids_up b);
}

-- The first of several siblings is unlinked.
first-IsOff :
    (l : Links) (pos : ℕ → ℕ) (n p c : ℕ)
    → IsLinked l pos
    → l.parent n ≡ some p
    → l.prev n ≡ none
    → l.next n ≡ some c
    → IsOff (record l { kids = set l.kids p (some c); prev = set l.prev c none }) pos n
first-IsOff l pos n p c v e f g = record {
  next_back = λ a b h q. ground (arith, (v a).next_back b, (v b).prev_forth a, (v n).next_back c);
  prev_forth = λ a b h q. ground (arith, (v a).prev_forth b, (v n).next_back c);
  first_kid = λ a r h q s. ground (arith, (v a).first_kid r, (v n).next_back c, (v n).first_kid p);
  alone = λ a h q. ground (arith, (v a).alone, (v n).next_back c);
  own_parent = λ a h. (v a).own_parent;
  ordered = λ a b h. (v a).ordered b;
  kids_up = λ a b q.
      ground (arith, (v a).kids_up b, (v n).next_back c, (v n).first_kid p, (v c).ordered c);
}

only-IsOff :
    (l : Links) (pos : ℕ → ℕ) (n p : ℕ)
    → IsLinked l pos
    → l.parent n ≡ some p
    → l.prev n ≡ none
    → l.next n ≡ none
    → IsOff (record l { kids = set l.kids p none }) pos n
only-IsOff l pos n p v e f g = record {
  next_back = λ a b h q. ground (arith, (v a).next_back b, (v b).prev_forth a);
  prev_forth = λ a b h q. ground (arith, (v a).prev_forth b);
  first_kid = λ a r h q s. ground (arith, (v a).first_kid r, (v n).first_kid p);
  alone = λ a h. (v a).alone;
  own_parent = λ a h. (v a).own_parent;
  ordered = λ a b h. (v a).ordered b;
  kids_up = λ a b q. ground (arith, (v a).kids_up b, (v n).first_kid p);
}

last-IsOff :
    (l : Links) (pos : ℕ → ℕ) (n b : ℕ)
    → IsLinked l pos
    → l.prev n ≡ some b
    → l.next n ≡ none
    → IsOff (record l { next = set l.next b none }) pos n
last-IsOff l pos n b v f g = record {
  next_back = λ a x h q. ground (arith, (v a).next_back x, (v n).prev_forth b);
  prev_forth = λ a x h q. ground (arith, (v a).prev_forth x, (v n).prev_forth b);
  first_kid = λ a r h. (v a).first_kid r;
  alone = λ a h q. ground (arith, (v a).alone, (v n).prev_forth b);
  own_parent = λ a h. (v a).own_parent;
  ordered = λ a x h q. ground (arith, (v a).ordered x);
  kids_up = λ a x q. ground (arith, (v a).kids_up x);
}

between-IsOff :
    (l : Links) (pos : ℕ → ℕ) (n b c : ℕ)
    → IsLinked l pos
    → l.prev n ≡ some b
    → l.next n ≡ some c
    → IsOff (record l { next = set l.next b (some c); prev = set l.prev c (some b) }) pos n
between-IsOff l pos n b c v f g = record {
  next_back = λ a x h q. ground (
    arith,
    (v a).next_back x,
    (v x).prev_forth a,
    (v n).prev_forth b,
    (v n).next_back c,
    (v n).ordered n,
    (v c).ordered c,
  );
  prev_forth = λ a x h q. ground (
    arith,
    (v a).prev_forth x,
    (v x).next_back a,
    (v n).prev_forth b,
    (v n).next_back c,
    (v n).ordered n,
    (v c).ordered c,
  );
  first_kid = λ a r h q s. ground (arith, (v a).first_kid r, (v n).next_back c);
  alone = λ a h q. ground (arith, (v a).alone, (v n).prev_forth b, (v n).next_back c);
  own_parent = λ a h. (v a).own_parent;
  ordered = λ a x h q.
      ground (arith, (v a).ordered x, (v b).ordered n, (v n).ordered c, (v n).prev_forth b);
  kids_up = λ a x q. ground (arith, (v a).kids_up x, (v n).next_back c);
}

-- A choice of equals.
choose-same : (b : Bool) (x : Option ℕ) → (if b then x else x) ≡ x
choose-same true x = refl
choose-same false x = refl

-- The node is taken out of its list of siblings.
pub unlink-IsOff :
    (l : Links) (pos : ℕ → ℕ) (n : ℕ) → IsLinked l pos → IsOff (unlink l n (l.parent n)) pos n
unfolding unlink unlink_from close_up
unlink-IsOff l pos n v = elim (Option-cases (l.parent n)) [
  | inl e ↦ rw (e) (free-IsOff l pos n v e)
  | inr (p, e) ↦ elim (Option-cases (l.prev n)) [
    | inl f ↦ elim (Option-cases (l.next n)) [
      | inl g ↦ rw (e, f, g) (only-IsOff l pos n p v e f g)
      | inr (c, g) ↦ rw (e, f, g, close_up, f, g) (first-IsOff l pos n p c v e f g)
    ]
    | inr (b, f) ↦ elim (Option-cases (l.next n)) [
      | inl g ↦ rw (e, f, g, choose-same (b == n) none) (last-IsOff l pos n b v f g)
      | inr (c, g) ↦
          rw (e, f, g, choose-same (b == n) (some c), close_up, f, g)
            (between-IsOff l pos n b c v f g)
    ]
  ]
]
