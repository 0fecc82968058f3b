-- ===== src/Priority/Moving.antt =====
-- writesched_priority.go, setParent: a node's way into a list of siblings, and the move from one to
-- another.
use h2stream.Prelude.{
  ◌∙◌, ap, ◌≤◌, ℕ, suc, ◌≡◌, ◌≢◌, refl, true, false, Option, none, some, ◌==◌, ≡→==, if◌then◌else◌,
  arith, Bool-cases, Option-cases, inl, inr, ok,
}
use h2stream.Priority.{
  set, Links, same, close_up, unlink_from, unlink, link_before, link, set_parent,
}
use h2stream.Priority.Siblings.{IsLinked, IsOff, unlink-IsOff}

-- The place of `n` before all others.
abbrev first_place : (ℕ → ℕ) → ℕ → ℕ → ℕ
first_place pos n a = if n == a then 0 else suc (pos a)

-- The node is linked at the head of a list of siblings, or of none.
before-IsLinked :
    (l : Links) (pos : ℕ → ℕ) (n p c : ℕ)
    → IsOff l pos n
    → p ≢ n
    → l.kids p ≡ some c
    → IsLinked
        (record l {
          parent = set l.parent n (some p);
          next = set l.next n (some c);
          prev = set (set l.prev n none) c (some n);
          kids = set l.kids p (some n);
        })
        (first_place pos n)
before-IsLinked l pos n p c o h k a = record {
  next_back = λ b q. ground (arith, o.next_back a b, o.kids_up p c);
  prev_forth = λ b q. ground (arith, o.prev_forth a b, o.kids_up p c, o.next_back b a);
  kids_up = λ b q. ground (arith, o.kids_up a b, o.kids_up p c);
  first_kid = λ r q s. ground (arith, o.first_kid a r, o.kids_up p c);
  alone = λ q. ground (arith, o.alone a, o.kids_up p c);
  own_parent = λ q. ground (arith, o.own_parent a);
  ordered = λ b q. ground (arith, o.ordered a b, o.next_back a b, o.kids_up p c);
}

only-IsLinked :
    (l : Links) (pos : ℕ → ℕ) (n p : ℕ)
    → IsOff l pos n
    → p ≢ n
    → l.kids p ≡ none
    → IsLinked
        (record l {
          parent = set l.parent n (some p);
          next = set l.next n none;
          prev = set l.prev n none;
          kids = set l.kids p (some n);
        })
        (first_place pos n)
only-IsLinked l pos n p o h k a = record {
  next_back = λ b q. ground (arith, o.next_back a b);
  prev_forth = λ b q. ground (arith, o.prev_forth a b);
  kids_up = λ b q. ground (arith, o.kids_up a b);
  first_kid = λ r q s. ground (arith, o.first_kid a r);
  alone = λ q. ground (arith, o.alone a);
  own_parent = λ q. ground (arith, o.own_parent a);
  ordered = λ b q. ground (arith, o.ordered a b, o.next_back a b);
}

free-IsLinked :
    (l : Links) (pos : ℕ → ℕ) (n : ℕ)
    → IsOff l pos n
    → IsLinked
        (record l {
          parent = set l.parent n none;
          next = set l.next n none;
          prev = set l.prev n none;
        })
        (first_place pos n)
free-IsLinked l pos n o a = record {
  next_back = λ b q. ground (arith, o.next_back a b);
  prev_forth = λ b q. ground (arith, o.prev_forth a b);
  kids_up = λ b q. ground (arith, o.kids_up a b);
  first_kid = λ r q s. ground (arith, o.first_kid a r);
  alone = λ q. ground (arith, o.alone a);
  own_parent = λ q. ground (arith, o.own_parent a);
  ordered = λ b q. ground (arith, o.ordered a b, o.next_back a b);
}

-- The links where the node stands under the parent given.
link-IsLinked :
    (l : Links) (pos : ℕ → ℕ) (n : ℕ) (parent : Option ℕ)
    → IsOff l pos n
    → same (some n) parent ≡ false
    → IsLinked (link l n parent) (first_place pos n)
unfolding link link_before
link-IsLinked l pos n none o h = free-IsLinked l pos n o
link-IsLinked l pos n (some p) o h = elim (Option-cases (l.kids p)) [
  | inl k ↦ rw (k, ≡→== n n refl) (only-IsLinked l pos n p o (λ e. ground (arith)) k)
  | inr (c, k) ↦ rw (k, ≡→== n n refl) (before-IsLinked l pos n p c o (λ e. ground (arith)) k)
]

link_before-parent : (l : Links) (n : ℕ) (o : Option ℕ) → (link_before l n o).parent ≡ l.parent
unfolding link_before
link_before-parent l n none = refl
link_before-parent l n (some c) = refl

link-parent :
    (l : Links) (n : ℕ) (parent : Option ℕ) → (link l n parent).parent ≡ set l.parent n parent
unfolding link
link-parent l n none = refl
link-parent l n (some p) = link_before-parent _ n _

close_up-parent : (l : Links) (n : ℕ) (o : Option ℕ) → (close_up l n o).parent ≡ l.parent
unfolding close_up
close_up-parent l n none = refl
close_up-parent l n (some c) = refl

unlink_from-parent : (l : Links) (n p : ℕ) (o : Option ℕ) → (unlink_from l n p o).parent ≡ l.parent
unfolding unlink_from
unlink_from-parent l n p none = close_up-parent _ n _
unlink_from-parent l n p (some b) = close_up-parent _ n _

unlink-parent : (l : Links) (n : ℕ) (p : Option ℕ) → (unlink l n p).parent ≡ l.parent
unfolding unlink
unlink-parent l n none = refl
unlink-parent l n (some p) = unlink_from-parent l n p (l.prev n)

-- The nodes after which no other comes.
link_before-next : (l : Links) (n : ℕ) (o : Option ℕ) → (link_before l n o).next ≡ l.next
unfolding link_before
link_before-next l n none = refl
link_before-next l n (some c) = refl

link-next :
    (l : Links) (n : ℕ) (parent : Option ℕ) (a : ℕ) → a ≢ n → (link l n parent).next a ≡ l.next a
unfolding link
link-next l n none a h = ground arith
link-next l n (some p) a h =
    ap (λ f. f a) {y = set l.next n (l.kids p)} (link_before-next _ n _) ∙ ground arith

close_up-next : (l : Links) (n : ℕ) (o : Option ℕ) (a : ℕ) → (close_up l n o).next a ≡ l.next a
unfolding close_up
close_up-next l n none a = refl
close_up-next l n (some c) a = refl

unlink_from-next :
    (l : Links) (n p : ℕ) (o : Option ℕ) (a : ℕ)
    → o ≢ some a
    → (unlink_from l n p o).next a ≡ l.next a
unfolding unlink_from
unlink_from-next l n p none a h =
    close_up-next (record l { kids = set l.kids p (l.next n) }) n (l.next n) a
unlink_from-next l n p (some b) a h =
    let m : Links = record l { next = set l.next b (l.next n) } in
    close_up-next m n (m.next n) a ∙ ground (arith, h)

unlink-next :
    (l : Links) (n : ℕ) (p : Option ℕ) (a : ℕ)
    → l.prev n ≢ some a
    → (unlink l n p).next a ≡ l.next a
unfolding unlink
unlink-next l n none a h = refl
unlink-next l n (some p) a h = unlink_from-next l n p (l.prev n) a h

pub same→≡ : (o q : Option ℕ) → same o q ≡ true → o ≡ q
same→≡ none none h = refl
same→≡ none (some b) h = ground arith
same→≡ (some a) none h = ground arith
same→≡ (some a) (some b) h = ground arith

-- How the links stand after a node has moved: the lists are right again, and the parents are those
-- from before but for the node's.
pub record Moved (l : Links) (pos : ℕ → ℕ) (n : ℕ) (parent : Option ℕ) (l' : Links) : Type 0 where
  pub place : ℕ → ℕ
  pub linked : IsLinked l' place
  pub close : (a : ℕ) → place a ≤ suc (pos a)
  pub rest : (a : ℕ) → a ≢ n → l.prev n ≢ some a → l'.next a ≡ l.next a
  pub parents : (a : ℕ) → l'.parent a ≡ set l.parent n parent a

-- On links that form doubly linked lists of siblings, setParent to another node than itself, or to
-- nil, does not panic. After it the links form such lists again: next and prev are inverse, a list
-- has no cycle, siblings have one parent, kids is the head of the list of exactly the nodes with
-- that parent, and a node with no parent has no siblings. The node has the parent given, and every
-- other node the one it had.
pub set_parent-Moved :
    (l : Links) (pos : ℕ → ℕ) (n : ℕ) (parent : Option ℕ)
    → IsLinked l pos
    → some n ≢ parent
    → (l' : Links) × (set_parent l n parent ≡ ok l') × Moved l pos n parent l'
unfolding set_parent
set_parent-Moved l pos n parent v h = elim (Bool-cases (same (some n) parent)) [
  | inl y ↦ absurd (h (same→≡ (some n) parent y))
  | inr y ↦ elim (Bool-cases (same (l.parent n) parent)) [
    | inl z ↦ (
      l,
      rw (y, z) refl,
      record {
        place = pos;
        linked = v;
        close = λ a. omega arith;
        rest = λ a i j. refl;
        parents = λ a. ground (arith, same→≡ (l.parent n) parent z);
      },
    )
    | inr z ↦ (
      link (unlink l n (l.parent n)) n parent,
      rw (y, z) refl,
      record {
        place = first_place pos n;
        linked = link-IsLinked _ pos n parent (unlink-IsOff l pos n v) y;
        close = λ a. ground arith;
        rest = λ a i j. link-next _ n parent a i ∙ unlink-next l n (l.parent n) a j;
        parents = λ a. rw (link-parent _ n parent, unlink-parent l n (l.parent n)) refl;
      },
    )
  ]
]
