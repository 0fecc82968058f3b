-- ===== src/Priority.antt =====
-- writesched_priority.go: the nodes of the priority tree, as objects at addresses, and their links.
-- A field of the nodes is a function of the address, and a write to it an update at one address;
-- the nil pointer is `none`. The root has the address 0.
pub mod Siblings
pub mod Moving
pub mod Chains
pub mod Returns
pub mod Sorting
pub mod Order
pub mod Walk
pub mod Scheduler
pub mod Taking
pub mod Visiting
pub mod Charging
pub mod Popping
pub mod Removing
pub mod Ranking
pub mod Adjusting
pub mod Keeping
pub mod Settling
pub mod Calls
pub mod Fifo
use h2stream.Prelude.{
  ℕ, zero, suc, ◌+◌, Bool, true, false, Option, none, some, List, [], ◌∷◌, ◌++◌, ◌==◌,
  if◌then◌else◌, Run, ok, panic, out_of_fuel, ◌>>=◌,
}
use h2stream.Prelude.Int.{ℤ, ◌+ℤ◌, wrap64}
use h2stream.WriteQueue.{WriteQueue}

-- f[a] = v
abbrev pub set {ℓ} : {V : Type ℓ} → (ℕ → V) → ℕ → V → ℕ → V
set f a v b = if a == b then v else f b

-- priorityNodeState
pub data NodeState : Type 0 where
  opened closed idle : NodeState

-- The links of priorityNode that form the tree.
pub record Links : Type 0 where
  pub parent : ℕ → Option ℕ
  pub kids : ℕ → Option ℕ
  pub prev : ℕ → Option ℕ
  pub next : ℕ → Option ℕ

-- The other fields of priorityNode.
pub record Nodes : Type 0 where
  pub q : ℕ → WriteQueue
  pub id : ℕ → ℕ
  pub weight : ℕ → ℕ
  pub state : ℕ → NodeState
  pub bytes : ℕ → ℤ
  pub subtree_bytes : ℕ → ℤ

-- Equality of pointers.
abbrev pub same : Option ℕ → Option ℕ → Bool
same none none = true
same none (some b) = false
same (some a) none = false
same (some a) (some b) = a == b

-- setParent, the part that unlinks the node: its list of siblings closes up.
unfoldable pub close_up : Links → ℕ → Option ℕ → Links
close_up l n none = l
close_up l n (some c) = record l { prev = set l.prev c (l.prev n) }

unfoldable pub unlink_from : Links → ℕ → ℕ → Option ℕ → Links
unfolding close_up
unlink_from l n p none =
    let l' : Links = record l { kids = set l.kids p (l.next n) } in close_up l' n (l'.next n)
unlink_from l n p (some b) =
    let l' : Links = record l { next = set l.next b (l.next n) } in close_up l' n (l'.next n)

unfoldable pub unlink : Links → ℕ → Option ℕ → Links
unfolding unlink_from
unlink l n none = l
unlink l n (some p) = unlink_from l n p (l.prev n)

-- setParent, the part that links it to the new parent, at the head of its kids.
unfoldable pub link_before : Links → ℕ → Option ℕ → Links
link_before l n none = l
link_before l n (some c) = record l { prev = set l.prev c (some n) }

unfoldable pub link : Links → ℕ → Option ℕ → Links
unfolding link_before
link l n none = record l {
  parent = set l.parent n none;
  next = set l.next n none;
  prev = set l.prev n none;
}
link l n (some p) =
    let l' : Links = record l {
      parent = set l.parent n (some p);
      next = set l.next n (l.kids p);
      prev = set l.prev n none;
    } in
    let l'' = link_before l' n (l'.next n) in record l'' { kids = set l''.kids p (some n) }

-- setParent
unfoldable pub set_parent : Links → ℕ → Option ℕ → Run Links
unfolding unlink link
set_parent l n parent =
    if same (some n) parent
    then panic
    else ok (if same (l.parent n) parent then l else link (unlink l n (l.parent n)) n parent)

-- The loop of addBytes over the ancestors.
unfoldable pub climb : ℕ → Links → Option ℕ → ℤ → Nodes → Run Nodes
climb f l none b ns = ok ns
climb zero l (some n) b ns = out_of_fuel
climb (suc f) l (some n) b ns =
    climb f l (l.parent n) b
      (record ns { subtree_bytes = set ns.subtree_bytes n (wrap64 (ns.subtree_bytes n +ℤ b)) })

-- addBytes
unfoldable pub add_bytes : ℕ → Links → ℕ → ℤ → Nodes → Run Nodes
unfolding climb
add_bytes f l n b ns =
    climb f l (some n) b (record ns { bytes = set ns.bytes n (wrap64 (ns.bytes n +ℤ b)) })
