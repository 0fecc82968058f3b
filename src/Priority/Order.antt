-- ===== src/Priority/Order.antt =====
-- writesched_priority.go, sortPriorityNodeSiblings: the order in which siblings are served. float64
-- is a parameter, with the conversion of an integer, division and comparison.
use h2stream.Prelude.{ℕ, ◌+◌, ◌%◌, ◌^◌, Bool, false, ◌&&◌, if◌then◌else◌}
use h2stream.Prelude.Int.{ℤ, pos}
use h2stream.Priority.{Nodes}

pub record Float64 : Type 1 where
  pub F : Type 0
  pub float : ℤ → F
  pub div : F → F → F
  -- a <= b
  pub leb_F : F → F → Bool

module _ (fl : Float64) where
  open fl use {F, float, div, leb_F}

  -- The tests == 0 and >=.
  abbrev pub is_zero : F → Bool
  is_zero x = leb_F x (float (pos 0)) && leb_F (float (pos 0)) x

  -- float64(z.weight+1): the sum is a uint8.
  abbrev pub weight_of : Nodes → ℕ → F
  weight_of ns i = float (pos ((ns.weight i + 1) % 2 ^ 8))

  -- Less, of the nodes at two addresses
  unfoldable pub less : Nodes → ℕ → ℕ → Bool
  less ns i k =
      let wi = weight_of ns i in
      let wk = weight_of ns k in
      let bi = float (ns.subtree_bytes i) in
      let bk = float (ns.subtree_bytes k) in
      if is_zero bi && is_zero bk
      then leb_F wk wi
      else (if is_zero bk then false else leb_F (div bi bk) (div wi wk))
