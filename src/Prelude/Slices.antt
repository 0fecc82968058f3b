-- ===== src/Prelude/Slices.antt =====
-- Go slices: `c[r:w]`, and `copy(c[w:], p)`.
use Prim.Native.Nat.{ℕ, zero, suc, ◌+◌, ◌-◌, ◌≤◌}
use Prim.Native.Nat.add
use mathlib.Core.Path.{◌≡◌, refl, ap}
use mathlib.Core.List.{List, [], ◌∷◌, ◌++◌}
use native.Mathlib.Omega.{arith}
use h2stream.Prelude.Lists.{length, take, drop, length-take}

module _ {ℓ} {A : Type ℓ} where
  -- c[r:w]
  abbrev pub slice : ℕ → ℕ → List A → List A
  slice zero w c = take w c
  slice (suc r) zero c = []
  slice (suc r) (suc w) [] = []
  slice (suc r) (suc w) (x ∷ c) = slice r w c

  -- The array `c` after copy(c[w:], p), which stops at the end of the shorter of the two.
  abbrev pub copy_at : List A → ℕ → List A → List A
  copy_at [] w p = []
  copy_at (x ∷ c) zero [] = x ∷ c
  copy_at (x ∷ c) zero (y ∷ p) = y ∷ copy_at c zero p
  copy_at (x ∷ c) (suc w) p = x ∷ copy_at c w p

  pub length-copy_at : (c : List A) (w : ℕ) (p : List A) → length (copy_at c w p) ≡ length c
  length-copy_at [] w p = refl
  length-copy_at (x ∷ c) zero [] = refl
  length-copy_at (x ∷ c) zero (y ∷ p) = ap suc (length-copy_at c zero p)
  length-copy_at (x ∷ c) (suc w) p = ap suc (length-copy_at c w p)

  pub length-slice : (r w : ℕ) (c : List A) → r ≤ w → w ≤ length c → length (slice r w c) ≡ w - r
  length-slice zero w c h k = omega (arith, length-take w c)
  length-slice (suc r) zero c h k = absurd (omega arith)
  length-slice (suc r) (suc w) [] h k = absurd (omega arith)
  length-slice (suc r) (suc w) (x ∷ c) h k =
      omega (arith, length-slice r w c (omega arith) (omega arith))

  take-copy_zero :
      (c p : List A) (n : ℕ) → n ≤ length c → n ≤ length p → take n (copy_at c zero p) ≡ take n p
  take-copy_zero c p zero h k = refl
  take-copy_zero [] p (suc n) h k = absurd (omega arith)
  take-copy_zero (x ∷ c) [] (suc n) h k = absurd (omega arith)
  take-copy_zero (x ∷ c) (y ∷ p) (suc n) h k =
      ap (◌∷◌ y) (take-copy_zero c p n (omega arith) (omega arith))

  take-copy_at :
      (w : ℕ) (c p : List A) (n : ℕ)
      → w + n ≤ length c
      → n ≤ length p
      → take (w + n) (copy_at c w p) ≡ take w c ++ take n p
  take-copy_at zero c p n h k = rw (add.zero n) (take-copy_zero c p n (omega arith) k)
  take-copy_at (suc w) [] p n h k = absurd (omega arith)
  take-copy_at (suc w) (x ∷ c) p n h k =
      rw (add.suc w n) (ap (◌∷◌ x) (take-copy_at w c p n (omega arith) k))

  -- What was written follows what was there.
  pub slice-copy_at :
      (r w : ℕ) (c p : List A) (n : ℕ)
      → r ≤ w
      → w + n ≤ length c
      → n ≤ length p
      → slice r (w + n) (copy_at c w p) ≡ slice r w c ++ take n p
  slice-copy_at zero w c p n h k l = take-copy_at w c p n k l
  slice-copy_at (suc r) zero c p n h k l = absurd (omega arith)
  slice-copy_at (suc r) (suc w) [] p n h k l = absurd (omega arith)
  slice-copy_at (suc r) (suc w) (x ∷ c) p n h k l =
      rw (add.suc w n) (slice-copy_at r w c p n (omega arith) (omega arith) l)

  -- A slice up to the end is what `drop` leaves.
  pub slice_full : (r : ℕ) (c : List A) → r ≤ length c → slice r (length c) c ≡ drop r c
  slice_full zero [] h = refl
  slice_full zero (x ∷ c) h = ap (◌∷◌ x) (slice_full zero c (omega arith))
  slice_full (suc r) [] h = refl
  slice_full (suc r) (x ∷ c) h = slice_full r c (omega arith)

  pub drop-drop : (n r : ℕ) (c : List A) → drop n (drop r c) ≡ drop (r + n) c
  drop-drop n zero c = rw (add.zero n)
  drop-drop zero (suc r) [] = rw (add.suc r zero)
  drop-drop (suc n) (suc r) [] = rw (add.suc r (suc n))
  drop-drop n (suc r) (x ∷ c) = rw (add.suc r n) (drop-drop n r c)

  pub drop-slice : (n r w : ℕ) (c : List A) → r + n ≤ w → drop n (slice r w c) ≡ slice (r + n) w c
  drop-slice zero zero w c h = refl
  drop-slice (suc n) zero zero c h = absurd (omega arith)
  drop-slice (suc n) zero (suc w) [] h = rw (add.zero (suc n))
  drop-slice (suc n) zero (suc w) (x ∷ c) h =
      rw (add.zero (suc n)) (rw (add.zero n) at (drop-slice n zero w c (omega arith)))
  drop-slice n (suc r) zero c h = absurd (omega arith)
  drop-slice zero (suc r) (suc w) [] h = rw (add.suc r zero)
  drop-slice (suc n) (suc r) (suc w) [] h = rw (add.suc r (suc n))
  drop-slice n (suc r) (suc w) (x ∷ c) h = rw (add.suc r n) (drop-slice n r w c (omega arith))
