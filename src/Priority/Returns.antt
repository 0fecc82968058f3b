-- ===== src/Priority/Returns.antt =====
-- That a call returns a value for all large enough fuel, given twice: to the callback and to the walk.
use h2stream.Prelude.{ℕ, suc, zero, ◌≤◌, ◌≡◌, ◌+◌, arith, Run, ok, ◌>>=◌}

abbrev pub Returns {ℓ} : {A : Type ℓ} → (ℕ → ℕ → Run A) → A → Type ℓ
Returns r v = (e : ℕ) × ((c g : ℕ) → e ≤ c → e ≤ g → r c g ≡ ok v)

module _ {ℓ κ} {A : Type ℓ} {B : Type κ} where
  pub Returns-bind :
      (r : ℕ → ℕ → Run A) (k : ℕ → ℕ → A → Run B) (v : A) (w : B)
      → Returns r v
      → Returns (λ c g. k c g v) w
      → Returns (λ c g. r c g >>= k c g) w
  Returns-bind r k v w (d, x) (e, y) = (
    d + e,
    λ c g h i.
        rw (x c g (omega (arith, h)) (omega (arith, i)))
          (y c g (omega (arith, h)) (omega (arith, i))),
  )

module _ {ℓ} {A : Type ℓ} where
  -- One unit of the fuel is used.
  pub Returns-suc : (r : ℕ → ℕ → Run A) (v : A) → Returns (λ c g. r c (suc g)) v → Returns r v
  Returns-suc r v (e, x) = (suc e, λ c g. go c g)
    where
      go : (c g : ℕ) → suc e ≤ c → suc e ≤ g → r c g ≡ ok v
      go c zero h i = absurd (omega (arith, i))
      go c (suc g) h i = x c g (omega (arith, h)) (omega (arith, i))

  pub Returns-ok : (r : ℕ → ℕ → Run A) (v : A) → ((c g : ℕ) → r c g ≡ ok v) → Returns r v
  Returns-ok r v h = (0, λ c g x y. h c g)

  -- The same for one fuel and a bound that is given.
  pub from-suc :
      (r : ℕ → Run A) (v : A) (d : ℕ)
      → ((c : ℕ) → d ≤ c → r (suc c) ≡ ok v)
      → (c : ℕ) → suc d ≤ c
      → r c ≡ ok v
  from-suc r v d h zero i = absurd (omega (arith, i))
  from-suc r v d h (suc c) i = h c (omega (arith, i))
