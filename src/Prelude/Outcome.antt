-- ===== src/Prelude/Outcome.antt =====
-- How a call ends: it returns, it panics, or the model's fuel is used up.
use mathlib.Core.Path.{◌≡◌, refl, subst}
use mathlib.Core.Bool.{Bool, true, false}
use h2stream.Prelude.Tests.{if◌then◌else◌}

pub data Run {ℓ} (A : Type ℓ) : Type ℓ where
  ok : A → Run A
  panic out_of_fuel : Run A

infixl 5 ◌>>=◌
abbrev pub ◌>>=◌ {ℓ κ} : {A : Type ℓ} {B : Type κ} → Run A → (A → Run B) → Run B
ok a >>= f = f a
panic >>= f = panic
out_of_fuel >>= f = out_of_fuel

-- What holds of the result of a call if it returns.
abbrev pub Post {ℓ κ} : {A : Type ℓ} → Run A → (A → Type κ) → Type κ
Post (ok a) P = P a
Post panic P = Unit
Post out_of_fuel P = Unit

module _ {ℓ κ μ} {A : Type ℓ} {B : Type κ} where
  pub Post-bind {ν} :
      (P : A → Type ν) (Q : B → Type μ) (r : Run A) (f : A → Run B)
      → Post r P
      → ((a : A) → P a → Post (f a) Q)
      → Post (r >>= f) Q
  Post-bind P Q (ok a) f h k = k a h
  Post-bind P Q panic f h k = tt
  Post-bind P Q out_of_fuel f h k = tt

  -- Nothing is asked of the result of the first call.
  pub Post-any :
      (Q : B → Type μ) (r : Run A) (f : A → Run B) → ((a : A) → Post (f a) Q) → Post (r >>= f) Q
  Post-any Q (ok a) f k = k a
  Post-any Q panic f k = tt
  Post-any Q out_of_fuel f k = tt

module _ {ℓ κ} {A : Type ℓ} where
  -- The conclusion for a result at hand.
  pub Post-ok : (P : A → Type κ) (r : Run A) (a : A) → Post r P → r ≡ ok a → P a
  Post-ok P r a h e = subst (λ x. Post x P) e h

  pub Post-if :
      (P : A → Type κ) (b : Bool) (x y : Run A) → Post x P → Post y P → Post (if b then x else y) P
  Post-if P true x y h k = h
  Post-if P false x y h k = k

  pub Post-if_known :
      (P : A → Type κ) (b : Bool) (x y : Run A)
      → (b ≡ true → Post x P)
      → (b ≡ false → Post y P)
      → Post (if b then x else y) P
  Post-if_known P true x y h k = h refl
  Post-if_known P false x y h k = k refl
