-- ===== src/Base/Run.antt =====
-- The result of a run of the C++ code: a value, a thrown `std::out_of_range`, behaviour that the
-- language leaves undefined (an index outside a vector, a null dereference, a division by zero, a
-- shift by the width or more, the overflow of an `int`, a conversion of a double that does not
-- fit), or a loop of the model that met the end of its fuel.
use mathlib.Core.List.{List, [], ◌∷◌}
use mathlib.Core.Path.{◌≡◌, refl}
use Prim.Native.Nat.{ℕ, zero, suc, ◌<◌, ◌≤◌}
use native.Mathlib.Omega.{arith}
use range_lh_cplus_plus.Base.Lists.{length, get_or}

pub data Run {ℓ} (A : Type ℓ) : Type ℓ where
  ok : A → Run A
  out_of_range : Run A
  undefined : Run A
  out_of_fuel : Run A

infixl 5 ◌>>=◌
abbrev pub ◌>>=◌ {ℓ κ} : {A : Type ℓ} {B : Type κ} → Run A → (A → Run B) → Run B
ok a >>= f = f a
out_of_range >>= f = out_of_range
undefined >>= f = undefined
out_of_fuel >>= f = out_of_fuel

-- `xs[i]` on a `std::vector`
abbrev pub at {ℓ} : {A : Type ℓ} → List A → ℕ → Run A
at [] i = undefined
at (x ∷ xs) zero = ok x
at (x ∷ xs) (suc i) = at xs i

pub at-get_or {ℓ} :
    {A : Type ℓ} (xs : List A) (i : ℕ) (d : A) → i < length xs → at xs i ≡ ok (get_or xs i d)
at-get_or [] i d h = elim h [ ]
at-get_or (x ∷ xs) zero d h = refl
at-get_or (x ∷ xs) (suc i) d h = at-get_or xs i d (omega arith)

pub at-undefined {ℓ} : {A : Type ℓ} (xs : List A) (i : ℕ) → length xs ≤ i → at xs i ≡ undefined
at-undefined [] i h = refl
at-undefined (x ∷ xs) zero h = absurd (omega arith)
at-undefined (x ∷ xs) (suc i) h = at-undefined xs i (omega arith)
