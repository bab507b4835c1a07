-- ===== src/Base/Vectors.antt =====
-- Reads of a `std::vector` after a write or a `push_back`.
use Prim.Native.Nat.{ℕ, zero, suc, ◌<◌}
use mathlib.Core.Path.{◌≡◌, refl, ap}
use mathlib.Core.Logic.{◌≢◌}
use mathlib.Core.List.{List, [], ◌∷◌, ◌++◌}
use native.Mathlib.Omega.{arith}
use range_lh_cplus_plus.Base.Lists.{length, set}
use range_lh_cplus_plus.Base.Run.{ok, undefined, at}

undefined_ne_ok : {A : Type 0} {a : A} → undefined ≢ ok a
undefined_ne_ok e = cc

module _ {A : Type 0} where
  pub at-lt : (xs : List A) (i : ℕ) (x : A) → at xs i ≡ ok x → i < length xs
  at-lt [] i x e = absurd (undefined_ne_ok e)
  at-lt (y ∷ xs) zero x e = omega arith
  at-lt (y ∷ xs) (suc i) x e = omega (arith, at-lt xs i x e)

  pub at-set_self : (xs : List A) (i : ℕ) (x : A) → i < length xs → at (set xs i x) i ≡ ok x
  at-set_self [] i x h = absurd (omega arith)
  at-set_self (y ∷ xs) zero x h = refl
  at-set_self (y ∷ xs) (suc i) x h = at-set_self xs i x (omega arith)

  pub at-set_ne : (xs : List A) (i j : ℕ) (x : A) → i ≢ j → at (set xs i x) j ≡ at xs j
  at-set_ne [] i j x h = refl
  at-set_ne (y ∷ xs) zero zero x h = absurd (h refl)
  at-set_ne (y ∷ xs) zero (suc j) x h = refl
  at-set_ne (y ∷ xs) (suc i) zero x h = refl
  at-set_ne (y ∷ xs) (suc i) (suc j) x h = at-set_ne xs i j x (λ e. h (ap suc e))

  pub at-append : (xs ys : List A) (i : ℕ) (x : A) → at xs i ≡ ok x → at (xs ++ ys) i ≡ ok x
  at-append [] ys i x e = absurd (undefined_ne_ok e)
  at-append (y ∷ xs) ys zero x e = e
  at-append (y ∷ xs) ys (suc i) x e = at-append xs ys i x e

  pub at-append_last : (xs : List A) (y : A) → at (xs ++ y ∷ []) (length xs) ≡ ok y
  at-append_last [] y = refl
  at-append_last (x ∷ xs) y = at-append_last xs y
