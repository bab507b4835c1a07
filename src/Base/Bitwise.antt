-- ===== src/Base/Bitwise.antt =====
-- The native `&` and `|` as operations on the lowest digit and on the rest: what they do in common.
use Prim.Native.Nat.{
  ℕ, zero, suc, ◌+◌, ◌-◌, ◌*◌, ◌/◌, ◌%◌, ◌≤◌, digits, bitwise, min, max, bit_and, bit_or,
  bit_and-bitwise, bit_or-bitwise,
}
use mathlib.Core.Path.{◌≡◌, refl, sym, ap, ◌∙◌}
use native.Mathlib.Omega.{arith}

-- An operation on digits, with the result once the first number is used up.
module _ (tail : ℕ → ℕ) (op : ℕ → ℕ → ℕ) where
  -- Rounds beyond the number itself change nothing.
  digits_surplus : (extra n x y : ℕ) → x ≤ n → digits tail op (n + extra) x y ≡ digits tail op n x y
  digits_surplus zero zero x y h = refl
  digits_surplus (suc extra) zero zero y h =
      let e : 0 + suc extra ≡ suc extra = omega arith in ap (λ r. digits tail op r 0 y) e
  digits_surplus (suc extra) zero (suc x) y h = absurd (omega arith)
  digits_surplus extra (suc n) zero y h =
      let e : suc n + extra ≡ suc (n + extra) = omega arith in ap (λ r. digits tail op r 0 y) e
  digits_surplus extra (suc n) (suc x) y h =
      let e : suc n + extra ≡ suc (n + extra) = omega arith in
      ap (λ r. digits tail op r (suc x) y) e
      ∙ ap (λ high. high * 2 + op (suc x % 2) (y % 2))
          (digits_surplus extra n (suc x / 2) (y / 2) (omega arith))

  bitwise_enough : (n x y : ℕ) → x ≤ n → digits tail op n x y ≡ bitwise tail op x y
  bitwise_enough n x y h =
      let e : x + (n - x) ≡ n = omega arith in
      ap (λ r. digits tail op r x y) (sym e) ∙ digits_surplus (n - x) x x y (omega arith)

  -- Operations whose result on 0 has the digits that the operation makes go digit by digit.
  bitwise_lowest :
      ((y : ℕ) → tail y ≡ tail (y / 2) * 2 + op 0 (y % 2))
      → (x y : ℕ) → bitwise tail op x y ≡ bitwise tail op (x / 2) (y / 2) * 2 + op (x % 2) (y % 2)
  bitwise_lowest law zero y = law y
  bitwise_lowest law (suc x) y =
      ap (λ high. high * 2 + op (suc x % 2) (y % 2))
        (bitwise_enough x (suc x / 2) (y / 2) (omega arith))

pub bit_and_step : (a b : ℕ) → bit_and a b ≡ bit_and (a / 2) (b / 2) * 2 + min (a % 2) (b % 2)
bit_and_step a b =
    bit_and-bitwise a b
    ∙ bitwise_lowest (λ _. 0) min (λ y. omega arith) a b
    ∙ ap (λ high. high * 2 + min (a % 2) (b % 2)) (sym (bit_and-bitwise (a / 2) (b / 2)))

pub bit_or_step : (a b : ℕ) → bit_or a b ≡ bit_or (a / 2) (b / 2) * 2 + max (a % 2) (b % 2)
bit_or_step a b =
    bit_or-bitwise a b
    ∙ bitwise_lowest (λ y. y) max (λ y. omega arith) a b
    ∙ ap (λ high. high * 2 + max (a % 2) (b % 2)) (sym (bit_or-bitwise (a / 2) (b / 2)))

-- A function of the second number that the digits force is the operation with that first number.
pub halving :
    (g h : ℕ → ℕ)
    → (g 0 ≡ h 0)
    → ((x : ℕ) → g (x / 2) ≡ h (x / 2) → g x ≡ h x)
    → (bound x : ℕ) → x ≤ bound
    → g x ≡ h x
halving g h start step bound zero le = start
halving g h start step zero (suc x) le = absurd (omega arith)
halving g h start step (suc bound) (suc x) le =
    step (suc x) (halving g h start step bound (suc x / 2) (omega arith))

pub bit_and-zero : (a : ℕ) → bit_and a 0 ≡ 0
bit_and-zero a =
    halving (λ x. bit_and x 0) (λ x. 0) refl (λ x below. omega (arith, bit_and_step x 0, below)) a a
      (omega arith)

pub bit_or-zero : (a : ℕ) → bit_or a 0 ≡ a
bit_or-zero a =
    halving (λ x. bit_or x 0) (λ x. x) refl (λ x below. omega (arith, bit_or_step x 0, below)) a a
      (omega arith)
