-- ===== src/Base/Digits.antt =====
-- Single binary digits: what `x & 1 << j` tests and `x |= 1 << j` sets.
use Prim.Native.Nat.{ℕ, zero, suc, ◌+◌, ◌-◌, ◌*◌, ◌/◌, ◌%◌, ◌^◌, ◌<◌, bit_and, bit_or}
use mathlib.Core.Path.{◌≡◌, ap, ◌∙◌}
use mathlib.Core.Logic.{◌≢◌}
use native.Mathlib.Omega.{arith}
use native.Mathlib.Decide.{dec_lt}
use native.Mathlib.Nat.{div-eq_of_lt, mul-div_cancel}
use range_lh_cplus_plus.Base.Tests.{◌==◌, if◌then◌else◌}
use range_lh_cplus_plus.Base.Bitwise.{bit_and_step, bit_or_step}
use range_lh_cplus_plus.Base.Bits.{bit_and_mask, pow_pos, pow_suc, pow_add, pow_mono}
use range_lh_cplus_plus.Base.Smear.{bit_or-div, div_pow_suc}

-- the digit of `w` at position `i`
abbrev pub digit : ℕ → ℕ → ℕ
digit w i = w / 2 ^ i % 2

pub bit_and_pow : (j w : ℕ) → bit_and w (2 ^ j) ≡ digit w j * 2 ^ j
bit_and_pow zero w = omega (arith, bit_and_mask 1 w)
bit_and_pow (suc j) w =
    let half : 2 * 2 ^ j / 2 ≡ 2 ^ j = omega arith in
    let even : 2 * 2 ^ j % 2 ≡ 0 = omega arith in
    rw (div_pow_suc w j, pow_suc j, bit_and_step w (2 * 2 ^ j), half, even, bit_and_pow j (w / 2))
      (omega arith)

digit-pow_self : (j : ℕ) → digit (2 ^ j) j ≡ 1
digit-pow_self j =
    let e : 2 ^ j / 2 ^ j ≡ 1 =
      ap (λ (n : ℕ). n / 2 ^ j) (omega arith) ∙ mul-div_cancel 1 (pow_pos j) in
    rw e

digit-pow_ne : (i j : ℕ) → i ≢ j → digit (2 ^ j) i ≡ 0
digit-pow_ne i j ne = elim (dec_lt i j) [
  | yes above ↦
      let e : j ≡ suc (j - i - 1) + i = omega arith in
      let q : 2 ^ j / 2 ^ i ≡ 2 * 2 ^ (j - i - 1) =
        ap (λ (n : ℕ). 2 ^ n / 2 ^ i) e
        ∙ rw (pow_add (suc (j - i - 1)) i, pow_suc (j - i - 1)) (mul-div_cancel _ (pow_pos i)) in
      rw q (omega arith)
  | no below ↦
      let small : 2 ^ j < 2 ^ i =
        omega (arith, pow_suc j, pow_pos j, pow_mono (suc j) i (omega arith)) in
      rw (div-eq_of_lt small)
]

pub digit-or_pow : (w i j : ℕ) → digit (bit_or w (2 ^ j)) i ≡ (if i == j then 1 else digit w i)
digit-or_pow w i j =
    let low = bit_or_step (w / 2 ^ i) (2 ^ j / 2 ^ i) in
    rw (bit_or-div i w (2 ^ j)) (ground (arith, low, digit-pow_ne i j, digit-pow_self j))
