-- ===== src/Base/Bits.antt =====
-- Masks and shifts: what `&` and `|` do on numbers of every size.
use Prim.Native.Nat.{ℕ, zero, suc, ◌+◌, ◌-◌, ◌*◌, ◌/◌, ◌%◌, ◌^◌, ◌≤◌, ◌<◌, bit_and}
use mathlib.Core.Path.{◌≡◌, ap}
use mathlib.Core.Logic.{◌⊎◌, inl, inr}
use range_lh_cplus_plus.Base.Bitwise.{bit_and_step, bit_and-zero}
use native.Mathlib.Decide.{ℕ_discrete, dec_lt}
use native.Mathlib.Omega.{arith}
use native.Mathlib.Nat.{
  pow-suc, add-mul-mod_self_right, mod-eq_of_lt, mod-lt, div-add-mod', pow-le-pow_right,
  zero-add as zero_add,
}

pub pow_pos : (k : ℕ) → 0 < 2 ^ k
pow_pos zero = omega arith
pow_pos (suc k) = rw pow-suc (omega (arith, pow_pos k))

pub pow_suc : (k : ℕ) → 2 ^ suc k ≡ 2 * 2 ^ k
pow_suc k = rw pow-suc (omega arith)

half_mask : (m : ℕ) → 0 < m → (2 * m - 1) / 2 ≡ m - 1
half_mask m h = omega arith

-- Euclidean division is unique.
pub mod_unique : (a m q r : ℕ) → a ≡ r + q * m → r < m → a % m ≡ r
mod_unique a m q r e h = rw (e, add-mul-mod_self_right) (mod-eq_of_lt h)

pub mod_double_half : (a m : ℕ) → 0 < m → a % (2 * m) ≡ a / 2 % m * 2 + a % 2
mod_double_half a m h =
    mod_unique a (2 * m) (a / 2 / m) (a / 2 % m * 2 + a % 2) (omega (arith, div-add-mod' (a / 2) m))
      (omega (arith, mod-lt (a / 2) h))

-- `x & (2^k - 1)` is `x % 2^k`.
pub bit_and_mask : (k a : ℕ) → bit_and a (2 ^ k - 1) ≡ a % 2 ^ k
bit_and_mask zero a = omega (arith, bit_and-zero a)
bit_and_mask (suc k) a = rw pow_suc (
    omega (
      arith,
      pow_pos k,
      bit_and_step a (2 * 2 ^ k - 1),
      bit_and_mask k (a / 2),
      ap (bit_and (a / 2)) (half_mask (2 ^ k) (pow_pos k)),
      mod_double_half a (2 ^ k) (pow_pos k),
    ))

pub pow_add : (j k : ℕ) → 2 ^ (j + k) ≡ 2 ^ j * 2 ^ k
pow_add zero k = omega (arith, ap (λ (t : ℕ). 2 ^ t) (zero_add k))
pow_add (suc j) k =
    let e : suc j + k ≡ suc (j + k) = omega arith in
    rw (e, pow_suc (j + k), pow_suc j, pow_add j k) (omega arith)

pub pow_mono : (j k : ℕ) → j ≤ k → 2 ^ j ≤ 2 ^ k
pow_mono j k h = pow-le-pow_right (omega arith) h

pub lt_of_pow_lt : (j k : ℕ) → 2 ^ j < 2 ^ k → j < k
lt_of_pow_lt j k h = elim (dec_lt j k) [
  | yes p ↦ p
  | no p ↦ absurd (omega (arith, pow_mono k j (omega arith)))
]

-- Doubling the modulus keeps the remainder or adds the old modulus to it.
pub mod_double : (a m : ℕ) → 0 < m → (a % (2 * m) ≡ a % m) ⊎ (a % (2 * m) ≡ a % m + m)
mod_double a m h = elim (ℕ_discrete (a / m % 2) 0) [
  | yes even ↦
      let e : a / m ≡ a / m / 2 * 2 = omega arith in
      inl (
        mod_unique a (2 * m) (a / m / 2) (a % m)
          (omega (arith, div-add-mod' a m, ap (λ (t : ℕ). t * m) e)) (omega (arith, mod-lt a h)))
  | no odd ↦
      let e : a / m ≡ a / m / 2 * 2 + 1 = omega arith in
      inr (
        mod_unique a (2 * m) (a / m / 2) (a % m + m)
          (omega (arith, div-add-mod' a m, ap (λ (t : ℕ). t * m) e)) (omega (arith, mod-lt a h)))
]
