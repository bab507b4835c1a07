-- ===== src/Base/Align.antt =====
-- `w & ~(2^s - 1)` on 64-bit words: the multiple of `2^s` at or below `w`.
use Prim.Native.Nat.{ℕ, zero, suc, ◌+◌, ◌-◌, ◌*◌, ◌/◌, ◌%◌, ◌^◌, ◌≤◌, ◌<◌, bit_and}
use mathlib.Core.Path.{◌≡◌, ap, ◌∙◌}
use native.Mathlib.Omega.{arith}
use native.Mathlib.Nat.{mod-eq_of_lt, div-add-mod', mod-lt, div-div-eq-div-mul}
use range_lh_cplus_plus.Base.Bitwise.{bit_and_step}
use range_lh_cplus_plus.Base.Bits.{pow_pos, pow_suc, bit_and_mask}

bit_and_high_mask :
    (s t w : ℕ) → w < 2 ^ (s + t) → bit_and w (2 ^ (s + t) - 2 ^ s) ≡ w / 2 ^ s * 2 ^ s
bit_and_high_mask zero t w h =
    let e : 0 + t ≡ t = omega arith in
    rw (e, bit_and_mask t w) (omega (arith, mod-eq_of_lt (rw e at h)))
bit_and_high_mask (suc s) t w h =
    let e : suc s + t ≡ suc (s + t) = omega arith in
    let h' : w < 2 * 2 ^ (s + t) = rw (e, pow_suc) at h in
    let half : (2 * 2 ^ (s + t) - 2 * 2 ^ s) / 2 ≡ 2 ^ (s + t) - 2 ^ s = omega arith in
    let even : (2 * 2 ^ (s + t) - 2 * 2 ^ s) % 2 ≡ 0 = omega arith in
    rw (e, pow_suc (s + t), pow_suc s, ← div-div-eq-div-mul w 2 (2 ^ s), bit_and_step w, half, even)
      (omega (arith, bit_and_high_mask s t (w / 2) (omega arith)))

-- The mask of the children lists.
pub bit_and_aligned :
    (s w : ℕ) → s ≤ 64 → w < 2 ^ 64 → bit_and w (2 ^ 64 - 1 - (2 ^ s - 1)) ≡ w / 2 ^ s * 2 ^ s
bit_and_aligned s w h k =
    let all : 64 ≡ s + (64 - s) = omega arith in
    let e : 2 ^ 64 - 1 - (2 ^ s - 1) ≡ 2 ^ 64 - 2 ^ s = omega (arith, pow_pos s) in
    let width : 2 ^ 64 ≡ 2 ^ (s + (64 - s)) = ap (λ (n : ℕ). 2 ^ n) all in
    ap (bit_and w) (e ∙ ap (λ (n : ℕ). n - 2 ^ s) width)
    ∙ bit_and_high_mask s (64 - s) w (omega (arith, width))

-- `w / m * m` is the multiple of `m` that `w` belongs to.
pub floor_bounds : (w m : ℕ) → 0 < m → (w / m * m ≤ w) × (w < w / m * m + m)
floor_bounds w m h = omega (arith, div-add-mod' w m, mod-lt w h)
