-- ===== src/Base/Words.antt =====
-- Unsigned machine words as native numbers: each operation wraps around at the width.
use Prim.Native.Nat.{ℕ, ◌+◌, ◌-◌, ◌*◌, ◌/◌, ◌%◌, ◌^◌, ◌≤◌, ◌<◌}
use mathlib.Core.Path.{◌≡◌}
use range_lh_cplus_plus.Base.Tests.{ltb, if◌then◌else◌, lt→ltb, le→ltb_false}
use range_lh_cplus_plus.Base.Run.{Run, ok, undefined}
use native.Mathlib.Omega.{arith}
use native.Mathlib.Nat.{pow-le-pow_right}

abbrev pub u32_mod : ℕ
u32_mod = 2 ^ 32

abbrev pub u64_mod : ℕ
u64_mod = 2 ^ 64

-- `a + b`, `a - b` and `a << i` on `uint32_t` (`i < 32`)
unfoldable pub add32 : ℕ → ℕ → ℕ
add32 a b = (a + b) % u32_mod

unfoldable pub sub32 : ℕ → ℕ → ℕ
sub32 a b = (a + u32_mod - b) % u32_mod

unfoldable pub shl32 : ℕ → ℕ → ℕ
shl32 a i = a * 2 ^ i % u32_mod

-- the same on `uint64_t`
unfoldable pub add64 : ℕ → ℕ → ℕ
add64 a b = (a + b) % u64_mod

unfoldable pub sub64 : ℕ → ℕ → ℕ
sub64 a b = (a + u64_mod - b) % u64_mod

unfoldable pub mul64 : ℕ → ℕ → ℕ
mul64 a b = a * b % u64_mod

unfoldable pub shl64 : ℕ → ℕ → ℕ
shl64 a i = a * 2 ^ i % u64_mod

-- `a >> i`
abbrev pub shr : ℕ → ℕ → ℕ
shr a i = a / 2 ^ i

-- The shifts of `uint64_t` values: undefined by 64 or more.
unfoldable pub shift_left : ℕ → ℕ → Run ℕ
shift_left a i = if ltb i 64 then ok (shl64 a i) else undefined

unfoldable pub shift_right : ℕ → ℕ → Run ℕ
shift_right a i = if ltb i 64 then ok (shr a i) else undefined

pub add32_small : (a b : ℕ) → a + b < u32_mod → add32 a b ≡ a + b
unfolding add32
add32_small a b h = omega arith

pub sub32_small : (a b : ℕ) → a < u32_mod → b ≤ a → sub32 a b ≡ a - b
unfolding sub32
sub32_small a b h k = omega arith

pub add64_small : (a b : ℕ) → a + b < u64_mod → add64 a b ≡ a + b
unfolding add64
add64_small a b h = omega arith

pub sub64_small : (a b : ℕ) → a < u64_mod → b ≤ a → sub64 a b ≡ a - b
unfolding sub64
sub64_small a b h k = omega arith

pub mul64_small : (a b : ℕ) → a * b < u64_mod → mul64 a b ≡ a * b
unfolding mul64
mul64_small a b h = omega arith

pub shl64_small : (a i : ℕ) → a * 2 ^ i < u64_mod → shl64 a i ≡ a * 2 ^ i
unfolding shl64
shl64_small a i h = omega arith

pub shift_left-ok : (a i : ℕ) → i < 64 → a * 2 ^ i < u64_mod → shift_left a i ≡ ok (a * 2 ^ i)
unfolding shift_left
shift_left-ok a i h fits = rw (lt→ltb i 64 h, shl64_small a i fits)

pub shift_right-ok : (a i : ℕ) → i < 64 → shift_right a i ≡ ok (shr a i)
unfolding shift_right
shift_right-ok a i h = rw (lt→ltb i 64 h)

pub shift_right-undefined : (a i : ℕ) → 64 ≤ i → shift_right a i ≡ undefined
unfolding shift_right
shift_right-undefined a i h = rw (le→ltb_false i 64 h)

-- `1ULL << i`
pub shift_left-one : (i : ℕ) → i < 64 → shift_left 1 i ≡ ok (2 ^ i)
unfolding shift_left shl64
shift_left-one i h =
    let fits : 2 ^ i ≤ 2 ^ 63 = pow-le-pow_right (omega arith) {j = 63} (omega arith) in
    let e : 1 * 2 ^ i % u64_mod ≡ 2 ^ i = omega arith in rw (lt→ltb i 64 h, e)
