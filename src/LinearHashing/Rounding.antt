-- ===== src/LinearHashing/Rounding.antt =====
-- The constructor of `LinearHashing`: the initial size is rounded up to a power of two.
use range_lh_cplus_plus.Base.{
  ℕ, zero, suc, ◌+◌, ◌-◌, ◌*◌, ◌/◌, ◌%◌, ◌^◌, ◌≤◌, ◌<◌, ◌≡◌, ◌≢◌, refl, sym, ap, ◌∙◌, arith, [],
  ne→==_false, length-replicate, get_or-replicate, replicate,
}
use range_lh_cplus_plus.Base.{length}
use range_lh_cplus_plus.Base.Words.{u32_mod, add32, sub32, sub32_small}
use range_lh_cplus_plus.Base.Bits.{pow_pos, pow_suc, pow_mono, lt_of_pow_lt, bit_and_mask}
use range_lh_cplus_plus.Base.Smear.{bit_and-div, smear_ones}
use range_lh_cplus_plus.LinearHashing.{Chain, LinearHashing, smear, round_up, new}
use range_lh_cplus_plus.LinearHashing.Chain.{total, workers_of}
use range_lh_cplus_plus.LinearHashing.Valid.{IsValid, stored}
use Prim.Native.Nat.{bit_and}
use native.Mathlib.Decide.{dec_lt, dec_le}
use native.Mathlib.Nat.{div-eq_of_lt, mod-eq_of_lt, mod_self, le-div_iff_mul-le, div-lt_iff_lt-mul}

-- the `l`-bit number `x` has ones in its highest `t` bits
abbrev HasOnes : ℕ → ℕ → ℕ → Type 0
HasOnes l t x = (x < 2 ^ l) × (2 ^ l ≤ x + 2 ^ (l - t))

smear-HasOnes : (l t x : ℕ) → HasOnes l t x → HasOnes l (2 * t) (smear t x)
unfolding smear
smear-HasOnes l t x (below, ones) = smear_ones l t x below ones

-- The five steps reach all of 32 bits.
smear_all :
    (k x : ℕ)
    → k < 32
    → 2 ^ k ≤ x
    → x < 2 ^ suc k
    → smear 16 (smear 8 (smear 4 (smear 2 (smear 1 x)))) ≡ 2 ^ suc k - 1
smear_all k x small lo hi =
    let down : suc k - 1 ≡ k = omega arith in
    let start : HasOnes (suc k) 1 x = (hi, rw down (omega (arith, pow_suc k))) in
    let s₁ = smear-HasOnes (suc k) 1 x start in
    let s₂ = smear-HasOnes (suc k) 2 _ s₁ in
    let s₃ = smear-HasOnes (suc k) 4 _ s₂ in
    let s₄ = smear-HasOnes (suc k) 8 _ s₃ in
    let s₅ = smear-HasOnes (suc k) 16 _ s₄ in
    let over : suc k - 2 * 16 ≡ 0 = omega arith in
    let full = rw over at (s₅.1) in omega (arith, s₅.0)

quotient_one : (m a : ℕ) → m ≤ a → a < 2 * m → a / m ≡ 1
quotient_one m a lo hi =
    let pos : 0 < m = omega arith in
    omega (
      arith,
      (le-div_iff_mul-le {x = 1} {y = a} pos).1 (omega arith),
      (div-lt_iff_lt-mul {x = a} {y = 2} pos).1 (omega arith),
    )

-- a number strictly between two powers of two is no power of two
not_power : (k n : ℕ) → 2 ^ k < n → n < 2 ^ suc k → bit_and n (n - 1) ≢ 0
not_power k n lo hi e =
    let top : n / 2 ^ k ≡ 1 = quotient_one (2 ^ k) n (omega arith) (omega (arith, pow_suc k)) in
    let top' : (n - 1) / 2 ^ k ≡ 1 =
      quotient_one (2 ^ k) (n - 1) (omega arith) (omega (arith, pow_suc k)) in
    let both : bit_and n (n - 1) / 2 ^ k ≡ 1 = bit_and-div k n (n - 1) ∙ rw (top, top') in
    let gone : bit_and n (n - 1) / 2 ^ k ≡ 0 = rw e (div-eq_of_lt (pow_pos k)) in omega arith

round_up-power : (k : ℕ) → k < 32 → round_up (2 ^ k) ≡ 2 ^ k
unfolding round_up
round_up-power k h = rw (
  sub32_small (2 ^ k) 1 (omega (arith, pow_mono k 31 (omega arith))) (pow_pos k),
  bit_and_mask k (2 ^ k),
  mod_self,
)

-- A 32-bit initial size above 2^k and up to 2^(k+1), with k below 32, is rounded by the
-- constructor's shifts to 2^(k+1) modulo 2^32: to the next power of two, and to 0 where that power
-- does not fit 32 bits.
pub round_up_lem :
    (k n : ℕ) → k < 32 → n < u32_mod → 2 ^ k < n → n ≤ 2 ^ suc k → round_up n ≡ 2 ^ suc k % u32_mod
unfolding round_up add32
round_up_lem k n small word lo hi =
    let less : sub32 n 1 ≡ n - 1 = sub32_small n 1 word (omega arith) in
    elim (dec_lt n (2 ^ suc k)) [
      | yes between ↦
          rw
            (
              less,
              ne→==_false _ _ (not_power k n lo between),
              smear_all k (n - 1) small (omega arith) (omega arith),
            )
            (ap (λ (x : ℕ). x % u32_mod) (omega (arith, pow_pos (suc k))))
      | no edge ↦
          let e : n ≡ 2 ^ suc k = omega arith in
          let fits : suc k < 32 = lt_of_pow_lt (suc k) 32 (omega arith) in
          ap round_up e ∙ round_up-power (suc k) fits ∙ sym (mod-eq_of_lt (omega arith))
    ]

ceil_log : (b n : ℕ) → 1 < n → n ≤ 2 ^ b → (k : ℕ) × (k < b) × (2 ^ k < n) × (n ≤ 2 ^ suc k)
ceil_log zero n more less = absurd (omega arith)
ceil_log (suc b) n more less = elim (dec_le n (2 ^ b)) [
  | yes low ↦ let (k, kb, lo, hi) = ceil_log b n more low in (k, omega arith, lo, hi)
  | no high ↦ (b, omega arith, omega arith, less)
]

-- The rounded size is a power of two, at least the size asked for and less than twice it.
pub round_up_bounds :
    (n : ℕ)
    → 0 < n
    → n ≤ 2 ^ 30
    → (e : ℕ) × (round_up n ≡ 2 ^ e) × (e ≤ 30) × (n ≤ 2 ^ e) × (2 ^ e < 2 * n)
round_up_bounds n pos small = elim (dec_lt 1 n) [
  | yes more ↦
      let (k, kb, lo, hi) = ceil_log 30 n more small in
      (
        suc k,
        round_up_lem k n (omega arith) (omega arith) lo hi
            ∙ mod-eq_of_lt (omega (arith, pow_mono (suc k) 30 kb)),
        kb,
        hi,
        omega (arith, pow_suc k),
      )
  | no one ↦
      let e : n ≡ 1 = omega arith in
      (0, ap round_up e ∙ round_up-power 0 (omega arith), omega arith, omega arith, omega arith)
]

total-replicate : (n : ℕ) → total (replicate n []) ≡ 0
unfolding total
total-replicate zero = refl
total-replicate (suc n) = omega (arith, total-replicate n)

-- what a fresh table is
pub record IsFresh {D : Type 0} (n : ℕ) (t : LinearHashing D) : Type 0 where
  pub valid : IsValid t
  pub initial : length t.buckets ≡ t.initial_buckets
  pub enough : n ≤ length t.buckets
  pub tight : length t.buckets < 2 * n
  pub at_start : (t.level ≡ 0) × (t.next ≡ 0)
  pub empty : (q : ℕ) → stored t q ≡ []

-- For an initial size from 1 to 2^30 the constructor makes a table that satisfies the invariant
-- and holds nothing under any id, with at least as many buckets as asked for and fewer than twice
-- as many; that number is also the initial one, and the level and the next bucket to split are 0.
pub new_table-IsFresh :
    {D : Type 0} (n : ℕ) (max_load : D) → 0 < n → n ≤ 2 ^ 30 → IsFresh n (new n max_load)
unfolding new stored workers_of
new_table-IsFresh n max_load pos small =
    let (e, size, e_le, lo, hi) = round_up_bounds n pos small in
    record {
      valid = record {
        exponent = e;
        m = 2 ^ e;
        power = size;
        round = ap (λ (i : ℕ). 2 ^ i) (omega arith);
        room = omega arith;
        next_lt = pow_pos e;
        width = length-replicate (round_up n) [] ∙ size ∙ omega arith;
        placed = λ i. rw (get_or-replicate {A = Chain} (round_up n) i []) tt;
        counted = rw total-replicate;
      };
      initial = length-replicate (round_up n) [];
      enough = rw (length-replicate {A = Chain} (round_up n) [], size) lo;
      tight = rw (length-replicate {A = Chain} (round_up n) [], size) hi;
      at_start = (refl, refl);
      empty = λ q. ap (workers_of q) (get_or-replicate (round_up n) _ []);
    }
