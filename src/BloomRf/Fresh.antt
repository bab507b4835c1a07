-- ===== src/BloomRf/Fresh.antt =====
-- The constructor of `BloomRF`.
use range_lh_cplus_plus.Base.{
  ℕ, zero, suc, ◌+◌, ◌-◌, ◌*◌, ◌/◌, ◌^◌, ◌≤◌, ◌<◌, ◌≡◌, refl, arith, length, ap, List, false,
  length-replicate, get_or-replicate, replicate,
}
use range_lh_cplus_plus.Base.Words.{
  add64, sub64, mul64, mul64_small, add64_small, sub64_small, sub32_small, shift_left-ok,
}
use range_lh_cplus_plus.Base.Bits.{pow_pos, pow_mono}
use range_lh_cplus_plus.Base.Run.{ok}
use range_lh_cplus_plus.Base.Float.{Float}
use range_lh_cplus_plus.BloomRf.{
  BloomRf, levels, raw_size, cal_size, hash_constants, new, primes_a, primes_b,
}
use range_lh_cplus_plus.BloomRf.Hashing.{IsValid}
use range_lh_cplus_plus.BloomRf.BitVector.{has_bit}
use range_lh_cplus_plus.BloomRf.Members.{has_prefix}
use native.Mathlib.Nat.{lt-div-mul-add, div-mul-le_self, zero-div, one-mul as one_mul}
use Prim.Native.Nat.{max}

length-hash_constants :
    (primes : List ℕ) (rounds i : ℕ) → length (hash_constants primes rounds i) ≡ rounds
unfolding hash_constants
length-hash_constants primes zero i = refl
length-hash_constants primes (suc rounds) i = ap suc (length-hash_constants primes rounds (suc i))

-- A filter as the constructor leaves it, `raw` being the number of bits that the formula gives.
pub record IsFresh {D : Type 0} (raw : ℕ) (f : BloomRf D) : Type 0 where
  pub valid : IsValid f
  pub enough : raw ≤ f.m
  pub tight : f.m < raw + f.word_bits
  pub vector : f.m ≤ 64 * length f.bits
  pub vector_tight : 64 * length f.bits < f.m + 64
  pub empty : (key i : ℕ) → has_prefix f key i ≡ false

positive_factor : (a b : ℕ) → 0 < a * b → 0 < a
positive_factor zero b h = absurd (omega arith)
positive_factor (suc a) b h = omega arith

-- rounding up to a multiple of `p`
words_for : (raw p : ℕ) → ℕ
words_for raw p = (raw + p - 1) / p

words_for_bounds :
    (raw p : ℕ) → 0 < p → (raw ≤ words_for raw p * p) × (words_for raw p * p < raw + p)
unfolding words_for
words_for_bounds raw p h = (
  omega (arith, lt-div-mul-add {a = raw + p - 1} h),
  omega (arith, div-mul-le_self (raw + p - 1) p),
)

made : {D : Type 0} → (n_items : ℕ) → D → (d delta m k : ℕ) → BloomRf D
made n_items fp_prob d delta m k = record {
  d = d;
  delta = delta;
  n_items = n_items;
  fp_prob = fp_prob;
  m = m;
  k = k;
  word_bits = 2 ^ (delta - 1);
  word_mask = 2 ^ delta - 1;
  bits = replicate ((m + 63) / 64) 0;
  a = hash_constants primes_a k 0;
  b = hash_constants primes_b k 0;
}

made-IsFresh :
    {D : Type 0} (n_items : ℕ) (fp_prob : D) (d delta raw k : ℕ)
    → 0 < delta
    → delta < 32
    → k * delta ≤ 64
    → 0 < raw
    → raw ≤ 2 ^ 52
    → IsFresh raw
        (made n_items fp_prob d delta (words_for raw (2 ^ (delta - 1)) * 2 ^ (delta - 1)) k)
unfolding made has_prefix has_bit
made-IsFresh n_items fp_prob d delta raw k pos small depth some_bits few_bits =
    let p = 2 ^ (delta - 1) in
    let (lo, hi) = words_for_bounds raw p (pow_pos (delta - 1)) in
    let narrow = pow_mono (delta - 1) 30 (omega arith) in
    let len = length-replicate {A = ℕ} ((words_for raw p * p + 63) / 64) 0 in
    record {
      valid = record {
        delta_pos = pos;
        delta_lt = small;
        word = refl;
        mask = refl;
        words = words_for raw p;
        words_pos = positive_factor (words_for raw p) p (omega arith);
        sized = refl;
        fits = omega arith;
        depth = depth;
        a_length = length-hash_constants primes_a k 0;
        b_length = length-hash_constants primes_b k 0;
      };
      enough = lo;
      tight = hi;
      vector = omega arith;
      vector_tight = omega arith;
      empty = λ key i. rw (get_or-replicate {A = ℕ}, zero-div);
    }

module _ {D : Type 0} ⦃fl : Float D⦄ where
  -- the size that `cal_size` gives, read back as a number
  size_lem :
      (n : ℕ) (fp_prob : D) (p raw : ℕ)
      → 0 < p
      → p ≤ 2 ^ 30
      → ((n : ℕ) → n ≤ 2 ^ 53 → fl.to_nat (fl.of_nat n) ≡ ok n)
      → raw_size fl n fp_prob ≡ ok raw
      → raw ≤ 2 ^ 52
      → (size : D) × (cal_size n fp_prob p ≡ ok size) × (fl.to_nat size ≡ ok (words_for raw p * p))
  unfolding cal_size words_for
  size_lem n fp_prob p raw pos narrow round_trip formula few =
      let (lo, hi) = words_for_bounds raw p pos in
      let e : mul64 (sub64 (add64 raw p) 1 / p) p ≡ (raw + p - 1) / p * p = rw (
        add64_small raw p (omega arith),
        sub64_small (raw + p) 1 (omega arith) (omega arith),
        mul64_small ((raw + p - 1) / p) p (omega arith),
      ) in
      (
        fl.of_nat ((raw + p - 1) / p * p),
        rw (formula, e),
        round_trip ((raw + p - 1) / p * p) (omega arith),
      )

  -- If doubles hold the integers up to 2^53, delta is from 1 to 31, the computed number of levels
  -- is defined and at most 64 when multiplied by delta, and the size formula is defined and gives
  -- from 1 to 2^52 bits, then the constructor is defined; its filter has the computed number of
  -- levels, is valid and has no prefix at any level, its size is the formula's rounded up by less
  -- than a word, and its vector covers the size with less than 64 bits to spare.
  pub new_filter-IsFresh :
      (n_items : ℕ) (fp_prob : D) (d delta k raw : ℕ)
      → ((n : ℕ) → n ≤ 2 ^ 53 → fl.to_nat (fl.of_nat n) ≡ ok n)
      → 0 < delta
      → delta < 32
      → levels fl (max n_items 10) d delta ≡ ok k
      → k * delta ≤ 64
      → raw_size fl (max n_items 10) fp_prob ≡ ok raw
      → 0 < raw
      → raw ≤ 2 ^ 52
      → (f : BloomRf D) × (new n_items fp_prob d delta ≡ ok f) × IsFresh raw f × (f.k ≡ k)
  unfolding new made
  new_filter-IsFresh n_items fp_prob d delta k raw round_trip pos small counted depth formula
        some_bits few_bits =
      let p = 2 ^ (delta - 1) in
      let narrow = pow_mono (delta - 1) 30 (omega arith) in
      let wide = pow_mono delta 31 (omega arith) in
      let (lo, hi) = words_for_bounds raw p (pow_pos (delta - 1)) in
      let (size, sized, read) =
        size_lem (max n_items 10) fp_prob p raw (pow_pos (delta - 1)) (omega arith) round_trip
          formula few_bits in
      (
        made n_items fp_prob d delta (words_for raw p * p) k,
        rw (
          counted,
          sub32_small delta 1 (omega arith) pos,
          shift_left-ok 1 (delta - 1) (omega arith) (omega arith),
          shift_left-ok 1 delta (omega arith) (omega arith),
          one_mul (2 ^ (delta - 1)),
          one_mul (2 ^ delta),
          sized,
          read,
          sub64_small (2 ^ delta) 1 (omega arith) (pow_pos delta),
          add64_small (words_for raw p * p) 63 (omega arith),
        ),
        made-IsFresh n_items fp_prob d delta raw k pos small depth some_bits few_bits,
        refl,
      )
