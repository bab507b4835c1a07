-- ===== src/BloomRf/Overflow.antt =====
-- Where `insert` of Implement/bloomRF.cpp writes outside its vector, and where a shift is too wide.
use native.Mathlib.Nat.{zero-mul}
use range_lh_cplus_plus.Base.{
  ℕ, zero, suc, ◌+◌, ◌-◌, ◌*◌, ◌/◌, ◌%◌, ◌^◌, ◌≤◌, ◌<◌, ◌≡◌, arith, length, ap, ◌∙◌,
}
use range_lh_cplus_plus.Base.Words.{
  u64_mod, mul64_small, add64_small, sub64_small, shift_right-undefined, shr,
}
use range_lh_cplus_plus.Base.Run.{ok, undefined}
use range_lh_cplus_plus.BloomRf.{BloomRf, hashing, set_bit, insert_levels, insert}
use range_lh_cplus_plus.BloomRf.Hashing.{IsValid, word_of, position, hashing-position}
use range_lh_cplus_plus.BloomRf.BitVector.{set_bit-undefined}

module _ {D : Type 0} where
  first_level :
      (f : BloomRf D) (key pos rounds : ℕ)
      → 0 < rounds
      → hashing f key 0 ≡ ok pos
      → set_bit f.bits pos ≡ undefined
      → insert_levels f key rounds 0 ≡ undefined
  unfolding insert_levels
  first_level f key pos zero h hash write = absurd (omega arith)
  first_level f key pos (suc rounds) h hash write = rw (hash, write)

  -- On a valid filter with at least one level whose vector ends with its m bits, inserting a key
  -- that is hashed to the last word at level 0 and whose offset is at least a word writes outside
  -- the vector.
  pub insert-undefined :
      (f : BloomRf D) (key : ℕ) (v : IsValid f)
      → 0 < f.k
      → f.m ≡ 64 * length f.bits
      → suc (word_of f key 0) ≡ v.words
      → f.word_bits ≤ key % 2 ^ f.delta
      → insert f key ≡ undefined
  unfolding insert position
  insert-undefined f key v levels full last high =
      let whole : shr key (0 * f.delta) ≡ key =
        ap (λ (n : ℕ). key / 2 ^ n) (zero-mul f.delta) ∙ omega arith in
      let ends = ap (λ (n : ℕ). n * f.word_bits) last in
      let wide = ap (λ (n : ℕ). word_of f key 0 * n) v.word in
      first_level f key (position f key 0) f.k levels (hashing-position v key 0 levels) (
        set_bit-undefined f.bits (position f key 0) (rw whole (omega (arith, v.sized, ends, wide))))

  -- If delta is positive and a level i has i * delta + delta above 64 and below 2^64, the hash at
  -- that level shifts the key by 64 or more and is undefined.
  pub hashing-undefined :
      (f : BloomRf D) (key i : ℕ)
      → 0 < f.delta
      → 64 < i * f.delta + f.delta
      → i * f.delta + f.delta < u64_mod
      → hashing f key i ≡ undefined
  unfolding hashing
  hashing-undefined f key i pos deep small = rw (
    mul64_small i f.delta (omega arith),
    add64_small (i * f.delta) f.delta small,
    sub64_small (i * f.delta + f.delta) 1 small (omega arith),
    shift_right-undefined key (i * f.delta + f.delta - 1) (omega arith),
  )
