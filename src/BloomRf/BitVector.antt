-- ===== src/BloomRf/BitVector.antt =====
-- `set_bit` and `get_bit` of Implement/bloomRF.cpp on the vector of 64-bit words.
use range_lh_cplus_plus.Base.{
  ℕ, zero, suc, ◌*◌, ◌/◌, ◌%◌, ◌^◌, ◌≤◌, ◌<◌, ◌≡◌, ap, ◌∙◌, arith, List, not, length, get_or, set,
  ==_false→ne, ==→eq, ◌==◌, ◌||◌, Bool, Bool-cases, inl, inr, length-set, get_or-set_self,
  get_or-set_ne,
}
use range_lh_cplus_plus.Base.Words.{shl64, shl64_small}
use range_lh_cplus_plus.Base.Run.{ok, undefined, at-get_or, at-undefined}
use range_lh_cplus_plus.Base.Bits.{pow_pos, pow_mono, bit_and_mask}
use range_lh_cplus_plus.Base.Digits.{digit, bit_and_pow, digit-or_pow}
use range_lh_cplus_plus.BloomRf.{set_bit, get_bit}
use Prim.Native.Nat.{bit_and, bit_or}

-- bit `pos` of the vector
unfoldable pub has_bit : List ℕ → ℕ → Bool
has_bit bits pos = digit (get_or bits (pos / 64) 0) (pos % 64) == 1

one_bit : (pos : ℕ) → shl64 1 (bit_and pos 63) ≡ 2 ^ (pos % 64)
one_bit pos =
    let small = pow_mono (pos % 64) 63 (omega arith) in
    rw (bit_and_mask 6 pos) (shl64_small 1 (pos % 64) (omega arith) ∙ omega arith)

nonzero_digit : (d p : ℕ) → d < 2 → 0 < p → not (d * p == 0) ≡ (d == 1)
nonzero_digit zero p h pos = ground arith
nonzero_digit (suc zero) p h pos = ground arith
nonzero_digit (suc (suc d)) p h pos = absurd (omega arith)

module _ (bits : List ℕ) (pos : ℕ) where
  pub get_bit-has_bit : pos < 64 * length bits → get_bit bits pos ≡ ok (has_bit bits pos)
  unfolding get_bit has_bit
  get_bit-has_bit h =
      rw (at-get_or bits (pos / 64) 0 (omega arith), one_bit pos, bit_and_pow (pos % 64) _)
        (ap ok (nonzero_digit _ _ (omega arith) (pow_pos (pos % 64))))

  set_bits : List ℕ
  set_bits = set bits (pos / 64) (bit_or (get_or bits (pos / 64) 0) (2 ^ (pos % 64)))

  has_bit-set_bits :
      (q : ℕ) → pos < 64 * length bits → has_bit set_bits q ≡ (q == pos || has_bit bits q)
  unfolding has_bit set_bits
  has_bit-set_bits q h =
      let word = bit_or (get_or bits (pos / 64) 0) (2 ^ (pos % 64)) in
      elim (Bool-cases (pos / 64 == q / 64)) [
        | inl near ↦
            let e = ==→eq (pos / 64) (q / 64) near in
            rw (← e, get_or-set_self bits (pos / 64) word 0 (omega arith), digit-or_pow)
              (ground arith)
        | inr far ↦
            rw (get_or-set_ne bits (pos / 64) (q / 64) word 0 (==_false→ne _ _ far)) (ground arith)
      ]

  -- A write sets its bit, clears none, and leaves the length of the vector.
  pub set_bit_lem :
      pos < 64 * length bits
      → (bits' : List ℕ) × (set_bit bits pos ≡ ok bits')
        × (length bits' ≡ length bits)
        × ((q : ℕ) → has_bit bits' q ≡ (q == pos || has_bit bits q))
  unfolding set_bit set_bits
  set_bit_lem h = (
    set_bits,
    rw (at-get_or bits (pos / 64) 0 (omega arith), one_bit pos),
    length-set bits _ _,
    λ q. has_bit-set_bits q h,
  )

  -- A position behind the last word is outside the vector.
  pub set_bit-undefined : 64 * length bits ≤ pos → set_bit bits pos ≡ undefined
  unfolding set_bit
  set_bit-undefined h = rw (at-undefined bits (pos / 64) (omega arith))
