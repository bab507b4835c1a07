-- ===== src/BloomRf/Hashing.antt =====
-- The hash of Implement/bloomRF.cpp: its value, its range, and the bits of the key that it reads.
use range_lh_cplus_plus.Base.{
  ℕ, suc, ◌+◌, ◌-◌, ◌*◌, ◌/◌, ◌%◌, ◌^◌, ◌≤◌, ◌<◌, ◌≡◌, ◌≢◌, ap, ◌∙◌, arith, length, get_or,
  ne→==_false,
}
use range_lh_cplus_plus.Base.Words.{
  u64_mod, add64, mul64, shr, add64_small, sub64_small, mul64_small, sub32_small, shift_left-ok,
  shift_right-ok,
}
use range_lh_cplus_plus.Base.Run.{ok, at-get_or}
use range_lh_cplus_plus.Base.Bits.{pow_pos, pow_suc, bit_and_mask}
use range_lh_cplus_plus.Base.Smear.{div_pow_add, mul_mono}
use range_lh_cplus_plus.BloomRf.{BloomRf, hashing}
use native.Mathlib.Nat.{mod-lt, mul-div_cancel}

-- What the constructor makes of sensible parameters: `words` words of `word_bits` bits, and no
-- level that shifts a key by 64 or more.
pub record IsValid {D : Type 0} (f : BloomRf D) : Type 0 where
  pub delta_pos : 0 < f.delta
  pub delta_lt : f.delta < 32
  pub word : f.word_bits ≡ 2 ^ (f.delta - 1)
  pub mask : f.word_mask ≡ 2 ^ f.delta - 1
  pub words : ℕ
  pub words_pos : 0 < words
  pub sized : f.m ≡ words * f.word_bits
  pub fits : f.m + 2 * f.word_bits ≤ u64_mod
  pub depth : f.k * f.delta ≤ 64
  pub a_length : length f.a ≡ f.k
  pub b_length : length f.b ≡ f.k

module _ {D : Type 0} (f : BloomRf D) where
  -- the word that a key is hashed to at level `i`, and the bit
  unfoldable pub word_of : ℕ → ℕ → ℕ
  word_of key i =
      add64 (get_or f.a i 0) (mul64 (get_or f.b i 0) (shr key (i * f.delta + (f.delta - 1))))
      % (f.m / f.word_bits)

  unfoldable pub position : ℕ → ℕ → ℕ
  position key i = word_of key i * 2 ^ (f.delta - 1) + shr key (i * f.delta) % 2 ^ f.delta

module _ {D : Type 0} {f : BloomRf D} (v : IsValid f) where
  open v use {words}

  pub words_lem : f.m / f.word_bits ≡ words
  words_lem = rw (v.sized) (mul-div_cancel words (rw v.word (pow_pos (f.delta - 1))))

  pub word_of-lt : (key i : ℕ) → word_of f key i < words
  unfolding word_of
  word_of-lt key i = rw words_lem (mod-lt _ v.words_pos)

  pub level_depth : (i : ℕ) → i < f.k → i * f.delta + f.delta ≤ 64
  level_depth i h = omega (arith, mul_mono (suc i) f.k f.delta h, v.depth)

  two_words : 2 ^ f.delta ≡ 2 * f.word_bits
  two_words =
      let e : f.delta ≡ suc (f.delta - 1) = omega (arith, v.delta_pos) in
      ap (λ (n : ℕ). 2 ^ n) e ∙ rw (pow_suc (f.delta - 1), v.word)

  high_fits : (key i : ℕ) → word_of f key i * 2 ^ (f.delta - 1) + f.word_bits ≤ f.m
  high_fits key i = rw (← v.word) (
      omega (arith, v.sized, mul_mono (suc (word_of f key i)) words f.word_bits (word_of-lt key i)))

  low_fits : (x : ℕ) → x % 2 ^ f.delta < 2 * f.word_bits
  low_fits x = rw (← two_words) (mod-lt x (pow_pos f.delta))

  -- The hash is defined at every level, and its value does not wrap.
  pub hashing-position : (key i : ℕ) → i < f.k → hashing f key i ≡ ok (position f key i)
  unfolding hashing position word_of
  hashing-position key i h =
      let li = i * f.delta in
      let deep = level_depth i h in
      let back : li + f.delta - 1 ≡ li + (f.delta - 1) = omega (arith, v.delta_pos) in
      let some_words : f.m / f.word_bits ≢ 0 = omega (arith, words_lem, v.words_pos) in
      let high = high_fits key i in
      let low = low_fits (shr key li) in
      rw (
        mul64_small i f.delta (omega arith),
        add64_small li f.delta (omega arith),
        sub64_small (li + f.delta) 1 (omega arith) (omega (arith, v.delta_pos)),
        back,
        shift_right-ok key (li + (f.delta - 1)) (omega (arith, v.delta_pos)),
        at-get_or f.a i 0 (omega (arith, v.a_length)),
        at-get_or f.b i 0 (omega (arith, v.b_length)),
        ne→==_false (f.m / f.word_bits) 0 some_words,
        shift_right-ok key li (omega (arith, v.delta_pos)),
        sub32_small f.delta 1 (omega (arith, v.delta_lt)) v.delta_pos,
        shift_left-ok (word_of f key i) (f.delta - 1) (omega (arith, v.delta_lt))
            (omega (arith, v.fits)),
        v.mask,
        bit_and_mask f.delta (shr key li),
        add64_small (word_of f key i * 2 ^ (f.delta - 1)) (shr key li % 2 ^ f.delta)
            (omega (arith, v.fits)),
      )

  -- It may pass the end of the filter's `m` bits, by less than a word.
  pub position-lt : (key i : ℕ) → position f key i < f.m + f.word_bits
  unfolding position
  position-lt key i = omega (arith, high_fits key i, low_fits (shr key (i * f.delta)))

  -- Only the bits of the key from `i * delta` on count.
  pub position_congr :
      (key key' i : ℕ)
      → shr key (i * f.delta) ≡ shr key' (i * f.delta)
      → position f key i ≡ position f key' i
  unfolding position word_of
  position_congr key key' i e =
      rw (
        div_pow_add key (i * f.delta) (f.delta - 1),
        div_pow_add key' (i * f.delta) (f.delta - 1),
        e,
      )

  -- On a valid filter the hash of a key at a level below k is defined; its value lies below m plus
  -- one word, and every key with the same prefix at that level has the same value.
  pub hashing_lem :
      (key i : ℕ)
      → i < f.k
      → (pos : ℕ) × (hashing f key i ≡ ok pos)
        × (pos < f.m + f.word_bits)
        × ((q : ℕ) → shr q (i * f.delta) ≡ shr key (i * f.delta) → hashing f q i ≡ ok pos)
  hashing_lem key i h = (
    position f key i,
    hashing-position key i h,
    position-lt key i,
    λ q same. hashing-position q i h ∙ ap ok (position_congr q key i same),
  )
