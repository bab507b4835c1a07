-- ===== src/BloomRf/Members.antt =====
-- `insert`, `check_at_level` and `check_all_key` of Implement/bloomRF.cpp.
use range_lh_cplus_plus.Base.{
  ℕ, zero, suc, ◌+◌, ◌*◌, ◌≤◌, ◌<◌, ◌≡◌, refl, sym, ap, ◌∙◌, arith, List, length, true, ◌==◌, Bool,
  lt→ltb, eq→==, ==→eq, Bool-cases, inl, inr,
}
use range_lh_cplus_plus.Base.Words.{shr}
use range_lh_cplus_plus.Base.Run.{ok}
use range_lh_cplus_plus.BloomRf.{
  BloomRf, insert_levels, insert, check_levels, check_all_key, check_at_level,
}
use range_lh_cplus_plus.BloomRf.Hashing.{
  IsValid, position, word_of, hashing-position, position-lt, position_congr,
}
use range_lh_cplus_plus.BloomRf.BitVector.{has_bit, get_bit-has_bit, set_bit_lem}

module _ {D : Type 0} where
  -- The vector has room for every value that the hash can take, those behind `m` included.
  abbrev pub IsRoomy : BloomRf D → Type 0
  IsRoomy f = f.m + f.word_bits ≤ 64 * length f.bits

  abbrev pub with_bits : BloomRf D → List ℕ → BloomRf D
  with_bits f bits = record f { bits = bits }

  -- whether the filter has the prefix of a key at a level
  unfoldable pub has_prefix : BloomRf D → ℕ → ℕ → Bool
  has_prefix f key i = has_bit f.bits (position f key i)

  module _ {f : BloomRf D} (v : IsValid f) where
    pub with_bits-IsValid : (bits : List ℕ) → IsValid (with_bits f bits)
    with_bits-IsValid bits = record {
      delta_pos = v.delta_pos;
      delta_lt = v.delta_lt;
      word = v.word;
      mask = v.mask;
      words = v.words;
      words_pos = v.words_pos;
      sized = v.sized;
      fits = v.fits;
      depth = v.depth;
      a_length = v.a_length;
      b_length = v.b_length;
    }

    position-with_bits :
        (bits : List ℕ) (key i : ℕ) → position (with_bits f bits) key i ≡ position f key i
    unfolding position word_of
    position-with_bits bits key i = refl

    pub check_at_level-has_prefix :
        IsRoomy f → (key i : ℕ) → i < f.k → check_at_level f key i ≡ ok (has_prefix f key i)
    unfolding check_at_level has_prefix
    check_at_level-has_prefix roomy key i h = rw (
      lt→ltb i f.k h,
      hashing-position v key i h,
      get_bit-has_bit f.bits (position f key i) (omega (arith, position-lt v key i)),
    )

    -- Keys that agree above the lowest `i * delta` bits are not told apart at level `i`.
    pub has_prefix_congr :
        (key key' i : ℕ)
        → shr key (i * f.delta) ≡ shr key' (i * f.delta)
        → has_prefix f key i ≡ has_prefix f key' i
    unfolding has_prefix
    has_prefix_congr key key' i e = ap (has_bit f.bits) (position_congr v key key' i e)

    -- the bits after the levels from `i` on
    abbrev Sets : ℕ → (rounds i : ℕ) → (bits bits' : List ℕ) → Type 0
    Sets key rounds i bits bits' =
        (length bits' ≡ length bits)
        × ((q : ℕ) → has_bit bits q ≡ true → has_bit bits' q ≡ true)
        × ((j : ℕ) → i ≤ j → j < i + rounds → has_bit bits' (position f key j) ≡ true)

    insert_levels-Sets :
        (key rounds i : ℕ) (bits : List ℕ)
        → i + rounds ≤ f.k
        → f.m + f.word_bits ≤ 64 * length bits
        → (bits' : List ℕ) × (insert_levels (with_bits f bits) key rounds i
            ≡ ok (with_bits f bits'))
          × Sets key rounds i bits bits'
    unfolding insert_levels
    insert_levels-Sets key zero i bits h roomy =
        (bits, refl, (refl, λ q p. p, λ j lo hi. absurd (omega arith)))
    insert_levels-Sets key (suc rounds) i bits h roomy =
        let pos = position f key i in
        let hash =
          hashing-position (with_bits-IsValid bits) key i (omega arith)
          ∙ ap ok (position-with_bits bits key i) in
        let (bits₁, run₁, len₁, set₁) = set_bit_lem bits pos (omega (arith, position-lt v key i)) in
        let (bits₂, run₂, (len₂, keep₂, set₂)) =
          insert_levels-Sets key rounds (suc i) bits₁ (omega arith) (omega arith) in
        (
          bits₂,
          rw (hash, run₁) run₂,
          (
            len₂ ∙ len₁,
            λ q p. keep₂ q (rw (set₁ q, p) (ground arith)),
            λ j lo hi. elim (Bool-cases (j == i)) [
              | inl here ↦ rw (==→eq j i here) (keep₂ pos (rw (set₁ pos, eq→== pos pos refl) refl))
              | inr later ↦ set₂ j (ground arith) (omega arith)
            ],
          ),
        )

-- The filter after `insert`: it answers for the key at every level, and for what it held before.
pub record Inserts {D : Type 0} (f : BloomRf D) (key : ℕ) (f' : BloomRf D) : Type 0 where
  pub valid : IsValid f'
  pub roomy : IsRoomy f'
  pub levels : f'.k ≡ f.k
  pub delta : f'.delta ≡ f.delta
  pub members : (i : ℕ) → i < f.k → has_prefix f' key i ≡ true
  pub keeps : (q i : ℕ) → has_prefix f q i ≡ true → has_prefix f' q i ≡ true

module _ {D : Type 0} where
  pub insert-Inserts :
      (f : BloomRf D) (key : ℕ)
      → IsValid f
      → IsRoomy f
      → (f' : BloomRf D) × (insert f key ≡ ok f') × Inserts f key f'
  unfolding insert has_prefix
  insert-Inserts f key v roomy =
      let (bits, run, (len, keep, sets)) =
        insert_levels-Sets v key f.k 0 f.bits (omega arith) roomy in
      (
        with_bits f bits,
        run,
        record {
          valid = with_bits-IsValid v bits;
          roomy = omega arith;
          levels = refl;
          delta = refl;
          members =
              λ i h. rw (position-with_bits v bits key i) (sets i (omega arith) (omega arith));
          keeps = λ q i p. rw (position-with_bits v bits q i) (keep _ p);
        },
      )

  check_levels-all :
      (f : BloomRf D) (key rounds i : ℕ)
      → IsValid f
      → IsRoomy f
      → i + rounds ≤ f.k
      → ((j : ℕ) → j < f.k → has_prefix f key j ≡ true)
      → check_levels f key rounds i ≡ ok true
  unfolding check_levels has_prefix
  check_levels-all f key zero i v roomy h all = refl
  check_levels-all f key (suc rounds) i v roomy h all =
      rw
        (
          hashing-position v key i (omega arith),
          get_bit-has_bit f.bits (position f key i) (omega (arith, position-lt v key i)),
          all i (omega arith),
        )
        (check_levels-all f key rounds (suc i) v roomy (omega arith) all)

-- No false negatives: once a key is in, the whole check passes for it, the check at a level passes
-- for every key with the same prefix, and no check that passed before fails.
pub record Remembers {D : Type 0} (f : BloomRf D) (key : ℕ) (f' : BloomRf D) : Type 0 where
  pub everywhere : check_all_key f' key ≡ ok true
  pub prefixes :
      (q i : ℕ)
      → i < f.k
      → shr q (i * f.delta) ≡ shr key (i * f.delta)
      → check_at_level f' q i ≡ ok true
  pub monotone :
      (q i : ℕ) → i < f.k → check_at_level f q i ≡ ok true → check_at_level f' q i ≡ ok true

ok-injective : {A : Type 0} {a b : A} → ok a ≡ ok b → a ≡ b
ok-injective e = cc

module _ {D : Type 0} where
  Inserts-Remembers :
      (f : BloomRf D) (key : ℕ) (f' : BloomRf D)
      → IsValid f
      → IsRoomy f
      → Inserts f key f'
      → Remembers f key f'
  unfolding check_all_key
  Inserts-Remembers f key f' v roomy n = record {
    everywhere =
        check_levels-all f' key f'.k 0 n.valid n.roomy (omega arith)
          (λ j h. n.members j (omega (arith, n.levels)));
    prefixes = λ q i h same. rw (
      check_at_level-has_prefix n.valid n.roomy q i (omega (arith, n.levels)),
      has_prefix_congr n.valid q key i (rw n.delta same),
      n.members i h,
    );
    monotone = λ q i h before. rw (
      check_at_level-has_prefix n.valid n.roomy q i (omega (arith, n.levels)),
      n.keeps q i (ok-injective (sym (check_at_level-has_prefix v roomy q i h) ∙ before)),
    );
  }

  -- On a valid filter whose vector has room for every hash value, `insert` is defined and keeps
  -- the filter valid; afterwards the whole check passes for the key, the check at a level passes
  -- for every key with the same prefix at that level, and every check at a level that passed
  -- before passes still.
  pub check-insert :
      (f : BloomRf D) (key : ℕ)
      → IsValid f
      → IsRoomy f
      → (f' : BloomRf D) × (insert f key ≡ ok f') × IsValid f' × Remembers f key f'
  check-insert f key v roomy =
      let (f', run, n) = insert-Inserts f key v roomy in
      (f', run, n.valid, Inserts-Remembers f key f' v roomy n)
