-- ===== src/LinearHashing/Hash.antt =====
-- The arithmetic of the bucket index: Implement/linearHashing.h, `hash` and `getBucketIndex`.
use range_lh_cplus_plus.Base.{
  ℕ, suc, ◌+◌, ◌*◌, ◌%◌, ◌^◌, ◌≤◌, ◌<◌, ◌≡◌, arith, ltb, ◌==◌, if◌then◌else◌, ◌∙◌, ◌≢◌, sym, eq→==,
  ne→==_false,
}
use range_lh_cplus_plus.Base.Words.{shl32, add32_small, sub32_small}
use range_lh_cplus_plus.Base.Bits.{pow_pos, pow_suc, pow_add, pow_mono, bit_and_mask, mod_double}
use range_lh_cplus_plus.LinearHashing.{hash, bucket_index}
use native.Mathlib.Numerals.{add-one}

pub shl32-pow : (k i : ℕ) → k + i ≤ 31 → shl32 (2 ^ k) i ≡ 2 ^ (k + i)
unfolding shl32
shl32-pow k i h = omega (arith, pow_add k i, pow_mono (k + i) 31 h)

-- With 2^k initial buckets, at a level i with k + i at most 31, the masked hash of every id is its
-- remainder modulo 2^(k+i).
pub hash-mod : (k i id : ℕ) → k + i ≤ 31 → hash (2 ^ k) id i ≡ id % 2 ^ (k + i)
unfolding hash
hash-mod k i id h =
    rw
      (
        shl32-pow k i h,
        sub32_small (2 ^ (k + i)) 1 (omega (arith, pow_mono (k + i) 31 h)) (pow_pos (k + i)),
        bit_and_mask (k + i) id,
      )
      (omega (arith, pow_pos (k + i), pow_mono (k + i) 31 h))

-- Where an id belongs while `next` of `m` buckets are split.
abbrev pub home : ℕ → ℕ → ℕ → ℕ
home m next id = if ltb (id % m) next then id % (2 * m) else id % m

pub bucket_index-home :
    (k level next id : ℕ)
    → k + level ≤ 30
    → bucket_index (2 ^ k) level next id ≡ home (2 ^ (k + level)) next id
unfolding bucket_index
bucket_index-home k level next id h =
    let e : k + suc level ≡ suc (k + level) = omega arith in
    rw (
      add32_small level 1 (omega arith),
      add-one level,
      hash-mod k level id (omega arith),
      hash-mod k (suc level) id (omega arith),
      e,
      pow_suc (k + level),
    )

pub home-lt : (m next id : ℕ) → 0 < m → next ≤ m → home m next id < m + next
home-lt m next id pos h = ground (arith, mod_double id m pos)

-- the bucket that `split` moves an id of bucket `next` to
abbrev pub target : ℕ → ℕ → ℕ → ℕ
target m next id = if id % (2 * m) == m + next then m + next else next

-- Where an id belongs once bucket `next` is split, the last bucket of a level included.
abbrev pub home_after : ℕ → ℕ → ℕ → ℕ
home_after m next id = if suc next == m then home (2 * m) 0 id else home m (suc next) id

pub home_after_lem :
    (m next id : ℕ)
    → next < m
    → home_after m next id ≡ (if home m next id == next then target m next id else home m next id)
home_after_lem m next id h = ground (arith, mod_double id m)

pub home_after_here :
    (m next id : ℕ) → next < m → home m next id ≡ next → home_after m next id ≡ target m next id
home_after_here m next id h e = home_after_lem m next id h ∙ rw (eq→== _ _ e)

pub home_after_other :
    (m next id i : ℕ) → next < m → home m next id ≡ i → next ≢ i → home_after m next id ≡ i
home_after_other m next id i h e ne =
    home_after_lem m next id h ∙ rw (e, ne→==_false _ _ (λ p. ne (sym p)))
