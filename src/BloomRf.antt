-- ===== src/BloomRf.antt =====
-- Implement/bloomRF.h and Implement/bloomRF.cpp: a Bloom filter over the prefixes of 64-bit keys.
-- Level `i` looks at the key without its lowest `i * delta` bits.
pub mod Hashing
pub mod BitVector
pub mod Members
pub mod Overflow
pub mod Fresh
use range_lh_cplus_plus.Base.{
  ℕ, zero, suc, ◌+◌, ◌-◌, ◌/◌, ◌%◌, List, [], ◌∷◌, Bool, true, false, not, ◌==◌, ltb, if◌then◌else◌,
  length, get_or, set, replicate,
}
use range_lh_cplus_plus.Base.Words.{
  u64_mod, add64, sub64, mul64, sub32, shl64, shift_left, shift_right, shr,
}
use range_lh_cplus_plus.Base.Run.{Run, ok, undefined, out_of_range, ◌>>=◌, at}
use range_lh_cplus_plus.Base.Float.{Float}
use Prim.Native.Nat.{bit_and, bit_or, max}

pub record BloomRf (D : Type 0) : Type 0 where
  pub d : ℕ
  pub delta : ℕ
  pub n_items : ℕ
  pub fp_prob : D
  pub m : ℕ
  pub k : ℕ
  pub word_bits : ℕ
  pub word_mask : ℕ
  pub bits : List ℕ
  pub a : List ℕ
  pub b : List ℕ

-- `bits_[pos >> 6] |= 1ULL << (pos & 63)`
unfoldable pub set_bit : List ℕ → ℕ → Run (List ℕ)
set_bit bits pos = do
  word ← at bits (shr pos 6)
  ok (set bits (shr pos 6) (bit_or word (shl64 1 (bit_and pos 63))))

unfoldable pub get_bit : List ℕ → ℕ → Run Bool
get_bit bits pos = do
  word ← at bits (shr pos 6)
  ok (not (bit_and word (shl64 1 (bit_and pos 63)) == 0))

abbrev pub primes_a : List ℕ
primes_a = 2 ∷ 3 ∷ 5 ∷ 7 ∷ 11 ∷ 13 ∷ 17 ∷ 19 ∷ []

abbrev pub primes_b : List ℕ
primes_b = 29 ∷ 31 ∷ 37 ∷ 41 ∷ 43 ∷ 47 ∷ 53 ∷ 59 ∷ []

-- the loop of `init_hash_constants` from `i` on, for one of the two vectors
unfoldable pub hash_constants : List ℕ → (rounds i : ℕ) → List ℕ
hash_constants primes zero i = []
hash_constants primes (suc rounds) i =
    get_or primes (i % length primes) 0 ∷ hash_constants primes rounds (suc i)

-- the constructor's number of levels
unfoldable pub levels : {D : Type 0} → Float D → (n_items d delta : ℕ) → Run ℕ
levels fl n_items d delta =
    fl.to_nat
      (fl.ceil (fl.div (fl.sub (fl.of_nat d) (fl.log2 (fl.of_nat n_items))) (fl.of_nat delta)))

-- `raw_m` of `cal_size`
unfoldable pub raw_size : {D : Type 0} → Float D → ℕ → D → Run ℕ
raw_size fl n p =
    let log_two = fl.log (fl.of_nat 2) in
    fl.to_nat (fl.div (fl.mul (fl.neg (fl.of_nat n)) (fl.log p)) (fl.mul log_two log_two))

module _ {D : Type 0} where
  unfoldable pub hashing : BloomRf D → ℕ → ℕ → Run ℕ
  hashing f key i = do
    let li = mul64 i f.delta
    prefix ← shift_right key (sub64 (add64 li f.delta) 1)
    a ← at f.a i
    b ← at f.b i
    let words = f.m / f.word_bits
    base ← if words == 0 then undefined else ok (add64 a (mul64 b prefix) % words)
    shifted ← shift_right key li
    let offset = bit_and shifted f.word_mask
    high ← shift_left base (sub32 f.delta 1)
    ok (add64 high offset)

  -- the loop of `insert` over the levels from `i` on
  unfoldable pub insert_levels : BloomRf D → ℕ → (rounds i : ℕ) → Run (BloomRf D)
  insert_levels f key zero i = ok f
  insert_levels f key (suc rounds) i = do
    pos ← hashing f key i
    bits ← set_bit f.bits pos
    insert_levels (record f { bits = bits }) key rounds (suc i)

  unfoldable pub insert : BloomRf D → ℕ → Run (BloomRf D)
  insert f key = insert_levels f key f.k 0

  unfoldable pub check_levels : BloomRf D → ℕ → (rounds i : ℕ) → Run Bool
  check_levels f key zero i = ok true
  check_levels f key (suc rounds) i = do
    pos ← hashing f key i
    present ← get_bit f.bits pos
    elim present [ true ↦ check_levels f key rounds (suc i) | false ↦ ok false ]

  unfoldable pub check_all_key : BloomRf D → ℕ → Run Bool
  check_all_key f key = check_levels f key f.k 0

  -- `throw std::out_of_range` past the last level
  unfoldable pub check_at_level : BloomRf D → ℕ → ℕ → Run Bool
  check_at_level f key i =
      if ltb i f.k then (do pos ← hashing f key i; get_bit f.bits pos) else out_of_range

  unfoldable pub get_max_level : BloomRf D → ℕ
  get_max_level f = sub64 f.k 1

  unfoldable pub get_size : BloomRf D → ℕ
  get_size f = f.m

  module _ ⦃fl : Float D⦄ where
    -- the size formula, rounded up to a multiple of `word_bits`
    unfoldable pub cal_size : ℕ → D → ℕ → Run D
    cal_size n p word_bits = do
      raw_m ← raw_size fl n p
      ok (fl.of_nat (mul64 (sub64 (add64 raw_m word_bits) 1 / word_bits) word_bits))

    unfoldable pub new : (n_items : ℕ) → D → (d delta : ℕ) → Run (BloomRf D)
    new n_items fp_prob d delta = do
      let n = max n_items 10
      k ← levels fl n d delta
      word_bits ← shift_left 1 (sub32 delta 1)
      top ← shift_left 1 delta
      size ← cal_size n fp_prob word_bits
      m ← fl.to_nat size
      ok (record {
        d = d;
        delta = delta;
        n_items = n_items;
        fp_prob = fp_prob;
        m = m;
        k = k;
        word_bits = word_bits;
        word_mask = sub64 top 1;
        bits = replicate (add64 m 63 / 64) 0;
        a = hash_constants primes_a k 0;
        b = hash_constants primes_b k 0;
      })
