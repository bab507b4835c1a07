-- ===== src/Examples/Filter.antt =====
-- Runs of the filter: one with room behind its bits, and one whose vector ends with them.
use range_lh_cplus_plus.Base.{ℕ, ◌+◌, ◌*◌, ◌≡◌, ◌<◌, refl, arith, [], ◌∷◌, ◌++◌, true, false}
use range_lh_cplus_plus.Base.Words.{add64, sub64, mul64, shl64, sub32, shift_left, shift_right, shr}
use range_lh_cplus_plus.Base.{ap}
use range_lh_cplus_plus.Base.Run.{ok, undefined, out_of_range, ◌>>=◌}
use range_lh_cplus_plus.BloomRf
use range_lh_cplus_plus.BloomRf.{
  BloomRf, hashing, set_bit, get_bit, check_at_level, check_all_key, levels, raw_size, cal_size,
  hash_constants, primes_a, primes_b,
}
use range_lh_cplus_plus.BloomRf.Hashing.{IsValid, word_of, position, hashing_lem}
use range_lh_cplus_plus.BloomRf.Members.{Remembers, check-insert}
use range_lh_cplus_plus.BloomRf.Overflow.{insert-undefined, hashing-undefined}
use range_lh_cplus_plus.BloomRf.Fresh.{IsFresh, new_filter-IsFresh}
use range_lh_cplus_plus.Examples.Fixture.{milli}

program : Unit {0}
unfolding add64 sub64 mul64 shl64 sub32 shift_left shift_right hashing set_bit get_bit
    hash_constants levels raw_size cal_size check_at_level check_all_key BloomRf.insert_levels
    BloomRf.insert BloomRf.check_levels BloomRf.new word_of position
program = tt

abbrev filter : (delta m word_bits word_mask : ℕ) → BloomRf ℕ
filter delta m word_bits word_mask = record {
  d = 6;
  delta = delta;
  n_items = 1;
  fp_prob = 10;
  m = m;
  k = 3;
  word_bits = word_bits;
  word_mask = word_mask;
  bits = 0 ∷ [];
  a = 2 ∷ 3 ∷ 5 ∷ [];
  b = 29 ∷ 31 ∷ 37 ∷ [];
}

-- 62 bits in a word of 64
abbrev pub roomy : BloomRf ℕ
roomy = filter 2 62 2 3

-- 64 bits in a word of 64
abbrev full : BloomRf ℕ
full = filter 4 64 8 15

pub roomy-IsValid : IsValid roomy
roomy-IsValid = record {
  delta_pos = omega arith;
  delta_lt = omega arith;
  word = refl;
  mask = refl;
  words = 31;
  words_pos = omega arith;
  sized = refl;
  fits = omega arith;
  depth = omega arith;
  a_length = refl;
  b_length = refl;
}

full-IsValid : IsValid full
full-IsValid = record {
  delta_pos = omega arith;
  delta_lt = omega arith;
  word = refl;
  mask = refl;
  words = 8;
  words_pos = omega arith;
  sized = refl;
  fits = omega arith;
  depth = omega arith;
  a_length = refl;
  b_length = refl;
}

-- runs

insert_runs : BloomRf.insert roomy 37 >>= (λ f. check_all_key f 37) ≡ ok true
unfolding program
insert_runs = refl

prefix_runs : BloomRf.insert roomy 37 >>= (λ f. check_at_level f 36 1) ≡ ok true
unfolding program
prefix_runs = refl

absent_runs : BloomRf.insert roomy 37 >>= (λ f. check_all_key f 9) ≡ ok false
unfolding program
absent_runs = refl

level_runs : check_at_level roomy 1 3 ≡ out_of_range
unfolding program
level_runs = refl

-- witnesses

hashing_lem_example :
    (pos : ℕ) × (hashing roomy 37 1 ≡ ok pos)
    × (pos < roomy.m + roomy.word_bits)
    × ((q : ℕ) → shr q (1 * roomy.delta) ≡ shr 37 (1 * roomy.delta) → hashing roomy q 1 ≡ ok pos)
hashing_lem_example = hashing_lem roomy-IsValid 37 1 (omega arith)

check-insert_example :
    (f' : BloomRf ℕ) × (BloomRf.insert roomy 37 ≡ ok f') × IsValid f' × Remembers roomy 37 f'
check-insert_example = check-insert roomy 37 roomy-IsValid (omega arith)

insert-undefined_example : BloomRf.insert full 8 ≡ undefined
unfolding program full-IsValid
insert-undefined_example =
    insert-undefined full 8 full-IsValid (omega arith) refl refl (omega arith)

hashing-undefined_example : hashing (record roomy { delta = 5; k = 13 }) 7 12 ≡ undefined
hashing-undefined_example =
    hashing-undefined (record roomy { delta = 5; k = 13 }) 7 12 (omega arith) (omega arith)
      (omega arith)

new_filter-IsFresh_example :
    (f : BloomRf ℕ) × (BloomRf.new 10 10 64 4 ≡ ok f) × IsFresh 95 f × (f.k ≡ 16)
unfolding program
new_filter-IsFresh_example =
    new_filter-IsFresh 10 10 64 4 16 95 (λ n h. ap ok (omega arith)) (omega arith) (omega arith)
      refl (omega arith) refl (omega arith) (omega arith)

-- the constructor's filter for 10 items, with 96 bits in two words
abbrev pub wide : BloomRf ℕ
wide = record {
  d = 64;
  delta = 4;
  n_items = 10;
  fp_prob = 10;
  m = 96;
  k = 16;
  word_bits = 8;
  word_mask = 15;
  bits = 0 ∷ 0 ∷ [];
  a = primes_a ++ primes_a;
  b = primes_b ++ primes_b;
}

pub wide-new : BloomRf.new 10 10 64 4 ≡ ok wide
unfolding program
wide-new = refl

pub wide-IsValid : IsValid wide
wide-IsValid = record {
  delta_pos = omega arith;
  delta_lt = omega arith;
  word = refl;
  mask = refl;
  words = 12;
  words_pos = omega arith;
  sized = refl;
  fits = omega arith;
  depth = omega arith;
  a_length = refl;
  b_length = refl;
}
