-- ===== src/LinearHashing/Split.antt =====
-- `LinearHashing::split`: it never faults, keeps the invariant, and what it does to lookups.
use range_lh_cplus_plus.Base.{
  ℕ, suc, ◌+◌, ◌-◌, ◌*◌, ◌^◌, ◌<◌, ◌≡◌, refl, ◌∙◌, arith, length, if◌then◌else◌, ◌==◌, Bool-cases,
  inl, inr, ==→eq, ==_false→ne,
}
use range_lh_cplus_plus.Base.Words.{add32, shl32, add32_small}
use range_lh_cplus_plus.Base.Run.{ok}
use range_lh_cplus_plus.Base.Bits.{pow_suc, lt_of_pow_lt}
use range_lh_cplus_plus.LinearHashing.{LinearHashing, get_bucket_index, advance, split}
use range_lh_cplus_plus.LinearHashing.Hash.{home, shl32-pow, home_after}
use range_lh_cplus_plus.LinearHashing.Valid.{IsValid, stored, get_bucket_index-home}
use mathlib.Core.List.{reverse}
use native.Mathlib.Numerals.{add-one}
use range_lh_cplus_plus.LinearHashing.Moved.{
  moved, moved-IsPlaced, split-moved, total-moved, length-moved, stored-moved,
}

module _ {D : Type 0} (t : LinearHashing D) (v : IsValid t)
    (small : length t.buckets < 2 ^ 31 - 1) where
  open v use {exponent, m}

  pub after : LinearHashing D
  after = advance (record t { buckets = (moved t v small) })

  wraps : (add32 t.next 1 == shl32 t.initial_buckets t.level) ≡ (suc t.next == m)
  wraps = rw (
    add32_small t.next 1 (omega (arith, v.width)),
    v.power,
    shl32-pow exponent t.level (omega (arith, v.room)),
    ← v.round,
    add-one t.next,
  )

  after_valid : (w : IsValid after) × ((q : ℕ) → home w.m after.next q ≡ home_after m t.next q)
  unfolding after advance
  after_valid = elim (Bool-cases (suc t.next == m)) [
    | inl last ↦
        let full = ==→eq (suc t.next) m last in
        let roomy : exponent + t.level < 30 =
          lt_of_pow_lt (exponent + t.level) 30 (omega (arith, v.width, v.round)) in
        let level_up : add32 t.level 1 ≡ suc t.level =
          add32_small t.level 1 (omega arith) ∙ add-one t.level in
        let shift : exponent + suc t.level ≡ suc (exponent + t.level) = omega arith in
        rw (wraps, last)
          (
            record {
              exponent = exponent;
              m = 2 * m;
              power = v.power;
              round = rw (level_up, shift, pow_suc (exponent + t.level), ← v.round);
              room = omega (arith, level_up);
              next_lt = omega (arith, v.next_lt);
              width = omega (arith, (length-moved t v small));
              placed = λ i. rw last at ((moved-IsPlaced t v small) i);
              counted = rw (total-moved t v small) v.counted;
            },
            λ q. refl,
          )
    | inr more ↦
        let next_up : add32 t.next 1 ≡ suc t.next =
          add32_small t.next 1 (omega (arith, v.width)) ∙ add-one t.next in
        rw (wraps, more)
          (
            record {
              exponent = exponent;
              m = m;
              power = v.power;
              round = v.round;
              room = v.room;
              next_lt = omega (arith, v.next_lt, next_up, ==_false→ne (suc t.next) m more);
              width = omega (arith, (length-moved t v small), next_up);
              placed = λ i. rw next_up (rw more at ((moved-IsPlaced t v small) i));
              counted = rw (total-moved t v small) v.counted;
            },
            λ q. rw next_up,
          )
  ]

  after-buckets : after.buckets ≡ (moved t v small)
  unfolding after advance
  after-buckets = elim (Bool-cases (suc t.next == m)) [
    | inl last ↦ rw (wraps, last)
    | inr more ↦ rw (wraps, more)
  ]

  after-num_records : after.num_records ≡ t.num_records
  unfolding after advance
  after-num_records = elim (Bool-cases (suc t.next == m)) [
    | inl last ↦ rw (wraps, last)
    | inr more ↦ rw (wraps, more)
  ]

  stored-after :
      (q : ℕ)
      → stored after q
        ≡ (if get_bucket_index t q == t.next then reverse (stored t q) else stored t q)
  unfolding stored
  stored-after q =
      let (w, homes) = after_valid in
      rw (get_bucket_index-home w q, homes q, get_bucket_index-home v q, after-buckets)
        ((stored-moved t v small) q)

  length-after : length after.buckets ≡ suc (length t.buckets)
  length-after = rw after-buckets (omega (arith, (length-moved t v small), v.width))

-- What a split leaves alone, and the one thing that it changes for a lookup: the entries of the
-- bucket that is split come out in the opposite order.
pub record Splits {D : Type 0} (t t' : LinearHashing D) : Type 0 where
  pub valid : IsValid t'
  pub grows : length t'.buckets ≡ suc (length t.buckets)
  pub counts : t'.num_records ≡ t.num_records
  pub order :
      (q : ℕ)
      → stored t' q ≡ (if get_bucket_index t q == t.next then reverse (stored t q) else stored t q)

-- On a table that satisfies the invariant and has fewer than 2^31 - 1 buckets, `split` is defined;
-- the result satisfies the invariant again, has one bucket more and the same count, and holds
-- under every id the workers that it held before, in the opposite order for the ids of the bucket
-- that was split and in the same order for the others.
pub split_lem :
    {D : Type 0} (t : LinearHashing D)
    → IsValid t
    → length t.buckets < 2 ^ 31 - 1
    → (t' : LinearHashing D) × (split t ≡ ok t') × Splits t t'
unfolding after
split_lem t v small = (
  after t v small,
  split-moved t v small,
  record {
    valid = (after_valid t v small).0;
    grows = length-after t v small;
    counts = after-num_records t v small;
    order = stored-after t v small;
  },
)
