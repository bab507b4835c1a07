-- ===== src/Storage.antt =====
-- Implement/storage.h and Implement/storage.cpp: the data pool and the aggregates over the index. A
-- `const Data*` is an index into the pool, a deque that only grows. Counts stay below 2^31.
pub mod Records
pub mod Aggregates
use range_lh_cplus_plus.Base.{
  ℕ, zero, suc, List, [], ◌∷◌, ◌++◌, Option, none, some, Bool, true, false, if◌then◌else◌, length,
}
use range_lh_cplus_plus.Base.Run.{Run, ok, undefined, ◌>>=◌, at}
use range_lh_cplus_plus.Base.Ints.{ℤ, pos, negsuc}
use range_lh_cplus_plus.Base.Float.{Float}
use range_lh_cplus_plus.LinearHashing.{Ptr}
use range_lh_cplus_plus.Workers.{Data}
use range_lh_cplus_plus.RangeLh.{
  RangeLh, insert_impl, remove_impl, point_lookup_impl, range_lookup_impl, get_head, get_tail,
  get_num_active_worker,
}
use range_lh_cplus_plus.RangeLh.Keys as Keys
use range_lh_cplus_plus.RangeLh.Keys.{get_sum_keys}

pub record Storage (D : Type 0) : Type 0 where
  pub data_pool : List Data
  pub index : RangeLh D

-- `*p` for a `const Data*`
unfoldable pub deref : List Data → Ptr → Run Data
deref pool none = undefined
deref pool (some p) = at pool p

unfoldable pub is_zero : ℤ → Bool
is_zero (pos zero) = true
is_zero (pos (suc n)) = false
is_zero (negsuc n) = false

module _ {D : Type 0} where
  unfoldable pub remove : Storage D → ℕ → Run (Bool × Storage D)
  remove s key = do
    (removed, index) ← remove_impl s.index key
    ok (removed, record s { index = index })

  unfoldable pub get : Storage D → ℕ → Run (Option Data)
  get s key = do
    result ← point_lookup_impl s.index key
    elim result [ none ↦ ok none | some p ↦ do x ← deref s.data_pool p; ok (some x) ]

  unfoldable pub count_range : Storage D → (start end : ℕ) → Run ℕ
  count_range s start end = do
    results ← range_lookup_impl s.index start end
    ok (elim results [ none ↦ 0 | some ds ↦ length ds ])

  unfoldable pub count : Storage D → ℤ
  count s = get_num_active_worker s.index

  module _ ⦃fl : Float D⦄ where
    unfoldable pub new :
        (master_init_num_bucket : ℕ)
        → (master_split_policy : D) → (expected_n_items : ℕ) → (fp_prob_bloom_rf : D)
        → (delta_bloom_rf key_length max_bytes_string float_scale : ℕ) → Run (Storage D)
    new buckets policy n_items fp_prob delta key_length max_bytes_string float_scale = do
      index ← Keys.new buckets policy n_items fp_prob delta key_length max_bytes_string float_scale
      ok (record { data_pool = []; index = index })

    unfoldable pub insert : Storage D → ℕ → (text : List ℕ) → Run (Bool × Storage D)
    insert s key text = do
      let pool = s.data_pool ++ record { key = key; text = text } ∷ []
      (inserted, index) ← insert_impl s.index key (some (length s.data_pool))
      ok (inserted, record { data_pool = pool; index = index })

    -- the loop of `sumRange` and `avgRange`
    unfoldable pub sum_results : (pool : List Data) → (total : D) → List Ptr → Run D
    sum_results pool total [] = ok total
    sum_results pool total (d ∷ ds) = do
      x ← deref pool d
      sum_results pool (fl.add total (fl.of_nat x.key)) ds

    -- the loops of `minRange` and `maxRange`
    unfoldable pub min_results : (pool : List Data) → (min_val : D) → List Ptr → Run D
    min_results pool min_val [] = ok min_val
    min_results pool min_val (d ∷ ds) = do
      x ← deref pool d
      let key = fl.of_nat x.key
      min_results pool (if fl.lt key min_val then key else min_val) ds

    unfoldable pub max_results : (pool : List Data) → (max_val : D) → List Ptr → Run D
    max_results pool max_val [] = ok max_val
    max_results pool max_val (d ∷ ds) = do
      x ← deref pool d
      let key = fl.of_nat x.key
      max_results pool (if fl.lt max_val key then key else max_val) ds

    unfoldable pub sum_range : Storage D → (start end : ℕ) → Run D
    sum_range s start end = do
      results ← range_lookup_impl s.index start end
      elim results [ none ↦ ok (fl.of_nat 0) | some ds ↦ sum_results s.data_pool (fl.of_nat 0) ds ]

    unfoldable pub avg_range : Storage D → (start end : ℕ) → Run D
    avg_range s start end = do
      results ← range_lookup_impl s.index start end
      elim results [
        | none ↦ ok (fl.of_nat 0)
        | some [] ↦ ok (fl.of_nat 0)
        | some (d ∷ ds) ↦ do
          total ← sum_results s.data_pool (fl.of_nat 0) (d ∷ ds)
          ok (fl.div total (fl.of_nat (length (d ∷ ds))))
      ]

    unfoldable pub min_range : Storage D → (start end : ℕ) → Run D
    min_range s start end = do
      results ← range_lookup_impl s.index start end
      elim results [
        | none ↦ ok fl.infinity
        | some [] ↦ ok fl.infinity
        | some (d ∷ ds) ↦ do
          first ← deref s.data_pool d
          min_results s.data_pool (fl.of_nat first.key) (d ∷ ds)
      ]

    unfoldable pub max_range : Storage D → (start end : ℕ) → Run D
    max_range s start end = do
      results ← range_lookup_impl s.index start end
      elim results [
        | none ↦ ok (fl.neg fl.infinity)
        | some [] ↦ ok (fl.neg fl.infinity)
        | some (d ∷ ds) ↦ do
          first ← deref s.data_pool d
          max_results s.data_pool (fl.of_nat first.key) (d ∷ ds)
      ]

    unfoldable pub min : Storage D → Run D
    min s = do
      head ← get_head s.index
      elim head [
        | none ↦ ok fl.infinity
        | some p ↦ do x ← deref s.data_pool p; ok (fl.of_nat x.key)
      ]

    unfoldable pub max : Storage D → Run D
    max s = do
      tail ← get_tail s.index
      elim tail [
        | none ↦ ok (fl.neg fl.infinity)
        | some p ↦ do x ← deref s.data_pool p; ok (fl.of_nat x.key)
      ]

    unfoldable pub sum : Storage D → Run D
    sum s = get_sum_keys s.index s.data_pool

    -- an `int` as a double
    unfoldable pub of_int : ℤ → D
    of_int (pos n) = fl.of_nat n
    of_int (negsuc n) = fl.neg (fl.of_nat (suc n))

    unfoldable pub avg : Storage D → Run D
    avg s = do
      sum_keys ← get_sum_keys s.index s.data_pool
      ok (if is_zero (count s) then fl.of_nat 0 else fl.div sum_keys (of_int (count s)))
