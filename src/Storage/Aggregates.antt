-- ===== src/Storage/Aggregates.antt =====
-- `sumRange` and `countRange` of Implement/storage.cpp.
use range_lh_cplus_plus.Base.{
  ℕ, ◌<◌, ◌≡◌, refl, ap, ◌∙◌, List, [], ◌∷◌, none, some, Bool, false, ◌||◌, ◌&&◌, leb,
  if◌then◌else◌, length, All, Bool-cases, Option-cases, inl, inr,
}
use range_lh_cplus_plus.Base.Run.{Run, ok, undefined}
use range_lh_cplus_plus.Base.Float.{Float}
use range_lh_cplus_plus.LinearHashing.{Ptr}
use range_lh_cplus_plus.Workers.{Data, is_null}
use range_lh_cplus_plus.RangeLh.Cells.{Cell}
use range_lh_cplus_plus.RangeLh.Valid.{capacity}
use range_lh_cplus_plus.RangeLh.Range.{data_between, non_empty, range_lookup_lem}
use range_lh_cplus_plus.Storage.{Storage, deref, sum_results, sum_range, count_range}
use range_lh_cplus_plus.Storage.Records.{IsOwn, IsValid}

-- whether a worker without data has its id from `lo` to `hi`
unfoldable pub has_deleted : (lo hi : ℕ) → List Cell → Bool
has_deleted lo hi [] = false
has_deleted lo hi (c ∷ cs) = (leb lo c.id && leb c.id hi) && is_null c.datum || has_deleted lo hi cs

module _ {D : Type 0} ⦃fl : Float D⦄ where
  -- The sum of the ids from `lo` to `hi`, in ascending order.
  unfoldable pub sum_ids : (lo hi : ℕ) → (total : D) → List Cell → D
  sum_ids lo hi total [] = total
  sum_ids lo hi total (c ∷ cs) =
      sum_ids lo hi (if leb lo c.id && leb c.id hi then fl.add total (fl.of_nat c.id) else total) cs

  sum_results-sum_ids :
      (pool : List Data) (lo hi : ℕ) (cs : List Cell) (total : D)
      → All (IsOwn pool) cs
      → sum_results pool total (data_between lo hi cs)
        ≡ (if has_deleted lo hi cs then undefined else ok (sum_ids lo hi total cs))
  unfolding sum_results data_between has_deleted sum_ids deref is_null
  sum_results-sum_ids pool lo hi [] total own = refl
  sum_results-sum_ids pool lo hi (c ∷ cs) total (own, owns) =
      elim (Bool-cases (leb lo c.id && leb c.id hi)) [
        | inr outside ↦ rw outside (sum_results-sum_ids pool lo hi cs total owns)
        | inl inside ↦ elim (Option-cases c.datum) [
          | inl null ↦ rw (inside, null) refl
          | inr (d, full) ↦
              let (text, there) = own d full in
              let rest = sum_results-sum_ids pool lo hi cs (fl.add total (fl.of_nat c.id)) owns in
              rw (inside, full) (rw there rest)
        ]
      ]

  sum_results-non_empty :
      (pool : List Data) (total : D) (ds : List Ptr)
      → elim (non_empty ds) as (λ _. Run D) [
        | none ↦ ok total
        | some es ↦ sum_results pool total es
      ]
        ≡ sum_results pool total ds
  unfolding sum_results
  sum_results-non_empty pool total [] = refl
  sum_results-non_empty pool total (d ∷ ds) = refl

  -- On a valid storage, for a start key below 2^(max_level * delta), `sumRange` adds up the keys
  -- in the range in ascending order from 0 if no worker in the range lost its data, and
  -- dereferences a null pointer if one did.
  pub sum_range_lem :
      (s : Storage D) (lo hi : ℕ)
      → (v : IsValid s) → lo < capacity s.index
      → sum_range s lo hi ≡ (
          if has_deleted lo hi v.index.cells
          then undefined
          else ok (sum_ids lo hi (fl.of_nat 0) v.index.cells))
  unfolding sum_range
  sum_range_lem s lo hi v room = rw (range_lookup_lem s.index lo v.index room hi) (
      sum_results-non_empty s.data_pool (fl.of_nat 0) (data_between lo hi v.index.cells)
      ∙ sum_results-sum_ids s.data_pool lo hi v.index.cells (fl.of_nat 0) v.own)

length-non_empty :
    (ds : List Ptr) → elim (non_empty ds) as (λ _. ℕ) [ none ↦ 0 | some es ↦ length es ] ≡ length ds
length-non_empty [] = refl
length-non_empty (d ∷ ds) = refl

module _ {D : Type 0} where
  -- On a valid storage, for a start key below 2^(max_level * delta), `countRange` counts the
  -- workers with ids in the range, those without data included.
  pub count_range_lem :
      (s : Storage D) (lo hi : ℕ)
      → (v : IsValid s) → lo < capacity s.index
      → count_range s lo hi ≡ ok (length (data_between lo hi v.index.cells))
  unfolding count_range
  count_range_lem s lo hi v room =
      rw (range_lookup_lem s.index lo v.index room hi)
        (ap ok (length-non_empty (data_between lo hi v.index.cells)))
