-- ===== src/RangeLh/Fresh.antt =====
-- The constructor of Implement/rangeLH.cpp makes a valid index without workers.
use range_lh_cplus_plus.Base.{ℕ, ◌≤◌, ◌<◌, ◌^◌, ◌≡◌, refl, arith, [], none_ne_some}
use range_lh_cplus_plus.Base.Run.{ok}
use range_lh_cplus_plus.Base.Ints.{pos}
use range_lh_cplus_plus.Base.Float.{Float}
use range_lh_cplus_plus.LinearHashing
use range_lh_cplus_plus.LinearHashing.{LinearHashing, Ptr, nullptr}
use range_lh_cplus_plus.LinearHashing.Rounding.{new_table-IsFresh}
use range_lh_cplus_plus.BloomRf
use range_lh_cplus_plus.BloomRf.{BloomRf}
use range_lh_cplus_plus.BloomRf.Hashing as Filter
use range_lh_cplus_plus.BloomRf.Members.{IsRoomy}
use range_lh_cplus_plus.RangeLh.{RangeLh}
use range_lh_cplus_plus.RangeLh.Cells.{locate, tail_of}
use range_lh_cplus_plus.RangeLh.Valid.{IsValid}
use range_lh_cplus_plus.RangeLh.Keys as Keys

-- the index around a filter
abbrev pub made :
    {D : Type 0} → (buckets : ℕ) → D → BloomRf D → (delta key_length bytes scale : ℕ) → RangeLh D
made buckets policy f delta key_length bytes scale = record {
  master_lh = LinearHashing.new buckets policy;
  bloom_rf = f;
  workers = [];
  num_active_worker = pos 0;
  key_length = key_length;
  max_bytes_string = bytes;
  float_scale = scale;
  delta_bloom_rf = delta;
  worker_head = nullptr;
  worker_tail = nullptr;
}

module _ {D : Type 0} (buckets : ℕ) (policy : D) (f : BloomRf D) (delta key_length bytes scale : ℕ)
    (valid : Filter.IsValid f) (roomy : IsRoomy f) (same : delta ≡ f.delta) (levels : 0 < f.k)
    (some_buckets : 0 < buckets) (few_buckets : buckets ≤ 2 ^ 30) where
  pub made-IsValid :
      (v : IsValid (made buckets policy f delta key_length bytes scale)) × (v.cells ≡ [])
  unfolding locate tail_of
  made-IsValid =
      let fresh = new_table-IsFresh buckets policy some_buckets few_buckets in
      (
        record {
          cells = [];
          table = fresh.valid;
          distinct = λ q. rw (fresh.empty q) (omega arith);
          filter = valid;
          roomy = roomy;
          same_delta = same;
          some_levels = levels;
          linked = refl;
          sorted = tt;
          tail = refl;
          indexed = fresh.empty;
          members = λ q a i found below. absurd (none_ne_some found);
          inside = λ q far. refl;
          sized = refl;
        },
        refl,
      )

  -- If the filter's constructor makes a filter that is valid, roomy and of the given delta, with
  -- at least one level, and the number of buckets is from 1 to 2^30, then the constructor makes a
  -- valid index without workers and with a counter of 0.
  pub new_index-IsValid :
      ⦃fl : Float D⦄ (n_items : ℕ) (fp_prob : D)
      → BloomRf.new n_items fp_prob key_length delta ≡ ok f
      → (t : RangeLh D) × (Keys.new buckets policy n_items fp_prob delta key_length bytes scale
          ≡ ok t)
        × (v : IsValid t) × (v.cells ≡ [])
        × (t.num_active_worker ≡ pos 0)
  unfolding Keys.new
  new_index-IsValid n_items fp_prob made_filter =
      let (v, empty) = made-IsValid in
      (made buckets policy f delta key_length bytes scale, rw made_filter refl, v, empty, refl)
