-- ===== src/RangeLh/Keys.antt =====
-- The keys of Implement/rangeLH.cpp: strings and doubles as 64-bit keys, the overloads of the
-- operations, pattern lookups and the constructor.
use range_lh_cplus_plus.Base.{
  ℕ, zero, suc, ◌+◌, ◌-◌, ◌%◌, List, [], ◌∷◌, ◌++◌, Option, none, some, Bool, false, not, ◌||◌,
  ◌==◌, ltb, if◌then◌else◌, length, get_or, set, replicate,
}
use range_lh_cplus_plus.Base.Words.{shl64}
use range_lh_cplus_plus.Base.Run.{Run, ok, undefined, out_of_fuel, ◌>>=◌, at}
use range_lh_cplus_plus.Base.Ints.{pos}
use range_lh_cplus_plus.Base.Float.{Float}
use range_lh_cplus_plus.LinearHashing
use range_lh_cplus_plus.LinearHashing.{Ptr, nullptr}
use range_lh_cplus_plus.BloomRf
use range_lh_cplus_plus.Workers.{Data, Heap}
use range_lh_cplus_plus.RangeLh.{
  RangeLh, insert_impl, point_lookup_impl, range_lookup_impl, remove_impl,
}
use Prim.Native.Nat.{bit_or, min}

-- the first `n` bytes
abbrev pub take : ℕ → List ℕ → List ℕ
take zero s = []
take (suc n) [] = []
take (suc n) (c ∷ s) = c ∷ take n s

abbrev pub elem : ℕ → List ℕ → Bool
elem c [] = false
elem c (d ∷ s) = (d == c) || elem c s

-- `result = (result << 8) | buffer[i]` for the bytes from `i` on
unfoldable pub pack : (rounds : ℕ) → List ℕ → (result : ℕ) → ℕ
pack zero buffer result = result
pack (suc rounds) [] result = result
pack (suc rounds) (b ∷ buffer) result = pack rounds buffer (bit_or (shl64 result 8) b)

-- The buffer has 8 bytes; `memcpy` of more is undefined.
unfoldable pub string_to_int_lex : (max_bytes_string : ℕ) → List ℕ → Run ℕ
string_to_int_lex max_bytes_string s =
    let copy_len = min (length s) max_bytes_string in
    if ltb 8 copy_len
    then undefined
    else ok (pack (min max_bytes_string 8) (take copy_len s ++ replicate (8 - copy_len) 0) 0)

-- The loop of `next_lexicographic_string` from `i - 1` down to 0: `static_cast<char>(0xFFFF)` is
-- the byte 255.
unfoldable pub bump : List ℕ → (i : ℕ) → List ℕ
bump s zero = s ++ 0 ∷ []
bump s (suc i) =
    let rest = bump s i in
    let c = get_or s i 0 in if c == 255 then rest else take (suc i) (set s i ((c + 1) % 256))

unfoldable pub next_lexicographic_string : List ℕ → List ℕ
next_lexicographic_string [] = []
next_lexicographic_string (c ∷ s) = bump (c ∷ s) (length (c ∷ s))

-- `'%'`
abbrev pub percent : ℕ
percent = 37

module _ {D : Type 0} where
  unfoldable pub insert_string : ⦃fl : Float D⦄ → RangeLh D → List ℕ → Ptr → Run (Bool × RangeLh D)
  insert_string t key value = do k ← string_to_int_lex t.max_bytes_string key; insert_impl t k value

  unfoldable pub point_lookup_string : RangeLh D → List ℕ → Run (Option Ptr)
  point_lookup_string t key = do k ← string_to_int_lex t.max_bytes_string key; point_lookup_impl t k

  unfoldable pub range_lookup_string :
      RangeLh D → (key_start key_end : List ℕ) → Run (Option (List Ptr))
  range_lookup_string t key_start key_end = do
    lo ← string_to_int_lex t.max_bytes_string key_start
    hi ← string_to_int_lex t.max_bytes_string key_end
    range_lookup_impl t lo hi

  unfoldable pub remove_string : RangeLh D → List ℕ → Run (Bool × RangeLh D)
  remove_string t key = do k ← string_to_int_lex t.max_bytes_string key; remove_impl t k

  -- a pattern ends with the only `%` that it has
  unfoldable pub pattern_lookup : RangeLh D → List ℕ → Run (Option (List Ptr))
  pattern_lookup t [] = ok none
  pattern_lookup t (c ∷ s) =
      let last = length (c ∷ s) - 1 in
      let prefix = take last (c ∷ s) in
      if not (get_or (c ∷ s) last 0 == percent) || elem percent prefix
      then ok none
      else range_lookup_string t prefix (next_lexicographic_string prefix)

  module _ ⦃fl : Float D⦄ where
    -- The loop of `get_sum_keys` down the chain, on fuel; `pool` holds the data.
    unfoldable pub sum_keys : Heap → (pool : List Data) → (fuel : ℕ) → Ptr → (total_sum : D) → Run D
    sum_keys ws pool fuel none total = ok total
    sum_keys ws pool zero (some p) total = out_of_fuel
    sum_keys ws pool (suc fuel) (some p) total = do
      w ← at ws p
      total' ← elim w.datum [
        | none ↦ ok total
        | some d ↦ do x ← at pool d; ok (fl.add total (fl.of_nat x.key))
      ]
      sum_keys ws pool fuel w.next total'

    unfoldable pub get_sum_keys : RangeLh D → (pool : List Data) → Run D
    get_sum_keys t pool = sum_keys t.workers pool (length t.workers) t.worker_head (fl.of_nat 0)

    unfoldable pub float_to_scaled_int : RangeLh D → D → Run ℕ
    float_to_scaled_int t f = fl.to_nat (fl.mul f (fl.of_nat t.float_scale))

    unfoldable pub insert_double : RangeLh D → D → Ptr → Run (Bool × RangeLh D)
    insert_double t key value = do k ← float_to_scaled_int t key; insert_impl t k value

    unfoldable pub point_lookup_double : RangeLh D → D → Run (Option Ptr)
    point_lookup_double t key = do k ← float_to_scaled_int t key; point_lookup_impl t k

    unfoldable pub range_lookup_double :
        RangeLh D → (key_start key_end : D) → Run (Option (List Ptr))
    range_lookup_double t key_start key_end = do
      lo ← float_to_scaled_int t key_start
      hi ← float_to_scaled_int t key_end
      range_lookup_impl t lo hi

    unfoldable pub remove_double : RangeLh D → D → Run (Bool × RangeLh D)
    remove_double t key = do k ← float_to_scaled_int t key; remove_impl t k

    unfoldable pub new :
        (master_init_num_bucket : ℕ)
        → (master_split_policy : D) → (expected_n_items : ℕ) → (fp_prob_bloom_rf : D)
        → (delta_bloom_rf key_length max_bytes_string float_scale : ℕ) → Run (RangeLh D)
    new buckets policy n_items fp_prob delta key_length max_bytes_string float_scale = do
      bloom_rf ← BloomRf.new n_items fp_prob key_length delta
      ok (record {
        master_lh = LinearHashing.new buckets policy;
        bloom_rf = bloom_rf;
        workers = [];
        num_active_worker = pos 0;
        key_length = key_length;
        max_bytes_string = max_bytes_string;
        float_scale = float_scale;
        delta_bloom_rf = delta;
        worker_head = nullptr;
        worker_tail = nullptr;
      })
