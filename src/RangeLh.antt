-- ===== src/RangeLh.antt =====
-- Implement/rangeLH.h and Implement/rangeLH.cpp: the ordered index. Sizes, levels and delta are
-- numbers, since the constructor's arguments are not negative; `max_level` is the `size_t` that the
-- `int` is converted back to.
pub mod ChildLists
pub mod Search
pub mod Nodes
pub mod Left
pub mod Right
pub mod LeftChildren
pub mod RightChildren
pub mod Adjacent
pub mod Cells
pub mod Chain
pub mod Valid
pub mod Connect
pub mod Update
pub mod Lookup
pub mod Range
pub mod Keys
pub mod StringKeys
pub mod Fresh
pub mod Ends
pub mod Insert
pub mod Reinsert
use range_lh_cplus_plus.Base.{
  ℕ, zero, suc, ◌+◌, ◌-◌, ◌*◌, ◌^◌, List, [], ◌∷◌, ◌++◌, Option, none, some, Bool, true, false,
  ◌&&◌, ltb, leb, if◌then◌else◌, length,
}
use range_lh_cplus_plus.Base.Words.{u64_mod, add64, sub64, mul64, shift_left}
use range_lh_cplus_plus.Base.Run.{Run, ok, out_of_fuel, ◌>>=◌, at}
use range_lh_cplus_plus.Base.Ints.{ℤ, increment, decrement}
use range_lh_cplus_plus.Base.Float.{Float}
use range_lh_cplus_plus.LinearHashing
use range_lh_cplus_plus.LinearHashing.{LinearHashing, Ptr, nullptr, lookup}
use range_lh_cplus_plus.Workers.{
  Worker, Heap, is_null, has_data, set_next, update_data, delete_data,
}
use range_lh_cplus_plus.BloomRf
use range_lh_cplus_plus.BloomRf.{BloomRf, check_at_level, get_max_level}
use range_lh_cplus_plus.RangeLh.ChildLists.{
  Node, push_all, get_left_children_list, get_right_children_list, visits,
}
use Prim.Native.Nat.{bit_and}

-- `get_head` and `get_tail`: the data of a worker, if there is one with data
unfoldable pub data_at : Heap → Ptr → Run (Option Ptr)
data_at ws none = ok none
data_at ws (some p) = do w ← at ws p; ok (if has_data w then some w.datum else none)

-- The loop of `range_lookup_impl` down the chain, on fuel.
unfoldable pub collect : Heap → (fuel key_end : ℕ) → Ptr → Run (List Ptr)
collect ws fuel key_end none = ok []
collect ws zero key_end (some p) = out_of_fuel
collect ws (suc fuel) key_end (some p) = do
  w ← at ws p
  elim (ltb key_end w.data_id) [
    | true ↦ ok []
    | false ↦ do rest ← collect ws fuel key_end w.next; ok (w.datum ∷ rest)
  ]

pub record RangeLh (D : Type 0) : Type 0 where
  pub master_lh : LinearHashing D
  pub bloom_rf : BloomRf D
  pub workers : Heap
  pub num_active_worker : ℤ
  pub key_length : ℕ
  pub max_bytes_string : ℕ
  pub float_scale : ℕ
  pub delta_bloom_rf : ℕ
  pub worker_head : Ptr
  pub worker_tail : Ptr

module _ {D : Type 0} where
  -- The loop of both searches, on fuel; they differ in the children that they push.
  unfoldable pub search :
      RangeLh D → (children : ℕ → ℕ → Run (List Node)) → (fuel : ℕ) → List Node → Run Ptr
  search t children fuel [] = ok nullptr
  search t children zero (node ∷ stack) = out_of_fuel
  search t children (suc fuel) ((key, zero) ∷ stack) = do
    worker ← lookup t.master_lh key
    elim worker [ none ↦ search t children fuel stack | some p ↦ ok (some p) ]
  search t children (suc fuel) ((key, suc level) ∷ stack) = do
    present ← check_at_level t.bloom_rf key (suc level)
    elim present [
      | false ↦ search t children fuel stack
      | true ↦ do list ← children key (suc level); search t children fuel (push_all list stack)
    ]

  unfoldable pub adjacent_worker : RangeLh D → (children : ℕ → ℕ → Run (List Node)) → Run Ptr
  adjacent_worker t children =
      let max_level = get_max_level t.bloom_rf in
      search t children (visits t.delta_bloom_rf max_level) ((0, max_level) ∷ [])

  unfoldable pub get_left_adjacent_worker : RangeLh D → ℕ → Run Ptr
  get_left_adjacent_worker t worker_key =
      adjacent_worker t (λ key level. get_left_children_list t.delta_bloom_rf key level worker_key)

  unfoldable pub get_right_adjacent_worker : RangeLh D → ℕ → Run Ptr
  get_right_adjacent_worker t worker_key =
      adjacent_worker t (λ key level. get_right_children_list t.delta_bloom_rf key level worker_key)

  -- The part of `insert_impl` that connects the new worker with the adjacent ones.
  unfoldable pub connect : RangeLh D → (prev_worker new_worker : Ptr) → Run (RangeLh D)
  connect t none new_worker = do
    ws ← set_next t.workers new_worker t.worker_head
    ok (record t {
      workers = ws;
      worker_head = new_worker;
      worker_tail = if is_null t.worker_tail then new_worker else t.worker_tail;
    })
  connect t (some prev) new_worker = do
    prev_worker ← at t.workers prev
    let next_worker = prev_worker.next
    ws ← set_next t.workers (some prev) new_worker
    elim next_worker [
      | none ↦ ok (record t { workers = ws; worker_tail = new_worker })
      | some next ↦ do ws' ← set_next ws new_worker (some next); ok (record t { workers = ws' })
    ]

  unfoldable pub point_lookup_impl : RangeLh D → ℕ → Run (Option Ptr)
  point_lookup_impl t key = do
    p ← lookup t.master_lh key
    elim p [
      | none ↦ ok none
      | some a ↦ do w ← at t.workers a; ok (if has_data w then some w.datum else none)
    ]

  unfoldable pub get_head : RangeLh D → Run (Option Ptr)
  get_head t = data_at t.workers t.worker_head

  unfoldable pub get_tail : RangeLh D → Run (Option Ptr)
  get_tail t = data_at t.workers t.worker_tail

  unfoldable pub get_num_active_worker : RangeLh D → ℤ
  get_num_active_worker t = t.num_active_worker

  unfoldable pub start_worker : RangeLh D → ℕ → Run Ptr
  start_worker t key_start = do
    found ← lookup t.master_lh key_start
    elim found [ none ↦ get_right_adjacent_worker t key_start | some p ↦ ok (some p) ]

  unfoldable pub range_lookup_impl : RangeLh D → (key_start key_end : ℕ) → Run (Option (List Ptr))
  range_lookup_impl t key_start key_end = do
    start ← start_worker t key_start
    result ← collect t.workers (length t.workers) key_end start
    ok (elim result [ [] ↦ none | d ∷ ds ↦ some (d ∷ ds) ])

  unfoldable pub remove_impl : RangeLh D → ℕ → Run (Bool × RangeLh D)
  remove_impl t key = do
    p ← lookup t.master_lh key
    elim p [
      | none ↦ do n ← decrement t.num_active_worker; ok (false, record t { num_active_worker = n })
      | some a ↦ do
        (deleted, ws) ← delete_data t.workers (some a)
        ok (deleted, record t { workers = ws })
    ]

  module _ ⦃fl : Float D⦄ where
    unfoldable pub insert_impl : RangeLh D → ℕ → (value : Ptr) → Run (Bool × RangeLh D)
    insert_impl t key value = do
      existed_worker ← lookup t.master_lh key
      elim existed_worker [
        | some p ↦ do
          w ← at t.workers p
          n ← if has_data w then ok t.num_active_worker else increment t.num_active_worker
          (updated, ws) ← update_data t.workers (some p) value
          ok (updated, record t { workers = ws; num_active_worker = n })
        | none ↦ do
          let new_worker = some (length t.workers)
          let worker : Worker = record { data_id = key; datum = value; next = nullptr }
          prev_worker ← get_left_adjacent_worker t key
          t' ← connect (record t { workers = t.workers ++ worker ∷ [] }) prev_worker new_worker
          master_lh ← LinearHashing.insert t'.master_lh key new_worker
          bloom_rf ← BloomRf.insert t'.bloom_rf key
          n ← increment t'.num_active_worker
          ok (true, record t' { master_lh = master_lh; bloom_rf = bloom_rf; num_active_worker = n })
      ]
