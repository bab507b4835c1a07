-- ===== src/Workers.antt =====
-- Implement/worker.h and Implement/data.h: the workers of the index and the data that they point
-- at. Workers live on a heap, which is a list: `new Worker` appends, an address is an index, and
-- nothing is freed.
use range_lh_cplus_plus.Base.{ℕ, List, none, some, Bool, true, false, not, if◌then◌else◌, set}
use range_lh_cplus_plus.Base.Run.{Run, ok, undefined, ◌>>=◌, at}
use range_lh_cplus_plus.LinearHashing.{Ptr, nullptr}

-- A string is the list of its bytes; `text` is the field `data`.
pub record Data : Type 0 where
  pub key : ℕ
  pub text : List ℕ

-- `datum` is the field `data`, a `const Data*`, and `next` a `Worker*`.
pub record Worker : Type 0 where
  pub data_id : ℕ
  pub datum : Ptr
  pub next : Ptr

abbrev pub Heap : Type 0
Heap = List Worker

unfoldable pub is_null : Ptr → Bool
is_null none = true
is_null (some p) = false

unfoldable pub has_data : Worker → Bool
has_data w = not (is_null w.datum)

-- `p->setNext(n)`
unfoldable pub set_next : Heap → Ptr → Ptr → Run Heap
set_next ws none n = undefined
set_next ws (some p) n = do w ← at ws p; ok (set ws p (record w { next = n }))

-- `p->updateData(value)`
unfoldable pub update_data : Heap → Ptr → Ptr → Run (Bool × Heap)
update_data ws none value = undefined
update_data ws (some p) value = do w ← at ws p; ok (true, set ws p (record w { datum = value }))

-- `p->deleteData()`
unfoldable pub delete_data : Heap → Ptr → Run (Bool × Heap)
delete_data ws none = undefined
delete_data ws (some p) = do
  w ← at ws p
  ok (if has_data w then (true, set ws p (record w { datum = nullptr })) else (false, ws))
