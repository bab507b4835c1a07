-- ===== src/LinearHashing.antt =====
-- Implement/linearHashing.h and Implement/linearHashing.cpp: a linear hash table from 64-bit ids to
-- pointers to workers. A chain of entries belongs to one bucket alone, so it is a list.
pub mod Hash
pub mod Chain
pub mod Valid
pub mod Rounding
pub mod Moved
pub mod Split
pub mod Writes
pub mod Insert
pub mod Remove
pub mod Batch
use range_lh_cplus_plus.Base.{
  ℕ, ◌-◌, ◌%◌, List, [], ◌∷◌, ◌++◌, Option, none, some, Bool, true, false, ◌==◌, ltb, if◌then◌else◌,
  length, get_or, set, replicate,
}
use range_lh_cplus_plus.Base.Words.{u32_mod, add32, sub32, shl32, shr}
use range_lh_cplus_plus.Base.Run.{Run, ok, ◌>>=◌, at}
use range_lh_cplus_plus.Base.Float.{Float}
use Prim.Native.Nat.{bit_and, bit_or}

-- A `Worker*`: `none` is the null pointer.
abbrev pub Ptr : Type 0
Ptr = Option ℕ

abbrev pub nullptr : Ptr
nullptr = none

pub record Entry : Type 0 where
  pub id : ℕ
  pub worker : Ptr

abbrev pub Chain : Type 0
Chain = List Entry

pub record LinearHashing (D : Type 0) : Type 0 where
  pub buckets : List Chain
  pub level : ℕ
  pub next : ℕ
  pub num_records : ℕ
  pub initial_buckets : ℕ
  pub max_load_factor : D

-- The mask `size - 1` has 32 bits, and is extended to 64 for the `&`.
unfoldable pub hash : ℕ → ℕ → ℕ → ℕ
hash initial_buckets id i = bit_and id (sub32 (shl32 initial_buckets i) 1) % u32_mod

-- The hash of level `i` for the buckets that are not split yet, that of `i + 1` for the others.
unfoldable pub bucket_index : ℕ → ℕ → ℕ → ℕ → ℕ
bucket_index initial_buckets level next id =
    let h0 = hash initial_buckets id level in
    if ltb h0 next then hash initial_buckets id (add32 level 1) else h0

-- `x |= x >> s`
unfoldable pub smear : ℕ → ℕ → ℕ
smear s x = bit_or x (shr x s)

-- The constructor's rounding up to a power of two.
unfoldable pub round_up : ℕ → ℕ
round_up initial_size =
    if bit_and initial_size (sub32 initial_size 1) == 0
    then initial_size
    else add32 (smear 16 (smear 8 (smear 4 (smear 2 (smear 1 (sub32 initial_size 1)))))) 1

-- `curr->next = bucket->head; bucket->head = curr` for the bucket at index `i`
unfoldable pub push_front : List Chain → ℕ → Entry → List Chain
push_front bs i e = set bs i (e ∷ get_or bs i [])

-- The loop of `split` over the entries of the old chain. `dest` is the new bucket's index,
-- `source` the old one's, and `next_level` is `level + 1`.
unfoldable pub relink :
    (initial_buckets next_level source dest : ℕ) → Chain → List Chain → List Chain
relink n l source dest [] bs = bs
relink n l source dest (e ∷ es) bs =
    relink n l source dest es (push_front bs (if hash n e.id l == dest then dest else source) e)

-- `bucket->head` down the chain: the first entry with the id
unfoldable pub find_worker : ℕ → Chain → Ptr
find_worker id [] = nullptr
find_worker id (e ∷ es) = if e.id == id then e.worker else find_worker id es

-- The first entry with the id, and the chain without it.
unfoldable pub unlink : ℕ → Chain → Option (Entry × Chain)
unlink id [] = none
unlink id (e ∷ es) =
    if e.id == id
    then some (e, es)
    else elim (unlink id es) [ none ↦ none | some (f, rest) ↦ some (f, e ∷ rest) ]

module _ {D : Type 0} where
  unfoldable pub new : ℕ → D → LinearHashing D
  new initial_size max_load = record {
    buckets = replicate (round_up initial_size) [];
    level = 0;
    next = 0;
    num_records = 0;
    initial_buckets = round_up initial_size;
    max_load_factor = max_load;
  }

  unfoldable pub get_bucket_index : LinearHashing D → ℕ → ℕ
  get_bucket_index t id = bucket_index t.initial_buckets t.level t.next id

  -- the last lines of `split`: the split pointer and the level
  unfoldable pub advance : LinearHashing D → LinearHashing D
  advance t =
      if add32 t.next 1 == shl32 t.initial_buckets t.level
      then record t { level = add32 t.level 1; next = 0 }
      else record t { next = add32 t.next 1 }

  unfoldable pub split : LinearHashing D → Run (LinearHashing D)
  unfolding advance
  split t = do
    let grown = t.buckets ++ [] ∷ []
    let dest = (length grown - 1) % u32_mod
    chain ← at grown t.next
    let moved = relink t.initial_buckets (add32 t.level 1) t.next dest chain (set grown t.next [])
    ok (advance (record t { buckets = moved }))

  unfoldable pub lookup : LinearHashing D → ℕ → Run Ptr
  lookup t id = do chain ← at t.buckets (get_bucket_index t id); ok (find_worker id chain)

  -- The second part of the result is the worker that the destructor of the entry deletes.
  unfoldable pub remove : LinearHashing D → ℕ → Run (Bool × Ptr × LinearHashing D)
  remove t id = do
    chain ← at t.buckets (get_bucket_index t id)
    elim (unlink id chain) [
      | none ↦ ok (false, nullptr, t)
      | some (e, rest) ↦ ok (
        true,
        e.worker,
        record t {
          buckets = set t.buckets (get_bucket_index t id) rest;
          num_records = sub32 t.num_records 1;
        },
      )
    ]

  -- a new entry at the head of the home bucket
  unfoldable pub add_entry : LinearHashing D → ℕ → Ptr → Run (LinearHashing D)
  add_entry t id worker = do
    chain ← at t.buckets (get_bucket_index t id)
    ok (record t {
      buckets = set t.buckets (get_bucket_index t id) (record { id = id; worker = worker } ∷ chain);
      num_records = add32 t.num_records 1;
    })

  unfoldable pub size : LinearHashing D → ℕ
  size t = t.num_records

  unfoldable pub bucket_count : LinearHashing D → ℕ
  bucket_count t = length t.buckets % u32_mod

  module _ ⦃fl : Float D⦄ where
    -- `static_cast<double>(numRecords) / buckets.size() > maxLoadFactor`
    unfoldable pub is_overloaded : LinearHashing D → Bool
    is_overloaded t =
        fl.lt t.max_load_factor (fl.div (fl.of_nat t.num_records) (fl.of_nat (length t.buckets)))

    unfoldable pub check_and_split : LinearHashing D → Run (LinearHashing D)
    check_and_split t = if is_overloaded t then split t else ok t

    unfoldable pub insert : LinearHashing D → ℕ → Ptr → Run (LinearHashing D)
    insert t id worker = add_entry t id worker >>= check_and_split

    unfoldable pub batch_insert : LinearHashing D → List (ℕ × Ptr) → Run (LinearHashing D)
    batch_insert t [] = ok t
    batch_insert t ((id, worker) ∷ entries) = insert t id worker >>= λ t'. batch_insert t' entries
