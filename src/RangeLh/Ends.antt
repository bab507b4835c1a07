-- ===== src/RangeLh/Ends.antt =====
-- `get_head`, `get_tail` and `get_sum_keys` of Implement/rangeLH.cpp on the sorted cells.
use range_lh_cplus_plus.Base.{
  ℕ, zero, suc, ◌≤◌, ◌<◌, ◌≡◌, refl, arith, List, [], ◌∷◌, Option, none, some, length, get_or, All,
  Option-cases, inl, inr,
}
use range_lh_cplus_plus.Base.Run.{ok, at-get_or}
use range_lh_cplus_plus.Base.Float.{Float}
use range_lh_cplus_plus.LinearHashing.{Ptr}
use range_lh_cplus_plus.Workers.{Data, Heap, has_data}
use range_lh_cplus_plus.RangeLh.{RangeLh, data_at, get_head, get_tail}
use range_lh_cplus_plus.RangeLh.Cells.{Cell, tail_of}
use range_lh_cplus_plus.RangeLh.Chain.{Links}
use range_lh_cplus_plus.RangeLh.Valid.{IsValid}
use range_lh_cplus_plus.RangeLh.Lookup.{filled}
use range_lh_cplus_plus.RangeLh.Keys.{sum_keys, get_sum_keys}

-- the data of the first and of the last cell
abbrev pub first_datum : List Cell → Option Ptr
first_datum [] = none
first_datum (c ∷ cs) = filled c.datum

abbrev pub last_datum : List Cell → Option Ptr
last_datum [] = none
last_datum (c ∷ []) = filled c.datum
last_datum (c ∷ d ∷ cs) = last_datum (d ∷ cs)

data_at-tail :
    (ws : Heap) (p : Ptr) (cs : List Cell)
    → Links ws p cs
    → data_at ws (tail_of cs) ≡ ok (last_datum cs)
unfolding data_at tail_of has_data
data_at-tail ws p [] l = refl
data_at-tail ws p (c ∷ []) (here, n, cell, l) = rw cell refl
data_at-tail ws p (c ∷ d ∷ cs) (here, n, cell, l) = data_at-tail ws n (d ∷ cs) l

data_at-head :
    (ws : Heap) (p : Ptr) (cs : List Cell) → Links ws p cs → data_at ws p ≡ ok (first_datum cs)
unfolding data_at has_data
data_at-head ws p [] l = rw l refl
data_at-head ws p (c ∷ cs) (here, n, cell, l) = rw (here, cell) refl

module _ {D : Type 0} where
  -- On a valid index `get_head` and `get_tail` give the data of the workers with the smallest and
  -- the largest id, and nothing if there is no worker or the data there are null.
  pub get_head-get_tail :
      (t : RangeLh D)
      → (v : IsValid t)
      → (get_head t ≡ ok (first_datum v.cells)) × (get_tail t ≡ ok (last_datum v.cells))
  unfolding get_head get_tail
  get_head-get_tail t v = (
    data_at-head t.workers t.worker_head v.cells v.linked,
    rw v.tail (data_at-tail t.workers t.worker_head v.cells v.linked),
  )

abbrev blank : Data
blank = record { key = 0; text = [] }

-- The datum of the cell is in the pool.
abbrev pub IsPooled : List Data → Cell → Type 0
IsPooled pool c = (d : ℕ) → c.datum ≡ some d → d < length pool

module _ {D : Type 0} ⦃fl : Float D⦄ (pool : List Data) where
  abbrev add_datum : D → Ptr → D
  add_datum total none = total
  add_datum total (some d) = fl.add total (fl.of_nat (get_or pool d blank).key)

  -- The sum of the keys of the data, from the first cell on.
  unfoldable pub sum_of : D → List Cell → D
  sum_of total [] = total
  sum_of total (c ∷ cs) = sum_of (add_datum total c.datum) cs

  sum_keys-sum_of :
      (ws : Heap) (fuel : ℕ) (p : Ptr) (cs : List Cell) (total : D)
      → length cs ≤ fuel
      → Links ws p cs
      → All (IsPooled pool) cs
      → sum_keys ws pool fuel p total ≡ ok (sum_of total cs)
  unfolding sum_keys sum_of
  sum_keys-sum_of ws fuel p [] total h l k = rw l refl
  sum_keys-sum_of ws zero p (c ∷ cs) total h l k = absurd (omega arith)
  sum_keys-sum_of ws (suc fuel) p (c ∷ cs) total h (here, n, cell, l) (pooled, k) =
      let rest = sum_keys-sum_of ws fuel n cs (add_datum total c.datum) (omega arith) l k in
      elim (Option-cases c.datum) [
        | inl empty ↦ rw (here, cell, empty) (rw empty at rest)
        | inr (d, full) ↦
            rw (here, cell, full, at-get_or pool d blank (pooled d full)) (rw full at rest)
      ]

  -- On a valid index whose data all stand in the pool, `get_sum_keys` is defined and adds up the
  -- keys of the data of the workers that have some, from the smallest id on, starting from 0.
  pub get_sum_keys_lem :
      (t : RangeLh D)
      → (v : IsValid t) → All (IsPooled pool) v.cells
      → get_sum_keys t pool ≡ ok (sum_of (fl.of_nat 0) v.cells)
  unfolding get_sum_keys
  get_sum_keys_lem t v k =
      sum_keys-sum_of t.workers (length t.workers) t.worker_head v.cells (fl.of_nat 0)
        (omega (arith, v.sized)) v.linked k
