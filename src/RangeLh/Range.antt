-- ===== src/RangeLh/Range.antt =====
-- `range_lookup_impl`, `get_head` and `get_tail` of Implement/rangeLH.cpp on the sorted cells.
use range_lh_cplus_plus.Base.{
  ℕ, zero, suc, ◌≤◌, ◌<◌, ◌≡◌, refl, sym, ap, subst, ◌∙◌, arith, List, [], ◌∷◌, Option, none, some,
  Bool, true, false, ◌&&◌, ltb, leb, if◌then◌else◌, length, Bool-cases, Option-cases, inl, inr,
  none_ne_some, ltb→lt, ltb_false→le, le→leb, lt→leb_false,
}
use range_lh_cplus_plus.Base.Run.{Run, ok, ◌>>=◌}
use range_lh_cplus_plus.LinearHashing.{Ptr}
use range_lh_cplus_plus.Workers.{Heap}
use range_lh_cplus_plus.RangeLh.{RangeLh, collect, start_worker, range_lookup_impl}
use range_lh_cplus_plus.RangeLh.Adjacent.{get_right_adjacent_worker_lem}
use range_lh_cplus_plus.RangeLh.Right.{IsSuccessor}
use range_lh_cplus_plus.RangeLh.Cells.{
  Cell, Ascending, locate, locate-head, locate-later, locate-below,
}
use range_lh_cplus_plus.RangeLh.Chain.{Links, some-injective}
use range_lh_cplus_plus.RangeLh.Valid.{IsValid, capacity, lookup-locate, valid-Reads}
use native.Mathlib.Decide.{dec_lt}

-- The data of the cells with ids from `lo` to `hi`, in the order of the ids.
unfoldable pub data_between : (lo hi : ℕ) → List Cell → List Ptr
data_between lo hi [] = []
data_between lo hi (c ∷ cs) =
    let rest = data_between lo hi cs in if leb lo c.id && leb c.id hi then c.datum ∷ rest else rest

-- the cells from the first id at or above `lo` on
abbrev from : ℕ → List Cell → List Cell
from lo [] = []
from lo (c ∷ cs) = let rest = from lo cs in if ltb c.id lo then rest else c ∷ cs

-- the data of the cells before the first id above `hi`
abbrev up_to : ℕ → List Cell → List Ptr
up_to hi [] = []
up_to hi (c ∷ cs) = let rest = up_to hi cs in if ltb hi c.id then [] else c.datum ∷ rest

abbrev pub non_empty : List Ptr → Option (List Ptr)
non_empty [] = none
non_empty (d ∷ ds) = some (d ∷ ds)

length-from : (lo : ℕ) (cs : List Cell) → length (from lo cs) ≤ length cs
length-from lo [] = omega arith
length-from lo (c ∷ cs) = ground (arith, length-from lo cs)

collect-up_to :
    (ws : Heap) (fuel hi : ℕ) (p : Ptr) (cs : List Cell)
    → length cs ≤ fuel
    → Links ws p cs
    → collect ws fuel hi p ≡ ok (up_to hi cs)
unfolding collect
collect-up_to ws fuel hi p [] h l = rw l refl
collect-up_to ws zero hi p (c ∷ cs) h l = absurd (omega arith)
collect-up_to ws (suc fuel) hi p (c ∷ cs) h (here, n, cell, l) =
    let rest = collect-up_to ws fuel hi n cs (omega arith) l in
    let rounds : Run (List Ptr) = collect ws fuel hi n >>= λ r. ok (c.datum ∷ r) in
    let step : elim (ltb hi c.id) as (λ _. Run (List Ptr)) [ true ↦ ok [] | false ↦ rounds ]
        ≡ ok (up_to hi (c ∷ cs)) =
      elim (Bool-cases (ltb hi c.id)) [
        | inl beyond ↦ rw beyond refl
        | inr within ↦ rw (within, rest) refl
      ] in
    rw (here, cell) step

and_false : (b : Bool) → b && false ≡ false
and_false true = refl
and_false false = refl

data_between-beyond :
    (lo hi low : ℕ) (cs : List Cell) → Ascending low cs → hi < low → data_between lo hi cs ≡ []
unfolding data_between
data_between-beyond lo hi low [] s h = refl
data_between-beyond lo hi low (c ∷ cs) (le, s) h =
    rw (lt→leb_false c.id hi (omega arith), and_false (leb lo c.id))
      (data_between-beyond lo hi (suc c.id) cs s (omega arith))

up_to-between :
    (lo hi low : ℕ) (cs : List Cell)
    → Ascending low cs
    → lo ≤ low
    → up_to hi cs ≡ data_between lo hi cs
unfolding data_between
up_to-between lo hi low [] s h = refl
up_to-between lo hi low (c ∷ cs) (le, s) h = elim (Bool-cases (ltb hi c.id)) [
  | inl beyond ↦
      let lt = ltb→lt hi c.id beyond in
      rw (beyond, lt→leb_false c.id hi lt, and_false (leb lo c.id))
        (sym (data_between-beyond lo hi (suc c.id) cs s (omega arith)))
  | inr within ↦
      rw (within, le→leb lo c.id (omega arith), le→leb c.id hi (ltb_false→le hi c.id within))
        (ap (λ r. c.datum ∷ r) (up_to-between lo hi (suc c.id) cs s (omega arith)))
]

from-between :
    (lo hi low : ℕ) (cs : List Cell)
    → Ascending low cs
    → up_to hi (from lo cs) ≡ data_between lo hi cs
unfolding data_between
from-between lo hi low [] s = refl
from-between lo hi low (c ∷ cs) (le, s) = elim (Bool-cases (ltb c.id lo)) [
  | inl before ↦
      rw (before, lt→leb_false lo c.id (ltb→lt c.id lo before)) (from-between lo hi (suc c.id) cs s)
  | inr there ↦
      rw there (up_to-between lo hi c.id (c ∷ cs) (omega arith, s) (ltb_false→le c.id lo there))
]

-- The worker of the first key at or above `lo` heads the rest of the chain.
from-Links :
    (ws : Heap) (p : Ptr) (lo k a low : ℕ) (cs : List Cell)
    → Ascending low cs
    → Links ws p cs
    → locate cs k ≡ some a
    → lo ≤ k
    → ((q : ℕ) → lo ≤ q → q < k → locate cs q ≡ none)
    → Links ws (some a) (from lo cs)
unfolding locate
from-Links ws p lo k a low [] s l e h gap = absurd (none_ne_some e)
from-Links ws p lo k a low (c ∷ cs) (le, s) (here, n, cell, l) e h gap =
    elim (Bool-cases (ltb c.id lo)) [
      | inl before ↦
          let lt = ltb→lt c.id lo before in
          rw before (
            from-Links ws n lo k a (suc c.id) cs s l
              (sym (locate-later c cs k (λ x. absurd (omega arith))) ∙ e) h
              (λ q x y. sym (locate-later c cs q (λ z. absurd (omega arith))) ∙ gap q x y))
      | inr there ↦
          let ge = ltb_false→le c.id lo there in
          let id : c.id ≡ k = elim (dec_lt c.id k) [
            | yes low ↦ absurd (none_ne_some (sym (gap c.id ge low) ∙ locate-head c cs c.id refl))
            | no high ↦ elim (dec_lt k c.id) [
              | yes under ↦
                  absurd
                    (none_ne_some (sym (locate-below c.id (c ∷ cs) k (omega arith, s) under) ∙ e))
              | no level ↦ omega arith
            ]
          ] in
          let at_a : a ≡ c.address = some-injective (sym e ∙ locate-head c cs k id) in
          rw there (ap some at_a, n, cell, l)
    ]

from-none :
    (lo low : ℕ) (cs : List Cell) → ((q : ℕ) → lo ≤ q → locate cs q ≡ none) → from lo cs ≡ []
from-none lo low [] gap = refl
from-none lo low (c ∷ cs) gap = elim (Bool-cases (ltb c.id lo)) [
  | inl before ↦
      let lt = ltb→lt c.id lo before in
      rw before (
        from-none lo low cs
          (λ q h. sym (locate-later c cs q (λ z. absurd (omega arith))) ∙ gap q h))
  | inr there ↦
      absurd
        (none_ne_some (sym (gap c.id (ltb_false→le c.id lo there)) ∙ locate-head c cs c.id refl))
]

module _ {D : Type 0} (t : RangeLh D) (lo : ℕ) (v : IsValid t) (room : lo < capacity t) where
  -- from the searched key on, if the key is not there
  at_or_above :
      (q : ℕ)
      → locate v.cells lo ≡ none
      → lo ≤ q
      → (lo < q → locate v.cells q ≡ none)
      → locate v.cells q ≡ none
  at_or_above q absent h above = elim (dec_lt lo q) [
    | yes lt ↦ above lt
    | no ge ↦ let e : lo ≡ q = omega arith in subst (λ x. locate v.cells x ≡ none) e absent
  ]

  after :
      (p : Ptr)
      → locate v.cells lo ≡ none
      → IsSuccessor (locate v.cells) lo p
      → Links t.workers p (from lo v.cells)
  after none absent next =
      rw (from-none lo 0 v.cells (λ q h. at_or_above q absent h (λ lt. next q lt))) refl
  after (some a) absent (k, above, found, gap) =
      from-Links t.workers t.worker_head lo k a 0 v.cells v.sorted v.linked found (omega arith)
        (λ q x y. at_or_above q absent x (λ lt. gap q lt y))

  start_worker_lem : (p : Ptr) × (start_worker t lo ≡ ok p) × Links t.workers p (from lo v.cells)
  unfolding start_worker
  start_worker_lem = elim (Option-cases (locate v.cells lo)) [
    | inr (a, found) ↦ (
      some a,
      rw (lookup-locate v lo, found) refl,
      from-Links t.workers t.worker_head lo lo a 0 v.cells v.sorted v.linked found (omega arith)
          (λ q x y. absurd (omega arith)),
    )
    | inl absent ↦
        let (p, run, next) =
          get_right_adjacent_worker_lem t (locate v.cells) lo (valid-Reads v) room absent in
        (p, rw (lookup-locate v lo, absent) run, after p absent next)
  ]

  -- On a valid index, for a start key below 2^(max_level * delta), `range_lookup_impl` is defined
  -- and gives the data of exactly the workers with ids from the start key to the end key, deleted
  -- ones included, in ascending order of the ids, and nothing if there are none.
  pub range_lookup_lem :
      (hi : ℕ) → range_lookup_impl t lo hi ≡ ok (non_empty (data_between lo hi v.cells))
  unfolding range_lookup_impl
  range_lookup_lem hi =
      let (p, start, links) = start_worker_lem in
      let walk =
        collect-up_to t.workers (length t.workers) hi p (from lo v.cells)
          (omega (arith, length-from lo v.cells, v.sized)) links in
      rw (start, walk, from-between lo hi 0 v.cells v.sorted) refl
