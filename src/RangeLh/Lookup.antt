-- ===== src/RangeLh/Lookup.antt =====
-- `point_lookup_impl` and `remove_impl` of Implement/rangeLH.cpp on the sorted cells.
use range_lh_cplus_plus.Base.{
  ℕ, ◌≡◌, refl, sym, ap, ◌∙◌, arith, List, [], ◌∷◌, Option, none, some, Bool, true, false, not,
  ◌==◌, if◌then◌else◌, Bool-cases, Option-cases, inl, inr, none_ne_some,
}
use range_lh_cplus_plus.Base.Run.{ok}
use range_lh_cplus_plus.LinearHashing.{Ptr, nullptr}
use range_lh_cplus_plus.Workers.{is_null, has_data, delete_data}
use range_lh_cplus_plus.RangeLh.{RangeLh, point_lookup_impl, remove_impl}
use range_lh_cplus_plus.RangeLh.Cells.{Cell, locate, put}
use range_lh_cplus_plus.RangeLh.Chain.{locate-Links}
use range_lh_cplus_plus.RangeLh.Valid.{IsValid, lookup-locate}
use range_lh_cplus_plus.RangeLh.Update.{
  with_datum, datum_of, datum_of-worker, datum_of-none, with_datum-IsValid,
}

-- what a lookup makes of a data pointer
abbrev pub filled : Ptr → Option Ptr
filled d = if not (is_null d) then some d else none

abbrev pub is_some : Option Ptr → Bool
is_some none = false
is_some (some d) = true

pub datum_of-put :
    (n : Cell) (cs : List Cell) (q : ℕ)
    → datum_of (put n cs) q ≡ (if q == n.id then filled n.datum else datum_of cs q)
unfolding put datum_of is_null
datum_of-put n [] q = ground arith
datum_of-put n (c ∷ cs) q = ground (arith, datum_of-put n cs q)

pub datum_of-erase :
    (k : ℕ) (cs : List Cell) (q : ℕ)
    → datum_of (with_datum k nullptr cs) q ≡ (if q == k then none else datum_of cs q)
unfolding with_datum datum_of is_null
datum_of-erase k [] q = ground arith
datum_of-erase k (c ∷ cs) q = ground (arith, datum_of-erase k cs q)

with_datum-empty : (q : ℕ) (cs : List Cell) → datum_of cs q ≡ none → with_datum q nullptr cs ≡ cs
unfolding with_datum datum_of is_null
with_datum-empty q [] e = refl
with_datum-empty q (c ∷ cs) e = elim (Bool-cases (c.id == q)) [
  | inl same ↦ elim (Option-cases c.datum) [
    | inl null ↦ rw same (ap (λ (d : Ptr). record c { datum = d } ∷ cs) (sym null))
    | inr (d, there) ↦ absurd (none_ne_some {a = c.datum} (sym e ∙ rw (same, there) refl))
  ]
  | inr other ↦ rw other (ap (λ r. c ∷ r) (with_datum-empty q cs (rw other at e)))
]

module _ {D : Type 0} where
  -- On a valid index `point_lookup_impl` is defined for every key and gives the data of the worker
  -- with that id, and nothing if there is no such worker or its data are null.
  pub point_lookup_lem :
      (t : RangeLh D) (key : ℕ)
      → (v : IsValid t) → point_lookup_impl t key ≡ ok (datum_of v.cells key)
  unfolding point_lookup_impl
  point_lookup_lem t key v = elim (Option-cases (locate v.cells key)) [
    | inl absent ↦ rw (lookup-locate v key, absent, datum_of-none v.cells key absent) refl
    | inr (a, found) ↦
        let (w, there, id) = locate-Links t.workers t.worker_head v.cells key a v.linked found in
        rw
          (
            lookup-locate v key,
            found,
            there,
            datum_of-worker t.workers t.worker_head v.cells key a w v.linked found there,
          )
          refl
  ]

  -- What lookups make of a removal.
  erase-looks :
      {t t' : RangeLh D} (v : IsValid t) (v' : IsValid t') (key : ℕ)
      → v'.cells ≡ with_datum key nullptr v.cells
      → (q : ℕ) → point_lookup_impl t' q ≡ (if q == key then ok none else point_lookup_impl t q)
  erase-looks {t} {t'} v v' key cells q =
      point_lookup_lem t' q v'
      ∙ rw (cells, datum_of-erase key v.cells q, point_lookup_lem t q v) (ground arith)

  -- On a valid index that has a worker for the key, `remove_impl` is defined and says whether the
  -- worker had data; the result is valid, its chain has the same workers with null data under the
  -- key, a point lookup finds nothing under the key and what it found before under every other
  -- key, and the counter of active workers is not changed.
  pub remove_impl_lem :
      (t : RangeLh D) (key a : ℕ)
      → (v : IsValid t) → locate v.cells key ≡ some a
      → (t' : RangeLh D) × (remove_impl t key ≡ ok (is_some (datum_of v.cells key), t'))
        × (v' : IsValid t') × (v'.cells ≡ with_datum key nullptr v.cells)
        × ((q : ℕ) → point_lookup_impl t' q ≡ (if q == key then ok none else point_lookup_impl t q))
        × (t'.num_active_worker ≡ t.num_active_worker)
  unfolding remove_impl delete_data has_data is_null
  remove_impl_lem t key a v found =
      let (w, there, id) = locate-Links t.workers t.worker_head v.cells key a v.linked found in
      let held = datum_of-worker t.workers t.worker_head v.cells key a w v.linked found there in
      elim (Option-cases w.datum) [
        | inl empty ↦
            let nothing : datum_of v.cells key ≡ none = held ∙ rw empty refl in
            (
              t,
              rw (lookup-locate v key, found, there, empty, nothing) refl,
              v,
              sym (with_datum-empty key v.cells nothing),
              erase-looks v v key (sym (with_datum-empty key v.cells nothing)),
              refl,
            )
        | inr (d, full) ↦
            let something : datum_of v.cells key ≡ some (some d) = held ∙ rw full refl in
            let (v', cells) =
              with_datum-IsValid v key a w nullptr t.num_active_worker found there in
            (
              _,
              rw (lookup-locate v key, found, there, full, something) refl,
              v',
              cells,
              erase-looks v v' key cells,
              refl,
            )
      ]
