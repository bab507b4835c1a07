-- ===== src/RangeLh/Reinsert.antt =====
-- `remove_impl` and then `insert_impl` of Implement/rangeLH.cpp for one key.
use range_lh_cplus_plus.Base.{
  ℕ, ◌≡◌, refl, ap, ◌∙◌, arith, List, [], ◌∷◌, some, none, true, ◌==◌, if◌then◌else◌,
}
use range_lh_cplus_plus.Base.Run.{ok, ◌>>=◌}
use range_lh_cplus_plus.Base.Ints.{ℤ, increment}
use range_lh_cplus_plus.Base.Float.{Float}
use range_lh_cplus_plus.LinearHashing.{Ptr, nullptr}
use range_lh_cplus_plus.RangeLh.{RangeLh, insert_impl, remove_impl, point_lookup_impl}
use range_lh_cplus_plus.RangeLh.Cells.{Cell, locate}
use range_lh_cplus_plus.RangeLh.Valid.{IsValid}
use range_lh_cplus_plus.RangeLh.Update.{datum_of, with_datum, locate-with_datum, put-with_datum}
use range_lh_cplus_plus.RangeLh.Lookup.{filled, datum_of-erase, remove_impl_lem}
use range_lh_cplus_plus.RangeLh.Insert.{new_cell, Puts-looks, insert_old}

with_datum_twice :
    (q : ℕ) (d e : Ptr) (cs : List Cell) → with_datum q d (with_datum q e cs) ≡ with_datum q d cs
unfolding with_datum
with_datum_twice q d e [] = refl
with_datum_twice q d e (c ∷ cs) = ground (arith, with_datum_twice q d e cs)

module _ {D : Type 0} ⦃fl : Float D⦄ where
  -- On a valid index that has a worker for the key, and with a counter that can still grow,
  -- `remove_impl` and then `insert_impl` for the key are defined; the result is valid, its chain
  -- has the same workers with the new data under the key, a point lookup finds the new data under
  -- the key and what it found before under every other key, and the counter of active workers is
  -- one more than before, whether or not the worker had data before.
  pub remove-insert :
      (t : RangeLh D) (key a : ℕ) (value : Ptr) (n : ℤ)
      → (v : IsValid t) → locate v.cells key ≡ some a
      → increment t.num_active_worker ≡ ok n
      → (t' : RangeLh D) × ((remove_impl t key >>= λ r. insert_impl r.1 key value) ≡ ok (true, t'))
        × (v' : IsValid t') × (v'.cells ≡ with_datum key value v.cells)
        × ((q : ℕ)
            → point_lookup_impl t' q
              ≡ (if q == key then ok (filled value) else point_lookup_impl t q))
        × (t'.num_active_worker ≡ n)
  remove-insert t key a value n v found counted =
      let (s, removal, w, emptied, looks, active) = remove_impl_lem t key a v found in
      let found' : locate w.cells key ≡ some a =
        rw (emptied, locate-with_datum key nullptr v.cells key) found in
      let (t', insertion, puts, count) = insert_old s key a value n w found' (rw active counted) in
      let gone : datum_of w.cells key ≡ none =
        rw (emptied, datum_of-erase key v.cells key) (ground arith) in
      (
        t',
        rw removal insertion,
        puts.valid,
        puts.cells
            ∙ put-with_datum (new_cell s key value) 0 w.cells a w.sorted found'
            ∙ ap (with_datum key value) emptied
            ∙ with_datum_twice key value nullptr v.cells,
        λ q. Puts-looks w key value puts q ∙ rw looks (ground arith),
        count ∙ rw gone refl,
      )
