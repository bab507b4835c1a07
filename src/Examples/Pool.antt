-- ===== src/Examples/Pool.antt =====
-- Runs of the storage over the index of Examples/Index.antt.
use range_lh_cplus_plus.Base.{
  ℕ, ◌≡◌, sym, ap, ◌∙◌, subst, refl, arith, [], ◌∷◌, none, some, true, List, Option, All, ◌==◌,
  if◌then◌else◌,
}
use range_lh_cplus_plus.Base.Run.{ok, undefined, at}
use range_lh_cplus_plus.Base.Ints.{pos}
use range_lh_cplus_plus.Workers.{Data}
use range_lh_cplus_plus.RangeLh.Cells.{put}
use range_lh_cplus_plus.RangeLh.Chain.{some-injective}
use range_lh_cplus_plus.RangeLh.Insert.{new_cell}
use range_lh_cplus_plus.RangeLh.Lookup.{is_some}
use range_lh_cplus_plus.RangeLh.Update.{datum_of}
use range_lh_cplus_plus.Storage
use range_lh_cplus_plus.Storage.{Storage, get, sum_range, count_range}
use range_lh_cplus_plus.Storage.Records.{
  IsOwn, IsValid, get_lem, insert_storage_lem, remove_storage_lem,
}
use range_lh_cplus_plus.Storage.Aggregates.{has_deleted, sum_ids, sum_range_lem}
use range_lh_cplus_plus.Examples.Fixture.{milli}
use range_lh_cplus_plus.Examples.Index.{
  index, index-made, index-IsValid, few_buckets, room, has_five, five, five-Puts, room_five,
}

abbrev store : Storage ℕ
store = record { data_pool = []; index = index }

store-IsValid : IsValid store
store-IsValid = record { index = index-IsValid; own = subst (All (IsOwn [])) (sym index-made.1) tt }

abbrev text : List ℕ
text = 104 ∷ 105 ∷ []

-- the storage with a record under 5
abbrev stored_five : Storage ℕ
stored_five = record { data_pool = record { key = 5; text = text } ∷ []; index = five }

stored_five-IsValid : IsValid stored_five
unfolding put
stored_five-IsValid = record {
  index = five-Puts.valid;
  own =
      subst (All (IsOwn stored_five.data_pool))
        (sym (five-Puts.cells ∙ ap (put (new_cell index 5 (some 0))) index-made.1))
        (
          (λ d e. (
            text,
            subst (λ i. at stored_five.data_pool i ≡ ok (record { key = 5; text = text }))
                (some-injective e) refl,
          )),
          tt,
        );
}

-- witnesses

insert_storage_lem_example :
    (s' : Storage ℕ) × (Storage.insert store 5 text ≡ ok (true, s'))
    × IsValid s'
    × ((q : ℕ)
        → get s' q ≡ (if q == 5 then ok (some (record { key = 5; text = text })) else get store q))
insert_storage_lem_example =
    insert_storage_lem store 5 text (pos 1) store-IsValid (room 5 (omega arith)) few_buckets refl

get_lem_example :
    (r : Option Data) × (get stored_five 5 ≡ ok r) × ((x : Data) → r ≡ some x → x.key ≡ 5)
get_lem_example = get_lem stored_five 5 stored_five-IsValid

sum_range_lem_example : sum_range stored_five 3 9 ≡ (
    if has_deleted 3 9 stored_five-IsValid.index.cells
    then undefined
    else ok (sum_ids 3 9 (milli.of_nat 0) stored_five-IsValid.index.cells))
sum_range_lem_example =
    sum_range_lem stored_five 3 9 stored_five-IsValid (room_five 3 (omega arith))

remove_storage_lem_example :
    (s' : Storage ℕ) × (Storage.remove stored_five 5
      ≡ ok (is_some (datum_of stored_five-IsValid.index.cells 5), s'))
    × IsValid s'
    × ((q : ℕ) → get s' q ≡ (if q == 5 then ok none else get stored_five q))
unfolding stored_five-IsValid
remove_storage_lem_example = remove_storage_lem stored_five 5 0 stored_five-IsValid has_five
