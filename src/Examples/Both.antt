-- ===== src/Examples/Both.antt =====
-- The index and the tree with the key 5.
use range_lh_cplus_plus.Base.{ℕ, ◌≡◌, ◌∙◌, sym, ap, refl, arith, some, true}
use range_lh_cplus_plus.Base.{[], ◌∷◌, subst}
use range_lh_cplus_plus.Base.Run.{ok, ◌>>=◌}
use range_lh_cplus_plus.Base.Ints.{pos}
use range_lh_cplus_plus.RangeLh.{RangeLh, insert_impl, point_lookup_impl, range_lookup_impl}
use range_lh_cplus_plus.RangeLh.Cells.{put}
use range_lh_cplus_plus.RangeLh.Valid as Index
use range_lh_cplus_plus.RangeLh.Insert.{new_cell}
use range_lh_cplus_plus.RangeLh.Lookup.{filled}
use range_lh_cplus_plus.RangeLh.Range.{non_empty}
use range_lh_cplus_plus.BPlusTree.{BPlusTree, int_key, new, insert_entry, search, range_search}
use range_lh_cplus_plus.BPlusTree.Insertion.{insert}
use range_lh_cplus_plus.BPlusTree.Valid.{new-IsValid}
use range_lh_cplus_plus.BPlusTree.Insert.{Inserts, insert_tree_lem}
use range_lh_cplus_plus.Agreement.{as_records, Agrees, AreInts, insert-Agrees, lookups-agree}
use range_lh_cplus_plus.Examples.Fixture.{milli}
use range_lh_cplus_plus.Examples.Index.{
  index, index-made, index-IsValid, few_buckets, room, five, five-Puts, room_five,
}

new-Agrees : Agrees index-IsValid (new 3)
unfolding as_records new
new-Agrees = (
  new-IsValid 3 (omega arith),
  ap as_records (sym index-made.1),
  subst AreInts (sym index-made.1) tt,
)

grown :
    (b : BPlusTree) × (insert (new 3) (int_key 5) (some 0) ≡ ok b)
    × Inserts (new 3) (int_key 5) (some 0) b
unfolding new int_key
grown =
    insert_tree_lem (new 3) (int_key 5) (some 0) (new-IsValid 3 (omega arith)) (omega arith) tt
      (omega arith)

abbrev tree : BPlusTree
tree = grown.0

five_cells : five-Puts.valid.cells ≡ new_cell index 5 (some 0) ∷ []
unfolding put
five_cells = five-Puts.cells ∙ ap (put (new_cell index 5 (some 0))) index-made.1

five-Agrees : Agrees five-Puts.valid tree
unfolding as_records new insert_entry
five-Agrees =
    let (b, run, (w, after, order, count)) = grown in
    (w, after ∙ ap as_records (sym five_cells), subst AreInts (sym five_cells) (omega arith, tt))

insert-Agrees_example :
    (t' : RangeLh ℕ) × (b' : BPlusTree) × (insert_impl index 5 (some 0) ≡ ok (true, t'))
    × (insert (new 3) (int_key 5) (some 0) ≡ ok b')
    × (v' : Index.IsValid t') × Agrees v' b'
unfolding new
insert-Agrees_example =
    insert-Agrees index (new 3) 5 (some 0) (pos 1) index-IsValid new-Agrees (room 5 (omega arith))
      (omega arith) tt few_buckets refl (omega arith)

lookups-agree_example :
    (point_lookup_impl five 5 ≡ ok (filled (search tree (int_key 5))))
    × (range_lookup_impl five 3 9
        ≡ (range_search tree (int_key 3) (int_key 9) >>= λ ds. ok (non_empty ds)))
lookups-agree_example =
    lookups-agree five tree 5 3 9 five-Puts.valid five-Agrees (omega arith)
      (room_five 3 (omega arith)) (omega arith) (omega arith)
