-- ===== src/BPlusTree/Repeated.antt =====
-- A key that is inserted again and again in a tree of BPlusTree/bPlusTree.cpp.
use range_lh_cplus_plus.Base.{ℕ, ◌≡◌, arith, [], ◌∷◌}
use range_lh_cplus_plus.Base.Run.{Run, ok, ◌>>=◌}
use range_lh_cplus_plus.LinearHashing.{Ptr}
use range_lh_cplus_plus.BPlusTree
use range_lh_cplus_plus.BPlusTree.Insertion

unfoldable pub three_times : (key : ℕ) (a b c : Ptr) → Run BPlusTree.BPlusTree
three_times key a b c = Insertion.insert (BPlusTree.new 3) key a >>= λ x.
    Insertion.insert x key b >>= λ y. Insertion.insert y key c

-- If one key is inserted three times in a new tree of order 3, `range_search` from the key to
-- itself gives the data of the first insertion only, while `get_all_data_in_order` gives those of
-- all three.
pub range_search-repeated :
    (key : ℕ) (a b c : Ptr)
    → ((three_times key a b c >>= λ t. BPlusTree.range_search t key key) ≡ ok (a ∷ []))
      × ((three_times key a b c >>= BPlusTree.get_all_data_in_order) ≡ ok (c ∷ b ∷ a ∷ []))
unfolding three_times BPlusTree.new BPlusTree.insert_entry BPlusTree.find_child BPlusTree.find_leaf
    BPlusTree.leaves BPlusTree.leaf_at BPlusTree.walk BPlusTree.first_leaf BPlusTree.scan_records
    BPlusTree.range_search BPlusTree.get_all_data_in_order Insertion.split_leaf
    Insertion.insert_below Insertion.new_root Insertion.insert
range_search-repeated key a b c = (ground arith, ground arith)
