-- ===== src/Examples/Tree.antt =====
-- Runs of the B+ tree of BPlusTree/bPlusTree.cpp, and its theorems on a tree of two leaves.
use range_lh_cplus_plus.Base.{
  ℕ, suc, ◌≡◌, ◌≤◌, ◌^◌, ◌*◌, refl, arith, List, [], ◌∷◌, some, true, map,
}
use range_lh_cplus_plus.Base.{◌-◌, ◌/◌}
use Prim.Native.Nat.{max}
use range_lh_cplus_plus.Base.Run.{Run, ok, ◌>>=◌}
use range_lh_cplus_plus.LinearHashing.{nullptr}
use range_lh_cplus_plus.BPlusTree
use range_lh_cplus_plus.BPlusTree.{BPlusTree, Leaf, Tree, Record}
use range_lh_cplus_plus.BPlusTree.Insertion
use range_lh_cplus_plus.BPlusTree.Removal
use range_lh_cplus_plus.BPlusTree.Removal.{has_key, erase_key, min_keys}
use range_lh_cplus_plus.BPlusTree.Node.{contents}
use range_lh_cplus_plus.BPlusTree.Ascent.{Ascending}
use range_lh_cplus_plus.BPlusTree.Walk.{data_between}
use range_lh_cplus_plus.BPlusTree.Valid.{IsValid, records}
use range_lh_cplus_plus.BPlusTree.Insert.{Inserts, insert_tree_lem}
use range_lh_cplus_plus.BPlusTree.Remove.{remove_tree_lem}
use range_lh_cplus_plus.BPlusTree.Search.{search_tree_lem}
use range_lh_cplus_plus.BPlusTree.Range.{range_search_lem, get_all_lem}
use range_lh_cplus_plus.BPlusTree.Height.{height_lem}
use range_lh_cplus_plus.BPlusTree.Emptying.{remove_keys, remove_keys-is_empty}
use range_lh_cplus_plus.BPlusTree.Repeated.{three_times, range_search-repeated}
use range_lh_cplus_plus.BPlusTree.Refinement
use range_lh_cplus_plus.BPlusTree.Refinement.{calls-new}
use range_lh_cplus_plus.BPlusTree.Reachable.{inserts, Reaches, start, continued, reaches-IsValid}

program : Unit {0}
unfolding BPlusTree.new BPlusTree.focus BPlusTree.unfocus BPlusTree.insert_entry
    BPlusTree.find_child BPlusTree.find_leaf BPlusTree.leaves BPlusTree.leaf_at BPlusTree.walk
    BPlusTree.first_leaf BPlusTree.scan_records BPlusTree.range_search
    BPlusTree.get_all_keys_in_order Insertion.split_leaf Insertion.split_internal
    Insertion.insert_into_parent Insertion.after_child Insertion.insert_below Insertion.new_root
    Insertion.insert Removal.size Removal.min_keys Removal.pop_back Removal.borrow_from_left_leaf
    Removal.borrow_from_right_leaf Removal.borrow_from_left_internal
    Removal.borrow_from_right_internal Removal.merge_with_left_leaf Removal.merge_with_right_leaf
    Removal.merge_with_left_internal Removal.merge_with_right_internal Removal.borrow_from_left
    Removal.borrow_from_right Removal.merge_with_left Removal.merge_with_right Removal.merge
    Removal.try_right Removal.after_left Removal.try_left Removal.handle_underflow
    Removal.handle_underflow_root has_key erase_key Removal.after_removal Removal.remove_below
    Removal.root_after_removal Removal.with_root Removal.remove_from Removal.remove remove_keys
program = tt

abbrev left : Leaf
left = record { address = 0; records = (2, some 7) ∷ []; next = some 1 }

abbrev right : Leaf
right = record { address = 1; records = (5, some 8) ∷ (9, nullptr) ∷ []; next = nullptr }

abbrev top : Tree 1
top = (left, (5, right) ∷ [])

abbrev pair : BPlusTree
pair = record { root = some (1, top); order = 3; count = 3; fresh = 2 }

pair-IsValid : IsValid pair
unfolding Removal.min_keys Removal.size contents BPlusTree.leaves
pair-IsValid = (
  (omega arith, omega arith),
  (
    (
      (
        (omega arith, (omega arith, omega arith), omega arith),
        ((omega arith, (omega arith, omega arith), omega arith), tt),
      ),
      omega arith,
    ),
    omega arith,
    refl,
    ((some 0, (refl, (refl, refl))), (λ a. ground arith), λ a l. ground arith),
  ),
)

-- a leaf that takes its third record is split
insert_tree_lem_example :
    (after : BPlusTree) × (Insertion.insert pair 6 (some 4) ≡ ok after)
    × Inserts pair 6 (some 4) after
unfolding contents
insert_tree_lem_example =
    insert_tree_lem pair 6 (some 4) pair-IsValid (omega arith)
      (omega arith, (omega arith, (omega arith, tt))) (omega arith)

-- the emptied leaf borrows from its right sibling
remove_tree_lem_example :
    (after : BPlusTree) × (Removal.remove pair 2 ≡ ok (after, has_key 2 (records pair)))
    × IsValid after
    × (records after ≡ erase_key 2 (records pair))
    × (after.order ≡ pair.order)
remove_tree_lem_example = remove_tree_lem pair 2 pair-IsValid (omega arith)

search_tree_lem_example : BPlusTree.search pair 5 ≡ BPlusTree.search_records 5 (records pair)
search_tree_lem_example = search_tree_lem pair 5 pair-IsValid (omega arith)

range_search_lem_example : BPlusTree.range_search pair 2 7 ≡ ok (data_between 2 7 (records pair))
range_search_lem_example = range_search_lem pair 2 7 pair-IsValid (omega arith)

get_all_lem_example :
    (BPlusTree.get_all_keys_in_order pair ≡ ok (map (λ r. r.0) (records pair)))
    × (BPlusTree.get_all_data_in_order pair ≡ ok (map (λ r. r.1) (records pair)))
    × Ascending 0 (2 ^ 32) (records pair)
get_all_lem_example = get_all_lem pair pair-IsValid

remove_keys-is_empty_example :
    (after : BPlusTree) × (remove_keys (9 ∷ 2 ∷ 5 ∷ []) pair ≡ ok after)
    × (BPlusTree.is_empty after ≡ true)
    × (after.count ≡ 0)
unfolding has_key contents
remove_keys-is_empty_example =
    remove_keys-is_empty pair (9 ∷ 2 ∷ 5 ∷ []) pair-IsValid
      (omega arith, (omega arith, (omega arith, tt))) (λ q e. ground arith)

abbrev session : List Refinement.Call
session =
    Refinement.inserts 5 (some 8)
    ∷ Refinement.inserts 2 (some 7)
    ∷ Refinement.ranges 2 5
    ∷ Refinement.removes 5
    ∷ Refinement.searches 2
    ∷ Refinement.lists
    ∷ []

calls-new_example : Refinement.calls session (BPlusTree.new 3) ≡ ok (Refinement.answers session [])
unfolding BPlusTree.insert_entry
calls-new_example = calls-new 3 session (omega arith) (
  (omega arith, tt, omega arith),
  (
    (omega arith, (omega arith, tt), omega arith),
    (omega arith, (omega arith, (omega arith, (tt, tt)))),
  ),
)

abbrev single : BPlusTree
single = record {
  root = some (0, record { address = 0; records = (5, some 8) ∷ []; next = nullptr });
  order = 3;
  count = 1;
  fresh = 1;
}

single_reached : Reaches 2 single
unfolding BPlusTree.new Insertion.insert
single_reached = continued start (inserts 5 (some 8) (omega arith) tt (omega arith) refl)

abbrev double : BPlusTree
double = record {
  root = some (0, record { address = 0; records = (2, some 7) ∷ (5, some 8) ∷ []; next = nullptr });
  order = 3;
  count = 2;
  fresh = 2;
}

abbrev bottom : Tree 1
bottom = (
  record { address = 0; records = (2, some 7) ∷ (5, some 8) ∷ []; next = some 2 },
  (9, record { address = 2; records = (9, some 6) ∷ []; next = nullptr }) ∷ [],
)

abbrev triple : BPlusTree
triple = record { root = some (1, bottom); order = 3; count = 3; fresh = 3 }

double_reached : Reaches 2 double
unfolding program contents
double_reached =
    continued single_reached (inserts 2 (some 7) (omega arith) (omega arith, tt) (omega arith) refl)

triple_reached : Reaches 2 triple
unfolding program contents
triple_reached =
    continued double_reached
      (inserts 9 (some 6) (omega arith) (omega arith, (omega arith, tt)) (omega arith) refl)

height_lem_example : 2 * ((max 2 3 - 1) / 2 * suc ((max 2 3 - 1) / 2) ^ 0) ≤ 3
height_lem_example = height_lem 2 triple 0 bottom (omega arith) triple_reached refl

reaches-IsValid_example : IsValid single
reaches-IsValid_example = reaches-IsValid 2 single (omega arith) single_reached

range_search-repeated_example :
    ((three_times 5 (some 1) (some 2) nullptr >>= λ t. BPlusTree.range_search t 5 5)
      ≡ ok (some 1 ∷ []))
    × ((three_times 5 (some 1) (some 2) nullptr >>= BPlusTree.get_all_data_in_order)
        ≡ ok (nullptr ∷ some 2 ∷ some 1 ∷ []))
range_search-repeated_example = range_search-repeated 5 (some 1) (some 2) nullptr

insert_keys : List ℕ → BPlusTree → Run BPlusTree
insert_keys [] t = ok t
insert_keys (k ∷ ks) t = Insertion.insert t k (some k) >>= insert_keys ks

nine_keys :
    (insert_keys (5 ∷ 2 ∷ 8 ∷ 1 ∷ 9 ∷ 3 ∷ 7 ∷ 4 ∷ 6 ∷ []) (BPlusTree.new 3)
      >>= BPlusTree.get_all_keys_in_order)
    ≡ ok (1 ∷ 2 ∷ 3 ∷ 4 ∷ 5 ∷ 6 ∷ 7 ∷ 8 ∷ 9 ∷ [])
unfolding program insert_keys
nine_keys = refl

-- with borrows, merges and a lower root
five_keys :
    (insert_keys (5 ∷ 2 ∷ 8 ∷ 1 ∷ 9 ∷ 3 ∷ 7 ∷ 4 ∷ 6 ∷ []) (BPlusTree.new 3)
      >>= remove_keys (1 ∷ 8 ∷ 5 ∷ 9 ∷ [])
      >>= BPlusTree.get_all_keys_in_order)
    ≡ ok (2 ∷ 3 ∷ 4 ∷ 6 ∷ 7 ∷ [])
unfolding program insert_keys
five_keys = refl
