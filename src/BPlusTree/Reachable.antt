-- ===== src/BPlusTree/Reachable.antt =====
-- The states that the methods of BPlusTree/bPlusTree.h lead to, as steps from the constructor's:
-- insertions of keys that the tree does not have, and removals.
use range_lh_cplus_plus.Base.{ℕ, ◌^◌, ◌≡◌, ◌<◌, subst, Bool}
use range_lh_cplus_plus.Base.Run.{ok}
use range_lh_cplus_plus.Base.Ints.{int_max}
use range_lh_cplus_plus.LinearHashing.{Ptr}
use range_lh_cplus_plus.BPlusTree.{BPlusTree, new}
use range_lh_cplus_plus.BPlusTree.Insertion.{insert}
use range_lh_cplus_plus.BPlusTree.Removal.{remove}
use range_lh_cplus_plus.BPlusTree.Ascent.{IsNew}
use range_lh_cplus_plus.BPlusTree.Valid.{IsValid, records, new-IsValid}
use range_lh_cplus_plus.BPlusTree.Insert.{insert_tree_lem}
use range_lh_cplus_plus.BPlusTree.Remove.{remove_tree_lem}

pub data Step (before : BPlusTree) : BPlusTree → Type 0 where
  inserts :
      {after : BPlusTree} (key : ℕ) (datum : Ptr)
      → key < 2 ^ 32
      → IsNew key (records before)
      → before.count < int_max
      → insert before key datum ≡ ok after
      → Step before after
  removes :
      {after : BPlusTree} (key : ℕ) (found : Bool)
      → key < 2 ^ 32
      → remove before key ≡ ok (after, found)
      → Step before after

pub data Reaches (ord : ℕ) : BPlusTree → Type 0 where
  start : Reaches ord (new ord)
  continued : {t after : BPlusTree} → Reaches ord t → Step t after → Reaches ord after

step-IsValid : (t after : BPlusTree) → Step t after → IsValid t → IsValid after
step-IsValid t after (inserts key datum l new_key room run) v =
    let (next, run_, (valid, same_records, order, count)) =
      insert_tree_lem t key datum v l new_key room in
    let same : next ≡ after = cc in subst IsValid same valid
step-IsValid t after (removes key found l run) v =
    let (next, run_, valid, same_records, order) = remove_tree_lem t key v l in
    let same : next ≡ after = cc in subst IsValid same valid

-- For every order below 2^31 - 1 that the constructor is given, insertions of keys below 2^32 that
-- the tree does not have, with a count below 2^31 - 1, and removals of keys below 2^32 lead from
-- the new tree to valid trees only.
pub reaches-IsValid : (ord : ℕ) (t : BPlusTree) → ord < int_max → Reaches ord t → IsValid t
reaches-IsValid ord t small start = new-IsValid ord small
reaches-IsValid ord t small (continued {t = s} r step) =
    step-IsValid s t step (reaches-IsValid ord s small r)
