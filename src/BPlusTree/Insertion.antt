-- ===== src/BPlusTree/Insertion.antt =====
-- `splitLeaf`, `splitInternal`, `insertIntoParent` and `insert` of BPlusTree/bPlusTree.cpp. A node
-- that took an insertion comes back with the sibling that was split off it, if any, and that
-- sibling's key.
use range_lh_cplus_plus.Base.{
  ℕ, zero, suc, ◌+◌, ◌/◌, List, [], ◌∷◌, Option, none, some, ◌==◌, leb, if◌then◌else◌, length,
}
use range_lh_cplus_plus.Base.Run.{Run, ok, undefined, ◌>>=◌, at}
use range_lh_cplus_plus.Base.Ints.{int_max}
use range_lh_cplus_plus.LinearHashing.{Ptr, nullptr}
use range_lh_cplus_plus.BPlusTree.{
  Leaf, Tree, Root, BPlusTree, take, drop, focus, unfocus, insert_entry,
}

abbrev pub Split : ℕ → Type 0
Split h = Tree h × Option (ℕ × Tree h)

-- `order + 1` overflows at INT_MAX.
unfoldable pub split_leaf : (order fresh : ℕ) → Leaf → Run (Split 0)
split_leaf order fresh leaf =
    let mid = (order + 1) / 2 in
    let new_leaf : Leaf = record {
      address = fresh;
      records = drop mid leaf.records;
      next = leaf.next;
    } in
    if order == int_max then undefined else (do
      first ← at new_leaf.records 0
      ok (
        record { address = leaf.address; records = take mid leaf.records; next = some fresh },
        some (first.0, new_leaf),
      ))

unfoldable pub split_internal : (order h : ℕ) → Tree (suc h) → Run (Split (suc h))
split_internal order h (child, rest) =
    let mid = order / 2 in
    do
      middle ← at rest mid
      ok ((child, take mid rest), some (middle.0, (middle.1, drop (suc mid) rest)))

-- Below the root: `right` goes behind its separator, and a full parent is split.
unfoldable pub insert_into_parent :
    (order h : ℕ) → (key : ℕ) → (right : Tree h) → (parent : Tree (suc h)) → Run (Split (suc h))
insert_into_parent order h key right (child, rest) =
    let inserted = insert_entry key right rest in
    if leb order (length inserted)
    then split_internal order h (child, inserted)
    else ok ((child, inserted), none)

-- A node after an insertion into its child.
unfoldable pub after_child :
    (order h : ℕ) → List (Tree h × ℕ) → Split h → List (ℕ × Tree h) → Run (Split (suc h))
after_child order h before (child, none) behind = ok (unfocus before child behind, none)
after_child order h before (child, some (key, right)) behind =
    insert_into_parent order h key right (unfocus before child behind)

unfoldable pub insert_below :
    (order fresh h : ℕ) → Tree h → (key : ℕ) → (datum : Ptr) → Run (Split h)
insert_below order fresh zero leaf key datum =
    let records = insert_entry key datum leaf.records in
    let updated : Leaf = record { address = leaf.address; records = records; next = leaf.next } in
    if leb order (length records) then split_leaf order fresh updated else ok (updated, none)
insert_below order fresh (suc h) (first, rest) key datum =
    let (before, child, behind) = focus key [] first rest in
    do split ← insert_below order fresh h child key datum; after_child order h before split behind

-- `if (left == root)`: a split root goes below a new one.
unfoldable pub new_root : (h : ℕ) → Split h → Root
new_root h (node, none) = (h, node)
new_root h (left, some (key, right)) = (suc h, (left, (key, right) ∷ []))

unfoldable pub insert : BPlusTree → (key : ℕ) → (datum : Ptr) → Run BPlusTree
insert t key datum =
    let inserted : Root → BPlusTree = λ root. record {
      root = some root;
      order = t.order;
      count = suc t.count;
      fresh = suc t.fresh;
    } in
    if t.count == int_max then undefined else elim t.root [
      | none ↦
          let leaf : Leaf = record {
            address = t.fresh;
            records = (key, datum) ∷ [];
            next = nullptr;
          } in
          ok (inserted (0, leaf))
      | some (h, node) ↦ do
        split ← insert_below t.order t.fresh h node key datum
        ok (inserted (new_root h split))
    ]
