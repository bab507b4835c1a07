-- ===== src/BPlusTree/Removal.antt =====
-- `getChildIndex`, the borrows and merges, `handleUnderflow` and `remove` of
-- BPlusTree/bPlusTree.cpp. A node that was changed comes back with whether `handleUnderflow` is
-- called on it; its parent is seen from the child's place, with what stands before the child, the
-- nearest first, and behind it.
use range_lh_cplus_plus.Base.{
  ℕ, zero, suc, ◌-◌, ◌/◌, List, [], ◌∷◌, ◌++◌, Option, none, some, Bool, true, false, ◌==◌, leb,
  if◌then◌else◌, length,
}
use range_lh_cplus_plus.Base.Run.{Run, ok, undefined, ◌>>=◌, at}
use range_lh_cplus_plus.BPlusTree.{Record, Leaf, Tree, Root, BPlusTree, focus, unfocus, find_leaf}

-- `keys.size()`
unfoldable pub size : (h : ℕ) → Tree h → ℕ
size zero leaf = length leaf.records
size (suc h) (child, rest) = length rest

unfoldable pub min_keys : (order : ℕ) → ℕ
min_keys order = (order - 1) / 2

module _ {A : Type 0} where
  -- `back()` and what `pop_back()` leaves
  unfoldable pub pop_back : List A → Option (List A × A)
  pop_back [] = none
  pop_back (x ∷ xs) = elim (pop_back xs) [
    | none ↦ some ([], x)
    | some (init, last) ↦ some (x ∷ init, last)
  ]

-- Two siblings and the key between them, after a borrow.
abbrev pub Siblings : ℕ → Type 0
Siblings h = Tree h × ℕ × Tree h

abbrev pub with_records : Leaf → List Record → Leaf
with_records leaf records = record { address = leaf.address; records = records; next = leaf.next }

unfoldable pub borrow_from_left_leaf : (order : ℕ) → (left leaf : Leaf) → Option (Siblings 0)
borrow_from_left_leaf order left leaf =
    let moved : Option (Siblings 0) = elim (pop_back left.records) [
      | none ↦ none
      | some (init, last) ↦
          some (with_records left init, last.0, with_records leaf (last ∷ leaf.records))
    ] in
    if leb (length left.records) (min_keys order) then none else moved

-- The key that goes up is the right sibling's first after the move.
unfoldable pub borrow_from_right_leaf :
    (order : ℕ) → (leaf right : Leaf) → Run (Option (Siblings 0))
borrow_from_right_leaf order leaf right =
    let moved : Run (Option (Siblings 0)) = elim right.records [
      | [] ↦ undefined
      | first ∷ rest ↦ do
        separator ← at rest 0
        ok (
            some (
              with_records leaf (leaf.records ++ first ∷ []),
              separator.0,
              with_records right rest,
            ))
    ] in
    if leb (length right.records) (min_keys order) then ok none else moved

unfoldable pub borrow_from_left_internal :
    (order h : ℕ)
    → (left : Tree (suc h)) → (key : ℕ) → (node : Tree (suc h)) → Option (Siblings (suc h))
borrow_from_left_internal order h (first, others) key (child, rest) =
    let moved : Option (Siblings (suc h)) = elim (pop_back others) [
      | none ↦ none
      | some (init, last) ↦ some ((first, init), last.0, (last.1, (key, child) ∷ rest))
    ] in
    if leb (length others) (min_keys order) then none else moved

unfoldable pub borrow_from_right_internal :
    (order h : ℕ)
    → (node : Tree (suc h)) → (key : ℕ) → (right : Tree (suc h)) → Run (Option (Siblings (suc h)))
borrow_from_right_internal order h (child, rest) key (first, others) =
    let moved : Run (Option (Siblings (suc h))) = elim others [
      | [] ↦ undefined
      | (k, next) ∷ more ↦ ok (some ((child, rest ++ (key, first) ∷ []), k, (next, more)))
    ] in
    if leb (length others) (min_keys order) then ok none else moved

unfoldable pub merge_with_left_leaf : (left leaf : Leaf) → Leaf
merge_with_left_leaf left leaf = record {
  address = left.address;
  records = left.records ++ leaf.records;
  next = leaf.next;
}

unfoldable pub merge_with_right_leaf : (leaf right : Leaf) → Leaf
merge_with_right_leaf leaf right = record {
  address = leaf.address;
  records = leaf.records ++ right.records;
  next = right.next;
}

unfoldable pub merge_with_left_internal :
    (h : ℕ) → (left : Tree (suc h)) → (key : ℕ) → (node : Tree (suc h)) → Tree (suc h)
merge_with_left_internal h (first, others) key (child, rest) =
    (first, others ++ ((key, child) ∷ rest))

unfoldable pub merge_with_right_internal :
    (h : ℕ) → (node : Tree (suc h)) → (key : ℕ) → (right : Tree (suc h)) → Tree (suc h)
merge_with_right_internal h (child, rest) key (first, others) =
    (child, rest ++ ((key, first) ∷ others))

-- `if (node->isLeaf())`
unfoldable pub borrow_from_left :
    (order h : ℕ) → (left : Tree h) → (key : ℕ) → (node : Tree h) → Option (Siblings h)
borrow_from_left order zero left key leaf = borrow_from_left_leaf order left leaf
borrow_from_left order (suc h) left key node = borrow_from_left_internal order h left key node

unfoldable pub borrow_from_right :
    (order h : ℕ) → (node : Tree h) → (key : ℕ) → (right : Tree h) → Run (Option (Siblings h))
borrow_from_right order zero leaf key right = borrow_from_right_leaf order leaf right
borrow_from_right order (suc h) node key right = borrow_from_right_internal order h node key right

unfoldable pub merge_with_left : (h : ℕ) → (left : Tree h) → (key : ℕ) → (node : Tree h) → Tree h
merge_with_left zero left key leaf = merge_with_left_leaf left leaf
merge_with_left (suc h) left key node = merge_with_left_internal h left key node

unfoldable pub merge_with_right : (h : ℕ) → (node : Tree h) → (key : ℕ) → (right : Tree h) → Tree h
merge_with_right zero leaf key right = merge_with_right_leaf leaf right
merge_with_right (suc h) node key right = merge_with_right_internal h node key right

-- The last part of `handle_underflow`: no sibling had a key to spare. A merge calls
-- `handleUnderflow` on the parent.
unfoldable pub merge :
    (h : ℕ) → List (Tree h × ℕ) → Tree h → List (ℕ × Tree h) → Run (Tree (suc h) × Bool)
merge h ((left, key) ∷ before) node behind =
    ok (unfocus before (merge_with_left h left key node) behind, true)
merge h [] node ((key, right) ∷ behind) =
    ok (unfocus [] (merge_with_right h node key right) behind, true)
merge h [] node [] = undefined

unfoldable pub try_right :
    (order h : ℕ) → List (Tree h × ℕ) → Tree h → List (ℕ × Tree h) → Run (Tree (suc h) × Bool)
try_right order h before node [] = merge h before node []
try_right order h before node ((key, right) ∷ behind) = do
  borrowed ← borrow_from_right order h node key right
  elim borrowed [
    | some (node_, key_, right_) ↦ ok (unfocus before node_ ((key_, right_) ∷ behind), false)
    | none ↦ merge h before node ((key, right) ∷ behind)
  ]

-- the parent once the left sibling was asked
unfoldable pub after_left :
    (order h : ℕ)
    → Option (Siblings h)
    → (left : Tree h) → (key : ℕ) → List (Tree h × ℕ)
    → Tree h
    → List (ℕ × Tree h)
    → Run (Tree (suc h) × Bool)
after_left order h (some (left_, key_, node_)) left key before node behind =
    ok (unfocus ((left_, key_) ∷ before) node_ behind, false)
after_left order h none left key before node behind =
    try_right order h ((left, key) ∷ before) node behind

unfoldable pub try_left :
    (order h : ℕ) → List (Tree h × ℕ) → Tree h → List (ℕ × Tree h) → Run (Tree (suc h) × Bool)
try_left order h [] node behind = try_right order h [] node behind
try_left order h ((left, key) ∷ before) node behind =
    after_left order h (borrow_from_left order h left key node) left key before node behind

-- on a node that is not the root
unfoldable pub handle_underflow :
    (order h : ℕ) → List (Tree h × ℕ) → Tree h → List (ℕ × Tree h) → Run (Tree (suc h) × Bool)
handle_underflow order h before node behind =
    if leb (min_keys order) (size h node)
    then ok (unfocus before node behind, false)
    else try_left order h before node behind

-- on the root: an internal root without keys gives way to its only child
unfoldable pub handle_underflow_root : Root → Root
handle_underflow_root (zero, leaf) = (zero, leaf)
handle_underflow_root (suc h, (child, [])) = (h, child)
handle_underflow_root (suc h, (child, entry ∷ rest)) = (suc h, (child, entry ∷ rest))

unfoldable pub has_key : (key : ℕ) → List Record → Bool
has_key key [] = false
has_key key ((k, d) ∷ rest) = let found = has_key key rest in if k == key then true else found

-- `erase(begin() + pos)` at the first place of the key
unfoldable pub erase_key : (key : ℕ) → List Record → List Record
erase_key key [] = []
erase_key key ((k, d) ∷ rest) =
    let erased = (k, d) ∷ erase_key key rest in if k == key then rest else erased

-- A child after the removal, in its parent.
unfoldable pub after_removal :
    (order h : ℕ)
    → List (Tree h × ℕ)
    → Tree h × Bool
    → List (ℕ × Tree h)
    → Run (Tree (suc h) × Bool)
after_removal order h before (child, true) behind = handle_underflow order h before child behind
after_removal order h before (child, false) behind = ok (unfocus before child behind, false)

-- The removal of a key that the leaf has.
unfoldable pub remove_below : (order h : ℕ) → Tree h → (key : ℕ) → Run (Tree h × Bool)
remove_below order zero leaf key = ok (with_records leaf (erase_key key leaf.records), true)
remove_below order (suc h) (first, rest) key =
    let (before, child, behind) = focus key [] first rest in
    do removed ← remove_below order h child key; after_removal order h before removed behind

unfoldable pub root_after_removal : (h : ℕ) → Tree h × Bool → Root
root_after_removal h (node, true) = handle_underflow_root (h, node)
root_after_removal h (node, false) = (h, node)

unfoldable pub with_root : BPlusTree → Option Root → BPlusTree
with_root t root = record { root = root; order = t.order; count = t.count - 1; fresh = t.fresh }

-- on a given `root`
unfoldable pub remove_from : BPlusTree → Option Root → (key : ℕ) → Run (BPlusTree × Bool)
remove_from t none key = ok (t, false)
remove_from t (some (h, node)) key =
    let below : Run (BPlusTree × Bool) = remove_below t.order h node key >>= λ removed.
    ok (with_root t (some (root_after_removal h removed)), true) in
    if has_key key (find_leaf h node key).records
    then if t.count == 1 then ok (with_root t none, true) else below
    else ok (t, false)

unfoldable pub remove : BPlusTree → (key : ℕ) → Run (BPlusTree × Bool)
remove t key = remove_from t t.root key
