-- ===== src/BPlusTree.antt =====
-- BPlusTree/bPlusTree.h and BPlusTree/bPlusTree.cpp: the tree, its searches and insertion. A key is
-- an `int`, which the code only compares: it stands for its distance from INT_MIN. The two vectors
-- of a node are one list, since every method changes them together: `keys[i]` with `data_ptrs[i]`
-- in a leaf, `children[0]` and then `keys[i]` with `children[i + 1]` in an internal node. `parent`
-- is the node that lists a child: where the code climbs by it, the model returns from a call.
-- `prev` is written and never read.
pub mod Insertion
pub mod Children
pub mod Refinement
pub mod Repeated
pub mod Reachable
pub mod Emptying
pub mod Roundtrip
pub mod Height
pub mod Removing
pub mod Remove
pub mod Parent
pub mod Underflow
pub mod LeafSiblings
pub mod InternalSiblings
pub mod Siblings
pub mod Range
pub mod Walk
pub mod Search
pub mod Valid
pub mod Insert
pub mod Chain
pub mod Splitting
pub mod Growth
pub mod Node
pub mod Ascent
pub mod Records
pub mod Removal
use range_lh_cplus_plus.Base.{
  ℕ, zero, suc, ◌+◌, ◌/◌, ◌%◌, ◌^◌, List, [], ◌∷◌, ◌++◌, Option, none, some, Bool, true, false,
  ◌&&◌, ◌==◌, ltb, leb, if◌then◌else◌, length, map,
}
use range_lh_cplus_plus.Base.Run.{Run, ok, undefined, out_of_fuel, ◌>>=◌, at}
use range_lh_cplus_plus.Base.Ints.{int_max}
use range_lh_cplus_plus.LinearHashing.{Ptr, nullptr}

-- A `uint64_t` that is passed as an `int`: its lowest 32 bits, read as a signed number.
unfoldable pub int_key : ℕ → ℕ
int_key key = (key + 2 ^ 31) % 2 ^ 32

abbrev pub Record : Type 0
Record = ℕ × Ptr

pub record Leaf : Type 0 where
  pub address : ℕ
  pub records : List Record
  pub next : Ptr

-- A node by its height above the leaves: all leaves are equally deep.
abbrev pub Tree : ℕ → Type 0
Tree zero = Leaf
Tree (suc h) = Tree h × List (ℕ × Tree h)

abbrev pub Root : Type 0
Root = (h : ℕ) × Tree h

-- `fresh` is an address that no leaf has: the next one that `new LeafNode()` gives.
pub record BPlusTree : Type 0 where
  pub root : Option Root
  pub order : ℕ
  pub count : ℕ
  pub fresh : ℕ

-- An `int` as `ord`, which stands for 0 where it is negative.
unfoldable pub new : (ord : ℕ) → BPlusTree
new ord = record { root = none; order = if ltb ord 3 then 3 else ord; count = 0; fresh = 0 }

unfoldable pub get_order : BPlusTree → ℕ
get_order t = t.order

unfoldable pub is_empty : BPlusTree → Bool
is_empty t = elim t.root [ none ↦ true | some r ↦ false ]

module _ {A : Type 0} where
  abbrev pub take : ℕ → List A → List A
  take zero xs = []
  take (suc n) [] = []
  take (suc n) (x ∷ xs) = x ∷ take n xs

  abbrev pub drop : ℕ → List A → List A
  drop zero xs = xs
  drop (suc n) [] = []
  drop (suc n) (x ∷ xs) = drop n xs

  -- `while (i < keys.size() && key >= keys[i]) i++`, then `children[i]`
  unfoldable pub find_child : (key : ℕ) → A → List (ℕ × A) → A
  find_child key child [] = child
  find_child key child ((k, next) ∷ rest) =
      let found = find_child key next rest in if leb k key then found else child

  -- The same child with what stands before it, the nearest first, and what stands behind it.
  unfoldable pub focus :
      (key : ℕ) → List (A × ℕ) → A → List (ℕ × A) → List (A × ℕ) × A × List (ℕ × A)
  focus key before child [] = (before, child, [])
  focus key before child ((k, next) ∷ rest) =
      let found = focus key ((child, k) ∷ before) next rest in
      if leb k key then found else (before, child, (k, next) ∷ rest)

  unfoldable pub unfocus : List (A × ℕ) → A → List (ℕ × A) → A × List (ℕ × A)
  unfocus [] child behind = (child, behind)
  unfocus ((prev, k) ∷ before) child behind = unfocus before prev ((k, child) ∷ behind)

  -- `while (pos < keys.size() && keys[pos] < key) pos++`, and the insertions at that place
  unfoldable pub insert_entry : (key : ℕ) → A → List (ℕ × A) → List (ℕ × A)
  insert_entry key value [] = (key, value) ∷ []
  insert_entry key value ((k, v) ∷ rest) =
      let inserted = insert_entry key value rest in
      if ltb k key then (k, v) ∷ inserted else (key, value) ∷ (k, v) ∷ rest

-- A node's children from left to right, each replaced by a list.
abbrev pub gather : {A B : Type 0} → (A → List B) → A → List (ℕ × A) → List B
gather f child [] = f child
gather f child ((k, next) ∷ rest) = f child ++ gather f next rest

unfoldable pub find_leaf : (h : ℕ) → Tree h → (key : ℕ) → Leaf
find_leaf zero leaf key = leaf
find_leaf (suc h) (child, rest) key = find_leaf h (find_child key child rest) key

-- the loop of `search` over one leaf
unfoldable pub search_records : (key : ℕ) → List Record → Ptr
search_records key [] = nullptr
search_records key ((k, d) ∷ rest) =
    let found = search_records key rest in if k == key then d else found

unfoldable pub search : BPlusTree → (key : ℕ) → Ptr
search t key = elim t.root [
  | none ↦ nullptr
  | some (h, node) ↦ search_records key (find_leaf h node key).records
]

-- the leaves from left to right
unfoldable pub leaves : (h : ℕ) → Tree h → List Leaf
leaves zero leaf = leaf ∷ []
leaves (suc h) (child, rest) = gather (leaves h) child rest

-- the leaf that a pointer to it leads to
unfoldable pub leaf_at : List Leaf → (address : ℕ) → Run Leaf
leaf_at [] address = undefined
leaf_at (leaf ∷ rest) address =
    let found = leaf_at rest address in if leaf.address == address then ok leaf else found

-- `while (leaf) { ...; leaf = leaf->next; }`: what the body appends for one leaf, and whether it
-- returns there.
unfoldable pub walk :
    {B : Type 0} → List Leaf → (Leaf → List B × Bool) → (fuel : ℕ) → Leaf → Run (List B)
walk {B} heap visit zero leaf = out_of_fuel
walk {B} heap visit (suc fuel) leaf =
    let (found, returns) = visit leaf in
    let later : Run (List B) = elim leaf.next [
      | none ↦ ok found
      | some address ↦ do
        following ← leaf_at heap address
        rest ← walk heap visit fuel following
        ok (found ++ rest)
    ] in
    if returns then ok found else later

-- the loop of `range_search` over one leaf
unfoldable pub scan_records : (key_start key_end : ℕ) → List Record → List Ptr × Bool
scan_records key_start key_end [] = ([], false)
scan_records key_start key_end ((k, d) ∷ rest) =
    let scanned = scan_records key_start key_end rest in
    if leb key_start k && leb k key_end
    then (d ∷ scanned.0, scanned.1)
    else if ltb key_end k
    then ([], true)
    else scanned

unfoldable pub range_search : BPlusTree → (key_start key_end : ℕ) → Run (List Ptr)
range_search t key_start key_end = elim t.root [
  | none ↦ ok []
  | some (h, node) ↦
      let heap = leaves h node in
      walk heap (λ leaf. scan_records key_start key_end leaf.records) (length heap)
        (find_leaf h node key_start)
]

-- `while (!curr->isLeaf()) curr = internal->children[0]`
unfoldable pub first_leaf : (h : ℕ) → Tree h → Leaf
first_leaf zero leaf = leaf
first_leaf (suc h) (child, rest) = first_leaf h child

unfoldable pub get_all_keys_in_order : BPlusTree → Run (List ℕ)
get_all_keys_in_order t = elim t.root [
  | none ↦ ok []
  | some (h, node) ↦
      let heap = leaves h node in
      walk heap (λ leaf. (map (λ r. r.0) leaf.records, false)) (length heap) (first_leaf h node)
]

unfoldable pub get_all_data_in_order : BPlusTree → Run (List Ptr)
get_all_data_in_order t = elim t.root [
  | none ↦ ok []
  | some (h, node) ↦
      let heap = leaves h node in
      walk heap (λ leaf. (map (λ r. r.1) leaf.records, false)) (length heap) (first_leaf h node)
]
