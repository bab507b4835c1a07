-- ===== src/BPlusTree/Splitting.antt =====
-- `splitLeaf`, `splitInternal` and `insertIntoParent` of BPlusTree/bPlusTree.cpp keep the invariant
-- of the nodes.
use range_lh_cplus_plus.Base.{ne→==_false}
use range_lh_cplus_plus.Base.Ints.{int_max}
use range_lh_cplus_plus.BPlusTree.Node.{IsOrder}
use range_lh_cplus_plus.Base.{
  ℕ, suc, ◌+◌, ◌/◌, ◌≡◌, ◌<◌, ◌≤◌, refl, arith, List, [], ◌∷◌, ◌++◌, length, none, some, leb,
  Bool-cases, inl, inr,
}
use range_lh_cplus_plus.Base.Run.{ok}
use range_lh_cplus_plus.BPlusTree.{Record, Leaf, Tree, leaves, take, drop, insert_entry}
use range_lh_cplus_plus.BPlusTree.Insertion.{Split, split_leaf, split_internal, insert_into_parent}
use range_lh_cplus_plus.BPlusTree.Removal.{size, min_keys}
use range_lh_cplus_plus.BPlusTree.Children.{Kids, split-Kids, gather-split}
use range_lh_cplus_plus.BPlusTree.Ascent.{
  Ascending, length-insert_entry, take-drop, length-take, length-drop,
}
use range_lh_cplus_plus.BPlusTree.Chain.{Relinks, only}
use range_lh_cplus_plus.BPlusTree.Node.{IsNode, IsChild, IsChild-lt, contents}

-- What becomes of a node with `n` keys that takes records in: one node that has not shrunk, or two
-- nodes fit for a place below the top, on both sides of the key that goes up.
abbrev pub Grows : (order h lo hi n : ℕ) → List Record → Split h → Type 0
Grows order h lo hi n records (node, none) =
    IsNode order h lo hi node × (n ≤ size h node) × (contents h node ≡ records)
Grows order h lo hi n records (left, some (key, right)) =
    IsChild order h lo key left
    × IsChild order h key hi right
    × (contents h left ++ contents h right ≡ records)

abbrev pub leaves_of_split : (h : ℕ) → Split h → List Leaf
leaves_of_split h (node, none) = leaves h node
leaves_of_split h (left, some (key, right)) = leaves h left ++ leaves h right

pub split_leaf_lem :
    (order fresh lo hi n : ℕ) (leaf : Leaf)
    → IsOrder order
    → Ascending lo hi leaf.records
    → length leaf.records ≡ order
    → (s : Split 0) × (split_leaf order fresh leaf ≡ ok s)
      × Grows order 0 lo hi n leaf.records s
      × Relinks (only fresh) (leaf ∷ []) (leaves_of_split 0 s)
unfolding split_leaf size min_keys contents leaves
split_leaf_lem order fresh lo hi n leaf three a e =
    let mid = (order + 1) / 2 in
    let (first, get, low, high, joined, below, above) =
      take-drop mid lo hi leaf.records a (omega arith) in
    let long : length (take mid leaf.records) ≡ mid = length-take mid leaf.records (omega arith) in
    let rest : length (drop mid leaf.records) + mid ≡ length leaf.records =
      length-drop mid leaf.records (omega arith) in
    let left : Leaf = record {
      address = leaf.address;
      records = take mid leaf.records;
      next = some fresh;
    } in
    let right : Leaf = record {
      address = fresh;
      records = drop mid leaf.records;
      next = leaf.next;
    } in
    (
      (left, some (first.0, right)),
      rw (ne→==_false order int_max (λ e. omega arith), get) refl,
      (
        (above (λ z. omega arith), (low, omega arith), omega arith),
        (below, (high, omega arith), omega arith),
        joined,
      ),
      ((λ p q e. (e.0, (refl, e.1))), λ a. ground arith),
    )

pub split_internal_lem :
    (order h lo hi n : ℕ) (c : Tree h) (r : List (ℕ × Tree h))
    → 3 ≤ order
    → Kids (IsChild order h) lo hi c r
    → length r ≡ order
    → (s : Split (suc h)) × (split_internal order h (c, r) ≡ ok s)
      × Grows order (suc h) lo hi n (contents (suc h) (c, r)) s
      × (leaves_of_split (suc h) s ≡ leaves (suc h) (c, r))
unfolding split_internal size min_keys contents leaves
split_internal_lem order h lo hi n c r three k e =
    let mid = order / 2 in
    let (middle, get, above, below, left, right) =
      split-Kids (IsChild order h) mid lo hi c r (IsChild-lt order h) k (omega arith) in
    let long : length (take mid r) ≡ mid = length-take mid r (omega arith) in
    let rest : length (drop (suc mid) r) + suc mid ≡ length r =
      length-drop (suc mid) r (omega arith) in
    (
      ((c, take mid r), some (middle.0, (middle.1, drop (suc mid) r))),
      rw get refl,
      (
        (above, (left, omega arith), omega arith),
        (below, (right, omega arith), omega arith),
        gather-split (contents h) mid c r middle get,
      ),
      gather-split (leaves h) mid c r middle get,
    )

pub insert_into_parent_lem :
    (order h lo hi key : ℕ) (right c : Tree h) (r : List (ℕ × Tree h))
    → 3 ≤ order
    → Kids (IsChild order h) lo hi c (insert_entry key right r)
    → length r < order
    → (s : Split (suc h)) × (insert_into_parent order h key right (c, r) ≡ ok s)
      × Grows order (suc h) lo hi (length r) (contents (suc h) (c, insert_entry key right r)) s
      × (leaves_of_split (suc h) s ≡ leaves (suc h) (c, insert_entry key right r))
unfolding insert_into_parent size
insert_into_parent_lem order h lo hi key right c r three k l =
    let inserted = insert_entry key right r in
    let longer : length inserted ≡ suc (length r) = length-insert_entry key right r in
    elim (Bool-cases (leb order (length inserted))) [
      | inl e ↦ rw e (split_internal_lem order h lo hi (length r) c inserted three k (ground arith))
      | inr e ↦ rw e (((c, inserted), none), refl, ((k, ground arith), omega arith, refl), refl)
    ]
