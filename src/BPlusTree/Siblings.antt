-- ===== src/BPlusTree/Siblings.antt =====
-- The borrows and merges of BPlusTree/bPlusTree.cpp on two neighbours with the key between them.
use range_lh_cplus_plus.Base.{
  ℕ, zero, suc, ◌+◌, ◌≡◌, ◌<◌, ◌≤◌, refl, sym, arith, ◌∷◌, ◌++◌, length-append, Option,
}
use range_lh_cplus_plus.Base.Run.{ok}
use range_lh_cplus_plus.BPlusTree.{Tree, leaves}
use range_lh_cplus_plus.BPlusTree.Removal.{
  size, min_keys, Siblings, borrow_from_left, borrow_from_right, merge_with_left, merge_with_right,
  merge_with_left_leaf, merge_with_left_internal, merge_with_right_leaf, merge_with_right_internal,
}
use range_lh_cplus_plus.BPlusTree.Children.{join-Kids, gather-join}
use range_lh_cplus_plus.BPlusTree.Ascent.{Ascending-append}
use range_lh_cplus_plus.BPlusTree.Chain.{Relinks-same}
use range_lh_cplus_plus.BPlusTree.Node.{IsNode, IsChild, contents}
use range_lh_cplus_plus.BPlusTree.LeafSiblings.{
  Borrows, Merges, borrow_from_left_leaf_lem, borrow_from_right_leaf_lem,
}
use range_lh_cplus_plus.BPlusTree.InternalSiblings.{
  borrow_from_left_internal_lem, borrow_from_right_internal_lem,
}

pub borrow_from_left_lem :
    (order h lo key hi : ℕ) (left node : Tree h)
    → 3 ≤ order
    → IsChild order h lo key left
    → key < hi
    → IsNode order h key hi node
    → min_keys order ≤ suc (size h node)
    → size h node < min_keys order
    → Borrows order h lo hi
        (size h left)
        (contents h left ++ contents h node)
        (leaves h left ++ leaves h node)
        (borrow_from_left order h left key node)
unfolding borrow_from_left size contents leaves
borrow_from_left_lem order zero lo key hi left leaf three v u n short small =
    borrow_from_left_leaf_lem order lo key hi left.address left.records left.next leaf three v u n.0
      short small
borrow_from_left_lem order (suc h) lo key hi (c, r) (d, s) three v u n short small =
    borrow_from_left_internal_lem order h lo key hi c r d s v u n.0 short small

pub borrow_from_right_lem :
    (order h lo key hi : ℕ) (node right : Tree h)
    → 3 ≤ order
    → IsChild order h key hi right
    → lo < key
    → IsNode order h lo key node
    → min_keys order ≤ suc (size h node)
    → size h node < min_keys order
    → (found : Option (Siblings h)) × (borrow_from_right order h node key right ≡ ok found)
      × Borrows order h lo hi
          (size h right)
          (contents h node ++ contents h right)
          (leaves h node ++ leaves h right)
          found
unfolding borrow_from_right size contents leaves
borrow_from_right_lem order zero lo key hi leaf right three v l n short small =
    borrow_from_right_leaf_lem order lo key hi right.address right.records right.next leaf three v l
      n.0 short small
borrow_from_right_lem order (suc h) lo key hi (c, r) (d, s) three v l n short small =
    borrow_from_right_internal_lem order h lo key hi c r d s three v l n.0 short small

pub merge_with_left_lem :
    (order h lo key hi : ℕ) (left node : Tree h)
    → lo < key
    → key < hi
    → IsNode order h lo key left
    → IsNode order h key hi node
    → suc (size h left + size h node) < order
    → min_keys order ≤ size h left + size h node
    → Merges order h lo hi
        (contents h left ++ contents h node)
        (leaves h left ++ leaves h node)
        (merge_with_left h left key node)
unfolding merge_with_left merge_with_left_leaf merge_with_left_internal size contents leaves
merge_with_left_lem order zero lo key hi left leaf l u (a, la) (b, lb) most least =
    let count = length-append left.records leaf.records in
    (
      (
        omega arith,
        (Ascending-append lo key hi left.records leaf.records a b, omega (arith, count)),
        omega (arith, count),
      ),
      refl,
      ((λ p q s. (s.0, s.1.1)), λ a. ground arith),
    )
merge_with_left_lem order (suc h) lo key hi (c, r) (d, s) l u (a, la) (b, lb) most least =
    let count = length-append r ((key, d) ∷ s) in
    (
      (
        omega arith,
        (join-Kids (IsChild order h) lo key hi c r d s a b, omega (arith, count)),
        omega (arith, count),
      ),
      gather-join (contents h) c r key d s,
      Relinks-same _ _ (sym (gather-join (leaves h) c r key d s)),
    )

-- Which of the two takes the other in makes no difference to the node that is left.
pub merge_with_right-left :
    (h : ℕ) (node right : Tree h) (key : ℕ)
    → merge_with_right h node key right ≡ merge_with_left h node key right
unfolding merge_with_right merge_with_left merge_with_right_leaf merge_with_left_leaf
    merge_with_right_internal merge_with_left_internal
merge_with_right-left zero leaf right key = refl
merge_with_right-left (suc h) (c, r) (d, s) key = refl
