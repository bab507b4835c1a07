-- ===== src/BPlusTree/LeafSiblings.antt =====
-- The borrows of BPlusTree/bPlusTree.cpp between two leaves with a key between them.
use range_lh_cplus_plus.Base.{
  ℕ, suc, ◌+◌, ◌-◌, ◌/◌, ◌≡◌, ◌<◌, ◌≤◌, refl, sym, ap, subst, ◌∙◌, arith, List, [], ◌∷◌, ◌++◌,
  length, length-append, Option, none, some, leb, Bool-cases, inl, inr, le→leb,
}
use range_lh_cplus_plus.Base.Run.{ok}
use mathlib.Core.List.{append_assoc}
use range_lh_cplus_plus.LinearHashing.{Ptr}
use range_lh_cplus_plus.BPlusTree.{Record, Leaf, Tree, leaves}
use range_lh_cplus_plus.BPlusTree.Removal.{
  size, min_keys, Siblings, with_records, borrow_from_left_leaf, borrow_from_right_leaf,
}
use range_lh_cplus_plus.BPlusTree.Ascent.{
  Ascending, Ascending-append, Ascending-part, Ascending-le, Ascending-lt, Ascending-weaken,
  pop_back-append,
}
use range_lh_cplus_plus.BPlusTree.Chain.{Relinks, nowhere}
use range_lh_cplus_plus.BPlusTree.Node.{IsChild, contents}

-- The outcome of a borrow from a sibling of `spare` keys, for neighbours between two bounds with
-- these records and leaves.
abbrev pub Borrows :
    (order h lo hi spare : ℕ) → List Record → List Leaf → Option (Siblings h) → Type 0
Borrows order h lo hi spare rs ls none = spare ≤ min_keys order
Borrows order h lo hi spare rs ls (some (left, key, right)) =
    IsChild order h lo key left
    × IsChild order h key hi right
    × (contents h left ++ contents h right ≡ rs)
    × Relinks nowhere ls (leaves h left ++ leaves h right)

-- the outcome of a merge
abbrev pub Merges : (order h lo hi : ℕ) → List Record → List Leaf → Tree h → Type 0
Merges order h lo hi rs ls node =
    IsChild order h lo hi node × (contents h node ≡ rs) × Relinks nowhere ls (leaves h node)

abbrev leaf_of : (address : ℕ) → List Record → Ptr → Leaf
leaf_of address rs next = record { address = address; records = rs; next = next }

pub borrow_from_left_leaf_lem :
    (order lo key hi address : ℕ) (rs : List Record) (next : Ptr) (leaf : Leaf)
    → 3 ≤ order
    → IsChild order 0 lo key (leaf_of address rs next)
    → key < hi
    → Ascending key hi leaf.records
    → min_keys order ≤ suc (length leaf.records)
    → length leaf.records < min_keys order
    → Borrows order 0 lo hi
        (length rs)
        (rs ++ leaf.records)
        (leaf_of address rs next ∷ leaf ∷ [])
        (borrow_from_left_leaf order (leaf_of address rs next) leaf)
unfolding borrow_from_left_leaf size contents leaves min_keys
borrow_from_left_leaf_lem order lo key hi address [] next leaf three v u b short small =
    rw (le→leb 0 ((order - 1) / 2) (omega arith)) (omega arith)
borrow_from_left_leaf_lem order lo key hi address (x ∷ xs) next leaf three (below, (a, la), long) u
      b short small =
    let (init, last, popped, same) = pop_back-append x xs in
    let parts : Ascending lo last.0 init × (suc last.0 ≤ key) =
      Ascending-part lo key last.0 last.1 init [] (subst (Ascending lo key) same a) in
    let count : suc (length xs) ≡ length init + 1 =
      ap length same ∙ length-append init (last ∷ []) in
    elim (Bool-cases (leb (suc (length xs)) ((order - 1) / 2))) [
      | inl e ↦ rw e (ground arith)
      | inr e ↦
          let more : (order - 1) / 2 < suc (length xs) = ground arith in
          rw (e, popped)
            (
              (
                Ascending-lt lo last.0 init (omega arith) parts.0,
                (parts.0, omega arith),
                omega arith,
              ),
              (
                omega arith,
                (
                  (omega arith, Ascending-weaken (suc last.0) key hi leaf.records (omega arith) b),
                  omega arith,
                ),
                omega arith,
              ),
              sym (append_assoc init (last ∷ []) leaf.records)
                  ∙ ap (λ zs. zs ++ leaf.records) (sym same),
              ((λ p q s. s), λ a. omega arith),
            )
    ]

pub borrow_from_right_leaf_lem :
    (order lo key hi address : ℕ) (rs : List Record) (next : Ptr) (leaf : Leaf)
    → 3 ≤ order
    → IsChild order 0 key hi (leaf_of address rs next)
    → lo < key
    → Ascending lo key leaf.records
    → min_keys order ≤ suc (length leaf.records)
    → length leaf.records < min_keys order
    → (found : Option (Siblings 0)) × (borrow_from_right_leaf order leaf (leaf_of address rs next)
        ≡ ok found)
      × Borrows order 0 lo hi
          (length rs)
          (leaf.records ++ rs)
          (leaf ∷ leaf_of address rs next ∷ [])
          found
unfolding borrow_from_right_leaf size contents leaves min_keys
borrow_from_right_leaf_lem order lo key hi address [] next leaf three v l b short small =
    (none, rw (le→leb 0 ((order - 1) / 2) (omega arith)) refl, omega arith)
borrow_from_right_leaf_lem order lo key hi address (x ∷ []) next leaf three v l b short small =
    (none, rw (le→leb 1 ((order - 1) / 2) (omega arith)) refl, omega arith)
borrow_from_right_leaf_lem order lo key hi address (x ∷ y ∷ ys) next leaf three
      (above, ((ax, (ay, a)), la), long) l b short small =
    let longer = length-append leaf.records (x ∷ []) in
    elim (Bool-cases (leb (suc (suc (length ys))) ((order - 1) / 2))) [
      | inl e ↦ rw e (none, refl, ground arith)
      | inr e ↦
          let more : (order - 1) / 2 < suc (suc (length ys)) = ground arith in
          rw e (
            some (with_records leaf (leaf.records ++ x ∷ []), y.0, leaf_of address (y ∷ ys) next),
            refl,
            (
              (
                omega (arith, Ascending-le lo key leaf.records b),
                (
                  Ascending-append lo key y.0 leaf.records (x ∷ []) b (ax, ay),
                  omega (arith, longer),
                ),
                omega (arith, longer),
              ),
              (
                omega (arith, Ascending-le (suc y.0) hi ys a),
                ((omega arith, a), omega arith),
                omega arith,
              ),
              append_assoc leaf.records (x ∷ []) (y ∷ ys),
              ((λ p q s. s), λ a. omega arith),
            ),
          )
    ]
