-- ===== src/BPlusTree/Valid.antt =====
-- The invariant of the class BPlusTree of BPlusTree/bPlusTree.h, its records in ascending order of
-- the keys, and the constructor.
use range_lh_cplus_plus.Base.Ints.{int_max}
use range_lh_cplus_plus.BPlusTree.Node.{IsOrder}
use range_lh_cplus_plus.Base.{
  ℕ, ◌^◌, ◌≡◌, ◌<◌, ◌≤◌, refl, arith, List, [], length, Option, none, some, Bool-cases, inl, inr,
  ltb,
}
use range_lh_cplus_plus.LinearHashing.{Ptr, nullptr}
use range_lh_cplus_plus.BPlusTree.{Record, Leaf, Root, BPlusTree, leaves, new}
use range_lh_cplus_plus.BPlusTree.Removal.{size}
use range_lh_cplus_plus.BPlusTree.Node.{IsNode, contents, contents-Ascending}
use range_lh_cplus_plus.BPlusTree.Ascent.{Ascending}
use range_lh_cplus_plus.BPlusTree.Chain.{Segment, occurrences}

-- The `next` pointers run through the leaves from left to right and end, no two leaves have one
-- address, and none has an address from `fresh` on.
abbrev pub IsChain : (fresh : ℕ) → List Leaf → Type 0
IsChain fresh ls =
    ((p : Ptr) × Segment p ls nullptr)
    × ((a : ℕ) → occurrences a ls ≤ 1)
    × ((a : ℕ) → fresh ≤ a → occurrences a ls ≡ 0)

abbrev pub IsRoot : (order count fresh : ℕ) → Option Root → Type 0
IsRoot order count fresh none = count ≡ 0
IsRoot order count fresh (some (h, node)) =
    IsNode order h 0 (2 ^ 32) node
    × (0 < size h node)
    × (count ≡ length (contents h node))
    × IsChain fresh (leaves h node)

abbrev pub IsValid : BPlusTree → Type 0
IsValid t = IsOrder t.order × IsRoot t.order t.count t.fresh t.root

abbrev pub root_contents : Option Root → List Record
root_contents none = []
root_contents (some (h, node)) = contents h node

abbrev pub records : BPlusTree → List Record
records t = root_contents t.root

pub new-IsValid : (ord : ℕ) → ord < int_max → IsValid (new ord)
unfolding new
new-IsValid ord small = elim (Bool-cases (ltb ord 3)) [
  | inl e ↦ ((ground arith, ground arith), refl)
  | inr e ↦ ((ground arith, ground arith), refl)
]

root_contents-Ascending :
    (order count fresh : ℕ) (root : Option Root)
    → IsRoot order count fresh root
    → Ascending 0 (2 ^ 32) (root_contents root)
root_contents-Ascending order count fresh none v = omega arith
root_contents-Ascending order count fresh (some (h, node)) v =
    contents-Ascending order h 0 (2 ^ 32) node v.0

pub records-Ascending : (t : BPlusTree) → IsValid t → Ascending 0 (2 ^ 32) (records t)
records-Ascending t v = root_contents-Ascending t.order t.count t.fresh t.root v.1
