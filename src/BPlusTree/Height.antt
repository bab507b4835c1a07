-- ===== src/BPlusTree/Height.antt =====
-- How high a tree of BPlusTree/bPlusTree.h can become.
use range_lh_cplus_plus.Base.{
  ℕ, zero, suc, ◌*◌, ◌^◌, ◌≡◌, ◌<◌, ◌≤◌, refl, ap, arith, List, [], ◌∷◌, length, length-append,
  Option, none, some, subst,
}
use range_lh_cplus_plus.Base.{◌-◌, ◌/◌, sym, ◌∙◌}
use range_lh_cplus_plus.Base.Ints.{int_max}
use Prim.Native.Nat.{max}
use range_lh_cplus_plus.BPlusTree.{new}
use range_lh_cplus_plus.BPlusTree.Insert.{insert_tree_lem}
use range_lh_cplus_plus.BPlusTree.Remove.{remove_tree_lem}
use range_lh_cplus_plus.BPlusTree.Reachable.{
  Step, inserts, removes, Reaches, start, continued, reaches-IsValid,
}
use native.Mathlib.Nat.{
  mul-suc, mul-one, mul_assoc, pow-zero, pow-suc, mul-le-mul_left, one-le-mul, one-le-pow,
}
use range_lh_cplus_plus.BPlusTree.{Record, Tree, Root, BPlusTree, gather}
use range_lh_cplus_plus.BPlusTree.Removal.{size, min_keys}
use range_lh_cplus_plus.BPlusTree.Children.{Kids}
use range_lh_cplus_plus.BPlusTree.Node.{IsNode, IsChild, contents}
use range_lh_cplus_plus.BPlusTree.Valid.{IsValid, IsRoot, root_contents}

-- Children that each give at least `m` records.
gather-least :
    {A : Type 0} (P : ℕ → ℕ → A → Type 0) (f : A → List Record) (m lo hi : ℕ) (c : A)
    (r : List (ℕ × A))
    → ((l u : ℕ) (t : A) → P l u t → m ≤ length (f t))
    → Kids P lo hi c r
    → m * suc (length r) ≤ length (gather f c r)
gather-least P f m lo hi c [] w (p, behind) = omega (arith, w lo hi c p)
gather-least P f m lo hi c ((k, next) ∷ r) w (p, behind) =
    let ih = gather-least P f m k hi next r w behind in
    omega (arith, w lo k c p, length-append (f c) (gather f next r), ih, mul-suc m (suc (length r)))

-- The least number of records below a node that is not the root.
child-least :
    (order h lo hi : ℕ) (t : Tree h)
    → IsChild order h lo hi t
    → min_keys order * suc (min_keys order) ^ h ≤ length (contents h t)
unfolding contents size
child-least order zero lo hi leaf (l, v, n) =
    let m = min_keys order in omega (arith, n, ap (λ (x : ℕ). m * x) (pow-zero (suc m)), mul-one m)
child-least order (suc h) lo hi (c, r) (l, (k, s), n) =
    let m = min_keys order in
    let p = suc m ^ h in
    let each : m * p * suc (length r) ≤ length (contents (suc h) (c, r)) =
      gather-least (IsChild order h) (contents h) (m * p) lo hi c r (child-least order h) k in
    let more : m * p * suc m ≤ m * p * suc (length r) =
      mul-le-mul_left (m * p) (omega (arith, n)) in
    omega (arith, each, more, ap (λ (x : ℕ). m * x) (pow-suc (suc m) h), mul_assoc m p (suc m))

root-least :
    (order h lo hi : ℕ) (t : Tree (suc h))
    → IsNode order (suc h) lo hi t
    → 0 < size (suc h) t
    → 2 * (min_keys order * suc (min_keys order) ^ h) ≤ length (contents (suc h) t)
unfolding contents size
root-least order h lo hi (c, r) (k, s) some_key =
    let least = min_keys order * suc (min_keys order) ^ h in
    let each : least * suc (length r) ≤ length (contents (suc h) (c, r)) =
      gather-least (IsChild order h) (contents h) least lo hi c r (child-least order h) k in
    let more : least * 2 ≤ least * suc (length r) =
      mul-le-mul_left least (omega (arith, some_key)) in
    omega (arith, each, more)

-- the bound for any valid tree
height_of_valid :
    (t : BPlusTree) (h : ℕ) (node : Tree (suc h))
    → IsValid t
    → t.root ≡ some (suc h, node)
    → 2 * (min_keys t.order * suc (min_keys t.order) ^ h) ≤ t.count
height_of_valid t h node (three, v) e =
    let (valid, pos, long, chain) : IsRoot t.order t.count t.fresh (some (suc h, node)) =
      subst (IsRoot t.order t.count t.fresh) e v in
    omega (arith, long, root-least t.order h 0 (2 ^ 32) node valid pos)

-- The order of a tree never changes.
Step-order : (t after : BPlusTree) → IsValid t → Step t after → after.order ≡ t.order
Step-order t after v (inserts key datum l new_key room run) =
    let (next, run_, (valid, same_records, order, count)) =
      insert_tree_lem t key datum v l new_key room in
    let same : next ≡ after = cc in ap (λ s. s.order) (sym same) ∙ order
Step-order t after v (removes key found l run) =
    let (next, run_, valid, same_records, order) = remove_tree_lem t key v l in
    let same : next ≡ after = cc in ap (λ s. s.order) (sym same) ∙ order

Reaches-order : (ord : ℕ) (t : BPlusTree) → ord < int_max → Reaches ord t → t.order ≡ max ord 3
unfolding new
Reaches-order ord t small start = ground arith
Reaches-order ord t small (continued {t = s} r step) =
    Step-order s t (reaches-IsValid ord s small r) step ∙ Reaches-order ord s small r

-- For every order below 2^31 - 1 that the constructor is given, a tree that insertions of keys
-- below 2^32 that it does not have, with a count below 2^31 - 1, and removals of keys below 2^32
-- lead to from the new one, with the root at height h + 1 above the leaves, has a count of at
-- least 2 * m * (m + 1)^h, where m is half of one less than the order, rounded down, and the order
-- is 3 if a smaller one is given.
pub height_lem :
    (ord : ℕ) (t : BPlusTree) (h : ℕ) (node : Tree (suc h))
    → ord < int_max
    → Reaches ord t
    → t.root ≡ some (suc h, node)
    → 2 * ((max ord 3 - 1) / 2 * suc ((max ord 3 - 1) / 2) ^ h) ≤ t.count
unfolding min_keys
height_lem ord t h node small r e =
    let least = height_of_valid t h node (reaches-IsValid ord t small r) e in
    rw (Reaches-order ord t small r) at least

-- A valid tree with a root has a record.
pub no-records :
    (order count fresh : ℕ) (root : Option Root)
    → 3 ≤ order
    → IsRoot order count fresh root
    → root_contents root ≡ []
    → root ≡ none
unfolding contents size min_keys
no-records order count fresh none three v e = refl
no-records order count fresh (some (zero, leaf)) three v e =
    absurd (omega (arith, v.1, ap length e))
no-records order count fresh (some (suc h, node)) three v e =
    let m = min_keys order in
    let least : 1 ≤ m * suc m ^ h =
      one-le-mul (omega (arith, three)) (one-le-pow h (suc m) (omega arith)) in
    absurd (omega (arith, least, ap length e, root-least order h 0 (2 ^ 32) node v.0 v.1))
