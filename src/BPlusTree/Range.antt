-- ===== src/BPlusTree/Range.antt =====
-- `rangeSearch`, `getAllKeysInOrder` and `getAllDataInOrder` of BPlusTree/bPlusTree.cpp on a valid
-- tree.
use range_lh_cplus_plus.Base.{
  ℕ, zero, suc, ◌^◌, ◌≡◌, ◌<◌, ◌≤◌, refl, sym, ap, subst, ◌∙◌, arith, List, [], ◌∷◌, ◌++◌, length,
  length-append, Option, none, some, map, Bool, false,
}
use range_lh_cplus_plus.Base.Run.{ok}
use range_lh_cplus_plus.LinearHashing.{nullptr}
use mathlib.Core.List.{append_assoc, append-nil}
use range_lh_cplus_plus.BPlusTree.{
  Record, Leaf, Tree, Root, BPlusTree, leaves, find_leaf, first_leaf, gather, focus, walk,
  scan_records, range_search, get_all_keys_in_order, get_all_data_in_order,
}
use range_lh_cplus_plus.BPlusTree.Children.{before_list, behind_list, gather-behind, lower, upper}
use range_lh_cplus_plus.BPlusTree.Chain.{
  Segment, Leads, records_of, records_of-append, Leads-all, Leads-append, Segment-append,
}
use range_lh_cplus_plus.BPlusTree.Node.{
  IsNode, contents, contents-Ascending, descend, find_leaf-focus, leaves-focus,
}
use range_lh_cplus_plus.BPlusTree.Ascent.{Ascending, Ascending-behind}
use range_lh_cplus_plus.BPlusTree.Walk.{
  visit_all, walk_lem, visit_all-map, data_between, data_between-append, data_between-below,
  visit_all-scan_records,
}
use range_lh_cplus_plus.BPlusTree.Valid.{
  records-Ascending, IsChain, IsRoot, IsValid, records, root_contents,
}

gather-records_of :
    {A : Type 0} (f : A → List Leaf) (g : A → List Record) (c : A) (r : List (ℕ × A))
    → ((t : A) → records_of (f t) ≡ g t)
    → records_of (gather f c r) ≡ gather g c r
gather-records_of f g c [] e = e c
gather-records_of f g c ((k, next) ∷ r) e =
    records_of-append (f c) (gather f next r)
    ∙ ap (λ xs. xs ++ records_of (gather f next r)) (e c)
    ∙ ap (λ xs. g c ++ xs) (gather-records_of f g next r e)

pub records_of-leaves : (h : ℕ) (t : Tree h) → records_of (leaves h t) ≡ contents h t
unfolding leaves contents
records_of-leaves zero leaf = append-nil leaf.records
records_of-leaves (suc h) (c, r) =
    gather-records_of (leaves h) (contents h) c r (records_of-leaves h)

first_leaf-leaves : (h : ℕ) (t : Tree h) → (ys : List Leaf) × (leaves h t ≡ first_leaf h t ∷ ys)
unfolding leaves first_leaf
first_leaf-leaves zero leaf = ([], refl)
first_leaf-leaves (suc h) (c, r) =
    let (ys, e) = first_leaf-leaves h c in
    (
      ys ++ behind_list (leaves h) r,
      gather-behind (leaves h) c r ∙ ap (λ xs. xs ++ behind_list (leaves h) r) e,
    )

records_of-before :
    (h : ℕ) (b : List (Tree h × ℕ))
    → records_of (before_list (leaves h) b) ≡ before_list (contents h) b
records_of-before h [] = refl
records_of-before h ((prev, k) ∷ b) =
    records_of-append (before_list (leaves h) b) (leaves h prev)
    ∙ ap (λ rs. rs ++ records_of (leaves h prev)) (records_of-before h b)
    ∙ ap (λ rs. before_list (contents h) b ++ rs) (records_of-leaves h prev)

-- The leaf that `find_leaf` gives in the list of leaves: no key before it reaches the key.
find_leaf-leaves :
    (order h lo hi key : ℕ) (t : Tree h)
    → IsNode order h lo hi t
    → lo ≤ key
    → key < hi
    → (xs ys : List Leaf) × (leaves h t ≡ xs ++ (find_leaf h t key ∷ ys))
      × ((e : ℕ) → data_between key e (records_of xs) ≡ [])
unfolding leaves find_leaf data_between
find_leaf-leaves order zero lo hi key leaf v l u = ([], [], refl, λ e. refl)
find_leaf-leaves order (suc h) lo hi key (c, r) v l u =
    let (before, child, behind) = focus key [] c r in
    let (place, lower_, upper_, low, high) = descend order h lo hi key c r v l u in
    let (xs, ys, e, none_before) =
      find_leaf-leaves order h (lower lo before) (upper hi behind) key child place.1.1 lower_
        upper_ in
    let earlier = before_list (leaves h) before ++ xs in
    let later = ys ++ behind_list (leaves h) behind in
    let leaf = find_leaf h child key in
    let path : leaves (suc h) (c, r) ≡ earlier ++ (leaf ∷ later) =
      leaves-focus h key c r
      ∙ ap (λ ls. before_list (leaves h) before ++ (ls ++ behind_list (leaves h) behind)) e
      ∙ ap (λ ls. before_list (leaves h) before ++ ls) (append_assoc xs (leaf ∷ ys) _)
      ∙ sym (append_assoc (before_list (leaves h) before) xs _) in
    let same : leaf ≡ find_leaf (suc h) (c, r) key = sym (find_leaf-focus h key c r) in
    let skipped : (e : ℕ) → data_between key e (records_of earlier) ≡ [] = λ e.
      ap (data_between key e) (records_of-append (before_list (leaves h) before) xs)
      ∙ data_between-append key e (records_of (before_list (leaves h) before)) (records_of xs)
      ∙ ap (λ ds. ds ++ data_between key e (records_of xs))
          (ap (data_between key e) (records_of-before h before)
            ∙ data_between-below key e lo (lower lo before) _ low lower_)
      ∙ none_before e in
    (earlier, later, path ∙ ap (λ x. earlier ++ (x ∷ later)) same, skipped)

walk-leaves :
    {B : Type 0} (h fresh : ℕ) (node : Tree h) (xs ys : List Leaf) (leaf : Leaf)
    (visit : Leaf → List B × Bool)
    → IsChain fresh (leaves h node)
    → leaves h node ≡ xs ++ (leaf ∷ ys)
    → walk (leaves h node) visit (length (leaves h node)) leaf ≡ ok (visit_all visit (leaf ∷ ys))
walk-leaves h fresh node xs ys leaf visit ((p, chain), once, unused) e =
    let found =
      Leads-append (leaves h node) xs (leaf ∷ ys)
        (subst (λ ls. Leads (leaves h node) ls) e (Leads-all (leaves h node) once)) in
    let linked =
      Segment-append p xs (leaf ∷ ys) nullptr (subst (λ ls. Segment p ls nullptr) e chain) in
    walk_lem (leaves h node) visit (length (leaves h node)) leaf ys found.1 linked.2.1
      (omega (arith, ap length e, length-append xs (leaf ∷ ys)))

range_at :
    (t : BPlusTree) (root : Option Root) (key_start key_end : ℕ)
    → t.root ≡ root
    → IsRoot t.order t.count t.fresh root
    → key_start < 2 ^ 32
    → range_search t key_start key_end ≡ ok (data_between key_start key_end (root_contents root))
unfolding range_search data_between
range_at t none s e eq v l = rw eq refl
range_at t (some (h, node)) s e eq (v, pos, long, chain) l =
    let (xs, ys, split, skipped) = find_leaf-leaves t.order h 0 (2 ^ 32) s node v (omega arith) l in
    let leaf = find_leaf h node s in
    let all : contents h node ≡ records_of xs ++ records_of (leaf ∷ ys) =
      sym (records_of-leaves h node) ∙ ap records_of split ∙ records_of-append xs (leaf ∷ ys) in
    let (m, sorted) =
      Ascending-behind 0 (2 ^ 32) (records_of xs) (records_of (leaf ∷ ys))
        (subst (Ascending 0 (2 ^ 32)) all (contents-Ascending t.order h 0 (2 ^ 32) node v)) in
    let found : data_between s e (records_of (leaf ∷ ys)) ≡ data_between s e (contents h node) =
      sym (
        ap (data_between s e) all
        ∙ data_between-append s e (records_of xs) (records_of (leaf ∷ ys))
        ∙ ap (λ ds. ds ++ data_between s e (records_of (leaf ∷ ys))) (skipped e)) in
    rw eq (
      walk-leaves h t.fresh node xs ys leaf (λ l. scan_records s e l.records) chain split
      ∙ ap ok (visit_all-scan_records s e m (2 ^ 32) (leaf ∷ ys) sorted ∙ found))

-- On a valid tree, for a start key below 2^32, `range_search` ends within as many rounds as there
-- are leaves and gives the data of exactly the records with keys from the start key to the end
-- key, in ascending order of the keys.
pub range_search_lem :
    (t : BPlusTree) (key_start key_end : ℕ)
    → IsValid t
    → key_start < 2 ^ 32
    → range_search t key_start key_end ≡ ok (data_between key_start key_end (records t))
range_search_lem t s e v l = range_at t t.root s e refl v.1 l

all_at :
    {B : Type 0} (h fresh : ℕ) (node : Tree h) (f : Record → B)
    → IsChain fresh (leaves h node)
    → walk
        (leaves h node)
        (λ leaf. (map f leaf.records, false))
        (length (leaves h node))
        (first_leaf h node)
      ≡ ok (map f (contents h node))
all_at h fresh node f chain =
    let (ys, e) = first_leaf-leaves h node in
    walk-leaves h fresh node [] ys (first_leaf h node) (λ leaf. (map f leaf.records, false)) chain e
    ∙ ap ok (
        ap (visit_all (λ leaf. (map f leaf.records, false))) (sym e)
        ∙ visit_all-map f (leaves h node)
        ∙ ap (map f) (records_of-leaves h node))

keys_at :
    (t : BPlusTree) (root : Option Root)
    → t.root ≡ root
    → IsRoot t.order t.count t.fresh root
    → (get_all_keys_in_order t ≡ ok (map (λ r. r.0) (root_contents root)))
      × (get_all_data_in_order t ≡ ok (map (λ r. r.1) (root_contents root)))
unfolding get_all_keys_in_order get_all_data_in_order
keys_at t none e v = (rw e refl, rw e refl)
keys_at t (some (h, node)) e (v, pos, long, chain) =
    (rw e (all_at h t.fresh node (λ r. r.0) chain), rw e (all_at h t.fresh node (λ r. r.1) chain))

-- On a valid tree the walks of `get_all_keys_in_order` and `get_all_data_in_order` end within as
-- many rounds as there are leaves and give the keys and the data of all records, and the keys of
-- the records ascend.
pub get_all_lem :
    (t : BPlusTree)
    → IsValid t
    → (get_all_keys_in_order t ≡ ok (map (λ r. r.0) (records t)))
      × (get_all_data_in_order t ≡ ok (map (λ r. r.1) (records t)))
      × Ascending 0 (2 ^ 32) (records t)
get_all_lem t v =
    let (keys, values) = keys_at t t.root refl v.1 in (keys, values, records-Ascending t v)
