-- ===== src/BPlusTree/Node.antt =====
-- The invariant of a node of BPlusTree/bPlusTree.cpp with the keys from a bound on and below
-- another, its records from left to right, and `findLeaf`.
use range_lh_cplus_plus.Base.Ints.{int_max}
use range_lh_cplus_plus.LinearHashing.{Ptr, nullptr}
use range_lh_cplus_plus.Base.{
  true, false, ℕ, zero, suc, ◌≡◌, ◌<◌, ◌≤◌, refl, sym, ap, ◌∙◌, arith, List, [], ◌∷◌, ◌++◌, length,
}
use range_lh_cplus_plus.BPlusTree.{
  Record, Tree, gather, focus, unfocus, find_leaf, leaves, search_records,
}
use range_lh_cplus_plus.BPlusTree.Removal.{size, min_keys, has_key}
use range_lh_cplus_plus.BPlusTree.Children.{
  lower, upper, before_list, behind_list, gather-behind, gather-unfocus, unfocus-focus,
  find_child-focus, Befores, Behinds, Kids, Place, focus-Place,
}
use range_lh_cplus_plus.BPlusTree.Ascent.{Ascending, Ascending-append}
use range_lh_cplus_plus.BPlusTree.Records.{
  first_under, first_under-between, search_records-first_under, has_key-first_under,
}

-- the records of the leaves, from left to right
unfoldable pub contents : (h : ℕ) → Tree h → List Record
contents zero leaf = leaf.records
contents (suc h) (child, rest) = gather (contents h) child rest

-- An order from 3 on that has a successor in an `int`.
abbrev pub IsOrder : ℕ → Type 0
IsOrder order = (3 ≤ order) × (order < int_max)

-- Separators ascend and bound the keys of the children; no node has `order` keys, and none below
-- the top has fewer than `min_keys order`.
abbrev pub IsNode : (order h lo hi : ℕ) → Tree h → Type 0
IsNode order zero lo hi leaf = Ascending lo hi leaf.records × (length leaf.records < order)
IsNode order (suc h) lo hi (child, rest) =
    Kids (λ l u t. (l < u) × IsNode order h l u t × (min_keys order ≤ size h t)) lo hi child rest
    × (length rest < order)

abbrev pub IsChild : (order h lo hi : ℕ) → Tree h → Type 0
IsChild order h lo hi t = (lo < hi) × IsNode order h lo hi t × (min_keys order ≤ size h t)

pub IsChild-lt : (order h lo hi : ℕ) (t : Tree h) → IsChild order h lo hi t → lo < hi
IsChild-lt order h lo hi t c = c.0

-- Children whose records ascend between their separators.
module _ {A : Type 0} (P : ℕ → ℕ → A → Type 0) (f : A → List Record) where
  abbrev Sorts : Type 0
  Sorts = (l u : ℕ) (t : A) → P l u t → Ascending l u (f t)

  Befores-Ascending :
      Sorts
      → (lo : ℕ) (b : List (A × ℕ)) → Befores P lo b
      → Ascending lo (lower lo b) (before_list f b)
  Befores-Ascending s lo [] h = omega arith
  Befores-Ascending s lo ((prev, k) ∷ b) (p, h) =
      Ascending-append lo (lower lo b) k (before_list f b) (f prev) (Befores-Ascending s lo b h)
        (s (lower lo b) k prev p)

  Behinds-Ascending :
      Sorts
      → (hi : ℕ) (r : List (ℕ × A)) → Behinds P hi r
      → Ascending (upper hi r) hi (behind_list f r)
  Behinds-Ascending s hi [] h = omega arith
  Behinds-Ascending s hi ((k, next) ∷ r) (p, h) =
      Ascending-append k (upper hi r) hi (f next) (behind_list f r) (s k (upper hi r) next p)
        (Behinds-Ascending s hi r h)

  Kids-Ascending :
      Sorts
      → (lo hi : ℕ) (c : A) (r : List (ℕ × A)) → Kids P lo hi c r
      → Ascending lo hi (gather f c r)
  Kids-Ascending s lo hi c r (p, h) = rw (gather-behind f c r) (
      Ascending-append lo (upper hi r) hi (f c) (behind_list f r) (s lo (upper hi r) c p)
        (Behinds-Ascending s hi r h))

pub contents-Ascending :
    (order h lo hi : ℕ) (t : Tree h) → IsNode order h lo hi t → Ascending lo hi (contents h t)
unfolding contents
contents-Ascending order zero lo hi leaf (a, n) = a
contents-Ascending order (suc h) lo hi (c, r) (k, n) =
    Kids-Ascending (IsChild order h) (contents h) (λ l u t p. contents-Ascending order h l u t p.1)
      lo hi c r k

-- A node from the place of the child that a key belongs to.
pub descend :
    (order h lo hi key : ℕ) (c : Tree h) (r : List (ℕ × Tree h))
    → IsNode order (suc h) lo hi (c, r)
    → lo ≤ key
    → key < hi
    → let (before, child, behind) = focus key [] c r in
      Place (IsChild order h) lo hi before child behind
      × (lower lo before ≤ key)
      × (key < upper hi behind)
      × Ascending lo (lower lo before) (before_list (contents h) before)
      × Ascending (upper hi behind) hi (behind_list (contents h) behind)
descend order h lo hi key c r (k, n) l u =
    let (before, child, behind) = focus key [] c r in
    let (place, lower_, upper_) =
      focus-Place (IsChild order h) lo hi key [] c r (tt, k.0, k.1) l u in
    let sorts =
      λ (l u : ℕ) (t : Tree h) (p : IsChild order h l u t). contents-Ascending order h l u t p.1 in
    (
      place,
      lower_,
      upper_,
      Befores-Ascending (IsChild order h) (contents h) sorts lo before place.0,
      Behinds-Ascending (IsChild order h) (contents h) sorts hi behind place.2,
    )

pub contents-unfocus :
    (h : ℕ) (b : List (Tree h × ℕ)) (c : Tree h) (r : List (ℕ × Tree h))
    → contents (suc h) (unfocus b c r)
      ≡ before_list (contents h) b ++ (contents h c ++ behind_list (contents h) r)
unfolding contents
contents-unfocus h b c r = gather-unfocus (contents h) b c r

pub contents-focus :
    (h key : ℕ) (c : Tree h) (r : List (ℕ × Tree h))
    → let (before, child, behind) = focus key [] c r in
      contents (suc h) (c, r)
      ≡ before_list (contents h) before ++ (contents h child ++ behind_list (contents h) behind)
unfolding unfocus
contents-focus h key c r =
    let (before, child, behind) = focus key [] c r in
    ap (contents (suc h)) (sym (unfocus-focus key [] c r)) ∙ contents-unfocus h before child behind

pub leaves-unfocus :
    (h : ℕ) (b : List (Tree h × ℕ)) (c : Tree h) (r : List (ℕ × Tree h))
    → leaves (suc h) (unfocus b c r)
      ≡ before_list (leaves h) b ++ (leaves h c ++ behind_list (leaves h) r)
unfolding leaves
leaves-unfocus h b c r = gather-unfocus (leaves h) b c r

pub leaves-focus :
    (h key : ℕ) (c : Tree h) (r : List (ℕ × Tree h))
    → let (before, child, behind) = focus key [] c r in
      leaves (suc h) (c, r)
      ≡ before_list (leaves h) before ++ (leaves h child ++ behind_list (leaves h) behind)
unfolding unfocus
leaves-focus h key c r =
    let (before, child, behind) = focus key [] c r in
    ap (leaves (suc h)) (sym (unfocus-focus key [] c r)) ∙ leaves-unfocus h before child behind

pub find_leaf-focus :
    (h key : ℕ) (c : Tree h) (r : List (ℕ × Tree h))
    → find_leaf (suc h) (c, r) key ≡ find_leaf h (focus key [] c r).1 key
unfolding find_leaf
find_leaf-focus h key c r = ap (λ x. find_leaf h x key) (find_child-focus key [] c r)

-- The leaf that `find_leaf` gives stands for the whole node in what a key's records decide.
pub first_under-find_leaf :
    {B : Type 0} (found : Ptr → B) (missing : B) (order h lo hi key : ℕ) (t : Tree h)
    → IsNode order h lo hi t
    → lo ≤ key
    → key < hi
    → first_under found missing key (find_leaf h t key).records
      ≡ first_under found missing key (contents h t)
unfolding find_leaf contents
first_under-find_leaf {B} found missing order zero lo hi key leaf v l u = refl
first_under-find_leaf {B} found missing order (suc h) lo hi key (c, r) v l u =
    let (before, child, behind) = focus key [] c r in
    let (place, lower_, upper_, low, high) = descend order h lo hi key c r v l u in
    let first : List Record → B = first_under found missing key in
    ap (λ leaf. first leaf.records) (find_leaf-focus h key c r)
    ∙ (first_under-find_leaf found missing order h (lower lo before) (upper hi behind) key child
          place.1.1 lower_ upper_
        ∙ sym (
            first_under-between found missing lo (lower lo before) (upper hi behind) hi key
              (before_list (contents h) before) (contents h child) (behind_list (contents h) behind)
              low lower_ upper_ high))
    ∙ ap first (sym (contents-focus h key c r))

module _ (order h lo hi key : ℕ) (t : Tree h) (v : IsNode order h lo hi t) (l : lo ≤ key)
    (u : key < hi) where
  pub search_records-find_leaf :
      search_records key (find_leaf h t key).records ≡ search_records key (contents h t)
  search_records-find_leaf =
      search_records-first_under key (find_leaf h t key).records
      ∙ first_under-find_leaf (λ d. d) nullptr order h lo hi key t v l u
      ∙ sym (search_records-first_under key (contents h t))

  pub has_key-find_leaf : has_key key (find_leaf h t key).records ≡ has_key key (contents h t)
  has_key-find_leaf =
      has_key-first_under key (find_leaf h t key).records
      ∙ first_under-find_leaf (λ d. true) false order h lo hi key t v l u
      ∙ sym (has_key-first_under key (contents h t))
