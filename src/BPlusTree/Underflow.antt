-- ===== src/BPlusTree/Underflow.antt =====
-- `handleUnderflow` of BPlusTree/bPlusTree.cpp on a child that may be one key short.
use range_lh_cplus_plus.Base.{
  ℕ, suc, ◌+◌, ◌-◌, ◌/◌, ◌≡◌, ◌<◌, ◌≤◌, refl, sym, subst, arith, List, [], ◌∷◌, ◌++◌, length,
  Option, none, some, leb, Bool, true, false, Bool-cases, inl, inr, leb→le, leb_false→lt,
}
use range_lh_cplus_plus.Base.Run.{Run, ok}
use range_lh_cplus_plus.BPlusTree.{Tree, leaves, unfocus}
use range_lh_cplus_plus.BPlusTree.Removal.{
  size, min_keys, Siblings, borrow_from_left, borrow_from_right, merge_with_left, merge_with_right,
  merge, after_left, try_left, try_right, handle_underflow,
}
use range_lh_cplus_plus.BPlusTree.Children.{lower, upper, Befores, Behinds}
use range_lh_cplus_plus.BPlusTree.Node.{IsNode, IsChild, contents}
use range_lh_cplus_plus.BPlusTree.LeafSiblings.{Borrows, Merges}
use range_lh_cplus_plus.BPlusTree.Siblings.{
  borrow_from_left_lem, borrow_from_right_lem, merge_with_left_lem, merge_with_right-left,
}
use range_lh_cplus_plus.BPlusTree.Parent.{
  Shrinks, Shrinks-along, around, around-left, around-right, borrowed_lem, merged_lem,
  unchanged_lem,
}

-- A left sibling, if there is one, has no key to spare.
abbrev IsPoor : (order h : ℕ) → List (Tree h × ℕ) → Type 0
IsPoor order h [] = Unit
IsPoor order h ((left, k) ∷ b) = size h left ≤ min_keys order

abbrev IsPoorBehind : (order h : ℕ) → List (ℕ × Tree h) → Type 0
IsPoorBehind order h [] = Unit
IsPoorBehind order h ((k, right) ∷ r) = size h right ≤ min_keys order

-- A child that is one key short, in its place among the others.
module _ (order h lo hi n : ℕ) (node : Tree h) (three : 3 ≤ order) (some_key : 0 < n)
    (most : n < order) (short : min_keys order ≤ suc (size h node))
    (small : size h node < min_keys order) where
  abbrev Outcome : List (Tree h × ℕ) → List (ℕ × Tree h) → Run (Tree (suc h) × Bool) → Type 0
  Outcome b r run =
      (s : Tree (suc h) × Bool) × (run ≡ ok s)
      × Shrinks order (suc h) lo hi n (around (contents h) b (contents h node) r)
          (around (leaves h) b (leaves h node) r) s

  merge_lem :
      (b : List (Tree h × ℕ)) (r : List (ℕ × Tree h))
      → Befores (IsChild order h) lo b
      → lower lo b < upper hi r
      → IsNode order h (lower lo b) (upper hi r) node
      → Behinds (IsChild order h) hi r
      → n ≡ length b + length r
      → IsPoor order h b
      → IsPoorBehind order h r
      → Outcome b r (merge h b node r)
  unfolding merge min_keys
  merge_lem [] [] before w v behind count poor poor_right = absurd (omega arith)
  merge_lem [] ((k, right) ∷ r) before w v ((l, vr, long), behind) count poor poor_right =
      let few : size h right ≤ (order - 1) / 2 = poor_right in
      (
        (unfocus [] (merge_with_right h node k right) r, true),
        refl,
        Shrinks-along order (suc h) lo hi n _ _ _ _
            (unfocus [] (merge_with_right h node k right) r, true)
            (around-right (contents h) [] node k right r)
            (around-right (leaves h) [] node k right r)
            (merged_lem order h lo hi [] r (contents h node ++ contents h right)
              (leaves h node ++ leaves h right) tt behind n (merge_with_right h node k right)
              (omega (arith, count)) most
              (subst
                (λ t.
                  Merges order h lo (upper hi r) (contents h node ++ contents h right)
                    (leaves h node ++ leaves h right) t)
                (sym (merge_with_right-left h node right k))
                (merge_with_left_lem order h lo k (upper hi r) node right w l v vr (omega arith)
                  (omega arith)))),
      )
  merge_lem ((left, k) ∷ b) r ((l, vl, long), before) w v behind count poor poor_right = (
    (unfocus b (merge_with_left h left k node) r, true),
    refl,
    Shrinks-along order (suc h) lo hi n _ _ _ _ (unfocus b (merge_with_left h left k node) r, true)
        (around-left (contents h) b left k node r) (around-left (leaves h) b left k node r)
        (merged_lem order h lo hi b r (contents h left ++ contents h node)
          (leaves h left ++ leaves h node) before behind n (merge_with_left h left k node)
          (omega (arith, count)) most
          (merge_with_left_lem order h (lower lo b) k (upper hi r) left node l w vl v (omega arith)
            (omega arith))),
  )

  borrowed_right :
      (b : List (Tree h × ℕ)) (k : ℕ) (right : Tree h) (r : List (ℕ × Tree h))
      (found : Option (Siblings h))
      → Befores (IsChild order h) lo b
      → lower lo b < k
      → IsNode order h (lower lo b) k node
      → Behinds (IsChild order h) hi ((k, right) ∷ r)
      → n ≡ length b + suc (length r)
      → IsPoor order h b
      → borrow_from_right order h node k right ≡ ok found
      → Borrows order h
          (lower lo b)
          (upper hi r)
          (size h right)
          (contents h node ++ contents h right)
          (leaves h node ++ leaves h right)
          found
      → Outcome b ((k, right) ∷ r) (try_right order h b node ((k, right) ∷ r))
  unfolding try_right
  borrowed_right b k right r none before w v behind count poor run spare =
      let (s, merges, result) =
        merge_lem b ((k, right) ∷ r) before w v behind (omega (arith, count)) poor spare in
      (s, rw run merges, result)
  borrowed_right b k right r (some (node_, k_, right_)) before w v behind count poor run borrows = (
    (unfocus b node_ ((k_, right_) ∷ r), false),
    rw run refl,
    Shrinks-along order (suc h) lo hi n _ _ _ _ (unfocus b node_ ((k_, right_) ∷ r), false)
        (around-right (contents h) b node k right r) (around-right (leaves h) b node k right r)
        (borrowed_lem order h lo hi b r (contents h node ++ contents h right)
          (leaves h node ++ leaves h right) before behind.1 n (size h right) node_ k_ right_
          (omega (arith, count)) most borrows),
  )

  try_right_lem :
      (b : List (Tree h × ℕ)) (r : List (ℕ × Tree h))
      → Befores (IsChild order h) lo b
      → lower lo b < upper hi r
      → IsNode order h (lower lo b) (upper hi r) node
      → Behinds (IsChild order h) hi r
      → n ≡ length b + length r
      → IsPoor order h b
      → Outcome b r (try_right order h b node r)
  unfolding try_right
  try_right_lem b [] before w v behind count poor = merge_lem b [] before w v behind count poor tt
  try_right_lem b ((k, right) ∷ r) before w v behind count poor =
      let (found, run, borrows) =
        borrow_from_right_lem order h (lower lo b) k (upper hi r) node right three behind.0 w v
          short small in
      borrowed_right b k right r found before w v behind count poor run borrows

  borrowed_left :
      (left : Tree h) (k : ℕ) (b : List (Tree h × ℕ)) (r : List (ℕ × Tree h))
      (found : Option (Siblings h))
      → Befores (IsChild order h) lo ((left, k) ∷ b)
      → k < upper hi r
      → IsNode order h k (upper hi r) node
      → Behinds (IsChild order h) hi r
      → n ≡ suc (length b) + length r
      → Borrows order h
          (lower lo b)
          (upper hi r)
          (size h left)
          (contents h left ++ contents h node)
          (leaves h left ++ leaves h node)
          found
      → Outcome ((left, k) ∷ b) r (after_left order h found left k b node r)
  unfolding after_left unfocus
  borrowed_left left k b r none before w v behind count spare =
      try_right_lem ((left, k) ∷ b) r before w v behind count spare
  borrowed_left left k b r (some (left_, k_, node_)) before w v behind count borrows = (
    (unfocus b left_ ((k_, node_) ∷ r), false),
    refl,
    Shrinks-along order (suc h) lo hi n _ _ _ _ (unfocus b left_ ((k_, node_) ∷ r), false)
        (around-left (contents h) b left k node r) (around-left (leaves h) b left k node r)
        (borrowed_lem order h lo hi b r (contents h left ++ contents h node)
          (leaves h left ++ leaves h node) before.1 behind n (size h left) left_ k_ node_
          (omega (arith, count)) most borrows),
  )

  try_left_lem :
      (b : List (Tree h × ℕ)) (r : List (ℕ × Tree h))
      → Befores (IsChild order h) lo b
      → lower lo b < upper hi r
      → IsNode order h (lower lo b) (upper hi r) node
      → Behinds (IsChild order h) hi r
      → n ≡ length b + length r
      → Outcome b r (try_left order h b node r)
  unfolding try_left
  try_left_lem [] r before w v behind count = try_right_lem [] r before w v behind count tt
  try_left_lem ((left, k) ∷ b) r before w v behind count =
      borrowed_left left k b r (borrow_from_left order h left k node) before w v behind count (
        borrow_from_left_lem order h (lower lo b) k (upper hi r) left node three before.0 w v short
          small)

-- The parent of a child that has at most lost a key.
pub handle_underflow_lem :
    (order h lo hi n : ℕ) (b : List (Tree h × ℕ)) (node : Tree h) (r : List (ℕ × Tree h))
    → 3 ≤ order
    → 0 < n
    → n < order
    → n ≡ length b + length r
    → Befores (IsChild order h) lo b
    → lower lo b < upper hi r
    → IsNode order h (lower lo b) (upper hi r) node
    → min_keys order ≤ suc (size h node)
    → Behinds (IsChild order h) hi r
    → (s : Tree (suc h) × Bool) × (handle_underflow order h b node r ≡ ok s)
      × Shrinks order
          (suc h)
          lo
          hi
          n
          (around (contents h) b (contents h node) r)
          (around (leaves h) b (leaves h node) r)
          s
unfolding handle_underflow
handle_underflow_lem order h lo hi n b node r three some_key most count before w v short behind =
    elim (Bool-cases (leb (min_keys order) (size h node))) [
      | inl e ↦
          let enough : min_keys order ≤ size h node = leb→le (min_keys order) (size h node) e in
          rw e (
            (unfocus b node r, false),
            refl,
            unchanged_lem order h lo hi n b node r most count (before, (w, v, enough), behind),
          )
      | inr e ↦ rw e (
          try_left_lem order h lo hi n node three some_key most short
            (leb_false→lt (min_keys order) (size h node) e) b r before w v behind count)
    ]
