-- ===== src/BPlusTree/Parent.antt =====
-- A parent in BPlusTree/bPlusTree.cpp after its children lost a record, whether two of them shared
-- or merged or not.
use range_lh_cplus_plus.Base.{
  ℕ, suc, ◌+◌, ◌≡◌, ◌<◌, ◌≤◌, sym, ap, subst, ◌∙◌, arith, List, ◌∷◌, ◌++◌, length, some, Bool, true,
  false, if◌then◌else◌,
}
use mathlib.Core.List.{append_assoc}
use range_lh_cplus_plus.BPlusTree.{Record, Leaf, Tree, leaves, unfocus}
use range_lh_cplus_plus.BPlusTree.Removal.{size}
use range_lh_cplus_plus.BPlusTree.Children.{
  lower, upper, before_list, behind_list, Befores, Behinds, Place, unfocus-Kids, length-unfocus,
}
use range_lh_cplus_plus.BPlusTree.Chain.{Relinks, nowhere, Relinks-same, Relinks-within}
use range_lh_cplus_plus.BPlusTree.Node.{IsNode, IsChild, contents, contents-unfocus, leaves-unfocus}
use range_lh_cplus_plus.BPlusTree.LeafSiblings.{Borrows, Merges}

-- What becomes of a node with `n` keys that loses a record: it has lost a key at most, and only if
-- `handle_underflow` is still to be called on it.
abbrev pub Shrinks : (order h lo hi n : ℕ) → List Record → List Leaf → Tree h × Bool → Type 0
Shrinks order h lo hi n rs ls (node, pending) =
    IsNode order h lo hi node
    × (n ≤ size h node + (if pending then 1 else 0))
    × (contents h node ≡ rs)
    × Relinks nowhere ls (leaves h node)

pub Shrinks-along :
    (order h lo hi n : ℕ) (rs rs_ : List Record) (ls ls_ : List Leaf) (s : Tree h × Bool)
    → rs ≡ rs_
    → ls ≡ ls_
    → Shrinks order h lo hi n rs ls s
    → Shrinks order h lo hi n rs_ ls_ s
Shrinks-along order h lo hi n rs rs_ ls ls_ (node, pending) e f (v, l, same, links) =
    (v, l, same ∙ e, subst (λ xs. Relinks nowhere xs (leaves h node)) f links)

-- A list of the children's lists, with some in the middle taken together.
abbrev pub around : {A B : Type 0} → (A → List B) → List (A × ℕ) → List B → List (ℕ × A) → List B
around f b middle r = before_list f b ++ (middle ++ behind_list f r)

pub around-left :
    {A B : Type 0} (f : A → List B) (b : List (A × ℕ)) (left : A) (k : ℕ) (c : A) (r : List (ℕ × A))
    → around f b (f left ++ f c) r ≡ around f ((left, k) ∷ b) (f c) r
around-left f b left k c r =
    ap (λ xs. before_list f b ++ xs) (append_assoc (f left) (f c) (behind_list f r))
    ∙ sym (append_assoc (before_list f b) (f left) _)

pub around-right :
    {A B : Type 0} (f : A → List B) (b : List (A × ℕ)) (c : A) (k : ℕ) (right : A)
    (r : List (ℕ × A))
    → around f b (f c ++ f right) r ≡ around f b (f c) ((k, right) ∷ r)
around-right f b c k right r =
    ap (λ xs. before_list f b ++ xs) (append_assoc (f c) (f right) (behind_list f r))

-- The parent after a borrow, or a merge, in the middle of its children.
module _ (order h lo hi : ℕ) (b : List (Tree h × ℕ)) (r : List (ℕ × Tree h)) (rs : List Record)
    (ls : List Leaf) (before : Befores (IsChild order h) lo b)
    (behind : Behinds (IsChild order h) hi r) where
  pub borrowed_lem :
      (n spare : ℕ) (left : Tree h) (k : ℕ) (right : Tree h)
      → n ≡ suc (length b + length r)
      → n < order
      → Borrows order h (lower lo b) (upper hi r) spare rs ls (some (left, k, right))
      → Shrinks order
          (suc h)
          lo
          hi
          n
          (around (contents h) b rs r)
          (around (leaves h) b ls r)
          (unfocus b left ((k, right) ∷ r), false)
  unfolding size
  borrowed_lem n spare left k right count l (p, q, same, links) =
      let long = length-unfocus b left ((k, right) ∷ r) in
      (
        (
          unfocus-Kids (IsChild order h) lo hi b left ((k, right) ∷ r) (before, p, (q, behind)),
          omega (arith, long, count),
        ),
        omega (arith, long, count),
        contents-unfocus h b left ((k, right) ∷ r)
            ∙ sym (around-right (contents h) b left k right r)
            ∙ ap (λ xs. around (contents h) b xs r) same,
        subst (Relinks nowhere (around (leaves h) b ls r))
            (around-right (leaves h) b left k right r
              ∙ sym (leaves-unfocus h b left ((k, right) ∷ r)))
            (Relinks-within nowhere (before_list (leaves h) b) ls _ (behind_list (leaves h) r)
              links),
      )

  pub merged_lem :
      (n : ℕ) (node : Tree h)
      → n ≡ suc (length b + length r)
      → n < order
      → Merges order h (lower lo b) (upper hi r) rs ls node
      → Shrinks order
          (suc h)
          lo
          hi
          n
          (around (contents h) b rs r)
          (around (leaves h) b ls r)
          (unfocus b node r, true)
  unfolding size
  merged_lem n node count l (p, same, links) =
      let long = length-unfocus b node r in
      (
        (
          unfocus-Kids (IsChild order h) lo hi b node r (before, p, behind),
          omega (arith, long, count),
        ),
        omega (arith, long, count),
        contents-unfocus h b node r ∙ ap (λ xs. around (contents h) b xs r) same,
        subst (Relinks nowhere (around (leaves h) b ls r)) (sym (leaves-unfocus h b node r)) (
            Relinks-within nowhere (before_list (leaves h) b) ls _ (behind_list (leaves h) r)
              links),
      )

-- The parent when the child stays in its place.
pub unchanged_lem :
    (order h lo hi n : ℕ) (b : List (Tree h × ℕ)) (node : Tree h) (r : List (ℕ × Tree h))
    → n < order
    → n ≡ length b + length r
    → Place (IsChild order h) lo hi b node r
    → Shrinks order
        (suc h)
        lo
        hi
        n
        (around (contents h) b (contents h node) r)
        (around (leaves h) b (leaves h node) r)
        (unfocus b node r, false)
unfolding size
unchanged_lem order h lo hi n b node r l count place =
    let long = length-unfocus b node r in
    (
      (unfocus-Kids (IsChild order h) lo hi b node r place, omega (arith, long, count)),
      omega (arith, long, count),
      contents-unfocus h b node r,
      Relinks-same _ _ (sym (leaves-unfocus h b node r)),
    )
