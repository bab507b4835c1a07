-- ===== src/BPlusTree/InternalSiblings.antt =====
-- The borrows of BPlusTree/bPlusTree.cpp between two internal nodes with a key between them.
use range_lh_cplus_plus.Base.{
  ℕ, suc, ◌+◌, ◌-◌, ◌/◌, ◌≡◌, ◌<◌, ◌≤◌, refl, sym, ap, subst, ◌∙◌, arith, List, [], ◌∷◌, ◌++◌,
  length, length-append, Option, none, some, leb, Bool-cases, inl, inr, le→leb, leb→le,
  leb_false→lt,
}
use range_lh_cplus_plus.Base.Run.{ok}
use mathlib.Core.List.{append_assoc}
use range_lh_cplus_plus.BPlusTree.{Tree, gather, leaves}
use range_lh_cplus_plus.BPlusTree.Removal.{
  size, min_keys, Siblings, borrow_from_left_internal, borrow_from_right_internal,
}
use range_lh_cplus_plus.BPlusTree.Children.{Kids, join-Kids, part-Kids, gather-join, Kids-lt}
use range_lh_cplus_plus.BPlusTree.Ascent.{pop_back-append}
use range_lh_cplus_plus.BPlusTree.Chain.{Relinks-same}
use range_lh_cplus_plus.BPlusTree.Node.{IsChild, IsChild-lt, contents}
use range_lh_cplus_plus.BPlusTree.LeafSiblings.{Borrows}

-- A child that goes over the key between two nodes.
gather-rightwards :
    {A B : Type 0} (f : A → List B) (c : A) (r init : List (ℕ × A)) (last : ℕ × A) (key : ℕ) (d : A)
    (s : List (ℕ × A))
    → r ≡ init ++ last ∷ []
    → gather f c init ++ gather f last.1 ((key, d) ∷ s) ≡ gather f c r ++ gather f d s
gather-rightwards f c r init last key d s same =
    sym (append_assoc (gather f c init) (f last.1) (gather f d s))
    ∙ ap (λ xs. xs ++ gather f d s)
        (sym (gather-join f c init last.0 last.1 []) ∙ ap (gather f c) (sym same))

gather-leftwards :
    {A B : Type 0} (f : A → List B) (c : A) (r : List (ℕ × A)) (key : ℕ) (d : A) (k : ℕ) (next : A)
    (more : List (ℕ × A))
    → gather f c (r ++ (key, d) ∷ []) ++ gather f next more
      ≡ gather f c r ++ gather f d ((k, next) ∷ more)
gather-leftwards f c r key d k next more =
    ap (λ xs. xs ++ gather f next more) (gather-join f c r key d [])
    ∙ append_assoc (gather f c r) (f d) (gather f next more)

pub borrow_from_left_internal_lem :
    (order h lo key hi : ℕ) (c : Tree h) (r : List (ℕ × Tree h)) (d : Tree h)
    (s : List (ℕ × Tree h))
    → IsChild order (suc h) lo key (c, r)
    → key < hi
    → Kids (IsChild order h) key hi d s
    → min_keys order ≤ suc (length s)
    → length s < min_keys order
    → Borrows order
        (suc h)
        lo
        hi
        (length r)
        (contents (suc h) (c, r) ++ contents (suc h) (d, s))
        (leaves (suc h) (c, r) ++ leaves (suc h) (d, s))
        (borrow_from_left_internal order h (c, r) key (d, s))
unfolding borrow_from_left_internal size contents leaves min_keys
borrow_from_left_internal_lem order h lo key hi c [] d s v u kids short small =
    rw (le→leb 0 ((order - 1) / 2) (omega arith)) (omega arith)
borrow_from_left_internal_lem order h lo key hi c (x ∷ xs) d s (below, (k, lr), long) u kids short
      small =
    let (init, last, popped, same) = pop_back-append x xs in
    let parts : Kids (IsChild order h) lo last.0 c init
        × Kids (IsChild order h) last.0 key last.1 [] =
      part-Kids (IsChild order h) lo last.0 key c init last.1 []
        (subst (Kids (IsChild order h) lo key c) same k) in
    let count : suc (length xs) ≡ length init + 1 =
      ap length same ∙ length-append init (last ∷ []) in
    let above : last.0 < key = parts.1.0.0 in
    let left = Kids-lt (IsChild order h) lo last.0 c init (IsChild-lt order h) parts.0 in
    elim (Bool-cases (leb (suc (length xs)) ((order - 1) / 2))) [
      | inl e ↦ rw e (omega (arith, leb→le (suc (length xs)) ((order - 1) / 2) e))
      | inr e ↦
          let more : (order - 1) / 2 < suc (length xs) =
            leb_false→lt (suc (length xs)) ((order - 1) / 2) e in
          rw (e, popped)
            (
              (left, (parts.0, omega arith), omega arith),
              (omega arith, ((parts.1.0, kids), omega arith), omega arith),
              gather-rightwards (contents h) c (x ∷ xs) init last key d s same,
              Relinks-same _ _
                  (sym (gather-rightwards (leaves h) c (x ∷ xs) init last key d s same)),
            )
    ]

pub borrow_from_right_internal_lem :
    (order h lo key hi : ℕ) (c : Tree h) (r : List (ℕ × Tree h)) (d : Tree h)
    (s : List (ℕ × Tree h))
    → 3 ≤ order
    → IsChild order (suc h) key hi (d, s)
    → lo < key
    → Kids (IsChild order h) lo key c r
    → min_keys order ≤ suc (length r)
    → length r < min_keys order
    → (found : Option (Siblings (suc h))) × (borrow_from_right_internal order h (c, r) key (d, s)
        ≡ ok found)
      × Borrows order
          (suc h)
          lo
          hi
          (length s)
          (contents (suc h) (c, r) ++ contents (suc h) (d, s))
          (leaves (suc h) (c, r) ++ leaves (suc h) (d, s))
          found
unfolding borrow_from_right_internal size contents leaves min_keys
borrow_from_right_internal_lem order h lo key hi c r d [] three v l kids short small =
    (none, rw (le→leb 0 ((order - 1) / 2) (omega arith)) refl, omega arith)
borrow_from_right_internal_lem order h lo key hi c r d ((k, next) ∷ more) three
      (above, ((p, behind), ls), long) l kids short small =
    let longer = length-append r ((key, d) ∷ []) in
    elim (Bool-cases (leb (suc (length more)) ((order - 1) / 2))) [
      | inl e ↦ rw e (none, refl, leb→le (suc (length more)) ((order - 1) / 2) e)
      | inr e ↦
          let spare : (order - 1) / 2 < suc (length more) =
            leb_false→lt (suc (length more)) ((order - 1) / 2) e in
          let right = Kids-lt (IsChild order h) k hi next more (IsChild-lt order h) behind in
          let up : key < k = p.0 in
          rw e (
            some ((c, r ++ (key, d) ∷ []), k, (next, more)),
            refl,
            (
              (
                omega arith,
                (join-Kids (IsChild order h) lo key k c r d [] kids (p, tt), omega (arith, longer)),
                omega (arith, longer),
              ),
              (right, (behind, omega arith), omega arith),
              gather-leftwards (contents h) c r key d k next more,
              Relinks-same _ _ (sym (gather-leftwards (leaves h) c r key d k next more)),
            ),
          )
    ]
