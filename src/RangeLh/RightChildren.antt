-- ===== src/RangeLh/RightChildren.antt =====
-- `get_right_children_list` of Implement/rangeLH.cpp: the children that a node is replaced by keep
-- the invariant of the right search.
use range_lh_cplus_plus.Base.{
  ℕ, zero, suc, ◌+◌, ◌-◌, ◌*◌, ◌^◌, ◌≤◌, ◌<◌, ◌≡◌, refl, sym, ap, subst, ◌∙◌, arith, List, [], ◌∷◌,
  ◌++◌, length, ltb, All, Bool-cases, inl, inr, lt→ltb, le→ltb_false, length-append,
}
use range_lh_cplus_plus.Base.Words.{shift_left-one, add64, mul64}
use range_lh_cplus_plus.Base.Smear.{mul_mono}
use range_lh_cplus_plus.Base.Run.{ok}
use range_lh_cplus_plus.LinearHashing.{Ptr}
use range_lh_cplus_plus.RangeLh.ChildLists.{
  Node, push_all, right_children, aligned_child, get_right_children_list,
}
use range_lh_cplus_plus.RangeLh.Search.{
  push_all-append, All-append, length-aligned_child, levels-aligned_child,
}
use range_lh_cplus_plus.RangeLh.Nodes.{
  span, IsNode, span-suc, child-value, child-IsNode, aligned_child-inside, aligned_child-before,
}
use native.Mathlib.Decide.{dec_lt}
use range_lh_cplus_plus.RangeLh.Right.{IsClear, Covers, Covers-widen, Right}

module _ (find : ℕ → Ptr) (w delta top : ℕ) (deep : top * delta < 64) (small : w < span delta top)
    {key level : ℕ} (node : IsNode delta top key (suc level)) where
  -- The children from `m` on begin above `w`, and the loop pushes them.
  module _ (m : ℕ) (low : (j : ℕ) → j < m → key + j * span delta level ≤ w)
      (high : (j : ℕ) → m ≤ j → w < key + j * span delta level) where
    right_children-none :
        (rounds : ℕ)
        → rounds ≤ m
        → rounds ≤ 2 ^ delta
        → right_children key level w (span delta level) rounds ≡ []
    unfolding right_children
    right_children-none zero h k = refl
    right_children-none (suc j) h k = rw (
      child-value delta top deep node j (omega arith),
      le→ltb_false w (key + j * span delta level) (low j (omega arith)),
      right_children-none j (omega arith) (omega arith),
    )

    Covers-right_children :
        (extra : ℕ) (stack : List Node)
        → extra + m ≤ 2 ^ delta
        → Covers find w delta top (key + (extra + m) * span delta level) stack
        → Covers find w delta top
            (key + m * span delta level)
            (push_all (right_children key level w (span delta level) (extra + m)) stack)
    unfolding right_children push_all
    Covers-right_children zero stack k c =
        let e : 0 + m ≡ m = omega arith in
        rw (e, right_children-none m (omega arith) (omega arith))
          (subst (λ n. Covers find w delta top (key + n * span delta level) stack) e c)
    Covers-right_children (suc extra) stack k c =
        let s = span delta level in
        let e : suc extra + m ≡ suc (extra + m) = omega arith in
        let next : key + (suc extra + m) * s ≡ key + (extra + m) * s + s = omega arith in
        rw
          (
            e,
            child-value delta top deep node (extra + m) (omega arith),
            lt→ltb w (key + (extra + m) * s) (high (extra + m) (omega arith)),
          )
          (Covers-right_children extra ((key + (extra + m) * s, level) ∷ stack) (omega arith) (
            child-IsNode delta top deep node (extra + m) (omega arith),
            omega (arith, high (extra + m) (omega arith)),
            λ q a b _. absurd (omega arith),
            subst (λ h. Covers find w delta top h stack) next c,
          ))

    Covers-all_children :
        (stack : List Node)
        → m ≤ 2 ^ delta
        → Covers find w delta top (key + span delta (suc level)) stack
        → Covers find w delta top
            (key + m * span delta level)
            (push_all (right_children key level w (span delta level) (2 ^ delta)) stack)
    Covers-all_children stack h c =
        let e : 2 ^ delta - m + m ≡ 2 ^ delta = omega arith in
        subst
          (λ n.
            Covers find w delta top (key + m * span delta level)
              (push_all (right_children key level w (span delta level) n) stack))
          e
          (Covers-right_children (2 ^ delta - m) stack (omega arith) (
            subst (λ x. Covers find w delta top (key + x) stack)
              (span-suc delta level ∙ ap (λ n. n * span delta level) (sym e)) c))

  -- The last child, if there is one, holds `w` and lies below the others.
  Right-children :
      (stack : List Node) (lo : ℕ)
      → w < key + span delta (suc level)
      → IsClear find w 0 lo
      → IsClear find w lo key
      → Covers find w delta top (key + span delta (suc level)) stack
      → Right find w delta top (
          push_all
            (aligned_child key level w (span delta level) (2 ^ delta))
            (push_all (right_children key level w (span delta level) (2 ^ delta)) stack))
  unfolding push_all
  Right-children stack lo lt clear c covers =
      let s = span delta level in
      let rest = push_all (right_children key level w s (2 ^ delta)) stack in
      elim (dec_lt w key) [
        | yes before ↦ rw (aligned_child-before delta top deep node w small before) (
          lo,
          clear,
          Covers-widen find w delta top lo (key + 0 * s) rest
              (λ q a b above. c q a (omega arith) above)
              (Covers-all_children 0 (λ j h. absurd (omega arith)) (λ j h. omega arith) stack
                (omega arith) covers),
        )
        | no inside ↦
            let (m, few, le, up, list) =
              aligned_child-inside delta top deep node w small (omega arith) lt in
            let e : key + suc m * s ≡ key + m * s + s = omega arith in
            rw list (
              lo,
              clear,
              (
                child-IsNode delta top deep node m few,
                up,
                λ q a b above. absurd (omega arith),
                subst (λ h. Covers find w delta top h rest) e
                    (Covers-all_children (suc m)
                      (λ j h. omega (arith, mul_mono j m s (omega arith)))
                      (λ j h. omega (arith, mul_mono (suc m) j s h)) stack few covers),
              ),
            )
      ]

  length-right_children :
      (rounds : ℕ) → length (right_children key level w (span delta level) rounds) ≤ rounds
  unfolding right_children
  length-right_children zero = omega arith
  length-right_children (suc j) = ground (arith, length-right_children j)

  levels-right_children :
      (rounds : ℕ) → All (λ c. c.1 ≡ level) (right_children key level w (span delta level) rounds)
  unfolding right_children
  levels-right_children zero = tt
  levels-right_children (suc j) =
      elim (Bool-cases (ltb w (add64 key (mul64 j (span delta level))))) [
        | inl above ↦ rw above (refl, levels-right_children j)
        | inr below ↦ rw below (levels-right_children j)
      ]

  -- What a node is replaced by on the stack.
  pub Right-expand :
      (stack : List Node)
      → delta < 64
      → Right find w delta top ((key, suc level) ∷ stack)
      → (list : List Node) × (get_right_children_list delta key (suc level) w ≡ ok list)
        × (length list ≤ 2 ^ delta + 1)
        × All (λ c. c.1 ≡ level) list
        × Right find w delta top (push_all list stack)
  unfolding get_right_children_list
  Right-expand stack narrow (lo, clear, (node', lt, c, rest)) =
      let s = span delta level in
      let n = 2 ^ delta in
      let loop = right_children key level w s n in
      let last = aligned_child key level w s n in
      let depth : level * delta < 64 =
        omega (arith, mul_mono level top delta (omega (arith, node.level_le)), deep) in
      (
        loop ++ last,
        rw (shift_left-one (level * delta) depth, shift_left-one delta narrow) refl,
        omega (
          arith,
          length-append loop last,
          length-right_children n,
          length-aligned_child key level w s n,
        ),
        All-append (λ c. c.1 ≡ level) loop last (levels-right_children n)
            (levels-aligned_child key level w s n),
        rw (push_all-append loop last stack) (Right-children stack lo lt clear c rest),
      )
