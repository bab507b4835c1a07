-- ===== src/RangeLh/LeftChildren.antt =====
-- `get_left_children_list` of Implement/rangeLH.cpp: the children that a node is replaced by keep
-- the invariant of the left search.
use range_lh_cplus_plus.Base.{
  ℕ, zero, suc, ◌+◌, ◌*◌, ◌^◌, ◌≤◌, ◌<◌, ◌≡◌, refl, subst, arith, List, ◌∷◌, ◌++◌, length, ltb, All,
  Bool-cases, inl, inr, ltb→lt, ltb_false→le, length-append,
}
use range_lh_cplus_plus.Base.Words.{shift_left-one, add64, mul64}
use range_lh_cplus_plus.Base.Smear.{mul_mono}
use range_lh_cplus_plus.Base.Run.{ok}
use range_lh_cplus_plus.LinearHashing.{Ptr}
use range_lh_cplus_plus.RangeLh.ChildLists.{
  Node, push_all, left_children, aligned_child, get_left_children_list,
}
use range_lh_cplus_plus.RangeLh.Search.{
  push_all-append, All-append, length-aligned_child, levels-aligned_child,
}
use range_lh_cplus_plus.RangeLh.Nodes.{
  span, IsNode, span-suc, child-value, child-IsNode, aligned_child-inside, aligned_child-after,
}
use native.Mathlib.Decide.{dec_lt}
use range_lh_cplus_plus.RangeLh.Left.{IsClear, Covers, Covers-widen, Left}

module _ (find : ℕ → Ptr) (w delta top : ℕ) (deep : top * delta < 64) (small : w < span delta top)
    {key level : ℕ} (node : IsNode delta top key (suc level)) where
  -- The loop pushes the children that begin below `w`.
  Covers-left_children :
      (rounds j : ℕ) (stack : List Node)
      → j + rounds ≡ 2 ^ delta
      → Covers find w delta top (key + j * span delta level) stack
      → Covers find w delta top
          (key + 2 ^ delta * span delta level)
          (push_all (left_children key level w (span delta level) rounds j) stack)
  unfolding left_children push_all
  Covers-left_children zero j stack e c =
      let e' : j ≡ 2 ^ delta = omega arith in
      subst (λ n. Covers find w delta top (key + n * span delta level) stack) e' c
  Covers-left_children (suc rounds) j stack e c =
      let s = span delta level in
      let value = child-value delta top deep node j (omega arith) in
      elim (Bool-cases (ltb (key + j * s) w)) [
        | inl below ↦
            rw (value, below)
              (Covers-left_children rounds (suc j) ((key + j * s, level) ∷ stack) (omega arith) (
                child-IsNode delta top deep node j (omega arith),
                (omega (arith, ltb→lt (key + j * s) w below)),
                λ q a b _. absurd (omega arith),
                c,
              ))
        | inr above ↦
            rw (value, above)
              (Covers-left_children rounds (suc j) stack (omega arith) (
                Covers-widen find w delta top (key + j * s) (key + suc j * s) stack
                  (λ q a b under. absurd (omega (arith, ltb_false→le (key + j * s) w above))) c))
      ]

  -- The last child, if there is one, holds `w` and lies above the others.
  Left-aligned :
      (stack : List Node) (hi : ℕ)
      → key ≤ w
      → IsClear find w hi w
      → IsClear find w (key + span delta (suc level)) hi
      → Covers find w delta top (key + 2 ^ delta * span delta level) stack
      → Left find w delta top
          (push_all (aligned_child key level w (span delta level) (2 ^ delta)) stack)
  unfolding push_all
  Left-aligned stack hi le clear c covers = elim (dec_lt w (key + span delta (suc level))) [
    | yes inside ↦
        let (m, few, lo, up, list) = aligned_child-inside delta top deep node w small le inside in
        rw list (
          hi,
          clear,
          (
            child-IsNode delta top deep node m few,
            lo,
            λ q a b below. absurd (omega arith),
            Covers-widen find w delta top (key + 2 ^ delta * span delta level)
                (key + m * span delta level) stack
                (λ q a b below. absurd (omega (arith, span-suc delta level))) covers,
          ),
        )
    | no outside ↦ rw (aligned_child-after delta top deep node w small (omega arith)) (
      hi,
      clear,
      Covers-widen find w delta top (key + 2 ^ delta * span delta level) hi stack
          (λ q a b below. c q (omega (arith, span-suc delta level)) b below) covers,
    )
  ]

  length-left_children :
      (rounds j : ℕ) → length (left_children key level w (span delta level) rounds j) ≤ rounds
  unfolding left_children
  length-left_children zero j = omega arith
  length-left_children (suc rounds) j = ground (arith, length-left_children rounds (suc j))

  levels-left_children :
      (rounds j : ℕ)
      → All (λ c. c.1 ≡ level) (left_children key level w (span delta level) rounds j)
  unfolding left_children
  levels-left_children zero j = tt
  levels-left_children (suc rounds) j =
      elim (Bool-cases (ltb (add64 key (mul64 j (span delta level))) w)) [
        | inl below ↦ rw below (refl, levels-left_children rounds (suc j))
        | inr above ↦ rw above (levels-left_children rounds (suc j))
      ]

  -- What a node is replaced by on the stack.
  pub Left-expand :
      (stack : List Node)
      → delta < 64
      → Left find w delta top ((key, suc level) ∷ stack)
      → (list : List Node) × (get_left_children_list delta key (suc level) w ≡ ok list)
        × (length list ≤ 2 ^ delta + 1)
        × All (λ c. c.1 ≡ level) list
        × Left find w delta top (push_all list stack)
  unfolding get_left_children_list
  Left-expand stack narrow (hi, clear, (node', le, c, rest)) =
      let s = span delta level in
      let n = 2 ^ delta in
      let loop = left_children key level w s n 0 in
      let last = aligned_child key level w s n in
      let depth : level * delta < 64 =
        omega (arith, mul_mono level top delta (omega (arith, node.level_le)), deep) in
      let origin : Covers find w delta top (key + 0 * s) stack =
        subst (λ h. Covers find w delta top h stack) (omega arith) rest in
      (
        loop ++ last,
        rw (shift_left-one (level * delta) depth, shift_left-one delta narrow) refl,
        omega (
          arith,
          length-append loop last,
          length-left_children n 0,
          length-aligned_child key level w s n,
        ),
        All-append (λ c. c.1 ≡ level) loop last (levels-left_children n 0)
            (levels-aligned_child key level w s n),
        rw (push_all-append loop last stack) (
            Left-aligned (push_all loop stack) hi le clear c
              (Covers-left_children n 0 stack (omega arith) origin)),
      )
