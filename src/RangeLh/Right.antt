-- ===== src/RangeLh/Right.antt =====
-- `get_right_adjacent_worker` of Implement/rangeLH.cpp: the stack covers the keys above `w` that
-- are not searched yet, from the smallest up.
use range_lh_cplus_plus.Base.{
  none_ne_some, ℕ, ◌+◌, ◌≤◌, ◌<◌, ◌≡◌, sym, ap, ◌∙◌, arith, List, [], ◌∷◌, none, some,
}
use range_lh_cplus_plus.LinearHashing.{Ptr, nullptr}
use range_lh_cplus_plus.RangeLh.ChildLists.{Node}
use range_lh_cplus_plus.RangeLh.Nodes.{span, IsNode, span-zero}
use native.Mathlib.Decide.{dec_lt, dec_le}

module _ (find : ℕ → Ptr) (w : ℕ) where
  -- no key from `lo` to `hi`, and above `w`
  abbrev pub IsClear : (lo hi : ℕ) → Type 0
  IsClear lo hi = (q : ℕ) → lo ≤ q → q < hi → w < q → find q ≡ none

  -- The answer: the worker of the least key above `w`, or none if there is no such key.
  abbrev pub IsSuccessor : Ptr → Type 0
  IsSuccessor none = (q : ℕ) → w < q → find q ≡ none
  IsSuccessor (some p) =
      (key : ℕ) × (w < key) × (find key ≡ some p) × ((q : ℕ) → w < q → q < key → find q ≡ none)

  module _ (delta top : ℕ) where
    -- What the stack still has to search from `lo` on.
    abbrev pub Covers : (lo : ℕ) → List Node → Type 0
    Covers lo [] = (q : ℕ) → lo ≤ q → w < q → find q ≡ none
    Covers lo ((key, level) ∷ stack) =
        IsNode delta top key level
        × (w < key + span delta level)
        × IsClear lo key
        × Covers (key + span delta level) stack

    pub Covers-widen :
        (lo hi : ℕ) (stack : List Node) → IsClear lo hi → Covers hi stack → Covers lo stack
    Covers-widen lo hi [] clear c = λ q a above. elim (dec_lt q hi) [
      | yes h ↦ clear q a h above
      | no h ↦ c q (omega arith) above
    ]
    Covers-widen lo hi ((key, level) ∷ stack) clear (node, lt, c, rest) = (
      node,
      lt,
      λ q a b above. elim (dec_lt q hi) [
        | yes h ↦ clear q a h above
        | no h ↦ c q (omega arith) b above
      ],
      rest,
    )

    -- Everything above `w` up to some bound is searched, and the stack covers the rest.
    abbrev pub Right : List Node → Type 0
    Right stack = (lo : ℕ) × IsClear 0 lo × Covers lo stack

    pub Right-empty : Right [] → IsSuccessor nullptr
    Right-empty (lo, clear, c) q above = elim (dec_lt q lo) [
      | yes h ↦ clear q (omega arith) h above
      | no h ↦ c q (omega arith) above
    ]

    -- A node without keys above `w` can go.
    pub Right-drop :
        (key level : ℕ) (stack : List Node)
        → Right ((key, level) ∷ stack)
        → ((q : ℕ) → key ≤ q → q < key + span delta level → find q ≡ none)
        → Right stack
    Right-drop key level stack (lo, clear, (node, lt, c, rest)) none_here = (
      key + span delta level,
      λ q a b above. elim (dec_le key q) [
        | yes h ↦ none_here q h b
        | no h ↦ elim (dec_lt q lo) [
          | yes h' ↦ clear q a h' above
          | no h' ↦ c q (omega arith) (omega arith) above
        ]
      ],
      rest,
    )

    pub Right-hit :
        (key p : ℕ) (stack : List Node)
        → Right ((key, 0) ∷ stack)
        → find w ≡ none
        → find key ≡ some p
        → IsSuccessor (some p)
    Right-hit key p stack (lo, clear, (node, lt, c, rest)) absent found =
        let above_w : w < key = elim (dec_lt w key) [
          | yes h ↦ h
          | no h ↦
              let e : key ≡ w = omega (arith, span-zero delta) in
              absurd (none_ne_some (sym absent ∙ ap find (sym e) ∙ found))
        ] in
        (
          key,
          above_w,
          found,
          λ q above below. elim (dec_lt q lo) [
            | yes h ↦ clear q (omega arith) h above
            | no h ↦ c q (omega arith) below above
          ],
        )
