-- ===== src/RangeLh/Left.antt =====
-- `get_left_adjacent_worker` of Implement/rangeLH.cpp: the stack covers the keys below `w` that are
-- not searched yet, from the largest down.
use range_lh_cplus_plus.Base.{
  none_ne_some, ℕ, ◌+◌, ◌≤◌, ◌<◌, ◌≡◌, sym, ap, ◌∙◌, arith, List, [], ◌∷◌, none, some,
}
use range_lh_cplus_plus.LinearHashing.{Ptr, nullptr}
use range_lh_cplus_plus.RangeLh.ChildLists.{Node}
use range_lh_cplus_plus.RangeLh.Nodes.{span, IsNode, span-zero}
use native.Mathlib.Decide.{dec_lt}

module _ (find : ℕ → Ptr) (w : ℕ) where
  -- no key from `lo` to `hi`, and below `w`
  abbrev pub IsClear : (lo hi : ℕ) → Type 0
  IsClear lo hi = (q : ℕ) → lo ≤ q → q < hi → q < w → find q ≡ none

  -- The answer: the worker of the largest key below `w`, or none if there is no such key.
  abbrev pub IsPredecessor : Ptr → Type 0
  IsPredecessor none = (q : ℕ) → q < w → find q ≡ none
  IsPredecessor (some p) =
      (key : ℕ) × (key < w) × (find key ≡ some p) × ((q : ℕ) → key < q → q < w → find q ≡ none)

  module _ (delta top : ℕ) where
    -- What the stack still has to search below `hi`.
    abbrev pub Covers : (hi : ℕ) → List Node → Type 0
    Covers hi [] = IsClear 0 hi
    Covers hi ((key, level) ∷ stack) =
        IsNode delta top key level
        × (key ≤ w)
        × IsClear (key + span delta level) hi
        × Covers key stack

    pub Covers-widen :
        (lo hi : ℕ) (stack : List Node) → IsClear lo hi → Covers lo stack → Covers hi stack
    Covers-widen lo hi [] clear c = λ q a b below. elim (dec_lt q lo) [
      | yes h ↦ c q a h below
      | no h ↦ clear q (omega arith) b below
    ]
    Covers-widen lo hi ((key, level) ∷ stack) clear (node, le, c, rest) = (
      node,
      le,
      λ q a b below. elim (dec_lt q lo) [
        | yes h ↦ c q a h below
        | no h ↦ clear q (omega arith) b below
      ],
      rest,
    )

    -- Everything from some bound up to `w` is searched, and the stack covers the rest.
    abbrev pub Left : List Node → Type 0
    Left stack = (hi : ℕ) × IsClear hi w × Covers hi stack

    pub Left-empty : Left [] → IsPredecessor nullptr
    Left-empty (hi, clear, c) q below = elim (dec_lt q hi) [
      | yes h ↦ c q (omega arith) h below
      | no h ↦ clear q (omega arith) below below
    ]

    -- A node without keys below `w` can go.
    pub Left-drop :
        (key level : ℕ) (stack : List Node)
        → Left ((key, level) ∷ stack)
        → ((q : ℕ) → key ≤ q → q < key + span delta level → find q ≡ none)
        → Left stack
    Left-drop key level stack (hi, clear, (node, le, c, rest)) none_here = (
      key,
      λ q a b below. elim (dec_lt q (key + span delta level)) [
        | yes h ↦ none_here q a h
        | no h ↦ elim (dec_lt q hi) [
          | yes h' ↦ c q (omega arith) h' below
          | no h' ↦ clear q (omega arith) b below
        ]
      ],
      rest,
    )

    pub Left-hit :
        (key p : ℕ) (stack : List Node)
        → Left ((key, 0) ∷ stack)
        → find w ≡ none
        → find key ≡ some p
        → IsPredecessor (some p)
    Left-hit key p stack (hi, clear, (node, le, c, rest)) absent found =
        let below_w : key < w = elim (dec_lt key w) [
          | yes h ↦ h
          | no h ↦
              let e : key ≡ w = omega arith in
              absurd (none_ne_some (sym absent ∙ ap find (sym e) ∙ found))
        ] in
        (
          key,
          below_w,
          found,
          λ q above below. elim (dec_lt q hi) [
            | yes h ↦ c q (omega (arith, span-zero delta)) h below
            | no h ↦ clear q (omega arith) below below
          ],
        )
