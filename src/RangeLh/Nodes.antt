-- ===== src/RangeLh/Nodes.antt =====
-- The nodes of the searches of Implement/rangeLH.cpp: the keys below a node, and its children.
use range_lh_cplus_plus.Base.{
  ℕ, suc, ◌+◌, ◌-◌, ◌*◌, ◌/◌, ◌^◌, ◌≤◌, ◌<◌, ◌≡◌, sym, ap, ◌∙◌, arith, [], ◌∷◌, le→leb,
  lt→leb_false, lt→ltb, le→ltb_false,
}
use range_lh_cplus_plus.Base.Words.{
  u64_mod, add64, mul64, shr, add64_small, mul64_small, sub64_small,
}
use range_lh_cplus_plus.Base.Bits.{pow_pos, pow_add, pow_mono}
use range_lh_cplus_plus.Base.Smear.{mul_mono}
use range_lh_cplus_plus.Base.Align.{bit_and_aligned, floor_bounds}
use range_lh_cplus_plus.RangeLh.ChildLists.{not64, aligned_child}
use native.Mathlib.Nat.{div-eq_of_lt-le, lt_of_mul-lt-mul_right}

-- how many keys a node of a level has below it
abbrev pub span : (delta level : ℕ) → ℕ
span delta level = 2 ^ (level * delta)

-- A node of the tree whose root is `(0, top)`: its keys are a multiple of its span and the ones
-- that follow, within the root's.
pub record IsNode (delta top key level : ℕ) : Type 0 where
  pub index : ℕ
  pub aligned : key ≡ index * span delta level
  pub within : key + span delta level ≤ span delta top
  pub level_le : level ≤ top

module _ (delta : ℕ) where
  pub span-suc : (level : ℕ) → span delta (suc level) ≡ 2 ^ delta * span delta level
  span-suc level =
      let e : suc level * delta ≡ delta + level * delta = omega arith in
      ap (λ (n : ℕ). 2 ^ n) e ∙ pow_add delta (level * delta)

  pub span-zero : span delta 0 ≡ 1
  span-zero = let e : 0 * delta ≡ 0 = omega arith in ap (λ (n : ℕ). 2 ^ n) e

  pub span-pos : (level : ℕ) → 0 < span delta level
  span-pos level = pow_pos (level * delta)

  module _ (top : ℕ) (deep : top * delta < 64) where
    pub span-top : span delta top < u64_mod
    span-top = omega (arith, pow_mono (top * delta) 63 (omega arith))

    -- The keys below a node have its prefix.
    pub IsNode-prefix :
        {key level : ℕ}
        → IsNode delta top key level
        → (q : ℕ) → key ≤ q
        → q < key + span delta level
        → shr q (level * delta) ≡ shr key (level * delta)
    IsNode-prefix {key} {level} node q lo hi =
        let s = span delta level in
        let here : key / s ≡ node.index =
          div-eq_of_lt-le s (omega (arith, node.aligned))
            (omega (arith, node.aligned, span-pos level)) in
        let there : q / s ≡ node.index =
          div-eq_of_lt-le s (omega (arith, node.aligned)) (omega (arith, node.aligned)) in
        there ∙ sym here

    -- The address of child `j` does not wrap.
    pub child-value :
        {key level : ℕ}
        → IsNode delta top key (suc level)
        → (j : ℕ) → j ≤ 2 ^ delta
        → add64 key (mul64 j (span delta level)) ≡ key + j * span delta level
    child-value {key} {level} node j h =
        let product = mul_mono j (2 ^ delta) (span delta level) h in
        rw (
          mul64_small j (span delta level)
              (omega (arith, product, span-suc level, node.within, span-top)),
          add64_small key (j * span delta level)
              (omega (arith, product, span-suc level, node.within, span-top)),
        )

    pub child-IsNode :
        {key level : ℕ}
        → IsNode delta top key (suc level)
        → (j : ℕ) → j < 2 ^ delta
        → IsNode delta top (key + j * span delta level) level
    child-IsNode {key} {level} node j h = record {
      index = node.index * 2 ^ delta + j;
      aligned = omega (arith, node.aligned, ap (λ n. node.index * n) (span-suc level));
      within =
          omega
            (arith, mul_mono (suc j) (2 ^ delta) (span delta level) h, span-suc level, node.within);
      level_le = omega (arith, node.level_le);
    }

    -- the child whose keys are next to a key of the node's, counted from the node's first
    abbrev pub slot : (key level q : ℕ) → ℕ
    slot key level q = (q - key) / span delta level

    module _ {key level : ℕ} (node : IsNode delta top key (suc level)) (w : ℕ)
        (small : w < span delta top) where
      -- The last child is the one that `w` belongs to.
      pub aligned_child-inside :
          key ≤ w
          → w < key + span delta (suc level)
          → (m : ℕ) × (m < 2 ^ delta)
            × (key + m * span delta level ≤ w)
            × (w < key + m * span delta level + span delta level)
            × (aligned_child key level w (span delta level) (2 ^ delta)
                ≡ (key + m * span delta level, level) ∷ [])
      unfolding aligned_child not64
      aligned_child-inside lo hi =
          let s = span delta level in
          let m = slot key level w in
          let (below, above) = floor_bounds (w - key) s (span-pos level) in
          let few : m < 2 ^ delta = lt_of_mul-lt-mul_right s (omega (arith, span-suc level)) in
          let at_w : w / s * s ≡ key + m * s =
            ap (λ i. i * s)
              (div-eq_of_lt-le {k = node.index * 2 ^ delta + m} s
                (omega (arith, node.aligned, ap (λ n. node.index * n) (span-suc level)))
                (omega (arith, node.aligned, ap (λ n. node.index * n) (span-suc level))))
            ∙ omega (arith, node.aligned, ap (λ n. node.index * n) (span-suc level)) in
          (
            m,
            few,
            omega arith,
            omega arith,
            rw (
              child-value node (2 ^ delta) (omega arith),
              le→leb key w lo,
              lt→ltb w (key + 2 ^ delta * s) (omega (arith, span-suc level)),
              sub64_small s 1
                  (omega (
                    arith,
                    mul_mono 1 (2 ^ delta) s (pow_pos delta),
                    span-suc level,
                    node.within,
                    span-top,
                  ))
                  (span-pos level),
              bit_and_aligned (level * delta) w
                  (omega (arith, mul_mono level top delta (omega (arith, node.level_le)), deep))
                  (omega (arith, span-top)),
              at_w,
            ),
          )

      pub aligned_child-before :
          w < key → aligned_child key level w (span delta level) (2 ^ delta) ≡ []
      unfolding aligned_child
      aligned_child-before h = rw (lt→leb_false key w h)

      pub aligned_child-after :
          key + span delta (suc level) ≤ w
          → aligned_child key level w (span delta level) (2 ^ delta) ≡ []
      unfolding aligned_child
      aligned_child-after h = rw (
        child-value node (2 ^ delta) (omega arith),
        le→leb key w (omega arith),
        le→ltb_false w (key + 2 ^ delta * span delta level) (omega (arith, span-suc level)),
      )
