-- ===== src/RangeLh/Adjacent.antt =====
-- The two searches of Implement/rangeLH.cpp end in the neighbours of a key.
use range_lh_cplus_plus.Base.{ℕ, suc, ◌+◌, ◌≤◌, ◌<◌, ◌≡◌, subst, arith, none}
use range_lh_cplus_plus.Base.Run.{ok}
use range_lh_cplus_plus.LinearHashing.{Ptr}
use range_lh_cplus_plus.BloomRf.{get_max_level}
use range_lh_cplus_plus.RangeLh.{
  RangeLh, get_right_adjacent_worker, get_left_adjacent_worker, adjacent_worker,
}
use range_lh_cplus_plus.RangeLh.ChildLists.{get_left_children_list, get_right_children_list}
use range_lh_cplus_plus.RangeLh.Search.{Reads, Guides, search_lem}
use range_lh_cplus_plus.RangeLh.Nodes.{span, span-zero, IsNode, IsNode-prefix}
use range_lh_cplus_plus.RangeLh.Right.{Right, Right-empty, Right-drop, Right-hit, IsSuccessor}
use range_lh_cplus_plus.RangeLh.LeftChildren.{Left-expand}
use range_lh_cplus_plus.RangeLh.RightChildren.{Right-expand}
use range_lh_cplus_plus.RangeLh.Left.{Left, Left-empty, Left-drop, Left-hit, IsPredecessor}

only : (delta key q : ℕ) → key ≤ q → q < key + span delta 0 → key ≡ q
only delta key q lo hi = omega (arith, span-zero delta)

root-IsNode : (delta top : ℕ) → IsNode delta top 0 top
root-IsNode delta top = record {
  index = 0;
  aligned = omega arith;
  within = omega arith;
  level_le = omega arith;
}

module _ {D : Type 0} (t : RangeLh D) (find : ℕ → Ptr) (w : ℕ) (r : Reads t find)
    (small : w < span t.delta_bloom_rf (get_max_level t.bloom_rf)) (absent : find w ≡ none) where
  Left-Guides :
      Guides t
        (λ key level. get_left_children_list t.delta_bloom_rf key level w)
        find
        (Left find w t.delta_bloom_rf (get_max_level t.bloom_rf))
        (IsPredecessor find w)
  Left-Guides =
      let delta = t.delta_bloom_rf in
      let top = get_max_level t.bloom_rf in
      record {
        reads = r;
        known = λ key level stack (hi, clear, (node, le, c, rest)).
            omega (arith, node.level_le, r.levels);
        empty = Left-empty find w delta top;
        hit = λ key p stack inv found. Left-hit find w delta top key p stack inv absent found;
        miss = λ key stack inv none_here.
            Left-drop find w delta top key 0 stack inv
              (λ q a b. subst (λ x. find x ≡ none) (only delta key q a b) none_here);
        skip = λ key level stack inv none_here.
            Left-drop find w delta top key (suc level) stack inv
              (λ q a b. none_here q (IsNode-prefix delta top r.deep inv.2.0 q a b));
        expand = λ key level stack inv.
            Left-expand find w delta top r.deep small inv.2.0 stack r.narrow inv;
      }

  -- If lookups in the table are given by a function, the filter passes for every prefix of a
  -- stored key, every stored key is below 2^(max_level * delta), delta and max_level * delta are
  -- below 64 and max_level is a level, then for a key below 2^(max_level * delta) without a worker
  -- the left search ends, within the rounds that the model gives it, in the worker of the largest
  -- stored key below it, or in none if there is none.
  pub get_left_adjacent_worker_lem :
      (p : Ptr) × (get_left_adjacent_worker t w ≡ ok p) × IsPredecessor find w p
  unfolding get_left_adjacent_worker adjacent_worker
  get_left_adjacent_worker_lem = search_lem t _ find Left-Guides _ _ (omega arith) (
    w,
    λ q a b below. absurd (omega arith),
    (
      root-IsNode _ _,
      omega arith,
      λ q a b below. absurd (omega arith),
      λ q a b below. absurd (omega arith),
    ),
  )

  Right-Guides :
      Guides t
        (λ key level. get_right_children_list t.delta_bloom_rf key level w)
        find
        (Right find w t.delta_bloom_rf (get_max_level t.bloom_rf))
        (IsSuccessor find w)
  Right-Guides =
      let delta = t.delta_bloom_rf in
      let top = get_max_level t.bloom_rf in
      record {
        reads = r;
        known = λ key level stack (hi, clear, (node, le, c, rest)).
            omega (arith, node.level_le, r.levels);
        empty = Right-empty find w delta top;
        hit = λ key p stack inv found. Right-hit find w delta top key p stack inv absent found;
        miss = λ key stack inv none_here.
            Right-drop find w delta top key 0 stack inv
              (λ q a b. subst (λ x. find x ≡ none) (only delta key q a b) none_here);
        skip = λ key level stack inv none_here.
            Right-drop find w delta top key (suc level) stack inv
              (λ q a b. none_here q (IsNode-prefix delta top r.deep inv.2.0 q a b));
        expand = λ key level stack inv.
            Right-expand find w delta top r.deep small inv.2.0 stack r.narrow inv;
      }

  -- If lookups in the table are given by a function, the filter passes for every prefix of a
  -- stored key, every stored key is below 2^(max_level * delta), delta and max_level * delta are
  -- below 64 and max_level is a level, then for a key below 2^(max_level * delta) without a worker
  -- the right search ends, within the rounds that the model gives it, in the worker of the least
  -- stored key above it, or in none if there is none.
  pub get_right_adjacent_worker_lem :
      (p : Ptr) × (get_right_adjacent_worker t w ≡ ok p) × IsSuccessor find w p
  unfolding get_right_adjacent_worker adjacent_worker
  get_right_adjacent_worker_lem = search_lem t _ find Right-Guides _ _ (omega arith) (
    0,
    λ q a b above. absurd (omega arith),
    (
      root-IsNode _ _,
      omega (arith, small),
      λ q a b above. absurd (omega arith),
      λ q a above. r.inside q (omega arith),
    ),
  )
