-- ===== src/BPlusTree/Removing.antt =====
-- A parent in BPlusTree/bPlusTree.cpp after a removal from one of its children.
use range_lh_cplus_plus.Base.{
  ℕ, suc, ◌+◌, ◌≡◌, ◌<◌, ◌≤◌, refl, ap, ◌∙◌, arith, List, length, Bool, true, false,
}
use range_lh_cplus_plus.Base.Run.{ok}
use range_lh_cplus_plus.BPlusTree.{Record, Tree, leaves, unfocus}
use range_lh_cplus_plus.BPlusTree.Removal.{size, after_removal}
use range_lh_cplus_plus.BPlusTree.Children.{lower, upper, before_list, behind_list, Place}
use range_lh_cplus_plus.BPlusTree.Chain.{nowhere, Relinks-within, Relinks-trans}
use range_lh_cplus_plus.BPlusTree.Node.{IsChild, contents}
use range_lh_cplus_plus.BPlusTree.Parent.{Shrinks, around, unchanged_lem}
use range_lh_cplus_plus.BPlusTree.Underflow.{handle_underflow_lem}

-- A parent after a removal from a child, in the child's place.
pub after_removal_lem :
    (order h lo hi n : ℕ) (b : List (Tree h × ℕ)) (child : Tree h) (r : List (ℕ × Tree h))
    (rs : List Record) (s : Tree h × Bool)
    → 3 ≤ order
    → 0 < n
    → n < order
    → n ≡ length b + length r
    → Place (IsChild order h) lo hi b child r
    → Shrinks order h (lower lo b) (upper hi r) (size h child) rs (leaves h child) s
    → (t : Tree (suc h) × Bool) × (after_removal order h b s r ≡ ok t)
      × Shrinks order
          (suc h)
          lo
          hi
          n
          (around (contents h) b rs r)
          (around (leaves h) b (leaves h child) r)
          t
unfolding after_removal
after_removal_lem order h lo hi n b child r rs (node, true) three some_key most count
      (before, (w, v, long), behind) (v_, keys, same, links) =
    let (t, run, (vt, nt, ct, lt)) =
      handle_underflow_lem order h lo hi n b node r three some_key most count before w v_
        (omega arith) behind in
    (
      t,
      run,
      (
        vt,
        nt,
        ct ∙ ap (λ xs. around (contents h) b xs r) same,
        Relinks-trans _ _ _
            (Relinks-within nowhere (before_list (leaves h) b) (leaves h child) (leaves h node)
              (behind_list (leaves h) r) links)
            lt,
      ),
    )
after_removal_lem order h lo hi n b child r rs (node, false) three some_key most count
      (before, (w, v, long), behind) (v_, keys, same, links) =
    let (vt, nt, ct, lt) =
      unchanged_lem order h lo hi n b node r most count (before, (w, v_, omega arith), behind) in
    (
      (unfocus b node r, false),
      refl,
      (
        vt,
        nt,
        ct ∙ ap (λ xs. around (contents h) b xs r) same,
        Relinks-trans _ _ _
            (Relinks-within nowhere (before_list (leaves h) b) (leaves h child) (leaves h node)
              (behind_list (leaves h) r) links)
            lt,
      ),
    )
