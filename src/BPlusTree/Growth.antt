-- ===== src/BPlusTree/Growth.antt =====
-- The insertion below the root of BPlusTree/bPlusTree.cpp keeps the invariant of the nodes.
use range_lh_cplus_plus.BPlusTree.Node.{IsOrder}
use range_lh_cplus_plus.Base.{
  ℕ, zero, suc, ◌+◌, ◌≡◌, ◌<◌, ◌≤◌, refl, sym, ap, subst, ◌∙◌, arith, List, [], ◌∷◌, ◌++◌, length,
  none, some, leb, Bool-cases, inl, inr,
}
use range_lh_cplus_plus.Base.Run.{ok, ◌>>=◌}
use range_lh_cplus_plus.LinearHashing.{Ptr}
use mathlib.Core.List.{append_assoc}
use range_lh_cplus_plus.BPlusTree.{Record, Leaf, Tree, focus, unfocus, leaves, insert_entry}
use range_lh_cplus_plus.BPlusTree.Insertion.{Split, after_child, insert_below}
use range_lh_cplus_plus.BPlusTree.Removal.{size}
use range_lh_cplus_plus.BPlusTree.Children.{
  lower, upper, before_list, behind_list, length-unfocus, length-focus, Kids, Place, unfocus-Kids,
  insert_entry-unfocus, insert_entry-front,
}
use range_lh_cplus_plus.BPlusTree.Ascent.{
  Ascending, IsNew, IsNew-append, length-insert_entry, insert_entry-Ascending, insert_entry-between,
}
use range_lh_cplus_plus.BPlusTree.Chain.{Relinks, only, Relinks-within}
use range_lh_cplus_plus.BPlusTree.Node.{
  IsNode, IsChild, IsChild-lt, contents, descend, contents-unfocus, contents-focus, leaves-unfocus,
  leaves-focus,
}
use range_lh_cplus_plus.BPlusTree.Splitting.{
  Grows, insert_into_parent_lem, leaves_of_split, split_leaf_lem,
}

-- A node with a child that took records in, from the child's place.
after_child_lem :
    (order h lo hi n : ℕ) (b : List (Tree h × ℕ)) (child : Tree h) (r : List (ℕ × Tree h))
    (records : List Record) (s : Split h)
    → 3 ≤ order
    → Place (IsChild order h) lo hi b child r
    → length b + length r ≡ n
    → n < order
    → Grows order h (lower lo b) (upper hi r) (size h child) records s
    → (t : Split (suc h)) × (after_child order h b s r ≡ ok t)
      × Grows order
          (suc h)
          lo
          hi
          n
          (before_list (contents h) b ++ (records ++ behind_list (contents h) r))
          t
      × (leaves_of_split (suc h) t
          ≡ before_list (leaves h) b ++ (leaves_of_split h s ++ behind_list (leaves h) r))
unfolding after_child size
after_child_lem order h lo hi n b child r records (node, none) three (before, c, behind) e l g =
    let node-IsChild : IsChild order h (lower lo b) (upper hi r) node =
      (c.0, g.0, omega (arith, c.2, g.1)) in
    let long : length (unfocus b node r).1 ≡ n = length-unfocus b node r ∙ e in
    (
      (unfocus b node r, none),
      refl,
      (
        (unfocus-Kids (IsChild order h) lo hi b node r (before, node-IsChild, behind), omega arith),
        omega arith,
        contents-unfocus h b node r
            ∙ ap (λ xs. before_list (contents h) b ++ (xs ++ behind_list (contents h) r)) g.2,
      ),
      leaves-unfocus h b node r,
    )
after_child_lem order h lo hi n b child r records (left, some (key, right)) three
      (before, c, behind) e l g =
    let (first, rest) = unfocus b left r in
    let long : length rest ≡ n = length-unfocus b left r ∙ e in
    let placed : (first, insert_entry key right rest) ≡ unfocus b left ((key, right) ∷ r) =
      insert_entry-unfocus (IsChild order h) lo key right b left r (IsChild-lt order h) before g.0.0
      ∙ ap (λ xs. unfocus b left xs) (insert_entry-front hi key right r (omega (arith, g.1.0))) in
    let kids : Kids (IsChild order h) lo hi first (insert_entry key right rest) =
      subst (λ (p : Tree h × List (ℕ × Tree h)). Kids (IsChild order h) lo hi p.0 p.1) (sym placed)
        (unfocus-Kids (IsChild order h) lo hi b left ((key, right) ∷ r)
          (before, g.0, (g.1, behind))) in
    let all = before_list (contents h) b ++ (records ++ behind_list (contents h) r) in
    let same : contents (suc h) (first, insert_entry key right rest) ≡ all =
      ap (contents (suc h)) placed
      ∙ contents-unfocus h b left ((key, right) ∷ r)
      ∙ ap (λ xs. before_list (contents h) b ++ xs)
          (sym (append_assoc (contents h left) (contents h right) _)
            ∙ ap (λ xs. xs ++ behind_list (contents h) r) g.2) in
    let same_leaves : leaves (suc h) (first, insert_entry key right rest)
        ≡ before_list (leaves h) b
          ++ ((leaves h left ++ leaves h right) ++ behind_list (leaves h) r) =
      ap (leaves (suc h)) placed
      ∙ leaves-unfocus h b left ((key, right) ∷ r)
      ∙ ap (λ xs. before_list (leaves h) b ++ xs)
          (sym (append_assoc (leaves h left) (leaves h right) _)) in
    let (t, run, grows, leaves_) =
      insert_into_parent_lem order h lo hi key right first rest three kids (omega arith) in
    (
      t,
      run,
      subst (λ m. Grows order (suc h) lo hi m all t) long
          (subst (λ xs. Grows order (suc h) lo hi (length rest) xs t) same grows),
      leaves_ ∙ same_leaves,
    )

pub insert_below_lem :
    (order fresh h lo hi key : ℕ) (datum : Ptr) (t : Tree h)
    → IsOrder order
    → IsNode order h lo hi t
    → lo ≤ key
    → key < hi
    → IsNew key (contents h t)
    → (s : Split h) × (insert_below order fresh h t key datum ≡ ok s)
      × Grows order h lo hi (size h t) (insert_entry key datum (contents h t)) s
      × Relinks (only fresh) (leaves h t) (leaves_of_split h s)
unfolding insert_below size contents leaves
insert_below_lem order fresh zero lo hi key datum leaf three (a, n) l u new =
    let records = insert_entry key datum leaf.records in
    let longer : length records ≡ suc (length leaf.records) =
      length-insert_entry key datum leaf.records in
    let sorted : Ascending lo hi records =
      insert_entry-Ascending lo hi key datum leaf.records l u new a in
    let updated : Leaf = record { address = leaf.address; records = records; next = leaf.next } in
    elim (Bool-cases (leb order (length records))) [
      | inl e ↦ rw e (
          split_leaf_lem order fresh lo hi (length leaf.records) updated three sorted
            (ground arith))
      | inr e ↦ rw e (
        (updated, none),
        refl,
        ((sorted, ground arith), omega arith, refl),
        ((λ p q e. e), λ a. ground arith),
      )
    ]
insert_below_lem order fresh (suc h) lo hi key datum (c, r) three v l u new =
    let (before, child, behind) = focus key [] c r in
    let (place, lower_, upper_, low, high) = descend order h lo hi key c r v l u in
    let all = contents-focus h key c r in
    let new_ : IsNew key (contents h child) =
      (IsNew-append key (contents h child) (behind_list (contents h) behind)
        (IsNew-append key (before_list (contents h) before) _ (subst (IsNew key) all new)).1).0 in
    let (s, run, grows, relinks) =
      insert_below_lem order fresh h (lower lo before) (upper hi behind) key datum child three
        place.1.1 lower_ upper_ new_ in
    let (t, after, result, leaves_) =
      after_child_lem order h lo hi (length r) before child behind
        (insert_entry key datum (contents h child)) s three.0 place (length-focus key c r) v.1
        grows in
    let same : before_list (contents h) before
          ++ (insert_entry key datum (contents h child) ++ behind_list (contents h) behind)
        ≡ insert_entry key datum (contents (suc h) (c, r)) =
      sym (
        insert_entry-between lo (lower lo before) (upper hi behind) hi key datum
          (before_list (contents h) before) (contents h child) (behind_list (contents h) behind) low
          lower_ upper_ high)
      ∙ ap (insert_entry key datum) (sym all) in
    let here : List Leaf =
      before_list (leaves h) before ++ (leaves h child ++ behind_list (leaves h) behind) in
    (
      t,
      ap (λ x. x >>= λ s. after_child order h before s behind) run ∙ after,
      subst (λ xs. Grows order (suc h) lo hi (length r) xs t) same result,
      subst (λ xs. Relinks (only fresh) xs (leaves_of_split (suc h) t))
          (sym (leaves-focus h key c r))
          (subst (λ xs. Relinks (only fresh) here xs) (sym leaves_)
            (Relinks-within (only fresh) (before_list (leaves h) before) (leaves h child)
              (leaves_of_split h s) (behind_list (leaves h) behind) relinks)),
    )
