-- ===== src/BPlusTree/Remove.antt =====
-- `remove` of BPlusTree/bPlusTree.cpp on a valid tree.
use range_lh_cplus_plus.Base.{
  ℕ, zero, suc, ◌-◌, ◌^◌, ◌≡◌, ◌<◌, ◌≤◌, refl, sym, ap, subst, ◌∙◌, arith, List, [], ◌∷◌, length,
  Option, none, some, Bool, true, false, Bool-cases, inl, inr, ◌==◌, ==→eq, ==_false→ne,
}
use range_lh_cplus_plus.Base.Run.{ok, ◌>>=◌}
use range_lh_cplus_plus.LinearHashing.{nullptr}
use range_lh_cplus_plus.BPlusTree.{Record, Leaf, Tree, Root, BPlusTree, leaves, focus}
use range_lh_cplus_plus.BPlusTree.Removal.{
  size, min_keys, after_removal, remove_below, has_key, erase_key, handle_underflow_root,
  root_after_removal, with_root, remove, remove_from, with_records,
}
use range_lh_cplus_plus.BPlusTree.Children.{lower, upper, before_list, behind_list, length-focus}
use range_lh_cplus_plus.BPlusTree.Records.{
  erase_key-Ascending, length-erase_key, erase_key-between, has_key-between,
}
use range_lh_cplus_plus.BPlusTree.Chain.{Relinks, nowhere}
use range_lh_cplus_plus.BPlusTree.Node.{
  IsNode, contents, contents-focus, leaves-focus, descend, has_key-find_leaf,
}
use range_lh_cplus_plus.BPlusTree.Parent.{Shrinks, Shrinks-along, around}
use range_lh_cplus_plus.BPlusTree.Valid.{IsChain, IsRoot, IsValid, records, root_contents}
use range_lh_cplus_plus.BPlusTree.Removing.{after_removal_lem}

erase_key_absent : (key : ℕ) (rs : List Record) → has_key key rs ≡ false → erase_key key rs ≡ rs
unfolding has_key erase_key
erase_key_absent key [] e = refl
erase_key_absent key ((k, d) ∷ rs) e = elim (Bool-cases (k == key)) [
  | inl f ↦ absurd (ground arith)
  | inr f ↦ rw f (ap (λ xs. (k, d) ∷ xs) (erase_key_absent key rs (rw f at e)))
]

length_zero : {A : Type 0} (xs : List A) → length xs ≡ 0 → xs ≡ []
length_zero [] e = refl
length_zero (x ∷ xs) e = absurd (omega arith)

min_keys-positive : (order : ℕ) → 3 ≤ order → 0 < min_keys order
unfolding min_keys
min_keys-positive order three = omega arith

remove_below_lem :
    (order h lo hi key : ℕ) (t : Tree h)
    → 3 ≤ order
    → IsNode order h lo hi t
    → 0 < size h t
    → lo ≤ key
    → key < hi
    → has_key key (contents h t) ≡ true
    → (s : Tree h × Bool) × (remove_below order h t key ≡ ok s)
      × Shrinks order h lo hi (size h t) (erase_key key (contents h t)) (leaves h t) s
unfolding remove_below size contents leaves
remove_below_lem order zero lo hi key leaf three (a, n) some_key l u here =
    let shorter = length-erase_key key leaf.records here in
    (
      (with_records leaf (erase_key key leaf.records), true),
      refl,
      (
        (erase_key-Ascending lo hi key leaf.records a, omega (arith, shorter)),
        omega (arith, shorter),
        refl,
        ((λ p q s. s), λ a. omega arith),
      ),
    )
remove_below_lem order (suc h) lo hi key (c, r) three v some_key l u here =
    let (before, child, behind) = focus key [] c r in
    let (place, lower_, upper_, low, high) = descend order h lo hi key c r v l u in
    let all = contents-focus h key c r in
    let here_ : has_key key (contents h child) ≡ true =
      sym (
        has_key-between lo (lower lo before) (upper hi behind) hi key
          (before_list (contents h) before) (contents h child) (behind_list (contents h) behind) low
          lower_ upper_ high)
      ∙ ap (has_key key) (sym all)
      ∙ here in
    let keys : 0 < size h child = omega (arith, min_keys-positive order three, place.1.2) in
    let (s, run, shrinks) =
      remove_below_lem order h (lower lo before) (upper hi behind) key child three place.1.1 keys
        lower_ upper_ here_ in
    let (t, after, result) =
      after_removal_lem order h lo hi (length r) before child behind
        (erase_key key (contents h child)) s three some_key v.1 (sym (length-focus key c r)) place
        shrinks in
    let same : around (contents h) before (erase_key key (contents h child)) behind
        ≡ erase_key key (contents (suc h) (c, r)) =
      sym (
        erase_key-between lo (lower lo before) (upper hi behind) hi key
          (before_list (contents h) before) (contents h child) (behind_list (contents h) behind) low
          lower_ upper_ high)
      ∙ ap (erase_key key) (sym all) in
    (
      t,
      ap (λ x. x >>= λ s. after_removal order h before s behind) run ∙ after,
      Shrinks-along order (suc h) lo hi (length r) _ _ _ _ t same (sym (leaves-focus h key c r))
          result,
    )

Relinks-IsChain :
    (fresh : ℕ) (old changed : List Leaf)
    → Relinks nowhere old changed
    → IsChain fresh old
    → IsChain fresh changed
Relinks-IsChain fresh old changed (links, counts) ((p, s), once, unused) = (
  (p, links p nullptr s),
  (λ a. omega (arith, counts a, once a)),
  λ a l. omega (arith, counts a, unused a l),
)

root_lem :
    (order count fresh h n : ℕ) (rs : List Record) (ls : List Leaf) (s : Tree h × Bool)
    → 3 ≤ order
    → 0 < n
    → Shrinks order h 0 (2 ^ 32) n rs ls s
    → 0 < length rs
    → count ≡ length rs
    → IsChain fresh ls
    → IsRoot order count fresh (some (root_after_removal h s))
      × (root_contents (some (root_after_removal h s)) ≡ rs)
unfolding root_after_removal handle_underflow_root contents leaves size
root_lem order count fresh zero n rs ls (leaf, true) three pos (v, keys, same, links) few e chain =
    (
      (
        v,
        omega (arith, ap length same),
        e ∙ ap length (sym same),
        Relinks-IsChain fresh ls (leaves 0 leaf) links chain,
      ),
      same,
    )
root_lem order count fresh zero n rs ls (leaf, false) three pos (v, keys, same, links) few e chain =
    (
      (
        v,
        omega (arith, ap length same),
        e ∙ ap length (sym same),
        Relinks-IsChain fresh ls (leaves 0 leaf) links chain,
      ),
      same,
    )
root_lem order count fresh (suc h) n rs ls ((c, r), false) three pos (v, keys, same, links) few e
      chain =
    ((v, omega arith, e ∙ ap length (sym same), Relinks-IsChain fresh ls _ links chain), same)
root_lem order count fresh (suc h) n rs ls ((c, []), true) three pos (v, keys, same, links) few e
      chain =
    (
      (
        v.0.0.1,
        omega (arith, min_keys-positive order three, v.0.0.2),
        e ∙ ap length (sym same),
        Relinks-IsChain fresh ls _ links chain,
      ),
      same,
    )
root_lem order count fresh (suc h) n rs ls ((c, x ∷ r), true) three pos (v, keys, same, links) few e
      chain =
    ((v, omega arith, e ∙ ap length (sym same), Relinks-IsChain fresh ls _ links chain), same)

remove_at :
    (t : BPlusTree) (root : Option Root) (key : ℕ)
    → t.root ≡ root
    → 3 ≤ t.order
    → IsRoot t.order t.count t.fresh root
    → key < 2 ^ 32
    → (after : BPlusTree) × (remove_from t root key ≡ ok (after, has_key key (root_contents root)))
      × IsRoot after.order after.count after.fresh after.root
      × (records after ≡ erase_key key (root_contents root))
      × (after.order ≡ t.order)
unfolding remove_from has_key erase_key with_root
remove_at t none key e three v l =
    (t, refl, subst (IsRoot t.order t.count t.fresh) (sym e) v, ap root_contents e, refl)
remove_at t (some (h, node)) key e three (v, pos, long, chain) l =
    let found = has_key-find_leaf t.order h 0 (2 ^ 32) key node v (omega arith) l in
    elim (Bool-cases (has_key key (contents h node))) [
      | inr absent ↦ (
        t,
        rw (found, absent) refl,
        subst (IsRoot t.order t.count t.fresh) (sym e) (v, pos, long, chain),
        ap root_contents e ∙ sym (erase_key_absent key (contents h node) absent),
        refl,
      )
      | inl here ↦
          let rest = erase_key key (contents h node) in
          let shorter = length-erase_key key (contents h node) here in
          let (s, run, shrinks) =
            remove_below_lem t.order h 0 (2 ^ 32) key node three v pos (omega arith) l here in
          elim (Bool-cases (t.count == 1)) [
            | inl last ↦ (
              with_root t none,
              rw (found, here, last) refl,
              omega (arith, ==→eq t.count 1 last),
              sym (length_zero rest (omega (arith, long, shorter, ==→eq t.count 1 last))),
              refl,
            )
            | inr more ↦
                let left : t.count - 1 ≡ length rest = omega (arith, long, shorter) in
                let some_left : 0 < length rest =
                  omega (arith, long, shorter, ==_false→ne t.count 1 more) in
                let (valid, same) =
                  root_lem t.order (t.count - 1) t.fresh h (size h node) rest (leaves h node) s
                    three pos shrinks some_left left chain in
                (
                  with_root t (some (root_after_removal h s)),
                  rw (found, here, more, run) refl,
                  valid,
                  same,
                  refl,
                )
          ]
    ]

-- On a valid tree, for every key below 2^32, `remove` is defined and says whether the tree had the
-- key; the result is valid again, its records are those of the tree without the one under the key,
-- and the order is the same.
pub remove_tree_lem :
    (t : BPlusTree) (key : ℕ)
    → IsValid t
    → key < 2 ^ 32
    → (after : BPlusTree) × (remove t key ≡ ok (after, has_key key (records t)))
      × IsValid after
      × (records after ≡ erase_key key (records t))
      × (after.order ≡ t.order)
unfolding remove
remove_tree_lem t key (three, v) l =
    let (after, run, valid, same, order) = remove_at t t.root key refl three.0 v l in
    (after, run, (rw order three, valid), same, order)
