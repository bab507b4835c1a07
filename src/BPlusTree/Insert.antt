-- ===== src/BPlusTree/Insert.antt =====
-- `insert` of BPlusTree/bPlusTree.cpp on a valid tree.
use range_lh_cplus_plus.BPlusTree.Node.{IsOrder}
use range_lh_cplus_plus.Base.{
  ℕ, suc, ◌^◌, ◌≡◌, ◌<◌, ◌≤◌, refl, sym, ap, ◌∙◌, arith, List, [], ◌∷◌, length, Option, none, some,
  ne→==_false,
}
use range_lh_cplus_plus.Base.Run.{ok}
use range_lh_cplus_plus.Base.Ints.{int_max}
use range_lh_cplus_plus.LinearHashing.{Ptr, nullptr}
use range_lh_cplus_plus.BPlusTree.{Record, Leaf, Root, BPlusTree, leaves, insert_entry}
use range_lh_cplus_plus.BPlusTree.Insertion.{Split, new_root, insert}
use range_lh_cplus_plus.BPlusTree.Removal.{size}
use range_lh_cplus_plus.BPlusTree.Node.{contents}
use range_lh_cplus_plus.BPlusTree.Chain.{Relinks, only}
use range_lh_cplus_plus.BPlusTree.Ascent.{IsNew, length-insert_entry}
use range_lh_cplus_plus.BPlusTree.Splitting.{Grows, leaves_of_split}
use range_lh_cplus_plus.BPlusTree.Growth.{insert_below_lem}
use range_lh_cplus_plus.BPlusTree.Valid.{IsChain, IsRoot, IsValid, records, root_contents}

Relinks-IsChain :
    (fresh : ℕ) (old changed : List Leaf)
    → Relinks (only fresh) old changed
    → IsChain fresh old
    → IsChain (suc fresh) changed
Relinks-IsChain fresh old changed (links, counts) ((p, s), once, unused) = (
  (p, links p nullptr s),
  (λ a. ground (arith, counts a, once a, unused a)),
  λ a l. ground (arith, counts a, unused a),
)

new_root_lem :
    (order fresh h n count : ℕ) (rs : List Record) (old : List Leaf) (s : Split h)
    → 3 ≤ order
    → 0 < n
    → Grows order h 0 (2 ^ 32) n rs s
    → count ≡ length rs
    → Relinks (only fresh) old (leaves_of_split h s)
    → IsChain fresh old
    → IsRoot order count (suc fresh) (some (new_root h s))
      × (root_contents (some (new_root h s)) ≡ rs)
unfolding new_root contents leaves size
new_root_lem order fresh h n count rs old (node, none) three pos (v, l, same) e links chain =
    ((v, omega arith, e ∙ ap length (sym same), Relinks-IsChain fresh old _ links chain), same)
new_root_lem order fresh h n count rs old (left, some (key, right)) three pos (l, r, same) e links
      chain =
    ((
      (
        ((l, (r, tt)), omega arith),
        omega arith,
        e ∙ ap length (sym same),
        Relinks-IsChain fresh old _ links chain,
      ),
      same,
    ))

-- the outcome of the insertion of a new key
abbrev pub Inserts : BPlusTree → (key : ℕ) → (datum : Ptr) → BPlusTree → Type 0
Inserts t key datum after =
    IsValid after
    × (records after ≡ insert_entry key datum (records t))
    × (after.order ≡ t.order)
    × (after.count ≡ suc t.count)

insert_at :
    (t : BPlusTree) (root : Option Root) (key : ℕ) (datum : Ptr)
    → t.root ≡ root
    → IsOrder t.order
    → IsRoot t.order t.count t.fresh root
    → key < 2 ^ 32
    → IsNew key (root_contents root)
    → t.count < int_max
    → (after : BPlusTree) × (insert t key datum ≡ ok after)
      × IsRoot after.order after.count after.fresh after.root
      × (records after ≡ insert_entry key datum (root_contents root))
      × (after.order ≡ t.order)
      × (after.count ≡ suc t.count)
unfolding insert insert_entry size contents leaves
insert_at t none key datum e three v l new room =
    let leaf : Leaf = record { address = t.fresh; records = (key, datum) ∷ []; next = nullptr } in
    (
      record { root = some (0, leaf); order = t.order; count = suc t.count; fresh = suc t.fresh },
      rw (ne→==_false t.count int_max (λ x. omega arith), e) refl,
      (
        ((omega arith, omega arith), omega arith),
        omega arith,
        ap suc v,
        ((some t.fresh, (refl, refl)), (λ a. ground arith), λ a l. ground arith),
      ),
      refl,
      refl,
      refl,
    )
insert_at t (some (h, node)) key datum e three (v, pos, long, chain) l new room =
    let (s, run, grows, links) =
      insert_below_lem t.order t.fresh h 0 (2 ^ 32) key datum node three v (omega arith) l new in
    let (valid, same) =
      new_root_lem t.order t.fresh h (size h node) (suc t.count)
        (insert_entry key datum (contents h node)) (leaves h node) s three.0 pos grows
        (omega (arith, long, length-insert_entry key datum (contents h node))) links chain in
    (
      record {
        root = some (new_root h s);
        order = t.order;
        count = suc t.count;
        fresh = suc t.fresh;
      },
      rw (ne→==_false t.count int_max (λ x. omega arith), e, run) refl,
      valid,
      same,
      refl,
      refl,
    )

-- On a valid tree, for a key below 2^32 that the tree does not have and a count below 2^31 - 1,
-- `insert` is defined; the result is valid again (separators and keys in order, every node filled
-- between its bounds, the leaves chained from left to right), its records are those of the tree
-- with the new one at its place, the order is the same and the count one more.
pub insert_tree_lem :
    (t : BPlusTree) (key : ℕ) (datum : Ptr)
    → IsValid t
    → key < 2 ^ 32
    → IsNew key (records t)
    → t.count < int_max
    → (after : BPlusTree) × (insert t key datum ≡ ok after) × Inserts t key datum after
insert_tree_lem t key datum (three, v) l new room =
    let (after, run, valid, same, order, count) =
      insert_at t t.root key datum refl three v l new room in
    (after, run, ((rw order three, valid), same, order, count))
