-- ===== src/BPlusTree/Search.antt =====
-- `search` of BPlusTree/bPlusTree.cpp on a valid tree, and after an insertion.
use range_lh_cplus_plus.Base.{
  ℕ, ◌^◌, ◌≡◌, ◌<◌, refl, sym, ◌∙◌, arith, List, [], ◌∷◌, Option, none, some, ◌==◌, if◌then◌else◌,
  Bool-cases, inl, inr, ltb, ne→==_false, ==→eq,
}
use range_lh_cplus_plus.Base.Run.{ok, ◌>>=◌}
use range_lh_cplus_plus.Base.Ints.{int_max}
use range_lh_cplus_plus.LinearHashing.{Ptr}
use range_lh_cplus_plus.BPlusTree.{Record, Root, BPlusTree, search, search_records, insert_entry}
use range_lh_cplus_plus.BPlusTree.Insertion.{insert}
use range_lh_cplus_plus.BPlusTree.Node.{search_records-find_leaf}
use range_lh_cplus_plus.BPlusTree.Ascent.{IsNew}
use range_lh_cplus_plus.BPlusTree.Valid.{IsValid, IsRoot, records, root_contents}
use range_lh_cplus_plus.BPlusTree.Insert.{insert_tree_lem}

search_at :
    (t : BPlusTree) (root : Option Root) (key : ℕ)
    → t.root ≡ root
    → IsRoot t.order t.count t.fresh root
    → key < 2 ^ 32
    → search t key ≡ search_records key (root_contents root)
unfolding search search_records
search_at t none key e v l = rw e refl
search_at t (some (h, node)) key e v l =
    rw e (search_records-find_leaf t.order h 0 (2 ^ 32) key node v.0 (omega arith) l)

-- On a valid tree, for a key below 2^32, `search` in the one leaf that the separators lead to
-- gives what a scan of all records of the tree gives.
pub search_tree_lem :
    (t : BPlusTree) (key : ℕ)
    → IsValid t
    → key < 2 ^ 32
    → search t key ≡ search_records key (records t)
search_tree_lem t key v l = search_at t t.root key refl v.1 l

-- the data of a key after an insertion
pub search_records-insert_entry :
    (key : ℕ) (datum : Ptr) (q : ℕ) (rs : List Record)
    → IsNew key rs
    → search_records q (insert_entry key datum rs)
      ≡ (if key == q then datum else search_records q rs)
unfolding search_records insert_entry
search_records-insert_entry key datum q [] n = refl
search_records-insert_entry key datum q ((k, d) ∷ rs) (ne, n) =
    let ih = search_records-insert_entry key datum q rs n in
    elim (Bool-cases (ltb k key)) [
      | inr e ↦ rw e refl
      | inl e ↦ elim (Bool-cases (k == q)) [
        | inl f ↦ rw (e, f, ne→==_false key q (λ x. ne (==→eq k q f ∙ sym x))) refl
        | inr f ↦ rw (e, f) ih
      ]
    ]

-- On a valid tree with a count below 2^31 - 1, after `insert` of a key below 2^32 that the tree
-- does not have, `search` for a key below 2^32 gives the new data for that key and what it gave
-- before for every other.
pub search-insert :
    (t : BPlusTree) (key q : ℕ) (datum : Ptr)
    → IsValid t
    → key < 2 ^ 32
    → q < 2 ^ 32
    → IsNew key (records t)
    → t.count < int_max
    → (insert t key datum >>= λ after. ok (search after q))
      ≡ ok (if key == q then datum else search t q)
search-insert t key q datum v l lq new room =
    let (after, run, (valid, same, order, count)) = insert_tree_lem t key datum v l new room in
    rw
      (
        run,
        search_tree_lem after q valid lq,
        same,
        search_records-insert_entry key datum q (records t) new,
        search_tree_lem t q v lq,
      )
      refl
