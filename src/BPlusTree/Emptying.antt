-- ===== src/BPlusTree/Emptying.antt =====
-- Removals of BPlusTree/bPlusTree.cpp one after the other, down to the empty tree.
use range_lh_cplus_plus.Base.{
  ℕ, ◌^◌, ◌≡◌, ◌<◌, refl, ap, subst, ◌∙◌, arith, List, [], ◌∷◌, All, ◌==◌, none, if◌then◌else◌,
  Bool-cases, inl, inr, Bool, true, false, ◌||◌, eq→==,
}
use range_lh_cplus_plus.Base.Run.{Run, ok, ◌>>=◌}
use range_lh_cplus_plus.BPlusTree.{Record, BPlusTree, is_empty}
use range_lh_cplus_plus.BPlusTree.Removal.{remove, has_key}
use range_lh_cplus_plus.BPlusTree.Records.{has_key-erase_key}
use range_lh_cplus_plus.BPlusTree.Valid.{records-Ascending, IsValid, IsRoot, records}
use range_lh_cplus_plus.BPlusTree.Remove.{remove_tree_lem}
use range_lh_cplus_plus.BPlusTree.Height.{no-records}

unfoldable pub remove_keys : List ℕ → BPlusTree → Run BPlusTree
remove_keys [] t = ok t
remove_keys (key ∷ keys) t = remove t key >>= λ r. remove_keys keys r.0

abbrev pub elem : (q : ℕ) → List ℕ → Bool
elem q [] = false
elem q (k ∷ ks) = (k == q) || elem q ks

remove_keys_lem :
    (keys : List ℕ) (t : BPlusTree)
    → IsValid t
    → All (λ k. k < 2 ^ 32) keys
    → (after : BPlusTree) × (remove_keys keys t ≡ ok after)
      × IsValid after
      × ((q : ℕ)
          → has_key q (records after) ≡ (if elem q keys then false else has_key q (records t)))
unfolding remove_keys
remove_keys_lem [] t v a = (t, refl, v, λ q. refl)
remove_keys_lem (key ∷ keys) t v (l, a) =
    let (next, run, valid, same, order) = remove_tree_lem t key v l in
    let (after, runs, valid_, left) = remove_keys_lem keys next valid a in
    (
      after,
      rw run runs,
      valid_,
      λ q.
          let gone =
            ap (has_key q) same
            ∙ has_key-erase_key key q 0 (2 ^ 32) (records t) (records-Ascending t v) in
          left q ∙ elim (Bool-cases (key == q)) [
            | inl e ↦ rw e (rw (gone, e) (ground arith))
            | inr e ↦ rw e (rw (gone, e) refl)
          ],
    )

no-keys : (rs : List Record) → ((q : ℕ) → has_key q rs ≡ false) → rs ≡ []
unfolding has_key
no-keys [] h = refl
no-keys ((k, d) ∷ rs) h =
    let here : (if k == k then true else has_key k rs) ≡ false = h k in
    absurd (ground (arith, here, eq→== k k refl))

is_empty-none : (t : BPlusTree) → t.root ≡ none → is_empty t ≡ true
unfolding is_empty
is_empty-none t e = rw e refl

-- On a valid tree, removals of keys below 2^32, in any order and with keys that the tree does not
-- have among them, end in an empty tree with a count of 0 if every key of the tree is one of them.
pub remove_keys-is_empty :
    (t : BPlusTree) (keys : List ℕ)
    → IsValid t
    → All (λ k. k < 2 ^ 32) keys
    → ((q : ℕ) → has_key q (records t) ≡ true → elem q keys ≡ true)
    → (after : BPlusTree) × (remove_keys keys t ≡ ok after)
      × (is_empty after ≡ true)
      × (after.count ≡ 0)
remove_keys-is_empty t keys v a all =
    let (after, run, valid, left) = remove_keys_lem keys t v a in
    let gone : records after ≡ [] = no-keys (records after) (λ q.
      left q ∙ elim (Bool-cases (has_key q (records t))) [
        | inl e ↦ rw (all q e) refl
        | inr e ↦ rw e (ground arith)
      ]) in
    let empty = no-records after.order after.count after.fresh after.root valid.0.0 valid.1 gone in
    (
      after,
      run,
      is_empty-none after empty,
      subst (IsRoot after.order after.count after.fresh) empty valid.1,
    )
