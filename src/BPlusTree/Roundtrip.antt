-- ===== src/BPlusTree/Roundtrip.antt =====
-- `remove` and `search` of BPlusTree/bPlusTree.cpp one after the other on a valid tree.
use range_lh_cplus_plus.Base.{ℕ, ◌^◌, ◌≡◌, ◌<◌, refl, ◌==◌, if◌then◌else◌}
use range_lh_cplus_plus.Base.Run.{ok, ◌>>=◌}
use range_lh_cplus_plus.LinearHashing.{nullptr}
use range_lh_cplus_plus.BPlusTree.{BPlusTree, search}
use range_lh_cplus_plus.BPlusTree.Removal.{remove}
use range_lh_cplus_plus.BPlusTree.Records.{search_records-erase_key}
use range_lh_cplus_plus.BPlusTree.Valid.{records-Ascending, IsValid, records}
use range_lh_cplus_plus.BPlusTree.Remove.{remove_tree_lem}
use range_lh_cplus_plus.BPlusTree.Search.{search_tree_lem}

-- On a valid tree, after `remove` of a key below 2^32, `search` for a key below 2^32 gives the
-- null pointer for that key and what it gave before for every other.
pub search-remove :
    (t : BPlusTree) (key q : ℕ)
    → IsValid t
    → key < 2 ^ 32
    → q < 2 ^ 32
    → (remove t key >>= λ r. ok (search r.0 q)) ≡ ok (if key == q then nullptr else search t q)
search-remove t key q v l lq =
    let (after, run, valid, same, order) = remove_tree_lem t key v l in
    rw
      (
        run,
        search_tree_lem after q valid lq,
        same,
        search_records-erase_key key q 0 (2 ^ 32) (records t) (records-Ascending t v),
        search_tree_lem t q v lq,
      )
      refl
