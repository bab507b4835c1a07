-- ===== src/BPlusTree/Refinement.antt =====
-- Any sequence of calls on a tree of BPlusTree/bPlusTree.h answers as one on a sorted list of
-- records does.
use range_lh_cplus_plus.Base.{
  ℕ, ◌^◌, ◌≡◌, ◌<◌, refl, sym, ap, subst, ◌∙◌, arith, List, [], ◌∷◌, length, Bool, map, Option,
  none, some,
}
use range_lh_cplus_plus.Base.Run.{Run, ok, ◌>>=◌}
use range_lh_cplus_plus.Base.Ints.{int_max}
use range_lh_cplus_plus.LinearHashing.{Ptr}
use range_lh_cplus_plus.BPlusTree
use range_lh_cplus_plus.BPlusTree.{Record, BPlusTree, Root, new, insert_entry, search_records}
use range_lh_cplus_plus.BPlusTree.Insertion.{insert}
use range_lh_cplus_plus.BPlusTree.Removal.{remove, has_key, erase_key}
use range_lh_cplus_plus.BPlusTree.Ascent.{IsNew}
use range_lh_cplus_plus.BPlusTree.Walk.{data_between}
use range_lh_cplus_plus.BPlusTree.Valid.{IsValid, IsRoot, records, root_contents, new-IsValid}
use range_lh_cplus_plus.BPlusTree.Insert.{insert_tree_lem}
use range_lh_cplus_plus.BPlusTree.Remove.{remove_tree_lem}
use range_lh_cplus_plus.BPlusTree.Search.{search_tree_lem}
use range_lh_cplus_plus.BPlusTree.Range.{range_search_lem, get_all_lem}

pub data Call : Type 0 where
  inserts : (key : ℕ) (datum : Ptr) → Call
  removes : (key : ℕ) → Call
  searches : (key : ℕ) → Call
  ranges : (key_start key_end : ℕ) → Call
  lists : Call

pub data Answer : Type 0 where
  done : Answer
  removed : Bool → Answer
  found : Ptr → Answer
  values : List Ptr → Answer
  keys : List ℕ → Answer

unfoldable pub call : Call → BPlusTree → Run (BPlusTree × Answer)
call (inserts key datum) t = insert t key datum >>= λ after. ok (after, done)
call (removes key) t = remove t key >>= λ r. ok (r.0, removed r.1)
call (searches key) t = ok (t, found (BPlusTree.search t key))
call (ranges lo hi) t = BPlusTree.range_search t lo hi >>= λ ds. ok (t, values ds)
call lists t = BPlusTree.get_all_keys_in_order t >>= λ ks. ok (t, keys ks)

unfoldable pub calls : List Call → BPlusTree → Run (List Answer)
calls [] t = ok []
calls (c ∷ cs) t = do r ← call c t; answers ← calls cs r.0; ok (r.1 ∷ answers)

-- the specification: records in ascending order of the keys
abbrev pub after : Call → List Record → List Record
after (inserts key datum) rs = insert_entry key datum rs
after (removes key) rs = erase_key key rs
after (searches key) rs = rs
after (ranges lo hi) rs = rs
after lists rs = rs

abbrev pub answer : Call → List Record → Answer
answer (inserts key datum) rs = done
answer (removes key) rs = removed (has_key key rs)
answer (searches key) rs = found (search_records key rs)
answer (ranges lo hi) rs = values (data_between lo hi rs)
answer lists rs = keys (map (λ r. r.0) rs)

abbrev pub answers : List Call → List Record → List Answer
answers [] rs = []
answers (c ∷ cs) rs = answer c rs ∷ answers cs (after c rs)

-- Keys fit in 32 bits; an inserted key is new, and the count has room for it.
abbrev pub IsAllowed : Call → List Record → Type 0
IsAllowed (inserts key datum) rs = (key < 2 ^ 32) × IsNew key rs × (length rs < int_max)
IsAllowed (removes key) rs = key < 2 ^ 32
IsAllowed (searches key) rs = key < 2 ^ 32
IsAllowed (ranges lo hi) rs = lo < 2 ^ 32
IsAllowed lists rs = Unit

abbrev pub AreAllowed : List Call → List Record → Type 0
AreAllowed [] rs = Unit
AreAllowed (c ∷ cs) rs = IsAllowed c rs × AreAllowed cs (after c rs)

count-root :
    (order count fresh : ℕ) (root : Option Root)
    → IsRoot order count fresh root
    → count ≡ length (root_contents root)
count-root order count fresh none v = v
count-root order count fresh (some (h, node)) v = v.2

call_lem :
    (c : Call) (t : BPlusTree)
    → IsValid t
    → IsAllowed c (records t)
    → (next : BPlusTree) × (call c t ≡ ok (next, answer c (records t)))
      × IsValid next
      × (records next ≡ after c (records t))
unfolding call
call_lem (inserts key datum) t v (l, new_key, room) =
    let count = count-root t.order t.count t.fresh t.root v.1 in
    let (next, run, (valid, same, order, more)) =
      insert_tree_lem t key datum v l new_key (omega (arith, count, room)) in
    (next, ap (λ r. r >>= λ x. ok (x, done)) run, valid, same)
call_lem (removes key) t v l =
    let (next, run, valid, same, order) = remove_tree_lem t key v l in
    (next, ap (λ x. x >>= λ r. ok (r.0, removed r.1)) run, valid, same)
call_lem (searches key) t v l = (t, ap (λ d. ok (t, found d)) (search_tree_lem t key v l), v, refl)
call_lem (ranges lo hi) t v l =
    (t, ap (λ x. x >>= λ ds. ok (t, values ds)) (range_search_lem t lo hi v l), v, refl)
call_lem lists t v u = (t, ap (λ x. x >>= λ ks. ok (t, keys ks)) (get_all_lem t v).0, v, refl)

calls_lem :
    (cs : List Call) (t : BPlusTree) (rs : List Record)
    → IsValid t
    → records t ≡ rs
    → AreAllowed cs rs
    → calls cs t ≡ ok (answers cs rs)
unfolding calls
calls_lem [] t rs v e a = refl
calls_lem (c ∷ cs) t rs v e (a, as_) =
    let (next, run, valid, same) = call_lem c t v (subst (IsAllowed c) (sym e) a) in
    let rest = calls_lem cs next (after c rs) valid (same ∙ ap (after c) e) as_ in
    rw (run, rest, e) refl

-- On a new tree, for every order below 2^31 - 1 that the constructor is given, any sequence of
-- calls of `insert`, `remove`, `search`, `range_search` and `get_all_keys_in_order` is defined and
-- answers as the same calls on a list of records in ascending order of the keys do, if the keys
-- are below 2^32, those inserted are new when they are, and fewer than 2^31 - 1 records are there
-- then.
pub calls-new :
    (ord : ℕ) (cs : List Call)
    → ord < int_max
    → AreAllowed cs []
    → calls cs (new ord) ≡ ok (answers cs [])
unfolding new
calls-new ord cs small a = calls_lem cs (new ord) [] (new-IsValid ord small) refl a
