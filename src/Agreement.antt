-- ===== src/Agreement.antt =====
-- The index of Implement/rangeLH.cpp beside the tree of BPlusTree/bPlusTree.cpp, which the
-- benchmark fills with the same keys and asks the same questions. The index has the `uint64_t` for
-- its key, the tree the `int` that it is converted to.
use range_lh_cplus_plus.Base.{
  ℕ, ◌-◌, ◌^◌, ◌≡◌, ◌<◌, refl, sym, ap, ◌∙◌, arith, List, [], ◌∷◌, true, ltb, length, Bool-cases,
  inl, inr, ne→==_false, ltb_false→le, le→ltb_false, ltb→lt, lt→ltb,
}
use range_lh_cplus_plus.Base.Run.{ok, ◌>>=◌}
use range_lh_cplus_plus.Base.Ints.{ℤ, increment, int_max}
use range_lh_cplus_plus.Base.Float.{Float}
use range_lh_cplus_plus.LinearHashing.{Ptr}
use range_lh_cplus_plus.Workers.{is_null}
use range_lh_cplus_plus.RangeLh.{RangeLh, insert_impl, point_lookup_impl, range_lookup_impl}
use range_lh_cplus_plus.RangeLh.Cells.{Cell, put}
use range_lh_cplus_plus.RangeLh.Valid as Index
use range_lh_cplus_plus.RangeLh.Valid.{capacity}
use range_lh_cplus_plus.RangeLh.Update.{datum_of}
use range_lh_cplus_plus.RangeLh.Insert.{new_cell, insert_impl_lem}
use range_lh_cplus_plus.RangeLh.Lookup.{filled, point_lookup_lem}
use range_lh_cplus_plus.RangeLh.Range as Chain
use range_lh_cplus_plus.RangeLh.Range.{non_empty, range_lookup_lem}
use range_lh_cplus_plus.Base.{◌+◌, ◌≢◌, All, subst, leb}
use range_lh_cplus_plus.Base.{leb→le, le→leb, leb_false→lt, lt→leb_false}
use range_lh_cplus_plus.BPlusTree.{int_key}
use range_lh_cplus_plus.BPlusTree.{
  Record, BPlusTree, insert_entry, search, search_records, range_search,
}
use range_lh_cplus_plus.BPlusTree.Insertion.{insert}
use range_lh_cplus_plus.BPlusTree.Ascent.{IsNew}
use range_lh_cplus_plus.BPlusTree.Valid as Tree
use range_lh_cplus_plus.BPlusTree.Valid.{records}
use range_lh_cplus_plus.BPlusTree.Walk.{data_between}
use range_lh_cplus_plus.BPlusTree.Insert.{insert_tree_lem}
use range_lh_cplus_plus.BPlusTree.Search.{search_tree_lem}
use range_lh_cplus_plus.BPlusTree.Range.{range_search_lem}

-- the records of the tree that stand for the workers of the chain
unfoldable pub as_records : List Cell → List Record
as_records [] = []
as_records (c ∷ cs) = (int_key c.id, c.datum) ∷ as_records cs

-- The ids are no larger than an `int` can be.
abbrev pub AreInts : List Cell → Type 0
AreInts cs = All (λ c. c.id < 2 ^ 31) cs

-- Both hold the same keys, converted for the tree, with the same data, and no key is changed by the
-- conversion.
abbrev pub Agrees : {D : Type 0} {t : RangeLh D} → Index.IsValid t → BPlusTree → Type 0
Agrees v b = Tree.IsValid b × (records b ≡ as_records v.cells) × AreInts v.cells

int_key-int : (key : ℕ) → key < 2 ^ 31 → int_key key ≡ key + 2 ^ 31
unfolding int_key
int_key-int key small = omega arith

int_key-lt : (key : ℕ) → int_key key < 2 ^ 32
unfolding int_key
int_key-lt key = omega arith

as_records-put :
    (n : Cell) (cs : List Cell)
    → n.id < 2 ^ 31
    → AreInts cs
    → IsNew (int_key n.id) (as_records cs)
    → (as_records (put n cs) ≡ insert_entry (int_key n.id) n.datum (as_records cs))
      × AreInts (put n cs)
unfolding as_records put insert_entry
as_records-put n [] small ints new = (refl, (small, tt))
as_records-put n (c ∷ cs) small (int, ints) (ne, new) =
    let (ih, rest) = as_records-put n cs small ints new in
    let here = int_key-int c.id int in
    let there = int_key-int n.id small in
    let differ : c.id ≢ n.id = λ e. ne (ap int_key e) in
    rw (ne→==_false c.id n.id differ) (elim (Bool-cases (ltb n.id c.id)) [
      | inl before ↦
          let lt = ltb→lt n.id c.id before in
          rw (before, le→ltb_false (int_key c.id) (int_key n.id) (omega arith))
            (refl, (small, (int, ints)))
      | inr behind ↦
          let le = ltb_false→le n.id c.id behind in
          rw (behind, lt→ltb (int_key c.id) (int_key n.id) (omega arith)) (rw ih refl, (int, rest))
    ])

datum_of-as_records :
    (q : ℕ) (cs : List Cell)
    → q < 2 ^ 31
    → AreInts cs
    → datum_of cs q ≡ filled (search_records (int_key q) (as_records cs))
unfolding as_records datum_of search_records is_null
datum_of-as_records q [] small ints = refl
datum_of-as_records q (c ∷ cs) small (int, ints) =
    ground (arith, datum_of-as_records q cs small ints, int_key-int q small, int_key-int c.id int)

leb-int_key : (a b : ℕ) → a < 2 ^ 31 → b < 2 ^ 31 → leb (int_key a) (int_key b) ≡ leb a b
leb-int_key a b small small' =
    let e = int_key-int a small in
    let e' = int_key-int b small' in
    elim (Bool-cases (leb a b)) [
      | inl le ↦ let h = leb→le a b le in rw le (le→leb (int_key a) (int_key b) (omega arith))
      | inr gt ↦
          let h = leb_false→lt a b gt in rw gt (lt→leb_false (int_key a) (int_key b) (omega arith))
    ]

between-as_records :
    (lo hi : ℕ) (cs : List Cell)
    → lo < 2 ^ 31
    → hi < 2 ^ 31
    → AreInts cs
    → Chain.data_between lo hi cs ≡ data_between (int_key lo) (int_key hi) (as_records cs)
unfolding as_records data_between Chain.data_between
between-as_records lo hi [] low high ints = refl
between-as_records lo hi (c ∷ cs) low high (int, ints) = rw (
  between-as_records lo hi cs low high ints,
  leb-int_key lo c.id low int,
  leb-int_key c.id hi int high,
)

module _ {D : Type 0} where
  -- For a valid index and a valid tree that hold the same data under the same keys, each key of
  -- the tree being the `int` that a `uint64_t` of the index is converted to, and no key of the
  -- index above the largest `int`: for a key below 2^31, `point_lookup_impl` gives what `search`
  -- for the converted key gives, and nothing for its null pointer; and for a start key below
  -- 2^(max_level * delta), and both ends below 2^31, `range_lookup_impl` gives what `range_search`
  -- between the converted ends gives, and nothing for its empty list.
  pub lookups-agree :
      (t : RangeLh D) (b : BPlusTree) (q lo hi : ℕ)
      → (v : Index.IsValid t) → Agrees v b
      → q < 2 ^ 31
      → lo < capacity t
      → lo < 2 ^ 31
      → hi < 2 ^ 31
      → (point_lookup_impl t q ≡ ok (filled (search b (int_key q))))
        × (range_lookup_impl t lo hi
            ≡ (range_search b (int_key lo) (int_key hi) >>= λ ds. ok (non_empty ds)))
  lookups-agree t b q lo hi v (w, same, ints) small room low high = (
    rw (
      point_lookup_lem t q v,
      datum_of-as_records q v.cells small ints,
      search_tree_lem b (int_key q) w (int_key-lt q),
      same,
    ),
    rw (
      range_lookup_lem t lo v room hi,
      between-as_records lo hi v.cells low high ints,
      range_search_lem b (int_key lo) (int_key hi) w (int_key-lt lo),
      same,
    ),
  )

module _ {D : Type 0} ⦃fl : Float D⦄ where
  -- For a valid index and a valid tree that hold the same data under the same keys, each key of
  -- the tree being the `int` that a `uint64_t` of the index is converted to, and no key of the
  -- index above the largest `int`: `insert_impl` of data under a key and `insert` of the same data
  -- under the converted key are both defined, and the results are valid and stand in the same
  -- relation. The key lies below 2^(max_level * delta) and below 2^31 and is new, the table has
  -- fewer than 2^31 - 1 buckets, the counter of the index can still grow, and the count of the
  -- tree is below 2^31 - 1.
  pub insert-Agrees :
      (t : RangeLh D) (b : BPlusTree) (key : ℕ) (value : Ptr) (n : ℤ)
      → (v : Index.IsValid t) → Agrees v b
      → key < capacity t
      → key < 2 ^ 31
      → IsNew (int_key key) (records b)
      → length t.master_lh.buckets < 2 ^ 31 - 1
      → increment t.num_active_worker ≡ ok n
      → b.count < int_max
      → (t' : RangeLh D) × (b' : BPlusTree) × (insert_impl t key value ≡ ok (true, t'))
        × (insert b (int_key key) value ≡ ok b')
        × (v' : Index.IsValid t') × Agrees v' b'
  insert-Agrees t b key value n v (w, same, ints) room small new buckets counted fits =
      let (t', run, puts, looks, active) = insert_impl_lem t key value n v room buckets counted in
      let (b', grown, (w', after, order, count)) =
        insert_tree_lem b (int_key key) value w (int_key-lt key) new fits in
      let (put_, ints') =
        as_records-put (new_cell t key value) v.cells small ints (rw same at new) in
      (
        t',
        b',
        run,
        grown,
        puts.valid,
        (
          w',
          after
              ∙ ap (insert_entry (int_key key) value) same
              ∙ sym put_
              ∙ ap as_records (sym puts.cells),
          subst AreInts (sym puts.cells) ints',
        ),
      )
