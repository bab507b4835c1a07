-- ===== src/Storage/Records.antt =====
-- `insert`, `remove` and `get` of Implement/storage.cpp: the records of the pool under the index.
use range_lh_cplus_plus.Base.{
  ℕ, ◌-◌, ◌<◌, ◌^◌, ◌≡◌, refl, sym, ap, subst, ◌∙◌, List, [], ◌∷◌, ◌++◌, Option, none, some, true,
  ◌==◌, ltb, if◌then◌else◌, length, All, All-map, Bool-cases, Option-cases, inl, inr, ==→eq,
  none_ne_some,
}
use range_lh_cplus_plus.Base.Run.{Run, ok, at, ◌>>=◌}
use range_lh_cplus_plus.Base.Ints.{ℤ, increment}
use range_lh_cplus_plus.Base.Float.{Float}
use range_lh_cplus_plus.Base.Vectors.{at-append, at-append_last}
use range_lh_cplus_plus.LinearHashing.{Ptr, nullptr}
use range_lh_cplus_plus.Workers.{Data, is_null}
use range_lh_cplus_plus.RangeLh.Cells.{Cell, locate, put}
use range_lh_cplus_plus.RangeLh.Chain.{some-injective}
use range_lh_cplus_plus.RangeLh.Valid as Index
use range_lh_cplus_plus.RangeLh.Valid.{capacity}
use range_lh_cplus_plus.RangeLh.Update.{with_datum, datum_of}
use range_lh_cplus_plus.RangeLh.Lookup.{
  point_lookup_lem, datum_of-put, datum_of-erase, is_some, remove_impl_lem,
}
use range_lh_cplus_plus.RangeLh.Insert.{new_cell, insert_impl_lem}
use range_lh_cplus_plus.Storage.{Storage, deref, get, insert, remove}

-- The datum of a cell, if there is one, is a record of the pool with the cell's key.
abbrev pub IsOwn : List Data → Cell → Type 0
IsOwn pool c =
    (d : ℕ)
    → c.datum ≡ some d
    → (text : List ℕ) × (at pool d ≡ ok (record { key = c.id; text = text }))

pub record IsValid {D : Type 0} (s : Storage D) : Type 0 where
  pub index : Index.IsValid s.index
  pub own : All (IsOwn s.data_pool) index.cells

-- the record that the pool has under a data pointer
abbrev read : List Data → Option Ptr → Run (Option Data)
read pool none = ok none
read pool (some p) = deref pool p >>= λ x. ok (some x)

get-read :
    {D : Type 0} (s : Storage D) (key : ℕ) (v : IsValid s)
    → get s key ≡ read s.data_pool (datum_of v.index.cells key)
unfolding get
get-read s key v = elim (Option-cases (datum_of v.index.cells key)) [
  | inl nothing ↦ rw (point_lookup_lem s.index key v.index, nothing) refl
  | inr (p, found) ↦ rw (point_lookup_lem s.index key v.index, found) refl
]

-- What is stored under a key is a record of the pool with this key.
datum_of-own :
    (pool : List Data) (cs : List Cell) (q : ℕ) (p : Ptr)
    → All (IsOwn pool) cs
    → datum_of cs q ≡ some p
    → (d : ℕ) × (p ≡ some d) × (text : List ℕ) × (at pool d ≡ ok (record { key = q; text = text }))
unfolding datum_of is_null
datum_of-own pool [] q p own e = absurd (none_ne_some e)
datum_of-own pool (c ∷ cs) q p (own, owns) e = elim (Bool-cases (c.id == q)) [
  | inl same ↦ elim (Option-cases c.datum) [
    | inl null ↦ absurd (none_ne_some (rw (same, null) at e))
    | inr (d, full) ↦
        let (text, there) = own d full in
        let is_p : some d ≡ p = some-injective (rw (same, full) at e) in
        (
          d,
          sym is_p,
          text,
          subst (λ k. at pool d ≡ ok (record { key = k; text = text })) (==→eq c.id q same) there,
        )
  ]
  | inr other ↦ datum_of-own pool cs q p owns (rw other at e)
]

put-All :
    (P : Cell → Type 0) (n : Cell) (cs : List Cell)
    → P n
    → ((c : Cell) → c.id ≡ n.id → P (record c { datum = n.datum }))
    → All P cs
    → All P (put n cs)
unfolding put
put-All P n [] new change h = (new, tt)
put-All P n (c ∷ cs) new change (h, hs) = elim (Bool-cases (c.id == n.id)) [
  | inl same ↦ rw same (change c (==→eq c.id n.id same), hs)
  | inr other ↦ rw other (elim (Bool-cases (ltb n.id c.id)) [
    | inl below ↦ rw below (new, (h, hs))
    | inr above ↦ rw above (h, put-All P n cs new change hs)
  ])
]

erase-All :
    (pool : List Data) (q : ℕ) (cs : List Cell)
    → All (IsOwn pool) cs
    → All (IsOwn pool) (with_datum q nullptr cs)
unfolding with_datum
erase-All pool q [] h = tt
erase-All pool q (c ∷ cs) (h, hs) = elim (Bool-cases (c.id == q)) [
  | inl same ↦ rw same ((λ d e. absurd (none_ne_some e)), hs)
  | inr other ↦ rw other (h, erase-All pool q cs hs)
]

-- A larger pool reads the same.
read-grown :
    (pool more : List Data) (cs : List Cell) (q : ℕ)
    → All (IsOwn pool) cs
    → read (pool ++ more) (datum_of cs q) ≡ read pool (datum_of cs q)
unfolding deref
read-grown pool more cs q own = elim (Option-cases (datum_of cs q)) [
  | inl nothing ↦ rw nothing refl
  | inr (p, found) ↦
      let (d, here, text, there) = datum_of-own pool cs q p own found in
      rw (found, here) (rw (there, at-append pool more d _ there) refl)
]

module _ {D : Type 0} where
  -- On a valid storage `get` is defined for every key, and a record that it gives has this key.
  pub get_lem :
      (s : Storage D) (key : ℕ)
      → IsValid s
      → (r : Option Data) × (get s key ≡ ok r) × ((x : Data) → r ≡ some x → x.key ≡ key)
  unfolding deref
  get_lem s key v = elim (Option-cases (datum_of v.index.cells key)) [
    | inl nothing ↦ (none, get-read s key v ∙ rw nothing refl, λ x e. absurd (none_ne_some e))
    | inr (p, found) ↦
        let (d, here, text, there) = datum_of-own s.data_pool v.index.cells key p v.own found in
        (
          some (record { key = key; text = text }),
          get-read s key v ∙ rw (found, here) (rw there refl),
          λ x e. sym (ap (λ (y : Data). y.key) (some-injective e)),
        )
  ]

  -- On a valid storage whose index has a worker for the key, `remove` is defined and says whether
  -- the worker had data; the result is valid, and `get` gives nothing under the key and what it
  -- gave before under every other key.
  pub remove_storage_lem :
      (s : Storage D) (key a : ℕ)
      → (v : IsValid s) → locate v.index.cells key ≡ some a
      → (s' : Storage D) × (remove s key ≡ ok (is_some (datum_of v.index.cells key), s'))
        × IsValid s'
        × ((q : ℕ) → get s' q ≡ (if q == key then ok none else get s q))
  unfolding remove
  remove_storage_lem s key a v found =
      let (t, run, v', cells, looks, count) = remove_impl_lem s.index key a v.index found in
      let s' : Storage D = record s { index = t } in
      let w : IsValid s' = record {
        index = v';
        own =
            subst (All (IsOwn s.data_pool)) (sym cells)
              (erase-All s.data_pool key v.index.cells v.own);
      } in
      (
        s',
        rw run refl,
        w,
        λ q.
            get-read s' q w
            ∙ rw (cells, datum_of-erase key v.index.cells q)
                (elim (Bool-cases (q == key)) [
                  | inl same ↦ rw same refl
                  | inr other ↦ rw other (sym (get-read s q v))
                ]),
      )

  module _ ⦃fl : Float D⦄ where
    -- On a valid storage, for a key below 2^(max_level * delta), with fewer than 2^31 - 1 buckets
    -- and a counter that can still grow, `insert` is defined and true; the result is valid, `get`
    -- gives the new record under the key and what it gave before under every other key.
    pub insert_storage_lem :
        (s : Storage D) (key : ℕ) (text : List ℕ) (n : ℤ)
        → IsValid s
        → key < capacity s.index
        → length s.index.master_lh.buckets < 2 ^ 31 - 1
        → increment s.index.num_active_worker ≡ ok n
        → (s' : Storage D) × (insert s key text ≡ ok (true, s'))
          × IsValid s'
          × ((q : ℕ)
              → get s' q
                ≡ (if q == key then ok (some (record { key = key; text = text })) else get s q))
    unfolding insert deref is_null
    insert_storage_lem s key text n v room buckets counted =
        let N = length s.data_pool in
        let new : Data = record { key = key; text = text } in
        let c = new_cell s.index key (some N) in
        let pool = s.data_pool ++ new ∷ [] in
        let (t, run, puts, looks, count) =
          insert_impl_lem s.index key (some N) n v.index room buckets counted in
        let s' : Storage D = record { data_pool = pool; index = t } in
        let at_new : (e : Cell) → e.id ≡ key → IsOwn pool (record e { datum = some N }) =
          λ e is_key d p.
            let e' : N ≡ d = some-injective p in
            (
              text,
              subst (λ k. at pool d ≡ ok (record { key = k; text = text })) (sym is_key)
                  (subst (λ i. at pool i ≡ ok new) e' (at-append_last s.data_pool new)),
            ) in
        let own : All (IsOwn pool) (put c v.index.cells) =
          put-All (IsOwn pool) c v.index.cells (at_new c refl) at_new (
            All-map (IsOwn s.data_pool) (IsOwn pool) v.index.cells
              (λ e f d p. let (x, there) = f d p in (x, at-append s.data_pool (new ∷ []) d _ there))
              v.own) in
        let v' : IsValid s' = record {
          index = puts.valid;
          own = subst (All (IsOwn pool)) (sym puts.cells) own;
        } in
        (
          s',
          rw run refl,
          v',
          λ q.
              get-read s' q v'
              ∙ rw (puts.cells, datum_of-put c v.index.cells q)
                  (elim (Bool-cases (q == key)) [
                    | inl same ↦ rw same (rw (at-append_last s.data_pool new) refl)
                    | inr other ↦ rw other (
                        read-grown s.data_pool (new ∷ []) v.index.cells q v.own
                        ∙ sym (get-read s q v))
                  ]),
        )
