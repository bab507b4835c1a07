-- ===== src/RangeLh/Insert.antt =====
-- `insert_impl` of Implement/rangeLH.cpp for a new key.
use range_lh_cplus_plus.Base.{
  ℕ, suc, ◌-◌, ◌^◌, ◌≤◌, ◌<◌, ◌≡◌, refl, sym, ◌∙◌, arith, [], ◌∷◌, none, some, true, ◌==◌,
  if◌then◌else◌, length, Bool-cases, Option-cases, inl, inr, ==→eq, ==_false→ne,
}
use range_lh_cplus_plus.Base.Run.{ok}
use range_lh_cplus_plus.Base.Ints.{ℤ, increment}
use range_lh_cplus_plus.Base.Float.{Float}
use range_lh_cplus_plus.LinearHashing.{Ptr}
use range_lh_cplus_plus.LinearHashing.Valid.{stored}
use range_lh_cplus_plus.LinearHashing.Insert as Table
use range_lh_cplus_plus.BloomRf.{get_max_level}
use range_lh_cplus_plus.BloomRf.Members as Filter
use range_lh_cplus_plus.BloomRf.Members.{has_prefix}
use range_lh_cplus_plus.Workers.{update_data, has_data, is_null}
use range_lh_cplus_plus.RangeLh.{RangeLh, insert_impl, point_lookup_impl}
use range_lh_cplus_plus.RangeLh.Adjacent.{get_left_adjacent_worker_lem}
use range_lh_cplus_plus.RangeLh.Cells.{
  Cell, locate, tail_of, put, put-Ascending, locate-put, locate-put_ne, length-put,
}
use range_lh_cplus_plus.RangeLh.Chain.{Links}
use range_lh_cplus_plus.RangeLh.Chain.{locate-Links}
use range_lh_cplus_plus.RangeLh.Lookup.{filled, is_some, datum_of-put, point_lookup_lem}
use range_lh_cplus_plus.RangeLh.Update.{
  datum_of, datum_of-worker, datum_of-none, put-with_datum, with_datum-IsValid,
}
use range_lh_cplus_plus.RangeLh.Connect.{connect_lem}
use range_lh_cplus_plus.RangeLh.Valid.{
  entries, capacity, IsValid, lookup-locate, stored-none, valid-Reads,
}

-- the cell of the next worker
abbrev pub new_cell : {D : Type 0} → RangeLh D → ℕ → Ptr → Cell
new_cell t key value = record { address = length t.workers; id = key; datum = value }

-- The index after an insertion: it is valid again, and the cell is put in its place.
pub record Puts {D : Type 0} {t : RangeLh D} (v : IsValid t) (c : Cell) (t' : RangeLh D)
    : Type 0 where
  pub valid : IsValid t'
  pub cells : valid.cells ≡ put c v.cells
  pub same_capacity : capacity t' ≡ capacity t
  pub grows : length t'.master_lh.buckets ≤ suc (length t.master_lh.buckets)

module _ {D : Type 0} {t : RangeLh D} (v : IsValid t) (c : Cell)
    (absent : locate v.cells c.id ≡ none) where
  entries-put :
      (q : ℕ)
      → (if q == c.id then some c.address ∷ [] else stored t.master_lh q)
        ≡ entries (locate (put c v.cells) q)
  entries-put q = elim (Bool-cases (q == c.id)) [
    | inl same ↦ rw (same, locate-put c v.cells q absent, same) refl
    | inr other ↦ rw (other, locate-put c v.cells q absent, other) (v.indexed q)
  ]

  module _ (t' : RangeLh D) (links : Links t'.workers t'.worker_head (put c v.cells))
      (last : t'.worker_tail ≡ tail_of (put c v.cells))
      (len : length t'.workers ≡ suc (length t.workers))
      (table : Table.Inserts t.master_lh c.id (some c.address) t'.master_lh)
      (filter : Filter.Inserts t.bloom_rf c.id t'.bloom_rf)
      (delta : t'.delta_bloom_rf ≡ t.delta_bloom_rf) (room : c.id < capacity t) where
    same_capacity_lem : capacity t' ≡ capacity t
    unfolding get_max_level
    same_capacity_lem = rw (delta, filter.levels) refl

    put-Puts : Puts v c t'
    put-Puts = record {
      valid = record {
        cells = put c v.cells;
        table = table.valid;
        distinct = table.distinct;
        filter = filter.valid;
        roomy = filter.roomy;
        same_delta = delta ∙ v.same_delta ∙ sym filter.delta;
        some_levels = omega (arith, filter.levels, v.some_levels);
        linked = links;
        sorted = put-Ascending 0 c v.cells (omega arith) v.sorted;
        tail = last;
        indexed = λ q. table.reads q ∙ entries-put q;
        members = λ q a i found below. elim (Bool-cases (q == c.id)) [
          | inl same ↦ rw (==→eq q c.id same) (filter.members i (omega (arith, filter.levels)))
          | inr other ↦ filter.keeps q i (
              v.members q a i
                (sym (locate-put_ne c v.cells q (λ e. ==_false→ne q c.id other (sym e))) ∙ found)
                (omega (arith, filter.levels)))
        ];
        inside = λ q far.
            locate-put_ne c v.cells q (λ e. absurd (omega (arith, same_capacity_lem)))
            ∙ v.inside q (omega (arith, same_capacity_lem));
        sized = length-put c v.cells absent ∙ omega (arith, v.sized, len);
      };
      cells = refl;
      same_capacity = same_capacity_lem;
      grows = table.grows;
    }

-- What lookups make of an insertion.
pub Puts-looks :
    {D : Type 0} {t t' : RangeLh D} (v : IsValid t) (key : ℕ) (value : Ptr)
    → Puts v (new_cell t key value) t'
    → (q : ℕ)
    → point_lookup_impl t' q ≡ (if q == key then ok (filled value) else point_lookup_impl t q)
Puts-looks {D} {t} {t'} v key value puts q =
    point_lookup_lem t' q puts.valid
    ∙ rw (puts.cells, datum_of-put (new_cell t key value) v.cells q, point_lookup_lem t q v)
        (ground arith)

module _ {D : Type 0} ⦃fl : Float D⦄ where
  -- A new key gets a new worker, linked at its place.
  insert_new :
      (t : RangeLh D) (key : ℕ) (value : Ptr) (n : ℤ)
      → (v : IsValid t) → locate v.cells key ≡ none
      → key < capacity t
      → length t.master_lh.buckets < 2 ^ 31 - 1
      → increment t.num_active_worker ≡ ok n
      → (t' : RangeLh D) × (insert_impl t key value ≡ ok (true, t'))
        × Puts v (new_cell t key value) t'
        × (t'.num_active_worker ≡ n)
  unfolding insert_impl
  insert_new t key value n v absent room buckets counted =
      let c = new_cell t key value in
      let (prev, search, pred) =
        get_left_adjacent_worker_lem t (locate v.cells) key (valid-Reads v) room absent in
      let (ws', head, tail, (connected, links, last, len)) =
        connect_lem t c v.cells refl v.linked v.sorted v.tail prev absent pred in
      let (lh, table, ins) =
        Table.insert_lem t.master_lh key (some c.address) v.table v.distinct
          (stored-none v key absent) buckets in
      let (bf, filter, mem) = Filter.insert-Inserts t.bloom_rf key v.filter v.roomy in
      let t' : RangeLh D = record t {
        master_lh = lh;
        bloom_rf = bf;
        workers = ws';
        worker_head = head;
        worker_tail = tail;
        num_active_worker = n;
      } in
      (
        t',
        rw (lookup-locate v key, absent, search, connected, table, filter, counted) refl,
        put-Puts v c absent t' links last len ins mem refl room,
        refl,
      )

  -- A key that is there gets new data.
  pub insert_old :
      (t : RangeLh D) (key a : ℕ) (value : Ptr) (n : ℤ)
      → (v : IsValid t) → locate v.cells key ≡ some a
      → increment t.num_active_worker ≡ ok n
      → (t' : RangeLh D) × (insert_impl t key value ≡ ok (true, t'))
        × Puts v (new_cell t key value) t'
        × (t'.num_active_worker
            ≡ (if is_some (datum_of v.cells key) then t.num_active_worker else n))
  unfolding insert_impl update_data has_data is_null
  insert_old t key a value n v found counted =
      let (w, there, id) = locate-Links t.workers t.worker_head v.cells key a v.linked found in
      let held = datum_of-worker t.workers t.worker_head v.cells key a w v.linked found there in
      let m = if is_some (datum_of v.cells key) then t.num_active_worker else n in
      let (v', cells) = with_datum-IsValid v key a w value m found there in
      let count : (if has_data w then ok t.num_active_worker else increment t.num_active_worker)
          ≡ ok m =
        rw (held, counted) (ground arith) in
      (
        _,
        rw (lookup-locate v key, found, there, count) refl,
        record {
          valid = v';
          cells = cells ∙ sym (put-with_datum (new_cell t key value) 0 v.cells a v.sorted found);
          same_capacity = refl;
          grows = omega arith;
        },
        refl,
      )

  -- On a valid index, for a key below 2^(max_level * delta), with fewer than 2^31 - 1 buckets in
  -- the table and a counter that can still grow, `insert_impl` is defined and true; the result is
  -- valid, its chain has the new data under the key if the key was there and a new worker at the
  -- key's place in the order if it was not, a point lookup finds the new data under the key and
  -- what it found before under every other key, and the counter grows just if the key had no data.
  pub insert_impl_lem :
      (t : RangeLh D) (key : ℕ) (value : Ptr) (n : ℤ)
      → (v : IsValid t) → key < capacity t
      → length t.master_lh.buckets < 2 ^ 31 - 1
      → increment t.num_active_worker ≡ ok n
      → (t' : RangeLh D) × (insert_impl t key value ≡ ok (true, t'))
        × Puts v (new_cell t key value) t'
        × ((q : ℕ)
            → point_lookup_impl t' q
              ≡ (if q == key then ok (filled value) else point_lookup_impl t q))
        × (t'.num_active_worker
            ≡ (if is_some (datum_of v.cells key) then t.num_active_worker else n))
  insert_impl_lem t key value n v room buckets counted = elim (Option-cases (locate v.cells key)) [
    | inl absent ↦
        let (t', run, puts, count) = insert_new t key value n v absent room buckets counted in
        (
          t',
          run,
          puts,
          Puts-looks v key value puts,
          count ∙ rw (datum_of-none v.cells key absent) refl,
        )
    | inr (a, found) ↦
        let (t', run, puts, count) = insert_old t key a value n v found counted in
        (t', run, puts, Puts-looks v key value puts, count)
  ]
