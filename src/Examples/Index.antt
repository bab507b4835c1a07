-- ===== src/Examples/Index.antt =====
-- Runs of the index: keys below 16, over a filter with three levels.
use range_lh_cplus_plus.Base.{
  ℕ, ◌≡◌, ◌<◌, ◌^◌, ◌-◌, ◌≢◌, ◌∙◌, ap, sym, subst, refl, length, arith, List, All, [], ◌∷◌, none,
  some, true, false, ◌==◌, if◌then◌else◌,
}
use range_lh_cplus_plus.Base.Words.{
  add64, sub64, mul64, shl64, sub32, add32, shl32, shift_left, shift_right,
}
use range_lh_cplus_plus.Base.Run.{Run, ok, ◌>>=◌}
use range_lh_cplus_plus.Base.Ints.{pos, negsuc, increment}
use range_lh_cplus_plus.LinearHashing
use range_lh_cplus_plus.LinearHashing.{Ptr, nullptr, hash}
use range_lh_cplus_plus.BloomRf
use range_lh_cplus_plus.BloomRf.{hashing, set_bit, get_bit, check_at_level, get_max_level}
use range_lh_cplus_plus.RangeLh
use range_lh_cplus_plus.RangeLh.ChildLists
use range_lh_cplus_plus.RangeLh.StringKeys.{below, string_to_int_lex_lem}
use range_lh_cplus_plus.RangeLh.{
  RangeLh, get_head, get_tail, insert_impl, remove_impl, point_lookup_impl, range_lookup_impl,
  search, adjacent_worker, get_left_adjacent_worker, get_right_adjacent_worker,
}
use range_lh_cplus_plus.RangeLh.Cells.{locate, put, locate-put_ne}
use range_lh_cplus_plus.RangeLh.Valid.{IsValid, capacity, valid-Reads}
use range_lh_cplus_plus.RangeLh.Insert.{Puts, new_cell, insert_impl_lem}
use range_lh_cplus_plus.RangeLh.Lookup.{filled, is_some, point_lookup_lem, remove_impl_lem}
use range_lh_cplus_plus.RangeLh.Reinsert.{remove-insert}
use range_lh_cplus_plus.RangeLh.Update.{datum_of, with_datum}
use range_lh_cplus_plus.RangeLh.Range.{non_empty, data_between, range_lookup_lem}
use range_lh_cplus_plus.RangeLh.Adjacent.{
  get_left_adjacent_worker_lem, get_right_adjacent_worker_lem,
}
use range_lh_cplus_plus.RangeLh.Chain.{some-injective}
use range_lh_cplus_plus.RangeLh.Ends.{
  IsPooled, first_datum, last_datum, sum_of, get_head-get_tail, get_sum_keys_lem,
}
use range_lh_cplus_plus.RangeLh.Left.{IsPredecessor}
use range_lh_cplus_plus.RangeLh.Right.{IsSuccessor}
use range_lh_cplus_plus.RangeLh.Fresh.{made, made-IsValid, new_index-IsValid}
use range_lh_cplus_plus.RangeLh.Keys as Keys
use range_lh_cplus_plus.RangeLh.Keys.{get_sum_keys}
use range_lh_cplus_plus.Workers.{Data, set_next, update_data, delete_data, has_data, is_null}
use range_lh_cplus_plus.Examples.Fixture.{milli}
use range_lh_cplus_plus.Examples.Filter.{roomy, roomy-IsValid, wide, wide-IsValid, wide-new}

program : Unit {0}
unfolding add64 sub64 mul64 shl64 sub32 add32 shl32 shift_left shift_right hashing set_bit get_bit
    check_at_level get_max_level BloomRf.insert_levels BloomRf.insert hash
    LinearHashing.bucket_index LinearHashing.smear LinearHashing.round_up LinearHashing.push_front
    LinearHashing.relink LinearHashing.find_worker LinearHashing.unlink LinearHashing.new
    LinearHashing.get_bucket_index LinearHashing.split LinearHashing.advance LinearHashing.lookup
    LinearHashing.add_entry LinearHashing.is_overloaded LinearHashing.check_and_split
    LinearHashing.insert set_next update_data delete_data has_data is_null ChildLists.push_all
    ChildLists.not64 ChildLists.left_children ChildLists.right_children ChildLists.aligned_child
    ChildLists.get_left_children_list ChildLists.get_right_children_list ChildLists.visits search
    adjacent_worker get_left_adjacent_worker get_right_adjacent_worker RangeLh.connect
    point_lookup_impl RangeLh.collect RangeLh.start_worker range_lookup_impl remove_impl insert_impl
    Keys.pack Keys.string_to_int_lex Keys.bump Keys.next_lexicographic_string
program = tt

abbrev pub index : RangeLh ℕ
index = made 3 750 roomy 2 64 8 100

-- the keys 5, 9 and 7, inserted in this order
abbrev three : Run (RangeLh ℕ)
three = do
  (_, t) ← insert_impl index 5 (some 50)
  (_, t') ← insert_impl t 9 (some 90)
  (_, t'') ← insert_impl t' 7 (some 70)
  ok t''

range_runs : three >>= (λ t. range_lookup_impl t 6 15) ≡ ok (some (some 70 ∷ some 90 ∷ []))
unfolding program
range_runs = refl

missing_runs : remove_impl index 4 ≡ ok (false, record index { num_active_worker = negsuc 0 })
unfolding program
missing_runs = refl

-- "ab%" finds keys up to the one after "ab", which no longer matches.
next_runs : Keys.next_lexicographic_string (97 ∷ 98 ∷ []) ≡ 97 ∷ 99 ∷ []
unfolding program
next_runs = refl

-- A worker without data is still in the chain.
deleted_runs :
    (do t ← three; (_, t') ← remove_impl t 7; range_lookup_impl t' 6 8) ≡ ok (some (none ∷ []))
unfolding program
deleted_runs = refl

abbrev pub index-made : (v : IsValid index) × (v.cells ≡ [])
index-made =
    made-IsValid 3 750 roomy 2 64 8 100 roomy-IsValid (omega arith) refl (omega arith) (omega arith)
      (omega arith)

abbrev pub index-IsValid : IsValid index
index-IsValid = index-made.0

pub few_buckets : length index.master_lh.buckets < 2 ^ 31 - 1
unfolding program
few_buckets = omega arith

pub room : (key : ℕ) → key < 16 → key < capacity index
unfolding program
room key h = h

no_cells : (q : ℕ) → locate index-IsValid.cells q ≡ none
unfolding locate
no_cells q = ap (λ cs. locate cs q) index-made.1

-- the index with the key 5
abbrev pub five : RangeLh ℕ
five =
    (insert_impl_lem index 5 (some 0) (pos 1) index-IsValid (room 5 (omega arith)) few_buckets
      refl).0

abbrev pub five-Puts : Puts index-IsValid (new_cell index 5 (some 0)) five
five-Puts =
    (insert_impl_lem index 5 (some 0) (pos 1) index-IsValid (room 5 (omega arith)) few_buckets
      refl).2

pub has_five : locate five-Puts.valid.cells 5 ≡ some 0
unfolding locate put
has_five =
    ap (λ cs. locate cs 5) five-Puts.cells
    ∙ ap (λ cs. locate (put (new_cell index 5 (some 0)) cs) 5) index-made.1

five_count : five.num_active_worker ≡ pos 1
unfolding datum_of
five_count =
    (insert_impl_lem index 5 (some 0) (pos 1) index-IsValid (room 5 (omega arith)) few_buckets
      refl).4
    ∙ ap (λ cs. if is_some (datum_of cs 5) then index.num_active_worker else pos 1) index-made.1

has_none : (q : ℕ) → q ≢ 5 → locate five-Puts.valid.cells q ≡ none
has_none q ne =
    ap (λ cs. locate cs q) five-Puts.cells
    ∙ locate-put_ne (new_cell index 5 (some 0)) index-IsValid.cells q (λ e. ne (sym e))
    ∙ no_cells q

pub room_five : (key : ℕ) → key < 16 → key < capacity five
room_five key h = subst (λ n. key < n) (sym five-Puts.same_capacity) (room key h)

-- witnesses

insert_impl_lem_example :
    (t' : RangeLh ℕ) × (insert_impl index 5 (some 0) ≡ ok (true, t'))
    × Puts index-IsValid (new_cell index 5 (some 0)) t'
    × ((q : ℕ)
        → point_lookup_impl t' q
          ≡ (if q == 5 then ok (filled (some 0)) else point_lookup_impl index q))
    × (t'.num_active_worker
        ≡ (if is_some (datum_of index-IsValid.cells 5) then index.num_active_worker else pos 1))
insert_impl_lem_example =
    insert_impl_lem index 5 (some 0) (pos 1) index-IsValid (room 5 (omega arith)) few_buckets refl

point_lookup_lem_example : point_lookup_impl five 5 ≡ ok (datum_of five-Puts.valid.cells 5)
point_lookup_lem_example = point_lookup_lem five 5 five-Puts.valid

remove_impl_lem_example :
    (t' : RangeLh ℕ) × (remove_impl five 5 ≡ ok (is_some (datum_of five-Puts.valid.cells 5), t'))
    × (v' : IsValid t') × (v'.cells ≡ with_datum 5 nullptr five-Puts.valid.cells)
    × ((q : ℕ) → point_lookup_impl t' q ≡ (if q == 5 then ok none else point_lookup_impl five q))
    × (t'.num_active_worker ≡ five.num_active_worker)
remove_impl_lem_example = remove_impl_lem five 5 0 five-Puts.valid has_five

remove-insert_example :
    (t' : RangeLh ℕ) × ((remove_impl five 5 >>= λ r. insert_impl r.1 5 (some 1)) ≡ ok (true, t'))
    × (v' : IsValid t') × (v'.cells ≡ with_datum 5 (some 1) five-Puts.valid.cells)
    × ((q : ℕ)
        → point_lookup_impl t' q
          ≡ (if q == 5 then ok (filled (some 1)) else point_lookup_impl five q))
    × (t'.num_active_worker ≡ pos 2)
remove-insert_example =
    remove-insert five 5 0 (some 1) (pos 2) five-Puts.valid has_five (ap increment five_count)

range_lookup_lem_example :
    range_lookup_impl five 3 9 ≡ ok (non_empty (data_between 3 9 five-Puts.valid.cells))
range_lookup_lem_example = range_lookup_lem five 3 five-Puts.valid (room_five 3 (omega arith)) 9

get_left_adjacent_worker_lem_example :
    (p : Ptr) × (get_left_adjacent_worker five 9 ≡ ok p)
    × IsPredecessor (locate five-Puts.valid.cells) 9 p
get_left_adjacent_worker_lem_example =
    get_left_adjacent_worker_lem five (locate five-Puts.valid.cells) 9 (valid-Reads five-Puts.valid)
      (room_five 9 (omega arith)) (has_none 9 (omega arith))

get_right_adjacent_worker_lem_example :
    (p : Ptr) × (get_right_adjacent_worker five 3 ≡ ok p)
    × IsSuccessor (locate five-Puts.valid.cells) 3 p
get_right_adjacent_worker_lem_example =
    get_right_adjacent_worker_lem five (locate five-Puts.valid.cells) 3
      (valid-Reads five-Puts.valid) (room_five 3 (omega arith)) (has_none 3 (omega arith))

new_index-IsValid_example :
    (t : RangeLh ℕ) × (Keys.new 3 750 10 10 4 64 8 100 ≡ ok t)
    × (v : IsValid t) × (v.cells ≡ [])
    × (t.num_active_worker ≡ pos 0)
new_index-IsValid_example =
    new_index-IsValid 3 750 wide 4 64 8 100 wide-IsValid (omega arith) refl (omega arith)
      (omega arith) (omega arith) 10 10 wide-new

get_head-get_tail_example :
    (get_head five ≡ ok (first_datum five-Puts.valid.cells))
    × (get_tail five ≡ ok (last_datum five-Puts.valid.cells))
get_head-get_tail_example = get_head-get_tail five five-Puts.valid

abbrev pool : List Data
pool = record { key = 5; text = 97 ∷ [] } ∷ []

five-IsPooled : All (IsPooled pool) five-Puts.valid.cells
unfolding put
five-IsPooled =
    subst (All (IsPooled pool))
      (sym (five-Puts.cells ∙ ap (put (new_cell index 5 (some 0))) index-made.1))
      ((λ d e. subst (λ n. n < 1) (some-injective e) (omega arith)), tt)

get_sum_keys_lem_example :
    get_sum_keys five pool ≡ ok (sum_of pool (milli.of_nat 0) five-Puts.valid.cells)
get_sum_keys_lem_example = get_sum_keys_lem pool five five-Puts.valid five-IsPooled

-- "ab" and "b"
string_to_int_lex_lem_example :
    (k l : ℕ) × (Keys.string_to_int_lex 8 (97 ∷ 98 ∷ []) ≡ ok k)
    × (Keys.string_to_int_lex 8 (98 ∷ []) ≡ ok l)
    × (k < l)
string_to_int_lex_lem_example =
    string_to_int_lex_lem 8 (97 ∷ 98 ∷ []) (98 ∷ []) (omega arith)
      (omega arith, ((omega arith, omega arith), ((omega arith, omega arith), tt)))
      (omega arith, ((omega arith, omega arith), tt)) (below 97 98 (98 ∷ []) [] (omega arith))
