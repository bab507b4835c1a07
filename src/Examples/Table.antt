-- ===== src/Examples/Table.antt =====
-- Runs of the hash table: a table of two buckets that splits at its second record.
use range_lh_cplus_plus.Base.{
  ℕ, zero, suc, ◌+◌, ◌≡◌, ◌≤◌, ◌^◌, ◌%◌, refl, arith, [], ◌∷◌, some, not, length, get_or,
}
use range_lh_cplus_plus.Base.Words.{u32_mod, add32, sub32, shl32}
use range_lh_cplus_plus.Base.Run.{ok, ◌>>=◌}
use range_lh_cplus_plus.LinearHashing
use range_lh_cplus_plus.LinearHashing.{LinearHashing, Ptr, hash, round_up}
use range_lh_cplus_plus.LinearHashing.Hash.{hash-mod}
use range_lh_cplus_plus.LinearHashing.Chain.{workers_of, first, is_empty, total}
use range_lh_cplus_plus.LinearHashing.Valid.{IsPlaced, IsValid, stored}
use range_lh_cplus_plus.LinearHashing.Rounding.{round_up_lem, IsFresh, new_table-IsFresh}
use range_lh_cplus_plus.LinearHashing.Split.{Splits, split_lem}
use range_lh_cplus_plus.LinearHashing.Insert.{IsDistinct, Inserts, insert_lem}
use range_lh_cplus_plus.LinearHashing.Remove.{Removes, remove_lem}
use range_lh_cplus_plus.LinearHashing.Batch.{
  entry_for, after_batch, batch_insert_lem, lookup-split_older,
}
use range_lh_cplus_plus.Examples.Fixture.{milli}

program : Unit {0}
unfolding add32 sub32 shl32 hash LinearHashing.bucket_index LinearHashing.smear
    LinearHashing.round_up LinearHashing.push_front LinearHashing.relink LinearHashing.find_worker
    LinearHashing.unlink LinearHashing.new LinearHashing.get_bucket_index LinearHashing.split
    LinearHashing.advance LinearHashing.lookup LinearHashing.remove LinearHashing.add_entry
    LinearHashing.is_overloaded LinearHashing.check_and_split LinearHashing.insert
    LinearHashing.batch_insert stored workers_of
program = tt

abbrev empty : LinearHashing ℕ
empty = LinearHashing.new 3 750

three_is_four : round_up 3 ≡ 4
unfolding program
three_is_four = refl

empty-IsFresh : IsFresh 3 empty
empty-IsFresh = new_table-IsFresh 3 750 (omega arith) (omega arith)

abbrev entry : ℕ → Ptr → LinearHashing.Entry
entry id worker = record { id = id; worker = worker }

-- two buckets, the first about to be split
abbrev pair : LinearHashing ℕ
pair = record {
  buckets = (entry 2 (some 0) ∷ []) ∷ (entry 5 (some 3) ∷ []) ∷ [];
  level = 0;
  next = 0;
  num_records = 2;
  initial_buckets = 2;
  max_load_factor = 750;
}

-- the same with two entries under one id
abbrev doubled : LinearHashing ℕ
doubled = record pair { buckets = (entry 6 (some 8) ∷ entry 6 (some 7) ∷ []) ∷ [] ∷ [] }

pair-IsPlaced : IsPlaced 2 0 pair.buckets
pair-IsPlaced zero = (refl, tt)
pair-IsPlaced (suc zero) = (refl, tt)
pair-IsPlaced (suc (suc i)) = tt

doubled-IsPlaced : IsPlaced 2 0 doubled.buckets
doubled-IsPlaced zero = (refl, (refl, tt))
doubled-IsPlaced (suc zero) = tt
doubled-IsPlaced (suc (suc i)) = tt

pair-IsValid : IsValid pair
unfolding total
pair-IsValid = record {
  exponent = 1;
  m = 2;
  power = refl;
  round = refl;
  room = omega arith;
  next_lt = omega arith;
  width = refl;
  placed = pair-IsPlaced;
  counted = refl;
}

doubled-IsValid : IsValid doubled
unfolding total
doubled-IsValid = record {
  exponent = 1;
  m = 2;
  power = refl;
  round = refl;
  room = omega arith;
  next_lt = omega arith;
  width = refl;
  placed = doubled-IsPlaced;
  counted = refl;
}

length-workers_of-le : (q : ℕ) (c : LinearHashing.Chain) → length (workers_of q c) ≤ length c
unfolding workers_of
length-workers_of-le q [] = omega arith
length-workers_of-le q (e ∷ es) = ground (arith, length-workers_of-le q es)

short_chains : (i : ℕ) → length (get_or pair.buckets i []) ≤ 1
short_chains zero = omega arith
short_chains (suc zero) = omega arith
short_chains (suc (suc i)) = omega arith

pair-IsDistinct : IsDistinct pair
unfolding stored
pair-IsDistinct q =
    let i = LinearHashing.get_bucket_index pair q in
    omega (arith, length-workers_of-le q (get_or pair.buckets i []), short_chains i)

-- runs

hash_wide : hash 4 0x1_0000_0007 1 ≡ 7
unfolding program
hash_wide = refl

split_runs : LinearHashing.split doubled >>= (λ t. LinearHashing.lookup t 6) ≡ ok (some 7)
unfolding program
split_runs = refl

insert_runs :
    LinearHashing.insert pair 9 (some 4)
      >>= (λ t. ok (t.next ∷ length t.buckets ∷ t.num_records ∷ []))
    ≡ ok (1 ∷ 3 ∷ 3 ∷ [])
unfolding program
insert_runs = refl

-- witnesses

hash-mod_example : hash (2 ^ 2) 0x1_0000_0007 1 ≡ 0x1_0000_0007 % 2 ^ (2 + 1)
hash-mod_example = hash-mod 2 1 0x1_0000_0007 (omega arith)

round_up_lem_example : round_up 21 ≡ 2 ^ suc 4 % u32_mod
round_up_lem_example = round_up_lem 4 21 (omega arith) (omega arith) (omega arith) (omega arith)

new_table-IsFresh_example : IsFresh 21 (LinearHashing.new {D = ℕ} 21 750)
new_table-IsFresh_example = new_table-IsFresh {D = ℕ} 21 750 (omega arith) (omega arith)

split_lem_example :
    (t' : LinearHashing ℕ) × (LinearHashing.split doubled ≡ ok t') × Splits doubled t'
split_lem_example = split_lem doubled doubled-IsValid (omega arith)

insert_lem_example :
    (t' : LinearHashing ℕ) × (LinearHashing.insert pair 9 (some 4) ≡ ok t')
    × Inserts pair 9 (some 4) t'
unfolding program
insert_lem_example = insert_lem pair 9 (some 4) pair-IsValid pair-IsDistinct refl (omega arith)

batch_insert_lem_example :
    (t' : LinearHashing ℕ) × (LinearHashing.batch_insert pair ((9, some 4) ∷ (4, some 6) ∷ [])
      ≡ ok t')
    × IsValid t'
    × IsDistinct t'
    × ((q : ℕ)
        → stored t' q ≡ after_batch (stored pair q) (entry_for q ((9, some 4) ∷ (4, some 6) ∷ [])))
unfolding program entry_for
batch_insert_lem_example =
    batch_insert_lem pair ((9, some 4) ∷ (4, some 6) ∷ []) pair-IsValid pair-IsDistinct
      (refl, refl, (refl, refl, tt)) (omega arith)

remove_lem_example :
    (t' : LinearHashing ℕ) × (LinearHashing.remove doubled 6
      ≡ ok (not (is_empty (stored doubled 6)), first (stored doubled 6), t'))
    × Removes doubled 6 t'
remove_lem_example = remove_lem doubled 6 doubled-IsValid

lookup-split_older_example :
    (LinearHashing.lookup doubled 6 ≡ ok (some 8))
    × ((t' : LinearHashing ℕ) × (LinearHashing.split doubled ≡ ok t')
        × (LinearHashing.lookup t' 6 ≡ ok (some 7)))
unfolding program
lookup-split_older_example =
    lookup-split_older doubled 6 (some 8) (some 7) doubled-IsValid (omega arith) refl refl
