-- ===== src/RangeLh/Valid.antt =====
-- The invariant of the index of Implement/rangeLH.cpp: the chain, the table and the filter agree on
-- one sorted list of cells.
use range_lh_cplus_plus.Base.{
  ℕ, ◌-◌, ◌≤◌, ◌<◌, ◌≡◌, ◌≢◌, refl, sym, ap, ◌∙◌, arith, List, [], ◌∷◌, none, some, true, false,
  length, Option-cases, inl, inr,
}
use range_lh_cplus_plus.Base.Words.{sub64_small}
use range_lh_cplus_plus.Base.Run.{ok}
use range_lh_cplus_plus.Base.Smear.{mul_mono}
use range_lh_cplus_plus.LinearHashing.{Ptr, lookup}
use range_lh_cplus_plus.LinearHashing.Valid as Table
use range_lh_cplus_plus.LinearHashing.Valid.{stored, lookup-first}
use range_lh_cplus_plus.LinearHashing.Chain.{first}
use range_lh_cplus_plus.LinearHashing.Insert.{IsDistinct}
use range_lh_cplus_plus.BloomRf.{get_max_level}
use range_lh_cplus_plus.BloomRf.Hashing as Filter
use range_lh_cplus_plus.BloomRf.Members.{
  IsRoomy, has_prefix, check_at_level-has_prefix, has_prefix_congr,
}
use range_lh_cplus_plus.RangeLh.{RangeLh}
use range_lh_cplus_plus.RangeLh.Nodes.{span}
use range_lh_cplus_plus.RangeLh.Search.{Reads}
use range_lh_cplus_plus.RangeLh.Cells.{Cell, Ascending, locate, tail_of}
use range_lh_cplus_plus.RangeLh.Chain.{Links}

-- what the table holds under a key
abbrev pub entries : Ptr → List Ptr
entries none = []
entries (some a) = some a ∷ []

-- the keys that the searches reach lie below this bound
abbrev pub capacity : {D : Type 0} → RangeLh D → ℕ
capacity t = span t.delta_bloom_rf (get_max_level t.bloom_rf)

pub record IsValid {D : Type 0} (t : RangeLh D) : Type 0 where
  pub cells : List Cell
  pub table : Table.IsValid t.master_lh
  pub distinct : IsDistinct t.master_lh
  pub filter : Filter.IsValid t.bloom_rf
  pub roomy : IsRoomy t.bloom_rf
  pub same_delta : t.delta_bloom_rf ≡ t.bloom_rf.delta
  pub some_levels : 0 < t.bloom_rf.k
  pub linked : Links t.workers t.worker_head cells
  pub sorted : Ascending 0 cells
  pub tail : t.worker_tail ≡ tail_of cells
  pub indexed : (q : ℕ) → stored t.master_lh q ≡ entries (locate cells q)
  pub members :
      (q a i : ℕ) → locate cells q ≡ some a → i < t.bloom_rf.k → has_prefix t.bloom_rf q i ≡ true
  pub inside : (q : ℕ) → capacity t ≤ q → locate cells q ≡ none
  pub sized : length cells ≡ length t.workers

first-entries : (p : Ptr) → first (entries p) ≡ p
first-entries none = refl
first-entries (some a) = refl

true_ne_false : true ≢ false
true_ne_false e = cc

module _ {D : Type 0} {t : RangeLh D} (v : IsValid t) where
  pub lookup-locate : (q : ℕ) → lookup t.master_lh q ≡ ok (locate v.cells q)
  lookup-locate q =
      lookup-first v.table q ∙ ap ok (rw (v.indexed q) (first-entries (locate v.cells q)))

  pub stored-none : (q : ℕ) → locate v.cells q ≡ none → stored t.master_lh q ≡ []
  stored-none q absent = v.indexed q ∙ ap entries absent

  -- The searches may rely on the table and the filter.
  pub valid-Reads : Reads t (locate v.cells)
  unfolding get_max_level
  valid-Reads =
      let f = t.bloom_rf in
      let few : f.k ≤ 64 =
        omega (arith, mul_mono 1 f.delta f.k v.filter.delta_pos, v.filter.depth) in
      let top : get_max_level f ≡ f.k - 1 = sub64_small f.k 1 (omega arith) v.some_levels in
      record {
        looks = lookup-locate;
        checks = λ q level below. (
          has_prefix f q level,
          check_at_level-has_prefix v.filter v.roomy q level below,
          λ missing q' same. elim (Option-cases (locate v.cells q')) [
            | inl absent ↦ absent
            | inr (a, found) ↦ absurd (
                true_ne_false (
                  sym (v.members q' a level found below)
                  ∙ has_prefix_congr v.filter q' q level (rw (← v.same_delta) same)
                  ∙ missing))
          ],
        );
        levels = omega (arith, top, v.some_levels);
        inside = v.inside;
        narrow = omega (arith, v.same_delta, v.filter.delta_lt);
        deep = rw v.same_delta (
            omega (
              arith,
              Filter.level_depth v.filter (get_max_level f) (omega (arith, top, v.some_levels)),
              v.filter.delta_pos,
            ));
      }
