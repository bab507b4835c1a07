-- ===== src/BPlusTree/Walk.antt =====
-- The loop down the chain of leaves that the methods of BPlusTree/bPlusTree.cpp share: it ends
-- within as many rounds as there are leaves, and what its body appends for a whole list of leaves.
use range_lh_cplus_plus.Base.{
  ℕ, zero, suc, ◌≡◌, ◌<◌, ◌≤◌, refl, sym, ap, ◌∙◌, arith, List, [], ◌∷◌, ◌++◌, length, map,
  if◌then◌else◌, Bool-cases, inl, inr, Bool, false, leb, ltb, ◌&&◌,
}
use range_lh_cplus_plus.Base.Run.{ok}
use range_lh_cplus_plus.LinearHashing.{Ptr, nullptr}
use mathlib.Core.List.{append-nil, map-append}
use range_lh_cplus_plus.BPlusTree.{Record, Leaf, walk, scan_records}
use range_lh_cplus_plus.BPlusTree.Chain.{Segment, Leads, records_of}
use range_lh_cplus_plus.BPlusTree.Ascent.{Ascending, Ascending-le, Ascending-behind}

module _ {B : Type 0} where
  -- what a body appends for the leaves from one on, up to the leaf where it returns
  abbrev pub visit_all : (Leaf → List B × Bool) → List Leaf → List B
  visit_all visit [] = []
  visit_all visit (leaf ∷ rest) =
      let later = visit_all visit rest in
      if (visit leaf).1 then (visit leaf).0 else (visit leaf).0 ++ later

  pub walk_lem :
      (heap : List Leaf) (visit : Leaf → List B × Bool) (fuel : ℕ) (leaf : Leaf) (rest : List Leaf)
      → Leads heap rest
      → Segment leaf.next rest nullptr
      → length rest < fuel
      → walk heap visit fuel leaf ≡ ok (visit_all visit (leaf ∷ rest))
  unfolding walk
  walk_lem heap visit zero leaf rest found chain l = absurd (omega arith)
  walk_lem heap visit (suc fuel) leaf [] found chain l = elim (Bool-cases (visit leaf).1) [
    | inl e ↦ rw e refl
    | inr e ↦
        let ended : walk heap visit (suc fuel) leaf ≡ ok (visit leaf).0 = simp (e, chain) refl in
        ended ∙ rw e (ap ok (sym (append-nil (visit leaf).0)))
  ]
  walk_lem heap visit (suc fuel) leaf (next ∷ rest) (found, later) (link, chain) l =
      let ih = walk_lem heap visit fuel next rest later chain (omega arith) in
      elim (Bool-cases (visit leaf).1) [
        | inl e ↦ rw e refl
        | inr e ↦ simp (e, link, found, ih) refl
      ]

pub visit_all-map :
    {B : Type 0} (f : Record → B) (ls : List Leaf)
    → visit_all (λ leaf. (map f leaf.records, false)) ls ≡ map f (records_of ls)
visit_all-map f [] = refl
visit_all-map f (leaf ∷ ls) =
    ap (λ xs. map f leaf.records ++ xs) (visit_all-map f ls)
    ∙ sym (map-append f leaf.records (records_of ls))

-- the data under the keys from one to another
unfoldable pub data_between : (key_start key_end : ℕ) → List Record → List Ptr
data_between s e [] = []
data_between s e ((k, d) ∷ rest) =
    let later = data_between s e rest in if leb s k && leb k e then d ∷ later else later

pub data_between-append :
    (s e : ℕ) (xs ys : List Record)
    → data_between s e (xs ++ ys) ≡ data_between s e xs ++ data_between s e ys
unfolding data_between
data_between-append s e [] ys = refl
data_between-append s e ((k, d) ∷ xs) ys = ground (arith, data_between-append s e xs ys)

pub data_between-below :
    (s e lo hi : ℕ) (xs : List Record) → Ascending lo hi xs → hi ≤ s → data_between s e xs ≡ []
unfolding data_between
data_between-below s e lo hi [] a l = refl
data_between-below s e lo hi ((k, d) ∷ xs) (b, a) l =
    ground (arith, data_between-below s e (suc k) hi xs a l, Ascending-le (suc k) hi xs a)

pub data_between-above :
    (s e lo hi : ℕ) (xs : List Record) → Ascending lo hi xs → e < lo → data_between s e xs ≡ []
unfolding data_between
data_between-above s e lo hi [] a l = refl
data_between-above s e lo hi ((k, d) ∷ xs) (b, a) l =
    ground (arith, data_between-above s e (suc k) hi xs a (omega arith))

-- A scan that is broken off has met a key above the range.
scan_records_lem :
    (s e lo hi : ℕ) (xs ys : List Record)
    → Ascending lo hi (xs ++ ys)
    → (if (scan_records s e xs).1
        then (scan_records s e xs).0
        else (scan_records s e xs).0 ++ data_between s e ys)
      ≡ data_between s e (xs ++ ys)
unfolding scan_records data_between
scan_records_lem s e lo hi [] ys a = refl
scan_records_lem s e lo hi ((k, d) ∷ xs) ys (b, a) =
    let ih = scan_records_lem s e (suc k) hi xs ys a in
    elim (Bool-cases (leb s k && leb k e)) [
      | inl f ↦ elim (Bool-cases (scan_records s e xs).1) [
        | inl g ↦ rw (f, g) (ap (λ ds. d ∷ ds) (rw g at ih))
        | inr g ↦ rw (f, g) (ap (λ ds. d ∷ ds) (rw g at ih))
      ]
      | inr f ↦ elim (Bool-cases (ltb e k)) [
        | inl g ↦ rw (f, g) (sym (data_between-above s e (suc k) hi (xs ++ ys) a (ground arith)))
        | inr g ↦ rw (f, g) ih
      ]
    ]

pub visit_all-scan_records :
    (s e lo hi : ℕ) (ls : List Leaf)
    → Ascending lo hi (records_of ls)
    → visit_all (λ leaf. scan_records s e leaf.records) ls ≡ data_between s e (records_of ls)
unfolding data_between
visit_all-scan_records s e lo hi [] a = refl
visit_all-scan_records s e lo hi (leaf ∷ ls) a =
    let (m, later) = Ascending-behind lo hi leaf.records (records_of ls) a in
    rw (visit_all-scan_records s e m hi ls later)
      (scan_records_lem s e lo hi leaf.records (records_of ls) a)
