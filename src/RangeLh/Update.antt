-- ===== src/RangeLh/Update.antt =====
-- New data for a worker of the chain of Implement/rangeLH.cpp: what `updateData` and `deleteData`
-- do.
use range_lh_cplus_plus.Base.{
  ℕ, suc, ◌≡◌, ◌≢◌, refl, sym, ap, ◌∙◌, arith, List, [], ◌∷◌, Option, none, some, not, ◌==◌,
  if◌then◌else◌, length, set, length-set, Bool-cases, inl, inr, ==→eq, ==_false→ne, ltb, ltb→lt,
  none_ne_some,
}
use range_lh_cplus_plus.Base.Run.{ok, at}
use range_lh_cplus_plus.Base.Vectors.{at-lt, at-set_self, at-set_ne}
use range_lh_cplus_plus.Base.Ints.{ℤ}
use range_lh_cplus_plus.LinearHashing.{Ptr}
use range_lh_cplus_plus.Workers.{Worker, Heap, is_null, has_data}
use range_lh_cplus_plus.RangeLh.{RangeLh}
use range_lh_cplus_plus.RangeLh.Cells.{
  Cell, Ascending, locate, tail_of, put, locate-head, locate-later, locate-below,
}
use range_lh_cplus_plus.RangeLh.Chain.{
  Links, as_worker, Keeps, Links-frame, tail_of-front, locate-Links, ok-injective, some-injective,
}
use range_lh_cplus_plus.RangeLh.Valid.{IsValid}

-- the cells with other data under a key
unfoldable pub with_datum : ℕ → Ptr → List Cell → List Cell
with_datum q d [] = []
with_datum q d (c ∷ cs) =
    let rest = with_datum q d cs in if c.id == q then record c { datum = d } ∷ cs else c ∷ rest

-- what is stored under a key, if there is something
unfoldable pub datum_of : List Cell → ℕ → Option Ptr
datum_of [] q = none
datum_of (c ∷ cs) q =
    if c.id == q then (if not (is_null c.datum) then some c.datum else none) else datum_of cs q

pub locate-with_datum :
    (q : ℕ) (d : Ptr) (cs : List Cell) (q' : ℕ) → locate (with_datum q d cs) q' ≡ locate cs q'
unfolding with_datum locate
locate-with_datum q d [] q' = refl
locate-with_datum q d (c ∷ cs) q' = ground (arith, locate-with_datum q d cs q')

with_datum-Ascending :
    (q : ℕ) (d : Ptr) (lo : ℕ) (cs : List Cell) → Ascending lo cs → Ascending lo (with_datum q d cs)
unfolding with_datum
with_datum-Ascending q d lo [] s = tt
with_datum-Ascending q d lo (c ∷ cs) (le, s) = elim (Bool-cases (c.id == q)) [
  | inl same ↦ rw same (le, s)
  | inr other ↦ rw other (le, with_datum-Ascending q d (suc c.id) cs s)
]

length-with_datum : (q : ℕ) (d : Ptr) (cs : List Cell) → length (with_datum q d cs) ≡ length cs
unfolding with_datum
length-with_datum q d [] = refl
length-with_datum q d (c ∷ cs) = ground (arith, length-with_datum q d cs)

tail_of-with_datum : (q : ℕ) (d : Ptr) (cs : List Cell) → tail_of (with_datum q d cs) ≡ tail_of cs
unfolding with_datum
tail_of-with_datum q d [] = refl
tail_of-with_datum q d (c ∷ cs) = elim (Bool-cases (c.id == q)) [
  | inl same ↦ rw same (tail_of-front (record c { datum = d }) cs ∙ sym (tail_of-front c cs))
  | inr other ↦
      rw (other, tail_of-front c (with_datum q d cs), tail_of-with_datum q d cs)
        (sym (tail_of-front c cs))
]

-- To put a cell under a key that is there is to change its data.
pub put-with_datum :
    (n : Cell) (lo : ℕ) (cs : List Cell) (a : ℕ)
    → Ascending lo cs
    → locate cs n.id ≡ some a
    → put n cs ≡ with_datum n.id n.datum cs
unfolding put with_datum locate
put-with_datum n lo [] a s e = absurd (none_ne_some e)
put-with_datum n lo (c ∷ cs) a (le, s) e = elim (Bool-cases (c.id == n.id)) [
  | inl same ↦ rw same refl
  | inr other ↦
      let e' : locate cs n.id ≡ some a =
        sym (locate-later c cs n.id (==_false→ne c.id n.id other)) ∙ e in
      rw other (elim (Bool-cases (ltb n.id c.id)) [
        | inl below ↦ absurd (
            none_ne_some (
              sym (locate-below (suc c.id) cs n.id s (omega (arith, ltb→lt n.id c.id below))) ∙ e'))
        | inr above ↦ rw above (ap (λ r. c ∷ r) (put-with_datum n (suc c.id) cs a s e'))
      ])
]

set-Keeps :
    (ws : Heap) (a : ℕ) (w : Worker) (d : Ptr) → Keeps ws (set ws a (record w { datum = d })) a
set-Keeps ws a w d a' x ne e = at-set_ne ws a a' (record w { datum = d }) (λ p. ne (sym p)) ∙ e

-- The chain with a worker's data changed.
pub with_datum-Links :
    (ws : Heap) (q a : ℕ) (w : Worker) (d : Ptr) (lo : ℕ) (p : Ptr) (cs : List Cell)
    → Ascending lo cs
    → Links ws p cs
    → locate cs q ≡ some a
    → at ws a ≡ ok w
    → Links (set ws a (record w { datum = d })) p (with_datum q d cs)
unfolding with_datum locate
with_datum-Links ws q a w d lo p [] s l e there = absurd (none_ne_some e)
with_datum-Links ws q a w d lo p (c ∷ cs) (le, s) (here, n, cell, l) e there =
    elim (Bool-cases (c.id == q)) [
      | inl same ↦
          let at_a : c.address ≡ a =
            some-injective (sym (locate-head c cs q (==→eq c.id q same)) ∙ e) in
          let is_w : as_worker c n ≡ w = ok-injective (sym cell ∙ ap (at ws) at_a ∙ there) in
          let id : c.id ≡ w.data_id = ap (λ (x : Worker). x.data_id) is_w in
          let changed : at (set ws a (record w { datum = d })) c.address
              ≡ ok (as_worker (record c { datum = d }) n) =
            ap (at (set ws a (record w { datum = d }))) at_a
            ∙ at-set_self ws a (record w { datum = d }) (at-lt ws a w there)
            ∙ ap (λ (x : Worker). ok (record x { datum = d })) (sym is_w) in
          rw same (
            here,
            n,
            changed,
            Links-frame ws _ a w (suc c.id) n cs (set-Keeps ws a w d) there (omega arith) s l,
          )
      | inr other ↦
          let e' : locate cs q ≡ some a =
            sym (locate-later c cs q (==_false→ne c.id q other)) ∙ e in
          let (w', at_w', id) = locate-Links ws n cs q a l e' in
          let apart : c.address ≢ a = λ at_a.
            let ids : c.id ≡ w'.data_id =
              ap (λ (x : Worker). x.data_id) (ok-injective (sym cell ∙ ap (at ws) at_a ∙ at_w')) in
            absurd (==_false→ne c.id q other (ids ∙ id)) in
          rw other (
            here,
            n,
            set-Keeps ws a w d c.address (as_worker c n) apart cell,
            with_datum-Links ws q a w d (suc c.id) n cs s l e' there,
          )
    ]

-- The data under a key are those of its worker.
pub datum_of-worker :
    (ws : Heap) (p : Ptr) (cs : List Cell) (q a : ℕ) (w : Worker)
    → Links ws p cs
    → locate cs q ≡ some a
    → at ws a ≡ ok w
    → datum_of cs q ≡ (if has_data w then some w.datum else none)
unfolding datum_of locate has_data
datum_of-worker ws p [] q a w l e there = absurd (none_ne_some e)
datum_of-worker ws p (c ∷ cs) q a w (here, n, cell, l) e there = elim (Bool-cases (c.id == q)) [
  | inl same ↦
      let at_a : c.address ≡ a =
        some-injective (sym (locate-head c cs q (==→eq c.id q same)) ∙ e) in
      let is_w : as_worker c n ≡ w = ok-injective (sym cell ∙ ap (at ws) at_a ∙ there) in
      rw (same, ← is_w) refl
  | inr other ↦ rw other (
      datum_of-worker ws n cs q a w l (sym (locate-later c cs q (==_false→ne c.id q other)) ∙ e)
        there)
]

pub datum_of-none : (cs : List Cell) (q : ℕ) → locate cs q ≡ none → datum_of cs q ≡ none
unfolding datum_of locate
datum_of-none [] q e = refl
datum_of-none (c ∷ cs) q e = ground (arith, datum_of-none cs q)

-- The index with other data in the worker of a key, and another count, is valid.
pub with_datum-IsValid :
    {D : Type 0} {t : RangeLh D} (v : IsValid t) (q a : ℕ) (w : Worker) (d : Ptr) (n : ℤ)
    → locate v.cells q ≡ some a
    → at t.workers a ≡ ok w
    → (v' : IsValid
        (record t { workers = set t.workers a (record w { datum = d }); num_active_worker = n }))
      × (v'.cells ≡ with_datum q d v.cells)
with_datum-IsValid {D} {t} v q a w d n found there = (
  record {
    cells = with_datum q d v.cells;
    table = v.table;
    distinct = v.distinct;
    filter = v.filter;
    roomy = v.roomy;
    same_delta = v.same_delta;
    some_levels = v.some_levels;
    linked =
        with_datum-Links t.workers q a w d 0 t.worker_head v.cells v.sorted v.linked found there;
    sorted = with_datum-Ascending q d 0 v.cells v.sorted;
    tail = v.tail ∙ sym (tail_of-with_datum q d v.cells);
    indexed = λ q'. rw (locate-with_datum q d v.cells q') (v.indexed q');
    members = λ q' b i f. v.members q' b i (sym (locate-with_datum q d v.cells q') ∙ f);
    inside = λ q' far. rw (locate-with_datum q d v.cells q') (v.inside q' far);
    sized =
        length-with_datum q d v.cells
        ∙ v.sized
        ∙ sym (length-set t.workers a (record w { datum = d }));
  },
  refl,
)
