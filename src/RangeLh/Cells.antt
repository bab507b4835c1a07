-- ===== src/RangeLh/Cells.antt =====
-- The abstract view of the chain of workers of Implement/rangeLH.cpp: a list of cells, sorted by
-- id.
use range_lh_cplus_plus.Base.{
  none_ne_some, ℕ, suc, ◌≤◌, ◌<◌, ◌≡◌, ◌≢◌, refl, sym, ◌∙◌, arith, List, [], ◌∷◌, none, some, ◌==◌,
  ltb, if◌then◌else◌, length, Bool-cases, inl, inr, ==→eq, eq→==, ==_false→ne, ne→==_false, ltb→lt,
  lt→ltb, ltb_false→le, le→ltb_false,
}
use range_lh_cplus_plus.LinearHashing.{Ptr, nullptr}

-- A worker of the chain: its address, its key and its data.
pub record Cell : Type 0 where
  pub address : ℕ
  pub id : ℕ
  pub datum : Ptr

-- the ids ascend from `lo` on
abbrev pub Ascending : (lo : ℕ) → List Cell → Type 0
Ascending lo [] = Unit
Ascending lo (c ∷ cs) = (lo ≤ c.id) × Ascending (suc c.id) cs

-- the worker of a key
unfoldable pub locate : List Cell → ℕ → Ptr
locate [] q = nullptr
locate (c ∷ cs) q = if c.id == q then some c.address else locate cs q

-- the last worker
unfoldable pub tail_of : List Cell → Ptr
tail_of [] = nullptr
tail_of (c ∷ []) = some c.address
tail_of (c ∷ d ∷ cs) = tail_of (d ∷ cs)

-- What insertion means: new data for the key's cell, or a new cell at the key's place.
unfoldable pub put : Cell → List Cell → List Cell
put n [] = n ∷ []
put n (c ∷ cs) =
    let rest = put n cs in
    if c.id == n.id
    then record c { datum = n.datum } ∷ cs
    else (if ltb n.id c.id then n ∷ c ∷ cs else c ∷ rest)

pub Ascending-mono : (lo hi : ℕ) (cs : List Cell) → lo ≤ hi → Ascending hi cs → Ascending lo cs
Ascending-mono lo hi [] h s = tt
Ascending-mono lo hi (c ∷ cs) h (le, s) = (omega arith, s)

pub locate-head :
    (c : Cell) (cs : List Cell) (q : ℕ) → c.id ≡ q → locate (c ∷ cs) q ≡ some c.address
unfolding locate
locate-head c cs q e = rw (eq→== c.id q e)

pub locate-later : (c : Cell) (cs : List Cell) (q : ℕ) → c.id ≢ q → locate (c ∷ cs) q ≡ locate cs q
unfolding locate
locate-later c cs q e = rw (ne→==_false c.id q e)

pub locate-below : (lo : ℕ) (cs : List Cell) (q : ℕ) → Ascending lo cs → q < lo → locate cs q ≡ none
unfolding locate
locate-below lo [] q s h = refl
locate-below lo (c ∷ cs) q (le, s) h =
    rw (ne→==_false c.id q (omega arith)) (locate-below (suc c.id) cs q s (omega arith))

-- With no id up to `key`, the ids ascend from beyond it.
pub Ascending-above :
    (lo key : ℕ) (cs : List Cell)
    → Ascending lo cs
    → ((q : ℕ) → lo ≤ q → q ≤ key → locate cs q ≡ none)
    → Ascending (suc key) cs
unfolding locate
Ascending-above lo key [] s gap = tt
Ascending-above lo key (c ∷ cs) (le, s) gap = elim (Bool-cases (ltb key c.id)) [
  | inl above ↦ (ltb→lt key c.id above, s)
  | inr below ↦
      absurd (
        none_ne_some (sym (gap c.id le (ltb_false→le key c.id below)) ∙ locate-head c cs c.id refl))
]

pub put-front : (n : Cell) (cs : List Cell) → Ascending (suc n.id) cs → put n cs ≡ n ∷ cs
unfolding put
put-front n [] s = refl
put-front n (c ∷ cs) (le, s) =
    rw (ne→==_false c.id n.id (omega arith), lt→ltb n.id c.id (omega arith)) refl

pub put-Ascending :
    (lo : ℕ) (n : Cell) (cs : List Cell) → lo ≤ n.id → Ascending lo cs → Ascending lo (put n cs)
unfolding put
put-Ascending lo n [] h s = (h, tt)
put-Ascending lo n (c ∷ cs) h (le, s) = elim (Bool-cases (c.id == n.id)) [
  | inl same ↦ rw same (le, s)
  | inr other ↦ rw other (elim (Bool-cases (ltb n.id c.id)) [
    | inl below ↦ rw below (h, (ltb→lt n.id c.id below, s))
    | inr above ↦ rw above (
      le,
      put-Ascending (suc c.id) n cs
          (omega (arith, ltb_false→le n.id c.id above, ==_false→ne c.id n.id other)) s,
    )
  ])
]

-- A key is found at the cell that was put, the others where they were.
locate-put_self :
    (n : Cell) (cs : List Cell) → locate cs n.id ≡ none → locate (put n cs) n.id ≡ some n.address
unfolding put
locate-put_self n [] absent = locate-head n [] n.id refl
locate-put_self n (c ∷ cs) absent = elim (Bool-cases (c.id == n.id)) [
  | inl same ↦ absurd (none_ne_some (sym absent ∙ locate-head c cs n.id (==→eq c.id n.id same)))
  | inr other ↦
      let ne = ==_false→ne c.id n.id other in
      rw other (elim (Bool-cases (ltb n.id c.id)) [
        | inl below ↦ rw below (locate-head n (c ∷ cs) n.id refl)
        | inr above ↦
            rw (above, locate-later c (put n cs) n.id ne)
              (locate-put_self n cs (sym (locate-later c cs n.id ne) ∙ absent))
      ])
]

pub locate-put_ne :
    (n : Cell) (cs : List Cell) (q : ℕ) → n.id ≢ q → locate (put n cs) q ≡ locate cs q
unfolding put
locate-put_ne n [] q ne = locate-later n [] q ne
locate-put_ne n (c ∷ cs) q ne = elim (Bool-cases (c.id == n.id)) [
  | inl same ↦ rw same (elim (Bool-cases (c.id == q)) [
    | inl here ↦ absurd (ne (sym (==→eq c.id n.id same) ∙ ==→eq c.id q here))
    | inr there ↦
        locate-later (record c { datum = n.datum }) cs q (==_false→ne c.id q there)
        ∙ sym (locate-later c cs q (==_false→ne c.id q there))
  ])
  | inr other ↦ rw other (elim (Bool-cases (ltb n.id c.id)) [
    | inl below ↦ rw below (locate-later n (c ∷ cs) q ne)
    | inr above ↦ rw above (elim (Bool-cases (c.id == q)) [
      | inl here ↦
          locate-head c (put n cs) q (==→eq c.id q here)
          ∙ sym (locate-head c cs q (==→eq c.id q here))
      | inr there ↦
          locate-later c (put n cs) q (==_false→ne c.id q there)
          ∙ locate-put_ne n cs q ne
          ∙ sym (locate-later c cs q (==_false→ne c.id q there))
    ])
  ])
]

pub locate-put :
    (n : Cell) (cs : List Cell) (q : ℕ)
    → locate cs n.id ≡ none
    → locate (put n cs) q ≡ (if q == n.id then some n.address else locate cs q)
locate-put n cs q absent = elim (Bool-cases (q == n.id)) [
  | inl same ↦ rw (same, ==→eq q n.id same) (locate-put_self n cs absent)
  | inr other ↦ rw other (locate-put_ne n cs q (λ e. ==_false→ne q n.id other (sym e)))
]

pub length-put :
    (n : Cell) (cs : List Cell) → locate cs n.id ≡ none → length (put n cs) ≡ suc (length cs)
unfolding put locate
length-put n [] absent = refl
length-put n (c ∷ cs) absent = elim (Bool-cases (c.id == n.id)) [
  | inl same ↦ absurd (none_ne_some (sym absent ∙ locate-head c cs n.id (==→eq c.id n.id same)))
  | inr other ↦ rw other (elim (Bool-cases (ltb n.id c.id)) [
    | inl below ↦ rw below refl
    | inr above ↦ rw above (
        omega (
          arith,
          length-put n cs (sym (locate-later c cs n.id (==_false→ne c.id n.id other)) ∙ absent),
        ))
  ])
]

pub put-after : (n c : Cell) (cs : List Cell) → c.id < n.id → put n (c ∷ cs) ≡ c ∷ put n cs
unfolding put
put-after n c cs h =
    rw (ne→==_false c.id n.id (omega arith), le→ltb_false n.id c.id (omega arith)) refl
