-- ===== src/BPlusTree/Chain.antt =====
-- The list of leaves of BPlusTree/bPlusTree.cpp: the chain of the `next` pointers, the leaf that an
-- address stands for, and what a change inside the list keeps of both.
use range_lh_cplus_plus.Base.{
  ℕ, suc, ◌+◌, ◌≡◌, ◌≤◌, refl, sym, ap, ◌∙◌, subst, arith, List, [], ◌∷◌, ◌++◌, All, some, ◌==◌,
  if◌then◌else◌, Bool-cases, inl, inr, eq→==,
}
use range_lh_cplus_plus.Base.Run.{ok}
use range_lh_cplus_plus.LinearHashing.{Ptr}
use mathlib.Core.List.{append_assoc}
use range_lh_cplus_plus.BPlusTree.{Leaf, Record, leaf_at}

-- From the pointer `p` the chain runs through the leaves and leaves them with `q`.
abbrev pub Segment : Ptr → List Leaf → Ptr → Type 0
Segment p [] q = p ≡ q
Segment p (leaf ∷ rest) q = (p ≡ some leaf.address) × Segment leaf.next rest q

-- how many leaves have the address
abbrev pub occurrences : (address : ℕ) → List Leaf → ℕ
occurrences a [] = 0
occurrences a (leaf ∷ rest) = let n = occurrences a rest in if leaf.address == a then suc n else n

abbrev pub records_of : List Leaf → List Record
records_of [] = []
records_of (leaf ∷ rest) = leaf.records ++ records_of rest

pub Segment-append :
    (p : Ptr) (xs ys : List Leaf) (q : Ptr)
    → Segment p (xs ++ ys) q
    → (m : Ptr) × Segment p xs m × Segment m ys q
Segment-append p [] ys q s = (p, refl, s)
Segment-append p (x ∷ xs) ys q (e, s) =
    let (m, l, r) = Segment-append x.next xs ys q s in (m, (e, l), r)

pub append-Segment :
    (p m q : Ptr) (xs ys : List Leaf) → Segment p xs m → Segment m ys q → Segment p (xs ++ ys) q
append-Segment p m q [] ys e s = rw e s
append-Segment p m q (x ∷ xs) ys (e, l) s = (e, append-Segment x.next m q xs ys l s)

pub occurrences-append :
    (a : ℕ) (xs ys : List Leaf) → occurrences a (xs ++ ys) ≡ occurrences a xs + occurrences a ys
occurrences-append a [] ys = omega arith
occurrences-append a (x ∷ xs) ys = ground (arith, occurrences-append a xs ys)

pub records_of-append : (xs ys : List Leaf) → records_of (xs ++ ys) ≡ records_of xs ++ records_of ys
records_of-append [] ys = refl
records_of-append (x ∷ xs) ys =
    ap (λ rs. x.records ++ rs) (records_of-append xs ys) ∙ sym (append_assoc x.records _ _)

-- A change of a list of leaves that keeps its ends linked to the rest, with at most `extra` new
-- leaves at an address.
abbrev pub Relinks : (extra : ℕ → ℕ) → (old changed : List Leaf) → Type 0
Relinks extra old changed =
    ((p q : Ptr) → Segment p old q → Segment p changed q)
    × ((a : ℕ) → occurrences a changed ≤ occurrences a old + extra a)

abbrev pub only : (fresh : ℕ) → ℕ → ℕ
only fresh a = if fresh == a then 1 else 0

-- no new address
abbrev pub nowhere : ℕ → ℕ
nowhere a = 0

pub Relinks-same : (old changed : List Leaf) → old ≡ changed → Relinks nowhere old changed
Relinks-same old changed e = subst (Relinks nowhere old) e ((λ p q s. s), λ a. omega arith)

pub Relinks-trans :
    (old middle changed : List Leaf)
    → Relinks nowhere old middle
    → Relinks nowhere middle changed
    → Relinks nowhere old changed
Relinks-trans old middle changed (links, counts) (links_, counts_) =
    ((λ p q s. links_ p q (links p q s)), λ a. omega (arith, counts a, counts_ a))

pub Relinks-within :
    (extra : ℕ → ℕ) (xs old changed ys : List Leaf)
    → Relinks extra old changed
    → Relinks extra (xs ++ (old ++ ys)) (xs ++ (changed ++ ys))
Relinks-within extra xs old changed ys (links, counts) = (
  λ p q s.
      let (m, before, s_) = Segment-append p xs (old ++ ys) q s in
      let (n, inside, behind) = Segment-append m old ys q s_ in
      append-Segment p m q xs (changed ++ ys) before
        (append-Segment m n q changed ys (links m n inside) behind),
  λ a. omega (
    arith,
    counts a,
    occurrences-append a xs (old ++ ys),
    occurrences-append a old ys,
    occurrences-append a xs (changed ++ ys),
    occurrences-append a changed ys,
  ),
)

-- the address of every leaf leads to it
abbrev pub Leads : (heap : List Leaf) → List Leaf → Type 0
Leads heap leaves = All (λ leaf. leaf_at heap leaf.address ≡ ok leaf) leaves

leaf_at-behind :
    (xs ys : List Leaf) (leaf : Leaf)
    → occurrences leaf.address xs ≡ 0
    → leaf_at (xs ++ (leaf ∷ ys)) leaf.address ≡ ok leaf
unfolding leaf_at
leaf_at-behind [] ys leaf e = rw (eq→== leaf.address leaf.address refl) refl
leaf_at-behind (x ∷ xs) ys leaf e = elim (Bool-cases (x.address == leaf.address)) [
  | inl same ↦ absurd (ground arith)
  | inr other ↦ rw other (leaf_at-behind xs ys leaf (ground arith))
]

Leads-behind : (xs ys : List Leaf) → ((a : ℕ) → occurrences a (xs ++ ys) ≤ 1) → Leads (xs ++ ys) ys
Leads-behind xs [] once = tt
Leads-behind xs (y ∷ ys) once =
    let shifted : (xs ++ y ∷ []) ++ ys ≡ xs ++ (y ∷ ys) = append_assoc xs (y ∷ []) ys in
    let self : occurrences y.address (y ∷ ys) ≡ suc (occurrences y.address ys) =
      rw (eq→== y.address y.address refl) refl in
    (
      leaf_at-behind xs ys y
          (omega (arith, once y.address, occurrences-append y.address xs (y ∷ ys), self)),
      subst (λ heap. Leads heap ys) shifted
          (Leads-behind (xs ++ y ∷ []) ys (λ a. rw shifted (once a))),
    )

pub Leads-all : (heap : List Leaf) → ((a : ℕ) → occurrences a heap ≤ 1) → Leads heap heap
Leads-all heap once = Leads-behind [] heap once

pub Leads-append : (heap xs ys : List Leaf) → Leads heap (xs ++ ys) → Leads heap ys
Leads-append heap [] ys l = l
Leads-append heap (x ∷ xs) ys (e, l) = Leads-append heap xs ys l
