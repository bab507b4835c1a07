-- ===== src/BPlusTree/Ascent.antt =====
-- Lists of records in ascending order of the keys, from a bound on and below another, cut and
-- joined.
use range_lh_cplus_plus.Base.{
  ℕ, zero, suc, ◌+◌, ◌≡◌, ◌≢◌, ◌<◌, ◌≤◌, refl, ap, arith, List, [], ◌∷◌, ◌++◌, ltb, length,
  Bool-cases, inl, inr, lt→ltb, le→ltb_false, ltb_false→le, some,
}
use range_lh_cplus_plus.Base.Run.{ok, at}
use range_lh_cplus_plus.BPlusTree.{insert_entry, take, drop}
use range_lh_cplus_plus.BPlusTree.Removal.{pop_back}

module _ {A : Type 0} where
  abbrev pub Ascending : (lo hi : ℕ) → List (ℕ × A) → Type 0
  Ascending lo hi [] = lo ≤ hi
  Ascending lo hi ((k, v) ∷ rest) = (lo ≤ k) × Ascending (suc k) hi rest

  -- no record has the key
  abbrev pub IsNew : (key : ℕ) → List (ℕ × A) → Type 0
  IsNew key [] = Unit
  IsNew key ((k, v) ∷ rest) = (k ≢ key) × IsNew key rest

  pub Ascending-le : (lo hi : ℕ) (xs : List (ℕ × A)) → Ascending lo hi xs → lo ≤ hi
  Ascending-le lo hi [] h = h
  Ascending-le lo hi ((k, v) ∷ xs) (l, h) = omega (arith, Ascending-le (suc k) hi xs h)

  pub Ascending-lt : (lo hi : ℕ) (xs : List (ℕ × A)) → 0 < length xs → Ascending lo hi xs → lo < hi
  Ascending-lt lo hi [] l h = absurd (omega arith)
  Ascending-lt lo hi ((k, v) ∷ xs) l (b, h) = omega (arith, Ascending-le (suc k) hi xs h)

  pub Ascending-weaken :
      (l lo hi : ℕ) (xs : List (ℕ × A)) → l ≤ lo → Ascending lo hi xs → Ascending l hi xs
  Ascending-weaken l lo hi [] e h = omega arith
  Ascending-weaken l lo hi ((k, v) ∷ xs) e (b, h) = (omega arith, h)

  pub Ascending-append :
      (lo m hi : ℕ) (xs ys : List (ℕ × A))
      → Ascending lo m xs
      → Ascending m hi ys
      → Ascending lo hi (xs ++ ys)
  Ascending-append lo m hi [] ys h g = Ascending-weaken lo m hi ys h g
  Ascending-append lo m hi ((k, v) ∷ xs) ys (b, h) g = (b, Ascending-append (suc k) m hi xs ys h g)

  pub Ascending-behind :
      (lo hi : ℕ) (xs ys : List (ℕ × A)) → Ascending lo hi (xs ++ ys) → (m : ℕ) × Ascending m hi ys
  Ascending-behind lo hi [] ys h = (lo, h)
  Ascending-behind lo hi ((k, v) ∷ xs) ys (b, h) = Ascending-behind (suc k) hi xs ys h

  pub Ascending-part :
      (lo hi k : ℕ) (v : A) (xs ys : List (ℕ × A))
      → Ascending lo hi (xs ++ (k, v) ∷ ys)
      → Ascending lo k xs × Ascending (suc k) hi ys
  Ascending-part lo hi k v [] ys h = h
  Ascending-part lo hi k v ((j, w) ∷ xs) ys (b, h) =
      let ih = Ascending-part (suc j) hi k v xs ys h in ((b, ih.0), ih.1)

  pub IsNew-append :
      (key : ℕ) (xs ys : List (ℕ × A)) → IsNew key (xs ++ ys) → IsNew key xs × IsNew key ys
  IsNew-append key [] ys h = (tt, h)
  IsNew-append key ((k, v) ∷ xs) ys (n, h) = let ih = IsNew-append key xs ys h in ((n, ih.0), ih.1)

  pub length-insert_entry :
      (key : ℕ) (v : A) (xs : List (ℕ × A)) → length (insert_entry key v xs) ≡ suc (length xs)
  unfolding insert_entry
  length-insert_entry key v [] = refl
  length-insert_entry key v ((k, w) ∷ xs) = ground (arith, length-insert_entry key v xs)

  pub insert_entry-Ascending :
      (lo hi key : ℕ) (v : A) (xs : List (ℕ × A))
      → lo ≤ key
      → key < hi
      → IsNew key xs
      → Ascending lo hi xs
      → Ascending lo hi (insert_entry key v xs)
  unfolding insert_entry
  insert_entry-Ascending lo hi key v [] l u n h = (l, omega arith)
  insert_entry-Ascending lo hi key v ((k, w) ∷ xs) l u (ne, n) (b, h) =
      elim (Bool-cases (ltb k key)) [
        | inl e ↦ rw e (b, insert_entry-Ascending (suc k) hi key v xs (ground arith) u n h)
        | inr e ↦
            let above : key < k = omega (arith, ltb_false→le k key e, ne) in rw e (l, (above, h))
      ]

  -- Records below and above the key are in the way of nothing.
  pub insert_entry-between :
      (lo l u hi key : ℕ) (v : A) (xs ys zs : List (ℕ × A))
      → Ascending lo l xs
      → l ≤ key
      → key < u
      → Ascending u hi zs
      → insert_entry key v (xs ++ (ys ++ zs)) ≡ xs ++ (insert_entry key v ys ++ zs)
  unfolding insert_entry
  insert_entry-between lo l u hi key v [] [] [] a b c d = refl
  insert_entry-between lo l u hi key v [] [] ((k, w) ∷ zs) a b c (d, e) =
      rw (le→ltb_false k key (omega arith)) refl
  insert_entry-between lo l u hi key v [] ((k, w) ∷ ys) zs a b c d =
      let ih = insert_entry-between lo l u hi key v [] ys zs a b c d in
      elim (Bool-cases (ltb k key)) [ inl e ↦ rw (e, ih) refl | inr e ↦ rw e refl ]
  insert_entry-between lo l u hi key v ((k, w) ∷ xs) ys zs (a, a_) b c d =
      let below : k < key = omega (arith, Ascending-le (suc k) l xs a_) in
      rw (lt→ltb k key below, insert_entry-between (suc k) l u hi key v xs ys zs a_ b c d) refl

  -- A list cut at a place that it has.
  pub take-drop :
      (n lo hi : ℕ) (xs : List (ℕ × A))
      → Ascending lo hi xs
      → n < length xs
      → (first : ℕ × A) × (at (drop n xs) 0 ≡ ok first)
        × Ascending lo first.0 (take n xs)
        × Ascending first.0 hi (drop n xs)
        × (take n xs ++ drop n xs ≡ xs)
        × (first.0 < hi)
        × (n ≢ 0 → lo < first.0)
  take-drop n lo hi [] h l = absurd (omega arith)
  take-drop zero lo hi ((k, v) ∷ xs) (b, h) l = (
    (k, v),
    refl,
    b,
    (omega arith, h),
    refl,
    omega (arith, Ascending-le (suc k) hi xs h),
    λ e. absurd (e refl),
  )
  take-drop (suc n) lo hi ((k, v) ∷ xs) (b, h) l =
      let (first, e, a, d, j, below, s) = take-drop n (suc k) hi xs h (omega arith) in
      (
        first,
        e,
        (b, a),
        d,
        ap (λ ys. (k, v) ∷ ys) j,
        below,
        λ z. omega (arith, Ascending-le (suc k) first.0 (take n xs) a),
      )

pub pop_back-append :
    {A : Type 0} (x : A) (xs : List A)
    → (init : List A) × (last : A) × (pop_back (x ∷ xs) ≡ some (init, last))
      × (x ∷ xs ≡ init ++ last ∷ [])
unfolding pop_back
pop_back-append x [] = ([], x, refl, refl)
pop_back-append x (y ∷ ys) =
    let (init, last, e, same) = pop_back-append y ys in
    (x ∷ init, last, rw e refl, ap (λ zs. x ∷ zs) same)

pub length-take : {A : Type 0} (n : ℕ) (xs : List A) → n ≤ length xs → length (take n xs) ≡ n
length-take zero xs h = refl
length-take (suc n) [] h = omega arith
length-take (suc n) (x ∷ xs) h = omega (arith, length-take n xs (omega arith))

pub length-drop :
    {A : Type 0} (n : ℕ) (xs : List A) → n ≤ length xs → length (drop n xs) + n ≡ length xs
length-drop zero xs h = omega arith
length-drop (suc n) [] h = omega arith
length-drop (suc n) (x ∷ xs) h = omega (arith, length-drop n xs (omega arith))
