-- ===== src/BPlusTree/Records.antt =====
-- What the loops of BPlusTree/bPlusTree.cpp over one leaf do on records in ascending order.
use range_lh_cplus_plus.Base.{
  ℕ, suc, ◌≡◌, ◌<◌, ◌≤◌, refl, sym, ap, ◌∙◌, arith, List, [], ◌∷◌, ◌++◌, true, ◌==◌, length,
  Bool-cases, inl, inr, ne→==_false, ==→eq, ==_false→ne, false, if◌then◌else◌,
}
use range_lh_cplus_plus.LinearHashing.{Ptr, nullptr}
use range_lh_cplus_plus.BPlusTree.{Record, search_records}
use range_lh_cplus_plus.BPlusTree.Removal.{has_key, erase_key}
use range_lh_cplus_plus.BPlusTree.Ascent.{Ascending, Ascending-le, Ascending-weaken}

-- Both `search` and `remove` look for the first record under a key: what they make of its data, or
-- of there being none.
module _ {B : Type 0} (found : Ptr → B) (missing : B) where
  unfoldable pub first_under : (key : ℕ) → List Record → B
  first_under key [] = missing
  first_under key ((k, d) ∷ rest) =
      let later = first_under key rest in if k == key then found d else later

  pub first_under-between :
      (lo l u hi key : ℕ) (xs ys zs : List Record)
      → Ascending lo l xs
      → l ≤ key
      → key < u
      → Ascending u hi zs
      → first_under key (xs ++ (ys ++ zs)) ≡ first_under key ys
  unfolding first_under
  first_under-between lo l u hi key [] [] [] a b c d = refl
  first_under-between lo l u hi key [] [] ((k, w) ∷ zs) a b c (d, e) =
      rw
        (
          ne→==_false k key (λ x. omega arith),
          first_under-between lo l (suc k) hi key [] [] zs a b (omega arith) e,
        )
        refl
  first_under-between lo l u hi key [] ((k, w) ∷ ys) zs a b c d =
      rw (first_under-between lo l u hi key [] ys zs a b c d) refl
  first_under-between lo l u hi key ((k, w) ∷ xs) ys zs (a, a_) b c d =
      let below : k < key = omega (arith, Ascending-le (suc k) l xs a_) in
      rw
        (
          ne→==_false k key (λ x. omega arith),
          first_under-between (suc k) l u hi key xs ys zs a_ b c d,
        )
        refl

  first_under-below :
      (q lo hi : ℕ) (rs : List Record) → Ascending lo hi rs → q < lo → first_under q rs ≡ missing
  unfolding first_under
  first_under-below q lo hi [] a l = refl
  first_under-below q lo hi ((k, d) ∷ rs) (b, a) l =
      rw (ne→==_false k q (λ x. omega arith)) (first_under-below q (suc k) hi rs a (omega arith))

  pub first_under-erase_key :
      (key q lo hi : ℕ) (rs : List Record)
      → Ascending lo hi rs
      → first_under q (erase_key key rs) ≡ (if key == q then missing else first_under q rs)
  unfolding first_under erase_key
  first_under-erase_key key q lo hi [] a = elim (Bool-cases (key == q)) [
    | inl f ↦ rw f refl
    | inr f ↦ rw f refl
  ]
  first_under-erase_key key q lo hi ((k, d) ∷ rs) (b, a) =
      let ih = first_under-erase_key key q (suc k) hi rs a in
      elim (Bool-cases (k == key)) [
        | inl e ↦ elim (Bool-cases (key == q)) [
          | inl f ↦
              let same : k ≡ q = ==→eq k key e ∙ ==→eq key q f in
              rw (e, f) (first_under-below q (suc k) hi rs a (omega (arith, same)))
          | inr f ↦
              let other : (k == q) ≡ false =
                ne→==_false k q (λ x. ==_false→ne key q f (sym (==→eq k key e) ∙ x)) in
              rw (e, f, other) refl
        ]
        | inr e ↦ elim (Bool-cases (k == q)) [
          | inl f ↦
              let other : (key == q) ≡ false =
                ne→==_false key q (λ x. ==_false→ne k key e (==→eq k q f ∙ sym x)) in
              rw (e, f, other) refl
          | inr f ↦ rw (e, f) ih
        ]
      ]

pub search_records-first_under :
    (key : ℕ) (rs : List Record) → search_records key rs ≡ first_under (λ d. d) nullptr key rs
unfolding search_records first_under
search_records-first_under key [] = refl
search_records-first_under key ((k, d) ∷ rs) = rw (search_records-first_under key rs) refl

pub has_key-first_under :
    (key : ℕ) (rs : List Record) → has_key key rs ≡ first_under (λ d. true) false key rs
unfolding has_key first_under
has_key-first_under key [] = refl
has_key-first_under key ((k, d) ∷ rs) = rw (has_key-first_under key rs) refl

pub has_key-between :
    (lo l u hi key : ℕ) (xs ys zs : List Record)
    → Ascending lo l xs
    → l ≤ key
    → key < u
    → Ascending u hi zs
    → has_key key (xs ++ (ys ++ zs)) ≡ has_key key ys
has_key-between lo l u hi key xs ys zs a b c d =
    has_key-first_under key (xs ++ (ys ++ zs))
    ∙ first_under-between (λ d. true) false lo l u hi key xs ys zs a b c d
    ∙ sym (has_key-first_under key ys)

-- A key is found after its removal no more, in strictly ascending records.
module _ (key q lo hi : ℕ) (rs : List Record) (a : Ascending lo hi rs) where
  pub search_records-erase_key :
      search_records q (erase_key key rs) ≡ (if key == q then nullptr else search_records q rs)
  search_records-erase_key =
      rw (search_records-first_under q (erase_key key rs), search_records-first_under q rs)
        (first_under-erase_key (λ d. d) nullptr key q lo hi rs a)

  pub has_key-erase_key : has_key q (erase_key key rs) ≡ (if key == q then false else has_key q rs)
  has_key-erase_key =
      rw (has_key-first_under q (erase_key key rs), has_key-first_under q rs)
        (first_under-erase_key (λ d. true) false key q lo hi rs a)

pub erase_key-between :
    (lo l u hi key : ℕ) (xs ys zs : List Record)
    → Ascending lo l xs
    → l ≤ key
    → key < u
    → Ascending u hi zs
    → erase_key key (xs ++ (ys ++ zs)) ≡ xs ++ (erase_key key ys ++ zs)
unfolding erase_key
erase_key-between lo l u hi key [] [] [] a b c d = refl
erase_key-between lo l u hi key [] [] ((k, w) ∷ zs) a b c (d, e) =
    rw
      (
        ne→==_false k key (λ x. omega arith),
        erase_key-between lo l (suc k) hi key [] [] zs a b (omega arith) e,
      )
      refl
erase_key-between lo l u hi key [] ((k, w) ∷ ys) zs a b c d =
    let ih = erase_key-between lo l u hi key [] ys zs a b c d in
    elim (Bool-cases (k == key)) [ inl e ↦ rw e refl | inr e ↦ rw (e, ih) refl ]
erase_key-between lo l u hi key ((k, w) ∷ xs) ys zs (a, a_) b c d =
    let below : k < key = omega (arith, Ascending-le (suc k) l xs a_) in
    rw
      (ne→==_false k key (λ x. omega arith), erase_key-between (suc k) l u hi key xs ys zs a_ b c d)
      refl

pub erase_key-Ascending :
    (lo hi key : ℕ) (xs : List Record) → Ascending lo hi xs → Ascending lo hi (erase_key key xs)
unfolding erase_key
erase_key-Ascending lo hi key [] h = h
erase_key-Ascending lo hi key ((k, d) ∷ xs) (b, h) = elim (Bool-cases (k == key)) [
  | inl e ↦ rw e (Ascending-weaken lo (suc k) hi xs (omega arith) h)
  | inr e ↦ rw e (b, erase_key-Ascending (suc k) hi key xs h)
]

pub length-erase_key :
    (key : ℕ) (xs : List Record)
    → has_key key xs ≡ true
    → suc (length (erase_key key xs)) ≡ length xs
unfolding erase_key has_key
length-erase_key key [] h = cc
length-erase_key key ((k, d) ∷ xs) h = elim (Bool-cases (k == key)) [
  | inl e ↦ rw e refl
  | inr e ↦ let h_ : has_key key xs ≡ true = rw e at h in rw e (ap suc (length-erase_key key xs h_))
]
