-- ===== src/LinearHashing/Chain.antt =====
-- The entries of one chain: what lookups and removals see of it, and how `split` relinks it.
use range_lh_cplus_plus.Base.{
  ℕ, Option, none, some, ◌≢◌, ap, zero, suc, ◌+◌, ◌<◌, ◌≡◌, refl, arith, List, [], ◌∷◌, ◌++◌, Bool,
  true, false, ◌==◌, if◌then◌else◌, length, get_or, set, All, length-set, get_or-set_self,
  get_or-set_ne, ◌∙◌, ==→eq, ==_false→ne, Bool-cases, inl, inr,
}
use range_lh_cplus_plus.LinearHashing.{
  Ptr, nullptr, Entry, Chain, hash, push_front, relink, find_worker, unlink,
}
use mathlib.Core.List.{reverse_aux}

-- The workers stored under an id in a chain, from its head on.
unfoldable pub workers_of : ℕ → Chain → List Ptr
workers_of q [] = []
workers_of q (e ∷ es) = if e.id == q then e.worker ∷ workers_of q es else workers_of q es

abbrev pub first : List Ptr → Ptr
first [] = nullptr
first (w ∷ ws) = w

abbrev pub rest : List Ptr → List Ptr
rest [] = []
rest (w ∷ ws) = ws

abbrev pub is_empty : List Ptr → Bool
is_empty [] = true
is_empty (w ∷ ws) = false

pub find_worker-first : (q : ℕ) (c : Chain) → find_worker q c ≡ first (workers_of q c)
unfolding find_worker workers_of
find_worker-first q [] = refl
find_worker-first q (e ∷ es) = ground (arith, find_worker-first q es)

-- the number of entries of a bucket array
unfoldable pub total : List Chain → ℕ
total [] = 0
total (c ∷ cs) = length c + total cs

pub total-set :
    (bs : List Chain) (i : ℕ) (c : Chain)
    → i < length bs
    → total (set bs i c) + length (get_or bs i []) ≡ total bs + length c
unfolding total
total-set [] i c h = absurd (omega arith)
total-set (b ∷ bs) zero c h = omega arith
total-set (b ∷ bs) (suc i) c h = omega (arith, total-set bs i c (omega arith))

pub total-append : (bs : List Chain) → total (bs ++ [] ∷ []) ≡ total bs
unfolding total
total-append [] = refl
total-append (b ∷ bs) = omega (arith, total-append bs)

pub get_or-push_front :
    (bs : List Chain) (i j : ℕ) (e : Entry)
    → i < length bs
    → get_or (push_front bs i e) j [] ≡ (if i == j then e ∷ get_or bs j [] else get_or bs j [])
unfolding push_front
get_or-push_front bs i j e h = elim (Bool-cases (i == j)) [
  | inl same ↦ rw (same, ← ==→eq i j same) (get_or-set_self bs i _ [] h)
  | inr other ↦ rw other (get_or-set_ne bs i j _ [] (==_false→ne i j other))
]

pub length-push_front :
    (bs : List Chain) (i : ℕ) (e : Entry) → length (push_front bs i e) ≡ length bs
unfolding push_front
length-push_front bs i e = length-set bs i _

-- where the loop of `split` puts an id
abbrev pub goes_to : ℕ → ℕ → ℕ → ℕ → ℕ → ℕ
goes_to n l source dest id = if hash n id l == dest then dest else source

module _ (n l source dest : ℕ) where
  pub length-relink :
      (es : Chain) (bs : List Chain) → length (relink n l source dest es bs) ≡ length bs
  unfolding relink push_front
  length-relink [] bs = refl
  length-relink (e ∷ es) bs = length-relink es _ ∙ length-set bs _ _

  pub total-relink :
      (es : Chain) (bs : List Chain)
      → source < length bs
      → dest < length bs
      → total (relink n l source dest es bs) ≡ length es + total bs
  unfolding relink push_front
  total-relink [] bs hs hd = omega arith
  total-relink (e ∷ es) bs hs hd =
      let i = goes_to n l source dest e.id in
      let hi : i < length bs = ground arith in
      let len = length-set bs i (e ∷ get_or bs i []) in
      omega (
        arith,
        total-relink es (set bs i (e ∷ get_or bs i [])) (omega arith) (omega arith),
        total-set bs i (e ∷ get_or bs i []) hi,
      )

  -- Each id of the chain goes to one bucket, in the opposite order.
  pub workers_of-relink :
      (q i : ℕ) (es : Chain) (bs : List Chain)
      → source < length bs
      → dest < length bs
      → workers_of q (get_or (relink n l source dest es bs) i []) ≡ (
          if goes_to n l source dest q == i
          then reverse_aux (workers_of q es) (workers_of q (get_or bs i []))
          else workers_of q (get_or bs i []))
  unfolding relink workers_of
  workers_of-relink q i [] bs hs hd = ground arith
  workers_of-relink q i (e ∷ es) bs hs hd =
      let d = goes_to n l source dest e.id in
      let hi : d < length bs = ground arith in
      let len = length-push_front bs d e in
      rw
        (
          workers_of-relink q i es (push_front bs d e) (omega arith) (omega arith),
          get_or-push_front bs d i e hi,
        )
        (ground arith)

  pub All-relink :
      (home : ℕ → ℕ) (es : Chain) (bs : List Chain)
      → source < length bs
      → dest < length bs
      → All (λ e. home e.id ≡ goes_to n l source dest e.id) es
      → ((i : ℕ) → All (λ e. home e.id ≡ i) (get_or bs i []))
      → (i : ℕ) → All (λ e. home e.id ≡ i) (get_or (relink n l source dest es bs) i [])
  unfolding relink
  All-relink home [] bs hs hd placed kept i = kept i
  All-relink home (e ∷ es) bs hs hd (here, placed) kept i =
      let d = goes_to n l source dest e.id in
      let hi : d < length bs = ground arith in
      let len = length-push_front bs d e in
      All-relink home es (push_front bs d e) (omega arith) (omega arith) placed
        (λ j. rw (get_or-push_front bs d j e hi) (ground (arith, kept j))) i

-- `remove` takes out the first worker under its id, and nothing under another id.
pub data Unlinks (q : ℕ) (c : Chain) : Option (Entry × Chain) → Type 0 where
  absent : workers_of q c ≡ [] → Unlinks q c none
  found :
      {e : Entry} {es : Chain}
      → e.id ≡ q
      → workers_of q c ≡ e.worker ∷ workers_of q es
      → ((j : ℕ) → j ≢ q → workers_of j es ≡ workers_of j c)
      → length c ≡ suc (length es)
      → ((h : ℕ → ℕ) (i : ℕ) → All (λ e. h e.id ≡ i) c → All (λ e. h e.id ≡ i) es)
      → Unlinks q c (some (e, es))

pub unlink-Unlinks : (q : ℕ) (c : Chain) → Unlinks q c (unlink q c)
unfolding unlink workers_of
unlink-Unlinks q [] = absent refl
unlink-Unlinks q (e ∷ es) = elim (Bool-cases (e.id == q)) [
  | inl hit ↦ rw hit (found (==→eq _ _ hit) (rw hit) (λ j ne. ground arith) refl (λ h i p. p.1))
  | inr miss ↦ rw miss (step (unlink-Unlinks q es) miss)
]
  where
    step :
        {o : Option (Entry × Chain)}
        → Unlinks q es o
        → (e.id == q) ≡ false
        → Unlinks q (e ∷ es) (elim o [ none ↦ none | some (f, rest) ↦ some (f, e ∷ rest) ])
    step (absent h) miss = absent (rw miss h)
    step (found same here others len keep) miss =
        found same (rw (miss, here)) (λ j ne. ground (arith, others j ne)) (ap suc len)
          (λ h i p. (p.0, keep h i p.1))
