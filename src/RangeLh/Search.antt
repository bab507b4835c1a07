-- ===== src/RangeLh/Search.antt =====
-- The loop of both adjacent-worker searches of Implement/rangeLH.cpp, over an invariant of the
-- stack.
use range_lh_cplus_plus.Base.{
  leb, ltb, ◌&&◌, ℕ, zero, suc, ◌+◌, ◌*◌, ◌^◌, ◌≤◌, ◌<◌, ◌≡◌, refl, ◌∙◌, arith, List, [], ◌∷◌, ◌++◌,
  none, some, Bool, false, length, All, Bool-cases, Option-cases, inl, inr,
}
use range_lh_cplus_plus.Base.Words.{shr, add64, mul64}
use range_lh_cplus_plus.Base.Smear.{mul_mono}
use range_lh_cplus_plus.Base.Run.{Run, ok}
use range_lh_cplus_plus.LinearHashing.{Ptr, nullptr, lookup}
use range_lh_cplus_plus.BloomRf.{check_at_level, get_max_level}
use range_lh_cplus_plus.RangeLh.Nodes.{span}
use range_lh_cplus_plus.RangeLh.{RangeLh, search}
use range_lh_cplus_plus.RangeLh.ChildLists.{Node, push_all, visits, aligned_child}

-- the rounds that a stack takes at most
abbrev pub weight : ℕ → List Node → ℕ
weight delta [] = 0
weight delta ((key, level) ∷ stack) = visits delta level + weight delta stack

visits-pos : (delta level : ℕ) → 0 < visits delta level
unfolding visits
visits-pos delta zero = omega arith
visits-pos delta (suc level) = omega arith

weight-push_all :
    (delta level : ℕ) (children stack : List Node)
    → All (λ c. c.1 ≡ level) children
    → weight delta (push_all children stack)
      ≡ length children * visits delta level + weight delta stack
unfolding push_all
weight-push_all delta level [] stack h = omega arith
weight-push_all delta level ((key, l) ∷ children) stack (h, hs) =
    weight-push_all delta level children ((key, l) ∷ stack) hs ∙ rw h (omega arith)

weight-expand :
    (delta key level : ℕ) (children stack : List Node)
    → length children ≤ 2 ^ delta + 1
    → All (λ c. c.1 ≡ level) children
    → weight delta (push_all children stack) < weight delta ((key, suc level) ∷ stack)
unfolding visits
weight-expand delta key level children stack few levels = omega (
  arith,
  weight-push_all delta level children stack levels,
  mul_mono (length children) (2 ^ delta + 1) (visits delta level) few,
)

-- What the searches need of the table and the filter: `find` is what lookups give, and a prefix
-- that the filter does not have is no stored key's.
pub record Reads {D : Type 0} (t : RangeLh D) (find : ℕ → Ptr) : Type 0 where
  pub looks : (q : ℕ) → lookup t.master_lh q ≡ ok (find q)
  pub checks :
      (q level : ℕ)
      → level < t.bloom_rf.k
      → (b : Bool) × (check_at_level t.bloom_rf q level ≡ ok b)
        × (b ≡ false
            → (q' : ℕ) → shr q' (level * t.delta_bloom_rf) ≡ shr q (level * t.delta_bloom_rf)
            → find q' ≡ none)
  pub levels : get_max_level t.bloom_rf < t.bloom_rf.k
  pub inside : (q : ℕ) → span t.delta_bloom_rf (get_max_level t.bloom_rf) ≤ q → find q ≡ none
  pub narrow : t.delta_bloom_rf < 64
  pub deep : get_max_level t.bloom_rf * t.delta_bloom_rf < 64

module _ {D : Type 0} (t : RangeLh D) (children : ℕ → ℕ → Run (List Node)) (find : ℕ → Ptr) where
  -- The children of a node, pushed on the rest of the stack, keep the invariant.
  abbrev Expands : (Inv : List Node → Type 0) → (key level : ℕ) → List Node → Type 0
  Expands Inv key level stack =
      (list : List Node) × (children key (suc level) ≡ ok list)
      × (length list ≤ 2 ^ t.delta_bloom_rf + 1)
      × All (λ c. c.1 ≡ level) list
      × Inv (push_all list stack)

  -- What an invariant of the stack needs for the loop to end in an answer. A node whose prefix the
  -- filter does not have holds no key.
  pub record Guides (Inv : List Node → Type 0) (Answer : Ptr → Type 0) : Type 0 where
    pub reads : Reads t find
    pub known :
        (key level : ℕ) (stack : List Node) → Inv ((key, level) ∷ stack) → level < t.bloom_rf.k
    pub empty : Inv [] → Answer nullptr
    pub hit :
        (key p : ℕ) (stack : List Node)
        → Inv ((key, 0) ∷ stack)
        → find key ≡ some p
        → Answer (some p)
    pub miss : (key : ℕ) (stack : List Node) → Inv ((key, 0) ∷ stack) → find key ≡ none → Inv stack
    pub skip :
        (key level : ℕ) (stack : List Node)
        → Inv ((key, suc level) ∷ stack)
        → ((q : ℕ)
            → shr q (suc level * t.delta_bloom_rf) ≡ shr key (suc level * t.delta_bloom_rf)
            → find q ≡ none)
        → Inv stack
    pub expand :
        (key level : ℕ) (stack : List Node)
        → Inv ((key, suc level) ∷ stack)
        → Expands Inv key level stack

  module _ {Inv : List Node → Type 0} {Answer : Ptr → Type 0} (g : Guides Inv Answer) where
    -- The loop ends within the weight of the stack, in an answer.
    pub search_lem :
        (fuel : ℕ) (stack : List Node)
        → weight t.delta_bloom_rf stack ≤ fuel
        → Inv stack
        → (r : Ptr) × (search t children fuel stack ≡ ok r) × Answer r
    unfolding search
    search_lem fuel [] h inv = (nullptr, refl, g.empty inv)
    search_lem zero ((key, level) ∷ stack) h inv =
        absurd (omega (arith, visits-pos t.delta_bloom_rf level))
    search_lem (suc fuel) ((key, zero) ∷ stack) h inv = elim (Option-cases (find key)) [
      | inl absent ↦
          let (r, run, answer) =
            search_lem fuel stack (omega (arith, visits-pos t.delta_bloom_rf 0))
              (g.miss key stack inv absent) in
          (r, rw (g.reads.looks key, absent) run, answer)
      | inr (p, found) ↦ (some p, rw (g.reads.looks key, found) refl, g.hit key p stack inv found)
    ]
    search_lem (suc fuel) ((key, suc level) ∷ stack) h inv =
        let (b, check, clear) =
          g.reads.checks key (suc level) (g.known key (suc level) stack inv) in
        elim (Bool-cases b) [
          | inl present ↦
              let (list, made, few, levels, inv') = g.expand key level stack inv in
              let (r, run, answer) =
                search_lem fuel (push_all list stack)
                  (omega (arith, weight-expand t.delta_bloom_rf key level list stack few levels))
                  inv' in
              (r, rw (check, present, made) run, answer)
          | inr missing ↦
              let (r, run, answer) =
                search_lem fuel stack (omega (arith, visits-pos t.delta_bloom_rf (suc level)))
                  (g.skip key level stack inv (clear missing)) in
              (r, rw (check, missing) run, answer)
        ]

pub length-aligned_child : (key level w step n : ℕ) → length (aligned_child key level w step n) ≤ 1
unfolding aligned_child
length-aligned_child key level w step n = ground arith

pub levels-aligned_child :
    (key level w step n : ℕ) → All (λ c. c.1 ≡ level) (aligned_child key level w step n)
unfolding aligned_child
levels-aligned_child key level w step n =
    elim (Bool-cases (leb key w && ltb w (add64 key (mul64 n step)))) [
      | inl inside ↦ rw inside (refl, tt)
      | inr outside ↦ rw outside tt
    ]

pub push_all-append :
    (xs ys stack : List Node) → push_all (xs ++ ys) stack ≡ push_all ys (push_all xs stack)
unfolding push_all
push_all-append [] ys stack = refl
push_all-append (x ∷ xs) ys stack = push_all-append xs ys (x ∷ stack)

pub All-append {ℓ κ} :
    {A : Type ℓ} (P : A → Type κ) (xs ys : List A) → All P xs → All P ys → All P (xs ++ ys)
All-append P [] ys h k = k
All-append P (x ∷ xs) ys h k = (h.0, All-append P xs ys h.1 k)
