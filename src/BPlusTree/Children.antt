-- ===== src/BPlusTree/Children.antt =====
-- The children of an internal node of BPlusTree/bPlusTree.cpp, each between its separators: the
-- descent to one child, the way back, and what stands before and behind it.
use range_lh_cplus_plus.Base.{
  ℕ, zero, suc, ◌+◌, ◌≡◌, ◌<◌, ◌≤◌, refl, sym, ap, ◌∙◌, arith, List, [], ◌∷◌, ◌++◌, leb, length,
  Bool-cases, inl, inr, lt→ltb, le→ltb_false,
}
use range_lh_cplus_plus.Base.Run.{ok, at}
use mathlib.Core.List.{append_assoc, append-nil}
use range_lh_cplus_plus.BPlusTree.{find_child, focus, unfocus, insert_entry, gather, take, drop}

module _ {A : Type 0} where
  -- the separators next to a child, or the bounds of its parent
  abbrev pub lower : (lo : ℕ) → List (A × ℕ) → ℕ
  lower lo [] = lo
  lower lo ((prev, k) ∷ before) = k

  abbrev pub upper : (hi : ℕ) → List (ℕ × A) → ℕ
  upper hi [] = hi
  upper hi ((k, next) ∷ behind) = k

  abbrev pub before_list : {B : Type 0} → (A → List B) → List (A × ℕ) → List B
  before_list f [] = []
  before_list f ((prev, k) ∷ before) = before_list f before ++ f prev

  abbrev pub behind_list : {B : Type 0} → (A → List B) → List (ℕ × A) → List B
  behind_list f [] = []
  behind_list f ((k, next) ∷ behind) = f next ++ behind_list f behind

  pub gather-behind :
      {B : Type 0} (f : A → List B) (c : A) (r : List (ℕ × A))
      → gather f c r ≡ f c ++ behind_list f r
  gather-behind f c [] = sym (append-nil (f c))
  gather-behind f c ((k, next) ∷ r) = ap (λ xs. f c ++ xs) (gather-behind f next r)

  pub gather-unfocus :
      {B : Type 0} (f : A → List B) (b : List (A × ℕ)) (c : A) (r : List (ℕ × A))
      → gather f (unfocus b c r).0 (unfocus b c r).1 ≡ before_list f b ++ (f c ++ behind_list f r)
  unfolding unfocus
  gather-unfocus f [] c r = gather-behind f c r
  gather-unfocus f ((prev, k) ∷ b) c r =
      gather-unfocus f b prev ((k, c) ∷ r) ∙ sym (append_assoc (before_list f b) (f prev) _)

  -- The children listed from a place are those of the node.
  pub unfocus-focus :
      (key : ℕ) (b : List (A × ℕ)) (c : A) (r : List (ℕ × A))
      → let (before, child, behind) = focus key b c r in unfocus before child behind ≡ unfocus b c r
  unfolding focus unfocus
  unfocus-focus key b c [] = refl
  unfocus-focus key b c ((k, next) ∷ r) = elim (Bool-cases (leb k key)) [
    | inl e ↦ rw e (unfocus-focus key ((c, k) ∷ b) next r)
    | inr e ↦ rw e refl
  ]

  pub find_child-focus :
      (key : ℕ) (b : List (A × ℕ)) (c : A) (r : List (ℕ × A))
      → find_child key c r ≡ (focus key b c r).1
  unfolding focus find_child
  find_child-focus key b c [] = refl
  find_child-focus key b c ((k, next) ∷ r) = elim (Bool-cases (leb k key)) [
    | inl e ↦ rw e (find_child-focus key ((c, k) ∷ b) next r)
    | inr e ↦ rw e refl
  ]

  pub length-unfocus :
      (b : List (A × ℕ)) (c : A) (r : List (ℕ × A)) → length (unfocus b c r).1 ≡ length b + length r
  unfolding unfocus
  length-unfocus [] c r = omega arith
  length-unfocus ((prev, k) ∷ b) c r = omega (arith, length-unfocus b prev ((k, c) ∷ r))

  pub length-focus :
      (key : ℕ) (c : A) (r : List (ℕ × A))
      → let (before, child, behind) = focus key [] c r in length before + length behind ≡ length r
  unfolding unfocus
  length-focus key c r =
      let (before, child, behind) = focus key [] c r in
      sym (length-unfocus before child behind)
      ∙ ap (λ (p : A × List (ℕ × A)). length p.1) (unfocus-focus key [] c r)

  pub insert_entry-front :
      (hi key : ℕ) (v : A) (r : List (ℕ × A))
      → key ≤ upper hi r
      → insert_entry key v r ≡ (key, v) ∷ r
  unfolding insert_entry
  insert_entry-front hi key v [] l = refl
  insert_entry-front hi key v ((k, next) ∷ r) l = rw (le→ltb_false k key l) refl

-- Children that satisfy `P` between their separators.
module _ {A : Type 0} (P : ℕ → ℕ → A → Type 0) where
  abbrev pub Befores : (lo : ℕ) → List (A × ℕ) → Type 0
  Befores lo [] = Unit
  Befores lo ((prev, k) ∷ before) = P (lower lo before) k prev × Befores lo before

  abbrev pub Behinds : (hi : ℕ) → List (ℕ × A) → Type 0
  Behinds hi [] = Unit
  Behinds hi ((k, next) ∷ behind) = P k (upper hi behind) next × Behinds hi behind

  abbrev pub Kids : (lo hi : ℕ) → A → List (ℕ × A) → Type 0
  Kids lo hi c r = P lo (upper hi r) c × Behinds hi r

  -- a child's place: before it, the child, behind it
  abbrev pub Place : (lo hi : ℕ) → List (A × ℕ) → A → List (ℕ × A) → Type 0
  Place lo hi b c r = Befores lo b × P (lower lo b) (upper hi r) c × Behinds hi r

  pub unfocus-Kids :
      (lo hi : ℕ) (b : List (A × ℕ)) (c : A) (r : List (ℕ × A))
      → Place lo hi b c r
      → Kids lo hi (unfocus b c r).0 (unfocus b c r).1
  unfolding unfocus
  unfocus-Kids lo hi [] c r (before, child, behind) = (child, behind)
  unfocus-Kids lo hi ((prev, k) ∷ b) c r ((p, before), child, behind) =
      unfocus-Kids lo hi b prev ((k, c) ∷ r) (before, p, (child, behind))

  pub focus-Place :
      (lo hi key : ℕ) (b : List (A × ℕ)) (c : A) (r : List (ℕ × A))
      → Place lo hi b c r
      → lower lo b ≤ key
      → key < hi
      → let (before, child, behind) = focus key b c r in
        Place lo hi before child behind × (lower lo before ≤ key) × (key < upper hi behind)
  unfolding focus
  focus-Place lo hi key b c [] p l u = (p, l, u)
  focus-Place lo hi key b c ((k, next) ∷ r) (before, child, (next_, behind)) l u =
      elim (Bool-cases (leb k key)) [
        | inl e ↦ rw e (
            focus-Place lo hi key ((c, k) ∷ b) next r ((child, before), next_, behind)
              (ground arith) u)
        | inr e ↦ rw e ((before, child, (next_, behind)), l, ground arith)
      ]

  -- A separator between a child's own goes to the child's place.
  pub insert_entry-unfocus :
      (lo key : ℕ) (v : A) (b : List (A × ℕ)) (c : A) (r : List (ℕ × A))
      → ((l u : ℕ) (a : A) → P l u a → l < u)
      → Befores lo b
      → lower lo b < key
      → let (first, rest) = unfocus b c r in
        (first, insert_entry key v rest) ≡ unfocus b c (insert_entry key v r)
  unfolding unfocus insert_entry
  insert_entry-unfocus lo key v [] c r w p l = refl
  insert_entry-unfocus lo key v ((prev, k) ∷ b) c r w (p, before) l =
      insert_entry-unfocus lo key v b prev ((k, c) ∷ r) w before
        (omega (arith, w (lower lo b) k prev p))
      ∙ ap (λ xs. unfocus b prev xs) (rw (lt→ltb k key l) refl)

  pub Kids-lt :
      (lo hi : ℕ) (c : A) (r : List (ℕ × A))
      → ((l u : ℕ) (a : A) → P l u a → l < u)
      → Kids lo hi c r
      → lo < hi
  Kids-lt lo hi c [] w (p, behind) = w lo hi c p
  Kids-lt lo hi c ((k, next) ∷ r) w (p, behind) =
      omega (arith, w lo k c p, Kids-lt k hi next r w behind)

  pub join-Kids :
      (lo k hi : ℕ) (c : A) (r : List (ℕ × A)) (d : A) (s : List (ℕ × A))
      → Kids lo k c r
      → Kids k hi d s
      → Kids lo hi c (r ++ (k, d) ∷ s)
  join-Kids lo k hi c [] d s (p, behind) kids = (p, kids)
  join-Kids lo k hi c ((j, next) ∷ r) d s (p, behind) kids =
      (p, join-Kids j k hi next r d s behind kids)

  pub part-Kids :
      (lo k hi : ℕ) (c : A) (r : List (ℕ × A)) (d : A) (s : List (ℕ × A))
      → Kids lo hi c (r ++ (k, d) ∷ s)
      → Kids lo k c r × Kids k hi d s
  part-Kids lo k hi c [] d s (p, behind) = ((p, tt), behind)
  part-Kids lo k hi c ((j, next) ∷ r) d s (p, behind) =
      let ih = part-Kids j k hi next r d s behind in ((p, ih.0), ih.1)

  -- A middle separator parts the children in two nodes.
  pub split-Kids :
      (mid lo hi : ℕ) (c : A) (r : List (ℕ × A))
      → ((l u : ℕ) (a : A) → P l u a → l < u)
      → Kids lo hi c r
      → mid < length r
      → (middle : ℕ × A) × (at r mid ≡ ok middle)
        × (lo < middle.0)
        × (middle.0 < hi)
        × Kids lo middle.0 c (take mid r)
        × Kids middle.0 hi middle.1 (drop (suc mid) r)
  split-Kids mid lo hi c [] w k l = absurd (omega arith)
  split-Kids zero lo hi c ((k, next) ∷ r) w (p, behind) l =
      ((k, next), refl, w lo k c p, Kids-lt k hi next r w behind, (p, tt), behind)
  split-Kids (suc mid) lo hi c ((k, next) ∷ r) w (p, behind) l =
      let (middle, e, low, high, left, right) = split-Kids mid k hi next r w behind (omega arith) in
      (middle, e, omega (arith, w lo k c p), high, (p, left), right)

pub gather-join :
    {A B : Type 0} (f : A → List B) (c : A) (r : List (ℕ × A)) (k : ℕ) (d : A) (s : List (ℕ × A))
    → gather f c (r ++ (k, d) ∷ s) ≡ gather f c r ++ gather f d s
gather-join f c [] k d s = refl
gather-join f c ((j, next) ∷ r) k d s =
    ap (λ xs. f c ++ xs) (gather-join f next r k d s) ∙ sym (append_assoc (f c) _ _)

pub gather-split :
    {A B : Type 0} (f : A → List B) (mid : ℕ) (c : A) (r : List (ℕ × A)) (middle : ℕ × A)
    → at r mid ≡ ok middle
    → gather f c (take mid r) ++ gather f middle.1 (drop (suc mid) r) ≡ gather f c r
gather-split f mid c [] middle e = cc
gather-split f zero c ((k, next) ∷ r) middle e =
    let same : (k, next) ≡ middle = cc in ap (λ (m : ℕ × _). f c ++ gather f m.1 r) (sym same)
gather-split f (suc mid) c ((k, next) ∷ r) middle e =
    append_assoc (f c) _ _ ∙ ap (λ xs. f c ++ xs) (gather-split f mid next r middle e)
