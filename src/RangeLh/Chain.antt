-- ===== src/RangeLh/Chain.antt =====
-- The chain of workers on the heap of Implement/rangeLH.cpp, as the list of its cells, and what a
-- new link does to it.
use range_lh_cplus_plus.Base.{
  false, ℕ, suc, ◌≤◌, ◌<◌, ◌≡◌, ◌≢◌, refl, sym, ap, ◌∙◌, subst, arith, List, [], ◌∷◌, none, some,
  ◌==◌, if◌then◌else◌, Bool-cases, inl, inr, ==→eq, ==_false→ne, none_ne_some,
}
use range_lh_cplus_plus.Base.Run.{ok, at}
use range_lh_cplus_plus.LinearHashing.{Ptr}
use range_lh_cplus_plus.Workers.{Worker, Heap, is_null}
use range_lh_cplus_plus.RangeLh.Cells.{
  Cell, Ascending, locate, tail_of, put, locate-head, locate-later, locate-below, locate-put_ne,
  put-front, put-after, Ascending-above,
}
use native.Mathlib.Decide.{dec_lt}

abbrev pub as_worker : Cell → Ptr → Worker
as_worker c next = record { data_id = c.id; datum = c.datum; next = next }

-- From `p` on the chain runs through these cells, and ends.
abbrev pub Links : Heap → Ptr → List Cell → Type 0
Links ws p [] = p ≡ none
Links ws p (c ∷ cs) =
    (p ≡ some c.address) × (n : Ptr) × (at ws c.address ≡ ok (as_worker c n)) × Links ws n cs

pub ok-injective : {A : Type 0} {a b : A} → ok a ≡ ok b → a ≡ b
ok-injective e = cc

pub some-injective : {A : Type 0} {a b : A} → some a ≡ some b → a ≡ b
some-injective e = cc

-- What stands at other addresses is kept.
abbrev pub Keeps : (ws ws' : Heap) → ℕ → Type 0
Keeps ws ws' a₀ = (a : ℕ) (w : Worker) → a ≢ a₀ → at ws a ≡ ok w → at ws' a ≡ ok w

-- A change at a worker whose id comes before those of the chain leaves the chain alone.
pub Links-frame :
    (ws ws' : Heap) (a₀ : ℕ) (w₀ : Worker) (lo : ℕ) (p : Ptr) (cs : List Cell)
    → Keeps ws ws' a₀
    → at ws a₀ ≡ ok w₀
    → w₀.data_id < lo
    → Ascending lo cs
    → Links ws p cs
    → Links ws' p cs
Links-frame ws ws' a₀ w₀ lo p [] k e h s l = l
Links-frame ws ws' a₀ w₀ lo p (c ∷ cs) k e h (le, s) (here, n, cell, l) =
    let other : c.address ≢ a₀ = λ same.
      let ids : w₀.data_id ≡ c.id =
        ap (λ (w : Worker). w.data_id) (ok-injective (sym e ∙ ap (at ws) (sym same) ∙ cell)) in
      absurd (omega arith) in
    (
      here,
      n,
      k c.address (as_worker c n) other cell,
      Links-frame ws ws' a₀ w₀ (suc c.id) n cs k e (omega arith) s l,
    )

-- The worker of a key has the key for its id.
pub locate-Links :
    (ws : Heap) (p : Ptr) (cs : List Cell) (q a : ℕ)
    → Links ws p cs
    → locate cs q ≡ some a
    → (w : Worker) × (at ws a ≡ ok w) × (w.data_id ≡ q)
unfolding locate
locate-Links ws p [] q a l e = absurd (none_ne_some e)
locate-Links ws p (c ∷ cs) q a (here, n, cell, l) e = elim (Bool-cases (c.id == q)) [
  | inl same ↦
      let at_a : c.address ≡ a =
        some-injective (sym (locate-head c cs q (==→eq c.id q same)) ∙ e) in
      (as_worker c n, subst (λ x. at ws x ≡ ok (as_worker c n)) at_a cell, ==→eq c.id q same)
  | inr other ↦
      locate-Links ws n cs q a l (sym (locate-later c cs q (==_false→ne c.id q other)) ∙ e)
]

-- The heap after a new worker is linked behind another one.
pub record Splices (ws ws' : Heap) (prev : ℕ) (w : Worker) (c : Cell) : Type 0 where
  pub before : at ws prev ≡ ok w
  pub joined : at ws' prev ≡ ok (record w { next = some c.address })
  pub added : at ws' c.address ≡ ok (as_worker c w.next)
  pub keeps : Keeps ws ws' prev

tail_of-later :
    (c : Cell) (cs : List Cell) (q a : ℕ) → locate cs q ≡ some a → tail_of (c ∷ cs) ≡ tail_of cs
unfolding locate tail_of
tail_of-later c [] q a e = absurd (none_ne_some e)
tail_of-later c (d ∷ ds) q a e = refl

tail_of-behind :
    (ws : Heap) (n : Ptr) (c new : Cell) (cs : List Cell)
    → Links ws n cs
    → tail_of (c ∷ new ∷ cs) ≡ (if is_null n then some new.address else tail_of (c ∷ cs))
unfolding tail_of is_null
tail_of-behind ws n c new [] l = rw l refl
tail_of-behind ws n c new (d ∷ ds) l = rw (l.0) refl

-- What the new chain is: the cell is put in its place, and the last worker is known.
abbrev pub IsSpliced : (ws' : Heap) (p next : Ptr) → Cell → List Cell → Type 0
IsSpliced ws' p next new cs =
    Links ws' p (put new cs)
    × (tail_of (put new cs) ≡ (if is_null next then some new.address else tail_of cs))

module _ {ws ws' : Heap} {prev : ℕ} {w : Worker} {new : Cell} (sp : Splices ws ws' prev w new)
    (pk : ℕ) (lt : pk < new.id) where
  -- no key from the predecessor's to the new one's
  abbrev IsGap : List Cell → Type 0
  IsGap cs = (q : ℕ) → pk < q → q ≤ new.id → locate cs q ≡ none

  splice-here :
      (p n : Ptr) (c : Cell) (cs : List Cell)
      → p ≡ some c.address
      → at ws c.address ≡ ok (as_worker c n)
      → Ascending (suc c.id) cs
      → Links ws n cs
      → c.address ≡ prev
      → c.id ≡ pk
      → IsGap (c ∷ cs)
      → IsSpliced ws' p w.next new (c ∷ cs)
  splice-here p n c cs here cell s l at_prev is_pk gap =
      let same : as_worker c n ≡ w = ok-injective (sym cell ∙ ap (at ws) at_prev ∙ sp.before) in
      let next : n ≡ w.next = ap (λ (x : Worker). x.next) same in
      let id : c.id ≡ w.data_id = ap (λ (x : Worker). x.data_id) same in
      let above : Ascending (suc new.id) cs =
        Ascending-above (suc c.id) new.id cs s (λ q a b.
          sym (locate-later c cs q (λ e. absurd (omega arith))) ∙ gap q (omega arith) b) in
      let joined : at ws' c.address ≡ ok (as_worker c (some new.address)) =
        ap (at ws') at_prev
        ∙ sp.joined
        ∙ ap (λ (x : Worker). ok (record x { next = some new.address })) (sym same) in
      rw (put-after new c cs (omega arith), put-front new cs above)
        (
          (
            here,
            some new.address,
            joined,
            (
              refl,
              w.next,
              sp.added,
              subst (λ x. Links ws' x cs) next
                  (Links-frame ws ws' prev w (suc c.id) n cs sp.keeps sp.before (omega arith) s l),
            ),
          ),
          subst
              (λ x.
                tail_of (c ∷ new ∷ cs) ≡ (if is_null x then some new.address else tail_of (c ∷ cs)))
              next (tail_of-behind ws n c new cs l),
        )

  -- Linked behind the worker of the largest key below, a new worker takes its place in the order.
  pub splice-Links :
      (lo : ℕ) (p : Ptr) (cs : List Cell)
      → Ascending lo cs
      → Links ws p cs
      → locate cs pk ≡ some prev
      → IsGap cs
      → IsSpliced ws' p w.next new cs
  unfolding locate
  splice-Links lo p [] s l e gap = absurd (none_ne_some e)
  splice-Links lo p (c ∷ cs) (le, s) (here, n, cell, l) e gap = elim (Bool-cases (c.id == pk)) [
    | inl same ↦
        let is_pk = ==→eq c.id pk same in
        splice-here p n c cs here cell s l (some-injective (sym (locate-head c cs pk is_pk) ∙ e))
          is_pk gap
    | inr other ↦
        let e' : locate cs pk ≡ some prev =
          sym (locate-later c cs pk (==_false→ne c.id pk other)) ∙ e in
        let before : c.id < pk = elim (dec_lt c.id pk) [
          | yes h ↦ h
          | no h ↦ absurd (none_ne_some (sym (locate-below (suc c.id) cs pk s (omega arith)) ∙ e'))
        ] in
        let (w', at_w', id) = locate-Links ws n cs pk prev l e' in
        let apart : c.address ≢ prev = λ at_prev.
          let ids : c.id ≡ w'.data_id =
            ap (λ (x : Worker). x.data_id) (ok-injective (sym cell ∙ ap (at ws) at_prev ∙ at_w')) in
          absurd (omega arith) in
        let (links, tail) =
          splice-Links (suc c.id) n cs s l e'
            (λ q a b. sym (locate-later c cs q (λ x. absurd (omega arith))) ∙ gap q a b) in
        rw (put-after new c cs (omega arith)) (
          (here, n, sp.keeps c.address (as_worker c n) apart cell, links),
          tail_of-later c (put new cs) pk prev
                (locate-put_ne new cs pk (λ x. absurd (omega arith)) ∙ e')
              ∙ tail
              ∙ rw (tail_of-later c cs pk prev e') refl,
        )
  ]

-- Nothing that stood on the heap is changed.
pub Links-extend :
    (ws ws' : Heap) (p : Ptr) (cs : List Cell)
    → ((a : ℕ) (w : Worker) → at ws a ≡ ok w → at ws' a ≡ ok w)
    → Links ws p cs
    → Links ws' p cs
Links-extend ws ws' p [] k l = l
Links-extend ws ws' p (c ∷ cs) k (here, n, cell, l) =
    (here, n, k c.address (as_worker c n) cell, Links-extend ws ws' n cs k l)

tail_of-cons : (c : Cell) (cs : List Cell) → is_null (tail_of (c ∷ cs)) ≡ false
unfolding tail_of is_null
tail_of-cons c [] = refl
tail_of-cons c (d ∷ ds) = tail_of-cons d ds

pub tail_of-front :
    (c : Cell) (cs : List Cell)
    → tail_of (c ∷ cs) ≡ (if is_null (tail_of cs) then some c.address else tail_of cs)
unfolding tail_of is_null
tail_of-front c [] = refl
tail_of-front c (d ∷ ds) = rw (tail_of-cons d ds) refl
