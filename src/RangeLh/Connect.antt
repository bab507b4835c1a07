-- ===== src/RangeLh/Connect.antt =====
-- How `insert_impl` of Implement/rangeLH.cpp connects a new worker with the adjacent ones.
use range_lh_cplus_plus.Base.{
  ℕ, suc, ◌≤◌, ◌<◌, ◌≡◌, ◌≢◌, refl, sym, ap, subst, ◌∙◌, arith, List, [], ◌∷◌, ◌++◌, none, some,
  if◌then◌else◌, length, set, length-set, length-append, Option-cases, inl, inr,
}
use range_lh_cplus_plus.Base.Run.{ok, at}
use range_lh_cplus_plus.Base.Vectors.{at-lt, at-set_self, at-set_ne, at-append, at-append_last}
use range_lh_cplus_plus.LinearHashing.{Ptr, nullptr}
use range_lh_cplus_plus.Workers.{Worker, Heap, is_null, set_next}
use range_lh_cplus_plus.RangeLh.{RangeLh, connect}
use range_lh_cplus_plus.RangeLh.Cells.{
  Cell, Ascending, locate, tail_of, put, put-front, Ascending-above,
}
use range_lh_cplus_plus.RangeLh.Chain.{
  Links, as_worker, Splices, Keeps, Links-extend, tail_of-front, locate-Links, splice-Links,
}
use range_lh_cplus_plus.RangeLh.Left.{IsPredecessor}
use native.Mathlib.Decide.{dec_lt}

-- the heap with the new worker behind the others
abbrev pub grown : Heap → Cell → Heap
grown ws c = ws ++ as_worker c nullptr ∷ []

module _ (ws : Heap) (prev : ℕ) (w : Worker) (c : Cell) (there : at ws prev ≡ ok w)
    (at_end : c.address ≡ length ws) where
  -- `prev_worker->setNext(new_worker)`
  abbrev half : Heap
  half = set (grown ws c) prev (record w { next = some c.address })

  abbrev linked : Ptr → Heap
  linked none = half
  linked (some next) = set half c.address (as_worker c (some next))

  prev_lt : prev < length (grown ws c)
  prev_lt = omega (arith, at-lt ws prev w there, length-append ws (as_worker c nullptr ∷ []))

  apart : prev ≢ c.address
  apart e = absurd (omega (arith, at-lt ws prev w there))

  half_new : at half c.address ≡ ok (as_worker c nullptr)
  half_new =
      at-set_ne (grown ws c) prev c.address (record w { next = some c.address }) apart
      ∙ ap (at (grown ws c)) at_end
      ∙ at-append_last ws (as_worker c nullptr)

  half-Keeps : Keeps ws half prev
  half-Keeps a x ne e = at-set_ne (grown ws c) prev a _ (λ p. ne (sym p)) ∙ at-append ws _ a x e

  half_joined : at half prev ≡ ok (record w { next = some c.address })
  half_joined = at-set_self (grown ws c) prev _ prev_lt

  new_lt : c.address < length half
  new_lt = at-lt half c.address (as_worker c nullptr) half_new

  linked-Splices : (next : Ptr) → w.next ≡ next → Splices ws (linked next) prev w c
  linked-Splices none e = record {
    before = there;
    joined = half_joined;
    added = half_new ∙ ap (λ n. ok (as_worker c n)) (sym e);
    keeps = half-Keeps;
  }
  linked-Splices (some next) e = record {
    before = there;
    joined = at-set_ne half c.address prev _ (λ p. apart (sym p)) ∙ half_joined;
    added = at-set_self half c.address _ new_lt ∙ ap (λ n. ok (as_worker c n)) (sym e);
    keeps = λ a x ne e'.
        at-set_ne half c.address a _ (λ p. absurd (omega (arith, at-lt ws a x e', at_end)))
        ∙ half-Keeps a x ne e';
  }

  length-linked : (next : Ptr) → length (linked next) ≡ suc (length ws)
  length-linked none = omega (
    arith,
    length-set (grown ws c) prev (record w { next = some c.address }),
    length-append ws (as_worker c nullptr ∷ []),
  )
  length-linked (some next) = omega (
    arith,
    length-set (grown ws c) prev (record w { next = some c.address }),
    length-set half c.address (as_worker c (some next)),
    length-append ws (as_worker c nullptr ∷ []),
  )

  pub connect-behind :
      {D : Type 0} (t : RangeLh D)
      → (ws' : Heap) × (connect (record t { workers = grown ws c }) (some prev) (some c.address)
          ≡ ok (record t {
            workers = ws';
            worker_tail = if is_null w.next then some c.address else t.worker_tail;
          }))
        × Splices ws ws' prev w c
        × (length ws' ≡ suc (length ws))
  unfolding connect set_next is_null
  connect-behind t = elim (Option-cases w.next) [
    | inl last ↦ (
      linked none,
      rw (at-append ws (as_worker c nullptr ∷ []) prev w there, last) refl,
      linked-Splices none last,
      length-linked none,
    )
    | inr (next, more) ↦ (
      linked (some next),
      rw (at-append ws (as_worker c nullptr ∷ []) prev w there, more, half_new) refl,
      linked-Splices (some next) more,
      length-linked (some next),
    )
  ]

-- The index after `connect`: the chain has the new cell in its place.
abbrev pub IsConnected :
    {D : Type 0}
    → RangeLh D
    → Cell
    → List Cell
    → (prev : Ptr) → (ws' : Heap) → (head tail : Ptr) → Type 0
IsConnected t c cs prev ws' head tail =
    (connect (record t { workers = grown t.workers c }) prev (some c.address)
      ≡ ok (record t { workers = ws'; worker_head = head; worker_tail = tail }))
    × Links ws' head (put c cs)
    × (tail ≡ tail_of (put c cs))
    × (length ws' ≡ suc (length t.workers))

module _ {D : Type 0} (t : RangeLh D) (c : Cell) (cs : List Cell)
    (at_end : c.address ≡ length t.workers) (linked : Links t.workers t.worker_head cs)
    (sorted : Ascending 0 cs) (last : t.worker_tail ≡ tail_of cs) where
  -- up to the new key, if it holds below it
  up_to :
      (q : ℕ)
      → locate cs c.id ≡ none
      → q ≤ c.id
      → (q < c.id → locate cs q ≡ none)
      → locate cs q ≡ none
  up_to q absent h below = elim (dec_lt q c.id) [
    | yes lt ↦ below lt
    | no ge ↦ let e : c.id ≡ q = omega arith in subst (λ x. locate cs x ≡ none) e absent
  ]

  connect-front :
      Ascending (suc c.id) cs
      → (ws' : Heap) × (head : Ptr) × (tail : Ptr) × IsConnected t c cs nullptr ws' head tail
  unfolding connect set_next
  connect-front above =
      let ws = t.workers in
      let new_there : at (grown ws c) c.address ≡ ok (as_worker c nullptr) =
        ap (at (grown ws c)) at_end ∙ at-append_last ws (as_worker c nullptr) in
      (
        set (grown ws c) c.address (as_worker c t.worker_head),
        some c.address,
        (if is_null t.worker_tail then some c.address else t.worker_tail),
        (
          rw new_there refl,
          rw (put-front c cs above) (
            refl,
            t.worker_head,
            at-set_self (grown ws c) c.address _ (at-lt _ _ _ new_there),
            Links-extend ws _ t.worker_head cs
                (λ a w e.
                  at-set_ne (grown ws c) c.address a _
                    (λ p. absurd (omega (arith, at-lt ws a w e, at_end)))
                  ∙ at-append ws _ a w e)
                linked,
          ),
          rw (put-front c cs above, last) (sym (tail_of-front c cs)),
          omega (
            arith,
            length-set (grown ws c) c.address (as_worker c t.worker_head),
            length-append ws (as_worker c nullptr ∷ []),
          ),
        ),
      )

  -- Behind the predecessor of its key, or in front if there is none, the new worker keeps the
  -- order.
  pub connect_lem :
      (prev : Ptr)
      → locate cs c.id ≡ none
      → IsPredecessor (locate cs) c.id prev
      → (ws' : Heap) × (head : Ptr) × (tail : Ptr) × IsConnected t c cs prev ws' head tail
  connect_lem none absent pred =
      connect-front
        (Ascending-above 0 c.id cs sorted (λ q _ h. up_to q absent h (λ below. pred q below)))
  connect_lem (some prev) absent (pk, below, found, gap) =
      let (w, there, id) = locate-Links t.workers t.worker_head cs pk prev linked found in
      let (ws', run, sp, len) = connect-behind t.workers prev w c there at_end t in
      let (links, tail) =
        splice-Links sp pk below 0 t.worker_head cs sorted linked found
          (λ q above h. up_to q absent h (λ below. gap q above below)) in
      (
        ws',
        t.worker_head,
        (if is_null w.next then some c.address else t.worker_tail),
        (run, links, rw last (sym tail), len),
      )
