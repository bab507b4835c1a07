-- ===== src/LinearHashing/Batch.antt =====
-- `LinearHashing::batchInsert`, and what a split does to an id that was inserted twice.
use range_lh_cplus_plus.Base.{
  ℕ, ◌+◌, ◌-◌, ◌^◌, ◌<◌, ◌≡◌, refl, sym, ◌∙◌, arith, List, [], ◌∷◌, Option, none, some, length,
  if◌then◌else◌, ◌==◌, Bool-cases, inl, inr, ==→eq, ==_false→ne, eq→==, ne→==_false,
}
use range_lh_cplus_plus.Base.Run.{ok}
use range_lh_cplus_plus.Base.Float.{Float}
use range_lh_cplus_plus.LinearHashing.{
  Ptr, LinearHashing, get_bucket_index, batch_insert, lookup, split,
}
use range_lh_cplus_plus.LinearHashing.Valid.{IsValid, stored, lookup-first}
use range_lh_cplus_plus.LinearHashing.Split.{split_lem}
use range_lh_cplus_plus.LinearHashing.Insert.{IsDistinct, Inserts, insert_lem}

-- the worker that a batch has for an id
unfoldable pub entry_for : ℕ → List (ℕ × Ptr) → Option Ptr
entry_for q [] = none
entry_for q ((id, worker) ∷ es) = if q == id then some worker else entry_for q es

abbrev pub after_batch : List Ptr → Option Ptr → List Ptr
after_batch ws none = ws
after_batch ws (some worker) = worker ∷ []

module _ {D : Type 0} where
  -- no id of the batch is in the table, or twice in the batch
  abbrev pub IsNew : LinearHashing D → List (ℕ × Ptr) → Type 0
  IsNew t [] = Unit
  IsNew t ((id, worker) ∷ es) = (stored t id ≡ []) × (entry_for id es ≡ none) × IsNew t es

  IsNew-insert :
      {t t' : LinearHashing D} {id : ℕ} {worker : Ptr} (es : List (ℕ × Ptr))
      → Inserts t id worker t'
      → entry_for id es ≡ none
      → IsNew t es
      → IsNew t' es
  unfolding entry_for
  IsNew-insert [] n gone fresh = tt
  IsNew-insert {id} ((i, w) ∷ es) n gone (empty, once, fresh) = elim (Bool-cases (id == i)) [
    | inl same ↦ let clash = rw same at gone in absurd (cc clash)
    | inr other ↦ (
      n.reads i ∙ rw (ne→==_false i id (λ p. ==_false→ne id i other (sym p))) empty,
      once,
      IsNew-insert es n (rw other at gone) fresh,
    )
  ]

  module _ ⦃fl : Float D⦄ where
    -- On a valid table without repeated ids, `batchInsert` of entries whose ids are all different
    -- and new, with room for a split at each, is defined; the result is valid and without repeated
    -- ids and holds the entry's worker under each of their ids and what it held before under all
    -- others.
    pub batch_insert_lem :
        (t : LinearHashing D) (entries : List (ℕ × Ptr))
        → IsValid t
        → IsDistinct t
        → IsNew t entries
        → length t.buckets + length entries < 2 ^ 31
        → (t' : LinearHashing D) × (batch_insert t entries ≡ ok t')
          × IsValid t'
          × IsDistinct t'
          × ((q : ℕ) → stored t' q ≡ after_batch (stored t q) (entry_for q entries))
    unfolding batch_insert entry_for
    batch_insert_lem t [] v distinct fresh small = (t, refl, v, distinct, λ q. refl)
    batch_insert_lem t ((id, worker) ∷ es) v distinct (empty, once, fresh) small =
        let (t₁, run₁, n) = insert_lem t id worker v distinct empty (omega arith) in
        let (t₂, run₂, v₂, distinct₂, reads) =
          batch_insert_lem t₁ es n.valid n.distinct (IsNew-insert es n once fresh)
            (omega (arith, n.grows)) in
        (
          t₂,
          rw run₁ run₂,
          v₂,
          distinct₂,
          λ q.
              reads q
              ∙ rw (n.reads q) (elim (Bool-cases (q == id)) [
                | inl same ↦ rw (same, ==→eq q id same, once)
                | inr other ↦ rw other
              ]),
        )

  -- On a valid table with fewer than 2^31 - 1 buckets, if an id has two entries in the bucket that
  -- is next to be split, then a lookup gives the newer one before the split and the older one
  -- after it.
  pub lookup-split_older :
      (t : LinearHashing D) (q : ℕ) (newer older : Ptr)
      → IsValid t
      → length t.buckets < 2 ^ 31 - 1
      → get_bucket_index t q ≡ t.next
      → stored t q ≡ newer ∷ older ∷ []
      → (lookup t q ≡ ok newer)
        × ((t' : LinearHashing D) × (split t ≡ ok t') × (lookup t' q ≡ ok older))
  lookup-split_older t q newer older v small here both =
      let (t', run, s) = split_lem t v small in
      (
        rw (lookup-first v q, both),
        (t', run, rw (lookup-first s.valid q, s.order q, eq→== _ _ here, both)),
      )
