-- ===== src/LinearHashing/Insert.antt =====
-- `LinearHashing::insert` and `batchInsert`.
use range_lh_cplus_plus.Base.{
  ℕ, suc, ◌-◌, ◌^◌, ◌≤◌, ◌<◌, ◌≡◌, refl, sym, ◌∙◌, arith, List, [], ◌∷◌, length, if◌then◌else◌,
  ◌==◌, Bool-cases, inl, inr, eq→==, subst, ne→==_false,
}
use range_lh_cplus_plus.Base.Words.{add32}
use range_lh_cplus_plus.Base.Run.{ok}
use range_lh_cplus_plus.Base.Float.{Float}
use range_lh_cplus_plus.LinearHashing.{
  Ptr, Chain, LinearHashing, add_entry, is_overloaded, check_and_split, insert, lookup,
}
use range_lh_cplus_plus.LinearHashing.Chain.{workers_of, total-set}
use range_lh_cplus_plus.LinearHashing.Valid.{
  IsValid, stored, get_bucket_index-lt, at-home, lookup-first,
}
use range_lh_cplus_plus.LinearHashing.Split.{split_lem}
use range_lh_cplus_plus.LinearHashing.Writes.{Writes, set-Writes, home_chain, with_chain}
use mathlib.Core.List.{reverse}

-- No id has two entries.
abbrev pub IsDistinct : {D : Type 0} → LinearHashing D → Type 0
IsDistinct t = (q : ℕ) → length (stored t q) ≤ 1

module _ {D : Type 0} {t : LinearHashing D} (v : IsValid t) (id : ℕ) (worker : Ptr) where
  -- the entry goes in front of those under the same id
  pub add_entry_lem :
      (t' : LinearHashing D) × (add_entry t id worker ≡ ok t')
      × Writes t id (worker ∷ stored t id) t'
      × (t'.num_records ≡ add32 t.num_records 1)
  unfolding add_entry workers_of stored add32
  add_entry_lem =
      let c : Chain = record { id = id; worker = worker } ∷ home_chain v id in
      let ws : workers_of id c ≡ worker ∷ stored t id = rw (eq→== id id refl) in
      (
        with_chain v id c (add32 t.num_records 1),
        rw (at-home v id),
        subst (λ x. Writes t id x (with_chain v id c (add32 t.num_records 1))) ws
            (set-Writes v id c _ (λ h i e p. (e, p))
              (λ q ne. rw (ne→==_false id q (λ p. ne (sym p))))
              (omega (arith, v.counted, total-set t.buckets _ c (get_bucket_index-lt v id)))),
        refl,
      )

reverse_short : (ws : List Ptr) → length ws ≤ 1 → reverse ws ≡ ws
reverse_short [] h = refl
reverse_short (w ∷ []) h = refl
reverse_short (w ∷ x ∷ ws) h = absurd (omega arith)

-- The table after an insertion under a new id.
pub record Inserts {D : Type 0} (t : LinearHashing D) (id : ℕ) (worker : Ptr) (t' : LinearHashing D)
    : Type 0 where
  pub valid : IsValid t'
  pub distinct : IsDistinct t'
  pub reads : (q : ℕ) → stored t' q ≡ (if q == id then worker ∷ [] else stored t q)
  pub counts : t'.num_records ≡ add32 t.num_records 1
  pub grows : length t'.buckets ≤ suc (length t.buckets)
  pub looks : (q : ℕ) → lookup t' q ≡ (if q == id then ok worker else lookup t q)

module _ {D : Type 0} ⦃fl : Float D⦄ where
  -- whether or not the table splits, distinct ids keep their order
  split_or_keep :
      (t : LinearHashing D)
      → IsValid t
      → IsDistinct t
      → length t.buckets < 2 ^ 31 - 1
      → (t' : LinearHashing D) × (check_and_split t ≡ ok t')
        × IsValid t'
        × ((q : ℕ) → stored t' q ≡ stored t q)
        × (t'.num_records ≡ t.num_records)
        × (length t'.buckets ≤ suc (length t.buckets))
  unfolding check_and_split
  split_or_keep t v distinct small = elim (Bool-cases (is_overloaded t)) [
    | inl full ↦
        let (t', run, s) = split_lem t v small in
        (
          t',
          rw full run,
          s.valid,
          (λ q. s.order q ∙ ground (arith, reverse_short (stored t q), distinct q)),
          s.counts,
          omega (arith, s.grows),
        )
    | inr room ↦ (t, rw room, v, (λ q. refl), refl, omega arith)
  ]

  -- On a valid table without repeated ids, with fewer than 2^31 - 1 buckets and nothing under the
  -- id, `insert` is defined whether or not it splits; the result is valid and without repeated
  -- ids, holds just the new worker under the id and what it held before under every other id,
  -- counts one record more, has at most one bucket more, and a lookup gives the new worker at the
  -- id and the old answer elsewhere.
  pub insert_lem :
      (t : LinearHashing D) (id : ℕ) (worker : Ptr)
      → IsValid t
      → IsDistinct t
      → stored t id ≡ []
      → length t.buckets < 2 ^ 31 - 1
      → (t' : LinearHashing D) × (insert t id worker ≡ ok t') × Inserts t id worker t'
  unfolding insert
  insert_lem t id worker v distinct absent small =
      let (t₁, run₁, w, count) = add_entry_lem v id worker in
      let few : IsDistinct t₁ = λ q. ground (arith, w.reads q, distinct q, absent) in
      let (t₂, run₂, valid, same, count₂, grows) =
        split_or_keep t₁ w.valid few (omega (arith, w.width)) in
      (
        t₂,
        rw run₁ run₂,
        record {
          valid = valid;
          distinct = λ q. rw same (few q);
          reads = λ q. same q ∙ w.reads q ∙ rw absent;
          counts = count₂ ∙ count;
          grows = omega (arith, w.width);
          looks = λ q. rw (lookup-first valid q, lookup-first v q, same, w.reads) (ground arith);
        },
      )
