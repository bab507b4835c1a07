-- ===== src/LinearHashing/Moved.antt =====
-- `LinearHashing::split`: the buckets after the entries of one of them were relinked, and what
-- they hold under an id.
use range_lh_cplus_plus.Base.{
  ℕ, suc, ◌+◌, ◌-◌, ◌%◌, ◌^◌, ◌<◌, ◌≡◌, refl, sym, ap, ◌∙◌, arith, List, [], ◌∷◌, ◌++◌, length,
  get_or, set, All, All-map, if◌then◌else◌, ◌==◌, length-append, length-set, get_or-set_self,
  get_or-set_ne, get_or-append_default, Bool-cases, inl, inr, ==→eq, ==_false→ne, eq→==,
  ne→==_false, get_or_beyond, false,
}
use range_lh_cplus_plus.Base.Words.{u32_mod, add32, add32_small}
use range_lh_cplus_plus.Base.Run.{ok, at-get_or}
use range_lh_cplus_plus.Base.Bits.{pow_suc}
use range_lh_cplus_plus.LinearHashing.{Chain, LinearHashing, relink, advance, split}
use range_lh_cplus_plus.LinearHashing.Hash.{
  home, home-lt, hash-mod, target, home_after, home_after_here, home_after_other,
}
use range_lh_cplus_plus.LinearHashing.Chain.{
  workers_of, total, goes_to, length-relink, total-relink, workers_of-relink, All-relink, total-set,
  total-append,
}
use range_lh_cplus_plus.LinearHashing.Valid.{IsValid}
use mathlib.Core.List.{reverse_aux, reverse}
use native.Mathlib.Numerals.{add-one}

module _ {D : Type 0} (t : LinearHashing D) (v : IsValid t)
    (small : length t.buckets < 2 ^ 31 - 1) where
  open v use {exponent, m}

  -- the array with the new bucket, and with the old one emptied
  grown : List Chain
  grown = t.buckets ++ [] ∷ []

  old : Chain
  old = get_or t.buckets t.next []

  emptied : List Chain
  unfolding grown
  emptied = set grown t.next []

  pub moved : List Chain
  unfolding emptied old
  moved = relink t.initial_buckets (add32 t.level 1) t.next (m + t.next) old emptied

  length-emptied : length emptied ≡ suc (m + t.next)
  unfolding emptied
  length-emptied =
      omega (arith, length-set grown t.next [], length-append t.buckets ([] ∷ []), v.width)

  get_or-emptied :
      (i : ℕ) → get_or emptied i [] ≡ (if t.next == i then [] else get_or t.buckets i [])
  unfolding emptied grown
  get_or-emptied i = elim (Bool-cases (t.next == i)) [
    | inl here ↦
        rw (here, ← ==→eq t.next i here)
          (get_or-set_self grown t.next [] []
            (omega (arith, length-append t.buckets ([] ∷ []), v.width)))
    | inr other ↦ rw other (
        get_or-set_ne grown t.next i [] [] (==_false→ne t.next i other)
        ∙ get_or-append_default t.buckets i [])
  ]

  -- on the ids of bucket `next` the loop's test is the new home
  goes_to-target :
      (q : ℕ)
      → goes_to t.initial_buckets (add32 t.level 1) t.next (m + t.next) q ≡ target m t.next q
  goes_to-target q =
      let e : exponent + suc t.level ≡ suc (exponent + t.level) = omega arith in
      rw (
        v.power,
        add32_small t.level 1 (omega (arith, v.room)),
        add-one t.level,
        hash-mod exponent (suc t.level) q (omega (arith, v.room)),
        e,
        pow_suc (exponent + t.level),
        ← v.round,
      )

  pub moved-IsPlaced : (i : ℕ) → All (λ e. home_after m t.next e.id ≡ i) (get_or moved i [])
  unfolding moved old
  moved-IsPlaced =
      All-relink t.initial_buckets (add32 t.level 1) t.next (m + t.next) (home_after m t.next) old
        emptied (omega (arith, length-emptied, v.next_lt)) (omega (arith, length-emptied))
        (All-map (λ e. home m t.next e.id ≡ t.next) _ old
          (λ e h. rw goes_to-target (home_after_here m t.next e.id v.next_lt h)) (v.placed t.next))
        (λ i. rw get_or-emptied (elim (Bool-cases (t.next == i)) [
          | inl here ↦ rw here tt
          | inr other ↦ rw other (
              All-map (λ e. home m t.next e.id ≡ i) _ _
                (λ e h. home_after_other m t.next e.id i v.next_lt h (==_false→ne t.next i other))
                (v.placed i))
        ]))

  pub split-moved : split t ≡ ok (advance (record t { buckets = moved }))
  unfolding split moved grown
  split-moved =
      let len = length-append t.buckets ([] ∷ []) in
      let dest : (length grown - 1) % u32_mod ≡ m + t.next = omega (arith, v.width) in
      rw (at-get_or grown t.next [] (omega (arith, v.width)), get_or-append_default, dest)

  pub total-moved : total moved ≡ total t.buckets
  unfolding moved old emptied grown
  total-moved = omega (
    arith,
    total-relink t.initial_buckets (add32 t.level 1) t.next (m + t.next) old emptied
        (omega (arith, length-emptied, v.next_lt)) (omega (arith, length-emptied)),
    total-set grown t.next [] (omega (arith, length-append t.buckets ([] ∷ []), v.width)),
    ap length (get_or-append_default t.buckets t.next []),
    total-append t.buckets,
  )

  pub length-moved : length moved ≡ suc (m + t.next)
  unfolding moved
  length-moved =
      length-relink t.initial_buckets (add32 t.level 1) t.next (m + t.next) old emptied
      ∙ length-emptied

  -- what the relinked array holds under an id
  workers_of-moved :
      (q i : ℕ)
      → workers_of q (get_or moved i []) ≡ (
          if target m t.next q == i
          then reverse_aux (workers_of q old) (workers_of q (get_or emptied i []))
          else workers_of q (get_or emptied i []))
  unfolding moved
  workers_of-moved q i = rw (← goes_to-target q) (
      workers_of-relink t.initial_buckets (add32 t.level 1) t.next (m + t.next) q i old emptied
        (omega (arith, length-emptied, v.next_lt)) (omega (arith, length-emptied)))

  emptied-target : (q : ℕ) → get_or emptied (target m t.next q) [] ≡ []
  emptied-target q =
      rw get_or-emptied
        (ground (arith, get_or_beyond t.buckets (m + t.next) [] (omega (arith, v.width))))

  pub stored-moved :
      (q : ℕ)
      → workers_of q (get_or moved (home_after m t.next q) []) ≡ (
          if home m t.next q == t.next
          then reverse (workers_of q (get_or t.buckets (home m t.next q) []))
          else workers_of q (get_or t.buckets (home m t.next q) []))
  unfolding old workers_of
  stored-moved q = elim (Bool-cases (home m t.next q == t.next)) [
    | inl here ↦
        let e = ==→eq (home m t.next q) t.next here in
        rw (
          here,
          home_after_here m t.next q v.next_lt e,
          workers_of-moved,
          eq→== _ _ refl,
          emptied-target,
          e,
        )
    | inr other ↦
        let ne = ==_false→ne (home m t.next q) t.next other in
        let low = home-lt m t.next q (omega (arith, v.next_lt)) (omega (arith, v.next_lt)) in
        let away : (target m t.next q == home m t.next q) ≡ false = ground arith in
        rw (
          other,
          home_after_other m t.next q (home m t.next q) v.next_lt refl (λ p. ne (sym p)),
          workers_of-moved,
          away,
          get_or-emptied,
          ne→==_false t.next (home m t.next q) (λ p. ne (sym p)),
        )
  ]
