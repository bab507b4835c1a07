-- ===== src/LinearHashing/Writes.antt =====
-- A write to one chain of the table: what `insert` and `remove` share.
use range_lh_cplus_plus.Base.{
  ℕ, ◌%◌, ◌≡◌, ◌≢◌, refl, sym, ap, ◌∙◌, List, [], length, get_or, set, All, if◌then◌else◌, ◌==◌,
  length-set, get_or-set_self, get_or-set_ne, Bool-cases, inl, inr, ==→eq, ==_false→ne,
}
use range_lh_cplus_plus.Base.Words.{u32_mod}
use range_lh_cplus_plus.LinearHashing.{Ptr, Chain, LinearHashing, get_bucket_index}
use range_lh_cplus_plus.LinearHashing.Hash.{home}
use range_lh_cplus_plus.LinearHashing.Chain.{workers_of, total}
use range_lh_cplus_plus.LinearHashing.Valid.{
  IsPlaced, IsValid, stored, get_bucket_index-home, get_bucket_index-lt,
}

-- The effect of one write to the home bucket of `id`: under `id` the table now holds `ws`.
pub record Writes {D : Type 0} (t : LinearHashing D) (id : ℕ) (ws : List Ptr) (t' : LinearHashing D)
    : Type 0 where
  pub valid : IsValid t'
  pub width : length t'.buckets ≡ length t.buckets
  pub reads : (q : ℕ) → stored t' q ≡ (if q == id then ws else stored t q)

module _ {D : Type 0} {t : LinearHashing D} (v : IsValid t) (id : ℕ) where
  -- the table with another chain in the home bucket of `id`
  abbrev pub with_chain : Chain → ℕ → LinearHashing D
  with_chain c n = record t { buckets = set t.buckets (get_bucket_index t id) c; num_records = n }

  abbrev pub home_chain : Chain
  home_chain = get_or t.buckets (get_bucket_index t id) []

  with_chain-index :
      (c : Chain) (n q : ℕ) → get_bucket_index (with_chain c n) q ≡ get_bucket_index t q
  unfolding get_bucket_index
  with_chain-index c n q = refl

  stored-with_chain :
      (c : Chain) (n q : ℕ)
      → ((q : ℕ) → q ≢ id → workers_of q c ≡ workers_of q home_chain)
      → stored (with_chain c n) q ≡ (if q == id then workers_of id c else stored t q)
  unfolding stored
  stored-with_chain c n q others =
      let j = get_bucket_index t id in
      rw (with_chain-index c n q) (elim (Bool-cases (q == id)) [
        | inl same ↦
            rw (same, ==→eq q id same)
              (ap (workers_of id) (get_or-set_self t.buckets j c [] (get_bucket_index-lt v id)))
        | inr other ↦ rw other (elim (Bool-cases (j == get_bucket_index t q)) [
          | inl near ↦ rw (← ==→eq j (get_bucket_index t q) near) (
              ap (workers_of q) (get_or-set_self t.buckets j c [] (get_bucket_index-lt v id))
              ∙ others q (==_false→ne q id other))
          | inr far ↦ ap (workers_of q) (
              get_or-set_ne t.buckets j (get_bucket_index t q) c []
                (==_false→ne j (get_bucket_index t q) far))
        ])
      ])

  -- the placement of the new chain follows from that of the old one
  abbrev pub KeepsPlace : Chain → Type 0
  KeepsPlace c =
      (h : ℕ → ℕ) (i : ℕ) → h id ≡ i → All (λ e. h e.id ≡ i) home_chain → All (λ e. h e.id ≡ i) c

  with_chain-IsPlaced :
      (c : Chain) → KeepsPlace c → IsPlaced v.m t.next (set t.buckets (get_bucket_index t id) c)
  with_chain-IsPlaced c keep i =
      let j = get_bucket_index t id in
      elim (Bool-cases (j == i)) [
        | inl here ↦
            let e = ==→eq j i here in
            rw (← e, get_or-set_self t.buckets j c [] (get_bucket_index-lt v id))
              (keep (home v.m t.next) j (sym (get_bucket_index-home v id)) (v.placed j))
        | inr far ↦ rw (get_or-set_ne t.buckets j i c [] (==_false→ne j i far)) (v.placed i)
      ]

  pub set-Writes :
      (c : Chain) (n : ℕ)
      → KeepsPlace c
      → ((q : ℕ) → q ≢ id → workers_of q c ≡ workers_of q home_chain)
      → n ≡ total (set t.buckets (get_bucket_index t id) c) % u32_mod
      → Writes t id (workers_of id c) (with_chain c n)
  set-Writes c n keep others count = record {
    valid = record {
      exponent = v.exponent;
      m = v.m;
      power = v.power;
      round = v.round;
      room = v.room;
      next_lt = v.next_lt;
      width = length-set t.buckets _ c ∙ v.width;
      placed = with_chain-IsPlaced c keep;
      counted = count;
    };
    width = length-set t.buckets _ c;
    reads = λ q. stored-with_chain c n q others;
  }
