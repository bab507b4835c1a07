-- ===== src/LinearHashing/Valid.antt =====
-- The invariant of the table, and what the table stores under an id.
use range_lh_cplus_plus.Base.{ℕ, ◌+◌, ◌%◌, ◌^◌, ◌≤◌, ◌<◌, ◌≡◌, arith, List, [], length, get_or, All}
use range_lh_cplus_plus.Base.Words.{u32_mod}
use range_lh_cplus_plus.Base.Run.{ok, at, at-get_or}
use range_lh_cplus_plus.LinearHashing.{Ptr, Chain, LinearHashing, get_bucket_index, lookup}
use range_lh_cplus_plus.LinearHashing.Hash.{home, home-lt, bucket_index-home}
use range_lh_cplus_plus.LinearHashing.Chain.{workers_of, first, find_worker-first, total}

-- Every entry stands in the bucket that its id belongs to.
abbrev pub IsPlaced : (m next : ℕ) → List Chain → Type 0
IsPlaced m next bs = (i : ℕ) → All (λ e. home m next e.id ≡ i) (get_or bs i [])

-- The table started with `2 ^ exponent` buckets, and `m` of them began this round, of which `next`
-- are split. All the entries are counted, up to the wrap of the 32-bit counter.
pub record IsValid {D : Type 0} (t : LinearHashing D) : Type 0 where
  pub exponent : ℕ
  pub m : ℕ
  pub power : t.initial_buckets ≡ 2 ^ exponent
  pub round : m ≡ 2 ^ (exponent + t.level)
  pub room : exponent + t.level ≤ 30
  pub next_lt : t.next < m
  pub width : length t.buckets ≡ m + t.next
  pub placed : IsPlaced m t.next t.buckets
  pub counted : t.num_records ≡ total t.buckets % u32_mod

module _ {D : Type 0} where
  -- The workers stored under an id, in the order in which lookups meet them.
  unfoldable pub stored : LinearHashing D → ℕ → List Ptr
  stored t q = workers_of q (get_or t.buckets (get_bucket_index t q) [])

  module _ {t : LinearHashing D} (v : IsValid t) (q : ℕ) where
    pub get_bucket_index-home : get_bucket_index t q ≡ home v.m t.next q
    unfolding get_bucket_index
    get_bucket_index-home =
        rw (v.power, v.round) (bucket_index-home v.exponent t.level t.next q v.room)

    pub get_bucket_index-lt : get_bucket_index t q < length t.buckets
    get_bucket_index-lt =
        rw (get_bucket_index-home, v.width)
          (home-lt v.m t.next q (omega (arith, v.next_lt)) (omega (arith, v.next_lt)))

    pub at-home :
        at t.buckets (get_bucket_index t q) ≡ ok (get_or t.buckets (get_bucket_index t q) [])
    at-home = at-get_or _ _ _ get_bucket_index-lt

    -- A lookup reads the first of them, and never leaves the bucket array.
    pub lookup-first : lookup t q ≡ ok (first (stored t q))
    unfolding lookup stored
    lookup-first = rw (at-home, find_worker-first)
