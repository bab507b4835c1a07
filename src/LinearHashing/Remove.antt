-- ===== src/LinearHashing/Remove.antt =====
-- `LinearHashing::remove`.
use range_lh_cplus_plus.Base.{ℕ, ◌≡◌, refl, arith, [], Option, none, some, not, if◌then◌else◌}
use range_lh_cplus_plus.Base.Words.{sub32}
use range_lh_cplus_plus.Base.Run.{ok, ◌>>=◌}
use range_lh_cplus_plus.LinearHashing.{Entry, Chain, LinearHashing, unlink, remove}
use range_lh_cplus_plus.LinearHashing.Chain.{
  first, rest, is_empty, total-set, Unlinks, absent, found, unlink-Unlinks,
}
use range_lh_cplus_plus.LinearHashing.Valid.{IsValid, stored, get_bucket_index-lt, at-home}
use range_lh_cplus_plus.LinearHashing.Writes.{Writes, set-Writes, home_chain, with_chain}

-- What `remove` does: it deletes the first worker under the id and says whether there was one.
pub record Removes {D : Type 0} (t : LinearHashing D) (id : ℕ) (t' : LinearHashing D) : Type 0 where
  pub writes : Writes t id (rest (stored t id)) t'
  pub counts :
      t'.num_records ≡ (if is_empty (stored t id) then t.num_records else sub32 t.num_records 1)

module _ {D : Type 0} (t : LinearHashing D) (id : ℕ) (v : IsValid t) where
  keep-Writes : stored t id ≡ [] → Writes t id (rest (stored t id)) t
  keep-Writes e = record { valid = v; width = refl; reads = λ q. ground arith }

  removed :
      (o : Option (Entry × Chain))
      → unlink id (home_chain v id) ≡ o
      → Unlinks id (home_chain v id) o
      → (t' : LinearHashing D) × (remove t id
          ≡ ok (not (is_empty (stored t id)), first (stored t id), t'))
        × Removes t id t'
  unfolding remove stored sub32
  removed none run (absent e) =
      (t, rw (at-home v id, ◌>>=◌, run, e), record { writes = keep-Writes e; counts = rw e })
  removed (some (e, es)) run (found same here others len keep) = (
    with_chain v id es (sub32 t.num_records 1),
    rw (at-home v id, ◌>>=◌, run, here),
    record {
      writes = rw here (
          set-Writes v id es _ (λ h i p. keep h i) others
            (omega (arith, v.counted, total-set t.buckets _ es (get_bucket_index-lt v id))));
      counts = rw here;
    },
  )

  -- On every valid table `remove` is defined and says whether the id had a worker; it deletes the
  -- worker that a lookup would give and no other, keeps the invariant and the number of buckets,
  -- and counts one record less just if there was one.
  pub remove_lem :
      (t' : LinearHashing D) × (remove t id
        ≡ ok (not (is_empty (stored t id)), first (stored t id), t'))
      × Removes t id t'
  remove_lem = removed (unlink id (home_chain v id)) refl (unlink-Unlinks id (home_chain v id))
