-- ===== src/Frontier/Sweeps.antt =====
-- The sweeps that recover the items of dead workers, and the count that ends a crawl.
use ardvark.Prelude.{
  ℕ, ◌≡◌, ◌↔◌, refl, Bool, false, List, [], ◌∷◌, All, arith, ap, count_where, update_where,
  count_where-zero, count_where-none,
}
use ardvark.Store.Models.{FrontierItem, pending, is_pending, is_in_flight}
use ardvark.Frontier.Config.{FrontierError}
use ardvark.Frontier.Db.{Table, Db, Result, ok}
use ardvark.Frontier.Sharing.{ok-injective}
use ardvark.Frontier.Enqueue.{lease_release_updates}
use ardvark.Frontier.Release.{reclaim_expired, reclaim_in_flight, is_expired, counts}
use ardvark.Frontier.Lookup.{quiet, row_at, changed_by, find-update_where}

release-id : (r : FrontierItem) → (lease_release_updates pending r).id ≡ r.id
unfolding lease_release_updates
release-id r = refl

-- A released row is not in flight, so no sweep selects it again.
swept_clean :
    (p : FrontierItem → Bool) (rows : List FrontierItem)
    → ((r : FrontierItem) → p (lease_release_updates pending r) ≡ false)
    → count_where p (update_where p (lease_release_updates pending) rows) ≡ 0
unfolding count_where update_where
swept_clean p [] h = refl
swept_clean p (r ∷ rows) h = ground (arith, h r, swept_clean p rows h)

released_not_expired :
    (now : ℕ) (r : FrontierItem) → is_expired now (lease_release_updates pending r) ≡ false
unfolding lease_release_updates
released_not_expired now r = refl

released_not_in_flight :
    (r : FrontierItem) → is_in_flight (lease_release_updates pending r).status ≡ false
unfolding lease_release_updates
released_not_in_flight r = refl

-- `ReclaimExpired`, without interference: it reports how many rows in flight had a lease that ended
-- before now, returns exactly these to pending with the lease cleared, leaves none behind, and
-- keeps the row of every other id as it is, a live lease included.
pub reclaim_expired_outcome :
    (now : ℕ) (t : Table)
    → (db : Db) × (reclaim_expired now (quiet t) ≡ (ok (count_where (is_expired now) t.rows), db))
      × (count_where (is_expired now) db.table.rows ≡ 0)
      × ((j : ℕ)
          → row_at j db.table
            ≡ changed_by (is_expired now) (lease_release_updates pending) (row_at j t))
unfolding reclaim_expired
reclaim_expired_outcome now t = (
  quiet (record t { rows = update_where (is_expired now) (lease_release_updates pending) t.rows }),
  refl,
  swept_clean (is_expired now) t.rows (released_not_expired now),
  λ j. find-update_where (is_expired now) (lease_release_updates pending) t.rows j release-id,
)

-- `ReclaimInFlight`, without interference: it reports how many rows were in flight, returns exactly
-- these to pending with the lease cleared, and leaves none in flight.
pub reclaim_in_flight_outcome :
    (t : Table)
    → (db : Db) × (reclaim_in_flight (quiet t)
        ≡ (ok (count_where (λ r. is_in_flight r.status) t.rows), db))
      × (count_where (λ r. is_in_flight r.status) db.table.rows ≡ 0)
      × ((j : ℕ)
          → row_at j db.table
            ≡ changed_by (λ r. is_in_flight r.status) (lease_release_updates pending) (row_at j t))
unfolding reclaim_in_flight
reclaim_in_flight_outcome t = (
  quiet (record t {
    rows = update_where (λ r. is_in_flight r.status) (lease_release_updates pending) t.rows;
  }),
  refl,
  swept_clean (λ r. is_in_flight r.status) t.rows released_not_in_flight,
  λ j.
      find-update_where (λ r. is_in_flight r.status) (lease_release_updates pending) t.rows j
        release-id,
)

-- A row on which no work is left.
abbrev pub IsFinished : FrontierItem → Type 0
IsFinished r = (is_pending r.status ≡ false) × (is_in_flight r.status ≡ false)

pub All-IsFinished :
    (rows : List FrontierItem)
    → All (λ r. is_pending r.status ≡ false) rows
    → All (λ r. is_in_flight r.status ≡ false) rows
    → All IsFinished rows
All-IsFinished [] p q = tt
All-IsFinished (r ∷ rows) p q = ((p.0, q.0), All-IsFinished rows p.1 q.1)

finished_parts :
    (rows : List FrontierItem)
    → All IsFinished rows
    → All (λ r. is_pending r.status ≡ false) rows × All (λ r. is_in_flight r.status ≡ false) rows
finished_parts [] h = (tt, tt)
finished_parts (r ∷ rows) h = let (p, q) = finished_parts rows h.1 in ((h.0.0, p), (h.0.1, q))

-- `Counts` reports zero pending and zero in-flight items, the condition on which the engine ends a
-- crawl, exactly when no row of the table is pending or in flight; it changes nothing.
pub counts_zero_iff :
    (t : Table) → (counts (quiet t) ≡ (ok (0, 0), quiet t)) ↔ All IsFinished t.rows
unfolding counts
counts_zero_iff t = (
  λ h.
      let both =
        ok-injective FrontierError _ _ (ap (λ (p : Result FrontierError (ℕ × ℕ) × Db). p.0) h) in
      All-IsFinished t.rows
        (count_where-zero (λ r. is_pending r.status) t.rows (ap (λ (p : ℕ × ℕ). p.0) both))
        (count_where-zero (λ r. is_in_flight r.status) t.rows (ap (λ (p : ℕ × ℕ). p.1) both)),
  λ h.
      let (p, q) = finished_parts t.rows h in
      rw
        (
          count_where-none (λ r. is_pending r.status) t.rows p,
          count_where-none (λ r. is_in_flight r.status) t.rows q,
        )
        refl,
)
