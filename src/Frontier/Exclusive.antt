-- ===== src/Frontier/Exclusive.antt =====
-- Mutual exclusion over whole histories: a row under a live lease is its worker's alone.
use ardvark.Prelude.{ℕ, ◌≡◌, ◌≢◌, refl, false, List, [], ◌∷◌, Option, Text}
use ardvark.Store.Models.{FrontierItem, in_flight, pending, done}
use ardvark.Frontier.Db.{Db}
use ardvark.Frontier.Config.{Dialect, Frontier}
use ardvark.Frontier.Release.{is_expired, complete, requeue}
use ardvark.Frontier.Rely.{Holds}
use ardvark.Frontier.Ownership.{
  KeepsRow, enqueue_with-KeepsRow, dequeue-KeepsRow, release-KeepsRow, fail_item-KeepsRow,
  reclaim_expired-KeepsRow,
}
use ardvark.Frontier.Schedule.{
  Call, Turn, enqueues, dequeues, completes, requeues, fails, reclaims_in_flight, reclaims_expired,
  IsProper, perform, history,
}

-- The blanket sweep `ReclaimInFlight` is left out: it is for a single process.
abbrev pub IsShared : Call → Type 0
IsShared reclaims_in_flight = ⊥
IsShared _ = Unit

-- A turn of another worker, at a time when the lease of `r` has not run out.
pub record IsForeign (r : FrontierItem) (t : Turn) : Type 0 where
  pub other : r.worker_id ≢ t.worker.worker_id
  pub in_time : is_expired t.now r ≡ false
  pub proper : IsProper t.call
  pub shared : IsShared t.call

abbrev pub AllForeign : FrontierItem → List Turn → Type 0
AllForeign r [] = Unit {0}
AllForeign r (t ∷ ts) = IsForeign r t × AllForeign r ts

module _ (r : FrontierItem) (flying : r.status ≡ in_flight) (d : Dialect)
    (hostname : Text → Option Text) where
  perform-KeepsRow :
      (f : Frontier) (now : ℕ) (c : Call) (db : Db)
      → r.worker_id ≢ f.worker_id
      → is_expired now r ≡ false
      → IsProper c
      → IsShared c
      → Holds (KeepsRow r) db
      → Holds (KeepsRow r) (perform d hostname f now c db)
  unfolding complete requeue
  perform-KeepsRow f now (enqueues item budget rd rf) db o e p s =
      enqueue_with-KeepsRow r flying d hostname item budget rd rf p db
  perform-KeepsRow f now (dequeues n) db o e p s = dequeue-KeepsRow r flying d f now n db
  perform-KeepsRow f now (completes id) db o e p s = release-KeepsRow r flying f o done id refl db
  perform-KeepsRow f now (requeues id) db o e p s = release-KeepsRow r flying f o pending id refl db
  perform-KeepsRow f now (fails id cause max) db o e p s =
      fail_item-KeepsRow r flying f o id cause max db
  perform-KeepsRow f now reclaims_in_flight db o e p s = absurd s
  perform-KeepsRow f now reclaims_expired db o e p s = reclaim_expired-KeepsRow r now e db

  -- A row in flight is held unchanged through every history of calls by other workers, made before
  -- its lease runs out and without the single-process sweep, whatever faults occur: no such call
  -- completes, fails, requeues, reclaims, re-enqueues or dequeues it. The peers in between are
  -- assumed to keep the table valid and this row in it.
  pub history-KeepsRow :
      (turns : List Turn) (db : Db)
      → AllForeign r turns
      → Holds (KeepsRow r) db
      → Holds (KeepsRow r) (history d hostname turns db)
  unfolding history
  history-KeepsRow [] db a h = h
  history-KeepsRow (t ∷ ts) db a h =
      history-KeepsRow ts (perform d hostname t.worker t.now t.call db) a.1
        (perform-KeepsRow t.worker t.now t.call db a.0.other a.0.in_time a.0.proper a.0.shared h)
