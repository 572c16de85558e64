-- ===== src/Frontier/Schedule.antt =====
-- Histories of the frontier: any workers, in any order, each call at its own time.
use ardvark.Prelude.{ℕ, refl, Bool, List, [], ◌∷◌, Option, Text}
use ardvark.Store.Models.{FrontierItem, pending, done}
use ardvark.Frontier.Db.{Db}
use ardvark.Frontier.Config.{Dialect, Frontier}
use ardvark.Frontier.Enqueue.{enqueue_with}
use ardvark.Frontier.Dequeue.{dequeue}
use ardvark.Frontier.Release.{complete, requeue, fail_item, reclaim_in_flight, reclaim_expired}
use ardvark.Frontier.Rely.{Holds}
use ardvark.Frontier.Invariant.{IsValid}
use ardvark.Frontier.Validity.{
  IsFresh, enqueue_with-IsValid, dequeue-IsValid, release-IsValid, fail_item-IsValid,
  reclaim_in_flight-IsValid, reclaim_expired-IsValid,
}

-- The methods of `Frontier` that write to the table.
pub data Call : Type 0 where
  enqueues : FrontierItem → Option ℕ → Bool → Bool → Call
  dequeues completes requeues : ℕ → Call
  fails : ℕ → Option Text → ℕ → Call
  reclaims_in_flight reclaims_expired : Call

pub record Turn : Type 0 where
  pub worker : Frontier
  pub now : ℕ
  pub call : Call

module _ (d : Dialect) (hostname : Text → Option Text) where
  abbrev pub perform : Frontier → ℕ → Call → Db → Db
  perform f now (enqueues item budget rd rf) db = (enqueue_with d hostname item budget rd rf db).1
  perform f now (dequeues n) db = (dequeue d f now n db).1
  perform f now (completes id) db = (complete f id db).1
  perform f now (requeues id) db = (requeue f id db).1
  perform f now (fails id cause max) db = (fail_item f id cause max db).1
  perform f now reclaims_in_flight db = (reclaim_in_flight db).1
  perform f now reclaims_expired db = (reclaim_expired now db).1

  unfoldable pub history : List Turn → Db → Db
  history [] db = db
  history (t ∷ ts) db = history ts (perform t.worker t.now t.call db)

-- Enqueued items are fresh; nothing is asked of the other calls.
abbrev pub IsProper : Call → Type 0
IsProper (enqueues item budget rd rf) = IsFresh item
IsProper _ = Unit

abbrev pub AllProper : List Turn → Type 0
AllProper [] = Unit {0}
AllProper (t ∷ ts) = IsProper t.call × AllProper ts

perform-IsValid :
    (d : Dialect) (hostname : Text → Option Text) (f : Frontier) (now : ℕ) (c : Call) (db : Db)
    → IsProper c
    → Holds IsValid db
    → Holds IsValid (perform d hostname f now c db)
unfolding complete requeue
perform-IsValid d hostname f now (enqueues item budget rd rf) db p h =
    enqueue_with-IsValid d hostname item budget rd rf p db h
perform-IsValid d hostname f now (dequeues n) db p h = dequeue-IsValid d f now n db h
perform-IsValid d hostname f now (completes id) db p h = release-IsValid f done id refl db h
perform-IsValid d hostname f now (requeues id) db p h = release-IsValid f pending id refl db h
perform-IsValid d hostname f now (fails id cause max) db p h = fail_item-IsValid f id cause max db h
perform-IsValid d hostname f now reclaims_in_flight db p h = reclaim_in_flight-IsValid db h
perform-IsValid d hostname f now reclaims_expired db p h = reclaim_expired-IsValid now db h

-- A valid table stays valid through every history of calls by any workers, under any faults and
-- any changes by peers that keep it valid, if only fresh items are enqueued: ids ascend and stay
-- under the next id, no dedup key occurs twice, every shard is in range, a row in flight has a
-- lease, and any other row has neither a lease nor a worker.
pub history-IsValid :
    (d : Dialect) (hostname : Text → Option Text) (turns : List Turn) (db : Db)
    → AllProper turns
    → Holds IsValid db
    → Holds IsValid (history d hostname turns db)
unfolding history
history-IsValid d hostname [] db p h = h
history-IsValid d hostname (t ∷ ts) db p h =
    history-IsValid d hostname ts (perform d hostname t.worker t.now t.call db) p.1
      (perform-IsValid d hostname t.worker t.now t.call db p.0 h)
