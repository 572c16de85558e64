-- ===== src/Crawler/Dispatch.antt =====
-- internal/crawler/engine.go: `Run`, the dispatcher that feeds the workers, as a loop over what each
-- of its rounds meets. The workers run between two rounds: `work` is what they and the time that
-- passes do to the database, `finished` how many items they have finished. Times are in seconds.
use ardvark.Prelude.{
  ℕ, ◌+◌, ◌-◌, leb, ◌==◌, Bool, true, ◌&&◌, not, List, [], ◌∷◌, ◌++◌, Option, none, some, length,
  if◌then◌else◌,
}
use ardvark.Store.Models.{FrontierItem}
use ardvark.Frontier.Db.{Db, Result, ok, err}
use ardvark.Frontier.Config.{Dialect, FrontierError}
use ardvark.Frontier.Dequeue.{dequeue}
use ardvark.Frontier.Release.{counts, reclaim_in_flight, reclaim_expired}
use ardvark.Crawler.Engine.{Engine, concurrency, is_sqlite_driver}

abbrev pub expired_lease_reclaim_interval : ℕ
expired_lease_reclaim_interval = 30

abbrev pub global_counts_check_interval : ℕ
global_counts_check_interval = 1

-- One round: whether the context is done when it starts, the clock, and the workers before it.
pub record Round : Type 0 where
  pub cancelled : Bool
  pub now : ℕ
  pub finished : ℕ
  pub work : Db → Db

-- The variables of the loop; `handed` is what the channel `items` has carried, and `last_counts` is
-- none for the zero time.
pub record Dispatcher : Type 0 where
  pub in_flight : ℕ
  pub last_reclaim : ℕ
  pub last_counts : Option ℕ
  pub handed : List FrontierItem

pub data RunError : Type 0 where
  reclaim_error dequeue_error counts_error : FrontierError → RunError

-- Why the loop ends: the context is done or the crawl is drained, for which `Run` returns nil, or
-- an error; `running` is a loop that has not ended after the rounds considered.
pub data Ended : Type 0 where
  stopped drained : Ended
  broken : RunError → Ended
  running : Dispatcher → Ended

pub data Step : Type 0 where
  stop : Ended → Db → Step
  next : Dispatcher → Db → Step

-- `time.Since(t) >= d`.
abbrev pub passed : ℕ → ℕ → ℕ → Bool
passed now since interval = leb interval (now - since)

abbrev pub due : ℕ → Option ℕ → Bool
due now none = true
due now (some since) = passed now since global_counts_check_interval

-- The periodic sweep, whose error is only logged.
unfoldable pub sweep : Engine → Round → Dispatcher → Db → Dispatcher × Db
unfolding reclaim_expired is_sqlite_driver
sweep e round s db =
    if not (is_sqlite_driver e.driver)
      && passed round.now s.last_reclaim expired_lease_reclaim_interval
    then (record s { last_reclaim = round.now }, (reclaim_expired round.now db).1)
    else (s, db)

-- After `Counts`.
abbrev pub counted : Round → Dispatcher → Result FrontierError (ℕ × ℕ) × Db → Step
counted round s (err e, db) = stop (broken (counts_error e)) db
counted round s (ok (waiting, flying), db) =
    if (waiting == 0) && (flying == 0)
    then stop drained db
    else next (record s { last_counts = some round.now }) db

-- After an empty batch.
unfoldable pub when_empty : Round → Dispatcher → Db → Step
unfolding counts
when_empty round s db =
    let checked = counted round s (counts db) in
    if s.in_flight == 0
    then if due round.now s.last_counts then checked else next s db
    else next s db

-- After `Dequeue`.
abbrev pub dispatched : Round → Dispatcher → Result FrontierError (List FrontierItem) × Db → Step
dispatched round s (err e, db) = stop (broken (dequeue_error e)) db
dispatched round s (ok [], db) = when_empty round s db
dispatched round s (ok (item ∷ batch), db) =
    next
      (record s {
        in_flight = s.in_flight + length (item ∷ batch);
        handed = s.handed ++ item ∷ batch;
      })
      db

-- The workers' count drops before the round reads it.
abbrev pub worked : Round → Dispatcher → Dispatcher
worked round s = record s { in_flight = s.in_flight - round.finished }

-- The poll of the frontier, after the sweep.
abbrev pub polled : Dialect → Engine → Round → Dispatcher × Db → Step
polled d e round (s, db) = dispatched round s (dequeue d e.frontier round.now (concurrency e) db)

unfoldable pub iterate : Dialect → Engine → Round → Dispatcher → Db → Step
unfolding sweep dequeue when_empty concurrency
iterate d e round s db =
    if round.cancelled
    then stop stopped (round.work db)
    else polled d e round (sweep e round (worked round s) (round.work db))

abbrev pub proceed : (Dispatcher → Db → Ended × Db) → Step → Ended × Db
proceed k (stop why db) = (why, db)
proceed k (next s db) = k s db

-- The loop of `Run`.
unfoldable pub loop : Dialect → Engine → List Round → Dispatcher → Db → Ended × Db
unfolding iterate
loop d e [] s db = (running s, db)
loop d e (round ∷ rounds) s db = proceed (loop d e rounds) (iterate d e round s db)

abbrev pub started : ℕ → Dispatcher
started now = record { in_flight = 0; last_reclaim = now; last_counts = none; handed = [] }

abbrev pub after_reclaim : (Db → Ended × Db) → Result FrontierError ℕ × Db → Ended × Db
after_reclaim k (err e, db) = (broken (reclaim_error e), db)
after_reclaim k (ok n, db) = k db

-- `Run`, started at the time `now`.
unfoldable pub run : Dialect → Engine → ℕ → List Round → Db → Ended × Db
unfolding loop reclaim_in_flight reclaim_expired is_sqlite_driver
run d e now rounds db =
    after_reclaim (loop d e rounds (started now))
      (if is_sqlite_driver e.driver then reclaim_in_flight db else reclaim_expired now db)
