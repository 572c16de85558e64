-- ===== src/Crawler/Drained.antt =====
-- When `Run` ends: only on a drained frontier, and then it does.
use ardvark.Prelude.{
  ℕ, ◌≡◌, inl, inr, List, [], ◌∷◌, All, Bool-cases, Option-cases, arith, ◌==◌, count_where,
  count_where-zero, if◌then◌else◌, subst,
}
use ardvark.Store.Models.{FrontierItem, is_pending, is_in_flight}
use ardvark.Frontier.Db.{Table, Event, Db, Result, ok, err, statement, fault_of, peers_of, later}
use ardvark.Frontier.Config.{Dialect, FrontierError}
use ardvark.Frontier.Dequeue.{dequeue}
use ardvark.Frontier.Release.{counts, reclaim_in_flight, reclaim_expired}
use ardvark.Frontier.Sweeps.{IsFinished, All-IsFinished}
use ardvark.Crawler.Engine.{Engine, concurrency, is_sqlite_driver}
use ardvark.Crawler.Dispatch.{
  Round, Dispatcher, Ended, stopped, drained, broken, running, Step, stop, next, counted,
  when_empty, dispatched, due, worked, sweep, polled, iterate, proceed, loop, started,
  after_reclaim, run,
}

-- What is true of a step that ends the crawl as drained.
abbrev WhenDrained : Step → Type 0
WhenDrained (stop drained db) = All IsFinished db.table.rows
WhenDrained (stop why db) = Unit {0}
WhenDrained (next s db) = Unit {0}

abbrev EndsFinished : Ended × Db → Type 0
EndsFinished (drained, db) = All IsFinished db.table.rows
EndsFinished (why, db) = Unit {0}

counted-WhenDrained :
    (round : Round) (s : Dispatcher) (db : Db) → WhenDrained (counted round s (counts db))
unfolding counts statement
counted-WhenDrained round s db = elim (Option-cases (fault_of db.world)) [
  | inr (text, e) ↦ rw e tt
  | inl e ↦ rw e (zeros (peers_of db.world db.table) (later db.world))
]
  where
    zeros :
        (t : Table) (es : List Event)
        → WhenDrained (
            counted round s (
              ok (
                count_where (λ r. is_pending r.status) t.rows,
                count_where (λ r. is_in_flight r.status) t.rows,
              ),
              record { table = t; world = es },
            ))
    zeros t es = elim (Bool-cases (count_where (λ r. is_pending r.status) t.rows == 0)) [
      | inr e ↦ rw e tt
      | inl e ↦ elim (Bool-cases (count_where (λ r. is_in_flight r.status) t.rows == 0)) [
        | inr e' ↦ rw (e, e') tt
        | inl e' ↦
            rw (e, e')
              (All-IsFinished t.rows
                (count_where-zero (λ r. is_pending r.status) t.rows (ground arith))
                (count_where-zero (λ r. is_in_flight r.status) t.rows (ground arith)))
      ]
    ]

when_empty-WhenDrained :
    (round : Round) (s : Dispatcher) (db : Db) → WhenDrained (when_empty round s db)
unfolding when_empty
when_empty-WhenDrained round s db = elim (Bool-cases (s.in_flight == 0)) [
  | inr e ↦ rw e tt
  | inl e ↦ elim (Bool-cases (due round.now s.last_counts)) [
    | inr e' ↦ rw (e, e') tt
    | inl e' ↦ rw (e, e') (counted-WhenDrained round s db)
  ]
]

dispatched-WhenDrained :
    (round : Round) (s : Dispatcher) (out : Result FrontierError (List FrontierItem) × Db)
    → WhenDrained (dispatched round s out)
dispatched-WhenDrained round s (err e, db) = tt
dispatched-WhenDrained round s (ok [], db) = when_empty-WhenDrained round s db
dispatched-WhenDrained round s (ok (item ∷ batch), db) = tt

polled-WhenDrained :
    (d : Dialect) (e : Engine) (round : Round) (swept : Dispatcher × Db)
    → WhenDrained (polled d e round swept)
polled-WhenDrained d e round (s, db) =
    dispatched-WhenDrained round s (dequeue d e.frontier round.now (concurrency e) db)

iterate-WhenDrained :
    (d : Dialect) (e : Engine) (round : Round) (s : Dispatcher) (db : Db)
    → WhenDrained (iterate d e round s db)
unfolding iterate
iterate-WhenDrained d e round s db = elim (Bool-cases round.cancelled) [
  | inl h ↦ rw h tt
  | inr h ↦ rw h (polled-WhenDrained d e round (sweep e round (worked round s) (round.work db)))
]

proceed-EndsFinished :
    (k : Dispatcher → Db → Ended × Db) (step : Step)
    → ((s : Dispatcher) (db : Db) → EndsFinished (k s db))
    → WhenDrained step
    → EndsFinished (proceed k step)
proceed-EndsFinished k (stop stopped db) h w = tt
proceed-EndsFinished k (stop drained db) h w = w
proceed-EndsFinished k (stop (broken e) db) h w = tt
proceed-EndsFinished k (stop (running s) db) h w = tt
proceed-EndsFinished k (next s db) h w = h s db

loop-EndsFinished :
    (d : Dialect) (e : Engine) (rounds : List Round) (s : Dispatcher) (db : Db)
    → EndsFinished (loop d e rounds s db)
unfolding loop
loop-EndsFinished d e [] s db = tt
loop-EndsFinished d e (round ∷ rounds) s db =
    proceed-EndsFinished (loop d e rounds) (iterate d e round s db) (loop-EndsFinished d e rounds)
      (iterate-WhenDrained d e round s db)

after_reclaim-EndsFinished :
    (k : Db → Ended × Db) (out : Result FrontierError ℕ × Db)
    → ((db : Db) → EndsFinished (k db))
    → EndsFinished (after_reclaim k out)
after_reclaim-EndsFinished k (err e, db) h = tt
after_reclaim-EndsFinished k (ok n, db) h = h db

run-EndsFinished :
    (d : Dialect) (e : Engine) (now : ℕ) (rounds : List Round) (db : Db)
    → EndsFinished (run d e now rounds db)
unfolding run
run-EndsFinished d e now rounds db =
    after_reclaim-EndsFinished (loop d e rounds (started now))
      (if is_sqlite_driver e.driver then reclaim_in_flight db else reclaim_expired now db)
      (loop-EndsFinished d e rounds (started now))

-- Whatever the workers, the peers that share the database and the faults of its driver do, if `Run`
-- ends without an error and without being cancelled, then at its last statement no row of the
-- frontier was pending or in flight, in this process or in any other.
pub run_drained :
    (d : Dialect) (e : Engine) (now : ℕ) (rounds : List Round) (db : Db) (after : Db)
    → run d e now rounds db ≡ (drained, after)
    → All IsFinished after.table.rows
run_drained d e now rounds db after h = subst EndsFinished h (run-EndsFinished d e now rounds db)
