-- ===== src/Crawler/Liveness.antt =====
-- `Run` does end on a drained frontier, and in time.
use ardvark.Prelude.{
  ℕ, suc, ◌≡◌, refl, ap, ◌∙◌, inl, inr, Bool, true, false, List, [], ◌∷◌, All, Bool-cases, arith,
  ◌==◌, if◌then◌else◌, ◌&&◌, select, not, zero, take, update_where-none,
}
use ardvark.Store.Models.{FrontierItem, pending}
use ardvark.Frontier.Db.{Table, Db, ok}
use ardvark.Frontier.Config.{Dialect}
use ardvark.Frontier.Dequeue.{dequeue, pick, order, is_candidate}
use ardvark.Frontier.Release.{counts, is_expired, reclaim_expired}
use ardvark.Frontier.Lookup.{quiet}
use ardvark.Frontier.Selection.{dequeue_lem, mark_none}
use ardvark.Frontier.Sweeps.{IsFinished, counts_zero_iff}
use ardvark.Frontier.Enqueue.{lease_release_updates}
use ardvark.Crawler.Engine.{Engine, concurrency, is_sqlite_driver}
use ardvark.Crawler.Dispatch.{
  Round, Dispatcher, stopped, drained, Step, stop, next, counted, when_empty, dispatched, due,
  worked, sweep, polled, iterate, proceed, loop, passed, expired_lease_reclaim_interval,
}

select-none :
    {A : Type 0} (p : A → Bool) (xs : List A) → All (λ x. p x ≡ false) xs → select p xs ≡ []
unfolding select
select-none p [] h = refl
select-none p (x ∷ xs) h = rw h.0 (select-none p xs h.1)

no_candidate :
    (d : Dialect) (e : Engine) (rows : List FrontierItem)
    → All IsFinished rows
    → All (λ r. is_candidate d e.frontier (λ r. false) r ≡ false) rows
no_candidate d e [] h = tt
no_candidate d e (r ∷ rows) h = (rw h.0.0 refl, no_candidate d e rows h.1)

take_nil : (n : ℕ) → take n (order []) ≡ []
unfolding order
take_nil zero = refl
take_nil (suc n) = refl

pick_finished :
    (d : Dialect) (e : Engine) (n : ℕ) (t : Table)
    → All IsFinished t.rows
    → pick d e.frontier n (λ r. false) t ≡ []
unfolding pick
pick_finished d e n t h =
    rw (select-none (is_candidate d e.frontier (λ r. false)) t.rows (no_candidate d e t.rows h))
      (take_nil n)

dequeue_finished :
    (d : Dialect) (e : Engine) (now n : ℕ) (t : Table)
    → All IsFinished t.rows
    → dequeue d e.frontier now n (quiet t) ≡ (ok [], quiet t)
dequeue_finished d e now n t h =
    dequeue_lem d e.frontier now n t ∙ rw (pick_finished d e n t h, mark_none e.frontier now t) refl

nothing_expired :
    (now : ℕ) (rows : List FrontierItem)
    → All IsFinished rows
    → All (λ r. is_expired now r ≡ false) rows
nothing_expired now [] h = tt
nothing_expired now (r ∷ rows) h = (rw h.0.1 refl, nothing_expired now rows h.1)

sweep_finished :
    (now : ℕ) (t : Table) → All IsFinished t.rows → (reclaim_expired now (quiet t)).1 ≡ quiet t
unfolding reclaim_expired
sweep_finished now t h =
    rw
      (update_where-none (is_expired now) (lease_release_updates pending) t.rows
        (nothing_expired now t.rows h))
      refl

swept_state :
    (e : Engine) (round : Round) (s : Dispatcher) (t : Table)
    → All IsFinished t.rows
    → (s' : Dispatcher) × (sweep e round s (quiet t) ≡ (s', quiet t))
      × (s'.in_flight ≡ s.in_flight)
      × (s'.last_counts ≡ s.last_counts)
unfolding sweep
swept_state e round s t h =
    elim (Bool-cases (
      not (is_sqlite_driver e.driver)
      && passed round.now s.last_reclaim expired_lease_reclaim_interval)) [
        | inl y ↦ (
          record s { last_reclaim = round.now },
          rw (y, sweep_finished round.now t h) refl,
          refl,
          refl,
        )
        | inr n ↦ (s, rw n refl, refl, refl)
      ]

empty_drained :
    (round : Round) (s : Dispatcher) (t : Table)
    → All IsFinished t.rows
    → s.in_flight ≡ 0
    → due round.now s.last_counts ≡ true
    → when_empty round s (quiet t) ≡ stop drained (quiet t)
unfolding when_empty
empty_drained round s t h idle late =
    chosen (s.in_flight == 0) (due round.now s.last_counts) (counted round s (counts (quiet t)))
      (next s (quiet t)) (ground arith) late
    ∙ ap (counted round s) ((counts_zero_iff t).1 h)
  where
    chosen :
        (b c : Bool) (x y : Step) → b ≡ true → c ≡ true → (if b then if c then x else y else y) ≡ x
    chosen b c x y p q = rw (p, q) refl

polled_finished :
    (d : Dialect) (e : Engine) (round : Round) (s : Dispatcher) (t : Table)
    → All IsFinished t.rows
    → s.in_flight ≡ 0
    → due round.now s.last_counts ≡ true
    → polled d e round (s, quiet t) ≡ stop drained (quiet t)
polled_finished d e round s t h idle late =
    ap (dispatched round s) (dequeue_finished d e round.now (concurrency e) t h)
    ∙ empty_drained round s t h idle late

iterate_ends :
    (d : Dialect) (e : Engine) (round : Round) (s : Dispatcher) (db : Db) (t : Table)
    → round.work db ≡ quiet t
    → All IsFinished t.rows
    → round.cancelled ≡ false
    → (worked round s).in_flight ≡ 0
    → due round.now s.last_counts ≡ true
    → iterate d e round s db ≡ stop drained (quiet t)
unfolding iterate
iterate_ends d e round s db t work h active idle late =
    let (s', swept, same, counts_same) = swept_state e round (worked round s) t h in
    when_active round.cancelled (stop stopped (round.work db))
      (polled d e round (sweep e round (worked round s) (round.work db))) active
    ∙ (ap (λ db'. polled d e round (sweep e round (worked round s) db')) work
        ∙ (ap (polled d e round) swept
            ∙ polled_finished d e round s' t h (same ∙ idle)
                (ap (due round.now) counts_same ∙ late)))
  where
    when_active : (b : Bool) (x y : Step) → b ≡ false → (if b then x else y) ≡ y
    when_active b x y e = rw e refl

-- Once no row of the frontier is pending or in flight, with no interference, the next round of `Run`
-- that finds its own workers done, at least a second after the last count if there was one, ends
-- the crawl as drained, unless it is cancelled first, and leaves the frontier as it is.
pub loop_ends :
    (d : Dialect) (e : Engine) (round : Round) (rounds : List Round) (s : Dispatcher) (db : Db)
    (t : Table)
    → round.work db ≡ quiet t
    → All IsFinished t.rows
    → round.cancelled ≡ false
    → (worked round s).in_flight ≡ 0
    → due round.now s.last_counts ≡ true
    → loop d e (round ∷ rounds) s db ≡ (drained, quiet t)
unfolding loop
loop_ends d e round rounds s db t work h active idle late =
    ap (proceed (loop d e rounds)) (iterate_ends d e round s db t work h active idle late)
