-- ===== src/Crawler/Outcome.antt =====
-- What `process` leaves in the frontier for every outcome of a handler.
use ardvark.Prelude.{
  ℕ, ◌≡◌, ◌⊎◌, refl, inl, inr, Bool, ◌||◌, ◌+◌, ◌*◌, ◌^◌, ◌==◌, suc, arith, ltb, leb, subst, ap,
  Option, none, some, Bool-cases, if◌then◌else◌,
}
use ardvark.Store.Models.{FrontierItem, Status, done, pending}
use ardvark.Frontier.Db.{Table, Db, Result, ok, err}
use ardvark.Frontier.Config.{Frontier, FrontierError, lease_lost}
use ardvark.Frontier.Release.{release, complete, requeue, fail_item}
use ardvark.Frontier.Invariant.{IsValid}
use ardvark.Frontier.Lookup.{quiet, row_at}
use ardvark.Frontier.Finish.{
  Guarded, OnlyRow, failed_row, release_lem, handed_back, IsHeld, fail_outcome, FailOutcome,
}
use ardvark.Failure.{Failure}
use ardvark.Crawler.Backoff.{capped, backoff_duration, backoff_duration_lem}
use ardvark.Crawler.Engine.{
  Engine, Outcome, item_complete, discarded, requeued, complete_failed, requeue_failed,
  record_failed, item_failed, Processed, settled, settle, process, handle_item, allowed_attempts,
  max_attempts, pause,
}

-- Whether a failure may be gone later: what the error says of itself, or a network timeout.
abbrev pub is_temporary : Failure → Bool
is_temporary failure = elim failure.classified [ some b ↦ b | none ↦ failure.timeout ]

-- The attempts that an item has: one if its failure is there to stay.
abbrev pub attempts_for : Engine → Failure → ℕ
attempts_for e failure =
    if is_temporary failure
    then (if e.configured_attempts == 0 then 3 else e.configured_attempts)
    else 1

-- The row of an item that this worker still holds: done after a success; pending, with the attempts
-- as they are, if the failure is a cancellation or the crawl is being cancelled; otherwise with one
-- more attempt and the failure's text.
abbrev pub row_after : Engine → Bool → Option Failure → FrontierItem → FrontierItem
row_after e cancelled none r = handed_back done r
row_after e cancelled (some failure) r =
    if cancelled || failure.canceled
    then handed_back pending r
    else failed_row (some failure.text) (attempts_for e failure) r

abbrev pub outcome_after : Bool → Option Failure → Outcome
outcome_after cancelled none = item_complete
outcome_after cancelled (some failure) =
    if cancelled || failure.canceled then requeued else item_failed (is_temporary failure)

-- The pause: the base doubled once for each attempt before, up to 30 seconds.
abbrev pub pause_after : Engine → Bool → FrontierItem → Option Failure → ℕ
pause_after e cancelled item none = 0
pause_after e cancelled item (some failure) =
    if cancelled || failure.canceled
    then 0
    else if is_temporary failure
    then capped (e.backoff_base * 2 ^ item.attempts)
    else 0

allowed_attempts_lem :
    (e : Engine) (failure : Failure) → allowed_attempts e failure ≡ attempts_for e failure
unfolding max_attempts
allowed_attempts_lem e failure = ap (λ n. if is_temporary failure then n else 1) configured
  where
    configured :
        (if ltb 0 e.configured_attempts then e.configured_attempts else 3)
        ≡ (if e.configured_attempts == 0 then 3 else e.configured_attempts)
    configured = ground arith

no_pause : (p : ℕ) → 0 * p ≡ 0
no_pause p = grind arith

pause_lem :
    (e : Engine) (item : FrontierItem) (failure : Failure)
    → pause e item failure
      ≡ (if is_temporary failure then capped (e.backoff_base * 2 ^ item.attempts) else 0)
unfolding pause
pause_lem e item failure = ap (λ n. if is_temporary failure then n else 0) slept
  where
    slept :
        (if ltb 0 e.backoff_base then backoff_duration (suc item.attempts) e.backoff_base else 0)
        ≡ capped (e.backoff_base * 2 ^ item.attempts)
    slept = elim (Bool-cases (ltb 0 e.backoff_base)) [
      | inl y ↦ rw y (backoff_duration_lem item.attempts e.backoff_base)
      | inr n ↦
          let zero : e.backoff_base ≡ 0 = ground (arith, n) in
          rw (zero, no_pause (2 ^ item.attempts)) refl
    ]

-- A row that is held is changed by `g`, and it alone; for any other the database stays as it is.
abbrev pub Settled :
    Frontier
    → ℕ
    → Outcome
    → ℕ
    → (FrontierItem → FrontierItem)
    → Table
    → FrontierItem
    → Processed
    → Type 0
Settled f id good slept g t r out =
    (IsHeld f r × (out.0 ≡ good) × (out.1 ≡ slept) × OnlyRow id (g r) t out.2.table)
    ⊎ ((IsHeld f r → ⊥) × (out ≡ (discarded, slept, quiet t)))

settled_lem :
    {A : Type 0} (f : Frontier) (id : ℕ) (a : A) (g : FrontierItem → FrontierItem) (t : Table)
    (r : FrontierItem) (good : Outcome) (bad : FrontierError → Outcome) (slept : ℕ)
    (out : Result FrontierError A × Db)
    → Guarded f id a g t (some r) out
    → Settled f id good slept g t r (settled good bad slept out)
settled_lem f id a g t r good bad slept (ok b, db) (inl (o, e, only)) = inl (o, refl, refl, only)
settled_lem {A} f id a g t r good bad slept (ok b, db) (inr (o, e)) = absurd (wrong b e)
  where
    wrong : (b : A) → ◌≡◌ {A = Result FrontierError A × Db} (ok b, db) (err lease_lost, quiet t) → ⊥
    wrong b e = cc
settled_lem {A} f id a g t r good bad slept (err x, db) (inl (o, e, only)) = absurd (wrong e)
  where
    wrong : ◌≡◌ {A = Result FrontierError A} (err x) (ok a) → ⊥
    wrong e = cc
settled_lem f id a g t r good bad slept (err x, db) (inr (o, e)) =
    inr (o, ap (settled good bad slept) e)

module _ (e : Engine) (item r : FrontierItem) (t : Table) (v : IsValid t)
    (here : row_at item.id t ≡ some r) where
  released :
      (s : Status)
      → Guarded e.frontier item.id tt
          (handed_back s)
          t
          (some r)
          (release e.frontier s item.id (quiet t))
  released s =
      subst
        (λ o.
          Guarded e.frontier item.id tt (handed_back s) t o
            (release e.frontier s item.id (quiet t)))
        here (release_lem e.frontier item.id t v s)

  recorded :
      (failure : Failure)
      → let max = attempts_for e failure in
        Guarded e.frontier item.id
          (leb max (r.attempts + 1))
          (failed_row (some failure.text) max)
          t
          (some r)
          (fail_item e.frontier item.id (some failure.text) max (quiet t))
  recorded failure =
      let max = attempts_for e failure in
      subst
        (λ o.
          FailOutcome e.frontier item.id t (some failure.text) max o
            (fail_item e.frontier item.id (some failure.text) max (quiet t)))
        here (fail_outcome e.frontier item.id t v (some failure.text) max)

  settle_outcome :
      (cancelled : Bool) (o : Option Failure)
      → Settled e.frontier item.id
          (outcome_after cancelled o)
          (pause_after e cancelled item o)
          (row_after e cancelled o)
          t
          r
          (settle e cancelled item (o, quiet t))
  unfolding settle complete requeue
  settle_outcome cancelled none =
      settled_lem e.frontier item.id tt (handed_back done) t r item_complete complete_failed 0
        (release e.frontier done item.id (quiet t)) (released done)
  settle_outcome cancelled (some failure) = elim (Bool-cases (cancelled || failure.canceled)) [
    | inl h ↦ rw h (
        settled_lem e.frontier item.id tt (handed_back pending) t r requeued requeue_failed 0
          (release e.frontier pending item.id (quiet t)) (released pending))
    | inr h ↦
        rw (h, pause_lem e item failure, allowed_attempts_lem e failure)
          (settled_lem e.frontier item.id (leb (attempts_for e failure) (r.attempts + 1))
            (failed_row (some failure.text) (attempts_for e failure)) t r
            (item_failed (is_temporary failure)) record_failed
            (if is_temporary failure then capped (e.backoff_base * 2 ^ item.attempts) else 0)
            (fail_item e.frontier item.id (some failure.text) (attempts_for e failure) (quiet t))
            (recorded failure))
  ]

  -- `process`, once the handler of the item's kind has returned `o` and left a valid table that no
  -- peer and no fault interferes with. If this worker still holds the item's row, that row alone
  -- changes: to done where the handler succeeded; to pending with its attempts as they are where
  -- the crawl is cancelled or the failure is a cancellation; otherwise to the row with one more
  -- attempt and the failure's text, which is failed when that makes the attempts that are allowed,
  -- one for a permanent failure and the engine's number, or 3, for a temporary one, and pending
  -- before; each time without a lease and a worker. If the lease was lost, the table stays as it is
  -- and the result is discarded. Only a failure that is temporary and no cancellation is preceded by
  -- a pause, which is the base doubled once for each earlier attempt, or 30 seconds if that is less.
  pub process_outcome :
      (cancelled : Bool) (o : Option Failure) (db : Db)
      → handle_item e.handlers item db ≡ (o, quiet t)
      → Settled e.frontier item.id
          (outcome_after cancelled o)
          (pause_after e cancelled item o)
          (row_after e cancelled o)
          t
          r
          (process e cancelled item db)
  unfolding process
  process_outcome cancelled o db h = rw h (settle_outcome cancelled o)
