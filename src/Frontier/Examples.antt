-- ===== src/Frontier/Examples.antt =====
-- Concrete tables, tests of internal/frontier on them, and its theorems at these inputs.
use ardvark.Prelude.{
  All, map, update_where, ◌<◌, ◌↔◌, ℕ, ◌≡◌, refl, true, false, List, [], ◌∷◌, none, some, Text,
  codes, inl, inr, arith, text_eq, text_eq-false, any, find, count_where, select, contains, subst,
  Option, Bool,
}
use ardvark.Store.Models.{FrontierItem, in_flight, done, pending}
use ardvark.Frontier.Db.{Table, Db, ok, message}
use ardvark.Frontier.Keys.{Has, Calm, IsGrown, enqueue_with-Has}
use ardvark.Frontier.Config.{Frontier, is_unique_constraint_err}
use ardvark.Frontier.Enqueue.{enqueue, enqueue_with, ensure, stamp}
use ardvark.Frontier.Dequeue.{order, place, dequeue, pick, commit, leased, mark, in_shard}
use ardvark.Frontier.Release.{complete, requeue, fail_item}
use ardvark.Frontier.Rely.{Holds}
use ardvark.Frontier.Invariant.{IsValid}
use ardvark.Frontier.Validity.{IsFresh}
use ardvark.Frontier.Schedule.{
  Turn, Call, enqueues, dequeues, completes, reclaims_expired, history, history-IsValid,
}
use ardvark.Frontier.Ownership.{KeepsRow}
use ardvark.Frontier.Exclusive.{history-KeepsRow}
use ardvark.Frontier.Lookup.{quiet, row_at}
use ardvark.Frontier.Admission.{Effect, decide, within, key_at, enqueue_outcome}
use ardvark.Frontier.Handout.{lent, HasId, IsHandout, Lends, dequeue_outcome}
use ardvark.Frontier.Sharing.{IsFetchedFrom, host_owner, dequeue_disjoint}
use ardvark.Frontier.Samples.{
  blank, waiting, flying, queue, queue-IsValid, worker, sqlite, no_hosts,
}
use ardvark.Frontier.Finish.{release_outcome, fail_outcome, Guarded, FailOutcome, handed_back}

blank-IsFresh : IsFresh blank
blank-IsFresh = record { idle = refl; no_lease = (refl, refl) }

-- The first statement fails; before the second a peer does nothing.
abbrev troubled : Db
troubled = record {
  table = queue;
  world =
      record { peers = λ t. t; fault = some (codes "disk I/O error"); locked = λ r. false }
      ∷ record { peers = λ t. t; fault = none; locked = λ r. false }
      ∷ [];
}

troubled-Holds : Holds IsValid troubled
troubled-Holds = (queue-IsValid, ((λ t v. v), ((λ t v. v), tt)))

abbrev turn : Text → ℕ → Call → Turn
turn name now c = record { worker = worker name; now = now; call = c }

abbrev busy : List Turn
busy =
    turn (codes "a") 10 (dequeues 2)
    ∷ turn (codes "c") 20 (enqueues blank none true true)
    ∷ turn (codes "a") 30 (completes 2)
    ∷ turn (codes "a") 40 reclaims_expired
    ∷ []

history-IsValid_example : Holds IsValid (history sqlite no_hosts busy troubled)
history-IsValid_example =
    history-IsValid sqlite no_hosts busy troubled (tt, (blank-IsFresh, (tt, (tt, tt))))
      troubled-Holds

flying-KeepsRow : Holds (KeepsRow flying) troubled
flying-KeepsRow = ((queue-IsValid, inr (inl refl)), ((λ t h. h), ((λ t h. h), tt)))

history-KeepsRow_example : Holds (KeepsRow flying) (history sqlite no_hosts busy troubled)
unfolding text_eq
history-KeepsRow_example =
    history-KeepsRow flying refl sqlite no_hosts busy troubled
      (
        record { other = text_eq-false _ _ refl; in_time = refl; proper = tt; shared = tt },
        (
          record {
            other = text_eq-false _ _ refl;
            in_time = refl;
            proper = blank-IsFresh;
            shared = tt;
          },
          (
            record { other = text_eq-false _ _ refl; in_time = refl; proper = tt; shared = tt },
            (
              record { other = text_eq-false _ _ refl; in_time = refl; proper = tt; shared = tt },
              tt,
            ),
          ),
        ),
      )
      flying-KeepsRow

release_outcome_example :
    Guarded
      (worker (codes "b"))
      2
      tt
      (handed_back done)
      queue
      (row_at 2 queue)
      (complete (worker (codes "b")) 2 (quiet queue))
    × Guarded
        (worker (codes "b"))
        2
        tt
        (handed_back pending)
        queue
        (row_at 2 queue)
        (requeue (worker (codes "b")) 2 (quiet queue))
release_outcome_example = release_outcome (worker (codes "b")) 2 queue queue-IsValid

fail_outcome_example :
    FailOutcome
      (worker (codes "b"))
      2
      queue
      (some (codes "timeout"))
      3
      (row_at 2 queue)
      (fail_item (worker (codes "b")) 2 (some (codes "timeout")) 3 (quiet queue))
fail_outcome_example =
    fail_outcome (worker (codes "b")) 2 queue queue-IsValid (some (codes "timeout")) 3

-- The third failure of three is permanent.
third_failure : (fail_item (worker (codes "b")) 2 none 3 (quiet queue)).0 ≡ ok true
unfolding fail_item find count_where text_eq
third_failure = refl

-- A re-enqueue of a finished key makes it pending again; `Ensure` leaves it alone.
enqueue_again :
    ((enqueue sqlite no_hosts blank (quiet queue)).0 ≡ ok true)
    × ((ensure sqlite no_hosts blank (quiet queue)).0 ≡ ok false)
unfolding enqueue ensure enqueue_with find count_where any text_eq is_unique_constraint_err
enqueue_again = (refl, refl)

dequeue_first :
    (dequeue sqlite (worker (codes "a")) 10 5 (quiet queue)).0
    ≡ ok
        (record waiting { status = in_flight; leased_until = some 610; worker_id = codes "a" } ∷ [])
unfolding dequeue pick leased commit select any
dequeue_first = refl

enqueue_outcome_example :
    Effect queue
      (stamp no_hosts blank)
      (decide true true (within queue blank none) (key_at blank.dedup_key queue))
      (enqueue_with sqlite no_hosts blank none true true (quiet queue))
enqueue_outcome_example =
    enqueue_outcome sqlite no_hosts blank queue none true true queue-IsValid refl

dequeue_outcome_example :
    (items : List FrontierItem) × (db : Db) × (dequeue sqlite
        (worker (codes "a"))
        10
        5
        (quiet queue)
      ≡ (ok (map (lent (worker (codes "a")) 10) items), db))
    × IsHandout (worker (codes "a")) 5 queue items
    × Lends (worker (codes "a")) 10 items queue db.table
dequeue_outcome_example = dequeue_outcome sqlite (worker (codes "a")) 10 5 queue

host_owner_example :
    (index : ℕ) × (index < 3)
    × ((f : Frontier) (item : FrontierItem)
        → f.shard_count ≡ 3
        → IsFetchedFrom no_hosts (codes "a.example") item
        → (in_shard f (stamp no_hosts item) ≡ true) ↔ (f.shard_index ≡ index))
host_owner_example = host_owner no_hosts (codes "a.example") 3 (omega arith)

-- Two rows are pending, and the one with the higher priority goes first.
abbrev urgent : FrontierItem
urgent = record blank { id = 4; status = pending; dedup_key = codes "k4"; priority = 9 }

abbrev pair : Table
pair = record { rows = waiting ∷ urgent ∷ []; next_id = 5 }

abbrev after_first : Db
after_first = (dequeue sqlite (worker (codes "a")) 10 1 (quiet pair)).1

dequeue_disjoint_example :
    All
      (λ i. HasId i.id (lent (worker (codes "a")) 10 urgent ∷ []) → ⊥)
      (lent (worker (codes "b")) 20 waiting ∷ [])
unfolding dequeue pick order place leased commit select any mark update_where
dequeue_disjoint_example =
    dequeue_disjoint sqlite (worker (codes "a")) (worker (codes "b")) 10 20 1 5 pair
      (lent (worker (codes "a")) 10 urgent ∷ []) (lent (worker (codes "b")) 20 waiting ∷ [])
      after_first refl refl

-- The driver times out at the INSERT, and at no other statement.
abbrev stalled : Db
stalled = record {
  table = queue;
  world = record { peers = λ t. t; fault = some (codes "timeout"); locked = λ r. false } ∷ [];
}

timeout_lem :
    (text : Text)
    → ◌≡◌ {A = Option Text} (some (codes "timeout")) (some text)
    → is_unique_constraint_err (some (message text)) ≡ false
unfolding is_unique_constraint_err any contains
timeout_lem text e =
    let same : codes "timeout" ≡ text = cc in
    subst (λ t. is_unique_constraint_err (some (message t)) ≡ false) same refl

stalled-Calm : Calm stalled.world
stalled-Calm = (λ t key has. has, timeout_lem, tt)

enqueue_with-Has_example :
    let out = enqueue_with sqlite no_hosts blank none true true stalled in
    IsGrown stalled out.1 × ((b : Bool) → out.0 ≡ ok b → Has blank.dedup_key out.1.table)
enqueue_with-Has_example = enqueue_with-Has sqlite no_hosts blank true true stalled stalled-Calm
