-- ===== src/Frontier/Finish.antt =====
-- What `Complete`, `Requeue` and `Fail` do, on every branch, where no peer and no fault interferes.
use ardvark.Prelude.{
  ℕ, ◌+◌, ◌≡◌, ◌⊎◌, refl, inl, inr, Bool, true, false, [], Option, none, some, Text, Bool-cases,
  ◌∙◌, subst, Option-cases, arith, leb, if◌then◌else◌, count_where, update_where, count_where-zero,
  update_where-none, find_passes, text_eq, text_eq-eq, text_eq_refl,
}
use ardvark.Store.Models.{
  FrontierItem, Status, unset, pending, in_flight, done, failed, is_in_flight, is_failed,
}
use ardvark.Frontier.Db.{Table, Db, handle, Result, ok, err, update, first}
use ardvark.Frontier.Config.{Frontier, FrontierError, not_found, lease_lost}
use ardvark.Frontier.Enqueue.{lease_release_updates}
use ardvark.Frontier.Release.{
  has_id, owned_by, owned, release, complete, requeue, ownership_lost, fail_item, after_failure,
  failure_status,
}
use ardvark.Frontier.Lookup.{quiet, row_at, count-pinned, find-update_where, find-update_pinned}
use ardvark.Frontier.Invariant.{IsValid}

owned_by-id : (f : Frontier) (id : ℕ) (r : FrontierItem) → owned_by f id r ≡ true → r.id ≡ id
owned_by-id f id r h = ground arith

permanent : (attempts max : ℕ) → is_failed (failure_status attempts max) ≡ leb max attempts
permanent attempts max = ground arith

-- The row `id` becomes `row`; every other id keeps its row.
abbrev pub OnlyRow : ℕ → FrontierItem → Table → Table → Type 0
OnlyRow id row t t' =
    (row_at id t' ≡ some row) × ((j : ℕ) → (j ≡ id → ⊥) → row_at j t' ≡ row_at j t)

-- The row is in flight with this worker.
abbrev pub IsHeld : Frontier → FrontierItem → Type 0
IsHeld f r = (r.status ≡ in_flight) × (r.worker_id ≡ f.worker_id)

owned_by-IsHeld : (f : Frontier) (id : ℕ) (r : FrontierItem) → owned_by f id r ≡ true → IsHeld f r
owned_by-IsHeld f id r h = (flying r.status busy, text_eq-eq r.worker_id f.worker_id same)
  where
    busy : is_in_flight r.status ≡ true
    busy = ground (arith, h)

    same : text_eq r.worker_id f.worker_id ≡ true
    same = ground (arith, h)

    flying : (s : Status) → is_in_flight s ≡ true → s ≡ in_flight
    flying in_flight e = refl
    flying unset e = cc
    flying pending e = cc
    flying done e = cc
    flying failed e = cc

not_owned :
    (f : Frontier) (id : ℕ) (t : Table) (r : FrontierItem)
    → row_at id t ≡ some r
    → owned_by f id r ≡ false
    → IsHeld f r
    → ⊥
not_owned f id t r e o held =
    apart (rw (find_passes (has_id id) t.rows r e, held.0, held.1, text_eq_refl f.worker_id) refl)
  where
    apart : owned_by f id r ≡ true → ⊥
    apart y = cc

-- What a guarded UPDATE by `g`, with the result `a`, has to do: on the row that is found.
abbrev pub Guarded :
    {A : Type 0}
    → Frontier
    → ℕ
    → A
    → (FrontierItem → FrontierItem)
    → Table
    → Option FrontierItem
    → Result FrontierError A × Db
    → Type 0
Guarded f id a g t none out = out ≡ (err not_found, quiet t)
Guarded f id a g t (some r) out =
    (IsHeld f r × (out.0 ≡ ok a) × OnlyRow id (g r) t out.1.table)
    ⊎ ((IsHeld f r → ⊥) × (out ≡ (err lease_lost, quiet t)))

-- A row that is handed back: the new status, no lease and no worker, all else as it is.
abbrev pub handed_back : Status → FrontierItem → FrontierItem
handed_back s r = record r { status = s; leased_until = none; worker_id = [] }

abbrev pub text_of : Option Text → Text
text_of none = []
text_of (some text) = text

-- The row after a failed attempt, of which `max` are allowed.
abbrev pub failed_row : Option Text → ℕ → FrontierItem → FrontierItem
failed_row cause max r = record r {
  status = if leb max (r.attempts + 1) then failed else pending;
  leased_until = none;
  worker_id = [];
  attempts = r.attempts + 1;
  last_error = text_of cause;
}

abbrev pub FailOutcome :
    Frontier
    → ℕ
    → Table
    → Option Text
    → ℕ
    → Option FrontierItem
    → Result FrontierError Bool × Db
    → Type 0
FailOutcome f id t cause max none out = out ≡ (err not_found, quiet t)
FailOutcome f id t cause max (some r) out =
    Guarded f id (leb max (r.attempts + 1)) (failed_row cause max) t (some r) out

module _ (f : Frontier) (id : ℕ) (t : Table) (v : IsValid t) where
  owned_count :
      count_where (owned_by f id) t.rows
      ≡ elim (row_at id t) [ none ↦ 0 | some r ↦ if owned_by f id r then 1 else 0 ]
  owned_count = count-pinned (owned_by f id) id (owned_by-id f id) 0 t.rows t.next_id v.ids

  unowned_unchanged :
      (g : FrontierItem → FrontierItem)
      → count_where (owned_by f id) t.rows ≡ 0
      → update_where (owned_by f id) g t.rows ≡ t.rows
  unowned_unchanged g e =
      update_where-none (owned_by f id) g t.rows (count_where-zero (owned_by f id) t.rows e)

  owned_update :
      (g : FrontierItem → FrontierItem) (r : FrontierItem)
      → ((q : FrontierItem) → (g q).id ≡ q.id)
      → row_at id t ≡ some r
      → owned_by f id r ≡ true
      → OnlyRow id (g r) t (record t { rows = update_where (owned_by f id) g t.rows })
  owned_update g r same e o = (
    ground (arith, find-update_where (owned_by f id) g t.rows id same),
    λ j ne. find-update_pinned (owned_by f id) id (owned_by-id f id) g t.rows j same ne,
  )

  -- The guarded UPDATE with what follows it.
  guarded :
      {A : Type 0} (a : A) (g : FrontierItem → FrontierItem) (r : FrontierItem)
      → ((q : FrontierItem) → (g q).id ≡ q.id)
      → row_at id t ≡ some r
      → Guarded f id a g t (some r) (handle (update (owned_by f id) g) (owned id a) (quiet t))
  unfolding update ownership_lost first
  guarded a g r same e = elim (Bool-cases (owned_by f id r)) [
    | inl o ↦
        let one : count_where (owned_by f id) t.rows ≡ 1 = owned_count ∙ rw (e, o) refl in
        inl (owned_by-IsHeld f id r o, rw one refl, rw one (owned_update g r same e o))
    | inr o ↦
        let zero : count_where (owned_by f id) t.rows ≡ 0 = owned_count ∙ rw (e, o) refl in
        inr (not_owned f id t r e o, rw (zero, unowned_unchanged g zero, e) refl)
  ]

  guarded_missing :
      {A : Type 0} (a : A) (g : FrontierItem → FrontierItem)
      → row_at id t ≡ none
      → handle (update (owned_by f id) g) (owned id a) (quiet t) ≡ (err not_found, quiet t)
  unfolding update ownership_lost first
  guarded_missing a g e =
      let zero : count_where (owned_by f id) t.rows ≡ 0 = owned_count ∙ rw e refl in
      rw (zero, unowned_unchanged g zero, e) refl

  pub release_lem :
      (s : Status) → Guarded f id tt (handed_back s) t (row_at id t) (release f s id (quiet t))
  unfolding release lease_release_updates
  release_lem s = elim (Option-cases (row_at id t)) [
    | inl e ↦ rw e (guarded_missing tt (handed_back s) e)
    | inr (r, e) ↦ rw e (guarded tt (handed_back s) r (λ q. refl) e)
  ]

  -- `Complete` and `Requeue` on a valid table, where nothing interferes: an id with no row is reported as
  -- not found, a row that this worker does not hold in flight as a lost lease, both with the database
  -- unchanged; a row that it holds becomes done (`Complete`) or pending (`Requeue`), without a lease and
  -- without a worker and otherwise as it is, and the row of every other id stays as it is.
  pub release_outcome :
      Guarded f id tt (handed_back done) t (row_at id t) (complete f id (quiet t))
      × Guarded f id tt (handed_back pending) t (row_at id t) (requeue f id (quiet t))
  unfolding complete requeue
  release_outcome = (release_lem done, release_lem pending)

  -- `Fail` on a valid table: the missing row and the lost lease are reported and change nothing, so
  -- no attempt is counted; a row that this worker holds has one more attempt, the cause as its last
  -- error and no lease, and is failed if that makes `maxAttempts` attempts and pending otherwise,
  -- which is what the flag `permanent` says; every other id keeps its row.
  pub fail_outcome :
      (cause : Option Text) (max : ℕ)
      → FailOutcome f id t cause max (row_at id t) (fail_item f id cause max (quiet t))
  unfolding fail_item first after_failure lease_release_updates
  fail_outcome cause max = elim (Option-cases (row_at id t)) [
    | inl e ↦ rw e refl
    | inr (r, e) ↦
        let attempts = r.attempts + 1 in
        let status = failure_status attempts max in
        let msg = text_of cause in
        let change = after_failure status attempts msg in
        rw e (
          subst
            (λ b.
              Guarded f id b (failed_row cause max) t (some r)
                (handle (update (owned_by f id) change) (owned id (is_failed status)) (quiet t)))
            (permanent attempts max) (guarded (is_failed status) change r (λ q. refl) e))
  ]
