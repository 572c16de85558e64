-- ===== src/Frontier/Release.antt =====
-- internal/frontier/frontier.go: what takes an item out of `in_flight` (`Complete`, `Requeue`,
-- `Fail`, and the sweeps `ReclaimInFlight` and `ReclaimExpired`), and the counts.
use ardvark.Prelude.{
  ℕ, ◌+◌, ltb, leb, ◌==◌, Bool, false, ◌&&◌, [], Option, none, some, Text, text_eq, count_where,
  if◌then◌else◌,
}
use ardvark.Store.Models.{
  FrontierItem, Status, pending, done, failed, is_pending, is_in_flight, is_failed,
}
use ardvark.Frontier.Db.{
  M, Result, ok, err, DbError, record_not_found, message, pure, fail, handle, first, count, update,
  statement,
}
use ardvark.Frontier.Config.{Frontier, FrontierError, not_found, lease_lost, driver}
use ardvark.Frontier.Enqueue.{lease_release_updates, of_host_kind}

-- `id = ?`.
abbrev pub has_id : ℕ → FrontierItem → Bool
has_id id r = r.id == id

-- `id = ? AND status = 'in_flight' AND worker_id = ?`.
abbrev pub owned_by : Frontier → ℕ → FrontierItem → Bool
owned_by f id r = (r.id == id) && is_in_flight r.status && text_eq r.worker_id f.worker_id

abbrev pub classify : Result DbError FrontierItem → FrontierError
classify (ok r) = lease_lost
classify (err record_not_found) = not_found
classify (err (message text)) = driver (message text)

abbrev pub lost : (A : Type 0) → Result DbError FrontierItem → M FrontierError A
lost A r = fail (classify r)

unfoldable pub ownership_lost : (A : Type 0) → ℕ → M FrontierError A
unfolding first
ownership_lost A id = handle (first (has_id id)) (lost A)

-- After a guarded UPDATE: the result, if it matched a row.
abbrev pub owned : {A : Type 0} → ℕ → A → Result DbError ℕ → M FrontierError A
owned id a (err e) = fail (driver e)
owned {A} id a (ok n) = if n == 0 then ownership_lost A id else pure a

unfoldable pub release : Frontier → Status → ℕ → M FrontierError (Unit {0})
unfolding update lease_release_updates ownership_lost
release f s id = handle (update (owned_by f id) (lease_release_updates s)) (owned id tt)

unfoldable pub requeue : Frontier → ℕ → M FrontierError (Unit {0})
unfolding release
requeue f = release f pending

unfoldable pub complete : Frontier → ℕ → M FrontierError (Unit {0})
unfolding release
complete f = release f done

-- The columns that `Fail` writes.
unfoldable pub after_failure : Status → ℕ → Text → FrontierItem → FrontierItem
unfolding lease_release_updates
after_failure s attempts msg r =
    let released = lease_release_updates s r in
    record released { attempts = attempts; last_error = msg }

abbrev pub failure_status : ℕ → ℕ → Status
failure_status attempts max_attempts = if leb max_attempts attempts then failed else pending

-- After the read of the row; `cause` is none for a nil error.
abbrev pub failing :
    Frontier → ℕ → Option Text → ℕ → Result DbError FrontierItem → M FrontierError Bool
failing f id cause max_attempts (err record_not_found) = fail not_found
failing f id cause max_attempts (err (message text)) = fail (driver (message text))
failing f id cause max_attempts (ok item) =
    let attempts = item.attempts + 1 in
    let status = failure_status attempts max_attempts in
    let msg : Text = elim cause [ none ↦ [] | some text ↦ text ] in
    handle (update (owned_by f id) (after_failure status attempts msg))
      (owned id (is_failed status))

-- `Fail`, with the flag `permanent` for its result.
unfoldable pub fail_item : Frontier → ℕ → Option Text → ℕ → M FrontierError Bool
unfolding first update after_failure ownership_lost
fail_item f id cause max_attempts = handle (first (has_id id)) (failing f id cause max_attempts)

abbrev pub swept : Result DbError ℕ → M FrontierError ℕ
swept (err e) = fail (driver e)
swept (ok n) = pure n

unfoldable pub reclaim_in_flight : M FrontierError ℕ
unfolding update lease_release_updates
reclaim_in_flight =
    handle (update (λ r. is_in_flight r.status) (lease_release_updates pending)) swept

-- `leased_until < ?`, which no NULL passes.
abbrev pub is_expired : ℕ → FrontierItem → Bool
is_expired now r =
    is_in_flight r.status && elim r.leased_until [ none ↦ false | some until ↦ ltb until now ]

unfoldable pub reclaim_expired : ℕ → M FrontierError ℕ
unfolding update lease_release_updates
reclaim_expired now = handle (update (is_expired now) (lease_release_updates pending)) swept

unfoldable pub pending_count : M FrontierError ℕ
unfolding count
pending_count = handle (count (λ r. is_pending r.status)) swept

unfoldable pub count_by_host_kind : Text → Text → M FrontierError ℕ
unfolding count
count_by_host_kind host kind = handle (count (of_host_kind host kind)) swept

abbrev pub both : Result DbError (ℕ × ℕ) → M FrontierError (ℕ × ℕ)
both (err e) = fail (driver e)
both (ok counts) = pure counts

-- One statement for both sums.
unfoldable pub counts : M FrontierError (ℕ × ℕ)
unfolding statement
counts =
    handle
      (statement (λ t. (
        ok (
          count_where (λ r. is_pending r.status) t.rows,
          count_where (λ r. is_in_flight r.status) t.rows,
        ),
        t,
      )))
      both
