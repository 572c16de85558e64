-- ===== src/Frontier/Enqueue.antt =====
-- internal/frontier/frontier.go: `Enqueue`, `Ensure`, `Resume`, `EnqueueBudgeted` and the `enqueue`
-- that they share.
use ardvark.Prelude.{
  ℕ, leb, ◌==◌, Bool, true, false, ◌&&◌, ◌||◌, not, [], Option, none, some, Text, text_eq, is_empty,
  if◌then◌else◌,
}
use ardvark.Store.Models.{
  FrontierItem, Status, pending, is_unset, is_pending, is_in_flight, is_done, is_failed,
  frontier_dedup_version,
}
use ardvark.Frontier.Db.{
  M, Result, ok, err, DbError, pure, fail, handle, ◌>>=◌, first, count, update, create,
}
use ardvark.Frontier.Config.{Dialect, FrontierError, no_dedup_key, driver, is_unique_constraint_err}
use ardvark.Frontier.Shard.{host_shard_of, fetch_host}

abbrev pub status_eq : Status → Status → Bool
status_eq s t =
    (is_unset s && is_unset t)
    || (is_pending s && is_pending t)
    || (is_in_flight s && is_in_flight t)
    || (is_done s && is_done t)
    || (is_failed s && is_failed t)

-- `leaseReleaseUpdates`, without the columns of `extra`.
unfoldable pub lease_release_updates : Status → FrontierItem → FrontierItem
lease_release_updates s r = record r { status = s; leased_until = none; worker_id = [] }

-- What `enqueue` writes into the item before it is stored.
unfoldable pub stamp : (Text → Option Text) → FrontierItem → FrontierItem
unfolding host_shard_of fetch_host
stamp hostname item = record item {
  status = if is_unset item.status then pending else item.status;
  dedup_version = frontier_dedup_version;
  host_shard = host_shard_of (fetch_host hostname item);
}

abbrev pub has_key : Text → FrontierItem → Bool
has_key key r = text_eq r.dedup_key key

abbrev pub of_host_kind : Text → Text → FrontierItem → Bool
of_host_kind host kind r = text_eq r.host host && text_eq r.kind kind

-- The columns that a re-enqueue adopts, `extra` of the call in `enqueue`.
unfoldable pub reactivated : FrontierItem → FrontierItem → FrontierItem
unfolding lease_release_updates
reactivated item r =
    let released = lease_release_updates pending r in
    record released {
      attempts = 0;
      last_error = [];
      run_id = item.run_id;
      depth = item.depth;
      parent_catalog_id = item.parent_catalog_id;
      artifact_entry_id = item.artifact_entry_id;
      registry_entry_id = item.registry_entry_id;
      registry_catalog_id = item.registry_catalog_id;
      registry_row_id = item.registry_row_id;
      probe_method = item.probe_method;
    }

-- `id = ? AND status = ?`.
abbrev pub unchanged : FrontierItem → FrontierItem → Bool
unchanged existing r = (r.id == existing.id) && status_eq r.status existing.status

-- After the UPDATE: an error, or whether it matched a row.
abbrev pub updated : Result DbError ℕ → M FrontierError Bool
updated (err e) = fail (driver e)
updated (ok n) = pure (not (n == 0))

abbrev pub may_reactivate : Bool → Bool → Status → Bool
may_reactivate reactivate_done reactivate_failed s =
    (is_done s && reactivate_done) || (is_failed s && reactivate_failed)

-- After the lookup of the row that holds the key.
abbrev pub reactivate :
    FrontierItem → Bool → Bool → Result DbError FrontierItem → M FrontierError Bool
reactivate item reactivate_done reactivate_failed (err e) = pure false
reactivate item reactivate_done reactivate_failed (ok existing) =
    if may_reactivate reactivate_done reactivate_failed existing.status
    then handle (update (unchanged existing) (reactivated item)) updated
    else pure false

-- After the INSERT.
abbrev pub created : FrontierItem → Bool → Bool → Result DbError FrontierItem → M FrontierError Bool
created item reactivate_done reactivate_failed (ok row) = pure true
created item reactivate_done reactivate_failed (err e) =
    if is_unique_constraint_err (some e)
    then handle (first (has_key item.dedup_key)) (reactivate item reactivate_done reactivate_failed)
    else fail (driver e)

-- At or over the budget: whether the lookup of the key succeeded.
abbrev pub looked_up : Result DbError FrontierItem → M FrontierError Bool
looked_up (err e) = pure false
looked_up (ok existing) = pure true

abbrev pub counted : FrontierItem → ℕ → Result DbError ℕ → M FrontierError Bool
counted item max (err e) = fail (driver e)
counted item max (ok n) =
    if leb max n then handle (first (has_key item.dedup_key)) looked_up else pure true

-- Whether the budget admits the item; `none` is a negative `maxRowsForHostKind`.
abbrev pub admitted : FrontierItem → Option ℕ → M FrontierError Bool
admitted item none = pure true
admitted item (some max) = handle (count (of_host_kind item.host item.kind)) (counted item max)

module _ (d : Dialect) (hostname : Text → Option Text) where
  abbrev pub store : FrontierItem → Bool → Bool → Bool → M FrontierError Bool
  store item reactivate_done reactivate_failed false = pure false
  store item reactivate_done reactivate_failed true =
      handle (create d.conflict item) (created item reactivate_done reactivate_failed)

  unfoldable pub enqueue_with : FrontierItem → Option ℕ → Bool → Bool → M FrontierError Bool
  unfolding stamp reactivated first count update create
  enqueue_with item budget reactivate_done reactivate_failed =
      let stamped = stamp hostname item in
      if is_empty item.dedup_key
      then fail no_dedup_key
      else (admitted stamped budget >>= store stamped reactivate_done reactivate_failed)

  unfoldable pub enqueue : FrontierItem → M FrontierError Bool
  enqueue item = enqueue_with item none true true

  unfoldable pub ensure : FrontierItem → M FrontierError Bool
  ensure item = enqueue_with item none false false

  unfoldable pub resume : FrontierItem → M FrontierError Bool
  resume item = enqueue_with item none false true

  unfoldable pub enqueue_budgeted : FrontierItem → Option ℕ → M FrontierError Bool
  enqueue_budgeted item budget = enqueue_with item budget true true
