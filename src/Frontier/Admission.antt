-- ===== src/Frontier/Admission.antt =====
-- What the enqueues do, on every branch, where no peer and no fault interferes: the decision that
-- their documentation describes, and its effect on the table.
use ardvark.Prelude.{
  ap, ℕ, suc, ◌≡◌, refl, inl, inr, Bool, true, false, [], ◌∷◌, ◌++◌, ◌||◌, not, Option, none, some,
  Text, Bool-cases, Option-cases, arith, leb, any, find, count_where, update_where, is_empty,
  if◌then◌else◌, ◌∙◌,
}
use ardvark.Store.Models.{FrontierItem, Status, pending}
use ardvark.Frontier.Db.{Table, Db, Result, ok, first, count, update, create}
use ardvark.Frontier.Config.{Dialect, FrontierError}
use ardvark.Frontier.Enqueue.{
  stamp, reactivated, enqueue_with, has_key, of_host_kind, unchanged, may_reactivate, admitted,
  store, status_eq,
}
use ardvark.Frontier.Lookup.{
  quiet, row_at, any-find, find-Contains, find-has_id, count-pinned, find-update_where,
  find-update_pinned,
}
use ardvark.Frontier.Finish.{OnlyRow}
use ardvark.Frontier.Release.{has_id}
use ardvark.Frontier.Invariant.{IsValid}

-- A key that no row has is stored if the budget allows a new row; a finished row is revived if the
-- flags allow it, whatever the budget; all else is left alone.
pub data Decision : Type 0 where
  insert skip : Decision
  revive : FrontierItem → Decision

abbrev pub decide : Bool → Bool → Bool → Option FrontierItem → Decision
decide rd rf within_budget none = if within_budget then insert else skip
decide rd rf within_budget (some r) = if may_reactivate rd rf r.status then revive r else skip

abbrev pub within : Table → FrontierItem → Option ℕ → Bool
within t item none = true
within t item (some max) = not (leb max (count_where (of_host_kind item.host item.kind) t.rows))

-- A finished row made new for an item: pending, unleased, with no attempt, under the item's run, depth
-- and provenance; the id, URL, host, key and priority are its own.
abbrev pub renewed : FrontierItem → FrontierItem → FrontierItem
renewed item r = record item {
  id = r.id;
  kind = r.kind;
  url = r.url;
  host = r.host;
  priority = r.priority;
  status = pending;
  attempts = 0;
  last_error = [];
  dedup_key = r.dedup_key;
  dedup_version = r.dedup_version;
  host_shard = r.host_shard;
  leased_until = none;
  worker_id = [];
}

-- The effect of a decision: the result of the call, and the database after it.
abbrev pub Effect : Table → FrontierItem → Decision → Result FrontierError Bool × Db → Type 0
Effect t item insert out = out ≡ (
  ok true,
  quiet (record { rows = t.rows ++ record item { id = t.next_id } ∷ []; next_id = suc t.next_id }),
)
Effect t item skip out = out ≡ (ok false, quiet t)
Effect t item (revive r) out =
    (out
      ≡ (ok true, quiet (record t { rows = update_where (unchanged r) (reactivated item) t.rows })))
    × OnlyRow r.id (renewed item r) t out.1.table

abbrev pub key_at : Text → Table → Option FrontierItem
key_at key t = find (has_key key) t.rows

or_true : (b : Bool) → (b || true) ≡ true
or_true true = refl
or_true false = refl

status_eq_refl : (s : Status) → status_eq s s ≡ true
status_eq_refl s = ground arith

unchanged-id : (r q : FrontierItem) → unchanged r q ≡ true → q.id ≡ r.id
unchanged-id r q h = ground arith

module _ (d : Dialect) (hostname : Text → Option Text) (item : FrontierItem) (t : Table) where
  abbrev stamped : FrontierItem
  stamped = stamp hostname item

  admitted_lem :
      (budget : Option ℕ)
      → admitted stamped budget (quiet t)
        ≡ (ok (within t stamped budget || any (has_key stamped.dedup_key) t.rows), quiet t)
  unfolding count first
  admitted_lem none = refl
  admitted_lem (some max) =
      elim (Bool-cases (leb max (count_where (of_host_kind stamped.host stamped.kind) t.rows))) [
        | inl over ↦ elim (Option-cases (key_at stamped.dedup_key t)) [
          | inl e ↦ rw (over, any-find (has_key stamped.dedup_key) t.rows, e) refl
          | inr (r, e) ↦ rw (over, any-find (has_key stamped.dedup_key) t.rows, e) refl
        ]
        | inr under ↦ rw under refl
      ]

  reactivated-id : (q : FrontierItem) → (reactivated stamped q).id ≡ q.id
  unfolding reactivated
  reactivated-id q = refl

  renewed_lem : (r : FrontierItem) → reactivated stamped r ≡ renewed stamped r
  unfolding reactivated
  renewed_lem r = refl

  revived_row :
      {r : FrontierItem}
      → row_at r.id t ≡ some r
      → find (has_id r.id) (update_where (unchanged r) (reactivated stamped) t.rows)
        ≡ some (renewed stamped r)
  revived_row {r} e =
      (find-update_where (unchanged r) (reactivated stamped) t.rows r.id reactivated-id
        ∙ rw e (ground (arith, status_eq_refl r.status)))
      ∙ ap some (renewed_lem r)

  -- With the key taken by `r`, the INSERT clashes and the decision is about `r`.
  stored_taken :
      (rd rf : Bool) (r : FrontierItem)
      → IsValid t
      → key_at stamped.dedup_key t ≡ some r
      → Effect t stamped
          (if may_reactivate rd rf r.status then revive r else skip)
          (store d hostname stamped rd rf true (quiet t))
  unfolding create first update
  stored_taken rd rf r v e =
      let taken : any (has_key stamped.dedup_key) t.rows ≡ true =
        any-find (has_key stamped.dedup_key) t.rows ∙ rw e refl in
      let here = find-Contains (has_key stamped.dedup_key) t.rows r e in
      let at_id = find-has_id 0 t.rows t.next_id r v.ids here in
      let one : count_where (unchanged r) t.rows ≡ 1 =
        count-pinned (unchanged r) r.id (unchanged-id r) 0 t.rows t.next_id v.ids
        ∙ rw at_id (ground (arith, status_eq_refl r.status)) in
      elim (Bool-cases (may_reactivate rd rf r.status)) [
        | inl may ↦
            rw (taken, d.reports_conflict, e, may, one)
              (
                refl,
                (
                  revived_row at_id,
                  λ j ne.
                      find-update_pinned (unchanged r) r.id (unchanged-id r) (reactivated stamped)
                        t.rows j reactivated-id ne,
                ),
              )
        | inr not_may ↦ rw (taken, d.reports_conflict, e, not_may) refl
      ]

  stored_new :
      (rd rf : Bool)
      → key_at stamped.dedup_key t ≡ none
      → Effect t stamped insert (store d hostname stamped rd rf true (quiet t))
  unfolding create
  stored_new rd rf e =
      let free : any (has_key stamped.dedup_key) t.rows ≡ false =
        any-find (has_key stamped.dedup_key) t.rows ∙ rw e refl in
      rw free refl

  -- `Enqueue`, `Ensure`, `Resume` and `EnqueueBudgeted` on a valid table, for an item with a key:
  -- an item whose key is new is stored as stamped, under the next id, if the budget for its host
  -- and kind is not used up, and refused otherwise; an item whose key a finished row has revives
  -- that row with the item's run, depth and provenance, whatever the budget, if the flag for the
  -- row's status is set, and every other row stays; in all other cases the call reports false and
  -- nothing changes.
  pub enqueue_outcome :
      (budget : Option ℕ) (rd rf : Bool)
      → IsValid t
      → is_empty item.dedup_key ≡ false
      → Effect t stamped
          (decide rd rf (within t item budget) (key_at item.dedup_key t))
          (enqueue_with d hostname item budget rd rf (quiet t))
  unfolding enqueue_with stamp
  enqueue_outcome budget rd rf v key = elim (Option-cases (key_at item.dedup_key t)) [
    | inl e ↦ elim (Bool-cases (within t stamped budget)) [
      | inl fits ↦ rw (key, admitted_lem budget, e, fits) (stored_new rd rf e)
      | inr full ↦
          rw (key, admitted_lem budget, any-find (has_key item.dedup_key) t.rows, e, full) refl
    ]
    | inr (r, e) ↦
        rw (key, admitted_lem budget, any-find (has_key item.dedup_key) t.rows, e, or_true)
          (stored_taken rd rf r v e)
  ]
