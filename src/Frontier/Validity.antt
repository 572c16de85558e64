-- ===== src/Frontier/Validity.antt =====
-- Each operation of internal/frontier keeps the table valid, whatever faults occur and whatever
-- peers that keep it valid do between the statements.
use ardvark.Prelude.{ℕ, ◌≡◌, refl, Bool, false, List, Option, Text, arith, update_where}
use ardvark.Store.Models.{FrontierItem, Status, pending, is_in_flight}
use ardvark.Frontier.Db.{Table, update, handle}
use ardvark.Frontier.Config.{Dialect, Frontier}
use ardvark.Frontier.Shard.{host_shard_of}
use ardvark.Frontier.Enqueue.{stamp, reactivated, lease_release_updates, enqueue_with, unchanged}
use ardvark.Frontier.Dequeue.{pick, mark, leased, one_of, dequeue}
use ardvark.Frontier.Release.{
  release, fail_item, owned_by, after_failure, failure_status, reclaim_in_flight, reclaim_expired,
  is_expired, swept,
}
use ardvark.Frontier.Rely.{Keeps, Keeps-update, Keeps-create}
use ardvark.Frontier.Statements.{
  release-Keeps, fail_item-Keeps, sweep-Keeps, enqueue_with-Keeps, dequeue-Keeps,
}
use ardvark.Frontier.Invariant.{
  IsValid, IsIdentityKept, IsLeaseOk, IsReleased, IsStorable, IsValid-update, IsValid-insert,
}

-- Whoever takes a row out of flight clears its lease.
lease_release_updates-IsIdentityKept : (s : Status) → IsIdentityKept (lease_release_updates s)
unfolding lease_release_updates
lease_release_updates-IsIdentityKept s = record {
  id_kept = λ r. refl;
  key_kept = λ r. refl;
  shard_kept = λ r. refl;
}

lease_release_updates-IsLeaseOk :
    (s : Status) (r : FrontierItem) → is_in_flight s ≡ false → IsLeaseOk (lease_release_updates s r)
unfolding lease_release_updates
lease_release_updates-IsLeaseOk s r h = record { held = λ e. cc; released = λ _. (refl, refl) }

-- An UPDATE with `f` keeps the table valid, whichever rows it selects.
abbrev pub IsValidChange : (FrontierItem → FrontierItem) → Type 0
IsValidChange f =
    (p : FrontierItem → Bool) (t : Table)
    → IsValid t
    → IsValid (record t { rows = update_where p f t.rows })

pub released-IsValidChange :
    (s : Status) → is_in_flight s ≡ false → IsValidChange (lease_release_updates s)
released-IsValidChange s h p =
    IsValid-update p (lease_release_updates s) (lease_release_updates-IsIdentityKept s)
      (λ r _ _. lease_release_updates-IsLeaseOk s r h)

reactivated-IsIdentityKept : (item : FrontierItem) → IsIdentityKept (reactivated item)
unfolding reactivated
reactivated-IsIdentityKept item = record {
  id_kept = λ r. refl;
  key_kept = λ r. refl;
  shard_kept = λ r. refl;
}

reactivated-IsLeaseOk : (item r : FrontierItem) → IsLeaseOk (reactivated item r)
unfolding reactivated
reactivated-IsLeaseOk item r = record { held = λ e. cc; released = λ _. (refl, refl) }

pub reactivated-IsValidChange : (item : FrontierItem) → IsValidChange (reactivated item)
reactivated-IsValidChange item p =
    IsValid-update p (reactivated item) (reactivated-IsIdentityKept item)
      (λ r _ _. reactivated-IsLeaseOk item r)

after_failure-IsIdentityKept :
    (s : Status) (attempts : ℕ) (msg : Text) → IsIdentityKept (after_failure s attempts msg)
unfolding after_failure
after_failure-IsIdentityKept s attempts msg = record {
  id_kept = λ r. refl;
  key_kept = λ r. refl;
  shard_kept = λ r. refl;
}

after_failure-IsLeaseOk :
    (max attempts : ℕ) (msg : Text) (r : FrontierItem)
    → IsLeaseOk (after_failure (failure_status attempts max) attempts msg r)
unfolding after_failure
after_failure-IsLeaseOk max attempts msg r = record {
  held = λ e. ground arith;
  released = λ _. (refl, refl);
}

pub after_failure-IsValidChange :
    (max attempts : ℕ) (msg : Text)
    → IsValidChange (after_failure (failure_status attempts max) attempts msg)
after_failure-IsValidChange max attempts msg p =
    IsValid-update p (after_failure (failure_status attempts max) attempts msg)
      (after_failure-IsIdentityKept (failure_status attempts max) attempts msg)
      (λ r _ _. after_failure-IsLeaseOk max attempts msg r)

leased-IsIdentityKept : (f : Frontier) (now : ℕ) → IsIdentityKept (leased f now)
unfolding leased
leased-IsIdentityKept f now = record {
  id_kept = λ r. refl;
  key_kept = λ r. refl;
  shard_kept = λ r. refl;
}

leased-IsLeaseOk : (f : Frontier) (now : ℕ) (r : FrontierItem) → IsLeaseOk (leased f now r)
unfolding leased
leased-IsLeaseOk f now r = record { held = λ _ e. cc; released = λ e. cc }

pub mark-IsValid :
    (f : Frontier) (now : ℕ) (items : List FrontierItem) (t : Table)
    → IsValid t
    → IsValid (mark f now items t)
unfolding mark
mark-IsValid f now items =
    IsValid-update (one_of items) (leased f now) (leased-IsIdentityKept f now)
      (λ r _ _. leased-IsLeaseOk f now r)

-- An item that callers build: not in flight, with no lease and no worker.
pub record IsFresh (item : FrontierItem) : Type 0 where
  pub idle : is_in_flight item.status ≡ false
  pub no_lease : IsReleased item

pub stamp-IsStorable :
    (hostname : Text → Option Text) (item : FrontierItem)
    → IsFresh item
    → IsStorable (stamp hostname item)
unfolding stamp host_shard_of
stamp-IsStorable hostname item h = record {
  idle = ground arith;
  no_lease = h.no_lease;
  in_range = omega arith;
}

-- Every way of enqueueing keeps the table valid.
pub enqueue_with-IsValid :
    (d : Dialect) (hostname : Text → Option Text) (item : FrontierItem) (budget : Option ℕ)
    (reactivate_done reactivate_failed : Bool)
    → IsFresh item
    → Keeps IsValid (enqueue_with d hostname item budget reactivate_done reactivate_failed)
enqueue_with-IsValid d hostname item budget rd rf h =
    enqueue_with-Keeps IsValid d hostname item budget rd rf
      (Keeps-create IsValid d.conflict (stamp hostname item)
        (IsValid-insert d.conflict (stamp hostname item) (stamp-IsStorable hostname item h)))
      (λ existing _.
        Keeps-update IsValid (unchanged existing) (reactivated (stamp hostname item))
          (reactivated-IsValidChange (stamp hostname item) (unchanged existing)))

pub dequeue-IsValid : (d : Dialect) (f : Frontier) (now n : ℕ) → Keeps IsValid (dequeue d f now n)
dequeue-IsValid d f now n =
    dequeue-Keeps IsValid d f now n (λ locked t. mark-IsValid f now (pick d f n locked t) t)

pub release-IsValid :
    (f : Frontier) (s : Status) (id : ℕ) → is_in_flight s ≡ false → Keeps IsValid (release f s id)
release-IsValid f s id h = release-Keeps IsValid f s id (
    Keeps-update IsValid (owned_by f id) (lease_release_updates s)
      (released-IsValidChange s h (owned_by f id)))

pub fail_item-IsValid :
    (f : Frontier) (id : ℕ) (cause : Option Text) (max_attempts : ℕ)
    → Keeps IsValid (fail_item f id cause max_attempts)
fail_item-IsValid f id cause max_attempts =
    fail_item-Keeps IsValid f id cause max_attempts (λ attempts msg.
      Keeps-update IsValid (owned_by f id)
        (after_failure (failure_status attempts max_attempts) attempts msg)
        (after_failure-IsValidChange max_attempts attempts msg (owned_by f id)))

pub sweep-IsValid :
    (p : FrontierItem → Bool)
    → Keeps IsValid (handle (update p (lease_release_updates pending)) swept)
sweep-IsValid p =
    sweep-Keeps IsValid p (
      Keeps-update IsValid p (lease_release_updates pending)
        (released-IsValidChange pending refl p))

pub reclaim_in_flight-IsValid : Keeps IsValid reclaim_in_flight
unfolding reclaim_in_flight
reclaim_in_flight-IsValid = sweep-IsValid (λ r. is_in_flight r.status)

pub reclaim_expired-IsValid : (now : ℕ) → Keeps IsValid (reclaim_expired now)
unfolding reclaim_expired
reclaim_expired-IsValid now = sweep-IsValid (is_expired now)
