-- ===== src/Frontier/Statements.antt =====
-- How each operation of internal/frontier changes the table: by which statements. A property that
-- these statements keep is kept by the operation.
use ardvark.Prelude.{
  ℕ, ◌+◌, ◌≡◌, inl, inr, Bool, true, false, List, [], ◌∷◌, Option, none, some, Text, Bool-cases,
  Option-cases, is_empty, leb, ◌==◌,
}
use ardvark.Store.Models.{FrontierItem, Status, pending, is_failed}
use ardvark.Frontier.Db.{
  Table, Event, DbError, first, count, update, create, Result, ok, err, pure, fail, handle, on_ok,
  ◌>>=◌, message, record_not_found, fault_of, peers_of, locked_of, later,
}
use ardvark.Frontier.Config.{
  Dialect, Frontier, FrontierError, driver, no_dedup_key, is_unique_constraint_err,
}
use ardvark.Frontier.Enqueue.{
  stamp, reactivated, lease_release_updates, enqueue_with, has_key, of_host_kind, unchanged,
  may_reactivate, admitted, store, looked_up, counted, updated, reactivate, created,
}
use ardvark.Frontier.Dequeue.{pick, mark, commit, dequeue}
use ardvark.Frontier.Release.{
  has_id, owned_by, owned, failing, swept, lost, release, fail_item, after_failure, failure_status,
  ownership_lost,
}
use ardvark.Frontier.Rely.{
  Rely, Rely-later, peers_of-keeps, Holds, Keeps, Keeps-if, Keeps-handle, Keeps-first, Keeps-count,
}

module _ (P : Table → Type 0) where
  ownership_lost-Keeps : (A : Type 0) (id : ℕ) → Keeps P (ownership_lost A id)
  unfolding ownership_lost
  ownership_lost-Keeps A id =
      Keeps-handle P (first (has_id id)) (lost A) (Keeps-first P (has_id id)) (λ r db h. h)

  owned-Keeps : {A : Type 0} (id : ℕ) (a : A) (r : Result DbError ℕ) → Keeps P (owned id a r)
  owned-Keeps id a (err e) = λ db h. h
  owned-Keeps {A} id a (ok n) =
      Keeps-if P (n == 0) (ownership_lost A id) (pure a) (ownership_lost-Keeps A id) (λ db h. h)

  swept-Keeps : (r : Result DbError ℕ) → Keeps P (swept r)
  swept-Keeps (err e) = λ db h. h
  swept-Keeps (ok n) = λ db h. h

  -- What the guarded UPDATE of a release keeps, the whole release keeps.
  pub release-Keeps :
      (f : Frontier) (s : Status) (id : ℕ)
      → Keeps P (update (owned_by f id) (lease_release_updates s))
      → Keeps P (release f s id)
  unfolding release
  release-Keeps f s id h =
      Keeps-handle P (update (owned_by f id) (lease_release_updates s)) (owned id tt) h
        (owned-Keeps id tt)

  pub fail_item-Keeps :
      (f : Frontier) (id : ℕ) (cause : Option Text) (max_attempts : ℕ)
      → ((attempts : ℕ) (msg : Text)
          → Keeps P (
              update
                (owned_by f id)
                (after_failure (failure_status attempts max_attempts) attempts msg)))
      → Keeps P (fail_item f id cause max_attempts)
  unfolding fail_item
  fail_item-Keeps f id cause max_attempts step =
      Keeps-handle P (first (has_id id)) (failing f id cause max_attempts)
        (Keeps-first P (has_id id)) after_read
    where
      after_read : (r : Result DbError FrontierItem) → Keeps P (failing f id cause max_attempts r)
      after_read (err record_not_found) = λ db h. h
      after_read (err (message text)) = λ db h. h
      after_read (ok item) =
          let attempts = item.attempts + 1 in
          let msg : Text = elim cause [ none ↦ [] | some text ↦ text ] in
          let s = failure_status attempts max_attempts in
          Keeps-handle P (update (owned_by f id) (after_failure s attempts msg))
            (owned id (is_failed s)) (step attempts msg) (owned-Keeps id (is_failed s))

  pub sweep-Keeps :
      (p : FrontierItem → Bool)
      → Keeps P (update p (lease_release_updates pending))
      → Keeps P (handle (update p (lease_release_updates pending)) swept)
  sweep-Keeps p h = Keeps-handle P (update p (lease_release_updates pending)) swept h swept-Keeps

module _ (P : Table → Type 0) (d : Dialect) (hostname : Text → Option Text) where
  -- An enqueue changes the table by one INSERT or one guarded UPDATE.
  pub enqueue_with-Keeps :
      (item : FrontierItem) (budget : Option ℕ) (reactivate_done reactivate_failed : Bool)
      → Keeps P (create d.conflict (stamp hostname item))
      → ((existing : FrontierItem)
          → may_reactivate reactivate_done reactivate_failed existing.status ≡ true
          → Keeps P (update (unchanged existing) (reactivated (stamp hostname item))))
      → Keeps P (enqueue_with d hostname item budget reactivate_done reactivate_failed)
  unfolding enqueue_with
  enqueue_with-Keeps item budget rd rf insert change =
      Keeps-if P (is_empty item.dedup_key) (fail no_dedup_key)
        (admitted stamped budget >>= store d hostname stamped rd rf) (λ db h. h)
        (Keeps-handle P (admitted stamped budget) (on_ok (store d hostname stamped rd rf))
          (admitted-Keeps budget) stored)
    where
      stamped : FrontierItem
      stamped = stamp hostname item

      looked : (r : Result DbError FrontierItem) → Keeps P (looked_up r)
      looked (err e) = λ db h. h
      looked (ok existing) = λ db h. h

      counting : (max : ℕ) (r : Result DbError ℕ) → Keeps P (counted stamped max r)
      counting max (err e) = λ db h. h
      counting max (ok n) =
          Keeps-if P (leb max n) (handle (first (has_key stamped.dedup_key)) looked_up) (pure true)
            (Keeps-handle P (first (has_key stamped.dedup_key)) looked_up
              (Keeps-first P (has_key stamped.dedup_key)) looked)
            (λ db h. h)

      admitted-Keeps : (b : Option ℕ) → Keeps P (admitted stamped b)
      admitted-Keeps none = λ db h. h
      admitted-Keeps (some max) =
          Keeps-handle P (count (of_host_kind stamped.host stamped.kind)) (counted stamped max)
            (Keeps-count P (of_host_kind stamped.host stamped.kind)) (counting max)

      changed : (r : Result DbError ℕ) → Keeps P (updated r)
      changed (err e) = λ db h. h
      changed (ok n) = λ db h. h

      revive : (r : Result DbError FrontierItem) → Keeps P (reactivate stamped rd rf r)
      revive (err e) = λ db h. h
      revive (ok existing) = elim (Bool-cases (may_reactivate rd rf existing.status)) [
        | inl e ↦ rw e (
            Keeps-handle P (update (unchanged existing) (reactivated stamped)) updated
              (change existing e) changed)
        | inr e ↦ rw e (λ db h. h)
      ]

      inserted : (r : Result DbError FrontierItem) → Keeps P (created stamped rd rf r)
      inserted (ok row) = λ db h. h
      inserted (err e) =
          Keeps-if P (is_unique_constraint_err (some e))
            (handle (first (has_key stamped.dedup_key)) (reactivate stamped rd rf))
            (fail (driver e))
            (Keeps-handle P (first (has_key stamped.dedup_key)) (reactivate stamped rd rf)
              (Keeps-first P (has_key stamped.dedup_key)) revive)
            (λ db h. h)

      stored : (r : Result FrontierError Bool) → Keeps P (on_ok (store d hostname stamped rd rf) r)
      stored (err e) = λ db h. h
      stored (ok false) = λ db h. h
      stored (ok true) =
          Keeps-handle P (create d.conflict stamped) (created stamped rd rf) insert inserted

module _ (P : Table → Type 0) (d : Dialect) (f : Frontier) (now : ℕ) where
  commit-Keeps :
      (items : List FrontierItem) (world : List Event) (t : Table)
      → Rely P world
      → P t
      → P (mark f now items t)
      → Holds P (commit f now items world t).1
  unfolding commit
  commit-Keeps [] world t r h m = (h, r)
  commit-Keeps (i ∷ is) world t r h m = elim (Option-cases (fault_of world)) [
    | inl e ↦ rw (e, commit) (peers_of-keeps P world _ r m, Rely-later P world r)
    | inr (text, e) ↦ rw (e, commit) (peers_of-keeps P world t r h, Rely-later P world r)
  ]

  -- A dequeue changes the table by marking the rows that it picked.
  pub dequeue-Keeps :
      (n : ℕ)
      → ((locked : FrontierItem → Bool) (t : Table) → P t → P (mark f now (pick d f n locked t) t))
      → Keeps P (dequeue d f now n)
  unfolding dequeue
  dequeue-Keeps n step db h = elim (Bool-cases (n == 0)) [
    | inl e ↦ rw e h
    | inr e ↦
        let t = peers_of db.world db.table in
        let p = peers_of-keeps P db.world db.table h.1 h.0 in
        let r = Rely-later P db.world h.1 in
        elim (Option-cases (fault_of db.world)) [
          | inl g ↦
              rw (e, g)
                (commit-Keeps (pick d f n (locked_of db.world) t) (later db.world) t r p
                  (step (locked_of db.world) t p))
          | inr (text, g) ↦ rw (e, g) (p, r)
        ]
  ]
