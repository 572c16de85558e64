-- ===== src/Frontier/Ownership.antt =====
-- A row in flight under a live lease belongs to its worker: no call of another worker changes it.
use ardvark.Prelude.{
  ℕ, ◌≡◌, ◌≢◌, refl, inl, inr, Bool, true, false, List, [], ◌∷◌, ◌++◌, Option, Text, Bool-cases,
  arith, text_eq, text_eq_iff, any, update_where,
}
use ardvark.Store.Models.{FrontierItem, Status, pending, in_flight, is_in_flight, is_pending}
use ardvark.Frontier.Db.{Table, update, create, insert_row}
use ardvark.Frontier.Config.{Dialect, Frontier}
use ardvark.Frontier.Enqueue.{
  stamp, reactivated, lease_release_updates, enqueue_with, unchanged, may_reactivate,
}
use ardvark.Frontier.Dequeue.{pick, mark, leased, one_of, dequeue}
use ardvark.Frontier.Release.{
  release, fail_item, owned_by, after_failure, failure_status, reclaim_expired, is_expired,
}
use ardvark.Frontier.Rely.{Keeps, Keeps-update, Keeps-create}
use ardvark.Frontier.Statements.{
  release-Keeps, fail_item-Keeps, sweep-Keeps, enqueue_with-Keeps, dequeue-Keeps,
}
use ardvark.Frontier.Invariant.{IsValid, IsValid-insert}
use ardvark.Frontier.Validity.{
  IsFresh, IsValidChange, stamp-IsStorable, released-IsValidChange, reactivated-IsValidChange,
  after_failure-IsValidChange, mark-IsValid,
}
use ardvark.Frontier.Picked.{Contains, one_of-pick}

Contains-update :
    (p : FrontierItem → Bool) (f : FrontierItem → FrontierItem) (rows : List FrontierItem)
    (r : FrontierItem)
    → p r ≡ false
    → Contains r rows
    → Contains r (update_where p f rows)
unfolding update_where
Contains-update p f [] r e c = c
Contains-update p f (x ∷ rows) r e (inl q) = inl (rw (q, e) refl)
Contains-update p f (x ∷ rows) r e (inr c) = inr (Contains-update p f rows r e c)

Contains-append :
    (rows more : List FrontierItem) (r : FrontierItem) → Contains r rows → Contains r (rows ++ more)
Contains-append [] more r c = absurd c
Contains-append (x ∷ rows) more r (inl e) = inl e
Contains-append (x ∷ rows) more r (inr c) = inr (Contains-append rows more r c)

in_flight_not_pending : (s : Status) → s ≡ in_flight → is_pending s ≡ false
in_flight_not_pending s e = ground arith

module _ (r : FrontierItem) where
  -- The table is valid and holds the row `r` as it is.
  abbrev pub KeepsRow : Table → Type 0
  KeepsRow t = IsValid t × Contains r t.rows

  KeepsRow-update :
      (p : FrontierItem → Bool) (f : FrontierItem → FrontierItem)
      → IsValidChange f
      → p r ≡ false
      → Keeps KeepsRow (update p f)
  KeepsRow-update p f change e =
      Keeps-update KeepsRow p f (λ t h. (change p t h.0, Contains-update p f t.rows r e h.1))

  KeepsRow-insert :
      (conflict : Text) (hostname : Text → Option Text) (item : FrontierItem)
      → IsFresh item
      → Keeps KeepsRow (create conflict (stamp hostname item))
  KeepsRow-insert conflict hostname item h =
      Keeps-create KeepsRow conflict (stamp hostname item) (λ t k. (
        IsValid-insert conflict (stamp hostname item) (stamp-IsStorable hostname item h) t k.0,
        kept t k.1,
      ))
    where
      kept :
          (t : Table)
          → Contains r t.rows
          → Contains r (insert_row conflict (stamp hostname item) t).1.rows
      kept t c =
          elim (Bool-cases
            (any (λ q. text_eq q.dedup_key (stamp hostname item).dedup_key) t.rows)) [
              | inl e ↦ rw e c
              | inr e ↦ rw e (Contains-append t.rows _ r c)
            ]

  module _ (flying : r.status ≡ in_flight) where
    not_unchanged :
        (existing : FrontierItem) (rd rf : Bool)
        → may_reactivate rd rf existing.status ≡ true
        → unchanged existing r ≡ false
    not_unchanged existing rd rf h = ground arith

    pub enqueue_with-KeepsRow :
        (d : Dialect) (hostname : Text → Option Text) (item : FrontierItem) (budget : Option ℕ)
        (rd rf : Bool)
        → IsFresh item
        → Keeps KeepsRow (enqueue_with d hostname item budget rd rf)
    enqueue_with-KeepsRow d hostname item budget rd rf h =
        enqueue_with-Keeps KeepsRow d hostname item budget rd rf
          (KeepsRow-insert d.conflict hostname item h)
          (λ existing e.
            KeepsRow-update (unchanged existing) (reactivated (stamp hostname item))
              (reactivated-IsValidChange (stamp hostname item)) (not_unchanged existing rd rf e))

    pub dequeue-KeepsRow :
        (d : Dialect) (f : Frontier) (now n : ℕ) → Keeps KeepsRow (dequeue d f now n)
    dequeue-KeepsRow d f now n = dequeue-Keeps KeepsRow d f now n marked
      where
        marked :
            (locked : FrontierItem → Bool) (t : Table)
            → KeepsRow t
            → KeepsRow (mark f now (pick d f n locked t) t)
        marked locked t h = (
          mark-IsValid f now (pick d f n locked t) t h.0,
          unfold mark in
              Contains-update (one_of (pick d f n locked t)) (leased f now) t.rows r
                (one_of-pick d f n locked t r h.0.ids h.1 (in_flight_not_pending r.status flying))
                h.1,
        )

    module _ (f : Frontier) (other : r.worker_id ≢ f.worker_id) where
      not_owned : (id : ℕ) → owned_by f id r ≡ false
      not_owned id = ground (arith, text_eq_iff r.worker_id f.worker_id)

      pub release-KeepsRow :
          (s : Status) (id : ℕ) → is_in_flight s ≡ false → Keeps KeepsRow (release f s id)
      release-KeepsRow s id h = release-Keeps KeepsRow f s id (
          KeepsRow-update (owned_by f id) (lease_release_updates s) (released-IsValidChange s h)
            (not_owned id))

      pub fail_item-KeepsRow :
          (id : ℕ) (cause : Option Text) (max : ℕ) → Keeps KeepsRow (fail_item f id cause max)
      fail_item-KeepsRow id cause max = fail_item-Keeps KeepsRow f id cause max (λ attempts msg.
          KeepsRow-update (owned_by f id) (after_failure (failure_status attempts max) attempts msg)
            (after_failure-IsValidChange max attempts msg) (not_owned id))

  pub reclaim_expired-KeepsRow :
      (now : ℕ) → is_expired now r ≡ false → Keeps KeepsRow (reclaim_expired now)
  unfolding reclaim_expired
  reclaim_expired-KeepsRow now e = sweep-Keeps KeepsRow (is_expired now) (
      KeepsRow-update (is_expired now) (lease_release_updates pending)
        (released-IsValidChange pending refl) e)
