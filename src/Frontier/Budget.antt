-- ===== src/Frontier/Budget.antt =====
-- The page budget: `EnqueueBudgeted` does not take a host and kind over their number of rows.
use ardvark.Prelude.{
  ℕ, ◌+◌, ◌≤◌, ◌≡◌, refl, Bool, true, false, List, [], ◌∷◌, ◌++◌, Option, some, Text, arith,
  count_where, update_where, is_empty, sym, subst,
}
use ardvark.Store.Models.{FrontierItem}
use ardvark.Frontier.Db.{Table, Db, Result}
use ardvark.Frontier.Config.{Dialect, FrontierError}
use ardvark.Frontier.Enqueue.{
  stamp, reactivated, enqueue_with, enqueue_budgeted, of_host_kind, unchanged,
}
use ardvark.Frontier.Lookup.{quiet}
use ardvark.Frontier.Invariant.{IsValid}
use ardvark.Frontier.Admission.{
  Decision, insert, skip, revive, decide, within, Effect, key_at, enqueue_outcome,
}

abbrev pub rows_of : FrontierItem → Table → ℕ
rows_of item t = count_where (of_host_kind item.host item.kind) t.rows

pub count_where-append :
    {A : Type 0} (p : A → Bool) (xs ys : List A)
    → count_where p (xs ++ ys) ≡ count_where p xs + count_where p ys
unfolding count_where
count_where-append p [] ys = omega arith
count_where-append p (x ∷ xs) ys = omega (arith, count_where-append p xs ys)

count_where-single : {A : Type 0} (p : A → Bool) (x : A) → count_where p (x ∷ []) ≤ 1
unfolding count_where
count_where-single p x = ground arith

pub count_where-update :
    {A : Type 0} (p q : A → Bool) (f : A → A) (xs : List A)
    → ((x : A) → p (f x) ≡ p x)
    → count_where p (update_where q f xs) ≡ count_where p xs
unfolding count_where update_where
count_where-update p q f [] h = refl
count_where-update p q f (x ∷ xs) h = ground (arith, h x, count_where-update p q f xs h)

pub reactivated-of_host_kind :
    (item r : FrontierItem) (host kind : Text)
    → of_host_kind host kind (reactivated item r) ≡ of_host_kind host kind r
unfolding reactivated
reactivated-of_host_kind item r host kind = refl

stamp-of_host_kind :
    (hostname : Text → Option Text) (item : FrontierItem) (t : Table)
    → rows_of (stamp hostname item) t ≡ rows_of item t
unfolding stamp
stamp-of_host_kind hostname item t = refl

Effect-budget :
    (t : Table) (item stamped : FrontierItem) (max : ℕ) (c : Decision)
    (out : Result FrontierError Bool × Db)
    → (c ≡ insert → within t item (some max) ≡ true)
    → rows_of item t ≤ max
    → Effect t stamped c out
    → rows_of item out.1.table ≤ max
Effect-budget t item stamped max insert out w h e =
    let room = w refl in
    subst (λ (o : Result FrontierError Bool × Db). rows_of item o.1.table ≤ max) (sym e)
      (rw
        (count_where-append (of_host_kind item.host item.kind) t.rows
          (record stamped { id = t.next_id } ∷ []))
        (ground (
          arith,
          count_where-single (of_host_kind item.host item.kind) (record stamped { id = t.next_id }),
        )))
Effect-budget t item stamped max skip out w h e =
    subst (λ (o : Result FrontierError Bool × Db). rows_of item o.1.table ≤ max) (sym e) h
Effect-budget t item stamped max (revive r) out w h e =
    subst (λ (o : Result FrontierError Bool × Db). rows_of item o.1.table ≤ max) (sym e.0)
      (rw
        (count_where-update (of_host_kind item.host item.kind) (unchanged r) (reactivated stamped)
          t.rows (λ q. reactivated-of_host_kind stamped q item.host item.kind))
        h)

decide_insert : (rd rf b : Bool) (o : Option FrontierItem) → decide rd rf b o ≡ insert → b ≡ true
decide_insert rd rf b o e = ground arith

-- On a valid table without interference, a host and kind with at most `max` rows has at most `max`
-- rows after `EnqueueBudgeted` with that budget for an item of theirs, whatever the item's key.
pub enqueue_budgeted_bound :
    (d : Dialect) (hostname : Text → Option Text) (item : FrontierItem) (t : Table) (max : ℕ)
    → IsValid t
    → is_empty item.dedup_key ≡ false
    → rows_of item t ≤ max
    → rows_of item (enqueue_budgeted d hostname item (some max) (quiet t)).1.table ≤ max
unfolding enqueue_budgeted
enqueue_budgeted_bound d hostname item t max v key h =
    Effect-budget t item (stamp hostname item) max
      (decide true true (within t item (some max)) (key_at item.dedup_key t))
      (enqueue_with d hostname item (some max) true true (quiet t))
      (decide_insert true true (within t item (some max)) (key_at item.dedup_key t)) h
      (enqueue_outcome d hostname item t (some max) true true v key)
