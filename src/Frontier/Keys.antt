-- ===== src/Frontier/Keys.antt =====
-- internal/frontier: the keys that the table holds. Peers only add rows to it, since no operation of
-- the frontier removes one, and no fault reads like a clash on the unique index.
use ardvark.Prelude.{
  ℕ, leb, ◌==◌, ◌≡◌, refl, ◌∙◌, inl, inr, Bool, true, false, List, [], ◌∷◌, ◌++◌, Option, none,
  some, Text, text_eq, is_empty, any, update_where, Bool-cases, Option-cases, arith, if◌then◌else◌,
  not, subst, text_eq_refl,
}
use ardvark.Store.Models.{FrontierItem}
use ardvark.Frontier.Db.{
  Table, Event, Db, M, Result, ok, err, DbError, message, pure, fail, handle, on_ok, ◌>>=◌,
  statement, first, count, update, create, insert_row, first_row, count_rows, update_rows, fault_of,
  peers_of, later,
}
use ardvark.Frontier.Config.{Dialect, FrontierError, no_dedup_key, driver, is_unique_constraint_err}
use ardvark.Frontier.Enqueue.{
  stamp, reactivated, enqueue_with, has_key, of_host_kind, unchanged, may_reactivate, admitted,
  store, looked_up, counted, updated, reactivate, created,
}

abbrev pub Has : Text → Table → Type 0
Has key t = any (has_key key) t.rows ≡ true

abbrev pub Grows : Table → Table → Type 0
Grows t u = (key : Text) → Has key t → Has key u

-- What is assumed of the statements to come.
abbrev pub Calm : List Event → Type 0
Calm [] = Unit {0}
Calm (e ∷ es) =
    ((t : Table) → Grows t (e.peers t))
    × ((text : Text) → e.fault ≡ some text → is_unique_constraint_err (some (message text)) ≡ false)
    × Calm es

-- From one database to a later one.
pub record IsGrown (db after : Db) : Type 0 where
  pub calm : Calm after.world
  pub grows : Grows db.table after.table

abbrev pub Adds : {E A : Type 0} → M E A → Type 0
Adds m = (db : Db) → Calm db.world → IsGrown db (m db).1

pub IsGrown-same : (db : Db) → Calm db.world → IsGrown db db
IsGrown-same db h = record { calm = h; grows = λ key has. has }

pub IsGrown-then : (a b c : Db) → IsGrown a b → IsGrown b c → IsGrown a c
IsGrown-then a b c g h = record { calm = h.calm; grows = λ key has. h.grows key (g.grows key has) }

Adds-pure : (E : Type 0) {A : Type 0} (a : A) → Adds {E = E} (pure a)
Adds-pure E a db h = IsGrown-same db h

Adds-fail : {E : Type 0} (A : Type 0) (e : E) → Adds {A = A} (fail e)
Adds-fail A e db h = IsGrown-same db h

Adds-if :
    {E A : Type 0} (b : Bool) (m n : M E A) → Adds m → Adds n → Adds (λ db. (if b then m else n) db)
Adds-if true m n hm hn = hm
Adds-if false m n hm hn = hn

pub Adds-handle :
    {E F A B : Type 0} (m : M E A) (k : Result E A → M F B)
    → Adds m
    → ((r : Result E A) → Adds (k r))
    → Adds (handle m k)
Adds-handle m k hm hk db h =
    let g = hm db h in IsGrown-then db (m db).1 (handle m k db).1 g (hk (m db).0 (m db).1 g.calm)

Calm-later : (world : List Event) → Calm world → Calm (later world)
Calm-later [] h = tt
Calm-later (e ∷ es) h = h.2

peers_of-Grows : (world : List Event) (t : Table) → Calm world → Grows t (peers_of world t)
peers_of-Grows [] t h = λ key has. has
peers_of-Grows (e ∷ es) t h = h.0 t

fault_of-Calm :
    (world : List Event) (text : Text)
    → Calm world
    → fault_of world ≡ some text
    → is_unique_constraint_err (some (message text)) ≡ false
fault_of-Calm [] text h e = cc
fault_of-Calm (v ∷ vs) text h e = h.1 text e

Adds-statement :
    {A : Type 0} (run : Table → Result DbError A × Table)
    → ((t : Table) → Grows t (run t).1)
    → Adds (statement run)
unfolding statement
Adds-statement run step db h =
    let t = peers_of db.world db.table in
    let p = peers_of-Grows db.world db.table h in
    elim (Option-cases (fault_of db.world)) [
      | inl e ↦
          rw e (record { calm = Calm-later db.world h; grows = λ key has. step t key (p key has) })
      | inr (text, e) ↦ rw e (record { calm = Calm-later db.world h; grows = p })
    ]

Adds-first : (p : FrontierItem → Bool) → Adds (first p)
unfolding first
Adds-first p = Adds-statement (first_row p) (λ t key has. has)

Adds-count : (p : FrontierItem → Bool) → Adds (count p)
unfolding count
Adds-count p = Adds-statement (count_rows p) (λ t key has. has)

any-update :
    (key : Text) (p : FrontierItem → Bool) (f : FrontierItem → FrontierItem)
    (rows : List FrontierItem)
    → ((r : FrontierItem) → (f r).dedup_key ≡ r.dedup_key)
    → any (has_key key) (update_where p f rows) ≡ any (has_key key) rows
unfolding any update_where
any-update key p f [] h = refl
any-update key p f (r ∷ rows) h = elim (Bool-cases (p r)) [
  | inl e ↦ rw (e, h r, any-update key p f rows h) refl
  | inr e ↦ rw (e, any-update key p f rows h) refl
]

Adds-update :
    (p : FrontierItem → Bool) (f : FrontierItem → FrontierItem)
    → ((r : FrontierItem) → (f r).dedup_key ≡ r.dedup_key)
    → Adds (update p f)
unfolding update
Adds-update p f h =
    Adds-statement (update_rows p f) (λ t key has. any-update key p f t.rows h ∙ has)

any-append :
    (key : Text) (rows more : List FrontierItem)
    → any (has_key key) rows ≡ true
    → any (has_key key) (rows ++ more) ≡ true
unfolding any
any-append key [] more h = cc
any-append key (r ∷ rows) more h = ground (arith, any-append key rows more)

any-last :
    (key : Text) (rows : List FrontierItem) (r : FrontierItem)
    → text_eq r.dedup_key key ≡ true
    → any (has_key key) (rows ++ r ∷ []) ≡ true
unfolding any
any-last key [] r h = rw h refl
any-last key (q ∷ rows) r h = ground (arith, any-last key rows r h)

insert_row-Grows :
    (conflict : Text) (item : FrontierItem) (t : Table) → Grows t (insert_row conflict item t).1
insert_row-Grows conflict item t key has = elim (Bool-cases (any (has_key item.dedup_key) t.rows)) [
  | inl e ↦ rw e has
  | inr e ↦ rw e (any-append key t.rows _ has)
]

-- An INSERT that succeeds, or clashes, leaves its key.
abbrev Stored : Text → Result DbError FrontierItem → Table → Type 0
Stored key (ok row) t = Has key t
Stored key (err e) t = is_unique_constraint_err (some e) ≡ true → Has key t

insert_row-Stored :
    (conflict : Text) (item : FrontierItem) (t : Table)
    → Stored item.dedup_key (insert_row conflict item t).0 (insert_row conflict item t).1
insert_row-Stored conflict item t = elim (Bool-cases (any (has_key item.dedup_key) t.rows)) [
  | inl e ↦ rw e (λ u. e)
  | inr e ↦ rw e (
      any-last item.dedup_key t.rows (record item { id = t.next_id }) (text_eq_refl item.dedup_key))
]

create-Stored :
    (conflict : Text) (item : FrontierItem) (db : Db)
    → Calm db.world
    → Stored item.dedup_key (create conflict item db).0 (create conflict item db).1.table
unfolding create statement
create-Stored conflict item db h = elim (Option-cases (fault_of db.world)) [
  | inl e ↦ rw e (insert_row-Stored conflict item (peers_of db.world db.table))
  | inr (text, e) ↦ rw e (λ u. absurd (clash text e u))
]
  where
    clash :
        (text : Text)
        → fault_of db.world ≡ some text
        → is_unique_constraint_err (some (message text)) ≡ true
        → ⊥
    clash text e u = ground (arith, fault_of-Calm db.world text h e, u)

Adds-create : (conflict : Text) (item : FrontierItem) → Adds (create conflict item)
unfolding create
Adds-create conflict item =
    Adds-statement (insert_row conflict item) (insert_row-Grows conflict item)

module _ (d : Dialect) (hostname : Text → Option Text) where
  module _ (item : FrontierItem) (rd rf : Bool) where
    abbrev stamped : FrontierItem
    stamped = stamp hostname item

    reactivated-key : (r : FrontierItem) → (reactivated stamped r).dedup_key ≡ r.dedup_key
    unfolding reactivated
    reactivated-key r = refl

    stamp-key : stamped.dedup_key ≡ item.dedup_key
    unfolding stamp
    stamp-key = refl

    Adds-updated : (r : Result DbError ℕ) → Adds (updated r)
    Adds-updated (err e) = Adds-fail Bool (driver e)
    Adds-updated (ok n) = Adds-pure FrontierError (not (n == 0))

    Adds-reactivate : (r : Result DbError FrontierItem) → Adds (reactivate stamped rd rf r)
    Adds-reactivate (err e) = Adds-pure FrontierError false
    Adds-reactivate (ok row) =
        Adds-if (may_reactivate rd rf row.status)
          (handle (update (unchanged row) (reactivated stamped)) updated) (pure false)
          (Adds-handle (update (unchanged row) (reactivated stamped)) updated
            (Adds-update (unchanged row) (reactivated stamped) reactivated-key) Adds-updated)
          (Adds-pure FrontierError false)

    Adds-created : (r : Result DbError FrontierItem) → Adds (created stamped rd rf r)
    Adds-created (ok row) = Adds-pure FrontierError true
    Adds-created (err e) =
        Adds-if (is_unique_constraint_err (some e))
          (handle (first (has_key stamped.dedup_key)) (reactivate stamped rd rf)) (fail (driver e))
          (Adds-handle (first (has_key stamped.dedup_key)) (reactivate stamped rd rf)
            (Adds-first (has_key stamped.dedup_key)) Adds-reactivate)
          (Adds-fail Bool (driver e))

    Adds-looked_up : (r : Result DbError FrontierItem) → Adds (looked_up r)
    Adds-looked_up (err e) = Adds-pure FrontierError false
    Adds-looked_up (ok row) = Adds-pure FrontierError true

    Adds-counted : (max : ℕ) (r : Result DbError ℕ) → Adds (counted stamped max r)
    Adds-counted max (err e) = Adds-fail Bool (driver e)
    Adds-counted max (ok n) =
        Adds-if (leb max n) (handle (first (has_key stamped.dedup_key)) looked_up) (pure true)
          (Adds-handle (first (has_key stamped.dedup_key)) looked_up
            (Adds-first (has_key stamped.dedup_key)) Adds-looked_up)
          (Adds-pure FrontierError true)

    Adds-admitted : (budget : Option ℕ) → Adds (admitted stamped budget)
    Adds-admitted none = Adds-pure FrontierError true
    Adds-admitted (some max) =
        Adds-handle (count (of_host_kind stamped.host stamped.kind)) (counted stamped max)
          (Adds-count (of_host_kind stamped.host stamped.kind)) (Adds-counted max)

    Adds-stored : (r : Result FrontierError Bool) → Adds (on_ok (store d hostname stamped rd rf) r)
    Adds-stored (err e) = Adds-fail Bool e
    Adds-stored (ok false) = Adds-pure FrontierError false
    Adds-stored (ok true) =
        Adds-handle (create d.conflict stamped) (created stamped rd rf)
          (Adds-create d.conflict stamped) Adds-created

    pub Adds-enqueue_with : (budget : Option ℕ) → Adds (enqueue_with d hostname item budget rd rf)
    unfolding enqueue_with
    Adds-enqueue_with budget =
        Adds-if (is_empty item.dedup_key) (fail no_dedup_key)
          (admitted stamped budget >>= store d hostname stamped rd rf) (Adds-fail Bool no_dedup_key)
          (Adds-handle (admitted stamped budget) (on_ok (store d hostname stamped rd rf))
            (Adds-admitted budget) Adds-stored)

    created-Has :
        (r : Result DbError FrontierItem) (db : Db)
        → Calm db.world
        → Stored stamped.dedup_key r db.table
        → (b : Bool) → (created stamped rd rf r db).0 ≡ ok b
        → Has stamped.dedup_key (created stamped rd rf r db).1.table
    created-Has (ok row) db h has b e = has
    created-Has (err x) db h has b e = elim (Bool-cases (is_unique_constraint_err (some x))) [
      | inl u ↦ (Adds-created (err x) db h).grows stamped.dedup_key (has u)
      | inr n ↦ absurd (ground (arith, n, e))
    ]

    stored-Has :
        (db : Db)
        → Calm db.world
        → (b : Bool) → (enqueue_with d hostname item none rd rf db).0 ≡ ok b
        → Has item.dedup_key (enqueue_with d hostname item none rd rf db).1.table
    unfolding enqueue_with
    stored-Has db h b e = elim (Bool-cases (is_empty item.dedup_key)) [
      | inl y ↦ absurd (ground (arith, y, e))
      | inr n ↦ rw n (
          subst (λ k. Has k (handle (create d.conflict stamped) (created stamped rd rf) db).1.table)
            stamp-key
            (created-Has (create d.conflict stamped db).0 (create d.conflict stamped db).1
              (Adds-create d.conflict stamped db h).calm (create-Stored d.conflict stamped db h) b
              (ground (arith, n, e))))
    ]

    -- Whatever peers that only add keys do in between, and whatever faults occur that do not read like
    -- a clash on the unique index, an `Enqueue`, `Ensure` or `Resume` takes no key from the table,
    -- and where it reports no error the table holds the item's key.
    pub enqueue_with-Has :
        (db : Db)
        → Calm db.world
        → IsGrown db (enqueue_with d hostname item none rd rf db).1
          × ((b : Bool)
              → (enqueue_with d hostname item none rd rf db).0 ≡ ok b
              → Has item.dedup_key (enqueue_with d hostname item none rd rf db).1.table)
    enqueue_with-Has db h = (Adds-enqueue_with none db h, stored-Has db h)
