-- ===== src/Frontier/Db.antt =====
-- The database as internal/frontier uses it: the table `frontier_items` under single SQL
-- statements. Each statement is atomic. Before it runs, the peers that share the database may have
-- changed the table in any way, and the driver may report a fault; the list `world` says what
-- happens at each statement to come, and nothing happens once it is used up. A fault whose
-- statement took effect all the same is a fault with the effect among the peers' next changes.
use ardvark.Prelude.{
  ℕ, suc, Bool, false, List, [], ◌∷◌, ◌++◌, Option, none, some, Text, text_eq, find, count_where,
  update_where, any, if◌then◌else◌,
}
use ardvark.Store.Models.{FrontierItem}

-- Rows in the order of the primary key, which the database hands out.
pub record Table : Type 0 where
  pub rows : List FrontierItem
  pub next_id : ℕ

pub record Event : Type 0 where
  pub peers : Table → Table
  pub fault : Option Text
  pub locked : FrontierItem → Bool

pub record Db : Type 0 where
  pub table : Table
  pub world : List Event

pub data Result (E A : Type 0) : Type 0 where
  ok : A → Result E A
  err : E → Result E A

-- `gorm.ErrRecordNotFound`, and any other error of the driver by its text.
pub data DbError : Type 0 where
  record_not_found : DbError
  message : Text → DbError

abbrev pub M : Type 0 → Type 0 → Type 0
M E A = Db → Result E A × Db

abbrev pub pure : {E A : Type 0} → A → M E A
pure a db = (ok a, db)

abbrev pub fail : {E A : Type 0} → E → M E A
fail e db = (err e, db)

-- `r, err := m(); ...`: what follows sees the error.
abbrev pub handle : {E F A B : Type 0} → M E A → (Result E A → M F B) → M F B
handle m k db = let (r, db') = m db in k r db'

abbrev pub on_ok : {E A B : Type 0} → (A → M E B) → Result E A → M E B
on_ok k (ok a) = k a
on_ok k (err e) = fail e

-- `if err != nil { return …, err }` before what follows.
infixl 5 ◌>>=◌
abbrev pub ◌>>=◌ : {E A B : Type 0} → M E A → (A → M E B) → M E B
m >>= k = handle m (on_ok k)

abbrev finish : {A : Type 0} → List Event → Result DbError A × Table → Result DbError A × Db
finish es (r, t) = (r, record { table = t; world = es })

abbrev pub fault_of : List Event → Option Text
fault_of [] = none
fault_of (e ∷ es) = e.fault

abbrev pub peers_of : List Event → Table → Table
peers_of [] t = t
peers_of (e ∷ es) t = e.peers t

abbrev pub locked_of : List Event → FrontierItem → Bool
locked_of [] r = false
locked_of (e ∷ es) r = e.locked r

abbrev pub later : List Event → List Event
later [] = []
later (e ∷ es) = es

-- One statement: `run` acts on the table that the peers have left, unless there is a fault.
unfoldable pub statement : {A : Type 0} → (Table → Result DbError A × Table) → M DbError A
statement run db =
    let t = peers_of db.world db.table in
    finish (later db.world)
      (elim (fault_of db.world) [ none ↦ run t | some text ↦ (err (message text), t) ])

abbrev pub found : Option FrontierItem → Result DbError FrontierItem
found none = err record_not_found
found (some r) = ok r

-- `SELECT * … WHERE p ORDER BY id LIMIT 1`.
abbrev pub first_row : (FrontierItem → Bool) → Table → Result DbError FrontierItem × Table
first_row p t = (found (find p t.rows), t)

unfoldable pub first : (FrontierItem → Bool) → M DbError FrontierItem
unfolding statement
first p = statement (first_row p)

-- `SELECT COUNT(*) … WHERE p`.
abbrev pub count_rows : (FrontierItem → Bool) → Table → Result DbError ℕ × Table
count_rows p t = (ok (count_where p t.rows), t)

unfoldable pub count : (FrontierItem → Bool) → M DbError ℕ
unfolding statement
count p = statement (count_rows p)

-- `UPDATE … SET f WHERE p`, with the number of rows that `p` selects.
abbrev pub update_rows :
    (FrontierItem → Bool) → (FrontierItem → FrontierItem) → Table → Result DbError ℕ × Table
update_rows p f t = (ok (count_where p t.rows), record t { rows = update_where p f t.rows })

unfoldable pub update : (FrontierItem → Bool) → (FrontierItem → FrontierItem) → M DbError ℕ
unfolding statement
update p f = statement (update_rows p f)

-- `INSERT`, under the unique index on `dedup_key`; `conflict` is the driver's text for a clash.
abbrev pub insert_row : Text → FrontierItem → Table → Result DbError FrontierItem × Table
insert_row conflict item t =
    let row = record item { id = t.next_id } in
    if any (λ r. text_eq r.dedup_key item.dedup_key) t.rows
    then (err (message conflict), t)
    else (ok row, record { rows = t.rows ++ row ∷ []; next_id = suc t.next_id })

unfoldable pub create : Text → FrontierItem → M DbError FrontierItem
unfolding statement
create conflict item = statement (insert_row conflict item)
