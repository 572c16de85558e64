-- ===== src/Store/Statements.antt =====
-- The database as internal/store uses it: single statements, each atomic, and transactions. What
-- happens at each statement to come is a list, as in the module on the database of the frontier:
-- peers may first change the tables in any way, and the driver may report a fault. Peers do not come
-- in between the statements of a transaction, and one that fails leaves nothing behind.
use ardvark.Prelude.{List, [], ◌∷◌, Bool, Option, none, some, Text, find}
use ardvark.Failure.{Failure}
use ardvark.Frontier.Db.{Result, ok, err}
use ardvark.Effects.{Act, throw, try}
use ardvark.Store.Tables.{Tables, Rows}

pub record Event : Type 0 where
  pub peers : Tables → Tables
  pub fault : Option Failure

pub record Store : Type 0 where
  pub tables : Tables
  pub world : List Event

-- `ErrNotFound` with its text, and any other error, which keeps the text of the driver's.
pub data StoreError : Type 0 where
  missing : Text → StoreError
  broken : Failure → StoreError

abbrev pub S : Type 0 → Type 0
S A = Act Store StoreError A

abbrev pub fault_of : List Event → Option Failure
fault_of [] = none
fault_of (e ∷ es) = e.fault

abbrev pub peers_of : List Event → Tables → Tables
peers_of [] t = t
peers_of (e ∷ es) t = e.peers t

abbrev pub later : List Event → List Event
later [] = []
later (e ∷ es) = es

abbrev pub after :
    {A : Type 0} → List Event → Result StoreError A × Tables → Result StoreError A × Store
after es (r, t) = (r, record { tables = t; world = es })

abbrev pub faulty :
    {A : Type 0}
    → Tables
    → Option Failure
    → Result StoreError A × Tables
    → Result StoreError A × Tables
faulty t none out = out
faulty t (some failure) out = (err (broken failure), t)

-- A statement inside a transaction, which sees no peers.
unfoldable pub inside : {A : Type 0} → (Tables → Result StoreError A × Tables) → S A
inside run s = after (later s.world) (faulty s.tables (fault_of s.world) (run s.tables))

-- A statement of its own.
unfoldable pub statement : {A : Type 0} → (Tables → Result StoreError A × Tables) → S A
unfolding inside
statement run s = inside run (record s { tables = peers_of s.world s.tables })

abbrev pub rolled_back :
    {A : Type 0} → Tables → Result StoreError A × Store → Result StoreError A × Store
rolled_back t (ok a, s) = (ok a, s)
rolled_back t (err e, s) = (err e, record s { tables = t })

abbrev pub committed : {A : Type 0} → Result StoreError A → S A
committed (ok a) = inside (λ t. (ok a, t))
committed (err e) = throw e

abbrev pub within : {A : Type 0} → S A → Result StoreError (Unit {0}) → S A
within body (ok begun) s = rolled_back s.tables (try body committed s)
within body (err e) s = (err e, s)

-- `s.DB.Transaction(func(tx) { … })`: what fails, the commit included, is rolled back.
unfoldable pub transaction : {A : Type 0} → S A → S A
unfolding statement inside
transaction body = try (statement (λ t. (ok tt, t))) (within body)

-- `SELECT * FROM … WHERE p ORDER BY id LIMIT 1`; none for `gorm.ErrRecordNotFound`.
abbrev pub first_row :
    {A : Type 0} → (Tables → Rows A) → (A → Bool) → Tables → Result StoreError (Option A) × Tables
first_row table p t = (ok (find p (table t).rows), t)
