-- ===== src/Frontier/Config.antt =====
-- internal/frontier/frontier.go: the type `Frontier` with its options, the errors that its methods
-- return, and what it asks of the database driver.
use ardvark.Prelude.{
  ℕ, ltb, ◌≡◌, Bool, true, false, ◌||◌, List, [], ◌∷◌, Option, none, some, Text, codes, text_eq,
  contains, any, if◌then◌else◌,
}
use ardvark.Frontier.Db.{DbError, record_not_found, message}

-- Durations and times are in seconds.
pub record Frontier : Type 0 where
  pub lease_duration : ℕ
  pub worker_id : Text
  pub shard_count : ℕ
  pub shard_index : ℕ

-- `defaultLeaseSeconds`.
abbrev pub default_lease_seconds : ℕ
default_lease_seconds = 600

-- `type Option func(*Frontier)`.
abbrev pub Setting : Type 0
Setting = Frontier → Frontier

unfoldable pub with_lease_seconds : ℕ → Setting
with_lease_seconds seconds f = if ltb 0 seconds then record f { lease_duration = seconds } else f

unfoldable pub with_worker_id : Text → Setting
with_worker_id id f = record f { worker_id = id }

unfoldable pub with_worker_shard : ℕ → ℕ → Setting
with_worker_shard index count f =
    if ltb 1 count then record f { shard_count = count; shard_index = index } else f

abbrev apply_all : List Setting → Frontier → Frontier
apply_all [] f = f
apply_all (s ∷ ss) f = apply_all ss (s f)

-- `New`, given the text of `defaultWorkerID`.
unfoldable pub new : Text → List Setting → Frontier
new default_worker_id settings = apply_all settings (record {
  lease_duration = default_lease_seconds;
  worker_id = default_worker_id;
  shard_count = 0;
  shard_index = 0;
})

-- `driver` wraps an error of the database that is passed on.
pub data FrontierError : Type 0 where
  no_dedup_key not_found lease_lost : FrontierError
  driver : DbError → FrontierError

abbrev needles : List Text
needles =
    codes "UNIQUE constraint failed"
    ∷ codes "Duplicate entry"
    ∷ codes "duplicate key value"
    ∷ codes "SQLSTATE 23505"
    ∷ []

abbrev error_text : DbError → Text
error_text record_not_found = codes "record not found"
error_text (message text) = text

unfoldable pub is_unique_constraint_err : Option DbError → Bool
unfolding any contains
is_unique_constraint_err none = false
is_unique_constraint_err (some e) = any (contains (error_text e)) needles

-- The dialect: its name, and its text for a clash on a unique index, which is one of the shapes
-- that sqlite, mysql and postgres report.
pub record Dialect : Type 0 where
  pub name : Text
  pub conflict : Text
  pub reports_conflict : is_unique_constraint_err (some (message conflict)) ≡ true

unfoldable pub locking_supported : Dialect → Bool
unfolding text_eq
locking_supported d = text_eq d.name (codes "mysql") || text_eq d.name (codes "postgres")
