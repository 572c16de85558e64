-- ===== src/Store/Models.antt =====
-- internal/store/models.go: the row of the table `frontier_items`, with the constants for its
-- columns. `*uint` and `*time.Time` are options; `CreatedAt` and `UpdatedAt`, which nothing reads,
-- are left out; depth, priority and attempts are never negative.
use ardvark.Prelude.{ℕ, Bool, true, false, Option, Text, codes}

abbrev pub kind_page_fetch : Text
kind_page_fetch = codes "page_fetch"

abbrev pub kind_host_probe : Text
kind_host_probe = codes "host_probe"

abbrev pub kind_catalog_fetch : Text
kind_catalog_fetch = codes "catalog_fetch"

abbrev pub kind_artifact_fetch : Text
kind_artifact_fetch = codes "artifact_fetch"

abbrev pub kind_registry_harvest : Text
kind_registry_harvest = codes "registry_harvest"

-- The column `status`; `unset` is the empty string of an item that no one has stored yet.
pub data Status : Type 0 where
  unset pending in_flight done failed : Status

abbrev pub is_unset : Status → Bool
is_unset unset = true
is_unset _ = false

abbrev pub is_pending : Status → Bool
is_pending pending = true
is_pending _ = false

abbrev pub is_in_flight : Status → Bool
is_in_flight in_flight = true
is_in_flight _ = false

abbrev pub is_done : Status → Bool
is_done done = true
is_done _ = false

abbrev pub is_failed : Status → Bool
is_failed failed = true
is_failed _ = false

abbrev pub frontier_dedup_version : ℕ
frontier_dedup_version = 2

abbrev pub host_shard_count : ℕ
host_shard_count = 8192

pub record FrontierItem : Type 0 where
  pub id : ℕ
  pub run_id : ℕ
  pub kind : Text
  pub url : Text
  pub host : Text
  pub depth : ℕ
  pub priority : ℕ
  pub status : Status
  pub attempts : ℕ
  pub last_error : Text
  pub dedup_key : Text
  pub dedup_version : ℕ
  pub host_shard : ℕ
  pub parent_catalog_id : Option ℕ
  pub artifact_entry_id : Option ℕ
  pub registry_entry_id : Option ℕ
  pub registry_catalog_id : Option ℕ
  pub registry_row_id : Option ℕ
  pub probe_method : Text
  pub leased_until : Option ℕ
  pub worker_id : Text
