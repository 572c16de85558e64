-- ===== src/Frontier/Samples.antt =====
-- Concrete tables and workers, for the tests.
use ardvark.Prelude.{
  ◌≡◌, refl, true, [], ◌∷◌, Option, none, some, Text, codes, arith, text_eq, text_eq-false,
}
use ardvark.Store.Models.{FrontierItem, unset, pending, in_flight, done, kind_page_fetch}
use ardvark.Frontier.Db.{Table, message}
use ardvark.Frontier.Config.{Frontier, Dialect, is_unique_constraint_err}
use ardvark.Frontier.Invariant.{IsValid}

abbrev pub blank : FrontierItem
blank = record {
  id = 0;
  run_id = 7;
  kind = kind_page_fetch;
  url = codes "https://a.example/";
  host = codes "a.example";
  depth = 1;
  priority = 0;
  status = unset;
  attempts = 0;
  last_error = [];
  dedup_key = codes "k3";
  dedup_version = 0;
  host_shard = 0;
  parent_catalog_id = none;
  artifact_entry_id = none;
  registry_entry_id = none;
  registry_catalog_id = none;
  registry_row_id = none;
  probe_method = [];
  leased_until = none;
  worker_id = [];
}

-- Row 1 is pending, row 2 is held by the worker `b` until 100, and row 3 is done.
abbrev pub waiting : FrontierItem
waiting = record blank { id = 1; status = pending; dedup_key = codes "k1"; attempts = 1 }

abbrev pub flying : FrontierItem
flying = record blank {
  id = 2;
  status = in_flight;
  dedup_key = codes "k2";
  leased_until = some 100;
  worker_id = codes "b";
  attempts = 2;
}

abbrev pub finished : FrontierItem
finished = record blank { id = 3; status = done; dedup_key = codes "k3" }

abbrev pub queue : Table
queue = record { rows = waiting ∷ flying ∷ finished ∷ []; next_id = 4 }

abbrev pub worker : Text → Frontier
worker name = record { lease_duration = 600; worker_id = name; shard_count = 0; shard_index = 0 }

abbrev pub sqlite_conflict : Text
sqlite_conflict = codes "UNIQUE constraint failed: frontier_items.dedup_key"

pub sqlite_reports_conflict : is_unique_constraint_err (some (message sqlite_conflict)) ≡ true
unfolding is_unique_constraint_err
sqlite_reports_conflict = refl

abbrev pub sqlite : Dialect
sqlite = record {
  name = codes "sqlite";
  conflict = sqlite_conflict;
  reports_conflict = sqlite_reports_conflict;
}

abbrev pub no_hosts : Text → Option Text
no_hosts url = none

pub queue-IsValid : IsValid queue
unfolding text_eq
queue-IsValid = record {
  ids = omega arith;
  keys = (
    (text_eq-false _ _ refl, (text_eq-false _ _ refl, tt)),
    ((text_eq-false _ _ refl, tt), (tt, tt)),
  );
  leases = (
    record { held = λ h. cc; released = λ _. (refl, refl) },
    (
      record { held = λ _ e. cc; released = λ h. cc },
      (record { held = λ h. cc; released = λ _. (refl, refl) }, tt),
    ),
  );
  shards = omega arith;
}
