-- ===== src/Config/Examples.antt =====
-- Tests of internal/config, and its theorem at a concrete file.
use ardvark.Prelude.{ℕ, ◌<◌, ◌≡◌, refl, true, false, [], ◌∷◌, ◌++◌, none, some, codes, has_prefix}
use ardvark.Frontier.Db.{ok, err}
use ardvark.Frontier.Config.{Frontier}
use ardvark.Frontier.Dequeue.{in_shard}
use ardvark.Store.Models.{FrontierItem, host_shard_count}
use ardvark.Config.{Config, defaults}
use ardvark.Config.Loading.{
  Outside, contents, passes, failed_at, causes, no_causes, validate_semantics,
  friendly_validation_error, load, validate, anchor_paths,
}
use ardvark.Config.Places.{Places, resolve_path}
use ardvark.Config.Fleet.{load_lem}

abbrev with_worker : ℕ → ℕ → Config
with_worker index count =
    let c = defaults in
    let k = c.crawler in
    record c { crawler = record k { worker = record { index = index; count = count } } }

-- A file that sets the worker, in a directory.
abbrev placed_at : ℕ → ℕ → Outside
placed_at index count = record {
  read_file = λ path. contents (codes "{}");
  schema = ok (λ raw. passes);
  renormalize = λ raw. ok raw;
  decode_over = λ base raw. ok (with_worker index count);
  join_path = λ base path. base ++ 47 ∷ path;
  dir = λ path. codes "/etc";
  is_abs = λ path. has_prefix path (codes "/");
}

abbrev third : Config
third =
    let c = with_worker 2 4 in
    record c {
      storage = record { driver = codes "sqlite"; dsn = codes "/etc/ardvark.db" };
      log = record { file = codes "/etc/ardvark.jsonl"; level = codes "info" };
    }

third_of_four : load (placed_at 2 4) (codes "/etc/ardvark.json") ≡ ok third
unfolding load defaults validate validate_semantics anchor_paths
third_of_four = refl

abbrev worker : Frontier
worker = record { worker_id = codes "w"; lease_duration = 600; shard_index = 2; shard_count = 4 }

load_lem_example :
    (shard : ℕ) × (shard < host_shard_count)
    × ((r : FrontierItem) → r.host_shard ≡ shard → in_shard worker r ≡ true)
unfolding defaults
load_lem_example =
    load_lem (placed_at 2 4) (codes "/etc/ardvark.json") third worker third_of_four refl refl

out_of_range :
    validate_semantics (with_worker 4 4)
    ≡ err (codes "config: crawler.worker.index (4) must be less than crawler.worker.count (4)")
unfolding validate_semantics defaults
out_of_range = refl

two_failures :
    friendly_validation_error (
      failed_at [] [] [] (
        causes
          (failed_at (codes "log" ∷ codes "level" ∷ []) (codes "bad") [] no_causes)
          (causes (failed_at [] (codes "worse") [] no_causes) no_causes)))
    ≡ codes "config: config.log.level: bad; config: worse"
unfolding friendly_validation_error
two_failures = refl

abbrev at_home : Places
at_home = record {
  is_windows = false;
  os_config_dir = none;
  xdg_config_home = [];
  home_dir = some (codes "/home/a");
  is_file = λ path. has_prefix path (codes "/home");
  join_path = λ base path. base ++ 47 ∷ path;
}

found_at_home : resolve_path at_home [] ≡ codes "/home/a/.config/ardvark/ardvark.json"
unfolding resolve_path has_prefix
found_at_home = refl
