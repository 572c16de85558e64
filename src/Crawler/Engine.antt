-- ===== src/Crawler/Engine.antt =====
-- internal/crawler/engine.go: `process`, which takes an item from its handler's outcome to the row
-- in the frontier, and what it uses. The handlers are an argument; the sleep and the log record
-- are part of the result.
use ardvark.Prelude.{
  ℕ, suc, ltb, Bool, false, ◌||◌, [], ◌∷◌, ◌++◌, Option, none, some, Text, codes, text_eq,
  if◌then◌else◌,
}
use ardvark.Store.Models.{
  FrontierItem, kind_page_fetch, kind_host_probe, kind_catalog_fetch, kind_artifact_fetch,
  kind_registry_harvest,
}
use ardvark.Frontier.Db.{Db, Result, ok, err}
use ardvark.Frontier.Config.{Frontier, FrontierError, lease_lost}
use ardvark.Frontier.Release.{complete, requeue, fail_item}
use ardvark.Failure.{Failure, transient}
use ardvark.Crawler.Backoff.{backoff_duration}

abbrev pub Handler : Type 0
Handler = FrontierItem → Db → Option Failure × Db

pub record Handlers : Type 0 where
  pub page_fetch : Handler
  pub host_probe : Handler
  pub catalog_fetch : Handler
  pub artifact_fetch : Handler
  pub registry_harvest : Handler

-- `%q`, for a text of printable ASCII without quotes and backslashes.
abbrev pub quoted : Text → Text
quoted s = 34 ∷ s ++ 34 ∷ []

abbrev pub unknown_kind : FrontierItem → Failure
unknown_kind item = record {
  text = codes "crawler: unknown frontier item kind " ++ quoted item.kind;
  canceled = false;
  classified = none;
  timeout = false;
}

unfoldable pub handle_item : Handlers → Handler
handle_item hs item =
    if text_eq item.kind kind_page_fetch
    then hs.page_fetch item
    else if text_eq item.kind kind_host_probe
    then hs.host_probe item
    else if text_eq item.kind kind_catalog_fetch
    then hs.catalog_fetch item
    else if text_eq item.kind kind_artifact_fetch
    then hs.artifact_fetch item
    else if text_eq item.kind kind_registry_harvest
    then hs.registry_harvest item
    else λ db. (some (unknown_kind item), db)

-- `Engine` with `Options`, as far as `process` and `Run` read it; `driver` is `cfg.Storage.Driver`.
pub record Engine : Type 0 where
  pub frontier : Frontier
  pub handlers : Handlers
  pub driver : Text
  pub configured_concurrency : ℕ
  pub configured_attempts : ℕ
  pub backoff_base : ℕ

abbrev pub default_max_attempts : ℕ
default_max_attempts = 3

abbrev pub default_concurrency : ℕ
default_concurrency = 8

unfoldable pub max_attempts : Engine → ℕ
max_attempts e = if ltb 0 e.configured_attempts then e.configured_attempts else default_max_attempts

unfoldable pub concurrency : Engine → ℕ
concurrency e =
    if ltb 0 e.configured_concurrency then e.configured_concurrency else default_concurrency

unfoldable pub is_sqlite_driver : Text → Bool
unfolding text_eq
is_sqlite_driver driver =
    text_eq driver [] || text_eq driver (codes "sqlite") || text_eq driver (codes "sqlite3")

-- The record that `process` logs last; `requeued` stands for none.
pub data Outcome : Type 0 where
  item_complete discarded requeued : Outcome
  complete_failed requeue_failed record_failed : FrontierError → Outcome
  item_failed : Bool → Outcome

-- The outcome, the time slept, and the database.
abbrev pub Processed : Type 0
Processed = Outcome × ℕ × Db

-- `if cerr != nil { if errors.Is(cerr, ErrLeaseLost) … }`.
abbrev pub settled :
    {A : Type 0} → Outcome → (FrontierError → Outcome) → ℕ → Result FrontierError A × Db → Processed
settled good bad slept (ok a, db) = (good, slept, db)
settled good bad slept (err lease_lost, db) = (discarded, slept, db)
settled good bad slept (err e, db) = (bad e, slept, db)

abbrev pub allowed_attempts : Engine → Failure → ℕ
allowed_attempts e failure = if transient failure then max_attempts e else 1

unfoldable pub pause : Engine → FrontierItem → Failure → ℕ
unfolding backoff_duration
pause e item failure =
    if transient failure
    then if ltb 0 e.backoff_base then backoff_duration (suc item.attempts) e.backoff_base else 0
    else 0

-- After the handler, with `done` for `ctx.Err() != nil`.
unfoldable pub settle : Engine → Bool → FrontierItem → Option Failure × Db → Processed
unfolding complete requeue fail_item max_attempts pause
settle e done item (none, db) =
    settled item_complete complete_failed 0 (complete e.frontier item.id db)
settle e done item (some failure, db) =
    if done || failure.canceled
    then settled requeued requeue_failed 0 (requeue e.frontier item.id db)
    else settled (item_failed (transient failure)) record_failed (pause e item failure)
        (fail_item e.frontier item.id (some failure.text) (allowed_attempts e failure) db)

unfoldable pub process : Engine → Bool → FrontierItem → Db → Processed
unfolding handle_item settle
process e done item db = settle e done item (handle_item e.handlers item db)
