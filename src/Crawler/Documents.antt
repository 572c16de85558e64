-- ===== src/Crawler/Documents.antt =====
-- internal/crawler/handlers.go: `handleCatalogFetch` and `handleArtifactFetch`.
use ardvark.Prelude.{ℕ, [], Option, none, some, Text, if◌then◌else◌}
use ardvark.Failure.{transient}
use ardvark.Effects.{return, throw, ◌>>◌}
use ardvark.Store.Models.{FrontierItem}
use ardvark.Store.Tables.{Artifact, fetch_ok, fetch_error, probe_outcome_error}
use ardvark.Store.Catalogs.{save_artifact}
use ardvark.Ard.Report.{transport_checks}
use ardvark.Probe.{Fetched, FetchFailure, Response, fetched, broken}
use ardvark.Crawler.World.{H, Crawl, Got, got, skip, failed, on_store, emit}
use ardvark.Crawler.Rows.{fetch_error_detail}
use ardvark.Crawler.Catalogs.{Found, process_catalog}
use ardvark.Crawler.Requests.{no_host, process_found}

abbrev pub uint_or_zero : Option ℕ → ℕ
uint_or_zero none = 0
uint_or_zero (some n) = n

abbrev pub typed_status : Option (ℕ × Text) → ℕ
typed_status none = 0
typed_status (some (status, text)) = status

module _ (c : Crawl) where
  abbrev pub catalog_found : FrontierItem → Fetched → Text → Found
  catalog_found item f host = record {
    raw = f.body;
    content_hash = c.sha256 f.body;
    host = host;
    source_url = f.url;
    parent_catalog_id = item.parent_catalog_id;
    probe_method = item.probe_method;
    depth = item.depth;
    transport_checks = transport_checks c.names.unicode f.content_type f.body c.max_body_bytes;
  }

  abbrev pub served_by : FrontierItem → Fetched → Option Text → H (Unit {0})
  served_by item f none = throw no_host
  served_by item f (some host) = process_found c (catalog_found item f host)

  abbrev pub report_failure : FrontierItem → FetchFailure → H (Unit {0})
  report_failure item e =
      if transient e.failure
      then return tt
      else emit (record {
        host = item.host;
        method = item.probe_method;
        outcome = probe_outcome_error;
        verdict = none;
        detail = fetch_error_detail e;
      })

  abbrev pub catalog_response : FrontierItem → Response → H (Unit {0})
  catalog_response item (broken e) = report_failure item e >> throw e.failure
  catalog_response item (fetched f) = served_by item f (c.producer.host_of f.url)

  -- `handleCatalogFetch`.
  unfoldable pub handle_catalog_fetch : FrontierItem → H (Unit {0})
  unfolding process_catalog transport_checks fetch_error_detail
  handle_catalog_fetch item = catalog_response item (c.get_well_known item.url)

  abbrev pub artifact_of : FrontierItem → Fetched → Artifact
  artifact_of item f = record {
    id = 0;
    entry_id = uint_or_zero item.artifact_entry_id;
    url = f.url;
    http_status = f.status;
    content_type = f.content_type;
    raw_body = f.body;
    content_hash = c.sha256 f.body;
    fetched_at = c.now;
    fetch_status = fetch_ok;
  }

  abbrev pub errored_artifact : FrontierItem → FetchFailure → Artifact
  errored_artifact item e = record {
    id = 0;
    entry_id = uint_or_zero item.artifact_entry_id;
    url = item.url;
    http_status = typed_status e.typed;
    content_type = [];
    raw_body = [];
    content_hash = [];
    fetched_at = c.now;
    fetch_status = fetch_error;
  }

  abbrev pub artifact_got : FrontierItem → Got → H (Unit {0})
  artifact_got item skip = return tt
  artifact_got item (failed e) =
      if transient e.failure
      then throw e.failure
      else on_store (save_artifact (errored_artifact item e))
  artifact_got item (got f) = on_store (save_artifact (artifact_of item f))

  -- `handleArtifactFetch`.
  unfoldable pub handle_artifact_fetch : FrontierItem → H (Unit {0})
  unfolding save_artifact
  handle_artifact_fetch item = artifact_got item (c.get item.url)
