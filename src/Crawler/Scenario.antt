-- ===== src/Crawler/Scenario.antt =====
-- A concrete engine with a catalog inside a catalog, tests of the handlers on it, and their theorems at
-- these inputs.
use ardvark.Prelude.{
  ℕ, ◌≡◌, ◌≢◌, ◌⊎◌, refl, Bool, true, false, List, [], ◌∷◌, Option, none, some, Text, codes,
  ascii_text, text_eq, length, arith,
}
use ardvark.Failure.{Failure}
use ardvark.Frontier.Db.{Db, ok}
use ardvark.Frontier.Lookup.{quiet}
use ardvark.Frontier.Samples.{queue, queue-IsValid, waiting, sqlite, no_hosts, worker}
use ardvark.Frontier.Invariant.{IsValid}
use ardvark.Frontier.Rely.{Holds}
use ardvark.Frontier.Enqueue.{enqueue_with}
use ardvark.Store.Models.{FrontierItem, kind_host_probe}
use ardvark.Store.Tables.{no_tables, from_catalog, Catalog, CatalogEntry}
use ardvark.Ard.Document.{Entry, pos}
use ardvark.Ard.Samples.{titled, plain_ascii}
use ardvark.Ard.Report.{valid}
use ardvark.Ard.Verify.{passes}
use ardvark.Ard.Inline.{null}
use ardvark.Probe.{Attempt, hit, well_known, fetched}
use ardvark.Registry.{answered}
use ardvark.Crawler.Fanout.{Producer}
use ardvark.Crawler.Engine.{Engine}
use ardvark.Crawler.World.{World, Crawl, skip, Document}
use ardvark.Crawler.Catalogs.{Found, process_catalog, process_one, follow_unchanged, entries_of}
use ardvark.Crawler.Requests.{process_found}
use ardvark.Crawler.Probing.{handle_host_probe}
use ardvark.Crawler.Harvesting.{process_item}
use ardvark.Crawler.Nesting.{process_catalog_lem}
use ardvark.Crawler.Leaves.{IsLeft}
use ardvark.Crawler.Recovery.{Reached, ReachedFrom, process_catalog-Reached}
use ardvark.Crawler.Unchanged.{follow_unchanged_lem}
use ardvark.Store.Catalogs.{entries_of_catalog}
use ardvark.Crawler.Followups.{AllFollowed}
use ardvark.Crawler.Probed.{AllQueued, KnownQueued, asked_recently, handle_host_probe-Queued}
use ardvark.Crawler.Valid.{process_item-IsValid}

abbrev producer : Producer
producer = record {
  dialect = sqlite;
  hostname = no_hosts;
  host_of = λ link. some (codes "a.example");
  digest = λ s. 107 ∷ s;
  run_id = 7;
  max_pages_per_domain = 4;
  max_depth = 2;
}

-- An entry that points to a catalog, and one that holds a catalog.
abbrev pointer : Entry
pointer =
    let e = titled (codes "p") in record e { entry_type = codes "application/ai-catalog+json" }

abbrev holder : Entry
holder =
    let e = titled (codes "h") in
    record e {
      entry_type = codes "application/ai-catalog+json";
      url = [];
      data_json = codes "inner";
    }

-- The document `inner` has the pointer alone, and any other document both entries.
abbrev entries_in : Bool → List Entry
entries_in true = pointer ∷ []
entries_in false = pointer ∷ holder ∷ []

abbrev decoded : Text → Document
decoded raw = record {
  catalog = record {
    spec_version = codes "1.0";
    entries = entries_in (text_eq raw (codes "inner"));
  };
  host_display_name = [];
  host_identifier = [];
}

abbrev found_at_a : Attempt
found_at_a = record {
  method = well_known;
  url = codes "https://a.example/.well-known/ai-catalog.json";
  http_status = 200;
  content_type = codes "application/json";
  outcome = hit;
  error_detail = [];
  catalog_urls = codes "https://a.example/c.json" ∷ [];
  retry_error = none;
}

abbrev crawl : Crawl
crawl = record {
  producer = producer;
  max_catalog_depth = 2;
  max_referral_depth = 1;
  page_limit = 3;
  harvest = true;
  fetch_artifacts = true;
  force = true;
  refresh_window = 60;
  max_body_bytes = pos 1000;
  now = 50;
  get = λ url. skip;
  get_well_known = λ url. fetched (record {
    url = url;
    status = 200;
    content_type = codes "application/json";
    body = codes "outer";
  });
  probe_host = λ host. found_at_a ∷ [];
  search = λ url n request. answered (record { results = []; referred = []; next_token = [] });
  names = record { unicode = ascii_text; to_ascii = plain_ascii; registrable = λ s. none };
  formats = record {
    decode = λ raw. ok null;
    encode = λ m. none;
    decode_catalog = λ raw. some (decoded raw).catalog;
    decode_identifiers = λ raw. none;
    validate = ok (λ raw. passes);
  };
  sha256 = λ s. s;
  decode_catalog = decoded;
  decode_block = λ raw. none;
  encode = λ m. none;
  encode_list = λ ts. [];
  urls = record { parse = λ s. none; resolve_reference = λ base ref. ref };
  fields = λ s. s ∷ [];
  parse_html = λ body. none;
}

abbrev outer : Found
outer = record {
  raw = codes "outer";
  content_hash = codes "outer";
  host = codes "a.example";
  source_url = codes "https://a.example/c.json";
  parent_catalog_id = none;
  probe_method = codes "well_known";
  depth = 0;
  transport_checks = [];
}

abbrev world : World
world = record {
  frontier = quiet queue;
  store = record { tables = no_tables; world = [] };
  events = [];
}

process_catalog_lem_example :
    process_catalog crawl 3 outer ≡ process_one crawl (process_found crawl) outer
process_catalog_lem_example = process_catalog_lem crawl 3 outer (omega arith)

process_catalog-Reached_example :
    IsLeft
      (λ (a : Unit {0}). ReachedFrom crawl (Reached crawl 2) outer world.store)
      world
      (process_catalog crawl 3 outer world)
process_catalog-Reached_example = process_catalog-Reached crawl 2 outer world refl tt

abbrev probing : FrontierItem
probing = record waiting { kind = kind_host_probe; url = [] }

handle_host_probe-Queued_example :
    IsLeft
      (λ (a : Unit {0}) t.
        AllQueued crawl (codes "a.example") t
        ⊎ (((asked_recently crawl probing world.store).0 ≡ ok true)
            × KnownQueued crawl (codes "a.example") (asked_recently crawl probing world.store).1 t))
      world
      (handle_host_probe crawl probing world)
handle_host_probe-Queued_example = handle_host_probe-Queued crawl probing world tt

-- The engine of a worker; its own handlers are not the ones that `process_item` runs.
abbrev idle : FrontierItem → Db → Option Failure × Db
idle item db = (none, db)

abbrev engine : Engine
engine = record {
  frontier = worker (codes "b");
  handlers = record {
    page_fetch = idle;
    host_probe = idle;
    catalog_fetch = idle;
    artifact_fetch = idle;
    registry_harvest = idle;
  };
  driver = codes "sqlite";
  configured_concurrency = 2;
  configured_attempts = 0;
  backoff_base = 1000;
}

process_item-IsValid_example :
    Holds IsValid (process_item crawl engine false probing world).2.frontier
process_item-IsValid_example =
    process_item-IsValid crawl engine false probing world (queue-IsValid, tt)

-- The catalog of the document, with a row of its one entry that a registry gave.
abbrev prior : Catalog
prior = record {
  id = 4;
  domain_id = 1;
  source_url = codes "https://a.example/c.json";
  parent_catalog_id = none;
  spec_version = codes "1.0";
  host_display_name = [];
  host_identifier = [];
  raw_json = codes "outer";
  content_hash = codes "outer";
  fetched_at = 40;
  verification_status = valid;
}

-- A row for each of the two entries of the document.
abbrev row_of : ℕ → Text → CatalogEntry
row_of id urn = record {
  id = id;
  catalog_id = 4;
  urn = urn;
  urn_publisher = [];
  urn_namespace = [];
  urn_name = [];
  display_name = urn;
  media_type = [];
  ref_url = [];
  has_embedded_data = false;
  description = [];
  version = [];
  entry_updated_at = [];
  tags = [];
  capabilities = [];
  representative_queries = [];
  raw_json = [];
  source = from_catalog;
  source_registry_id = none;
}

abbrev rows : List CatalogEntry
rows = row_of 8 (codes "p") ∷ row_of 9 (codes "h") ∷ []

abbrev known : World
known =
    let t = no_tables in
    record world {
      store = record {
        tables = record t {
          catalogs = record { rows = prior ∷ []; next_id = 5 };
          entries = record { rows = rows; next_id = 10 };
        };
        world = [];
      };
    }

loaded_rows : (entries_of_catalog 4 known.store).0 ≡ ok rows
unfolding entries_of_catalog
loaded_rows = refl

-- A crawl that is not forced.
abbrev calm_crawl : Crawl
calm_crawl = record crawl { force = false }

follow_unchanged_lem_example :
    let out = follow_unchanged calm_crawl (process_catalog calm_crawl 2) outer prior known in
    ((length rows ≡ length (entries_of calm_crawl outer))
      → IsLeft
          (λ (a : Unit {0}).
            AllFollowed calm_crawl
              (λ g t. Unit {0})
              4
              outer.host
              outer.source_url
              0
              (entries_of calm_crawl outer)
              rows)
          known
          out)
    × ((length rows ≢ length (entries_of calm_crawl outer))
        → (out.0 ≡ ok tt) × (out.1.frontier ≡ known.frontier))
follow_unchanged_lem_example =
    follow_unchanged_lem calm_crawl 2 outer prior known rows tt refl loaded_rows

-- The counts agree here, and the pointer of the document, and that of the one inside it, are queued again.
repaired :
    let out = follow_unchanged calm_crawl (process_catalog calm_crawl 2) outer prior known in
    (length rows ≡ length (entries_of calm_crawl outer))
    × (out.0 ≡ ok tt)
    × (length out.1.frontier.table.rows ≡ 5)
unfolding follow_unchanged process_catalog enqueue_with entries_of_catalog
repaired = (refl, refl, refl)

-- The run of the outer catalog succeeds, and queues the pointers of both catalogs.
outer_run :
    let out = process_catalog crawl 3 outer world in
    (out.0 ≡ ok tt) × (length out.1.frontier.table.rows ≡ 5)
unfolding process_catalog enqueue_with
outer_run = (refl, refl)
