-- ===== src/Crawler/Catalogs.antt =====
-- internal/crawler/handlers.go: `processCatalog` and what it enqueues for the entries of a catalog.
use ardvark.Prelude.{
  ℕ, zero, suc, ltb, leb, ◌==◌, Bool, true, false, ◌&&◌, not, List, [], ◌∷◌, ◌++◌, Option, none,
  some, Text, codes, text_eq, is_empty, length, if◌then◌else◌,
}
use ardvark.Failure.{Failure}
use ardvark.Frontier.Db.{Result, ok, err}
use ardvark.Effects.{return, throw, try, ◌>>=◌, ◌>>◌, logged}
use ardvark.Store.Models.{kind_catalog_fetch, kind_artifact_fetch, kind_registry_harvest}
use ardvark.Store.Tables.{
  Domain, catalog_ref, found_valid, found_invalid, ArdStatus, Catalog, CatalogEntry, Registry,
  harvest_pending, probe_outcome_hit,
}
use ardvark.Store.Statements.{StoreError, missing, broken}
use ardvark.Store.Domains.{upsert_domain, update_domain_ard_status}
use ardvark.Store.Catalogs.{
  Saved, save_catalog, latest_catalog_by_source_and_parent, entries_of_catalog, save_registry,
}
use ardvark.Mediatype.{Kind, catalog, registry, parse, kind_of}
use ardvark.Ard.Document.{Entry, Check}
use ardvark.Ard.Report.{Report, Verdict, valid, valid_with_warnings, invalid, merge_checks}
use ardvark.Ard.Semantic.{has_embedded_data}
use ardvark.Ard.Verify.{verify}
use ardvark.Crawler.Keys.{Provenance, no_provenance}
use ardvark.Crawler.Fanout.{ensure_item}
use ardvark.Crawler.World.{
  H, Crawl, Document, plain_failure, ask_store, on_store, on_frontier, emit,
}
use ardvark.Crawler.Rows.{build_entry_rows, split_checks, catalog_event}

-- The arguments of `processCatalog`.
pub record Found : Type 0 where
  pub raw : Text
  pub content_hash : Text
  pub host : Text
  pub source_url : Text
  pub parent_catalog_id : Option ℕ
  pub probe_method : Text
  pub depth : ℕ
  pub transport_checks : List Check

abbrev pub is_kind_catalog : Kind → Bool
is_kind_catalog catalog = true
is_kind_catalog _ = false

abbrev pub is_kind_registry : Kind → Bool
is_kind_registry registry = true
is_kind_registry _ = false

abbrev pub with_parent : Option ℕ → Provenance
with_parent id = let p = no_provenance in record p { parent_catalog_id = id }

abbrev pub with_artifact : ℕ → Provenance
with_artifact id = let p = no_provenance in record p { artifact_entry_id = some id }

abbrev pub with_registry : ℕ → ℕ → Provenance
with_registry entry_id catalog_id =
    let p = no_provenance in
    record p { registry_entry_id = some entry_id; registry_catalog_id = some catalog_id }

abbrev pub new_registry : ℕ → Text → Option ℕ → Registry
new_registry entry_id url referral = record {
  id = 0;
  entry_id = entry_id;
  base_url = url;
  last_harvested_at = none;
  harvest_status = harvest_pending;
  referral_source_id = referral;
}

-- Go panics where `cat.Entries` is shorter than the entries.
abbrev pub index_out_of_range : Failure
index_out_of_range = plain_failure (codes "index out of range")

-- More catalogs inside one another than the fuel allows.
abbrev pub too_deep : Failure
too_deep = plain_failure (codes "too deep")

abbrev pub status_of : Verdict → ArdStatus
status_of valid = found_valid
status_of valid_with_warnings = found_valid
status_of invalid = found_invalid

module _ (c : Crawl) where
  unfoldable pub ensure_for : Text → Text → Text → ℕ → Provenance → H Bool
  unfolding ensure_item
  ensure_for kind url host depth prov =
      on_frontier (ensure_item c.producer kind url host depth prov)

  abbrev pub done : {A : Type 0} → A → H (Unit {0})
  done a = return tt

  -- `followRegistryPointer`.
  unfoldable pub follow_registry_pointer : Text → Text → ℕ → Registry → Provenance → H (Unit {0})
  unfolding ensure_for save_registry
  follow_registry_pointer url host depth row prov = on_store (save_registry row) >>= λ saved.
      ensure_for kind_registry_harvest url host depth
        (record prov { registry_row_id = some saved.id })
      >>= done

  abbrev pub embedded : Entry → Text → Text → Option ℕ → ℕ → Found
  embedded en host source_url parent depth = record {
    raw = en.data_json;
    content_hash = c.sha256 en.data_json;
    host = host;
    source_url = source_url ++ 35 ∷ en.identifier;
    parent_catalog_id = parent;
    probe_method = [];
    depth = depth;
    transport_checks = [];
  }

  -- `followCatalogPointer`; `nested` is `processCatalog`.
  unfoldable pub follow_catalog_pointer :
      (Found → H (Unit {0})) → Entry → Text → Text → ℕ → Option ℕ → H (Unit {0})
  unfolding ensure_for text_eq
  follow_catalog_pointer nested en host source_url depth parent =
      if not (is_empty en.url)
      then (ensure_for kind_catalog_fetch en.url host depth (with_parent parent) >>= done)
      else if has_embedded_data en.data_json
      then nested (embedded en host source_url parent depth)
      else return tt

  abbrev pub kind_of_entry : Entry → Kind
  kind_of_entry en = kind_of (parse c.names.unicode en.entry_type)

  -- One round of the loop of `enqueueEntryFollowups`, for the row of the entry.
  unfoldable pub follow_entry :
      (Found → H (Unit {0})) → ℕ → Text → Text → ℕ → Entry → CatalogEntry → H (Unit {0})
  unfolding follow_catalog_pointer follow_registry_pointer ensure_for parse kind_of
  follow_entry nested catalog_id host source_url depth en row =
      if is_kind_catalog (kind_of_entry en)
      then follow_catalog_pointer nested en host source_url (suc depth) (some catalog_id)
      else if is_kind_registry (kind_of_entry en) && not (is_empty en.url) && c.harvest
      then follow_registry_pointer en.url host 0 (new_registry row.id en.url none)
          (with_registry row.id catalog_id)
      else if not (is_empty en.url) && c.fetch_artifacts
      then (ensure_for kind_artifact_fetch en.url host 0 (with_artifact row.id) >>= done)
      else return tt

  -- `enqueueEntryFollowups`.
  unfoldable pub enqueue_entry_followups :
      (Found → H (Unit {0})) → ℕ → Text → Text → ℕ → List Entry → List CatalogEntry → H (Unit {0})
  unfolding follow_entry
  enqueue_entry_followups nested catalog_id host source_url depth [] rows = return tt
  enqueue_entry_followups nested catalog_id host source_url depth (en ∷ ens) [] =
      throw index_out_of_range
  enqueue_entry_followups nested catalog_id host source_url depth (en ∷ ens) (row ∷ rows) =
      follow_entry nested catalog_id host source_url depth en row
      >> enqueue_entry_followups nested catalog_id host source_url depth ens rows

  abbrev pub new_catalog : Found → Document → Report → ℕ → Catalog
  new_catalog f parsed report domain_id = record {
    id = 0;
    domain_id = domain_id;
    source_url = f.source_url;
    parent_catalog_id = f.parent_catalog_id;
    spec_version = parsed.catalog.spec_version;
    host_display_name = parsed.host_display_name;
    host_identifier = parsed.host_identifier;
    raw_json = f.raw;
    content_hash = f.content_hash;
    fetched_at = c.now;
    verification_status = report.verdict;
  }

  abbrev pub report_of : Found → Report
  report_of f = merge_checks (verify c.formats c.names f.raw f.host) f.transport_checks

  abbrev pub entries_of : Found → List Entry
  entries_of f = (c.decode_catalog f.raw).catalog.entries

  -- `if depth >= e.maxCatalogDepth() { return nil }` before the fan-out.
  abbrev pub follow_ups : (Found → H (Unit {0})) → Found → ℕ → List CatalogEntry → H (Unit {0})
  follow_ups nested f catalog_id rows =
      if leb c.max_catalog_depth f.depth
      then return tt
      else enqueue_entry_followups nested catalog_id f.host f.source_url f.depth (entries_of f) rows

  abbrev pub saved_with : Found → ℕ → H Saved
  saved_with f domain_id =
      let (catalog_checks, entry_checks) = split_checks c.now (report_of f).checks (entries_of f) in
      on_store (
        save_catalog (new_catalog f (c.decode_catalog f.raw) (report_of f) domain_id)
          (build_entry_rows c.names c.encode_list (entries_of f)) catalog_checks entry_checks)

  -- What `processCatalog` does between the save and the follow-ups.
  abbrev pub recorded : Found → ℕ → H (Unit {0})
  recorded f domain_id =
      logged (on_store (update_domain_ard_status domain_id (status_of (report_of f).verdict)))
      >> emit (catalog_event f.host f.probe_method (report_of f) (length (entries_of f)))

  -- The part of `processCatalog` that saves.
  unfoldable pub save_and_follow : (Found → H (Unit {0})) → Found → ℕ → H (Unit {0})
  unfolding enqueue_entry_followups split_checks build_entry_rows save_catalog
      update_domain_ard_status catalog_event verify merge_checks
  save_and_follow nested f domain_id = saved_with f domain_id >>= λ saved.
      recorded f domain_id >> follow_ups nested f saved.0.id saved.1

  abbrev pub resumed : (Found → H (Unit {0})) → Found → ℕ → List CatalogEntry → H (Unit {0})
  resumed nested f catalog_id rows =
      if length rows == length (entries_of f)
      then enqueue_entry_followups nested catalog_id f.host f.source_url f.depth (entries_of f) rows
      else return tt

  abbrev pub tell_unchanged : Found → Catalog → H (Unit {0})
  tell_unchanged f prior = emit (record {
    host = f.host;
    method = f.probe_method;
    outcome = probe_outcome_hit;
    verdict = some prior.verification_status;
    detail = codes "unchanged";
  })

  -- The part for a document that is unchanged since the row `prior`.
  unfoldable pub follow_unchanged : (Found → H (Unit {0})) → Found → Catalog → H (Unit {0})
  unfolding enqueue_entry_followups entries_of_catalog
  follow_unchanged nested f prior =
      tell_unchanged f prior
      >> (if ltb f.depth c.max_catalog_depth
          then (on_store (entries_of_catalog prior.id) >>= resumed nested f prior.id)
          else return tt)

  abbrev pub prior_or_save :
      (Found → H (Unit {0})) → Found → ℕ → Result StoreError Catalog → H (Unit {0})
  prior_or_save nested f domain_id (ok prior) =
      if text_eq prior.content_hash f.content_hash
      then follow_unchanged nested f prior
      else save_and_follow nested f domain_id
  prior_or_save nested f domain_id (err (missing text)) = save_and_follow nested f domain_id
  prior_or_save nested f domain_id (err (broken e)) = throw e

  -- `if !e.opts.Force { … }`, and what follows.
  abbrev pub unforced : (Found → H (Unit {0})) → Found → ℕ → H (Unit {0})
  unforced nested f domain_id =
      try
        (ask_store (latest_catalog_by_source_and_parent domain_id f.source_url f.parent_catalog_id))
        (prior_or_save nested f domain_id)

  -- `processCatalog` after `UpsertDomain`.
  abbrev pub with_domain : (Found → H (Unit {0})) → Found → Domain → H (Unit {0})
  with_domain nested f domain =
      if c.force then save_and_follow nested f domain.id else unforced nested f domain.id

  unfoldable pub process_one : (Found → H (Unit {0})) → Found → H (Unit {0})
  unfolding save_and_follow follow_unchanged upsert_domain latest_catalog_by_source_and_parent
      text_eq
  process_one nested f = on_store (upsert_domain c.now f.host catalog_ref) >>= with_domain nested f

  -- `processCatalog`, for catalogs in one another up to a number.
  unfoldable pub process_catalog : ℕ → Found → H (Unit {0})
  unfolding process_one
  process_catalog zero f = throw too_deep
  process_catalog (suc fuel) f = process_one (process_catalog fuel) f
