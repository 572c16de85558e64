-- ===== src/Store/Examples.antt =====
-- Concrete rows, tests of internal/store on them, and its theorems at these inputs.
use ardvark.Prelude.{◌≡◌, refl, [], ◌∷◌, none, some, codes, text_eq, find, any, true, false}
use ardvark.Frontier.Db.{ok, err}
use ardvark.Ard.Report.{valid}
use ardvark.Ard.Document.{error}
use ardvark.Store.Tables.{
  no_tables, Domain, anchor, seed, Catalog, CatalogEntry, from_catalog, VerificationCheck,
  of_catalog,
}
use ardvark.Store.Statements.{Event, Store, StoreError, peers_of}
use ardvark.Store.Domains.{upsert_domain, new_domain, insert_domain}
use ardvark.Store.Catalogs.{Saved, save_catalog}
use ardvark.Store.Atomic.{saved_row, saved_entries, saved_tables, save_catalog_lem}
use ardvark.Store.Hosts.{view, specified, perform, promotes, perform-Refines}

-- A peer stores the domain of the host between the look-up and the INSERT.
abbrev rival : Event
rival = record {
  peers = λ t. (insert_domain (new_domain 3 (codes "a.example") seed) t).1;
  fault = none;
}

abbrev silent : Event
silent = record { peers = λ t. t; fault = none }

abbrev contested : Store
contested = record { tables = no_tables; world = silent ∷ rival ∷ [] }

abbrev first_row_of_a : Domain
first_row_of_a = let d = new_domain 3 (codes "a.example") seed in record d { id = 1 }

rival_wins : (upsert_domain 9 (codes "a.example") anchor contested).0 ≡ ok first_row_of_a
unfolding upsert_domain text_eq find any
rival_wins = refl

perform-Refines_example :
    let out = perform (promotes 1) contested in
    let before = view (peers_of contested.world contested.tables) in
    (out.0 ≡ ok tt
      → view out.1.tables (codes "a.example") ≡ specified (promotes 1) before (codes "a.example"))
    × ((e : StoreError)
        → out.0 ≡ err e
        → view out.1.tables (codes "a.example") ≡ before (codes "a.example"))
perform-Refines_example = perform-Refines (promotes 1) contested (codes "a.example")

abbrev cat : Catalog
cat = record {
  id = 0;
  domain_id = 1;
  source_url = codes "https://a.example/c.json";
  parent_catalog_id = none;
  spec_version = codes "1.0";
  host_display_name = [];
  host_identifier = [];
  raw_json = codes "outer";
  content_hash = codes "outer";
  fetched_at = 40;
  verification_status = valid;
}

abbrev entry : CatalogEntry
entry = record {
  id = 0;
  catalog_id = 0;
  urn = codes "a";
  urn_publisher = [];
  urn_namespace = [];
  urn_name = [];
  display_name = [];
  media_type = [];
  ref_url = [];
  has_embedded_data = false;
  description = [];
  version = [];
  entry_updated_at = [];
  tags = [];
  capabilities = [];
  representative_queries = [];
  raw_json = [];
  source = from_catalog;
  source_registry_id = none;
}

abbrev check : VerificationCheck
check = record {
  id = 0;
  subject_type = of_catalog;
  subject_id = 0;
  check_id = codes "media_type";
  severity = error;
  passed = true;
  message = [];
  checked_at = 40;
}

-- The disk is full when the checks of the entry are stored: nothing of the catalog remains.
abbrev full_disk : Event
full_disk = record {
  peers = λ t. t;
  fault =
      some
        (record { text = codes "disk full"; canceled = false; classified = none; timeout = false });
}

abbrev failing_write : Store
failing_write = record { tables = no_tables; world = silent ∷ silent ∷ silent ∷ full_disk ∷ [] }

save_catalog_lem_example :
    let out = save_catalog cat (entry ∷ []) [] ((0, check ∷ []) ∷ []) failing_write in
    ((saved : Saved)
      → out.0 ≡ ok saved
      → (saved ≡ (saved_row cat no_tables, saved_entries (entry ∷ []) no_tables))
        × (out.1.tables ≡ saved_tables cat (entry ∷ []) [] ((0, check ∷ []) ∷ []) no_tables))
    × ((e : StoreError) → out.0 ≡ err e → out.1.tables ≡ no_tables)
save_catalog_lem_example = save_catalog_lem cat (entry ∷ []) [] ((0, check ∷ []) ∷ []) failing_write

full_disk_run :
    (save_catalog cat (entry ∷ []) [] ((0, check ∷ []) ∷ []) failing_write).1.tables ≡ no_tables
unfolding save_catalog
full_disk_run = refl
