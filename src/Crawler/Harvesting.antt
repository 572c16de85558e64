-- ===== src/Crawler/Harvesting.antt =====
-- internal/crawler/handlers.go: `handleRegistryHarvest`; internal/crawler/engine.go: `handleItem` and
-- `process` over these handlers.
use ardvark.Prelude.{
  ℕ, suc, ltb, leb, Bool, ◌||◌, not, List, [], ◌∷◌, map, Option, none, some, codes, text_eq,
  is_empty, if◌then◌else◌,
}
use ardvark.Failure.{Failure}
use ardvark.Frontier.Db.{Db, Result, ok, err}
use ardvark.Effects.{return, throw, ◌>>=◌, ◌>>◌, logged, for_each}
use ardvark.Store.Models.{
  FrontierItem, kind_page_fetch, kind_host_probe, kind_catalog_fetch, kind_artifact_fetch,
  kind_registry_harvest,
}
use ardvark.Store.Tables.{CatalogEntry, from_registry, HarvestStatus, harvest_ok, harvest_error}
use ardvark.Store.Catalogs.{save_entries, update_registry_status}
use ardvark.Ard.Document.{Entry}
use ardvark.Registry.{
  Federation, no_federation, referrals, HarvestOptions, Harvest, SearchError, is_not_implemented,
  harvest_all,
}
use ardvark.Crawler.Engine.{Engine, Outcome, unknown_kind, settle}
use ardvark.Crawler.World.{World, H, Crawl, plain_failure, search_failure, on_store}
use ardvark.Crawler.Rows.{build_entry_row}
use ardvark.Crawler.Catalogs.{
  follow_registry_pointer, follow_catalog_pointer, kind_of_entry, is_kind_catalog, is_kind_registry,
  with_registry, new_registry, index_out_of_range,
}
use ardvark.Crawler.Requests.{process_found}
use ardvark.Crawler.Pages.{handle_page_fetch}
use ardvark.Crawler.Probing.{handle_host_probe}
use ardvark.Crawler.Documents.{uint_or_zero, handle_catalog_fetch, handle_artifact_fetch}

-- The search of a registry goes on for ever; it does not where the limit on pages is positive, as the
-- configuration's schema asks.
abbrev pub endless : Failure
endless = plain_failure (codes "endless")

module _ (c : Crawl) where
  abbrev pub federation_for : ℕ → Federation
  federation_for depth = if leb (suc depth) c.max_referral_depth then referrals else no_federation

  abbrev pub harvest_options : ℕ → HarvestOptions
  harvest_options depth = record {
    page_limit = c.page_limit;
    page_size = 0;
    query_text = [];
    federation = federation_for depth;
  }

  -- `updateRegistryStatus`.
  unfoldable pub update_status : HarvestStatus → ℕ → H (Unit {0})
  unfolding update_registry_status
  update_status status id = logged (on_store (update_registry_status id status c.now))

  abbrev pub status_if_known : Option ℕ → H (Unit {0})
  status_if_known none = return tt
  status_if_known (some id) = update_status harvest_error id

  abbrev pub entry_of_catalog : ℕ → CatalogEntry → CatalogEntry
  entry_of_catalog id e = record e { catalog_id = id }

  abbrev pub result_row : ℕ → ℕ → Entry → CatalogEntry
  result_row row_id catalog_id en =
      entry_of_catalog catalog_id
        (build_entry_row c.names c.encode_list from_registry (some row_id) en)

  -- One round of the loop over the results, for the saved row of the result.
  unfoldable pub follow_result : FrontierItem → ℕ → ℕ → Entry → CatalogEntry → H (Unit {0})
  unfolding follow_catalog_pointer follow_registry_pointer
  follow_result item row_id catalog_id en row =
      if is_kind_catalog (kind_of_entry c en)
      then follow_catalog_pointer c (process_found c) en item.host item.url 0 (some catalog_id)
      else if is_kind_registry (kind_of_entry c en)
      then (if is_empty en.url || not c.harvest
          then return tt
          else follow_registry_pointer c en.url item.host (suc item.depth)
              (new_registry row.id en.url (some row_id)) (with_registry row.id catalog_id))
      else return tt

  unfoldable pub follow_results :
      FrontierItem → ℕ → ℕ → List Entry → List CatalogEntry → H (Unit {0})
  unfolding follow_result
  follow_results item row_id catalog_id [] rows = return tt
  follow_results item row_id catalog_id (en ∷ ens) [] = throw index_out_of_range
  follow_results item row_id catalog_id (en ∷ ens) (row ∷ rows) =
      follow_result item row_id catalog_id en row >> follow_results item row_id catalog_id ens rows

  -- `if len(result.Results) > 0 { … }`.
  abbrev pub keep_results : FrontierItem → ℕ → ℕ → List Entry → H (Unit {0})
  keep_results item row_id catalog_id results =
      if is_empty results
      then return tt
      else (on_store (save_entries (map (result_row row_id catalog_id) results))
          >>= follow_results item row_id catalog_id results)

  -- One round of the loop over `result.Referrals`.
  unfoldable pub follow_referral : FrontierItem → ℕ → ℕ → ℕ → Entry → H (Unit {0})
  unfolding follow_registry_pointer
  follow_referral item row_id entry_id catalog_id ref =
      if is_empty ref.url
      then return tt
      else if ltb c.max_referral_depth (suc item.depth)
      then return tt
      else follow_registry_pointer c ref.url item.host (suc item.depth)
          (new_registry entry_id ref.url (some row_id)) (with_registry entry_id catalog_id)

  abbrev pub keep_harvest : FrontierItem → Harvest → Option ℕ → H (Unit {0})
  keep_harvest item h none = return tt
  keep_harvest item h (some row_id) =
      let entry_id = uint_or_zero item.registry_entry_id in
      let catalog_id = uint_or_zero item.registry_catalog_id in
      update_status harvest_ok row_id
      >> keep_results item row_id catalog_id h.results
      >> for_each (follow_referral item row_id entry_id catalog_id) h.referred

  abbrev pub harvest_failed : FrontierItem → SearchError → H (Unit {0})
  harvest_failed item e =
      if is_not_implemented e
      then status_if_known item.registry_row_id
      else throw (search_failure e)

  abbrev pub harvest_outcome : FrontierItem → Harvest → Option SearchError → H (Unit {0})
  harvest_outcome item h none = keep_harvest item h item.registry_row_id
  harvest_outcome item h (some e) = harvest_failed item e

  abbrev pub harvest_ended : FrontierItem → Option Harvest → H (Unit {0})
  harvest_ended item none = throw endless
  harvest_ended item (some h) = harvest_outcome item h h.failed

  -- `handleRegistryHarvest`.
  unfoldable pub handle_registry_harvest : FrontierItem → H (Unit {0})
  unfolding harvest_all update_status follow_results follow_referral save_entries for_each
  handle_registry_harvest item =
      if ltb c.max_referral_depth item.depth
      then return tt
      else harvest_ended item
          (harvest_all (c.search item.url) (harvest_options item.depth) (suc c.page_limit))

  -- `handleItem`.
  unfoldable pub handle : FrontierItem → H (Unit {0})
  unfolding handle_page_fetch handle_host_probe handle_catalog_fetch handle_artifact_fetch
      handle_registry_harvest text_eq
  handle item =
      if text_eq item.kind kind_page_fetch
      then handle_page_fetch c item
      else if text_eq item.kind kind_host_probe
      then handle_host_probe c item
      else if text_eq item.kind kind_catalog_fetch
      then handle_catalog_fetch c item
      else if text_eq item.kind kind_artifact_fetch
      then handle_artifact_fetch c item
      else if text_eq item.kind kind_registry_harvest
      then handle_registry_harvest item
      else throw (unknown_kind item)

  abbrev pub failure_in : Result Failure (Unit {0}) → Option Failure
  failure_in (ok a) = none
  failure_in (err e) = some e

  abbrev pub settled_in : World → Outcome × ℕ × Db → Outcome × ℕ × World
  settled_in w (outcome, slept, db) = (outcome, slept, record w { frontier = db })

  abbrev pub settle_in :
      Engine → Bool → FrontierItem → Result Failure (Unit {0}) × World → Outcome × ℕ × World
  settle_in e stopped item (r, w) = settled_in w (settle e stopped item (failure_in r, w.frontier))

  -- `process`.
  unfoldable pub process_item : Engine → Bool → FrontierItem → World → Outcome × ℕ × World
  unfolding handle settle
  process_item e stopped item w = settle_in e stopped item (handle item w)
