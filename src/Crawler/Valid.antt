-- ===== src/Crawler/Valid.antt =====
-- internal/crawler/engine.go: `handleItem` and `process` over the handlers keep the frontier valid.
use ardvark.Prelude.{
  ℕ, suc, ltb, refl, Bool, ◌||◌, not, List, [], ◌∷◌, map, Option, none, some, text_eq, is_empty,
  if◌then◌else◌, Bool-cases, inl, inr,
}
use ardvark.Failure.{Failure, transient}
use ardvark.Frontier.Config.{FrontierError, no_dedup_key, not_found, lease_lost, driver}
use ardvark.Frontier.Db.{Table, Db, Result, ok, err}
use ardvark.Frontier.Invariant.{IsValid}
use ardvark.Frontier.Validity.{enqueue_with-IsValid, release-IsValid, fail_item-IsValid}
use ardvark.Frontier.Rely.{Holds}
use ardvark.Frontier.Release.{complete, requeue, fail_item}
use ardvark.Effects.{return, throw, ◌>>=◌, ◌>>◌, for_each}
use ardvark.Store.Models.{
  FrontierItem, done, pending, kind_page_fetch, kind_host_probe, kind_catalog_fetch,
  kind_artifact_fetch, kind_registry_harvest,
}
use ardvark.Store.Tables.{CatalogEntry, HarvestStatus, harvest_ok, harvest_error}
use ardvark.Store.Catalogs.{save_entries}
use ardvark.Ard.Document.{Entry}
use ardvark.Registry.{Harvest, SearchError, is_not_implemented, harvest_all}
use ardvark.Crawler.Engine.{
  Engine, Outcome, item_complete, requeued, complete_failed, requeue_failed, record_failed,
  item_failed, settled, allowed_attempts, pause, settle, unknown_kind,
}
use ardvark.Crawler.World.{World, Crawl, on_store}
use ardvark.Crawler.Catalogs.{
  kind_of_entry, is_kind_catalog, is_kind_registry, with_registry, new_registry,
  follow_catalog_pointer, follow_registry_pointer,
}
use ardvark.Crawler.Requests.{process_found}
use ardvark.Crawler.Pages.{handle_page_fetch}
use ardvark.Crawler.Probing.{handle_host_probe}
use ardvark.Crawler.Documents.{uint_or_zero, handle_catalog_fetch, handle_artifact_fetch}
use ardvark.Crawler.Harvesting.{
  harvest_options, update_status, status_if_known, result_row, follow_result, follow_results,
  keep_results, follow_referral, keep_harvest, harvest_failed, harvest_outcome, harvest_ended,
  handle_registry_harvest, handle, failure_in, process_item,
}
use ardvark.Crawler.Handling.{
  KeptByEnqueues, follow_registry_pointer-KeepsIn, follow_catalog_pointer-KeepsIn,
  process_found-KeepsIn,
}
use ardvark.Crawler.Steps.{
  handle_page_fetch-KeepsIn, handle_host_probe-KeepsIn, handle_catalog_fetch-KeepsIn,
  handle_artifact_fetch-KeepsIn,
}
use ardvark.Crawler.Keeps.{KeepsIn, KeepsIn-bind, KeepsIn-seq, KeepsIn-if, KeepsIn-for_each}

module _ (P : Table → Type 0) (c : Crawl) (kept : KeptByEnqueues P c) where
  result-KeepsIn :
      (item : FrontierItem) (row_id catalog_id : ℕ) (en : Entry) (row : CatalogEntry)
      → KeepsIn P (follow_result c item row_id catalog_id en row)
  unfolding follow_result
  result-KeepsIn item row_id catalog_id en row =
      let prov = with_registry row.id catalog_id in
      let referral = new_registry row.id en.url (some row_id) in
      let m = follow_registry_pointer c en.url item.host (suc item.depth) referral prov in
      let registry = if is_empty en.url || not c.harvest then return tt else m in
      KeepsIn-if P (is_kind_catalog (kind_of_entry c en))
        (follow_catalog_pointer c (process_found c) en item.host item.url 0 (some catalog_id))
        (if is_kind_registry (kind_of_entry c en) then registry else return tt)
        (follow_catalog_pointer-KeepsIn P c kept (process_found c) (process_found-KeepsIn P c kept)
          en item.host item.url 0 (some catalog_id))
        (KeepsIn-if P (is_kind_registry (kind_of_entry c en)) registry (return tt)
          (KeepsIn-if P (is_empty en.url || not c.harvest) (return tt) m (λ w h. h)
            (follow_registry_pointer-KeepsIn P c kept en.url item.host (suc item.depth) referral
              prov))
          (λ w h. h))

  results-KeepsIn :
      (item : FrontierItem) (row_id catalog_id : ℕ) (ens : List Entry) (rows : List CatalogEntry)
      → KeepsIn P (follow_results c item row_id catalog_id ens rows)
  unfolding follow_results
  results-KeepsIn item row_id catalog_id [] rows = λ w h. h
  results-KeepsIn item row_id catalog_id (en ∷ ens) [] = λ w h. h
  results-KeepsIn item row_id catalog_id (en ∷ ens) (row ∷ rows) =
      KeepsIn-seq P (follow_result c item row_id catalog_id en row)
        (follow_results c item row_id catalog_id ens rows)
        (result-KeepsIn item row_id catalog_id en row)
        (results-KeepsIn item row_id catalog_id ens rows)

  referral-KeepsIn :
      (item : FrontierItem) (row_id entry_id catalog_id : ℕ) (ref : Entry)
      → KeepsIn P (follow_referral c item row_id entry_id catalog_id ref)
  unfolding follow_referral
  referral-KeepsIn item row_id entry_id catalog_id ref =
      let row = new_registry entry_id ref.url (some row_id) in
      let prov = with_registry entry_id catalog_id in
      let m = follow_registry_pointer c ref.url item.host (suc item.depth) row prov in
      KeepsIn-if P (is_empty ref.url) (return tt)
        (if ltb c.max_referral_depth (suc item.depth) then return tt else m) (λ w h. h)
        (KeepsIn-if P (ltb c.max_referral_depth (suc item.depth)) (return tt) m (λ w h. h)
          (follow_registry_pointer-KeepsIn P c kept ref.url item.host (suc item.depth) row prov))

  status-KeepsIn : (s : HarvestStatus) (id : ℕ) → KeepsIn P (update_status c s id)
  unfolding update_status
  status-KeepsIn s id w h = h

  keep_harvest-KeepsIn :
      (item : FrontierItem) (h : Harvest) (o : Option ℕ) → KeepsIn P (keep_harvest c item h o)
  keep_harvest-KeepsIn item h none = λ w p. p
  keep_harvest-KeepsIn item h (some row_id) =
      let entry_id = uint_or_zero item.registry_entry_id in
      let catalog_id = uint_or_zero item.registry_catalog_id in
      let saved = on_store (save_entries (map (result_row c row_id catalog_id) h.results)) in
      KeepsIn-seq P
        (update_status c harvest_ok row_id >> keep_results c item row_id catalog_id h.results)
        (for_each (follow_referral c item row_id entry_id catalog_id) h.referred)
        (KeepsIn-seq P (update_status c harvest_ok row_id)
          (keep_results c item row_id catalog_id h.results) (status-KeepsIn harvest_ok row_id)
          (KeepsIn-if P (is_empty h.results) (return tt)
            (saved >>= follow_results c item row_id catalog_id h.results) (λ w p. p)
            (KeepsIn-bind P saved (follow_results c item row_id catalog_id h.results) (λ w p. p)
              (results-KeepsIn item row_id catalog_id h.results))))
        (KeepsIn-for_each P (follow_referral c item row_id entry_id catalog_id)
          (referral-KeepsIn item row_id entry_id catalog_id) h.referred)

  failed-KeepsIn : (item : FrontierItem) (e : SearchError) → KeepsIn P (harvest_failed c item e)
  failed-KeepsIn item e =
      KeepsIn-if P (is_not_implemented e) (status_if_known c item.registry_row_id) _
        (known item.registry_row_id) (λ w h. h)
    where
      known : (o : Option ℕ) → KeepsIn P (status_if_known c o)
      known none = λ w h. h
      known (some id) = status-KeepsIn harvest_error id

  ended-KeepsIn : (item : FrontierItem) (o : Option Harvest) → KeepsIn P (harvest_ended c item o)
  ended-KeepsIn item none = λ w h. h
  ended-KeepsIn item (some h) = outcome h.failed
    where
      outcome : (o : Option SearchError) → KeepsIn P (harvest_outcome c item h o)
      outcome none = keep_harvest-KeepsIn item h item.registry_row_id
      outcome (some e) = failed-KeepsIn item e

  harvest-KeepsIn : (item : FrontierItem) → KeepsIn P (handle_registry_harvest c item)
  unfolding handle_registry_harvest
  harvest-KeepsIn item =
      let out = harvest_all (c.search item.url) (harvest_options c item.depth) (suc c.page_limit) in
      KeepsIn-if P (ltb c.max_referral_depth item.depth) (return tt) (harvest_ended c item out)
        (λ w h. h) (ended-KeepsIn item out)

  -- A handler keeps what every enqueue of a new item keeps.
  pub handle-KeepsIn : (item : FrontierItem) → KeepsIn P (handle c item)
  unfolding handle
  handle-KeepsIn item =
      let harvest =
        if text_eq item.kind kind_registry_harvest
        then handle_registry_harvest c item
        else throw (unknown_kind item) in
      let artifact =
        if text_eq item.kind kind_artifact_fetch then handle_artifact_fetch c item else harvest in
      let fetch =
        if text_eq item.kind kind_catalog_fetch then handle_catalog_fetch c item else artifact in
      let probe = if text_eq item.kind kind_host_probe then handle_host_probe c item else fetch in
      KeepsIn-if P (text_eq item.kind kind_page_fetch) (handle_page_fetch c item) probe
        (handle_page_fetch-KeepsIn P c kept item)
        (KeepsIn-if P (text_eq item.kind kind_host_probe) (handle_host_probe c item) fetch
          (handle_host_probe-KeepsIn P c kept item)
          (KeepsIn-if P (text_eq item.kind kind_catalog_fetch) (handle_catalog_fetch c item)
            artifact (handle_catalog_fetch-KeepsIn P c kept item)
            (KeepsIn-if P (text_eq item.kind kind_artifact_fetch) (handle_artifact_fetch c item)
              harvest (handle_artifact_fetch-KeepsIn P c kept item)
              (KeepsIn-if P (text_eq item.kind kind_registry_harvest)
                (handle_registry_harvest c item) (throw (unknown_kind item)) (harvest-KeepsIn item)
                (λ w h. h)))))

-- The settlement of an item by the result of its handler.
settled-database :
    {A : Type 0} (good : Outcome) (bad : FrontierError → Outcome) (slept : ℕ)
    (r : Result FrontierError A) (db : Db)
    → Holds IsValid db
    → Holds IsValid (settled good bad slept (r, db)).2
settled-database good bad slept (ok a) db h = h
settled-database good bad slept (err lease_lost) db h = h
settled-database good bad slept (err no_dedup_key) db h = h
settled-database good bad slept (err not_found) db h = h
settled-database good bad slept (err (driver e)) db h = h

settle-IsValid :
    (e : Engine) (stopped : Bool) (item : FrontierItem) (o : Option Failure) (db : Db)
    → Holds IsValid db
    → Holds IsValid (settle e stopped item (o, db)).2
unfolding settle complete requeue
settle-IsValid e stopped item none db h =
    settled-database item_complete complete_failed 0 (complete e.frontier item.id db).0
      (complete e.frontier item.id db).1 (release-IsValid e.frontier done item.id refl db h)
settle-IsValid e stopped item (some failure) db h =
    elim (Bool-cases (stopped || failure.canceled)) [
      | inl y ↦ rw y (
          settled-database requeued requeue_failed 0 (requeue e.frontier item.id db).0
            (requeue e.frontier item.id db).1
            (release-IsValid e.frontier pending item.id refl db h))
      | inr n ↦
          let out =
            fail_item e.frontier item.id (some failure.text) (allowed_attempts e failure) db in
          rw n (
            settled-database (item_failed (transient failure)) record_failed (pause e item failure)
              out.0 out.1
              (fail_item-IsValid e.frontier item.id (some failure.text) (allowed_attempts e failure)
                db h))
    ]

-- Handling an item of any kind, whatever its clients and libraries report, and settling it keeps the
-- table of the frontier valid, whatever faults occur in it and in the store, and whatever peers that
-- keep it valid do between any two statements.
pub process_item-IsValid :
    (c : Crawl) (e : Engine) (stopped : Bool) (item : FrontierItem) (w : World)
    → Holds IsValid w.frontier
    → Holds IsValid (process_item c e stopped item w).2.frontier
unfolding process_item
process_item-IsValid c e stopped item w h =
    settle-IsValid e stopped item (failure_in c (handle c item w).0) (handle c item w).1.frontier (
      handle-KeepsIn IsValid c
        (λ i budget rd rf fresh.
          enqueue_with-IsValid c.producer.dialect c.producer.hostname i budget rd rf fresh)
        item w h)
