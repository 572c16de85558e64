-- ===== src/Crawler/Handling.antt =====
-- internal/crawler/handlers.go: every handler changes the frontier by enqueues of new items only, so it
-- keeps each property of the table that these keep.
use ardvark.Prelude.{
  ℕ, zero, suc, leb, ltb, ◌==◌, refl, Bool, true, false, ◌&&◌, not, List, [], ◌∷◌, Option, none,
  some, Text, text_eq, is_empty, length, if◌then◌else◌,
}
use ardvark.Frontier.Db.{Table, Result, ok, err}
use ardvark.Frontier.Enqueue.{enqueue_with, enqueue, ensure, resume}
use ardvark.Frontier.Validity.{IsFresh}
use ardvark.Frontier.Rely.{Keeps}
use ardvark.Effects.{return, ◌>>=◌}
use ardvark.Store.Models.{
  FrontierItem, kind_catalog_fetch, kind_artifact_fetch, kind_registry_harvest,
}
use ardvark.Store.Tables.{Catalog, CatalogEntry, Registry, catalog_ref}
use ardvark.Store.Statements.{StoreError, missing, broken}
use ardvark.Store.Domains.{upsert_domain}
use ardvark.Store.Catalogs.{save_registry, entries_of_catalog, latest_catalog_by_source_and_parent}
use ardvark.Ard.Document.{Entry}
use ardvark.Ard.Semantic.{has_embedded_data}
use ardvark.Crawler.Keys.{Provenance, build_item}
use ardvark.Crawler.Fanout.{enqueue_item, ensure_item, resume_item}
use ardvark.Crawler.World.{H, Crawl, on_store, ask_store}
use ardvark.Crawler.Catalogs.{
  Found, ensure_for, done, follow_registry_pointer, follow_catalog_pointer, follow_entry,
  enqueue_entry_followups, embedded, kind_of_entry, is_kind_catalog, is_kind_registry, with_parent,
  with_artifact, with_registry, new_registry, entries_of, saved_with, recorded, follow_ups,
  save_and_follow, resumed, tell_unchanged, follow_unchanged, prior_or_save, unforced, with_domain,
  process_one, process_catalog,
}
use ardvark.Crawler.Requests.{enqueue_for, resume_for, process_found}
use ardvark.Crawler.Keeps.{
  KeepsIn, KeepsIn-try, KeepsIn-bind, KeepsIn-seq, KeepsIn-if, KeepsIn-frontier, KeepsIn-done,
}

-- Every enqueue of an item that no one has worked on keeps the property.
abbrev pub KeptByEnqueues : (Table → Type 0) → Crawl → Type 0
KeptByEnqueues P c =
    (item : FrontierItem) (budget : Option ℕ) (rd rf : Bool)
    → IsFresh item
    → Keeps P (enqueue_with c.producer.dialect c.producer.hostname item budget rd rf)

module _ (P : Table → Type 0) (c : Crawl) (kept : KeptByEnqueues P c) where
  pub built-IsFresh :
      (kind url host : Text) (depth : ℕ) (prov : Provenance)
      → IsFresh (build_item c.producer.digest c.producer.run_id kind url host depth prov)
  unfolding build_item
  built-IsFresh kind url host depth prov = record { idle = refl; no_lease = (refl, refl) }

  pub enqueue_for-KeepsIn :
      (kind url host : Text) (depth : ℕ) (prov : Provenance)
      → KeepsIn P (enqueue_for c kind url host depth prov)
  unfolding enqueue_for enqueue_item enqueue
  enqueue_for-KeepsIn kind url host depth prov =
      KeepsIn-frontier P (enqueue_item c.producer kind url host depth prov) (
        kept (build_item c.producer.digest c.producer.run_id kind url host depth prov) none true
          true (built-IsFresh kind url host depth prov))

  pub ensure_for-KeepsIn :
      (kind url host : Text) (depth : ℕ) (prov : Provenance)
      → KeepsIn P (ensure_for c kind url host depth prov)
  unfolding ensure_for ensure_item ensure
  ensure_for-KeepsIn kind url host depth prov =
      KeepsIn-frontier P (ensure_item c.producer kind url host depth prov) (
        kept (build_item c.producer.digest c.producer.run_id kind url host depth prov) none false
          false (built-IsFresh kind url host depth prov))

  pub resume_for-KeepsIn :
      (kind url host : Text) (depth : ℕ) (prov : Provenance)
      → KeepsIn P (resume_for c kind url host depth prov)
  unfolding resume_for resume_item resume
  resume_for-KeepsIn kind url host depth prov =
      KeepsIn-frontier P (resume_item c.producer kind url host depth prov) (
        kept (build_item c.producer.digest c.producer.run_id kind url host depth prov) none false
          true (built-IsFresh kind url host depth prov))

  pub follow_registry_pointer-KeepsIn :
      (url host : Text) (depth : ℕ) (row : Registry) (prov : Provenance)
      → KeepsIn P (follow_registry_pointer c url host depth row prov)
  unfolding follow_registry_pointer
  follow_registry_pointer-KeepsIn url host depth row prov =
      KeepsIn-bind P (on_store (save_registry row)) _ (λ w h. h)
        (λ saved.
          KeepsIn-done P c
            (ensure_for c kind_registry_harvest url host depth
              (record prov { registry_row_id = some saved.id }))
            (ensure_for-KeepsIn kind_registry_harvest url host depth
              (record prov { registry_row_id = some saved.id })))

  module _ (nested : Found → H (Unit {0})) (hn : (g : Found) → KeepsIn P (nested g)) where
    pub follow_catalog_pointer-KeepsIn :
        (en : Entry) (host source_url : Text) (depth : ℕ) (parent : Option ℕ)
        → KeepsIn P (follow_catalog_pointer c nested en host source_url depth parent)
    unfolding follow_catalog_pointer
    follow_catalog_pointer-KeepsIn en host source_url depth parent =
        let m = ensure_for c kind_catalog_fetch en.url host depth (with_parent parent) in
        let g = embedded c en host source_url parent depth in
        KeepsIn-if P (not (is_empty en.url)) (m >>= done c)
          (if has_embedded_data en.data_json then nested g else return tt)
          (KeepsIn-done P c m
            (ensure_for-KeepsIn kind_catalog_fetch en.url host depth (with_parent parent)))
          (KeepsIn-if P (has_embedded_data en.data_json) (nested g) (return tt) (hn g) (λ w h. h))

    follow_entry-KeepsIn :
        (id : ℕ) (host source_url : Text) (depth : ℕ) (en : Entry) (row : CatalogEntry)
        → KeepsIn P (follow_entry c nested id host source_url depth en row)
    unfolding follow_entry
    follow_entry-KeepsIn id host source_url depth en row =
        let m = ensure_for c kind_artifact_fetch en.url host 0 (with_artifact row.id) in
        let artifact =
          if not (is_empty en.url) && c.fetch_artifacts then (m >>= done c) else return tt in
        let registry =
          follow_registry_pointer c en.url host 0 (new_registry row.id en.url none)
            (with_registry row.id id) in
        KeepsIn-if P (is_kind_catalog (kind_of_entry c en))
          (follow_catalog_pointer c nested en host source_url (suc depth) (some id))
          (if is_kind_registry (kind_of_entry c en) && not (is_empty en.url) && c.harvest
            then registry
            else artifact)
          (follow_catalog_pointer-KeepsIn en host source_url (suc depth) (some id))
          (KeepsIn-if P
            (is_kind_registry (kind_of_entry c en) && not (is_empty en.url) && c.harvest) registry
            artifact
            (follow_registry_pointer-KeepsIn en.url host 0 (new_registry row.id en.url none)
              (with_registry row.id id))
            (KeepsIn-if P (not (is_empty en.url) && c.fetch_artifacts) (m >>= done c) (return tt)
              (KeepsIn-done P c m
                (ensure_for-KeepsIn kind_artifact_fetch en.url host 0 (with_artifact row.id)))
              (λ w h. h)))

    entries-KeepsIn :
        (id : ℕ) (host source_url : Text) (depth : ℕ) (ens : List Entry) (rows : List CatalogEntry)
        → KeepsIn P (enqueue_entry_followups c nested id host source_url depth ens rows)
    unfolding enqueue_entry_followups
    entries-KeepsIn id host source_url depth [] rows = λ w h. h
    entries-KeepsIn id host source_url depth (en ∷ ens) [] = λ w h. h
    entries-KeepsIn id host source_url depth (en ∷ ens) (row ∷ rows) =
        KeepsIn-seq P (follow_entry c nested id host source_url depth en row)
          (enqueue_entry_followups c nested id host source_url depth ens rows)
          (follow_entry-KeepsIn id host source_url depth en row)
          (entries-KeepsIn id host source_url depth ens rows)

    save_and_follow-KeepsIn :
        (f : Found) (domain_id : ℕ) → KeepsIn P (save_and_follow c nested f domain_id)
    unfolding save_and_follow
    save_and_follow-KeepsIn f domain_id =
        KeepsIn-bind P (saved_with c f domain_id) _ (λ w h. h)
          (λ saved.
            KeepsIn-seq P (recorded c f domain_id) (follow_ups c nested f saved.0.id saved.1)
              (λ w h. h)
              (KeepsIn-if P (leb c.max_catalog_depth f.depth) (return tt)
                (enqueue_entry_followups c nested saved.0.id f.host f.source_url f.depth
                  (entries_of c f) saved.1)
                (λ w h. h)
                (entries-KeepsIn saved.0.id f.host f.source_url f.depth (entries_of c f) saved.1)))

    resumed-KeepsIn :
        (f : Found) (id : ℕ) (rows : List CatalogEntry) → KeepsIn P (resumed c nested f id rows)
    resumed-KeepsIn f id rows =
        KeepsIn-if P (length rows == length (entries_of c f))
          (enqueue_entry_followups c nested id f.host f.source_url f.depth (entries_of c f) rows)
          (return tt) (entries-KeepsIn id f.host f.source_url f.depth (entries_of c f) rows)
          (λ w h. h)

    follow_unchanged-KeepsIn :
        (f : Found) (prior : Catalog) → KeepsIn P (follow_unchanged c nested f prior)
    unfolding follow_unchanged
    follow_unchanged-KeepsIn f prior =
        let again = on_store (entries_of_catalog prior.id) >>= resumed c nested f prior.id in
        KeepsIn-seq P (tell_unchanged c f prior)
          (if ltb f.depth c.max_catalog_depth then again else return tt) (λ w h. h)
          (KeepsIn-if P (ltb f.depth c.max_catalog_depth) again (return tt)
            (KeepsIn-bind P (on_store (entries_of_catalog prior.id)) (resumed c nested f prior.id)
              (λ w h. h) (resumed-KeepsIn f prior.id))
            (λ w h. h))

    prior_or_save-KeepsIn :
        (f : Found) (id : ℕ) (r : Result StoreError Catalog)
        → KeepsIn P (prior_or_save c nested f id r)
    prior_or_save-KeepsIn f id (ok prior) =
        KeepsIn-if P (text_eq prior.content_hash f.content_hash) (follow_unchanged c nested f prior)
          (save_and_follow c nested f id) (follow_unchanged-KeepsIn f prior)
          (save_and_follow-KeepsIn f id)
    prior_or_save-KeepsIn f id (err (missing text)) = save_and_follow-KeepsIn f id
    prior_or_save-KeepsIn f id (err (broken e)) = λ w h. h

    process_one-KeepsIn : (f : Found) → KeepsIn P (process_one c nested f)
    unfolding process_one
    process_one-KeepsIn f =
        KeepsIn-bind P (on_store (upsert_domain c.now f.host catalog_ref)) (with_domain c nested f)
          (λ w h. h)
          (λ d.
            KeepsIn-if P c.force (save_and_follow c nested f d.id) (unforced c nested f d.id)
              (save_and_follow-KeepsIn f d.id)
              (KeepsIn-try P
                (ask_store
                  (latest_catalog_by_source_and_parent d.id f.source_url f.parent_catalog_id))
                (prior_or_save c nested f d.id) (λ w h. h) (prior_or_save-KeepsIn f d.id)))

  pub process_catalog-KeepsIn : (fuel : ℕ) (f : Found) → KeepsIn P (process_catalog c fuel f)
  unfolding process_catalog
  process_catalog-KeepsIn zero f = λ w h. h
  process_catalog-KeepsIn (suc fuel) f =
      process_one-KeepsIn (process_catalog c fuel) (process_catalog-KeepsIn fuel) f

  pub process_found-KeepsIn : (f : Found) → KeepsIn P (process_found c f)
  process_found-KeepsIn f = process_catalog-KeepsIn _ f
