-- ===== src/Crawler/Nesting.antt =====
-- internal/crawler/handlers.go: `processCatalog` calls itself for a catalog inside a catalog, down to
-- `maxCatalogDepth`; the model bounds these calls by fuel.
use ardvark.Prelude.{
  ℕ, zero, suc, leb, ltb, ◌≤◌, ◌≡◌, refl, inl, inr, false, List, [], ◌∷◌, Option, some, Text,
  Bool-cases, ltb→lt, arith,
}
use ardvark.Frontier.Db.{Result, ok, err}
use ardvark.Effects.{bind_cong, try_cong}
use ardvark.Store.Tables.{Catalog, CatalogEntry, Domain, catalog_ref}
use ardvark.Store.Statements.{StoreError, missing, broken}
use ardvark.Store.Domains.{upsert_domain}
use ardvark.Store.Catalogs.{latest_catalog_by_source_and_parent, entries_of_catalog}
use ardvark.Ard.Document.{Entry}
use ardvark.Crawler.World.{H, Crawl, on_store, ask_store}
use ardvark.Crawler.Catalogs.{
  Found, follow_catalog_pointer, follow_entry, enqueue_entry_followups, embedded, entries_of,
  recorded, saved_with, tell_unchanged, save_and_follow, resumed, follow_unchanged, prior_or_save,
  with_domain, process_one, process_catalog,
}
use ardvark.Crawler.Requests.{levels, process_found}

module _ (c : Crawl) where
  -- Two ways to go on with what a catalog holds, the same for catalogs at a depth.
  abbrev Agree : ℕ → (Found → H (Unit {0})) → (Found → H (Unit {0})) → Type 0
  Agree depth m n = (g : Found) → g.depth ≡ depth → m g ≡ n g

  module _ (m n : Found → H (Unit {0})) where
    pointer-Agree :
        (en : Entry) (host source_url : Text) (depth : ℕ) (parent : Option ℕ)
        → Agree depth m n
        → follow_catalog_pointer c m en host source_url depth parent
          ≡ follow_catalog_pointer c n en host source_url depth parent
    unfolding follow_catalog_pointer
    pointer-Agree en host source_url depth parent h =
        rw (h (embedded c en host source_url parent depth) refl) refl

    entry-Agree :
        (catalog_id : ℕ) (host source_url : Text) (depth : ℕ) (en : Entry) (row : CatalogEntry)
        → Agree (suc depth) m n
        → follow_entry c m catalog_id host source_url depth en row
          ≡ follow_entry c n catalog_id host source_url depth en row
    unfolding follow_entry
    entry-Agree catalog_id host source_url depth en row h =
        rw (pointer-Agree en host source_url (suc depth) (some catalog_id) h) refl

    entries-Agree :
        (catalog_id : ℕ) (host source_url : Text) (depth : ℕ) (ens : List Entry)
        (rows : List CatalogEntry)
        → Agree (suc depth) m n
        → enqueue_entry_followups c m catalog_id host source_url depth ens rows
          ≡ enqueue_entry_followups c n catalog_id host source_url depth ens rows
    unfolding enqueue_entry_followups
    entries-Agree catalog_id host source_url depth [] rows h = refl
    entries-Agree catalog_id host source_url depth (en ∷ ens) [] h = refl
    entries-Agree catalog_id host source_url depth (en ∷ ens) (row ∷ rows) h =
        rw
          (
            entry-Agree catalog_id host source_url depth en row h,
            entries-Agree catalog_id host source_url depth ens rows h,
          )
          refl

    deeper : (a b : ℕ) → leb a b ≡ false → suc b ≤ a
    deeper a b h = ground arith

    -- What lies deeper is followed only above the limit.
    abbrev Below : Found → Type 0
    Below f = (suc f.depth ≤ c.max_catalog_depth) → Agree (suc f.depth) m n

    save_and_follow-Agree :
        (f : Found) (id : ℕ) → Below f → save_and_follow c m f id ≡ save_and_follow c n f id
    unfolding save_and_follow
    save_and_follow-Agree f id h = elim (Bool-cases (leb c.max_catalog_depth f.depth)) [
      | inl y ↦ rw y refl
      | inr z ↦ rw z (
          bind_cong (saved_with c f id) _ _ (λ saved. bind_cong (recorded c f id) _ _ (λ done.
            entries-Agree saved.0.id f.host f.source_url f.depth (entries_of c f) saved.1
              (h (deeper c.max_catalog_depth f.depth z)))))
    ]

    resumed-Agree :
        (f : Found) (id : ℕ) (rows : List CatalogEntry)
        → Agree (suc f.depth) m n
        → resumed c m f id rows ≡ resumed c n f id rows
    resumed-Agree f id rows h =
        rw (entries-Agree id f.host f.source_url f.depth (entries_of c f) rows h) refl

    follow_unchanged-Agree :
        (f : Found) (prior : Catalog)
        → Below f
        → follow_unchanged c m f prior ≡ follow_unchanged c n f prior
    unfolding follow_unchanged
    follow_unchanged-Agree f prior h = elim (Bool-cases (ltb f.depth c.max_catalog_depth)) [
      | inl y ↦ rw y (
          bind_cong (tell_unchanged c f prior) _ _ (λ done.
            bind_cong (on_store (entries_of_catalog prior.id)) _ _
              (λ rows. resumed-Agree f prior.id rows (h (ltb→lt _ _ y)))))
      | inr z ↦ rw z refl
    ]

    prior_or_save-Agree :
        (f : Found) (id : ℕ)
        → Below f
        → (r : Result StoreError Catalog) → prior_or_save c m f id r ≡ prior_or_save c n f id r
    prior_or_save-Agree f id h (ok prior) =
        rw (follow_unchanged-Agree f prior h, save_and_follow-Agree f id h) refl
    prior_or_save-Agree f id h (err (missing text)) = save_and_follow-Agree f id h
    prior_or_save-Agree f id h (err (broken e)) = refl

    with_domain-Agree :
        (f : Found) (d : Domain) → Below f → with_domain c m f d ≡ with_domain c n f d
    with_domain-Agree f d h =
        rw
          (
            save_and_follow-Agree f d.id h,
            try_cong
                (ask_store
                  (latest_catalog_by_source_and_parent d.id f.source_url f.parent_catalog_id))
                (prior_or_save c m f d.id) (prior_or_save c n f d.id)
                (prior_or_save-Agree f d.id h),
          )
          refl

    process_one-Agree : (f : Found) → Below f → process_one c m f ≡ process_one c n f
    unfolding process_one
    process_one-Agree f h =
        bind_cong (on_store (upsert_domain c.now f.host catalog_ref)) _ _
          (λ d. with_domain-Agree f d h)

  -- Fuel for the catalogs below a depth.
  enough_lem :
      (fuel more : ℕ) (f : Found)
      → levels c f.depth ≤ fuel
      → levels c f.depth ≤ more
      → process_catalog c fuel f ≡ process_catalog c more f
  unfolding process_catalog
  enough_lem zero more f h g = absurd (omega (arith, h))
  enough_lem (suc fuel) zero f h g = absurd (omega (arith, g))
  enough_lem (suc fuel) (suc more) f h g =
      process_one-Agree (process_catalog c fuel) (process_catalog c more) f (λ room k e.
        enough_lem fuel more k (rw e omega (arith, h, room)) (rw e omega (arith, g, room)))

  -- With fuel for the levels that `maxCatalogDepth` leaves below a document, or with any more,
  -- `processCatalog` is its body with its own calls in place of the recursive ones, whatever the peers
  -- and the faults: the fuel never runs out, and the recursion ends.
  pub process_catalog_lem :
      (fuel : ℕ) (f : Found)
      → levels c f.depth ≤ fuel
      → process_catalog c fuel f ≡ process_one c (process_found c) f
  unfolding process_catalog
  process_catalog_lem zero f h = absurd (omega (arith, h))
  process_catalog_lem (suc fuel) f h =
      process_one-Agree (process_catalog c fuel) (process_found c) f (λ room g e.
        enough_lem fuel (levels c g.depth) g (rw e (omega (arith, h, room))) (omega arith))
