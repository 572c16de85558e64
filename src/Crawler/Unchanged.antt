-- ===== src/Crawler/Unchanged.antt =====
-- internal/crawler/handlers.go: what `processCatalog` does for a document that is unchanged.
use ardvark.Prelude.{
  ℕ, zero, suc, ltb, ◌==◌, ==_iff, ◌≡◌, ◌≢◌, refl, inl, inr, true, false, List, length, text_eq,
  Bool-cases, arith, if◌then◌else◌,
}
use ardvark.Frontier.Db.{Table, Result, ok, err}
use ardvark.Store.Tables.{Catalog, CatalogEntry, catalog_ref}
use ardvark.Store.Statements.{StoreError, missing, broken}
use ardvark.Effects.{return, ◌>>=◌}
use ardvark.Store.Domains.{upsert_domain}
use ardvark.Store.Catalogs.{latest_catalog_by_source_and_parent, entries_of_catalog}
use ardvark.Frontier.Keys.{Calm}
use ardvark.Crawler.World.{World, H, Crawl, on_store, ask_store}
use ardvark.Crawler.Catalogs.{
  Found, entries_of, enqueue_entry_followups, resumed, prior_or_save, save_and_follow,
  tell_unchanged, follow_unchanged, with_domain, unforced, process_one, process_catalog, too_deep,
}
use ardvark.Crawler.Leaves.{
  Leaves, IsLeft, IsLeft-from, Leaves-return, Leaves-throw, Leaves-weaken, Leaves-after_ok,
  Leaves-after, IsLeft-weaken,
}
use ardvark.Crawler.Followups.{AllFollowed, enqueue_entry_followups-AllFollowed}
use ardvark.Crawler.Recovery.{save_and_follow-SavedFrom}

module _ (c : Crawl) where
  -- Forced or not, processing a document loses no key of the frontier.
  abbrev Nothing : Found → Table → Type 0
  Nothing f t = Unit {0}

  module _ (nested : Found → H (Unit {0}))
      (leaves : (g : Found) → Leaves (λ a. Nothing g) (nested g)) where
    abbrev Still : H (Unit {0}) → Type 0
    Still m = Leaves (λ (a : Unit {0}) t. Unit {0}) m

    all_followed :
        (f : Found) (id : ℕ) (rows : List CatalogEntry)
        → Leaves
            (λ a. AllFollowed c Nothing id f.host f.source_url f.depth (entries_of c f) rows)
            (enqueue_entry_followups c nested id f.host f.source_url f.depth (entries_of c f) rows)
    all_followed f id rows =
        enqueue_entry_followups-AllFollowed c Nothing nested (λ g t u h p. tt) leaves id f.host
          f.source_url f.depth (entries_of c f) rows

    resumed-Still :
        (f : Found) (id : ℕ) (rows : List CatalogEntry) → Still (resumed c nested f id rows)
    resumed-Still f id rows = elim (Bool-cases (length rows == length (entries_of c f))) [
      | inl y ↦ rw y (Leaves-weaken _ _ _ (all_followed f id rows) (λ a t q. tt))
      | inr n ↦ rw n (Leaves-return tt)
    ]

    abbrev read_back : Found → Catalog → H (Unit {0})
    read_back f prior =
        if ltb f.depth c.max_catalog_depth
        then (on_store (entries_of_catalog prior.id) >>= resumed c nested f prior.id)
        else return tt

    read_back-Still : (f : Found) (prior : Catalog) → Still (read_back f prior)
    read_back-Still f prior = elim (Bool-cases (ltb f.depth c.max_catalog_depth)) [
      | inl y ↦ rw y (
          Leaves-after_ok (on_store (entries_of_catalog prior.id)) (resumed c nested f prior.id)
            (λ a t. Unit {0}) (λ w. refl) (resumed-Still f prior.id))
      | inr n ↦ rw n (Leaves-return tt)
    ]

    follow_unchanged-Still :
        (f : Found) (prior : Catalog) → Still (follow_unchanged c nested f prior)
    unfolding follow_unchanged
    follow_unchanged-Still f prior =
        Leaves-after_ok (tell_unchanged c f prior) (λ a. read_back f prior) (λ a t. Unit {0})
          (λ w. refl) (λ a. read_back-Still f prior)

    save_and_follow-Still :
        (f : Found) (domain_id : ℕ) → Still (save_and_follow c nested f domain_id)
    save_and_follow-Still f domain_id w h =
        IsLeft-weaken _ _ w _
          (save_and_follow-SavedFrom c Nothing nested (λ g t u g' p. tt) leaves f domain_id w h)
          (λ a t q. tt)

    prior_or_save-Still :
        (f : Found) (domain_id : ℕ) (r : Result StoreError Catalog)
        → Still (prior_or_save c nested f domain_id r)
    prior_or_save-Still f domain_id (ok prior) =
        elim (Bool-cases (text_eq prior.content_hash f.content_hash)) [
          | inl y ↦ rw y (follow_unchanged-Still f prior)
          | inr n ↦ rw n (save_and_follow-Still f domain_id)
        ]
    prior_or_save-Still f domain_id (err (missing text)) = save_and_follow-Still f domain_id
    prior_or_save-Still f domain_id (err (broken e)) = Leaves-throw (λ a t. Unit {0}) e

    unforced-Still : (f : Found) (domain_id : ℕ) → Still (unforced c nested f domain_id)
    unforced-Still f domain_id =
        Leaves-after
          (ask_store
            (latest_catalog_by_source_and_parent domain_id f.source_url f.parent_catalog_id))
          (prior_or_save c nested f domain_id) (λ a t. Unit {0}) (λ w. refl)
          (prior_or_save-Still f domain_id)

    process_one-Still : (f : Found) → Still (process_one c nested f)
    unfolding process_one
    process_one-Still f =
        Leaves-after_ok (on_store (upsert_domain c.now f.host catalog_ref)) (with_domain c nested f)
          (λ a t. Unit {0}) (λ w. refl)
          (λ d. elim (Bool-cases c.force) [
            | inl y ↦ rw y (save_and_follow-Still f d.id)
            | inr n ↦ rw n (unforced-Still f d.id)
          ])

  process_catalog-Still :
      (fuel : ℕ) (f : Found) → Leaves (λ a. Nothing f) (process_catalog c fuel f)
  unfolding process_catalog
  process_catalog-Still zero f = Leaves-throw (λ a t. Unit {0}) too_deep
  process_catalog-Still (suc fuel) f =
      process_one-Still (process_catalog c fuel) (process_catalog-Still fuel) f

  -- A document that is unchanged since the row `prior`, above the limit on depth, whose stored entries have
  -- been loaded, forced or not: if there are as many as in the document, then where the call ends without
  -- an error the work for each entry that has a URL, be it a catalog's, a registry's or an artifact's,
  -- and that the configuration asks for is in the frontier under the ids of the stored rows; if not, the call reports no error and enqueues
  -- nothing.
  pub follow_unchanged_lem :
      (fuel : ℕ) (f : Found) (prior : Catalog) (w : World) (rows : List CatalogEntry)
      → Calm w.frontier.world
      → ltb f.depth c.max_catalog_depth ≡ true
      → (entries_of_catalog prior.id w.store).0 ≡ ok rows
      → let out = follow_unchanged c (process_catalog c fuel) f prior w in
        ((length rows ≡ length (entries_of c f))
          → IsLeft
              (λ a.
                AllFollowed c Nothing prior.id f.host f.source_url f.depth (entries_of c f) rows)
              w
              out)
        × ((length rows ≢ length (entries_of c f))
            → (out.0 ≡ ok tt) × (out.1.frontier ≡ w.frontier))
  unfolding follow_unchanged
  follow_unchanged_lem fuel f prior w rows h above loaded =
      rw (above, loaded)
        (
          λ same. rw (same_length same) (
              IsLeft-from _ read w _ refl (
                all_followed (process_catalog c fuel) (process_catalog-Still fuel) f prior.id rows
                  read h)),
          λ differ. rw (other_length differ) (refl, refl),
        )
    where
      read : World
      read = (on_store (entries_of_catalog prior.id) (tell_unchanged c f prior w).1).1

      same_length :
          (length rows ≡ length (entries_of c f)) → (length rows == length (entries_of c f)) ≡ true
      same_length e = (==_iff _ _).1 e

      other_length :
          (length rows ≢ length (entries_of c f)) → (length rows == length (entries_of c f)) ≡ false
      other_length ne = ground (arith, ==_iff (length rows) (length (entries_of c f)))
