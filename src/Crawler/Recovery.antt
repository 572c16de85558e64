-- ===== src/Crawler/Recovery.antt =====
-- internal/crawler/handlers.go: that a document that `processCatalog` was forced to process is saved and
-- leaves all of its follow-up work in the frontier.
use ardvark.Prelude.{
  ℕ, zero, suc, leb, ◌≡◌, refl, sym, ap, ◌∙◌, [], ◌∷◌, ◌++◌, inl, inr, Bool, true, false, List,
  Bool-cases, arith, if◌then◌else◌,
}
use ardvark.Frontier.Db.{Table, ok}
use ardvark.Store.Tables.{Tables, Domain, Catalog, CatalogEntry, catalog_ref}
use ardvark.Store.Statements.{Store, S, peers_of}
use ardvark.Store.Atomic.{save_catalog_lem}
use ardvark.Effects.{◌>>◌}
use ardvark.Crawler.Rows.{split_checks, build_entry_rows}
use ardvark.Store.Domains.{upsert_domain}
use ardvark.Store.Catalogs.{Saved, save_catalog}
use ardvark.Frontier.Keys.{Calm}
use ardvark.Crawler.World.{World, H, Crawl}
use ardvark.Crawler.Catalogs.{
  Found, entries_of, report_of, new_catalog, recorded, follow_ups, save_and_follow, with_domain,
  unforced, process_one, process_catalog, too_deep,
}
use ardvark.Crawler.Leaves.{
  Leaves, IsLeft, IsLeft-from, IsStable, Leaves-return, Leaves-throw, Leaves-weaken,
  Leaves-after_ok, Leaves-asked, IsLeft-weaken,
}
use ardvark.Crawler.Followups.{
  AllFollowed, AllFollowed-IsStable, enqueue_entry_followups-AllFollowed,
}

module _ (c : Crawl) where
  -- `SaveCatalog` of a document, for the domain of its host.
  abbrev pub save_of : Found → ℕ → S Saved
  save_of f domain_id =
      let parts = split_checks c.now (report_of c f).checks (entries_of c f) in
      save_catalog (new_catalog c f (c.decode_catalog f.raw) (report_of c f) domain_id)
        (build_entry_rows c.names c.encode_list (entries_of c f)) parts.0 parts.1

  -- From this state of the store the save of a document succeeds: it adds one row of the catalog, and
  -- gives these rows of the entries.
  pub record IsSaved (f : Found) (domain_id : ℕ) (s : Store) (row : Catalog)
      (rows : List CatalogEntry) : Type 0 where
    pub result : (save_of f domain_id s).0 ≡ ok (row, rows)
    pub stored :
        (save_of f domain_id s).1.tables.catalogs.rows
        ≡ (peers_of s.world s.tables).catalogs.rows ++ row ∷ []
    pub address : row.source_url ≡ f.source_url
    pub document : row.raw_json ≡ f.raw

  save_of-IsSaved :
      (f : Found) (domain_id : ℕ) (s : Store) (saved : Saved)
      → (save_of f domain_id s).0 ≡ ok saved
      → IsSaved f domain_id s saved.0 saved.1
  save_of-IsSaved f domain_id s saved e =
      let parts = split_checks c.now (report_of c f).checks (entries_of c f) in
      let cat = new_catalog c f (c.decode_catalog f.raw) (report_of c f) domain_id in
      let rows = build_entry_rows c.names c.encode_list (entries_of c f) in
      let (given, tables) = (save_catalog_lem cat rows parts.0 parts.1 s).0 saved e in
      record {
        result = e;
        stored =
            ap (λ (t : Tables). t.catalogs.rows) tables
            ∙ ap (λ (p : Saved). (peers_of s.world s.tables).catalogs.rows ++ p.0 ∷ []) (sym given);
        address = ap (λ (p : Saved). p.0.source_url) given;
        document = ap (λ (p : Saved). p.0.raw_json) given;
      }

  -- What processing a document leaves from a state of the store, where `N` is what the catalogs inside it
  -- leave: its domain and its row have been stored, and the work for each of its entries is in the
  -- frontier under the ids of these rows.
  abbrev pub ReachedFrom : (Found → Table → Type 0) → Found → Store → Table → Type 0
  ReachedFrom N f s t =
      let upserted = upsert_domain c.now f.host catalog_ref s in
      (d : Domain) × (row : Catalog) × (rows : List CatalogEntry) × (upserted.0 ≡ ok d)
      × IsSaved f d.id upserted.1 row rows
      × (leb c.max_catalog_depth f.depth ≡ false
          → AllFollowed c N row.id f.host f.source_url f.depth (entries_of c f) rows t)

  -- The same of the catalogs in one another, each from the state of the store that its own processing
  -- started in.
  abbrev pub Reached : ℕ → Found → Table → Type 0
  Reached zero f t = Unit {0}
  Reached (suc n) f t = (s : Store) × ReachedFrom (Reached n) f s t

  Reached-IsStable : (n : ℕ) (f : Found) → IsStable (Reached n f)
  Reached-IsStable zero f t u g p = tt
  Reached-IsStable (suc n) f t u g p =
      let (d, row, rows, known, saved, all) = p.1 in
      (
        p.0,
        (
          d,
          row,
          rows,
          known,
          saved,
          λ above.
              AllFollowed-IsStable c (Reached n) (Reached-IsStable n) row.id f.host f.source_url
                f.depth (entries_of c f) rows t u g (all above),
        ),
      )

  -- The calls of `processCatalog` are made with a contract.
  module _ (N : Found → Table → Type 0) (nested : Found → H (Unit {0}))
      (stable : (g : Found) → IsStable (N g))
      (leaves : (g : Found) → Leaves (λ a. N g) (nested g)) where
    abbrev Followed : Found → ℕ → List CatalogEntry → Table → Type 0
    Followed f id rows t =
        leb c.max_catalog_depth f.depth ≡ false
        → AllFollowed c N id f.host f.source_url f.depth (entries_of c f) rows t

    follow_ups-Followed :
        (f : Found) (id : ℕ) (rows : List CatalogEntry)
        → Leaves (λ a. Followed f id rows) (follow_ups c nested f id rows)
    follow_ups-Followed f id rows = elim (Bool-cases (leb c.max_catalog_depth f.depth)) [
      | inl y ↦ rw y (Leaves-weaken _ _ _ (Leaves-return tt) (λ a t q z. absurd (ground arith)))
      | inr z ↦ rw z (
          Leaves-weaken _ _ _
            (enqueue_entry_followups-AllFollowed c N nested stable leaves id f.host f.source_url
              f.depth (entries_of c f) rows)
            (λ a t q above. q))
    ]

    after_save :
        (f : Found) (domain_id : ℕ) (saved : Saved)
        → Leaves
            (λ a. Followed f saved.0.id saved.1)
            (recorded c f domain_id >> follow_ups c nested f saved.0.id saved.1)
    after_save f domain_id saved =
        Leaves-after_ok (recorded c f domain_id) _ (λ a. Followed f saved.0.id saved.1) (λ w. refl)
          (λ a. follow_ups-Followed f saved.0.id saved.1)

    abbrev SavedFrom : Found → ℕ → Store → Table → Type 0
    SavedFrom f domain_id s t =
        (row : Catalog) × (rows : List CatalogEntry) × IsSaved f domain_id s row rows
        × Followed f row.id rows t

    pub save_and_follow-SavedFrom :
        (f : Found) (domain_id : ℕ) (w : World)
        → Calm w.frontier.world
        → IsLeft (λ a. SavedFrom f domain_id w.store) w (save_and_follow c nested f domain_id w)
    unfolding save_and_follow
    save_and_follow-SavedFrom f domain_id w h =
        Leaves-asked (save_of f domain_id)
          (λ saved. recorded c f domain_id >> follow_ups c nested f saved.0.id saved.1) w
          (SavedFrom f domain_id w.store) h
          (λ saved e.
            let later = record w { store = (save_of f domain_id w.store).1 } in
            IsLeft-from _ later w _ refl (
              IsLeft-weaken _ _ later _ (after_save f domain_id saved later h)
                (λ a t q. (saved.0, saved.1, save_of-IsSaved f domain_id w.store saved e, q))))

    forced_lem :
        (P : Table → Type 0) (w : World) (b : Bool) (m k : H (Unit {0}))
        → b ≡ true
        → IsLeft (λ a. P) w (m w)
        → IsLeft (λ a. P) w ((if b then m else k) w)
    forced_lem P w true m k e hm = hm
    forced_lem P w false m k e hm = cc

    process_one-ReachedFrom :
        (f : Found) (w : World)
        → c.force ≡ true
        → Calm w.frontier.world
        → IsLeft (λ a. ReachedFrom N f w.store) w (process_one c nested f w)
    unfolding process_one
    process_one-ReachedFrom f w forced h =
        Leaves-asked (upsert_domain c.now f.host catalog_ref) (with_domain c nested f) w
          (ReachedFrom N f w.store) h
          (λ d e.
            let later = record w { store = (upsert_domain c.now f.host catalog_ref w.store).1 } in
            IsLeft-from _ later w _ refl (
              IsLeft-weaken _ _ later _
                (forced_lem (SavedFrom f d.id later.store) later c.force
                  (save_and_follow c nested f d.id) (unforced c nested f d.id) forced
                  (save_and_follow-SavedFrom f d.id later h))
                (λ a t (row, rows, saved, all). (d, row, rows, e, saved, all))))

  process_catalog-Leaves :
      (fuel : ℕ) (f : Found)
      → c.force ≡ true
      → Leaves (λ a. Reached fuel f) (process_catalog c fuel f)
  unfolding process_catalog
  process_catalog-Leaves zero f forced = Leaves-throw (λ a t. Unit {0}) too_deep
  process_catalog-Leaves (suc fuel) f forced = λ w h.
      IsLeft-weaken _ _ w _
        (process_one-ReachedFrom (Reached fuel) (process_catalog c fuel) (Reached-IsStable fuel)
          (λ g. process_catalog-Leaves fuel g forced) f w forced h)
        (λ a t q. (w.store, q))

  -- `processCatalog`, forced to process a document whether or not it has changed: where it ends without
  -- an error, its domain has been upserted from the state of the store at the start, and next its save
  -- has succeeded, which has added one row with its address and its text; and if the document is above
  -- `maxCatalogDepth`, the work for each of its entries is in the frontier under the ids of the rows of
  -- that save, and the same holds of the catalogs inside it, each from some state of the store, for as many
  -- levels as there is fuel. Peers of the frontier that only add keys may come in between, and faults of it
  -- that do not read like a clash on the unique index may occur; of the store nothing is assumed.
  pub process_catalog-Reached :
      (fuel : ℕ) (f : Found) (w : World)
      → c.force ≡ true
      → Calm w.frontier.world
      → IsLeft (λ a. ReachedFrom (Reached fuel) f w.store) w (process_catalog c (suc fuel) f w)
  unfolding process_catalog
  process_catalog-Reached fuel f w forced h =
      process_one-ReachedFrom (Reached fuel) (process_catalog c fuel) (Reached-IsStable fuel)
        (λ g. process_catalog-Leaves fuel g forced) f w forced h
