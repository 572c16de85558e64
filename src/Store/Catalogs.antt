-- ===== src/Store/Catalogs.antt =====
-- internal/store/store.go: catalogs, entries, checks, artifacts and registries.
use ardvark.Prelude.{
  ℕ, suc, ltb, ◌==◌, Bool, true, false, ◌&&◌, List, [], ◌∷◌, map, Option, none, some, Text, codes,
  text_eq, find, select, update_where, is_empty, get_elem?, if◌then◌else◌,
}
use ardvark.Frontier.Db.{Result, ok}
use ardvark.Effects.{return, throw, ◌>>=◌, ◌>>◌, for_each}
use ardvark.Store.Tables.{
  Tables, Rows, appended, Catalog, CatalogEntry, VerificationCheck, SubjectType, of_catalog,
  of_entry, Artifact, Registry, HarvestStatus,
}
use ardvark.Store.Statements.{
  StoreError, missing, broken, S, statement, inside, transaction, first_row,
}

abbrev pub option_eq : Option ℕ → Option ℕ → Bool
option_eq none none = true
option_eq (some a) (some b) = a == b
option_eq _ _ = false

abbrev pub insert_catalog : Catalog → Tables → Result StoreError Catalog × Tables
insert_catalog c t =
    let row = record c { id = t.catalogs.next_id } in
    (ok row, record t { catalogs = appended row t.catalogs })

-- A batch of rows gets ids in its order.
abbrev pub numbered_entries : ℕ → List CatalogEntry → List CatalogEntry
numbered_entries n [] = []
numbered_entries n (e ∷ es) = record e { id = n } ∷ numbered_entries (suc n) es

abbrev pub append_entries : List CatalogEntry → Rows CatalogEntry → Rows CatalogEntry
append_entries [] r = r
append_entries (e ∷ es) r = append_entries es (appended e r)

abbrev pub insert_entries :
    List CatalogEntry → Tables → Result StoreError (List CatalogEntry) × Tables
insert_entries es t =
    let rows = numbered_entries t.entries.next_id es in
    (ok rows, record t { entries = append_entries rows t.entries })

-- `if len(entries) > 0 { … Create(&entries) }`, inside a transaction.
unfoldable pub create_entries : List CatalogEntry → S (List CatalogEntry)
unfolding inside
create_entries es = if is_empty es then return [] else inside (insert_entries es)

abbrev pub append_checks : List VerificationCheck → Rows VerificationCheck → Rows VerificationCheck
append_checks [] r = r
append_checks (c ∷ cs) r = append_checks cs (appended (record c { id = r.next_id }) r)

abbrev pub insert_checks : List VerificationCheck → Tables → Result StoreError (Unit {0}) × Tables
insert_checks cs t = (ok tt, record t { checks = append_checks cs t.checks })

unfoldable pub create_checks : List VerificationCheck → S (Unit {0})
unfolding inside
create_checks cs = if is_empty cs then return tt else inside (insert_checks cs)

abbrev pub on_subject : SubjectType → ℕ → VerificationCheck → VerificationCheck
on_subject kind id c = record c { subject_type = kind; subject_id = id }

abbrev pub of_saved : CatalogEntry → ℕ → CatalogEntry
of_saved e id = record e { catalog_id = id }

-- The index of a check that has no entry.
abbrev pub out_of_range : StoreError
out_of_range = broken (record {
  text = codes "store: entry check index out of range";
  canceled = false;
  classified = none;
  timeout = false;
})

abbrev pub checks_of_entry : List VerificationCheck → Option CatalogEntry → S (Unit {0})
checks_of_entry cs none = throw out_of_range
checks_of_entry cs (some e) = create_checks (map (on_subject of_entry e.id) cs)

-- One round of the loop over `entryChecks`.
abbrev pub save_entry_checks : List CatalogEntry → ℕ × List VerificationCheck → S (Unit {0})
save_entry_checks rows (i, cs) = checks_of_entry cs (get_elem? rows i)

-- A saved catalog: its row, with the rows of its entries.
abbrev pub Saved : Type 0
Saved = Catalog × List CatalogEntry

abbrev pub save_rest :
    List CatalogEntry
    → List VerificationCheck
    → List (ℕ × List VerificationCheck)
    → Catalog
    → S Saved
save_rest entries catalog_checks entry_checks cat = do
  let es = map (λ (e : CatalogEntry). of_saved e cat.id) entries
  rows ← create_entries es
  create_checks (map (on_subject of_catalog cat.id) catalog_checks)
  for_each (save_entry_checks rows) entry_checks
  return (cat, rows)

-- `SaveCatalog`, with the map `entryChecks` as the list of its entries in the order of the loop.
unfoldable pub save_catalog :
    Catalog
    → List CatalogEntry
    → List VerificationCheck
    → List (ℕ × List VerificationCheck)
    → S Saved
unfolding transaction inside create_entries create_checks for_each
save_catalog cat entries catalog_checks entry_checks =
    transaction (inside (insert_catalog cat) >>= save_rest entries catalog_checks entry_checks)

-- `ORDER BY fetched_at DESC LIMIT 1`, then by the primary key.
abbrev pub newer : Catalog → Option Catalog → Option Catalog
newer c none = some c
newer c (some best) = if ltb c.fetched_at best.fetched_at then some best else some c

unfoldable pub latest : List Catalog → Option Catalog
latest [] = none
latest (c ∷ cs) = newer c (latest cs)

abbrev pub of_source : ℕ → Text → Option ℕ → Catalog → Bool
of_source domain_id url parent c =
    (c.domain_id == domain_id) && text_eq c.source_url url && option_eq c.parent_catalog_id parent

abbrev pub latest_row : (Catalog → Bool) → Tables → Result StoreError (Option Catalog) × Tables
latest_row p t = (ok (latest (select p t.catalogs.rows)), t)

abbrev pub found_catalog : Option Catalog → S Catalog
found_catalog (some c) = return c
found_catalog none = throw (missing (codes "store: not found"))

-- `LatestCatalogBySourceAndParent`.
unfoldable pub latest_catalog_by_source_and_parent : ℕ → Text → Option ℕ → S Catalog
unfolding statement latest select text_eq
latest_catalog_by_source_and_parent domain_id url parent =
    statement (latest_row (of_source domain_id url parent)) >>= found_catalog

-- `LatestCatalogBySource`.
abbrev pub latest_catalog_by_source : ℕ → Text → S Catalog
latest_catalog_by_source domain_id url = latest_catalog_by_source_and_parent domain_id url none

-- `CatalogByHash`.
unfoldable pub catalog_by_hash : Text → S Catalog
unfolding statement latest select text_eq
catalog_by_hash hash = statement (latest_row (λ c. text_eq c.content_hash hash)) >>= found_catalog

abbrev pub entries_row : ℕ → Tables → Result StoreError (List CatalogEntry) × Tables
entries_row catalog_id t = (ok (select (λ e. e.catalog_id == catalog_id) t.entries.rows), t)

-- `Where("catalog_id = ?", …).Order("id ASC").Find(&prior.Entries)` of internal/crawler/handlers.go.
unfoldable pub entries_of_catalog : ℕ → S (List CatalogEntry)
unfolding statement select
entries_of_catalog catalog_id = statement (entries_row catalog_id)

-- `SaveEntries`.
unfoldable pub save_entries : List CatalogEntry → S (List CatalogEntry)
unfolding statement
save_entries es = if is_empty es then return [] else statement (insert_entries es)

abbrev pub insert_artifact : Artifact → Tables → Result StoreError (Unit {0}) × Tables
insert_artifact a t =
    let row = record a { id = t.artifacts.next_id } in
    (ok tt, record t { artifacts = appended row t.artifacts })

-- `SaveArtifact`, of which every caller sets `FetchedAt`.
unfoldable pub save_artifact : Artifact → S (Unit {0})
unfolding statement
save_artifact a = statement (insert_artifact a)

abbrev pub same_reference : Registry → Registry → Bool
same_reference r q =
    (q.entry_id == r.entry_id)
    && text_eq q.base_url r.base_url
    && option_eq q.referral_source_id r.referral_source_id

abbrev pub insert_registry : Registry → Tables → Result StoreError Registry × Tables
insert_registry r t =
    let row = record r { id = t.registries.next_id } in
    (ok row, record t { registries = appended row t.registries })

abbrev pub existing_or_create : Registry → Option Registry → S Registry
existing_or_create r (some q) = return q
existing_or_create r none = statement (insert_registry r)

-- `SaveRegistry`, with the row that `*r` is after the call.
unfoldable pub save_registry : Registry → S Registry
unfolding statement find text_eq
save_registry r =
    statement (first_row (λ t. t.registries) (same_reference r)) >>= existing_or_create r

abbrev pub harvested : ℕ → HarvestStatus → Registry → Registry
harvested now status r = record r { harvest_status = status; last_harvested_at = some now }

abbrev pub set_registries :
    (Registry → Bool) → (Registry → Registry) → Tables → Result StoreError (Unit {0}) × Tables
set_registries p f t =
    let rs = t.registries in
    (ok tt, record t { registries = record rs { rows = update_where p f rs.rows } })

-- `UpdateRegistryStatus`.
unfoldable pub update_registry_status : ℕ → HarvestStatus → ℕ → S (Unit {0})
unfolding statement update_where
update_registry_status id status now =
    statement (set_registries (λ r. r.id == id) (harvested now status))
