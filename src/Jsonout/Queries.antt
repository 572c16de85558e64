-- ===== src/Jsonout/Queries.antt =====
-- internal/jsonout/search.go: the queries of `GetCatalog` and `GetEntry`.
use ardvark.Prelude.{
  ℕ, ltb, leb, ◌==◌, ◌+◌, ◌*◌, ◌-◌, Bool, true, false, ◌&&◌, ◌||◌, List, [], ◌∷◌, ◌++◌, map, not,
  take, select, find, any, Option, none, some, Text, text_eq, is_empty, length, if◌then◌else◌,
}
use ardvark.Frontier.Db.{Result, ok, err}
use ardvark.Effects.{Act, return, throw, try, ◌>>=◌}
use ardvark.Ard.Document.{ℤ}
use ardvark.Store.Tables.{
  Tables, Rows, Domain, Catalog, CatalogEntry, VerificationCheck, SubjectType, of_catalog, of_entry,
}
use ardvark.Store.Statements.{Store, StoreError, statement, first_row}
use ardvark.Jsonout.{Texts, search_limit}
pub mod Grouped

-- `strconv.ParseUint` of digits; what is above 64 bits is refused by the caller.
unfoldable pub digits_from : ℕ → Text → Option ℕ
digits_from v [] = some v
digits_from v (b ∷ s) =
    let rest = digits_from (v * 10 + (b - 48)) s in if leb 48 b && leb b 57 then rest else none

abbrev pub accepted_id : Option ℕ → Option ℕ
accepted_id none = none
accepted_id (some id) = if ltb 0 id && ltb id 18446744073709551616 then some id else none

-- `numericSelector`.
unfoldable pub numeric_selector : Text → Option ℕ
unfolding digits_from
numeric_selector [] = none
numeric_selector (b ∷ s) = accepted_id (digits_from 0 (b ∷ s))

-- `ORDER BY fetched_at DESC, id DESC`: whether the first comes before the second.
abbrev pub is_newer : {A : Type 0} → (A → ℕ) → (A → ℕ) → A → A → Bool
is_newer fetched id a b =
    ltb (fetched b) (fetched a) || ((fetched a == fetched b) && ltb (id b) (id a))

abbrev pub newer_of : {A : Type 0} → (A → A → Bool) → A → Option A → Option A
newer_of before a none = some a
newer_of before a (some b) = if before a b then some a else some b

-- The first row in that order.
unfoldable pub newest : {A : Type 0} → (A → A → Bool) → List A → Option A
newest before [] = none
newest before (a ∷ rest) = newer_of before a (newest before rest)

abbrev pub catalog_by_selector : Text → Option ℕ → Tables → Option Catalog
catalog_by_selector selector (some id) t = find (λ c. c.id == id) t.catalogs.rows
catalog_by_selector selector none t =
    newest (is_newer (λ c. c.fetched_at) (λ c. c.id))
      (select (λ c. text_eq c.source_url selector) t.catalogs.rows)

abbrev pub with_catalog :
    CatalogEntry → Option Catalog → List (CatalogEntry × Catalog) → List (CatalogEntry × Catalog)
with_catalog e none rows = rows
with_catalog e (some c) rows = (e, c) ∷ rows

-- `JOIN catalogs ON catalogs.id = catalog_entries.catalog_id`.
unfoldable pub with_catalogs : Tables → List CatalogEntry → List (CatalogEntry × Catalog)
unfolding find
with_catalogs t [] = []
with_catalogs t (e ∷ es) =
    with_catalog e (find (λ c. c.id == e.catalog_id) t.catalogs.rows) (with_catalogs t es)

abbrev pub entry_of : Option (CatalogEntry × Catalog) → Option CatalogEntry
entry_of none = none
entry_of (some p) = some p.0

abbrev pub entry_by_selector : Text → Option ℕ → Tables → Option CatalogEntry
entry_by_selector selector (some id) t = find (λ e. e.id == id) t.entries.rows
entry_by_selector selector none t = entry_of (
    newest (is_newer (λ p. p.1.fetched_at) (λ p. p.0.id))
      (with_catalogs t (select (λ e. text_eq e.urn selector) t.entries.rows)))

abbrev pub is_entry_check : VerificationCheck → Bool
is_entry_check k = elim k.subject_type [ of_entry ↦ true | of_catalog ↦ false ]

-- `ORDER BY subject_type, subject_id, id` of checks of one type, which stand in the order of their ids.
unfoldable pub insert_check : VerificationCheck → List VerificationCheck → List VerificationCheck
insert_check k [] = k ∷ []
insert_check k (j ∷ js) =
    let rest = insert_check k js in if leb k.subject_id j.subject_id then k ∷ j ∷ js else j ∷ rest

unfoldable pub by_subject : List VerificationCheck → List VerificationCheck
unfolding insert_check
by_subject [] = []
by_subject (k ∷ ks) = insert_check k (by_subject ks)

-- `catalogChecks`.
unfoldable pub catalog_checks : ℕ → Tables → List VerificationCheck
unfolding by_subject select
catalog_checks id t =
    by_subject (select (λ k. not (is_entry_check k) && (k.subject_id == id)) t.checks.rows)

-- `entryChecks`.
unfoldable pub entry_checks : ℕ → Tables → List VerificationCheck
unfolding by_subject select
entry_checks id t =
    by_subject (select (λ k. is_entry_check k && (k.subject_id == id)) t.checks.rows)

abbrev pub ChecksByEntry : Type 0
ChecksByEntry = ℕ → List VerificationCheck

-- The loop of `entryChecksByID`.
unfoldable pub grouped : List VerificationCheck → ChecksByEntry → ChecksByEntry
grouped [] m = m
grouped (k ∷ ks) m = grouped ks (λ id. if id == k.subject_id then m id ++ k ∷ [] else m id)

-- `entryChecksByID`, whose query is made where there are ids.
unfoldable pub entry_checks_by_id : List ℕ → Tables → ChecksByEntry
unfolding grouped by_subject select any
entry_checks_by_id ids t =
    grouped
      (by_subject
        (select (λ k. is_entry_check k && any (λ id. k.subject_id == id) ids) t.checks.rows))
      (λ id. [])
