-- ===== src/Jsonout/Details.antt =====
-- internal/jsonout/search.go: `GetCatalog` and `GetEntry`, which load one catalog with a page of its
-- entries, or one entry, by number or by address. The texts of the errors are left out; what
-- `json.Unmarshal` leaves in a list of texts is a parameter.
use ardvark.Prelude.{
  ℕ, suc, ltb, ◌==◌, Bool, ◌&&◌, ◌||◌, List, [], ◌∷◌, map, take, select, find, Option, none, some,
  Text, is_empty, length, if◌then◌else◌,
}
use ardvark.Frontier.Db.{Result, ok, err}
use ardvark.Effects.{Act, return, throw, try, ◌>>=◌}
use ardvark.Ard.Document.{ℤ}
use ardvark.Store.Tables.{Tables, Domain, Catalog, CatalogEntry, VerificationCheck}
use ardvark.Store.Statements.{Store, StoreError, statement}
use ardvark.Jsonout.{Texts, search_limit}
use ardvark.Jsonout.Queries.{
  ChecksByEntry, numeric_selector, catalog_by_selector, entry_by_selector, catalog_checks,
  entry_checks, entry_checks_by_id,
}

pub record GetCatalogOptions : Type 0 where
  pub selector : Text
  pub entry_limit : ℤ
  pub entry_cursor : ℕ

-- `EntryDetail`: the columns are those of the rows, but for the two lists, which are decoded.
pub record EntryDetail : Type 0 where
  pub entry : CatalogEntry
  pub catalog : Catalog
  pub domain : Domain
  pub tags : List Text
  pub representative_queries : List Text
  pub checks : List VerificationCheck

pub record CatalogDetail : Type 0 where
  pub catalog : Catalog
  pub domain : Domain
  pub entries : List EntryDetail
  pub next_entry_cursor : ℕ
  pub checks : List VerificationCheck

-- `not_found` is an error that wraps `store.ErrNotFound`; a missing catalog of an entry is none.
pub data LookupFailure : Type 0 where
  selector_required bad_entry_limit not_found no_catalog_row : LookupFailure
  query_failed : StoreError → LookupFailure

abbrev pub Lookup : Type 0 → Type 0
Lookup A = Act Store LookupFailure A

abbrev pub answered : {A : Type 0} → Result StoreError A → Lookup A
answered (ok a) = return a
answered (err e) = throw (query_failed e)

-- A statement that only reads.
abbrev pub run_query : {A : Type 0} → (Tables → A) → Lookup A
run_query query = try (statement (λ t. (ok (query t), t))) answered

abbrev pub or_fail : {A : Type 0} → LookupFailure → Option A → Lookup A
or_fail e none = throw e
or_fail e (some a) = return a

-- `domainByID`.
unfoldable pub domain_by_id : ℕ → Lookup Domain
unfolding statement find
domain_by_id id = run_query (λ t. find (λ d. d.id == id) t.domains.rows) >>= or_fail not_found

-- `catalogEntryLimit`.
abbrev pub catalog_entry_limit : ℤ → Option ℕ
catalog_entry_limit limit = search_limit limit

-- The query for at most one entry more than the page has.
abbrev pub entry_rows : ℕ → ℕ → ℕ → Tables → List CatalogEntry
entry_rows id cursor limit t =
    take (suc limit)
      (select (λ e. (e.catalog_id == id) && ((cursor == 0) || ltb cursor e.id)) t.entries.rows)

-- `entryRows[len(entryRows)-1].ID`.
abbrev pub last_entry_id : List CatalogEntry → ℕ
last_entry_id [] = 0
last_entry_id (e ∷ []) = e.id
last_entry_id (e ∷ q ∷ es) = last_entry_id (q ∷ es)

module _ (x : Texts) (unmarshal : Text → List Text) where
  abbrev pub decode_string_list : Text → List Text
  decode_string_list raw = if is_empty raw then [] else unmarshal raw

  unfoldable pub entry_detail :
      CatalogEntry → Catalog → Domain → List VerificationCheck → EntryDetail
  entry_detail e c d checks = record {
    entry = e;
    catalog = c;
    domain = d;
    tags = decode_string_list e.tags;
    representative_queries = decode_string_list e.representative_queries;
    checks = checks;
  }

  abbrev pub checks_by_entry : List CatalogEntry → Lookup ChecksByEntry
  checks_by_entry [] = return (λ id. [])
  checks_by_entry (e ∷ es) = run_query (entry_checks_by_id (map (λ q. q.id) (e ∷ es)))

  -- `GetCatalog` from the rows of its entries on.
  abbrev pub detail_of :
      Catalog → Domain → List VerificationCheck → List CatalogEntry → Bool → Lookup CatalogDetail
  detail_of c d checks es more = checks_by_entry es >>= λ by_entry. return record {
    catalog = c;
    domain = d;
    entries = map (λ e. entry_detail e c d (by_entry e.id)) es;
    next_entry_cursor = if more then last_entry_id es else 0;
    checks = checks;
  }

  abbrev pub loaded : GetCatalogOptions → ℕ → Catalog → Lookup CatalogDetail
  loaded o limit c = domain_by_id c.domain_id >>= λ d. run_query (catalog_checks c.id) >>= λ checks.
      run_query (entry_rows c.id o.entry_cursor limit) >>= λ es.
      detail_of c d checks (take limit es) (ltb limit (length es))

  abbrev pub catalog_limited : GetCatalogOptions → Text → Option ℕ → Lookup CatalogDetail
  catalog_limited o selector none = throw bad_entry_limit
  catalog_limited o selector (some limit) =
      run_query (catalog_by_selector selector (numeric_selector selector))
      >>= or_fail not_found
      >>= loaded o limit

  -- `GetCatalog`.
  unfoldable pub get_catalog : GetCatalogOptions → Lookup CatalogDetail
  unfolding domain_by_id entry_detail catalog_checks entry_checks_by_id numeric_selector
  get_catalog o =
      let selector = x.trim_space o.selector in
      if is_empty selector
      then throw selector_required
      else catalog_limited o selector (catalog_entry_limit o.entry_limit)

  abbrev pub entry_loaded : CatalogEntry → Lookup EntryDetail
  entry_loaded e =
      run_query (λ t. find (λ c. c.id == e.catalog_id) t.catalogs.rows)
      >>= or_fail no_catalog_row
      >>= λ c. domain_by_id c.domain_id >>= λ d.
          run_query (entry_checks e.id) >>= λ checks. return (entry_detail e c d checks)

  -- `GetEntry`.
  unfoldable pub get_entry : Text → Lookup EntryDetail
  unfolding domain_by_id entry_detail entry_checks numeric_selector
  get_entry given =
      let selector = x.trim_space given in
      if is_empty selector
      then throw selector_required
      else run_query (entry_by_selector selector (numeric_selector selector))
        >>= or_fail not_found
        >>= entry_loaded
