-- ===== src/Jsonout.antt =====
-- internal/jsonout/search.go: `Search`, one page of the indexed entries. `strings.TrimSpace`,
-- `strings.ToLower`, the LOWER of the database, and `json.Marshal` of a text are parameters.
use ardvark.Prelude.{
  ℕ, zero, suc, ltb, leb, ◌==◌, Bool, true, false, ◌&&◌, ◌||◌, List, [], ◌∷◌, ◌++◌, map, take,
  select, find, Option, none, some, Text, codes, text_eq, is_empty, length, if◌then◌else◌,
}
use ardvark.Failure.{Failure}
use ardvark.Frontier.Db.{Result, ok, err}
use ardvark.Effects.{Act}
use ardvark.Ard.Document.{ℤ, pos, negsuc}
use ardvark.Ard.Report.{Verdict, valid, valid_with_warnings, invalid}
use ardvark.Store.Tables.{Tables, Rows, Domain, Catalog, CatalogEntry}
use ardvark.Store.Statements.{Store, StoreError, S, statement}
mod Matching
mod Paging
pub mod Queries
pub mod Details
mod Examples

abbrev pub default_search_limit : ℕ
default_search_limit = 50

abbrev pub max_search_limit : ℕ
max_search_limit = 200

-- `SearchOptions`; the verdict is a text that is still to be checked.
pub record SearchOptions : Type 0 where
  pub query : Text
  pub host : Text
  pub publisher : Text
  pub media_type : Text
  pub tag : Text
  pub verdict : Text
  pub limit : ℤ
  pub cursor : ℕ

-- A row of the join of an entry with its catalog and the domain of that.
pub record SearchRow : Type 0 where
  pub entry : CatalogEntry
  pub catalog : Catalog
  pub domain : Domain

-- `SearchResult`; 0 is no cursor. An entry's summary has columns of its row.
pub record SearchResult : Type 0 where
  pub entries : List SearchRow
  pub next_cursor : ℕ

pub record Texts : Type 0 where
  pub trim_space : Text → Text
  pub to_lower : Text → Text
  pub sql_lower : Text → Text
  pub quoted : Text → Text

pub data SearchFailure : Type 0 where
  bad_limit bad_verdict : SearchFailure
  failed : StoreError → SearchFailure

-- A pattern of LIKE under `ESCAPE '!'`: a byte, `_`, or `%`.
pub data Token : Type 0 where
  byte : ℕ → Token
  any_one any_text : Token

-- `escaped` for the byte after a `!`.
abbrev token_of : ℕ → Token
token_of b = if b == 37 then any_text else if b == 95 then any_one else byte b

unfoldable pub tokens : Bool → Text → List Token
tokens escaped [] = []
tokens true (b ∷ p) = byte b ∷ tokens false p
tokens false (b ∷ p) = if b == 33 then tokens true p else token_of b ∷ tokens false p

unfoldable pub on_suffixes : (Text → Bool) → Text → Bool
on_suffixes f [] = f []
on_suffixes f (b ∷ s) = f (b ∷ s) || on_suffixes f s

unfoldable pub fits : List Token → Text → Bool
unfolding on_suffixes
fits [] s = is_empty s
fits (any_text ∷ ts) s = on_suffixes (fits ts) s
fits (any_one ∷ ts) [] = false
fits (any_one ∷ ts) (b ∷ s) = fits ts s
fits (byte a ∷ ts) [] = false
fits (byte a ∷ ts) (b ∷ s) = (a == b) && fits ts s

-- `s LIKE pattern ESCAPE '!'`.
unfoldable pub like : Text → Text → Bool
unfolding tokens fits
like s pattern = fits (tokens false pattern) s

-- `strings.NewReplacer("!", "!!", "%", "!%", "_", "!_")`.
abbrev pub escape_byte : ℕ → Text
escape_byte b = if (b == 33) || (b == 37) || (b == 95) then 33 ∷ b ∷ [] else b ∷ []

unfoldable pub escape : Text → Text
escape [] = []
escape (b ∷ s) = escape_byte b ++ escape s

-- `likeContains`, of a text in lower case.
unfoldable pub like_contains : Text → Text
unfolding escape
like_contains lowered = 37 ∷ escape lowered ++ 37 ∷ []

-- `searchLimit`.
unfoldable pub search_limit : ℤ → Option ℕ
search_limit (negsuc n) = none
search_limit (pos zero) = some default_search_limit
search_limit (pos (suc n)) = if ltb max_search_limit (suc n) then none else some (suc n)

abbrev pub verdict_text : Verdict → Text
verdict_text valid = codes "valid"
verdict_text valid_with_warnings = codes "valid_with_warnings"
verdict_text invalid = codes "invalid"

-- `validateVerdict`.
unfoldable pub is_verdict : Text → Bool
unfolding text_eq
is_verdict v =
    is_empty v
    || text_eq v (verdict_text valid)
    || text_eq v (verdict_text valid_with_warnings)
    || text_eq v (verdict_text invalid)

-- The two JOINs, in the order of the entries' ids.
abbrev pub joined_domain : CatalogEntry → Catalog → Option Domain → List SearchRow → List SearchRow
joined_domain e c none rows = rows
joined_domain e c (some d) rows = record { entry = e; catalog = c; domain = d } ∷ rows

abbrev pub joined_catalog : Tables → CatalogEntry → Option Catalog → List SearchRow → List SearchRow
joined_catalog t e none rows = rows
joined_catalog t e (some c) rows =
    joined_domain e c (find (λ d. d.id == c.domain_id) t.domains.rows) rows

unfoldable pub joined : Tables → List CatalogEntry → List SearchRow
unfolding find
joined t [] = []
joined t (e ∷ es) =
    joined_catalog t e (find (λ c. c.id == e.catalog_id) t.catalogs.rows) (joined t es)

abbrev pub is_after : ℕ → SearchRow → Bool
is_after cursor r = (cursor == 0) || ltb cursor r.entry.id

-- `res.Entries[len(res.Entries)-1].EntryID`.
abbrev pub last_id : List SearchRow → ℕ
last_id [] = 0
last_id (r ∷ []) = r.entry.id
last_id (r ∷ q ∷ rs) = last_id (q ∷ rs)

-- What becomes of at most `limit + 1` rows.
unfoldable pub page_of : ℕ → List SearchRow → SearchResult
page_of limit rows =
    let kept = take limit rows in
    if ltb limit (length rows)
    then record { entries = kept; next_cursor = last_id kept }
    else record { entries = rows; next_cursor = 0 }

module _ (x : Texts) where
  abbrev pub contains_needle : Text → SearchRow → Bool
  contains_needle needle r =
      let fits_column = λ (s : Text). like (x.sql_lower s) (like_contains (x.to_lower needle)) in
      fits_column r.entry.urn
      || fits_column r.entry.display_name
      || fits_column r.entry.description
      || fits_column r.entry.tags
      || fits_column r.entry.representative_queries
      || fits_column r.entry.ref_url

  -- The conditions but for the cursor.
  unfoldable pub is_match : SearchOptions → SearchRow → Bool
  unfolding like like_contains text_eq
  is_match o r =
      (is_empty (x.trim_space o.query) || contains_needle (x.trim_space o.query) r)
      && (is_empty o.host || text_eq (x.sql_lower r.domain.host) (x.to_lower o.host))
      && (is_empty o.publisher
          || text_eq (x.sql_lower r.entry.urn_publisher) (x.to_lower o.publisher))
      && (is_empty o.media_type
          || text_eq (x.sql_lower r.entry.media_type) (x.to_lower o.media_type))
      && (is_empty o.tag
          || like (x.sql_lower r.entry.tags) (like_contains (x.to_lower (x.quoted o.tag))))
      && (is_empty o.verdict || text_eq (verdict_text r.catalog.verification_status) o.verdict)

  -- The query, for a limit that has been checked.
  unfoldable pub page : SearchOptions → ℕ → Tables → SearchResult
  unfolding select is_match joined page_of
  page o limit t = page_of limit (
      take (suc limit)
        (select (λ r. is_after o.cursor r && is_match o r) (joined t t.entries.rows)))

  abbrev queried : SearchOptions → ℕ → S SearchResult
  queried o limit = statement (λ t. (ok (page o limit t), t))

  abbrev failed_as :
      Result StoreError SearchResult × Store → Result SearchFailure SearchResult × Store
  failed_as (ok r, s) = (ok r, s)
  failed_as (err e, s) = (err (failed e), s)

  abbrev limited : SearchOptions → Option ℕ → Act Store SearchFailure SearchResult
  limited o none s = (err bad_limit, s)
  limited o (some limit) s =
      if is_verdict o.verdict then failed_as (queried o limit s) else (err bad_verdict, s)

  -- `Search`.
  unfoldable pub search : SearchOptions → Act Store SearchFailure SearchResult
  unfolding page search_limit is_verdict statement
  search o = limited o (search_limit o.limit)
