-- ===== src/Jsonout/Examples.antt =====
-- Tests of internal/jsonout, and its theorems at concrete inputs.
use ardvark.Prelude.{
  ℕ, ◌≡◌, refl, true, false, List, map, any, [], ◌∷◌, none, some, Text, codes, select, length,
  contains, text_eq, arith,
}
use ardvark.Store.Tables.{
  Tables, no_tables, VerificationCheck, SubjectType, of_catalog, of_entry, Domain, unprobed, seed,
  Catalog, CatalogEntry, from_catalog,
}
use ardvark.Ard.Report.{valid}
use ardvark.Ard.Document.{pos, error}
use ardvark.Frontier.Db.{Result, ok, err}
use ardvark.Store.Statements.{Store}
use ardvark.Jsonout.{Texts, SearchOptions, like, like_contains, is_match, joined, search_limit}
use ardvark.Jsonout.Matching.{like-like_contains}
use ardvark.Jsonout.Queries.{
  entry_checks, entry_checks_by_id, newest, with_catalogs, numeric_selector,
}
use ardvark.Jsonout.Details.{
  GetCatalogOptions, CatalogDetail, EntryDetail, LookupFailure, get_catalog, get_entry,
}
use ardvark.Jsonout.Queries.Grouped.{entry_checks_by_id_lem}
use ardvark.Jsonout.Paging.{collected, wanted, left, rows, collected_lem}

abbrev as_is : Texts
as_is = record { trim_space = λ s. s; to_lower = λ s. s; sql_lower = λ s. s; quoted = λ s. s }

like-like_contains_example :
    like (codes "a 50% discount") (like_contains (codes "50%"))
    ≡ contains (codes "a 50% discount") (codes "50%")
like-like_contains_example = like-like_contains (codes "50%") (codes "a 50% discount")

wildcards_are_literal : like (codes "a 500 discount") (like_contains (codes "50%")) ≡ false
unfolding like like_contains
wildcards_are_literal = refl

too_many : search_limit (pos 201) ≡ none
unfolding search_limit
too_many = refl

abbrev stored : ℕ → Text → CatalogEntry
stored id name = record {
  id = id;
  catalog_id = 1;
  urn = name;
  urn_publisher = [];
  urn_namespace = [];
  urn_name = [];
  display_name = name;
  media_type = [];
  ref_url = [];
  has_embedded_data = false;
  description = [];
  version = [];
  entry_updated_at = [];
  tags = [];
  capabilities = [];
  representative_queries = [];
  raw_json = [];
  source = from_catalog;
  source_registry_id = none;
}

abbrev cat : Catalog
cat = record {
  id = 1;
  domain_id = 1;
  source_url = codes "https://a.example/c.json";
  parent_catalog_id = none;
  spec_version = codes "1.0";
  host_display_name = [];
  host_identifier = [];
  raw_json = [];
  content_hash = [];
  fetched_at = 40;
  verification_status = valid;
}

abbrev domain : Domain
domain = record {
  id = 1;
  host = codes "a.example";
  first_seen_at = 0;
  last_probed_at = none;
  discovery_source = seed;
  ard_status = unprobed;
}

abbrev three : Tables
three =
    let t = no_tables in
    record t {
      domains = record { rows = domain ∷ []; next_id = 2 };
      catalogs = record { rows = cat ∷ []; next_id = 2 };
      entries = record {
        rows =
            stored 1 (codes "tool a") ∷ stored 2 (codes "agent") ∷ stored 5 (codes "tool b") ∷ [];
        next_id = 6;
      };
    }

abbrev tools : SearchOptions
tools = record {
  query = codes "tool";
  host = [];
  publisher = [];
  media_type = [];
  tag = [];
  verdict = [];
  limit = pos 1;
  cursor = 0;
}

two_tools : length (left (wanted as_is tools 0 three) 0 (rows as_is tools 0 three)) ≡ 2
unfolding select joined is_match
two_tools = refl

-- The pages of one entry each.
collected_lem_example :
    collected as_is tools 0 three 3 0
    ≡ some (left (wanted as_is tools 0 three) 0 (rows as_is tools 0 three))
collected_lem_example =
    collected_lem as_is tools 0 three (omega arith) 3 0 (omega (arith, two_tools))

abbrev check_on : ℕ → SubjectType → ℕ → VerificationCheck
check_on id type subject = record {
  id = id;
  subject_type = type;
  subject_id = subject;
  check_id = codes "entry.urn";
  severity = error;
  passed = true;
  message = [];
  checked_at = 40;
}

abbrev checked : Tables
checked = record three {
  checks = record {
    rows =
        check_on 1 of_catalog 5
        ∷ check_on 2 of_entry 5
        ∷ check_on 3 of_entry 1
        ∷ check_on 4 of_entry 5
        ∷ [];
    next_id = 5;
  };
}

two_checks : map (λ k. k.id) (entry_checks 5 checked) ≡ 2 ∷ 4 ∷ []
unfolding entry_checks
two_checks = refl

entry_checks_by_id_lem_example : entry_checks_by_id (1 ∷ 5 ∷ []) checked 5 ≡ entry_checks 5 checked
unfolding any
entry_checks_by_id_lem_example = entry_checks_by_id_lem (1 ∷ 5 ∷ []) 5 checked refl

abbrev quiet : Store
quiet = record { tables = checked; world = [] }

numbered : numeric_selector (codes "007") ≡ some 7
unfolding numeric_selector
numbered = refl

abbrev second_page : GetCatalogOptions
second_page = record { selector = codes "1"; entry_limit = pos 1; entry_cursor = 1 }

abbrev page_ids : Result LookupFailure CatalogDetail → List ℕ
page_ids (err e) = []
page_ids (ok d) = d.next_entry_cursor ∷ map (λ e. e.entry.id) d.entries

one_entry : page_ids (get_catalog as_is (λ raw. []) second_page quiet).0 ≡ 2 ∷ 2 ∷ []
unfolding get_catalog search_limit
one_entry = refl

abbrev check_ids : Result LookupFailure EntryDetail → List ℕ
check_ids (err e) = []
check_ids (ok d) = map (λ k. k.id) d.checks

entry_by_urn : check_ids (get_entry as_is (λ raw. []) (codes "tool b") quiet).0 ≡ 2 ∷ 4 ∷ []
unfolding get_entry newest with_catalogs text_eq
entry_by_urn = refl
