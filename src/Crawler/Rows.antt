-- ===== src/Crawler/Rows.antt =====
-- internal/crawler/handlers.go: the rows that handlers build; internal/crawler/events.go: the events.
use ardvark.Prelude.{
  ℕ, suc, ltb, ◌==◌, ◌-◌, Bool, true, false, ◌&&◌, not, List, [], ◌∷◌, ◌++◌, map, Option, none,
  some, Text, codes, text_eq, is_empty, any, length, join, select, count_where, if◌then◌else◌,
}
use ardvark.Crawler.Digits.{decimal}
use ardvark.Ard.Document.{Entry, Check, Severity, error, warning}
use ardvark.Ard.Checks.{Parts, partition_checks}
use ardvark.Ard.Report.{Report, Verdict, valid, valid_with_warnings, invalid}
use ardvark.Ard.Semantic.{Names, has_embedded_data}
use ardvark.Ard.Urn.{Parsed, parsed, refused, parse_urn}
use ardvark.Probe.{Found, hit, miss, Attempt, Method, well_known, robots_agentmap, FetchFailure}
use ardvark.Store.Tables.{
  CatalogEntry, EntrySource, from_catalog, VerificationCheck, of_catalog, probe_outcome_hit,
  probe_outcome_miss, probe_outcome_error, probe_method_well_known, probe_method_robots_agentmap,
}
use ardvark.Crawler.World.{ProbeEvent}

abbrev pub found_text : Found → Text
found_text hit = probe_outcome_hit
found_text miss = probe_outcome_miss
found_text Found.error = probe_outcome_error

abbrev pub method_text : Method → Text
method_text well_known = probe_method_well_known
method_text robots_agentmap = probe_method_robots_agentmap

-- `jsonOrEmpty` for a list of strings; `json.Marshal` is `encode`.
abbrev pub json_or_empty : (List Text → Text) → List Text → Text
json_or_empty encode [] = []
json_or_empty encode (s ∷ ss) = encode (s ∷ ss)

-- The columns for the publisher, the namespace and the name.
abbrev pub urn_columns : Parsed → Text × Text × Text
urn_columns (parsed u) = (u.publisher, join 58 u.namespace, u.name)
urn_columns (refused why) = ([], [], [])

-- `buildEntryRow`, for an entry that was decoded from a document.
unfoldable pub build_entry_row :
    Names → (List Text → Text) → EntrySource → Option ℕ → Entry → CatalogEntry
unfolding parse_urn join text_eq
build_entry_row names encode source registry_id en =
    let (publisher, namespace, name) =
      urn_columns (parse_urn names.unicode names.to_ascii en.identifier) in
    record {
      id = 0;
      catalog_id = 0;
      urn = en.identifier;
      urn_publisher = publisher;
      urn_namespace = namespace;
      urn_name = name;
      display_name = en.display_name;
      media_type = en.entry_type;
      ref_url = en.url;
      has_embedded_data = has_embedded_data en.data_json;
      description = en.description;
      version = en.version;
      entry_updated_at = en.updated_at;
      tags = json_or_empty encode en.tags;
      capabilities = json_or_empty encode en.capabilities;
      representative_queries = json_or_empty encode en.representative_queries;
      raw_json = en.raw;
      source = source;
      source_registry_id = registry_id;
    }

-- `buildEntryRows`.
unfoldable pub build_entry_rows : Names → (List Text → Text) → List Entry → List CatalogEntry
unfolding build_entry_row
build_entry_rows names encode = map (build_entry_row names encode from_catalog none)

-- `toRow`; the subject is set when the row is saved.
abbrev pub check_row : ℕ → Check → VerificationCheck
check_row now c = record {
  id = 0;
  subject_type = of_catalog;
  subject_id = 0;
  check_id = c.check_id;
  severity = c.severity;
  passed = c.passed;
  message = c.message;
  checked_at = now;
}

-- The rows of the entries from position `i`, in the order of the positions.
unfoldable pub rows_by_entry : ℕ → Parts → ℕ → List Entry → List (ℕ × List VerificationCheck)
rows_by_entry now parts i [] = []
rows_by_entry now parts i (e ∷ es) =
    (i, map (check_row now) (parts.entry_checks i)) ∷ rows_by_entry now parts (suc i) es

-- `splitChecks`.
unfoldable pub split_checks :
    ℕ → List Check → List Entry → List VerificationCheck × List (ℕ × List VerificationCheck)
unfolding partition_checks rows_by_entry
split_checks now checks entries =
    let parts = partition_checks checks entries in
    (map (check_row now) parts.catalog_checks, rows_by_entry now parts 0 entries)

-- `probeDetail`.
unfoldable pub probe_detail : Attempt → Text
unfolding decimal
probe_detail r =
    if not (is_empty r.error_detail)
    then r.error_detail
    else if ltb 0 r.http_status
    then decimal r.http_status
    else codes "not found"

abbrev pub typed_detail : Text → Option (ℕ × Text) → Text
typed_detail text none = text
typed_detail text (some (status, _)) = if ltb 0 status then decimal status else text

-- `fetchErrorDetail`.
unfoldable pub fetch_error_detail : FetchFailure → Text
unfolding decimal
fetch_error_detail e = typed_detail e.failure.text e.typed

-- `entriesLabel`.
unfoldable pub entries_label : ℕ → Text
unfolding decimal
entries_label n = if n == 1 then codes "1 entry" else decimal n ++ codes " entries"

abbrev pub same_severity : Severity → Severity → Bool
same_severity error error = true
same_severity warning warning = true
same_severity _ _ = false

abbrev pub failed_ids : Severity → List Check → List Text
failed_ids severity checks =
    map (λ (c : Check). c.check_id)
      (select (λ c. not c.passed && same_severity c.severity severity) checks)

-- `order`: the ids in the order in which they come first.
unfoldable pub first_seen : List Text → List Text → List Text
unfolding any text_eq
first_seen seen [] = []
first_seen seen (id ∷ ids) =
    let rest = first_seen (id ∷ seen) ids in
    let others = first_seen seen ids in if any (text_eq id) seen then others else id ∷ rest

-- `%s ×%d`.
abbrev pub counted_id : Text → ℕ → Text
counted_id id n = if ltb 1 n then id ++ 32 ∷ 195 ∷ 151 ∷ decimal n else id

-- The loop over `order`, with the room that `maxIDs` leaves.
unfoldable pub summary_parts : List Text → ℕ → ℕ → List Text → List Text
unfolding count_where text_eq decimal
summary_parts ids total printed [] = []
summary_parts ids total printed (id ∷ order) =
    let rest = summary_parts ids total (suc printed) order in
    if printed == 3
    then (43 ∷ decimal (total - 3) ++ codes " more") ∷ []
    else counted_id id (count_where (text_eq id) ids) ∷ rest

abbrev pub join_with_commas : List Text → Text
join_with_commas [] = []
join_with_commas (s ∷ []) = s
join_with_commas (s ∷ t ∷ rest) = s ++ codes ", " ++ join_with_commas (t ∷ rest)

-- `failingChecksSummary`.
unfoldable pub failing_checks_summary : List Check → Severity → Text
unfolding select first_seen summary_parts
failing_checks_summary checks severity =
    let ids = failed_ids severity checks in
    let order = first_seen [] ids in join_with_commas (summary_parts ids (length order) 0 order)

abbrev pub catalog_detail : ℕ → List Check → Verdict → Text
catalog_detail n checks valid = entries_label n
catalog_detail n checks valid_with_warnings = failing_checks_summary checks warning
catalog_detail n checks invalid = failing_checks_summary checks error

-- `catalogEvent`.
unfoldable pub catalog_event : Text → Text → Report → ℕ → ProbeEvent
unfolding entries_label failing_checks_summary
catalog_event host method report n = record {
  host = host;
  method = method;
  outcome = probe_outcome_hit;
  verdict = some report.verdict;
  detail = catalog_detail n report.checks report.verdict;
}
