-- ===== src/Probe.antt =====
-- internal/probe/probe.go: the discovery of catalogs on a host. The client of internal/fetch is the
-- argument `get`, and what net/url resolves a reference to the argument `resolve`.
use ardvark.Prelude.{
  ℕ, zero, suc, ltb, leb, ◌==◌, Bool, true, false, ◌&&◌, ◌||◌, not, List, [], ◌∷◌, ◌++◌, Option,
  none, some, Text, codes, any, text_eq, is_empty, has_prefix, Unicode, split, if◌then◌else◌,
}
use ardvark.Failure.{Failure, transient}
use ardvark.Ard.Report.{looks_like_json}
use ardvark.Ard.Urn.{drop}
pub mod Aliases
pub mod Directives
mod Examples

pub record Fetched : Type 0 where
  pub url : Text
  pub status : ℕ
  pub content_type : Text
  pub body : Text

-- An error of the client; `typed` is the status, 0 for none, and the text of a `fetch.Error` in it.
pub record FetchFailure : Type 0 where
  pub failure : Failure
  pub typed : Option (ℕ × Text)

pub data Response : Type 0 where
  fetched : Fetched → Response
  broken : FetchFailure → Response

pub data Found : Type 0 where
  hit miss error : Found

pub data Method : Type 0 where
  well_known robots_agentmap : Method

-- `Result`.
pub record Attempt : Type 0 where
  pub method : Method
  pub url : Text
  pub http_status : ℕ
  pub content_type : Text
  pub outcome : Found
  pub error_detail : Text
  pub catalog_urls : List Text
  pub retry_error : Option Failure

abbrev pub well_known_paths : List Text
well_known_paths = codes "/.well-known/ard.json" ∷ codes "/.well-known/ai-catalog.json" ∷ []

abbrev pub retry_error_of : Failure → Option Failure
retry_error_of failure = if transient failure then some failure else none

abbrev pub indeterminate : Method → Text → ℕ → Text → Failure → Attempt
indeterminate method url status detail failure = record {
  method = method;
  url = url;
  http_status = status;
  content_type = [];
  outcome = error;
  error_detail = detail;
  catalog_urls = [];
  retry_error = retry_error_of failure;
}

abbrev pub absent : Method → Text → ℕ → Text → Text → Attempt
absent method url status content_type detail = record {
  method = method;
  url = url;
  http_status = status;
  content_type = content_type;
  outcome = miss;
  error_detail = detail;
  catalog_urls = [];
  retry_error = none;
}

abbrev pub present : Method → Text → ℕ → Text → List Text → Attempt
present method url status content_type urls = record {
  method = method;
  url = url;
  http_status = status;
  content_type = content_type;
  outcome = hit;
  error_detail = [];
  catalog_urls = urls;
  retry_error = none;
}

abbrev pub classify_typed : Method → Text → Failure → Option (ℕ × Text) → Attempt
classify_typed method url failure none = indeterminate method url 0 failure.text failure
classify_typed method url failure (some (status, text)) =
    if leb 400 status && ltb status 500 && not (status == 429)
    then absent method url status [] []
    else indeterminate method url status text failure

-- `classifyFetchErr`.
unfoldable pub classify_fetch_err : Method → Text → FetchFailure → Attempt
classify_fetch_err method url e = classify_typed method url e.failure e.typed

abbrev pub well_known_from : Unicode → Text → Response → Attempt
well_known_from unicode url (broken e) = classify_fetch_err well_known url e
well_known_from unicode url (fetched f) =
    if looks_like_json unicode f.content_type f.body
    then present well_known f.url f.status f.content_type (f.url ∷ [])
    else absent well_known f.url f.status f.content_type (codes "non-JSON response")

-- `probeWellKnownURL`.
unfoldable pub probe_well_known_url : Unicode → (Text → Response) → Text → Attempt
unfolding classify_fetch_err looks_like_json
probe_well_known_url unicode get url = well_known_from unicode url (get url)

-- `firstMiss` and `firstErr`, of which the first that is set stays.
abbrev pub or_else : Option Attempt → Attempt → Option Attempt
or_else none a = some a
or_else (some b) a = some b

-- The end of the loop: `*firstErr`, or else `*firstMiss`, which is nil for no path at all.
abbrev pub best_of : Option Attempt → Option Attempt → Option Attempt
best_of (some e) first_miss = some e
best_of none first_miss = first_miss

abbrev pub with_request : Text → List Text × Option Attempt → List Text × Option Attempt
with_request url (requests, result) = (url ∷ requests, result)

-- One round of the loop, for the attempt at a path; `rest` goes on with the two variables.
abbrev pub alias_round :
    Text
    → Attempt
    → Found
    → (Option Attempt → Option Attempt → List Text × Option Attempt)
    → Option Attempt
    → Option Attempt
    → List Text × Option Attempt
alias_round url a hit rest first_err first_miss = (url ∷ [], some a)
alias_round url a error rest first_err first_miss =
    with_request url (rest (or_else first_err a) first_miss)
alias_round url a miss rest first_err first_miss =
    with_request url (rest first_err (or_else first_miss a))

-- The loop of `probeWellKnownBase`, with the requests that it makes.
unfoldable pub alias_loop :
    Unicode
    → (Text → Response)
    → Text
    → List Text
    → Option Attempt
    → Option Attempt
    → List Text × Option Attempt
unfolding probe_well_known_url
alias_loop unicode get base [] first_err first_miss = ([], best_of first_err first_miss)
alias_loop unicode get base (path ∷ paths) first_err first_miss =
    let a = probe_well_known_url unicode get (base ++ path) in
    alias_round (base ++ path) a a.outcome (alias_loop unicode get base paths) first_err first_miss

-- `probeWellKnownBase`.
unfoldable pub probe_well_known_base :
    Unicode → (Text → Response) → Text → List Text × Option Attempt
unfolding alias_loop
probe_well_known_base unicode get base = alias_loop unicode get base well_known_paths none none

abbrev pub agentmap_prefix : Text
agentmap_prefix = codes "agentmap:"

abbrev pub resolved_value : (Text → Option Text) → Text → Option Text
resolved_value resolve value = if is_empty value then none else resolve value

-- The URL of one line of `robots.txt`, none if it is no directive or names none.
unfoldable pub directive : Unicode → (Text → Option Text) → Text → Option Text
unfolding has_prefix
directive unicode resolve raw_line =
    let line = unicode.trim_space raw_line in
    if is_empty line || has_prefix line (codes "#")
    then none
    else if not (has_prefix (unicode.to_lower line) agentmap_prefix)
    then none
    else resolved_value resolve (unicode.trim_space (drop 9 line))

abbrev pub keep_new : (Text → Bool) → Option Text → (Text → Bool) × List Text
keep_new seen none = (seen, [])
keep_new seen (some url) =
    if seen url then (seen, []) else ((λ s. text_eq s url || seen s), url ∷ [])

-- The loop of `parseAgentmapDirectives`, with the set `seen`.
unfoldable pub directives_from :
    Unicode → (Text → Option Text) → (Text → Bool) → List Text → List Text
unfolding directive text_eq
directives_from unicode resolve seen [] = []
directives_from unicode resolve seen (line ∷ lines) =
    let (seen', urls) = keep_new seen (directive unicode resolve line) in
    urls ++ directives_from unicode resolve seen' lines

unfoldable pub parse_agentmap_directives : Unicode → (Text → Option Text) → Text → List Text
unfolding directives_from split
parse_agentmap_directives unicode resolve raw =
    directives_from unicode resolve (λ s. false) (split 10 raw)

-- What `RawRobots` gives: an error, or the text, empty if there is none.
pub data Robots : Type 0 where
  robots : Text → Robots
  no_robots : FetchFailure → Robots

abbrev pub agentmap_from : Text → List Text → Attempt
agentmap_from url [] = absent robots_agentmap url 200 [] (codes "no Agentmap directive")
agentmap_from url (u ∷ urls) = present robots_agentmap url 200 [] (u ∷ urls)

-- `probeRobotsAgentmap`, for the URL of the host's `robots.txt`.
unfoldable pub probe_robots_agentmap : Unicode → (Text → Option Text) → Text → Robots → Attempt
unfolding parse_agentmap_directives classify_fetch_err
probe_robots_agentmap unicode resolve url (no_robots e) = classify_fetch_err robots_agentmap url e
probe_robots_agentmap unicode resolve url (robots raw) =
    if is_empty raw
    then absent robots_agentmap url 0 [] (codes "no robots.txt")
    else agentmap_from url (parse_agentmap_directives unicode resolve raw)
