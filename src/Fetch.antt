-- ===== src/Fetch.antt =====
-- internal/fetch/fetch.go: the requests of a client and its cache of robots.txt. The HTTP client, the
-- parse of a URL and the library that reads robots.txt are the argument `Outside`; a request that
-- cannot be built is an `unreachable` with no flag set. Rate limits and locks, which change the time
-- of a request only, the digest of a body, and an error's operation and URL are left out.
use ardvark.Prelude.{
  ℕ, ltb, leb, ◌==◌, ◌+◌, Bool, true, false, ◌&&◌, ◌||◌, not, List, [], ◌∷◌, ◌++◌, Option, none,
  some, Text, codes, length, is_empty, text_eq, Unicode, if◌then◌else◌,
}
use ardvark.Frontier.Db.{Result, ok, err}
pub mod Robots
mod Examples

pub record Fault : Type 0 where
  pub status : ℕ
  pub why : Text
  pub transient : Bool

pub record Fetched : Type 0 where
  pub url : Text
  pub status : ℕ
  pub content_type : Text
  pub body : Text

pub record NetError : Type 0 where
  pub timeout : Bool
  pub dns : Bool
  pub deadline : Bool
  pub text : Text

-- What `httpClient.Do` and the read of the body give: no connection, a body that breaks off, or a
-- response with its final URL.
pub data Answer : Type 0 where
  unreachable : NetError → Answer
  unread : ℕ → Text → Answer
  response : Fetched → Answer

pub record Url : Type 0 where
  pub scheme : Text
  pub host : Text
  pub path : Text

-- The answer to a request depends on the number of those before it.
pub record Outside (R : Type 0) : Type 0 where
  pub parse_url : Text → Result Text Url
  pub answer : ℕ → Text → Answer
  pub from_bytes : Text → Result Text R
  pub test : R → Text → Text → Bool
  pub unicode : Unicode

pub record Settings : Type 0 where
  pub respect_robots_txt : Bool
  pub max_body_bytes : ℕ
  pub user_agent : Text

-- The cache, in which `some none` is the verdict that an origin has no robots.txt; and the URLs
-- requested so far, the newest first.
pub record Client (R : Type 0) : Type 0 where
  pub robots_cache : Text → Option (Option R)
  pub raw_robots : Text → Option Text
  pub requests : List Text

abbrev pub default_max_body_bytes : ℕ
default_max_body_bytes = 5242880

abbrev pub err_disallowed_scheme : Text
err_disallowed_scheme = codes "fetch: only http and https schemes are supported"

abbrev pub err_robots_disallowed : Text
err_robots_disallowed = codes "fetch: disallowed by robots.txt"

abbrev pub err_body_too_large : Text
err_body_too_large = codes "fetch: response body exceeds max size"

abbrev pub is_transient_status : ℕ → Bool
is_transient_status status = (status == 429) || (leb 500 status && leb status 599)

abbrev pub classify_net_error : NetError → Fault
classify_net_error e = record {
  status = 0;
  why = e.text;
  transient = e.deadline || (e.timeout && not e.dns);
}

abbrev pub is_connection_level_error : Fault → Bool
is_connection_level_error e = e.status == 0

abbrev pub permanent : Text → Fault
permanent why = record { status = 0; why = why; transient = false }

abbrev pub max_body : Settings → ℕ
max_body s = if s.max_body_bytes == 0 then default_max_body_bytes else s.max_body_bytes

-- `doGet` after `Do`.
abbrev pub read_answer : Settings → Answer → Result Fault Fetched
read_answer s (unreachable e) = err (classify_net_error e)
read_answer s (unread status why) = err (record { status = status; why = why; transient = true })
read_answer s (response r) =
    if ltb (max_body s) (length r.body)
    then err (record { status = r.status; why = err_body_too_large; transient = false })
    else if leb 400 r.status
    then err (record {
      status = r.status;
      why = codes "unexpected status";
      transient = is_transient_status r.status;
    })
    else ok r

module _ {R : Type 0} (outside : Outside R) (settings : Settings) where
  -- `doGet`.
  abbrev pub do_get : Text → Client R → Result Fault Fetched × Client R
  do_get url c = (
    read_answer settings (outside.answer (length c.requests) url),
    record c { requests = url ∷ c.requests },
  )

  abbrev pub is_supported_scheme : Url → Bool
  is_supported_scheme u =
      let scheme = outside.unicode.to_lower u.scheme in
      text_eq scheme (codes "http") || text_eq scheme (codes "https")

  abbrev pub robots_origin_key : Text → Text → Text
  robots_origin_key scheme host =
      outside.unicode.to_lower scheme ++ codes "://" ++ outside.unicode.to_lower host

  abbrev pub cached : Text → Option R → Text → Client R → Client R
  cached key robots text c = record c {
    robots_cache = λ k. if text_eq k key then some robots else c.robots_cache k;
    raw_robots = λ k. if text_eq k key then some text else c.raw_robots k;
  }

  abbrev pub is_absent : Fault → Bool
  is_absent e = leb 400 e.status && ltb e.status 500 && not (e.status == 429)

  abbrev pub read_robots :
      Text → Text → Result Text R → Client R → Result Fault (Option R) × Client R
  read_robots key body (err why) c = (err (permanent why), c)
  read_robots key body (ok robots) c = (ok (some robots), cached key (some robots) body c)

  abbrev pub keep_robots :
      Text → Result Fault Fetched × Client R → Result Fault (Option R) × Client R
  keep_robots key (err e, c) = if is_absent e then (ok none, cached key none [] c) else (err e, c)
  keep_robots key (ok r, c) = read_robots key r.body (outside.from_bytes r.body) c

  -- `robotsForOrigin`.
  unfoldable pub robots_for_origin : Text → Text → Client R → Result Fault (Option R) × Client R
  unfolding text_eq
  robots_for_origin scheme host c =
      let key = robots_origin_key scheme host in
      elim (c.robots_cache key) [
        | some robots ↦ (ok robots, c)
        | none ↦ keep_robots key (do_get (scheme ++ codes "://" ++ host ++ codes "/robots.txt") c)
      ]

  abbrev pub or_http :
      Text → Result Fault (Option R) × Client R → Result Fault (Option R) × Client R
  or_http host (ok robots, c) = (ok robots, c)
  or_http host (err e, c) =
      let plain = robots_for_origin (codes "http") host c in
      if is_connection_level_error e then plain else (err e, c)

  -- `robotsFor`.
  unfoldable pub robots_for : Text → Text → Client R → Result Fault (Option R) × Client R
  unfolding robots_for_origin
  robots_for scheme host c =
      if not (is_empty scheme)
      then robots_for_origin scheme host c
      else or_http host (robots_for_origin (codes "https") host c)

  abbrev pub agent : Text
  agent = if is_empty settings.user_agent then codes "ardvark" else settings.user_agent

  abbrev pub permits : Option R → Url → Bool
  permits none u = true
  permits (some robots) u = outside.test robots agent u.path

  abbrev pub gated :
      Text → Url → Result Fault (Option R) × Client R → Result Fault Fetched × Client R
  gated url u (err e, c) = (err e, c)
  gated url u (ok robots, c) =
      if not (permits robots u) then (err (permanent err_robots_disallowed), c) else do_get url c

  abbrev pub get_parsed : Text → Result Text Url → Client R → Result Fault Fetched × Client R
  get_parsed url (err why) c = (err (permanent why), c)
  get_parsed url (ok u) c =
      if not (is_supported_scheme u)
      then (err (permanent err_disallowed_scheme), c)
      else if settings.respect_robots_txt
      then gated url u (robots_for u.scheme u.host c)
      else do_get url c

  -- `Get`, with `Allowed` in it.
  unfoldable pub get : Text → Client R → Result Fault Fetched × Client R
  unfolding robots_for text_eq
  get url c = get_parsed url (outside.parse_url url) c

  abbrev pub well_known_parsed : Text → Result Text Url → Client R → Result Fault Fetched × Client R
  well_known_parsed url (err why) c = (err (permanent why), c)
  well_known_parsed url (ok u) c =
      if not (is_supported_scheme u)
      then (err (permanent err_disallowed_scheme), c)
      else do_get url c

  -- `GetWellKnown`.
  unfoldable pub get_well_known : Text → Client R → Result Fault Fetched × Client R
  unfolding text_eq
  get_well_known url c = well_known_parsed url (outside.parse_url url) c

  abbrev pub or_empty : Option Text → Text
  or_empty none = []
  or_empty (some raw) = raw

  abbrev pub raw_of : Text → Result Fault (Option R) × Client R → Result Fault Text × Client R
  raw_of host (err e, c) = (err e, c)
  raw_of host (ok robots, c) = elim (c.raw_robots (robots_origin_key (codes "https") host)) [
    | some raw ↦ (ok raw, c)
    | none ↦ (ok (or_empty (c.raw_robots (robots_origin_key (codes "http") host))), c)
  ]

  -- `RawRobots`.
  unfoldable pub raw_robots_of : Text → Client R → Result Fault Text × Client R
  unfolding robots_for text_eq
  raw_robots_of host c = raw_of host (robots_for [] host c)
