-- ===== src/Crawler/World.antt =====
-- internal/crawler: the state that the handlers change, which is the frontier, the store, and the
-- events that they emit; what they do not compute themselves; and the errors that they return.
use ardvark.Prelude.{
  ℕ, Bool, true, false, ◌==◌, List, [], ◌∷◌, ◌++◌, Option, none, some, Text, codes,
}
use ardvark.Failure.{Failure}
use ardvark.Frontier.Db.{Db, M, Result, ok, err, DbError, record_not_found, message}
use ardvark.Frontier.Config.{FrontierError, no_dedup_key, not_found, lease_lost, driver}
use ardvark.Effects.{Act}
use ardvark.Store.Statements.{Store, StoreError, missing, broken}
use ardvark.Ard.Document.{ℤ}
use ardvark.Ard.Inline.{Json, Members}
use ardvark.Ard.Report.{Verdict}
use ardvark.Ard.Semantic.{Names, Catalog}
use ardvark.Ard.Verify.{Formats}
use ardvark.Probe.{Fetched, FetchFailure, Response, Attempt}
use ardvark.Harvest.{Urls, Node}
use ardvark.Registry.{SearchRequest, SearchError, Reply, is_transient}
use ardvark.Crawler.Fanout.{Producer}

-- `ProbeEvent`; the verdict is none where it is empty.
pub record ProbeEvent : Type 0 where
  pub host : Text
  pub method : Text
  pub outcome : Text
  pub verdict : Option Verdict
  pub detail : Text

pub record World : Type 0 where
  pub frontier : Db
  pub store : Store
  pub events : List ProbeEvent

-- A handler, or a part of one.
abbrev pub H : Type 0 → Type 0
H A = Act World Failure A

abbrev pub plain_failure : Text → Failure
plain_failure text = record { text = text; canceled = false; classified = none; timeout = false }

abbrev pub store_failure : StoreError → Failure
store_failure (missing text) = plain_failure text
store_failure (broken failure) = failure

abbrev pub db_text : DbError → Text
db_text record_not_found = codes "record not found"
db_text (message text) = text

-- An error of the frontier says nothing of being transient.
abbrev pub frontier_failure : FrontierError → Failure
frontier_failure no_dedup_key = plain_failure (codes "frontier: item has no dedup key")
frontier_failure not_found = plain_failure (codes "frontier: item not found")
frontier_failure lease_lost = plain_failure (codes "frontier: lease lost")
frontier_failure (driver e) = plain_failure (db_text e)

-- A `StatusError` has a status, and says whether it is transient.
abbrev pub search_failure : SearchError → Failure
search_failure e = record {
  text = e.text;
  canceled = e.canceled;
  classified = if_status e (e.status == 0);
  timeout = e.timeout;
}
  where
    if_status : SearchError → Bool → Option Bool
    if_status e true = none
    if_status e false = some (is_transient e)

abbrev pub mapped : {E F A : Type 0} → (E → F) → Result E A → Result F A
mapped f (ok a) = ok a
mapped f (err e) = err (f e)

abbrev pub stored : {A : Type 0} → World → Result StoreError A × Store → Result StoreError A × World
stored w (r, s) = (r, record w { store = s })

-- A call of the store, with its own errors.
abbrev pub ask_store : {A : Type 0} → Act Store StoreError A → Act World StoreError A
ask_store m w = stored w (m w.store)

abbrev pub fails_as : {E A : Type 0} → (E → Failure) → Result E A × World → Result Failure A × World
fails_as f (r, w) = (mapped f r, w)

abbrev pub on_store : {A : Type 0} → Act Store StoreError A → H A
on_store m w = fails_as store_failure (ask_store m w)

abbrev pub queued :
    {A : Type 0} → World → Result FrontierError A × Db → Result FrontierError A × World
queued w (r, db) = (r, record w { frontier = db })

-- A call of the frontier.
abbrev pub on_frontier : {A : Type 0} → M FrontierError A → H A
on_frontier m w = fails_as frontier_failure (queued w (m w.frontier))

abbrev pub emit : ProbeEvent → H (Unit {0})
emit e w = (ok tt, record w { events = w.events ++ e ∷ [] })

-- What `Engine.get` gives: `skip` for a URL that robots.txt bars.
pub data Got : Type 0 where
  got : Fetched → Got
  skip : Got
  failed : FetchFailure → Got

-- What `json.Unmarshal` makes of a catalog, as far as it gets: `Host` and the rest.
pub record Document : Type 0 where
  pub catalog : Catalog
  pub host_display_name : Text
  pub host_identifier : Text

-- An engine as its handlers read it: its configuration; the clients of internal/fetch and of a registry at a URL; the probes
-- of a host; and the packages that the repository does not contain. Times are in seconds.
pub record Crawl : Type 0 where
  pub producer : Producer
  pub max_catalog_depth : ℕ
  pub max_referral_depth : ℕ
  pub page_limit : ℕ
  pub harvest : Bool
  pub fetch_artifacts : Bool
  pub force : Bool
  pub refresh_window : ℕ
  pub max_body_bytes : ℤ
  pub now : ℕ
  pub get : Text → Got
  pub get_well_known : Text → Response
  pub probe_host : Text → List Attempt
  pub search : Text → ℕ → SearchRequest → Reply
  pub names : Names
  pub formats : Formats
  pub sha256 : Text → Text
  pub decode_catalog : Text → Document
  pub decode_block : Text → Option Json
  pub encode : Members → Option Text
  pub encode_list : List Text → Text
  pub urls : Urls
  pub fields : Text → List Text
  pub parse_html : Text → Option Node
