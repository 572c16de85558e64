-- ===== src/Store/Tables.antt =====
-- internal/store/models.go: the rows of the tables that hold what a crawl found. `*uint` and
-- `*time.Time` are options, times are in seconds; `CreatedAt` and `UpdatedAt`, which nothing reads,
-- are left out. Columns for a method, an outcome or a kind of entry are the texts that are stored.
use ardvark.Prelude.{ℕ, suc, Bool, List, [], ◌∷◌, ◌++◌, Option, Text, codes}
use ardvark.Ard.Document.{Severity}
use ardvark.Ard.Report.{Verdict}

pub data DiscoverySource : Type 0 where
  seed anchor url_list catalog_ref registry_referral ct_log crtsh tranco github : DiscoverySource
  mcp_registry curated_list commoncrawl : DiscoverySource

pub data ArdStatus : Type 0 where
  unprobed not_found advertised found_invalid found_valid : ArdStatus

abbrev pub probe_method_well_known : Text
probe_method_well_known = codes "well_known"

abbrev pub probe_method_robots_agentmap : Text
probe_method_robots_agentmap = codes "robots_agentmap"

abbrev pub probe_method_link_tag : Text
probe_method_link_tag = codes "link_tag"

abbrev pub probe_method_in_page : Text
probe_method_in_page = codes "in_page"

abbrev pub probe_outcome_hit : Text
probe_outcome_hit = codes "hit"

abbrev pub probe_outcome_miss : Text
probe_outcome_miss = codes "miss"

abbrev pub probe_outcome_error : Text
probe_outcome_error = codes "error"

pub data EntrySource : Type 0 where
  from_catalog from_registry : EntrySource

pub data SubjectType : Type 0 where
  of_catalog of_entry : SubjectType

pub data HarvestStatus : Type 0 where
  harvest_pending harvest_ok harvest_error : HarvestStatus

pub data FetchStatus : Type 0 where
  fetch_ok fetch_error : FetchStatus

pub record Domain : Type 0 where
  pub id : ℕ
  pub host : Text
  pub first_seen_at : ℕ
  pub last_probed_at : Option ℕ
  pub discovery_source : DiscoverySource
  pub ard_status : ArdStatus

pub record Probe : Type 0 where
  pub id : ℕ
  pub domain_id : ℕ
  pub method : Text
  pub url : Text
  pub http_status : ℕ
  pub content_type : Text
  pub outcome : Text
  pub error_detail : Text
  pub probed_at : ℕ

pub record CatalogEntry : Type 0 where
  pub id : ℕ
  pub catalog_id : ℕ
  pub urn : Text
  pub urn_publisher : Text
  pub urn_namespace : Text
  pub urn_name : Text
  pub display_name : Text
  pub media_type : Text
  pub ref_url : Text
  pub has_embedded_data : Bool
  pub description : Text
  pub version : Text
  pub entry_updated_at : Text
  pub tags : Text
  pub capabilities : Text
  pub representative_queries : Text
  pub raw_json : Text
  pub source : EntrySource
  pub source_registry_id : Option ℕ

-- A row of `catalogs`, of which the entries are rows of their own.
pub record Catalog : Type 0 where
  pub id : ℕ
  pub domain_id : ℕ
  pub source_url : Text
  pub parent_catalog_id : Option ℕ
  pub spec_version : Text
  pub host_display_name : Text
  pub host_identifier : Text
  pub raw_json : Text
  pub content_hash : Text
  pub fetched_at : ℕ
  pub verification_status : Verdict

pub record Artifact : Type 0 where
  pub id : ℕ
  pub entry_id : ℕ
  pub url : Text
  pub http_status : ℕ
  pub content_type : Text
  pub raw_body : Text
  pub content_hash : Text
  pub fetched_at : ℕ
  pub fetch_status : FetchStatus

pub record Registry : Type 0 where
  pub id : ℕ
  pub entry_id : ℕ
  pub base_url : Text
  pub last_harvested_at : Option ℕ
  pub harvest_status : HarvestStatus
  pub referral_source_id : Option ℕ

pub record VerificationCheck : Type 0 where
  pub id : ℕ
  pub subject_type : SubjectType
  pub subject_id : ℕ
  pub check_id : Text
  pub severity : Severity
  pub passed : Bool
  pub message : Text
  pub checked_at : ℕ

-- The rows of one table in the order of the primary key, with the id that comes next.
pub record Rows (A : Type 0) : Type 0 where
  pub rows : List A
  pub next_id : ℕ

abbrev pub appended : {A : Type 0} → A → Rows A → Rows A
appended a r = record { rows = r.rows ++ a ∷ []; next_id = suc r.next_id }

pub record Tables : Type 0 where
  pub domains : Rows Domain
  pub probes : Rows Probe
  pub catalogs : Rows Catalog
  pub entries : Rows CatalogEntry
  pub artifacts : Rows Artifact
  pub registries : Rows Registry
  pub checks : Rows VerificationCheck

abbrev pub no_rows : {A : Type 0} → Rows A
no_rows = record { rows = []; next_id = 1 }

abbrev pub no_tables : Tables
no_tables = record {
  domains = no_rows;
  probes = no_rows;
  catalogs = no_rows;
  entries = no_rows;
  artifacts = no_rows;
  registries = no_rows;
  checks = no_rows;
}
