-- ===== src/Crawler/Keys.antt =====
-- internal/crawler/engine.go: the provenance of an item, `buildItem` and `dedupKey`. The digest,
-- `hex.EncodeToString` of `sha256.Sum256`, is the argument `digest`.
use ardvark.Prelude.{ℕ, [], ◌∷◌, ◌++◌, Option, none, some, Text, codes, text_eq, if◌then◌else◌}
use ardvark.Store.Models.{
  FrontierItem, unset, kind_host_probe, kind_catalog_fetch, kind_artifact_fetch,
  kind_registry_harvest,
}
use ardvark.Crawler.Digits.{decimal}

pub record Provenance : Type 0 where
  pub parent_catalog_id : Option ℕ
  pub artifact_entry_id : Option ℕ
  pub registry_entry_id : Option ℕ
  pub registry_catalog_id : Option ℕ
  pub registry_row_id : Option ℕ
  pub probe_method : Text

abbrev pub no_provenance : Provenance
no_provenance = record {
  parent_catalog_id = none;
  artifact_entry_id = none;
  registry_entry_id = none;
  registry_catalog_id = none;
  registry_row_id = none;
  probe_method = [];
}

-- `fmt.Sprintf("\x00<label>:%d", id)`.
abbrev pub tagged : Text → ℕ → Text
tagged label id = 0 ∷ label ++ decimal id

abbrev pub parent_catalog_label : Text
parent_catalog_label = codes "parent_catalog:"

abbrev pub artifact_entry_label : Text
artifact_entry_label = codes "artifact_entry:"

abbrev pub registry_row_label : Text
registry_row_label = codes "registry_row:"

abbrev pub registry_entry_label : Text
registry_entry_label = codes "registry_entry:"

abbrev pub tagged_if : Text → Option ℕ → Text
tagged_if label none = []
tagged_if label (some id) = tagged label id

-- `switch { case RegistryRowID != nil: … case RegistryEntryID != nil: … }`.
abbrev pub registry_suffix : Option ℕ → Option ℕ → Text
registry_suffix (some id) entry = tagged registry_row_label id
registry_suffix none entry = tagged_if registry_entry_label entry

-- `switch kind { … }`.
unfoldable pub suffix : Text → Provenance → Text
suffix kind prov =
    if text_eq kind kind_catalog_fetch
    then tagged_if parent_catalog_label prov.parent_catalog_id
    else if text_eq kind kind_artifact_fetch
    then tagged_if artifact_entry_label prov.artifact_entry_id
    else if text_eq kind kind_registry_harvest
    then registry_suffix prov.registry_row_id prov.registry_entry_id
    else []

abbrev pub natural_base : Text → Text → Text → Text
natural_base kind url host = if text_eq kind kind_host_probe then host else url

abbrev pub natural_key : Text → Text → Text → Provenance → Text
natural_key kind url host prov = natural_base kind url host ++ suffix kind prov

-- What `dedupKey` digests.
abbrev pub preimage : Text → Text → Text
preimage kind natural = kind ++ 58 ∷ natural

abbrev pub dedup_key : (Text → Text) → Text → Text → Text
dedup_key digest kind natural = digest (preimage kind natural)

unfoldable pub build_item : (Text → Text) → ℕ → Text → Text → Text → ℕ → Provenance → FrontierItem
unfolding suffix
build_item digest run_id kind url host depth prov = record {
  id = 0;
  run_id = run_id;
  kind = kind;
  url = url;
  host = host;
  depth = depth;
  priority = 0;
  status = unset;
  attempts = 0;
  last_error = [];
  dedup_key = dedup_key digest kind (natural_key kind url host prov);
  dedup_version = 0;
  host_shard = 0;
  parent_catalog_id = prov.parent_catalog_id;
  artifact_entry_id = prov.artifact_entry_id;
  registry_entry_id = prov.registry_entry_id;
  registry_catalog_id = prov.registry_catalog_id;
  registry_row_id = prov.registry_row_id;
  probe_method = prov.probe_method;
  leased_until = none;
  worker_id = [];
}
