-- ===== src/Config.antt =====
-- internal/config/config.go: the configuration, and its defaults. The schema bounds every integer
-- from below by 0 or 1; the float64 of a rate is the ratio that it stands for.
use ardvark.Prelude.{ℕ, Bool, true, List, [], ◌∷◌, Text, codes}
pub mod Loading
pub mod Places
mod Fleet
mod Examples

pub record StorageConfig : Type 0 where
  pub driver : Text
  pub dsn : Text

pub record LogConfig : Type 0 where
  pub file : Text
  pub level : Text

pub record WorkerConfig : Type 0 where
  pub index : ℕ
  pub count : ℕ

pub record Rate : Type 0 where
  pub numerator : ℕ
  pub denominator : ℕ

pub record CrawlerConfig : Type 0 where
  pub concurrency : ℕ
  pub max_depth : ℕ
  pub max_pages_per_domain : ℕ
  pub per_host_requests_per_second : Rate
  pub request_timeout_seconds : ℕ
  pub max_body_bytes : ℕ
  pub user_agent : Text
  pub respect_robots_txt : Bool
  pub refresh_after_hours : ℕ
  pub lease_seconds : ℕ
  pub worker : WorkerConfig

pub record ArdConfig : Type 0 where
  pub max_catalog_depth : ℕ
  pub fetch_artifacts : Bool

pub record RegistryConfig : Type 0 where
  pub harvest : Bool
  pub max_referral_depth : ℕ
  pub page_limit : ℕ

pub record CtSeedConfig : Type 0 where
  pub log_list_url : Text
  pub logs : List Text
  pub entry_count : ℕ

pub record CrtshSeedConfig : Type 0 where
  pub endpoint : Text
  pub count : ℕ

pub record TrancoSeedConfig : Type 0 where
  pub list_url : Text
  pub top : ℕ

pub record GitHubSeedConfig : Type 0 where
  pub query : Text
  pub count : ℕ

pub record McpRegistrySeedConfig : Type 0 where
  pub registry_url : Text
  pub count : ℕ

pub record CuratedSeedConfig : Type 0 where
  pub urls : List Text
  pub count : ℕ

pub record CommonCrawlSeedConfig : Type 0 where
  pub graph_info_url : Text
  pub graph : Text
  pub top : ℕ
  pub offset : ℕ

pub record SeedConfig : Type 0 where
  pub ct : CtSeedConfig
  pub crtsh : CrtshSeedConfig
  pub tranco : TrancoSeedConfig
  pub git_hub : GitHubSeedConfig
  pub mcp_registry : McpRegistrySeedConfig
  pub curated : CuratedSeedConfig
  pub common_crawl : CommonCrawlSeedConfig

pub record Config : Type 0 where
  pub storage : StorageConfig
  pub log : LogConfig
  pub crawler : CrawlerConfig
  pub ard : ArdConfig
  pub registry : RegistryConfig
  pub seed : SeedConfig

abbrev default_seed : SeedConfig
default_seed = record {
  ct = record {
    log_list_url = codes "https://www.gstatic.com/ct/log_list/v3/log_list.json";
    logs = codes "oak" ∷ codes "argon" ∷ codes "nimbus" ∷ [];
    entry_count = 1000;
  };
  crtsh = record { endpoint = codes "https://crt.sh"; count = 1000 };
  tranco = record { list_url = codes "https://tranco-list.eu/top-1m.csv.zip"; top = 1000 };
  git_hub = record { query = codes "filename:ai-catalog.json path:.well-known"; count = 100 };
  mcp_registry = record {
    registry_url = codes "https://registry.modelcontextprotocol.io";
    count = 1000;
  };
  curated = record {
    urls =
        codes "https://raw.githubusercontent.com/punkpeye/awesome-mcp-servers/main/README.md"
        ∷ codes "https://raw.githubusercontent.com/wong2/awesome-mcp-servers/main/README.md"
        ∷ codes "https://raw.githubusercontent.com/appcypher/awesome-mcp-servers/main/README.md"
        ∷ [];
    count = 500;
  };
  common_crawl = record {
    graph_info_url = codes "https://index.commoncrawl.org/graphinfo.json";
    graph = [];
    top = 1000;
    offset = 0;
  };
}

-- `Defaults`.
unfoldable pub defaults : Config
defaults = record {
  storage = record { driver = codes "sqlite"; dsn = codes "ardvark.db" };
  log = record { file = codes "ardvark.jsonl"; level = codes "info" };
  crawler = record {
    concurrency = 8;
    max_depth = 2;
    max_pages_per_domain = 50;
    per_host_requests_per_second = record { numerator = 1; denominator = 1 };
    request_timeout_seconds = 15;
    max_body_bytes = 5242880;
    user_agent = codes "ardvark (+https://github.com/helgesverre/ardvark)";
    respect_robots_txt = true;
    refresh_after_hours = 168;
    lease_seconds = 600;
    worker = record { index = 0; count = 1 };
  };
  ard = record { max_catalog_depth = 3; fetch_artifacts = true };
  registry = record { harvest = true; max_referral_depth = 2; page_limit = 20 };
  seed = default_seed;
}
