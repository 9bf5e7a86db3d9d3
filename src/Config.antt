-- ===== src/Config.antt =====
-- internal/config/config.go: the configuration's records, `Primary`, `Providers` and `Default`.
-- `Config.Load` reads it from the layers of defaults, file and environment.
pub mod Validate
pub mod Laws
pub mod Load
use cloud_sre_agent.Prelude.{ℕ, Bool, false, List, [], ◌∷◌, Text, codes}

pub record SourceConfig : Type 0 where
  pub source_type : Text
  pub path : Text
  pub project_id : Text
  pub subscription_id : Text

pub record TracingConfig : Type 0 where
  pub exporter : Text
  pub project : Text

pub record ProviderConfig : Type 0 where
  pub kind : Text
  pub model : Text
  pub backend : Text
  pub project : Text
  pub location : Text
  pub api_key_env : Text
  pub allow_non_baa : Bool
  pub base_url : Text
  pub host : Text

pub record LlmConfig : Type 0 where
  pub provider : Text
  pub model : Text
  pub api_key_env : Text
  pub backend : Text
  pub project : Text
  pub location : Text
  pub allow_non_baa : Bool
  pub base_url : Text
  pub host : Text
  pub fallbacks : List ProviderConfig
  pub allow_external : Bool

-- `LLMConfig.Primary`
unfoldable pub primary : LlmConfig → ProviderConfig
primary l = record {
  kind = l.provider;
  model = l.model;
  backend = l.backend;
  project = l.project;
  location = l.location;
  api_key_env = l.api_key_env;
  allow_non_baa = l.allow_non_baa;
  base_url = l.base_url;
  host = l.host;
}

-- `LLMConfig.Providers`
unfoldable pub providers : LlmConfig → List ProviderConfig
unfolding primary
providers l = primary l ∷ l.fallbacks

pub record GitHubConfig : Type 0 where
  pub owner : Text
  pub repo : Text
  pub base_branch : Text

pub record GitLabConfig : Type 0 where
  pub project : Text
  pub base_branch : Text
  pub base_url : Text

pub record Config : Type 0 where
  pub sources : List SourceConfig
  pub llm : LlmConfig
  pub output_dir : Text
  pub target : Text
  pub validator : Text
  pub github : GitHubConfig
  pub gitlab : GitLabConfig
  pub log_level : Text
  pub log_format : Text
  pub tracing : TracingConfig

-- `Default`
unfoldable pub default_config : Config
default_config = record {
  sources = [];
  llm = record {
    provider = codes "gemini";
    model = codes "gemini-2.5-flash";
    api_key_env = codes "GEMINI_API_KEY";
    backend = codes "vertex";
    project = [];
    location = codes "us-central1";
    allow_non_baa = false;
    base_url = [];
    host = [];
    fallbacks = [];
    allow_external = false;
  };
  output_dir = codes "./out";
  target = codes "local";
  validator = codes "none";
  github = record { owner = []; repo = []; base_branch = codes "main" };
  gitlab = record { project = []; base_branch = codes "main"; base_url = [] };
  log_level = codes "info";
  log_format = codes "json";
  tracing = record { exporter = codes "none"; project = [] };
}
