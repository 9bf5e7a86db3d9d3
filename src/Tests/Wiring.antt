-- ===== src/Tests/Wiring.antt =====
-- Runs of the configuration's checks, of the builders and of the router.
use cloud_sre_agent.Prelude.{
  ℕ, ◌≡◌, ◌↔◌, refl, true, false, [], ◌∷◌, none, ok, err, Text, codes, text_eq, one_of,
  if◌then◌else◌,
}
use cloud_sre_agent.Config.{
  SourceConfig, ProviderConfig, LlmConfig, Config, default_config, providers,
}
use cloud_sre_agent.Config.Validate.{
  validate, validate_sources, validate_source, validate_llm, validate_chain, validate_provider,
  validate_gemini_backend, allows_external, validate_target, validate_validator, validate_log,
  validate_tracing,
}
use cloud_sre_agent.Config.Laws.{IsValid, validate_iff}
use cloud_sre_agent.Llm.{Request}
use cloud_sre_agent.Llm.Router.{Provider, Router, generate, new}
use cloud_sre_agent.Llm.Router.Laws.{Routed, generate-Routed}
use cloud_sre_agent.App.Build.{Adapters, build_provider, build_source}
use cloud_sre_agent.Prelude.Json.{null}
use cloud_sre_agent.App.Consume.{plain}
use cloud_sre_agent.App.Run.{Parts}
use cloud_sre_agent.App.Run.Laws.{opened}

-- The environment permits external services, and holds one key.
abbrev env : Text → Text
env name =
    if text_eq name (codes "SRE_ALLOW_EXTERNAL_LLM")
    then codes "1"
    else (if text_eq name (codes "OPENAI_API_KEY") then codes "key" else [])

abbrev fallback : ProviderConfig
fallback = record {
  kind = codes "openai";
  model = codes "gpt";
  backend = [];
  project = [];
  location = [];
  api_key_env = [];
  allow_non_baa = false;
  base_url = [];
  host = [];
}

abbrev base : LlmConfig
base = record {
  provider = codes "gemini";
  model = codes "gemini-2.5-flash";
  api_key_env = codes "GEMINI_API_KEY";
  backend = codes "vertex";
  project = codes "acme";
  location = codes "us-central1";
  allow_non_baa = false;
  base_url = [];
  host = [];
  fallbacks = fallback ∷ [];
  allow_external = false;
}

abbrev source : SourceConfig
source = record {
  source_type = codes "file";
  path = codes "/var/log/app.log";
  project_id = [];
  subscription_id = [];
}

abbrev config : Config
config = record default_config { sources = source ∷ []; llm = base }

config_valid : validate env config ≡ ok tt
unfolding validate default_config validate_sources validate_source text_eq validate_llm
    validate_chain providers validate_provider validate_gemini_backend one_of allows_external
    validate_target validate_validator validate_log validate_tracing
config_valid = refl

validate_iff_example : (validate env config ≡ ok tt) ↔ IsValid env config
validate_iff_example = validate_iff env config

-- A provider of the name that fails, or answers.
abbrev failing : Text → Provider ℕ
failing name = record { name = name; generate = λ req w. (err (codes "overloaded"), w) }

abbrev answering : Text → Provider ℕ
answering name = record {
  name = name;
  generate = λ req w.
      (ok (record { text = codes "{}"; model = req.model; finish_reason = codes "stop" }), w);
}

abbrev pub adapters : Adapters ℕ Text Text Text
adapters = record {
  gemini_vertex = λ model project location. ok (failing model);
  gemini_api = λ model key. ok (failing model);
  openai = λ model key url. ok (answering model);
  anthropic = λ model key url. ok (answering model);
  ollama = λ model host. ok (answering model);
  stub = answering (codes "stub");
  local_target = λ dir. dir;
  github = λ owner repo branch token. ok repo;
  gitlab = λ project branch url token. ok project;
  local_validator = codes "local";
  noop_validator = codes "none";
  file_source = λ path. ok path;
  pubsub_source = λ project subscription. ok subscription;
}

built_chain : (r : Router ℕ) × (build_provider adapters env base ≡ ok r)
unfolding build_provider providers text_eq new
built_chain = (_, refl)

abbrev request : Request
request = record { model = []; messages = []; max_tokens = 0; schema = none; schema_name = [] }

abbrev chain : Router ℕ
chain = record { providers = failing (codes "a") ∷ answering (codes "b") ∷ [] }

generate-Routed_example :
    let (result, w') = generate (λ w. none) chain request 5 in
    Routed (λ w. none) request [] chain.providers 5 result w'
generate-Routed_example = generate-Routed (λ w. none) request chain 5

abbrev pub parts : Parts ℕ Text Text Text Text
parts = record {
  ctx_err = λ w. none;
  router_text = λ e. codes "router";
  deliver = λ t change w. (ok (record { id = t; url = [] }), w);
  verdict = λ v patch lang w. (ok (record { ok = true; diagnostics = [] }), w);
  sanitize = λ s. s;
  schema_for = λ stage. ok null;
  parse_json = λ s. none;
  error_text = λ e. [];
  source_name = λ s. s;
  stream = λ s w. (ok s, w);
  report = λ s. plain;
}

opened_test : opened adapters env config.sources ≡ codes "/var/log/app.log" ∷ []
unfolding build_source text_eq
opened_test = refl
