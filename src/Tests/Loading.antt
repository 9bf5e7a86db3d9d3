-- ===== src/Tests/Loading.antt =====
-- Runs of the loading of a configuration, with a store that is a function of the keys.
use mathlib.Core.Path.{subst}
use cloud_sre_agent.Prelude.{
  ◌≡◌, refl, sym, ap, ◌∙◌, arith, false, List, [], ◌∷◌, Option, none, some, Result, ok, err, Text,
  codes, text_eq, to_lower, has_prefix, All, one_of,
}
use cloud_sre_agent.Config.{Config, default_config, providers}
use cloud_sre_agent.Config.Validate.{
  validate, validate_sources, validate_source, validate_llm, validate_chain, validate_provider,
  validate_gemini_backend, allows_external, validate_target, validate_validator, validate_log,
  validate_tracing,
}
use cloud_sre_agent.Config.Load.{Koanf, seed, env_key, load}
use cloud_sre_agent.Config.Load.Layers.{
  over, value_or_empty, value_at, env_value, env_keys, layered, AreApart, IsStacked, text_settings,
}
use cloud_sre_agent.Config.Load.Laws.{load-layered}

abbrev Values : Type 0
Values = Text → Option Text

abbrev file_value : Values
file_value key = value_at key (
    (codes "llm.model", codes "from-file")
    ∷ (codes "llm.project", codes "acme")
    ∷ (codes "log.level", codes "debug")
    ∷ [])

abbrev file_keys : List Text
file_keys = codes "llm.model" ∷ codes "llm.project" ∷ codes "log.level" ∷ codes "sources" ∷ []

abbrev vars : List (Text × Text)
vars =
    (codes "SRE_LLM__MODEL", codes "from-env")
    ∷ (codes "HOME", codes "/root")
    ∷ (codes "SRE_LOG__FORMAT", codes "text")
    ∷ []

abbrev record_of : Values → Config
record_of s = record {
  sources =
      record {
        source_type = codes "file";
        path = codes "app.log";
        project_id = [];
        subscription_id = [];
      }
      ∷ [];
  llm = record {
    provider = value_or_empty (s (codes "llm.provider"));
    model = value_or_empty (s (codes "llm.model"));
    api_key_env = value_or_empty (s (codes "llm.api_key_env"));
    backend = value_or_empty (s (codes "llm.backend"));
    project = value_or_empty (s (codes "llm.project"));
    location = value_or_empty (s (codes "llm.location"));
    allow_non_baa = false;
    base_url = [];
    host = [];
    fallbacks = [];
    allow_external = false;
  };
  output_dir = value_or_empty (s (codes "output.dir"));
  target = value_or_empty (s (codes "target"));
  validator = value_or_empty (s (codes "validator"));
  github = record {
    owner = [];
    repo = [];
    base_branch = value_or_empty (s (codes "github.base_branch"));
  };
  gitlab = record {
    project = [];
    base_branch = value_or_empty (s (codes "gitlab.base_branch"));
    base_url = [];
  };
  log_level = value_or_empty (s (codes "log.level"));
  log_format = value_or_empty (s (codes "log.format"));
  tracing = record { exporter = value_or_empty (s (codes "tracing.exporter")); project = [] };
}

abbrev pub store : Koanf Values
store = record {
  fresh = λ key. none;
  load_map = λ kvs s. ok (λ key. over (value_at key kvs) (s key));
  load_file = λ path s. ok (λ key. over (file_value key) (s key));
  load_env = λ prefix name_key s. ok (λ key. over (env_value key vars) (s key));
  unmarshal = λ s. ok (record_of s);
}

-- What a result of the store holds at a key.
abbrev held : Text → Result Text Values → Option Text
held key (ok s) = s key
held key (err e) = none

abbrev built : Result Text Config → Config
built (ok c) = c
built (err e) = default_config

over-none : (o : Option Text) → over o none ≡ o
over-none none = refl
over-none (some v) = refl

store-IsStacked : IsStacked store (codes "config.yaml") file_keys file_value vars
store-IsStacked = record {
  find = λ s key. s key;
  find-seed = λ s key h. ap (held key) (sym h) ∙ over-none (value_at key (seed default_config));
  find-load_file = λ s s' key apart h. ap (held key) (sym h);
  find-load_env = λ s s' key apart h. ap (held key) (sym h);
  unmarshal-find = λ s c h.
      subst
        (λ c.
          All (λ (x : Text × (Config → Text)). (v : Text) → s x.0 ≡ some v → x.1 c ≡ v)
            text_settings)
        (ap built h)
        (
          λ v e. ap value_or_empty e,
          (
            λ v e. ap value_or_empty e,
            (
              λ v e. ap value_or_empty e,
              (
                λ v e. ap value_or_empty e,
                (
                  λ v e. ap value_or_empty e,
                  (
                    λ v e. ap value_or_empty e,
                    (
                      λ v e. ap value_or_empty e,
                      (
                        λ v e. ap value_or_empty e,
                        (
                          λ v e. ap value_or_empty e,
                          (
                            λ v e. ap value_or_empty e,
                            (
                              λ v e. ap value_or_empty e,
                              (λ v e. ap value_or_empty e, (λ v e. ap value_or_empty e, tt)),
                            ),
                          ),
                        ),
                      ),
                    ),
                  ),
                ),
              ),
            ),
          ),
        );
}

file_apart : AreApart file_keys
unfolding has_prefix
file_apart = ground arith

env_apart : AreApart (env_keys vars)
unfolding has_prefix env_keys env_key to_lower
env_apart = ground arith

abbrev pub no_env : Text → Text
no_env name = []

loaded : (c : Config) × (load store no_env (codes "config.yaml") ≡ ok c)
unfolding load value_at env_value env_key text_eq to_lower has_prefix default_config validate
    validate_sources validate_source validate_llm validate_chain providers validate_provider
    validate_gemini_backend one_of allows_external validate_target validate_validator validate_log
    validate_tracing
loaded = (_, refl)

-- The environment, the file and the defaults, each for one setting.
layers-test :
    (loaded.0.llm.model ≡ codes "from-env")
    × (loaded.0.log_level ≡ codes "debug")
    × (loaded.0.target ≡ codes "local")
unfolding loaded load value_at env_value env_key text_eq to_lower has_prefix default_config
layers-test = (refl, refl, refl)

load-layered_example :
    (validate no_env loaded.0 ≡ ok tt)
    × All
        (λ (x : Text × (Config → Text)).
          x.1 loaded.0 ≡ layered file_value vars (codes "config.yaml") x)
        text_settings
load-layered_example =
    load-layered store (codes "config.yaml") file_keys file_value vars no_env loaded.0
      store-IsStacked file_apart env_apart loaded.1
