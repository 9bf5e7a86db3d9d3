-- ===== src/Config/Load.antt =====
-- internal/config/config.go: `Load`. The store of koanf, its parsers and its decoder into the record
-- are a parameter.
pub mod Layers
pub mod Laws
use cloud_sre_agent.Prelude.{
  ℕ, ◌==◌, Bool, true, ◌&&◌, List, [], ◌∷◌, map, Result, ok, err, ◌>>=◌, Text, codes, length, drop,
  has_prefix, to_lower, is_empty, if◌then◌else◌,
}
use cloud_sre_agent.Config.{Config, default_config}
use cloud_sre_agent.Config.Validate.{ConfigError, validate}

abbrev pub env_prefix : Text
env_prefix = codes "SRE_"

-- A store of koanf, and the three providers that are loaded into it.
pub record Koanf (S : Type 0) : Type 0 where
  pub fresh : S
  pub load_map : List (Text × Text) → S → Result Text S
  pub load_file : Text → S → Result Text S
  -- the variables with a prefix, whose keys a function makes of their names
  pub load_env : Text → (Text → Text) → S → Result Text S
  pub unmarshal : S → Result Text Config

pub data LoadError : Type 0 where
  seed_failed : Text → LoadError
  file_failed : Text → Text → LoadError
  env_failed : Text → LoadError
  unmarshal_failed : Text → LoadError
  invalid : ConfigError → LoadError

-- The keys that have a default, with their fields.
abbrev settings : List (Text × (Config → Text))
settings =
    (codes "llm.provider", λ c. c.llm.provider)
    ∷ (codes "llm.model", λ c. c.llm.model)
    ∷ (codes "llm.api_key_env", λ c. c.llm.api_key_env)
    ∷ (codes "llm.backend", λ c. c.llm.backend)
    ∷ (codes "llm.location", λ c. c.llm.location)
    ∷ (codes "output.dir", λ c. c.output_dir)
    ∷ (codes "target", λ c. c.target)
    ∷ (codes "validator", λ c. c.validator)
    ∷ (codes "github.base_branch", λ c. c.github.base_branch)
    ∷ (codes "gitlab.base_branch", λ c. c.gitlab.base_branch)
    ∷ (codes "log.level", λ c. c.log_level)
    ∷ (codes "log.format", λ c. c.log_format)
    ∷ (codes "tracing.exporter", λ c. c.tracing.exporter)
    ∷ []

-- The map of the defaults.
unfoldable pub seed : Config → List (Text × Text)
seed d = map (λ (x : Text × (Config → Text)). (x.0, x.1 d)) settings

-- `strings.TrimPrefix`
unfoldable pub trim_prefix : Text → Text → Text
trim_prefix s p = if has_prefix s p then drop (length p) s else s

-- `strings.ReplaceAll(s, "__", ".")`
unfoldable pub dot_underscores : Text → Text
dot_underscores [] = []
dot_underscores (a ∷ []) = a ∷ []
dot_underscores (a ∷ b ∷ s) =
    let after_pair = dot_underscores s in
    let after_one = dot_underscores (b ∷ s) in
    if (a == 95) && (b == 95) then 46 ∷ after_pair else a ∷ after_one

-- The key of a variable.
unfoldable pub env_key : Text → Text
unfolding trim_prefix dot_underscores
env_key s = to_lower (dot_underscores (trim_prefix s env_prefix))

-- An error with its place.
unfoldable pub wrap : {E F A : Type 0} → (E → F) → Result E A → Result F A
wrap f (ok a) = ok a
wrap f (err e) = err (f e)

module _ {S : Type 0} (k : Koanf S) (getenv : Text → Text) where
  unfoldable pub load_path : Text → S → Result LoadError S
  unfolding wrap
  load_path path s =
      let loaded = wrap (file_failed path) (k.load_file path s) in
      if is_empty path then ok s else loaded

  -- The record, decoded and checked.
  unfoldable pub load_record : S → Result LoadError Config
  unfolding wrap
  load_record s = do
    c ← wrap unmarshal_failed (k.unmarshal s)
    _ ← wrap invalid (validate getenv c)
    ok c

  -- From the environment on.
  unfoldable pub load_variables : S → Result LoadError Config
  unfolding wrap load_record
  load_variables s = wrap env_failed (k.load_env env_prefix env_key s) >>= load_record

  -- `Load`
  unfoldable pub load : Text → Result LoadError Config
  unfolding load_path wrap seed load_variables
  load path = do
    s ← wrap seed_failed (k.load_map (seed default_config) k.fresh)
    s' ← load_path path s
    load_variables s'
