-- ===== src/Config/Load/Layers.antt =====
-- internal/config/config.go: the layers of `Load`, and what koanf documents of them.
use cloud_sre_agent.Prelude.{
  ◌≡◌, refl, Bool, false, ◌&&◌, List, [], ◌∷◌, ◌++◌, codes, Option, none, some, ok, Text, text_eq,
  has_prefix, is_empty, if◌then◌else◌, All,
}
use cloud_sre_agent.Config.{Config, default_config}
use cloud_sre_agent.Config.Load.{Koanf, env_prefix, env_key, seed}

-- The text settings that have a default, by key and field.
abbrev pub text_settings : List (Text × (Config → Text))
text_settings =
    (codes "llm.provider", λ c. c.llm.provider)
    ∷ (codes "llm.model", λ c. c.llm.model)
    ∷ (codes "llm.api_key_env", λ c. c.llm.api_key_env)
    ∷ (codes "llm.backend", λ c. c.llm.backend)
    ∷ (codes "llm.location", λ c. c.llm.location)
    ∷ (codes "output.dir", λ c. c.output_dir)
    ∷ (codes "target", λ c. c.target)
    ∷ (codes "validator", λ c. c.validator)
    ∷ (codes "github.base_branch", λ c. c.github.base_branch)
    ∷ (codes "gitlab.base_branch", λ c. c.gitlab.base_branch)
    ∷ (codes "log.level", λ c. c.log_level)
    ∷ (codes "log.format", λ c. c.log_format)
    ∷ (codes "tracing.exporter", λ c. c.tracing.exporter)
    ∷ []

-- A value of the upper layer, or else of the lower.
abbrev pub over : Option Text → Option Text → Option Text
over (some v) lower = some v
over none lower = lower

abbrev pub value_or_empty : Option Text → Text
value_or_empty (some v) = v
value_or_empty none = []

unfoldable pub value_at : Text → List (Text × Text) → Option Text
value_at key [] = none
value_at key ((k, v) ∷ kvs) = if text_eq key k then some v else value_at key kvs

-- What the variables of the program give for a key: the last of those whose names make it.
unfoldable pub env_value : Text → List (Text × Text) → Option Text
env_value key [] = none
env_value key ((n, v) ∷ vars) =
    over (env_value key vars)
      (if has_prefix n env_prefix && text_eq (env_key n) key then some v else none)

-- The keys that the variables of the program give.
unfoldable pub env_keys : List (Text × Text) → List Text
env_keys [] = []
env_keys ((n, v) ∷ vars) =
    let rest = env_keys vars in if has_prefix n env_prefix then env_key n ∷ rest else rest

-- The key is in the section, at any depth.
abbrev pub is_within : Text → Text → Bool
is_within key section = has_prefix key (section ++ codes ".")

-- None of the keys is of a section that the key is in, nor in a section of the key's name.
abbrev pub IsApart : List Text → Text → Type 0
IsApart keys key = All (λ k. (is_within k key ≡ false) × (is_within key k ≡ false)) keys

abbrev pub AreApart : List Text → Type 0
AreApart keys = All (λ (x : Text × (Config → Text)). IsApart keys x.0) text_settings

-- How koanf stacks the layers: the store of the defaults holds them. To load the file, of which
-- the flattened keys and the texts are given, or the environment, merges its map over that of the
-- store; so a key that the layer's keys are apart from gets the layer's value, or keeps its own. The
-- decoder stores the value that is found under a setting's key in its field.
pub record IsStacked {S : Type 0} (k : Koanf S) (path : Text) (file_keys : List Text)
    (file_value : Text → Option Text) (vars : List (Text × Text)) : Type 0 where
  pub find : S → Text → Option Text
  pub find-seed :
      (s : S) (key : Text)
      → k.load_map (seed default_config) k.fresh ≡ ok s
      → find s key ≡ value_at key (seed default_config)
  pub find-load_file :
      (s s' : S) (key : Text)
      → IsApart file_keys key
      → k.load_file path s ≡ ok s'
      → find s' key ≡ over (file_value key) (find s key)
  pub find-load_env :
      (s s' : S) (key : Text)
      → IsApart (env_keys vars) key
      → k.load_env env_prefix env_key s ≡ ok s'
      → find s' key ≡ over (env_value key vars) (find s key)
  pub unmarshal-find :
      (s : S) (c : Config)
      → k.unmarshal s ≡ ok c
      → All
          (λ (x : Text × (Config → Text)). (v : Text) → find s x.0 ≡ some v → x.1 c ≡ v)
          text_settings

-- The value of a setting: of the environment, or else of the file, or else the default.
abbrev pub layered :
    (Text → Option Text) → List (Text × Text) → Text → Text × (Config → Text) → Text
layered file_value vars path (key, get) = value_or_empty (
    over (env_value key vars)
      (over (if is_empty path then none else file_value key) (some (get default_config))))

pub over-some :
    (o p : Option Text) (d : Text)
    → over o (over p (some d)) ≡ some (value_or_empty (over o (over p (some d))))
over-some (some v) p d = refl
over-some none (some v) d = refl
over-some none none d = refl
