-- ===== src/Config/Validate.antt =====
-- internal/config/config.go: `Validate` and the checks that it calls. `getenv` is `os.Getenv`.
use cloud_sre_agent.Prelude.{
  ℕ, zero, suc, ◌+◌, Bool, true, false, not, ◌||◌, List, [], ◌∷◌, Result, ok, err, ◌>>=◌, ◌>>◌,
  reject_if, Text, codes, text_eq, one_of, is_empty, if◌then◌else◌,
}
use cloud_sre_agent.Config.{
  SourceConfig, TracingConfig, ProviderConfig, LlmConfig, Config, providers,
}

abbrev pub kind_gemini : Text
kind_gemini = codes "gemini"

abbrev pub kind_openai : Text
kind_openai = codes "openai"

abbrev pub kind_anthropic : Text
kind_anthropic = codes "anthropic"

abbrev pub kind_ollama : Text
kind_ollama = codes "ollama"

abbrev pub kind_stub : Text
kind_stub = codes "stub"

abbrev pub backend_vertex : Text
backend_vertex = codes "vertex"

abbrev pub backend_gemini_api : Text
backend_gemini_api = codes "gemini-api"

-- Where a provider stands, for an error's text: the primary, or a fallback by its index.
pub data Where : Type 0 where
  llm_primary : Where
  llm_fallback : ℕ → Where

pub data ConfigError : Type 0 where
  source_required : ConfigError
  source_type_required : ℕ → ConfigError
  file_path_required : ℕ → ConfigError
  pubsub_ids_required : ℕ → ConfigError
  source_type_unknown : ℕ → Text → ConfigError
  llm_provider_required : ConfigError
  llm_model_required : ConfigError
  provider_model_required : Where → ConfigError
  external_refused : Where → Text → ConfigError
  kind_unknown : Where → Text → ConfigError
  vertex_project_required : Where → ConfigError
  non_baa_refused : Where → ConfigError
  backend_unknown : Where → Text → ConfigError
  output_dir_required : ConfigError
  github_repo_required : ConfigError
  gitlab_project_required : ConfigError
  target_unknown : Text → ConfigError
  validator_unknown : Text → ConfigError
  log_format_unknown : Text → ConfigError
  exporter_unknown : Text → ConfigError

abbrev pub Check : Type 0
Check = Result ConfigError (Unit {0})

-- `SourceConfig.validate`
unfoldable pub validate_source : ℕ → SourceConfig → Check
validate_source i s =
    if is_empty s.source_type
    then err (source_type_required i)
    else if text_eq s.source_type (codes "file")
    then (if is_empty s.path then err (file_path_required i) else ok tt)
    else if text_eq s.source_type (codes "pubsub")
    then (if is_empty s.project_id || is_empty s.subscription_id
        then err (pubsub_ids_required i)
        else ok tt)
    else err (source_type_unknown i s.source_type)

-- The loop of `Config.Validate` over the sources.
unfoldable pub validate_sources : ℕ → List SourceConfig → Check
validate_sources i [] = ok tt
validate_sources i (s ∷ ss) = validate_source i s >>= λ _. validate_sources (i + 1) ss

-- `TracingConfig.validate`
unfoldable pub validate_tracing : TracingConfig → Check
validate_tracing t =
    if one_of t.exporter ([] ∷ codes "none" ∷ codes "stdout" ∷ codes "cloudtrace" ∷ [])
    then ok tt
    else err (exporter_unknown t.exporter)

-- `validateTarget`
unfoldable pub validate_target : Config → Check
validate_target c =
    if text_eq c.target (codes "local")
    then ok tt
    else if text_eq c.target (codes "github")
    then (if is_empty c.github.owner || is_empty c.github.repo
        then err github_repo_required
        else ok tt)
    else if text_eq c.target (codes "gitlab")
    then (if is_empty c.gitlab.project then err gitlab_project_required else ok tt)
    else err (target_unknown c.target)

-- `validateValidator`
unfoldable pub validate_validator : Config → Check
validate_validator c =
    if one_of c.validator (codes "none" ∷ codes "local" ∷ [])
    then ok tt
    else err (validator_unknown c.validator)

-- The check of `log.format` in `Config.Validate`.
unfoldable pub validate_log : Config → Check
validate_log c =
    if one_of c.log_format ([] ∷ codes "json" ∷ codes "text" ∷ [])
    then ok tt
    else err (log_format_unknown c.log_format)

abbrev pub has_no_source : Config → Bool
has_no_source c = elim c.sources [ [] ↦ true | _ ∷ _ ↦ false ]

-- The name of a place in the chain.
abbrev pub where_of : ℕ → Where
where_of zero = llm_primary
where_of (suc i) = llm_fallback i

module _ (getenv : Text → Text) where
  -- `AllowsNonBAA`
  unfoldable pub allows_non_baa : LlmConfig → Bool
  allows_non_baa l = l.allow_non_baa || text_eq (getenv (codes "SRE_ALLOW_NON_BAA")) (codes "1")

  -- `AllowsExternal`
  unfoldable pub allows_external : LlmConfig → Bool
  allows_external l =
      l.allow_external || text_eq (getenv (codes "SRE_ALLOW_EXTERNAL_LLM")) (codes "1")

  -- `validateGeminiBackend`
  unfoldable pub validate_gemini_backend : LlmConfig → Where → ProviderConfig → Check
  validate_gemini_backend l at p =
      if text_eq p.backend backend_vertex
      then (if is_empty p.project || is_empty p.location
          then err (vertex_project_required at)
          else ok tt)
      else if text_eq p.backend backend_gemini_api
      then (if not (allows_non_baa l) then err (non_baa_refused at) else ok tt)
      else err (backend_unknown at p.backend)

  -- `validateProvider`
  unfoldable pub validate_provider : LlmConfig → Where → ProviderConfig → Check
  validate_provider l at p =
      if is_empty p.model
      then err (provider_model_required at)
      else if text_eq p.kind kind_gemini
      then validate_gemini_backend l at p
      else if text_eq p.kind kind_ollama
      then ok tt
      else if text_eq p.kind kind_stub
      then ok tt
      else if one_of p.kind (kind_openai ∷ kind_anthropic ∷ [])
      then (if not (allows_external l) then err (external_refused at p.kind) else ok tt)
      else err (kind_unknown at p.kind)

  -- The loop of `LLMConfig.validate` over the chain.
  unfoldable pub validate_chain : LlmConfig → ℕ → List ProviderConfig → Check
  validate_chain l i [] = ok tt
  validate_chain l i (p ∷ ps) =
      validate_provider l (where_of i) p >>= λ _. validate_chain l (suc i) ps

  -- `LLMConfig.validate`
  unfoldable pub validate_llm : LlmConfig → Check
  validate_llm l = do
    reject_if (is_empty l.provider) llm_provider_required
    reject_if (is_empty l.model) llm_model_required
    validate_chain l 0 (providers l)

  -- `Config.Validate`
  unfoldable pub validate : Config → Check
  validate c = do
    reject_if (has_no_source c) source_required
    validate_sources 0 c.sources
    validate_llm c.llm
    reject_if (is_empty c.output_dir) output_dir_required
    validate_target c
    validate_validator c
    validate_log c
    validate_tracing c.tracing
