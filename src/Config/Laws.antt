-- ===== src/Config/Laws.antt =====
-- What the validator of internal/config/config.go accepts.
use cloud_sre_agent.Prelude.{
  ℕ, suc, ◌+◌, ◌≡◌, ◌≢◌, ◌↔◌, ◌⊎◌, true, false, List, [], ◌∷◌, ok, Text, codes, text_eq_iff, one_of,
  is_empty, is_empty_iff, All, arith,
}
use cloud_sre_agent.Config.{
  SourceConfig, TracingConfig, ProviderConfig, LlmConfig, Config, providers,
}
use cloud_sre_agent.Config.Validate.{
  Where, where_of, validate_source, validate_sources, validate_tracing, validate_target,
  validate_validator, validate_log, allows_non_baa, allows_external, validate_gemini_backend,
  validate_provider, validate_chain, validate_llm, validate, kind_gemini, kind_openai,
  kind_anthropic, kind_ollama, kind_stub, backend_vertex, backend_gemini_api,
}

-- A source that names its type and carries what the type needs.
abbrev pub IsValidSource : SourceConfig → Type 0
IsValidSource s =
    ((s.source_type ≡ codes "file") × (s.path ≢ []))
    ⊎ ((s.source_type ≡ codes "pubsub") × (s.project_id ≢ []) × (s.subscription_id ≢ []))

validate_source_iff : (i : ℕ) (s : SourceConfig) → (validate_source i s ≡ ok tt) ↔ IsValidSource s
unfolding validate_source
validate_source_iff i s = ground (
  arith,
  text_eq_iff s.source_type (codes "file"),
  text_eq_iff s.source_type (codes "pubsub"),
  is_empty_iff s.path,
  is_empty_iff s.project_id,
  is_empty_iff s.subscription_id,
)

validate_sources_iff :
    (i : ℕ) (ss : List SourceConfig) → (validate_sources i ss ≡ ok tt) ↔ All IsValidSource ss
unfolding validate_sources
validate_sources_iff i [] = ground arith
validate_sources_iff i (s ∷ ss) =
    ground (arith, validate_source_iff i s, validate_sources_iff (i + 1) ss)

module _ (getenv : Text → Text) where
  -- A Google backend that may receive prompts: Vertex AI with its project and location, or the
  -- consumer API with the operator's opt-in.
  abbrev pub IsValidBackend : LlmConfig → ProviderConfig → Type 0
  IsValidBackend l p =
      ((p.backend ≡ backend_vertex) × (p.project ≢ []) × (p.location ≢ []))
      ⊎ ((p.backend ≡ backend_gemini_api) × (allows_non_baa getenv l ≡ true))

  -- A provider that may receive prompts: external services only with the operator's opt-in.
  abbrev pub IsAllowed : LlmConfig → ProviderConfig → Type 0
  IsAllowed l p =
      (p.model ≢ [])
      × (((p.kind ≡ kind_gemini) × IsValidBackend l p)
          ⊎ ((p.kind ≡ kind_ollama) ⊎ (p.kind ≡ kind_stub))
          ⊎ (((p.kind ≡ kind_openai) ⊎ (p.kind ≡ kind_anthropic))
              × (allows_external getenv l ≡ true)))

  validate_gemini_backend_iff :
      (l : LlmConfig) (at : Where) (p : ProviderConfig)
      → (validate_gemini_backend getenv l at p ≡ ok tt) ↔ IsValidBackend l p
  unfolding validate_gemini_backend
  validate_gemini_backend_iff l at p = ground (
    arith,
    text_eq_iff p.backend backend_vertex,
    text_eq_iff p.backend backend_gemini_api,
    is_empty_iff p.project,
    is_empty_iff p.location,
  )

  validate_provider_iff :
      (l : LlmConfig) (at : Where) (p : ProviderConfig)
      → (validate_provider getenv l at p ≡ ok tt) ↔ IsAllowed l p
  unfolding validate_provider one_of
  validate_provider_iff l at p = ground (
    arith,
    validate_gemini_backend_iff l at p,
    text_eq_iff p.kind kind_gemini,
    text_eq_iff p.kind kind_ollama,
    text_eq_iff p.kind kind_stub,
    text_eq_iff p.kind kind_openai,
    text_eq_iff p.kind kind_anthropic,
    is_empty_iff p.model,
  )

  validate_chain_iff :
      (l : LlmConfig) (i : ℕ) (ps : List ProviderConfig)
      → (validate_chain getenv l i ps ≡ ok tt) ↔ All (IsAllowed l) ps
  unfolding validate_chain
  validate_chain_iff l i [] = ground arith
  validate_chain_iff l i (p ∷ ps) =
      ground (arith, validate_provider_iff l (where_of i) p, validate_chain_iff l (suc i) ps)

  -- An empty kind of the primary is refused by the chain too.
  validate_llm_iff :
      (l : LlmConfig) → (validate_llm getenv l ≡ ok tt) ↔ All (IsAllowed l) (providers l)
  unfolding validate_llm providers
  validate_llm_iff l =
      ground
        (arith, is_empty_iff l.provider, is_empty_iff l.model, validate_chain_iff l 0 (providers l))

  -- What `Config.Validate` stands for.
  pub record IsValid (c : Config) : Type 0 where
    pub some_source : c.sources ≢ []
    pub sources_valid : All IsValidSource c.sources
    pub providers_allowed : All (IsAllowed c.llm) (providers c.llm)
    pub output_given : c.output_dir ≢ []
    pub target_valid :
        (c.target ≡ codes "local")
        ⊎ ((c.target ≡ codes "github") × (c.github.owner ≢ []) × (c.github.repo ≢ []))
        ⊎ ((c.target ≡ codes "gitlab") × (c.gitlab.project ≢ []))
    pub validator_known : (c.validator ≡ codes "none") ⊎ (c.validator ≡ codes "local")
    pub log_known :
        (c.log_format ≡ []) ⊎ (c.log_format ≡ codes "json") ⊎ (c.log_format ≡ codes "text")
    pub exporter_known :
        (c.tracing.exporter ≡ [])
        ⊎ (c.tracing.exporter ≡ codes "none")
        ⊎ (c.tracing.exporter ≡ codes "stdout")
        ⊎ (c.tracing.exporter ≡ codes "cloudtrace")

  target_iff :
      (c : Config)
      → (validate_target c ≡ ok tt) ↔ (
          (c.target ≡ codes "local")
          ⊎ ((c.target ≡ codes "github") × (c.github.owner ≢ []) × (c.github.repo ≢ []))
          ⊎ ((c.target ≡ codes "gitlab") × (c.gitlab.project ≢ [])))
  unfolding validate_target
  target_iff c = ground (
    arith,
    text_eq_iff c.target (codes "local"),
    text_eq_iff c.target (codes "github"),
    text_eq_iff c.target (codes "gitlab"),
    is_empty_iff c.github.owner,
    is_empty_iff c.github.repo,
    is_empty_iff c.gitlab.project,
  )

  validator_iff :
      (c : Config)
      → (validate_validator c ≡ ok tt)
        ↔ ((c.validator ≡ codes "none") ⊎ (c.validator ≡ codes "local"))
  unfolding validate_validator one_of
  validator_iff c =
      ground
        (arith, text_eq_iff c.validator (codes "none"), text_eq_iff c.validator (codes "local"))

  log_iff :
      (c : Config)
      → (validate_log c ≡ ok tt)
        ↔ ((c.log_format ≡ []) ⊎ (c.log_format ≡ codes "json") ⊎ (c.log_format ≡ codes "text"))
  unfolding validate_log one_of
  log_iff c = ground (
    arith,
    text_eq_iff c.log_format [],
    text_eq_iff c.log_format (codes "json"),
    text_eq_iff c.log_format (codes "text"),
  )

  exporter_iff :
      (t : TracingConfig)
      → (validate_tracing t ≡ ok tt) ↔ (
          (t.exporter ≡ [])
          ⊎ (t.exporter ≡ codes "none")
          ⊎ (t.exporter ≡ codes "stdout")
          ⊎ (t.exporter ≡ codes "cloudtrace"))
  unfolding validate_tracing one_of
  exporter_iff t = ground (
    arith,
    text_eq_iff t.exporter [],
    text_eq_iff t.exporter (codes "none"),
    text_eq_iff t.exporter (codes "stdout"),
    text_eq_iff t.exporter (codes "cloudtrace"),
  )

  -- All checks of `Validate` pass exactly when each passes.
  validate_parts :
      (c : Config)
      → (validate getenv c ≡ ok tt) ↔ (
          (c.sources ≢ [])
          × (validate_sources 0 c.sources ≡ ok tt)
          × (validate_llm getenv c.llm ≡ ok tt)
          × (is_empty c.output_dir ≡ false)
          × (validate_target c ≡ ok tt)
          × (validate_validator c ≡ ok tt)
          × (validate_log c ≡ ok tt)
          × (validate_tracing c.tracing ≡ ok tt))
  unfolding validate
  validate_parts c = ground arith

  -- `Config.Validate` accepts exactly the valid configurations: among other things every provider
  -- of the chain that is an external service, and every use of the consumer Gemini API, needs its
  -- opt-in, from the configuration or the environment.
  pub validate_iff : (c : Config) → (validate getenv c ≡ ok tt) ↔ IsValid c
  validate_iff c =
      let parts = validate_parts c in
      (
        λ h.
            let (s, ss, l, o, t, v, f, e) = parts.0 h in
            record {
              some_source = s;
              sources_valid = (validate_sources_iff 0 c.sources).0 ss;
              providers_allowed = (validate_llm_iff c.llm).0 l;
              output_given = (is_empty_iff c.output_dir).0 o;
              target_valid = (target_iff c).0 t;
              validator_known = (validator_iff c).0 v;
              log_known = (log_iff c).0 f;
              exporter_known = (exporter_iff c.tracing).0 e;
            },
        λ v. parts.1 (
          v.some_source,
          (validate_sources_iff 0 c.sources).1 v.sources_valid,
          (validate_llm_iff c.llm).1 v.providers_allowed,
          (is_empty_iff c.output_dir).1 v.output_given,
          (target_iff c).1 v.target_valid,
          (validator_iff c).1 v.validator_known,
          (log_iff c).1 v.log_known,
          (exporter_iff c.tracing).1 v.exporter_known,
        ),
      )
