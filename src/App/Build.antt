-- ===== src/App/Build.antt =====
-- internal/app/app.go: `BuildProvider`, `BuildTarget`, `BuildValidator` and `BuildSources`. The
-- constructors of the adapters, most of which only wrap a vendor's client, are the parameter
-- `Adapters`; the error of a constructor is its text. `getenv` is `os.Getenv`.
use cloud_sre_agent.Prelude.{
  ℕ, suc, ◌+◌, List, [], ◌∷◌, ◌++◌, map, some, Result, ok, err, ◌>>=◌, Text, codes, text_eq,
  is_empty, if◌then◌else◌,
}
use cloud_sre_agent.Config.{SourceConfig, ProviderConfig, LlmConfig, Config, providers}
use cloud_sre_agent.Config.Validate.{
  Where, where_of, kind_gemini, kind_openai, kind_anthropic, kind_ollama, kind_stub, backend_vertex,
  backend_gemini_api,
}
use cloud_sre_agent.Llm.Router.{Provider, Router, RouterError, new}

pub record Adapters (W T V S : Type 0) : Type 0 where
  -- `gemini.New` with a model, a project and a location; and with a model and a key
  pub gemini_vertex : Text → Text → Text → Result Text (Provider W)
  pub gemini_api : Text → Text → Result Text (Provider W)
  -- a model, a key and a base URL
  pub openai : Text → Text → Text → Result Text (Provider W)
  pub anthropic : Text → Text → Text → Result Text (Provider W)
  -- a model and a host
  pub ollama : Text → Text → Result Text (Provider W)
  pub stub : Provider W
  pub local_target : Text → T
  -- an owner, a repository, a base branch and a token
  pub github : Text → Text → Text → Text → Result Text T
  -- a project, a base branch, a base URL and a token
  pub gitlab : Text → Text → Text → Text → Result Text T
  pub local_validator : V
  pub noop_validator : V
  pub file_source : Text → Result Text S
  pub pubsub_source : Text → Text → Result Text S

pub data BuildError : Type 0 where
  -- an environment variable with a secret is empty
  not_set : Text → BuildError
  adapter_failed : Text → BuildError
  unsupported_backend unsupported_kind unsupported_target unsupported_source : Text → BuildError
  at_provider : Where → BuildError → BuildError
  at_source : ℕ → BuildError → BuildError
  router_failed : RouterError → BuildError

unfoldable pub adapted : {A : Type 0} → Result Text A → Result BuildError A
adapted (ok a) = ok a
adapted (err e) = err (adapter_failed e)

-- Name the place at which an error occurred.
unfoldable pub wrapped :
    {A : Type 0} → (BuildError → BuildError) → Result BuildError A → Result BuildError A
wrapped f (ok a) = ok a
wrapped f (err e) = err (f e)

module _ {W T V S : Type 0} (make : Adapters W T V S) (getenv : Text → Text) where
  -- Build with the secret that an environment variable holds.
  unfoldable pub with_secret : {A : Type 0} → Text → (Text → Result Text A) → Result BuildError A
  unfolding adapted
  with_secret env build =
      if is_empty (getenv env) then err (not_set env) else adapted (build (getenv env))

  unfoldable pub build_gemini : ProviderConfig → Result BuildError (Provider W)
  unfolding adapted with_secret
  build_gemini e =
      if text_eq e.backend backend_vertex
      then adapted (make.gemini_vertex e.model e.project e.location)
      else if text_eq e.backend backend_gemini_api
      then with_secret e.api_key_env (λ key. make.gemini_api e.model key)
      else err (unsupported_backend e.backend)

  -- `buildOneProvider`
  unfoldable pub build_one_provider : ProviderConfig → Result BuildError (Provider W)
  unfolding adapted with_secret build_gemini
  build_one_provider e =
      if text_eq e.kind kind_gemini
      then build_gemini e
      else if text_eq e.kind kind_openai
      then with_secret (codes "OPENAI_API_KEY") (λ key. make.openai e.model key e.base_url)
      else if text_eq e.kind kind_anthropic
      then with_secret (codes "ANTHROPIC_API_KEY") (λ key. make.anthropic e.model key e.base_url)
      else if text_eq e.kind kind_ollama
      then adapted (make.ollama e.model e.host)
      else if text_eq e.kind kind_stub
      then ok make.stub
      else err (unsupported_kind e.kind)

  -- The loop of `BuildProvider`.
  unfoldable pub build_providers : ℕ → List ProviderConfig → Result BuildError (List (Provider W))
  unfolding wrapped build_one_provider
  build_providers i [] = ok []
  build_providers i (e ∷ es) = wrapped (at_provider (where_of i)) (build_one_provider e) >>= λ p.
      build_providers (suc i) es >>= λ ps. ok (p ∷ ps)

  -- `router.New(built[0], built[1:]...)`
  unfoldable pub build_router : List (Provider W) → Result BuildError (Router W)
  build_router [] = err (router_failed RouterError.primary_required)
  build_router (p ∷ ps) = route (new (some p) (map some ps))
    where
      route : Result RouterError (Router W) → Result BuildError (Router W)
      route (ok r) = ok r
      route (err e) = err (router_failed e)

  -- `BuildProvider`
  unfoldable pub build_provider : LlmConfig → Result BuildError (Router W)
  unfolding build_providers build_router
  build_provider l = build_providers 0 (providers l) >>= λ ps. build_router ps

  -- `BuildTarget`
  unfoldable pub build_target : Config → Result BuildError T
  unfolding with_secret
  build_target c =
      if text_eq c.target (codes "local")
      then ok (make.local_target c.output_dir)
      else if text_eq c.target (codes "github")
      then with_secret (codes "GITHUB_TOKEN")
          (λ token. make.github c.github.owner c.github.repo c.github.base_branch token)
      else if text_eq c.target (codes "gitlab")
      then with_secret (codes "GITLAB_TOKEN")
          (λ token. make.gitlab c.gitlab.project c.gitlab.base_branch c.gitlab.base_url token)
      else err (unsupported_target c.target)

  -- `BuildValidator`
  unfoldable pub build_validator : Config → V
  build_validator c =
      if text_eq c.validator (codes "local") then make.local_validator else make.noop_validator

  -- One step of the loop of `BuildSources`.
  unfoldable pub build_source : SourceConfig → Result BuildError S
  unfolding adapted
  build_source s =
      if text_eq s.source_type (codes "file")
      then adapted (make.file_source s.path)
      else if text_eq s.source_type (codes "pubsub")
      then adapted (make.pubsub_source s.project_id s.subscription_id)
      else err (unsupported_source s.source_type)

  -- `BuildSources`; an error comes with the sources that `closeAll` closes.
  unfoldable pub build_sources :
      ℕ → List S → List SourceConfig → Result (BuildError × List S) (List S)
  unfolding build_source
  build_sources i built [] = ok built
  build_sources i built (s ∷ ss) = elim (build_source s) [
    | err e ↦ err (at_source i e, built)
    | ok src ↦ build_sources (i + 1) (built ++ src ∷ []) ss
  ]
