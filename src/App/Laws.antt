-- ===== src/App/Laws.antt =====
-- The builders of internal/app/app.go behind the checks of internal/config/config.go.
use mathlib.Core.List.{append-nil, append_assoc}
use cloud_sre_agent.Prelude.{
  ℕ, suc, ◌+◌, ◌≡◌, ◌≢◌, ◌∙◌, ap, sym, refl, Bool, true, false, List, [], ◌∷◌, ◌++◌, some, map,
  Result, ok, err, Text, codes, text_eq_iff, All, arith, ◌>>=◌,
}
use cloud_sre_agent.Config.{SourceConfig, ProviderConfig, LlmConfig, Config, providers, primary}
use cloud_sre_agent.Config.Validate.{
  where_of, validate, kind_gemini, kind_openai, kind_anthropic, kind_ollama, kind_stub,
  backend_vertex, backend_gemini_api,
}
use cloud_sre_agent.Config.Laws.{IsValidSource, IsAllowed, IsValid, validate_iff}
use cloud_sre_agent.Llm.Router.{Provider, Router, new, add_fallbacks}
use cloud_sre_agent.App.Build.{
  Adapters, BuildError, not_set, adapter_failed, at_provider, at_source, adapted, wrapped,
  with_secret, build_gemini, build_one_provider, build_providers, build_router, build_provider,
  build_target, build_source, build_sources,
}

-- An error that the environment causes: a secret that is not set, or a failing constructor. The
-- others blame the configuration or the program.
abbrev pub is_operational : BuildError → Bool
is_operational (not_set env) = true
is_operational (adapter_failed e) = true
is_operational (at_provider at e) = is_operational e
is_operational (at_source i e) = is_operational e
is_operational _ = false

-- A result that is no error but an operational one.
abbrev pub IsServed : {A : Type 0} → Result BuildError A → Type 0
IsServed (ok a) = Unit
IsServed (err e) = is_operational e ≡ true

adapted-IsServed : {A : Type 0} (r : Result Text A) → IsServed (adapted r)
unfolding adapted
adapted-IsServed (ok a) = tt
adapted-IsServed (err e) = refl

wrapped-IsServed :
    {A : Type 0} (at : _) (r : Result BuildError A)
    → IsServed r
    → IsServed (wrapped (at_provider at) r)
unfolding wrapped
wrapped-IsServed at (ok a) h = tt
wrapped-IsServed at (err e) h = h

bind-IsServed :
    {A B : Type 0} (r : Result BuildError A) (f : A → Result BuildError B)
    → IsServed r
    → ((a : A) → IsServed (f a))
    → IsServed (r >>= f)
bind-IsServed (ok a) f h g = g a
bind-IsServed (err e) f h g = h

bind-ok :
    {A B : Type 0} (r : Result BuildError A) (f : A → Result BuildError B) {b : B}
    → (r >>= f) ≡ ok b
    → (a : A) × (r ≡ ok a) × (f a ≡ ok b)
bind-ok (ok a) f h = (a, refl, h)
bind-ok (err e) f h = absurd (ground (arith, h))

wrapped-ok :
    {A : Type 0} (f : BuildError → BuildError) (r : Result BuildError A) (a : A)
    → wrapped f r ≡ ok a
    → r ≡ ok a
unfolding wrapped
wrapped-ok f (ok b) a h = h
wrapped-ok f (err e) a h = absurd (ground (arith, h))

add_fallbacks-ok :
    {W : Type 0} (i : ℕ) (ps qs : List (Provider W))
    → add_fallbacks i ps (map some qs) ≡ ok (record { providers = ps ++ qs })
unfolding add_fallbacks
add_fallbacks-ok i ps [] = ap (λ l. ok (record { providers = l })) (sym (append-nil ps))
add_fallbacks-ok i ps (q ∷ qs) =
    add_fallbacks-ok (i + 1) (ps ++ q ∷ []) qs
    ∙ ap (λ l. ok (record { providers = l })) (append_assoc ps (q ∷ []) qs)

module _ {W T V S : Type 0} (make : Adapters W T V S) (getenv : Text → Text) where
  with_secret-IsServed :
      {A : Type 0} (env : Text) (build : Text → Result Text A)
      → IsServed (with_secret make getenv env build)
  unfolding with_secret
  with_secret-IsServed env build = ground (arith, adapted-IsServed (build (getenv env)))

  build_one_provider-IsServed :
      (l : LlmConfig) (e : ProviderConfig)
      → IsAllowed getenv l e
      → IsServed (build_one_provider make getenv e)
  unfolding build_one_provider build_gemini
  build_one_provider-IsServed l e h = ground (
    arith,
    text_eq_iff e.kind kind_gemini,
    text_eq_iff e.kind kind_openai,
    text_eq_iff e.kind kind_anthropic,
    text_eq_iff e.kind kind_ollama,
    text_eq_iff e.kind kind_stub,
    text_eq_iff e.backend backend_vertex,
    text_eq_iff e.backend backend_gemini_api,
    adapted-IsServed (make.gemini_vertex e.model e.project e.location),
    adapted-IsServed (make.ollama e.model e.host),
    with_secret-IsServed e.api_key_env (λ key. make.gemini_api e.model key),
    with_secret-IsServed (codes "OPENAI_API_KEY") (λ key. make.openai e.model key e.base_url),
    with_secret-IsServed (codes "ANTHROPIC_API_KEY") (λ key. make.anthropic e.model key e.base_url),
  )

  build_providers-IsServed :
      (l : LlmConfig) (i : ℕ) (es : List ProviderConfig)
      → All (IsAllowed getenv l) es
      → IsServed (build_providers make getenv i es)
  unfolding build_providers
  build_providers-IsServed l i [] h = tt
  build_providers-IsServed l i (e ∷ es) (h, hs) =
      bind-IsServed _ _ (wrapped-IsServed (where_of i) _ (build_one_provider-IsServed l e h))
        (λ p. bind-IsServed _ _ (build_providers-IsServed l (suc i) es hs) (λ ps. tt))

  build_router-ok :
      (p : Provider W) (ps : List (Provider W))
      → build_router make getenv (p ∷ ps) ≡ ok (record { providers = p ∷ ps })
  unfolding build_router new
  build_router-ok p ps = rw add_fallbacks-ok refl

  chain-IsServed :
      (r : Result BuildError (List (Provider W)))
      → IsServed r
      → r ≢ ok []
      → IsServed (r >>= build_router make getenv)
  chain-IsServed (err e) h n = h
  chain-IsServed (ok []) h n = absurd (n refl)
  chain-IsServed (ok (p ∷ ps)) h n = rw build_router-ok tt

  build_providers-not-nil :
      (i : ℕ) (e : ProviderConfig) (es : List ProviderConfig)
      → build_providers make getenv i (e ∷ es) ≢ ok []
  unfolding build_providers wrapped
  build_providers-not-nil i e es =
      not_nil (wrapped (at_provider (where_of i)) (build_one_provider make getenv e))
        (build_providers make getenv (suc i) es)
    where
      not_nil :
          (r : Result BuildError (Provider W)) (rs : Result BuildError (List (Provider W)))
          → (r >>= λ p. rs >>= λ ps. ok (p ∷ ps)) ≢ ok []
      not_nil (err x) rs h = ground arith
      not_nil (ok p) (err x) h = ground arith
      not_nil (ok p) (ok ps) h = ground arith

  build_target-IsServed : (c : Config) → IsValid getenv c → IsServed (build_target make getenv c)
  unfolding build_target
  build_target-IsServed c v = ground (
    arith,
    v.target_valid,
    text_eq_iff c.target (codes "local"),
    text_eq_iff c.target (codes "github"),
    text_eq_iff c.target (codes "gitlab"),
    with_secret-IsServed (codes "GITHUB_TOKEN")
        (λ token. make.github c.github.owner c.github.repo c.github.base_branch token),
    with_secret-IsServed (codes "GITLAB_TOKEN")
        (λ token. make.gitlab c.gitlab.project c.gitlab.base_branch c.gitlab.base_url token),
  )

  build_source-IsServed :
      (s : SourceConfig) → IsValidSource s → IsServed (build_source make getenv s)
  unfolding build_source
  build_source-IsServed s h = ground (
    arith,
    text_eq_iff s.source_type (codes "file"),
    text_eq_iff s.source_type (codes "pubsub"),
    adapted-IsServed (make.file_source s.path),
    adapted-IsServed (make.pubsub_source s.project_id s.subscription_id),
  )

  build_sources-IsServed :
      (i : ℕ) (built : List S) (ss : List SourceConfig)
      → All IsValidSource ss
      → (e : BuildError) (closed : List S) → build_sources make getenv i built ss ≡ err (e, closed)
      → is_operational e ≡ true
  unfolding build_sources
  build_sources-IsServed i built [] h e closed k = absurd (ground (arith, k))
  build_sources-IsServed i built (s ∷ ss) (h, hs) e closed k =
      next (build_source make getenv s) (build_source-IsServed s h)
        (λ src. build_sources-IsServed (i + 1) (built ++ src ∷ []) ss hs e closed) k
    where
      next :
          (r : Result BuildError S)
          → IsServed r
          → ((src : S)
              → build_sources make getenv (i + 1) (built ++ src ∷ []) ss ≡ err (e, closed)
              → is_operational e ≡ true)
          → (elim r [
            | err x ↦ err (at_source i x, built)
            | ok src ↦ build_sources make getenv (i + 1) (built ++ src ∷ []) ss
          ])
            ≡ err (e, closed)
          → is_operational e ≡ true
      next (ok src) v rest eq = rest src eq
      next (err x) v rest eq = ground arith

  -- For a configuration that `Config.Validate` accepts, the builders reach none of their branches
  -- for an unsupported kind, backend, target or source type, and the router accepts the chain: each
  -- builds its part, or fails because a secret is not set or an adapter's constructor failed.
  pub builders-IsServed :
      (c : Config)
      → validate getenv c ≡ ok tt
      → IsServed (build_provider make getenv c.llm)
        × IsServed (build_target make getenv c)
        × ((e : BuildError) (closed : List S)
            → build_sources make getenv 0 [] c.sources ≡ err (e, closed)
            → is_operational e ≡ true)
  unfolding build_provider providers
  builders-IsServed c h =
      let v = (validate_iff getenv c).0 h in
      (
        chain-IsServed _ (build_providers-IsServed c.llm 0 (providers c.llm) v.providers_allowed)
            (build_providers-not-nil 0 (primary c.llm) c.llm.fallbacks),
        build_target-IsServed c v,
        build_sources-IsServed 0 [] c.sources v.sources_valid,
      )

  build_router-providers :
      (ps : List (Provider W)) (r : Router W)
      → build_router make getenv ps ≡ ok r
      → ps ≡ r.providers
  unfolding build_router
  build_router-providers [] r h = absurd (ground (arith, h))
  build_router-providers (p ∷ ps) r h = ground (arith, sym (build_router-ok p ps) ∙ h)

  build_providers-order :
      (i : ℕ) (es : List ProviderConfig) (ps : List (Provider W))
      → build_providers make getenv i es ≡ ok ps
      → map (build_one_provider make getenv) es ≡ map ok ps
  unfolding build_providers
  build_providers-order i [] ps h = ground (arith, h)
  build_providers-order i (e ∷ es) ps h =
      let (q, first, h') =
        bind-ok (wrapped (at_provider (where_of i)) (build_one_provider make getenv e)) _ h in
      let (qs, rest, h'') = bind-ok (build_providers make getenv (suc i) es) _ h' in
      ground (
        arith,
        wrapped-ok _ (build_one_provider make getenv e) q first,
        build_providers-order (suc i) es qs rest,
        h'',
      )

  -- The chain that the router tries is that of the configuration: when `BuildProvider` succeeds,
  -- the router's providers are those built from the primary and the fallbacks, in their order.
  pub build_provider-order :
      (l : LlmConfig) (r : Router W)
      → build_provider make getenv l ≡ ok r
      → map (build_one_provider make getenv) (providers l) ≡ map ok r.providers
  unfolding build_provider
  build_provider-order l r h =
      let (ps, built, routed) = bind-ok (build_providers make getenv 0 (providers l)) _ h in
      build_providers-order 0 (providers l) ps built
      ∙ ap (λ x. map ok x) (build_router-providers ps r routed)
