-- ===== src/App/Run/Laws.antt =====
-- How `Run` returns for a checked configuration, and which sources it has closed by then.
use mathlib.Core.List.{append_assoc, append-nil}
use cloud_sre_agent.Prelude.{
  ℕ, ◌+◌, ◌≡◌, refl, sym, ◌∙◌, Bool, true, false, List, [], ◌∷◌, ◌++◌, none, some, Result, ok, err,
  Result-cases, inl, inr, Text, if◌then◌else◌,
}
use cloud_sre_agent.Prelude.Runtime.{Runtime}
use cloud_sre_agent.Config.{SourceConfig, Config}
use cloud_sre_agent.Config.Validate.{validate}
use cloud_sre_agent.Llm.Router.{Router}
use cloud_sre_agent.Pipeline.{Pipeline}
use cloud_sre_agent.Pipeline.Construct
use cloud_sre_agent.Pipeline.Construct.{new-ports}
use cloud_sre_agent.App.Build.{
  Adapters, BuildError, build_provider, build_target, build_validator, build_source, build_sources,
}
use cloud_sre_agent.App.Laws.{is_operational, IsServed, builders-IsServed}
use cloud_sre_agent.App.Consume.{Signal, End, waiting, stopped, drained, failed, MergeError}
use cloud_sre_agent.App.Run.{
  RunError, provider_failed, target_failed, sources_failed, pipeline_failed, merge_failed,
  source_failed, Parts, Progress, running, returned, Outcome, after_consume, give_up,
  build_pipeline, after_merge, after_sources, after_pipeline, after_target, after_provider, run,
}

-- An error that the environment causes.
abbrev pub is_expected : RunError → Bool
is_expected (provider_failed e) = is_operational e
is_expected (target_failed e) = is_operational e
is_expected (sources_failed e) = is_operational e
is_expected (pipeline_failed e) = false
is_expected (merge_failed e) = true
is_expected (source_failed e) = true

-- The error came when sources had been opened.
abbrev pub is_late : RunError → Bool
is_late (sources_failed e) = true
is_late (merge_failed e) = true
is_late (source_failed e) = true
is_late _ = false

-- What `Run` has done, if `opened` are the sources that it opened.
abbrev pub IsProper : {S : Type 0} → List S → Progress → List S → Type 0
IsProper opened running closed = closed ≡ []
IsProper opened (returned none) closed = closed ≡ opened
IsProper opened (returned (some e)) closed =
    (is_expected e ≡ true) × (closed ≡ (if is_late e then opened else []))

module _ {W T V S : Type 0} (make : Adapters W T V S) (getenv : Text → Text) where
  -- The sources that the configuration opens, up to the first that fails.
  abbrev pub opened : List SourceConfig → List S
  opened [] = []
  opened (s ∷ ss) =
      let rest = opened ss in elim (build_source make getenv s) [ ok src ↦ src ∷ rest | err e ↦ [] ]

  -- The sources that a result of `BuildSources` holds or has closed.
  abbrev pub built_by : Result (BuildError × List S) (List S) → List S
  built_by (ok sources) = sources
  built_by (err (e, closed)) = closed

  build_sources-opened :
      (i : ℕ) (built : List S) (ss : List SourceConfig)
      → built_by (build_sources make getenv i built ss) ≡ built ++ opened ss
  unfolding build_sources
  build_sources-opened i built [] = sym (append-nil built)
  build_sources-opened i built (s ∷ ss) = elim (Result-cases (build_source make getenv s)) [
    | inl (src, e) ↦
        rw (e, build_sources, opened)
          (build_sources-opened (i + 1) (built ++ src ∷ []) ss
            ∙ append_assoc built (src ∷ []) (opened ss))
    | inr (x, e) ↦ rw (e, build_sources, opened) (sym (append-nil built))
  ]

module _ (rt : Runtime) {W T V S C : Type 0} (make : Adapters W T V S) (getenv : Text → Text)
    (parts : Parts W T V S C) where
  abbrev IsProperOutcome : List S → Outcome S → Type 0
  IsProperOutcome sources out = IsProper sources out.progress out.closed

  after_consume-IsProper :
      (sources : List S) (e : End) → IsProperOutcome sources (after_consume sources e)
  unfolding after_consume
  after_consume-IsProper sources waiting = refl
  after_consume-IsProper sources stopped = refl
  after_consume-IsProper sources drained = refl
  after_consume-IsProper sources (failed e) = (refl, refl)

  after_merge-IsProper :
      (p : Pipeline W) (sources : List S) (signals : List Signal)
      (r : Result MergeError (List C) × W)
      → IsProperOutcome sources (after_merge rt make getenv parts p sources signals r)
  unfolding after_merge give_up
  after_merge-IsProper p sources signals (err e, w) = (refl, refl)
  after_merge-IsProper p sources signals (ok chans, w) = after_consume-IsProper sources _

  after_sources-IsProper :
      (p : Pipeline W) (signals : List Signal) (w : W) (r : Result (BuildError × List S) (List S))
      → ((e : BuildError) (closed : List S) → r ≡ err (e, closed) → is_operational e ≡ true)
      → IsProperOutcome (built_by make getenv r) (after_sources rt make getenv parts p signals w r)
  unfolding after_sources give_up
  after_sources-IsProper p signals w (err (e, closed)) h = (h e closed refl, refl)
  after_sources-IsProper p signals w (ok sources) h = after_merge-IsProper p sources signals _

  build_pipeline-ok :
      (r : Router W) (t : T) (v : V)
      → (p : Pipeline W) × (build_pipeline rt make getenv parts r t v ≡ ok p)
  unfolding build_pipeline
  build_pipeline-ok r t v = let (p, e, _, _, _, _) = new-ports _ _ _ _ _ _ in (p, e)

  after_pipeline-IsProper :
      (c : Config) (signals : List Signal) (w : W) (p : Pipeline W)
      (r : Result Construct.NewError (Pipeline W))
      → r ≡ ok p
      → ((e : BuildError) (closed : List S)
          → build_sources make getenv 0 [] c.sources ≡ err (e, closed)
          → is_operational e ≡ true)
      → IsProperOutcome
          (opened make getenv c.sources)
          (after_pipeline rt make getenv parts c signals w r)
  unfolding after_pipeline
  after_pipeline-IsProper c signals w p r e h =
      rw (e, after_pipeline, sym (build_sources-opened make getenv 0 [] c.sources))
        (after_sources-IsProper p signals w (build_sources make getenv 0 [] c.sources) h)

  after_target-IsProper :
      (c : Config) (signals : List Signal) (w : W) (r : Router W) (t : Result BuildError T)
      → IsServed t
      → ((e : BuildError) (closed : List S)
          → build_sources make getenv 0 [] c.sources ≡ err (e, closed)
          → is_operational e ≡ true)
      → IsProperOutcome
          (opened make getenv c.sources)
          (after_target rt make getenv parts c signals w r t)
  unfolding after_target give_up
  after_target-IsProper c signals w r (err e) served h = (served, refl)
  after_target-IsProper c signals w r (ok t) served h =
      let (p, e) = build_pipeline-ok r t (build_validator make getenv c) in
      after_pipeline-IsProper c signals w p _ e h

  after_provider-IsProper :
      (c : Config) (signals : List Signal) (w : W) (r : Result BuildError (Router W))
      → IsServed r
      → IsServed (build_target make getenv c)
      → ((e : BuildError) (closed : List S)
          → build_sources make getenv 0 [] c.sources ≡ err (e, closed)
          → is_operational e ≡ true)
      → IsProperOutcome
          (opened make getenv c.sources)
          (after_provider rt make getenv parts c signals w r)
  unfolding after_provider give_up
  after_provider-IsProper c signals w (err e) served target h = (served, refl)
  after_provider-IsProper c signals w (ok r) served target h =
      after_target-IsProper c signals w r (build_target make getenv c) target h

  -- For a configuration that `Config.Validate` accepts, `Run` fails only by what the environment
  -- causes: a secret that is not set, a constructor that fails, a stream that does not start, or a source
  -- that dies; and however it returns, it has closed exactly the sources that it opened, each once.
  pub run-IsProper :
      (c : Config) (signals : List Signal) (w : W)
      → validate getenv c ≡ ok tt
      → IsProper
          (opened make getenv c.sources)
          (run rt make getenv parts c signals w).progress
          (run rt make getenv parts c signals w).closed
  unfolding run
  run-IsProper c signals w h =
      let (provider, target, sources) = builders-IsServed make getenv c h in
      after_provider-IsProper c signals w (build_provider make getenv c.llm) provider target sources
