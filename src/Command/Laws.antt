-- ===== src/Command/Laws.antt =====
-- cmd/sre-agent/main.go: what holds of a run of the command from its start to its end.
use mathlib.Core.Path.{subst}
use cloud_sre_agent.Prelude.{
  ℕ, ◌≡◌, refl, sym, ◌⊎◌, inl, inr, List, [], Option, none, some, Result, ok, err, Text, codes,
  Bool-cases, is_empty, trim_space, text_eq, to_lower,
}
use cloud_sre_agent.Prelude.Runtime.{Runtime}
use cloud_sre_agent.Config.{Config}
use cloud_sre_agent.Config.Validate.{validate}
use cloud_sre_agent.Config.Laws.{validate_iff}
use cloud_sre_agent.Config.Load.{Koanf, LoadError, load}
use cloud_sre_agent.Config.Load.Laws.{load-valid}
use cloud_sre_agent.Obs.{
  TracingOptions, Options, Logger, TracerProvider, Sdk, TracingError, stdout_failed,
  cloud_trace_failed, exporter_unknown, setup, build_tracer_provider, provider_for,
  normalize_exporter, with_tracer, over_exporter, cloud_trace_provider,
}
use cloud_sre_agent.App.Build.{Adapters}
use cloud_sre_agent.App.Consume.{Signal}
use cloud_sre_agent.App.Run.{Parts, Progress, running, returned}
use cloud_sre_agent.App.Run.Laws.{opened, IsProper, run-IsProper}
use cloud_sre_agent.Command.{
  Standing, refused, started, options_of, status_of, exit_status, after_load, run_command,
}

-- A warning that is not for an unknown exporter.
abbrev pub IsKnown : Option (Text × TracingError) → Type 0
IsKnown none = Unit
IsKnown (some (e, exporter_unknown x)) = ⊥
IsKnown (some (e, _)) = Unit

-- The status says how the agent has returned.
abbrev pub Reports : Option ℕ → Progress → Type 0
Reports status running = status ≡ none
Reports status (returned none) = status ≡ some 0
Reports status (returned (some e)) = status ≡ some 1

status_of-Reports : (x : Progress) → Reports (status_of x) x
unfolding status_of
status_of-Reports running = refl
status_of-Reports (returned none) = refl
status_of-Reports (returned (some e)) = refl

module _ {O E : Type 0} (sdk : Sdk O E) where
  module _ (opts : Options O) (l : Logger O) where
    abbrev KnownWith : Result TracingError (TracerProvider E) → Type 0
    KnownWith r = IsKnown (with_tracer sdk opts l r).warning

    over_stdout-known : (r : Result Text E) → KnownWith (over_exporter sdk stdout_failed r)
    unfolding with_tracer over_exporter
    over_stdout-known (ok exp) = tt
    over_stdout-known (err e) = tt

    over_cloud-known : (r : Result Text E) → KnownWith (over_exporter sdk cloud_trace_failed r)
    unfolding with_tracer over_exporter
    over_cloud-known (ok exp) = tt
    over_cloud-known (err e) = tt

    cloud-known : (project : Text) → KnownWith (cloud_trace_provider sdk project)
    unfolding with_tracer cloud_trace_provider
    cloud-known project = elim (Bool-cases (is_empty (trim_space project))) [
      | inl blank ↦ rw blank tt
      | inr given ↦ rw given (over_cloud-known (sdk.new_cloud_trace project))
    ]

    -- Each name that `Validate` accepts is known.
    accepted-known :
        (name : Text) (topts : TracingOptions) (w : O)
        → (name ≡ [])
          ⊎ (name ≡ codes "none")
          ⊎ (name ≡ codes "stdout")
          ⊎ (name ≡ codes "cloudtrace")
        → KnownWith (provider_for sdk (normalize_exporter name) topts w)
    unfolding with_tracer provider_for normalize_exporter to_lower text_eq
    accepted-known name topts w accepted =
        let P : Text → Type 0 = λ n. KnownWith (provider_for sdk (normalize_exporter n) topts w) in
        elim accepted [
          | inl e ↦ subst P (sym e) tt
          | inr (inl e) ↦ subst P (sym e) tt
          | inr (inr (inl e)) ↦ subst P (sym e) (over_stdout-known (sdk.new_stdout w))
          | inr (inr (inr e)) ↦ subst P (sym e) (cloud-known topts.project)
        ]

  setup-IsKnown :
      (getenv : Text → Text) (c : Config) (out : O)
      → validate getenv c ≡ ok tt
      → IsKnown (setup sdk (options_of c out)).warning
  unfolding setup options_of build_tracer_provider
  setup-IsKnown getenv c out valid =
      accepted-known (options_of c out) _ c.tracing.exporter _ _
        ((validate_iff getenv c).0 valid).exporter_known

module _ (rt : Runtime) {K O E W T V S C : Type 0} (k : Koanf K) (sdk : Sdk O E)
    (make : Adapters W T V S) (getenv : Text → Text) (parts : Parts W T V S C) where
  -- What a standing says.
  abbrev pub IsSound : Text → Standing O E S → Type 0
  IsSound path (refused e) =
      (load k getenv path ≡ err e) × (exit_status {O = O} {E = E} {S = S} (refused e) ≡ some 1)
  IsSound path (started c p o) =
      (load k getenv path ≡ ok c)
      × IsKnown p.warning
      × IsProper (opened make getenv c.sources) o.progress o.closed
      × Reports (exit_status (started c p o)) o.progress

  after_load-IsSound :
      (path : Text) (out : O) (signals : List Signal) (w : W) (r : Result LoadError Config)
      → load k getenv path ≡ r
      → IsSound path (after_load rt k sdk make getenv parts out signals w r)
  unfolding after_load exit_status
  after_load-IsSound path out signals w (err e) h = (h, refl)
  after_load-IsSound path out signals w (ok c) h =
      let valid = load-valid k getenv path c h in
      (
        h,
        setup-IsKnown sdk getenv c out valid,
        run-IsProper rt make getenv parts c signals w valid,
        status_of-Reports _,
      )

-- The command, for any path and any run of the agent: either it is refused by the error of the loading,
-- with status 1 and nothing opened, or it goes on with the configuration that was loaded, sets up
-- traces without a warning of an unknown exporter, fails only by what the environment causes, has
-- closed by its return exactly the sources that it opened, and exits with 0 or, after an error, 1.
pub run_command-IsSound :
    (rt : Runtime) {K O E W T V S C : Type 0} (k : Koanf K) (sdk : Sdk O E)
    (make : Adapters W T V S) (getenv : Text → Text) (parts : Parts W T V S C) (path : Text)
    (out : O) (signals : List Signal) (w : W)
    → IsSound rt k sdk make getenv parts path
        (run_command rt k sdk make getenv parts path out signals w)
unfolding run_command
run_command-IsSound rt k sdk make getenv parts path out signals w =
    after_load-IsSound rt k sdk make getenv parts path out signals w (load k getenv path) refl
