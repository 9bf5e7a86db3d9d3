-- ===== src/App/Run.antt =====
-- internal/app/app.go: `Run`, for a configuration that is already checked. Its arguments are the
-- behaviour of the parts that the builders return: the delivery of a target, the verdict of a
-- validator, the stream of a source, and what a source's `Err()` says when the merged channel is
-- closed; and the signals that the loop of `consume` receives. Logging is left out.
pub mod Laws
use cloud_sre_agent.Prelude.{
  Bool, true, false, List, [], ◌∷◌, ◌++◌, map, Option, none, some, Result, ok, err, Text,
}
use cloud_sre_agent.Prelude.Json.{Json}
use cloud_sre_agent.Prelude.Runtime.{Runtime}
use cloud_sre_agent.Config.{Config}
use cloud_sre_agent.Detect
use cloud_sre_agent.Llm.{Request, Response}
use cloud_sre_agent.Llm.Router
use cloud_sre_agent.Llm.Router.{Router, RouterError}
use cloud_sre_agent.Scm.{Change, Ref}
use cloud_sre_agent.Pipeline.{Stage, Pipeline, PipelineError}
use cloud_sre_agent.Pipeline.Construct
use cloud_sre_agent.Pipeline.Construct.{Validator, set_validator}
use cloud_sre_agent.App.Build.{
  Adapters, BuildError, build_provider, build_target, build_validator, build_sources,
}
use cloud_sre_agent.App.Consume.{
  Agent, Signal, Source, End, waiting, stopped, drained, failed, MergeError, start_streams, consume,
}

pub data RunError : Type 0 where
  provider_failed target_failed sources_failed : BuildError → RunError
  pipeline_failed : Construct.NewError → RunError
  merge_failed : MergeError → RunError
  source_failed : Text → RunError

-- What the parts do, over a state `W` of the outside world.
pub record Parts (W T V S C : Type 0) : Type 0 where
  pub ctx_err : W → Option Text
  pub router_text : RouterError → Text
  pub deliver : T → Change → W → Result Text Ref × W
  pub verdict : V → Validator W
  pub sanitize : Text → Text
  pub schema_for : Stage → Result Text Json
  pub parse_json : Text → Option Json
  pub error_text : PipelineError → Text
  pub source_name : S → Text
  pub stream : S → W → Result Text C × W
  pub report : S → Source

pub data Progress : Type 0 where
  running : Progress
  returned : Option RunError → Progress

-- How far `Run` has come, and the sources that it has closed, in order.
pub record Outcome (S : Type 0) : Type 0 where
  pub progress : Progress
  pub closed : List S

-- How `consume` ends is how `Run` ends, after the deferred closing of the sources.
unfoldable pub after_consume : {S : Type 0} → List S → End → Outcome S
after_consume sources waiting = record { progress = running; closed = [] }
after_consume sources (failed e) = record {
  progress = returned (some (source_failed e));
  closed = sources;
}
after_consume sources stopped = record { progress = returned none; closed = sources }
after_consume sources drained = record { progress = returned none; closed = sources }

-- `detect.Config{}`
abbrev pub zero_config : (rt : Runtime) → Detect.Config rt
zero_config rt = record {
  window = 0;
  min_events = 0;
  error_rate_threshold = rt.of_int 0;
  critical_count = 0;
  cooldown = 0;
}

unfoldable pub give_up : {S : Type 0} → RunError → List S → Outcome S
give_up e closed = record { progress = returned (some e); closed = closed }

module _ (rt : Runtime) {W T V S C : Type 0} (make : Adapters W T V S) (getenv : Text → Text)
    (parts : Parts W T V S C) where
  -- `pipeline.New(provider, sanitizer, target, WithValidator(validator))`
  unfoldable pub build_pipeline : Router W → T → V → Result Construct.NewError (Pipeline W)
  build_pipeline r t v =
      Construct.new
        (some (λ req w.
          let (result, w') = Router.generate parts.ctx_err r req w in
          (elim result [ ok resp ↦ ok resp | err e ↦ err (parts.router_text e) ], w')))
        (some parts.sanitize) (some (parts.deliver t)) (set_validator (some (parts.verdict v)) ∷ [])
        parts.schema_for parts.parse_json

  -- `consume`, with the streams that `merge` started or failed to start.
  unfoldable pub after_merge :
      Pipeline W → List S → List Signal → Result MergeError (List C) × W → Outcome S
  unfolding after_consume give_up
  after_merge p sources signals (err e, w) = give_up (merge_failed e) sources
  after_merge p sources signals (ok chans, w) =
      after_consume sources
        (consume rt p parts.sanitize parts.error_text (map parts.report sources) signals (record {
          detector = Detect.new rt (zero_config rt);
          pipeline = record { world = w; calls = [] };
          log = [];
        })).0

  unfoldable pub after_sources :
      Pipeline W → List Signal → W → Result (BuildError × List S) (List S) → Outcome S
  unfolding after_merge give_up
  after_sources p signals w (err (e, closed)) = give_up (sources_failed e) closed
  after_sources p signals w (ok sources) =
      after_merge p sources signals (start_streams parts.source_name parts.stream sources [] w)

  unfoldable pub after_pipeline :
      Config → List Signal → W → Result Construct.NewError (Pipeline W) → Outcome S
  unfolding after_sources give_up
  after_pipeline c signals w (err e) = give_up (pipeline_failed e) []
  after_pipeline c signals w (ok p) =
      after_sources p signals w (build_sources make getenv 0 [] c.sources)

  unfoldable pub after_target :
      Config → List Signal → W → Router W → Result BuildError T → Outcome S
  unfolding after_pipeline build_pipeline give_up
  after_target c signals w r (err e) = give_up (target_failed e) []
  after_target c signals w r (ok t) =
      after_pipeline c signals w (build_pipeline r t (build_validator make getenv c))

  unfoldable pub after_provider :
      Config → List Signal → W → Result BuildError (Router W) → Outcome S
  unfolding after_target give_up
  after_provider c signals w (err e) = give_up (provider_failed e) []
  after_provider c signals w (ok r) = after_target c signals w r (build_target make getenv c)

  -- `Run`
  unfoldable pub run : Config → List Signal → W → Outcome S
  unfolding after_provider
  run c signals w = after_provider c signals w (build_provider make getenv c.llm)
