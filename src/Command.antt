-- ===== src/Command.antt =====
-- cmd/sre-agent/main.go: the command `run`. Cobra's parsing of the arguments is left out: the path is
-- the value of the flag. The parts of the agent are the parameters of `Run`, and those of `Load` and
-- `Setup` are theirs.
pub mod Laws
use cloud_sre_agent.Prelude.{ℕ, List, [], Option, none, some, Result, ok, err, Text, codes}
use cloud_sre_agent.Prelude.Runtime.{Runtime}
use cloud_sre_agent.Config.{Config}
use cloud_sre_agent.Config.Load.{Koanf, LoadError, load}
use cloud_sre_agent.Obs.{Options, Sdk, Providers, setup}
use cloud_sre_agent.App.Build.{Adapters}
use cloud_sre_agent.App.Consume.{Signal}
use cloud_sre_agent.App.Run.{Parts, Progress, running, returned, Outcome, run}

-- The default of the flag `--config`.
abbrev pub default_path : Text
default_path = codes "config.yaml"

unfoldable pub options_of : {O : Type 0} → Config → O → Options O
options_of c out = record {
  level = c.log_level;
  format = c.log_format;
  writer = some out;
  tracing = record { exporter = c.tracing.exporter; project = c.tracing.project };
}

-- Where the command stands: the configuration is refused, or the agent runs or has returned, with
-- what was set up for it.
pub data Standing (O E S : Type 0) : Type 0 where
  refused : LoadError → Standing O E S
  started : Config → Providers O E → Outcome S → Standing O E S

-- The status that `main` exits with, once the command has returned.
unfoldable pub status_of : Progress → Option ℕ
status_of running = none
status_of (returned none) = some 0
status_of (returned (some e)) = some 1

unfoldable pub exit_status : {O E S : Type 0} → Standing O E S → Option ℕ
unfolding status_of
exit_status (refused e) = some 1
exit_status (started c p o) = status_of o.progress

module _ (rt : Runtime) {K O E W T V S C : Type 0} (k : Koanf K) (sdk : Sdk O E)
    (make : Adapters W T V S) (getenv : Text → Text) (parts : Parts W T V S C) where
  unfoldable pub after_load : O → List Signal → W → Result LoadError Config → Standing O E S
  unfolding options_of
  after_load out signals w (err e) = refused e
  after_load out signals w (ok c) =
      started c (setup sdk (options_of c out)) (run rt make getenv parts c signals w)

  -- `run`, with the loading before it.
  unfoldable pub run_command : Text → O → List Signal → W → Standing O E S
  unfolding after_load
  run_command path out signals w = after_load out signals w (load k getenv path)
