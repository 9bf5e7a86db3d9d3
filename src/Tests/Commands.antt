-- ===== src/Tests/Commands.antt =====
-- A run of the command, from the loading of its configuration to its exit.
use cloud_sre_agent.Prelude.{ℕ, [], ◌∷◌, List, Text, codes}
use cloud_sre_agent.App.Consume.{Signal, channel_closed}
use cloud_sre_agent.Command.{Standing, run_command}
use cloud_sre_agent.Command.Laws.{IsSound, run_command-IsSound}
use cloud_sre_agent.Tests.{fraction_runtime}
use cloud_sre_agent.Tests.Loading.{store, no_env}
use cloud_sre_agent.Tests.Logging.{sdk}
use cloud_sre_agent.Tests.Wiring.{adapters, parts}

abbrev closing : List Signal
closing = channel_closed ∷ []

abbrev standing : Standing ℕ Text Text
standing =
    run_command fraction_runtime store sdk adapters no_env parts (codes "config.yaml") 1 closing 0

run_command-IsSound_example :
    IsSound fraction_runtime store sdk adapters no_env parts (codes "config.yaml") standing
run_command-IsSound_example =
    run_command-IsSound fraction_runtime store sdk adapters no_env parts (codes "config.yaml") 1
      closing 0
