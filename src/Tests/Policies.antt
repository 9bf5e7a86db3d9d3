-- ===== src/Tests/Policies.antt =====
-- Runs of the resilience policies.
use cloud_sre_agent.Prelude.{false}
use cloud_sre_agent.Resilience.{Config, default_config}
use cloud_sre_agent.Tests.{fraction_runtime}

abbrev defaults : Config fraction_runtime
defaults = default_config fraction_runtime

-- The defaults without the breaker.
abbrev no_breaker : Config fraction_runtime
no_breaker = record defaults {
  circuit_breaker = record defaults.circuit_breaker { enabled = false };
}
