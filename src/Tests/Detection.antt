-- ===== src/Tests/Detection.antt =====
-- Runs of the detector and of the domain's checks.
use cloud_sre_agent.Prelude.{
  ℕ, ◌≡◌, ◌≢◌, ◌↔◌, refl, List, [], ◌∷◌, ◌++◌, map, none, some, ok, codes, arith, length, All, keep,
  count_if, get_elem?,
}
use Prim.Native.Nat.{min}
use mathlib.Core.List.{Perm}
use cloud_sre_agent.Prelude.Decimal.{format_int}
use cloud_sre_agent.Domain.{LogEvent, Incident, Time, validate_incident}
use cloud_sre_agent.Domain.Levels.{Severity}
use cloud_sre_agent.Detect.{Config, Detector, default_config, new}
use cloud_sre_agent.Detect.Window.{evict_events, critical_count, is_critical}
use cloud_sre_agent.Detect.Samples.{samples}
use cloud_sre_agent.Detect.Observe.{evaluate, run, observe, stamp, crit_trigger, is_cooling, fire}
use cloud_sre_agent.Detect.Laws.Cooldown.{IsSpaced, run-new-IsSpaced}
use cloud_sre_agent.Detect.Laws.Trigger.{IsDue, evaluate-fires_iff}
use cloud_sre_agent.Detect.Laws.Validity.{run-new-valid}
use cloud_sre_agent.Detect.Laws.Identifiers.{run-new-id_unique}
use cloud_sre_agent.Detect.Laws.Sampling.{IsDescending, has_severity, samples_best}
use cloud_sre_agent.Tests.{fraction_runtime, fraction_runtime-IsLawful, outage}

abbrev default_settings : Config fraction_runtime
default_settings = default_config fraction_runtime

abbrev pub settings : Config fraction_runtime
settings = record {
  window = 60_000_000_000;
  min_events = 5;
  error_rate_threshold = (5, 10);
  critical_count = 3;
  cooldown = 60_000_000_000;
}

abbrev outage_run : Detector fraction_runtime × List (Incident fraction_runtime)
outage_run = run fraction_runtime outage (new fraction_runtime settings)

-- The fifth event completes the burst, and one incident comes of it.
outage_run_test :
    map (λ (i : Incident fraction_runtime). i.id) outage_run.1 ≡ codes "incident-1" ∷ []
unfolding run new observe evict_events keep stamp crit_trigger critical_count count_if is_critical
    is_cooling fire format_int
outage_run_test = refl

run-new-IsSpaced_example :
    IsSpaced fraction_runtime (new fraction_runtime settings).cfg.cooldown 0 outage_run.1
run-new-IsSpaced_example = run-new-IsSpaced fraction_runtime settings outage (omega arith)

-- The window of the outage, before the decision.
abbrev burst : Detector fraction_runtime
burst = record {
  cfg = settings;
  events = map (λ (e : Time × LogEvent). e.1) outage;
  last_fired_at = 0;
  window_now = 5_000_000_000;
  seq = 0;
}

evaluate-fires_iff_example :
    ((evaluate fraction_runtime burst).1 ≢ none) ↔ IsDue fraction_runtime burst
evaluate-fires_iff_example = evaluate-fires_iff fraction_runtime burst (omega arith) (omega arith)

run-new-valid_example : All (λ inc. validate_incident fraction_runtime inc ≡ ok tt) outage_run.1
run-new-valid_example = run-new-valid fraction_runtime fraction_runtime-IsLawful settings outage

-- The incident at place 0, found twice.
first_incident : (a : Incident fraction_runtime) × (get_elem? outage_run.1 0 ≡ some a)
unfolding run new observe evict_events keep stamp crit_trigger critical_count count_if is_critical
    is_cooling
first_incident = (_, refl)

run-new-id_unique_example : ◌≡◌ {A = ℕ} 0 0
run-new-id_unique_example =
    run-new-id_unique fraction_runtime settings outage 0 0 first_incident.0 first_incident.0
      (omega arith) first_incident.1 first_incident.1 refl

abbrev window : List LogEvent
window = map (λ (e : Time × LogEvent). e.1) outage

samples_best_example :
    (left_out : List LogEvent) × Perm (samples window ++ left_out) window
    × IsDescending (samples window ++ left_out)
    × ((s : Severity)
        → keep (has_severity s) (samples window ++ left_out) ≡ keep (has_severity s) window)
    × (length (samples window) ≡ min 5 (length window))
samples_best_example = samples_best window
