-- ===== src/Tests.antt =====
-- Runs at concrete inputs, and what they share: a runtime whose floats are fractions of two
-- numbers, events, and the incident of a small outage.
pub mod Detection
pub mod Remediation
pub mod Wiring
pub mod Delivery
pub mod Policies
pub mod MergeRequests
pub mod Files
pub mod Sources
pub mod Agent
pub mod Patches
pub mod Redaction
pub mod Offline
pub mod Loading
pub mod Logging
pub mod Commands
pub mod Adapters
use cloud_sre_agent.Prelude.{
  ℕ, ◌+◌, ◌*◌, ◌^◌, ◌≤◌, ◌<◌, ◌≡◌, refl, Bool, true, false, List, [], ◌∷◌, ◌++◌, none, some, Text,
  codes, ltb, leb, arith,
}
use cloud_sre_agent.Prelude.Decimal.{format_int}
use cloud_sre_agent.Prelude.Runtime.{Runtime, IsLawful}
use cloud_sre_agent.Domain.{LogEvent, Incident, Time}
use cloud_sre_agent.Domain.Levels.{Severity, severity_info, severity_error, severity_critical}

-- A number is a pair of a numerator and a denominator.
abbrev pub fraction_runtime : Runtime
fraction_runtime = record {
  Float = ℕ × ℕ;
  of_int = λ n. (n, 1);
  decimal = λ n k. (n, 10 ^ k);
  divide = λ x y. (x.0 * y.1, x.1 * y.0);
  multiply = λ x y. (x.0 * y.0, x.1 * y.1);
  float_ltb = λ x y. ltb (x.0 * y.1) (y.0 * x.1);
  float_leb = λ x y. leb (x.0 * y.1) (y.0 * x.1);
  format_float = λ k x. format_int x.0;
  format_duration = λ d. format_int d;
  parse_float = λ s. some (0, 1);
  quote = λ s. s;
}

pub fraction_runtime-IsLawful : IsLawful fraction_runtime
fraction_runtime-IsLawful = record {
  leb-not-ltb = λ x y h. ground (arith, h);
  ratio_nonneg = λ a b h. ground arith;
  leb-of_int = λ a b h. ground arith;
  not-leb-two_one = ground arith;
}

abbrev pub event : Text → Time → Severity → Text → LogEvent
event id at sev source = record {
  id = id;
  timestamp = at;
  severity = sev;
  message = codes "request failed";
  source = source;
  labels = [];
}

-- Three critical events of two services within three seconds, after an informational one.
abbrev pub outage : List (Time × LogEvent)
outage =
    (9, event (codes "a") 1_000_000_000 severity_info (codes "api"))
    ∷ (9, event (codes "b") 2_000_000_000 severity_error (codes "api"))
    ∷ (9, event (codes "c") 3_000_000_000 severity_critical (codes "db"))
    ∷ (9, event (codes "d") 4_000_000_000 severity_critical (codes "api"))
    ∷ (9, event (codes "e") 5_000_000_000 severity_critical (codes "db"))
    ∷ []

abbrev pub outage_incident : Incident fraction_runtime
outage_incident = record {
  id = codes "incident-1";
  pattern = codes "critical-event-burst";
  severity_score = (9, 10);
  affected_services = codes "api" ∷ codes "db" ∷ [];
  sample_events =
      event (codes "c") 3_000_000_000 severity_critical (codes "db")
      ∷ event (codes "b") 2_000_000_000 severity_error (codes "api")
      ∷ [];
  summary = codes "4 errors of 5 events";
  detected_at = 5_000_000_000;
}
