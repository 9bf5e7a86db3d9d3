-- ===== src/Domain.antt =====
-- internal/domain/domain.go: the types that the components share. Labels are an association list
-- for the source's map; `Time` counts nanoseconds from the zero `time.Time`.
pub mod Levels
pub mod Decode
pub mod Laws
use cloud_sre_agent.Prelude.{
  ℕ, ◌==◌, Bool, not, ◌||◌, List, Result, ok, ◌>>=◌, ◌>>◌, reject_if, Text, is_empty,
}
use cloud_sre_agent.Prelude.Runtime.{Runtime}
use cloud_sre_agent.Domain.Levels.{Severity, valid, severity_unknown}

abbrev pub Time : Type 0
Time = ℕ

-- `Time.IsZero`
abbrev pub is_zero : Time → Bool
is_zero t = t == 0

abbrev pub Labels : Type 0
Labels = List (Text × Text)

pub record LogEvent : Type 0 where
  pub id : Text
  pub timestamp : Time
  pub severity : Severity
  pub message : Text
  pub source : Text
  pub labels : Labels

-- The errors of the three `Validate` methods, with what their texts name.
pub data DomainError : Type 0 where
  event_id_required : DomainError
  event_message_required : Text → DomainError
  event_severity_invalid : Text → Severity → DomainError
  incident_id_required : DomainError
  incident_pattern_required : Text → DomainError
  incident_score_out_of_range : Text → DomainError
  plan_incident_id_required : DomainError
  plan_code_patch_required : Text → DomainError
  plan_target_file_required : Text → DomainError

-- `LogEvent.Validate`
unfoldable pub validate_event : LogEvent → Result DomainError (Unit {0})
validate_event e = do
  reject_if (is_empty e.id) event_id_required
  reject_if (is_empty e.message) (event_message_required e.id)
  reject_if (not (valid e.severity)) (event_severity_invalid e.id e.severity)
  ok tt

-- `NewLogEvent`
unfoldable pub new_log_event :
    Text → Text → Text → Severity → Time → Labels → Result DomainError LogEvent
unfolding validate_event
new_log_event id source message sev ts labels =
    let e : LogEvent = record {
      id = id;
      timestamp = ts;
      severity = sev;
      message = message;
      source = source;
      labels = labels;
    } in
    validate_event e >>= λ _. ok e

module _ (rt : Runtime) where
  pub record Incident : Type 0 where
    pub id : Text
    pub pattern : Text
    pub severity_score : rt.Float
    pub affected_services : List Text
    pub sample_events : List LogEvent
    pub summary : Text
    pub detected_at : Time

  -- `Incident.Validate`
  unfoldable pub validate_incident : Incident → Result DomainError (Unit {0})
  validate_incident i = do
    reject_if (is_empty i.id) incident_id_required
    reject_if (is_empty i.pattern) (incident_pattern_required i.id)
    reject_if
        (rt.float_ltb i.severity_score (rt.of_int 0) || rt.float_ltb (rt.of_int 1) i.severity_score)
        (incident_score_out_of_range i.id)
    ok tt

  pub record TriageResult : Type 0 where
    pub incident_id : Text
    pub category : Text
    pub severity : Severity
    pub confidence : rt.Float
    pub actionable : Bool
    pub reasoning : Text
    pub next_actions : List Text

  pub record Analysis : Type 0 where
    pub incident_id : Text
    pub root_cause : Text
    pub proposed_fix : Text
    pub key_points : List Text
    pub confidence : rt.Float

pub record RemediationPlan : Type 0 where
  pub incident_id : Text
  pub root_cause_analysis : Text
  pub proposed_fix : Text
  pub code_patch : Text
  pub priority : Severity
  pub estimated_effort : Text
  pub target_file : Text

-- `RemediationPlan.Validate`
unfoldable pub validate_plan : RemediationPlan → Result DomainError (Unit {0})
validate_plan p = do
  reject_if (is_empty p.incident_id) plan_incident_id_required
  reject_if (is_empty p.code_patch) (plan_code_patch_required p.incident_id)
  reject_if (is_empty p.target_file) (plan_target_file_required p.incident_id)
  ok tt
