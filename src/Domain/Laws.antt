-- ===== src/Domain/Laws.antt =====
-- When the validators of internal/domain/domain.go accept, and the JSON round trip of severities.
use cloud_sre_agent.Prelude.{◌≡◌, ◌≢◌, ◌↔◌, ap, true, [], is_empty_iff, some, ok, arith}
use cloud_sre_agent.Domain.{LogEvent, validate_event, RemediationPlan, validate_plan}
use cloud_sre_agent.Domain.Levels.{Severity, valid}
use cloud_sre_agent.Domain.Levels.Laws.{parse_severity-string}
use cloud_sre_agent.Domain.Decode.{marshal_severity, unmarshal_severity}

-- A severity that `Valid` accepts is read back from its JSON form.
pub unmarshal-marshal_severity :
    (s : Severity) → valid s ≡ true → unmarshal_severity (marshal_severity s) ≡ some s
unfolding unmarshal_severity marshal_severity
unmarshal-marshal_severity s h = ap some (parse_severity-string s h)

-- An event is accepted exactly when it has an id and a message and its severity is one of the
-- constants.
pub validate_event_iff :
    (e : LogEvent)
    → (validate_event e ≡ ok tt) ↔ ((e.id ≢ []) × (e.message ≢ []) × (valid e.severity ≡ true))
unfolding validate_event
validate_event_iff e = ground (arith, is_empty_iff e.id, is_empty_iff e.message)

-- A plan is accepted exactly when it carries an incident id, a patch and a target file.
pub validate_plan_iff :
    (p : RemediationPlan)
    → (validate_plan p ≡ ok tt)
      ↔ ((p.incident_id ≢ []) × (p.code_patch ≢ []) × (p.target_file ≢ []))
unfolding validate_plan
validate_plan_iff p =
    ground
      (arith, is_empty_iff p.incident_id, is_empty_iff p.code_patch, is_empty_iff p.target_file)
