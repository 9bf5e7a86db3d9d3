-- ===== src/Domain/Decode.antt =====
-- internal/domain/domain.go: the JSON forms of the artifacts that a model returns, by their struct
-- tags. `incident_id` is tagged "-", so no key of the model's answer reaches it.
use mathlib.Core.Option
use cloud_sre_agent.Prelude.{false, [], Option, none, some, Text, codes, if◌then◌else◌}
use cloud_sre_agent.Prelude.Decimal.{parse_int}
use cloud_sre_agent.Prelude.Json.{
  Json, null, number, string, names_field, store_string, store_bool, store_strings, store_struct,
}
use cloud_sre_agent.Prelude.Runtime.{Runtime}
use cloud_sre_agent.Domain.{TriageResult, Analysis, RemediationPlan}
use cloud_sre_agent.Domain.Levels.{
  Severity, severity_unknown, parse_severity, string as severity_string,
}

-- `Severity.MarshalJSON`
unfoldable pub marshal_severity : Severity → Json
marshal_severity s = string (severity_string s)

-- `Severity.UnmarshalJSON`: a label, or else a bare integer. `null` stores nothing into the label
-- and leaves it empty.
unfoldable pub unmarshal_severity : Json → Option Severity
unmarshal_severity null = some (parse_severity [])
unmarshal_severity (string label) = some (parse_severity label)
unmarshal_severity (number literal) = parse_int literal
unmarshal_severity _ = none

store_severity : Json → Severity → Option Severity
unfolding unmarshal_severity
store_severity j s = unmarshal_severity j

module _ (rt : Runtime) where
  -- A float64 field.
  unfoldable pub store_float : Json → rt.Float → Option rt.Float
  store_float null x = some x
  store_float (number literal) x = rt.parse_float literal
  store_float _ x = none

  store_triage : Text → Json → TriageResult rt → Option (TriageResult rt)
  store_triage k v t =
      if names_field k (codes "category")
      then Option.map (λ x. record t { category = x }) (store_string v t.category)
      else if names_field k (codes "severity")
      then Option.map (λ x. record t { severity = x }) (store_severity v t.severity)
      else if names_field k (codes "confidence")
      then Option.map (λ x. record t { confidence = x }) (store_float v t.confidence)
      else if names_field k (codes "actionable")
      then Option.map (λ x. record t { actionable = x }) (store_bool v t.actionable)
      else if names_field k (codes "reasoning")
      then Option.map (λ x. record t { reasoning = x }) (store_string v t.reasoning)
      else if names_field k (codes "next_actions")
      then Option.map (λ x. record t { next_actions = x }) (store_strings v t.next_actions)
      else some t

  -- `json.Unmarshal` into a zero `TriageResult`
  unfoldable pub decode_triage : Json → Option (TriageResult rt)
  unfolding store_triage store_severity
  decode_triage = store_struct store_triage (record {
    incident_id = [];
    category = [];
    severity = severity_unknown;
    confidence = rt.of_int 0;
    actionable = false;
    reasoning = [];
    next_actions = [];
  })

  store_analysis : Text → Json → Analysis rt → Option (Analysis rt)
  store_analysis k v a =
      if names_field k (codes "root_cause")
      then Option.map (λ x. record a { root_cause = x }) (store_string v a.root_cause)
      else if names_field k (codes "proposed_fix")
      then Option.map (λ x. record a { proposed_fix = x }) (store_string v a.proposed_fix)
      else if names_field k (codes "key_points")
      then Option.map (λ x. record a { key_points = x }) (store_strings v a.key_points)
      else if names_field k (codes "confidence")
      then Option.map (λ x. record a { confidence = x }) (store_float v a.confidence)
      else some a

  -- `json.Unmarshal` into a zero `Analysis`
  unfoldable pub decode_analysis : Json → Option (Analysis rt)
  unfolding store_analysis
  decode_analysis = store_struct store_analysis (record {
    incident_id = [];
    root_cause = [];
    proposed_fix = [];
    key_points = [];
    confidence = rt.of_int 0;
  })

store_plan : Text → Json → RemediationPlan → Option RemediationPlan
store_plan k v p =
    if names_field k (codes "root_cause_analysis")
    then Option.map (λ x. record p { root_cause_analysis = x })
        (store_string v p.root_cause_analysis)
    else if names_field k (codes "proposed_fix")
    then Option.map (λ x. record p { proposed_fix = x }) (store_string v p.proposed_fix)
    else if names_field k (codes "code_patch")
    then Option.map (λ x. record p { code_patch = x }) (store_string v p.code_patch)
    else if names_field k (codes "priority")
    then Option.map (λ x. record p { priority = x }) (store_severity v p.priority)
    else if names_field k (codes "estimated_effort")
    then Option.map (λ x. record p { estimated_effort = x }) (store_string v p.estimated_effort)
    else if names_field k (codes "target_file")
    then Option.map (λ x. record p { target_file = x }) (store_string v p.target_file)
    else some p

-- `json.Unmarshal` into a zero `RemediationPlan`
unfoldable pub decode_plan : Json → Option RemediationPlan
unfolding store_plan store_severity
decode_plan = store_struct store_plan (record {
  incident_id = [];
  root_cause_analysis = [];
  proposed_fix = [];
  code_patch = [];
  priority = severity_unknown;
  estimated_effort = [];
  target_file = [];
})
