-- ===== src/Pipeline/Laws/StubAnswers.antt =====
-- internal/llm/stub/stub.go: the canned answers as a reader of JSON and the structs' tags read them.
use cloud_sre_agent.Prelude.{◌≡◌, refl, true, [], ◌∷◌, some, Text, codes, text_eq, one_of, to_lower}
use cloud_sre_agent.Prelude.Json.{
  Json, boolean, number, string, array, object, nil, cons, end, field, store_struct, store_fields,
  names_field, store_string, store_strings, store_bool,
}
use cloud_sre_agent.Prelude.Runtime.{Runtime}
use cloud_sre_agent.Domain.{TriageResult, Analysis, RemediationPlan}
use cloud_sre_agent.Domain.Levels.{severity_info, parse_severity}
use cloud_sre_agent.Domain.Decode.{
  decode_triage, decode_analysis, decode_plan, unmarshal_severity, store_float,
}
use cloud_sre_agent.Llm.Stub.{triage_json, analysis_json, remediation_json}
use cloud_sre_agent.Pipeline.{Stage, triage_stage, analysis_stage, remediation_stage}

-- What a reader of JSON makes of the canned answers.
abbrev pub answer_json : Stage → Text
answer_json triage_stage = triage_json
answer_json analysis_stage = analysis_json
answer_json remediation_stage = remediation_json

abbrev pub answer_value : Stage → Json
answer_value triage_stage = object (
    field (codes "category") (string (codes "stub")) (
      field (codes "severity") (string (codes "info")) (
        field (codes "confidence") (number (codes "1")) (
          field (codes "actionable") (boolean true) (
            field (codes "reasoning") (string (codes "stub provider: deterministic offline triage"))
              (field (codes "next_actions") (array (cons (string (codes "review stub output")) nil))
                end))))))
answer_value analysis_stage = object (
    field (codes "root_cause") (string (codes "stub provider: deterministic offline root cause")) (
      field (codes "proposed_fix") (string (codes "stub provider: no real fix")) (
        field (codes "key_points") (array (cons (string (codes "offline stub")) nil))
          (field (codes "confidence") (number (codes "1")) end))))
answer_value remediation_stage = object (
    field (codes "root_cause_analysis")
      (string (codes "stub provider: deterministic offline analysis"))
      (field (codes "proposed_fix") (string (codes "stub provider: no real fix")) (
        field (codes "code_patch")
          (string (codes "// stub patch: no-op (non-production offline provider)\n"))
          (field (codes "priority") (string (codes "info")) (
            field (codes "estimated_effort") (string (codes "none"))
              (field (codes "target_file") (string (codes "stub.txt")) end))))))

-- The artifacts of the canned answers.
abbrev pub stub_plan : RemediationPlan
stub_plan = record {
  incident_id = [];
  root_cause_analysis = codes "stub provider: deterministic offline analysis";
  proposed_fix = codes "stub provider: no real fix";
  code_patch = codes "// stub patch: no-op (non-production offline provider)\n";
  priority = severity_info;
  estimated_effort = codes "none";
  target_file = codes "stub.txt";
}

module _ (rt : Runtime) where
  abbrev pub stub_triage : rt.Float → TriageResult rt
  stub_triage one = record {
    incident_id = [];
    category = codes "stub";
    severity = severity_info;
    confidence = one;
    actionable = true;
    reasoning = codes "stub provider: deterministic offline triage";
    next_actions = codes "review stub output" ∷ [];
  }

  abbrev pub stub_analysis : rt.Float → Analysis rt
  stub_analysis one = record {
    incident_id = [];
    root_cause = codes "stub provider: deterministic offline root cause";
    proposed_fix = codes "stub provider: no real fix";
    key_points = codes "offline stub" ∷ [];
    confidence = one;
  }

  pub triage_decoded :
      (one : rt.Float)
      → rt.parse_float (codes "1") ≡ some one
      → decode_triage rt (answer_value triage_stage) ≡ some (stub_triage one)
  unfolding decode_triage store_struct store_fields names_field text_eq to_lower store_string
      store_bool store_strings unmarshal_severity parse_severity one_of store_float
  triage_decoded one reads = rw reads refl

  pub analysis_decoded :
      (one : rt.Float)
      → rt.parse_float (codes "1") ≡ some one
      → decode_analysis rt (answer_value analysis_stage) ≡ some (stub_analysis one)
  unfolding decode_analysis store_struct store_fields names_field text_eq to_lower store_string
      store_bool store_strings store_float
  analysis_decoded one reads = rw reads refl

pub plan_decoded : decode_plan (answer_value remediation_stage) ≡ some stub_plan
unfolding decode_plan store_struct store_fields names_field text_eq to_lower store_string
    unmarshal_severity parse_severity one_of
plan_decoded = refl
