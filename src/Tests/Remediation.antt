-- ===== src/Tests/Remediation.antt =====
-- Runs of the pipeline, with a provider that answers its three requests in turn, a validator that
-- accepts, and a target that names its delivery. The outside world is the number of answers given.
use cloud_sre_agent.Prelude.{
  ℕ, zero, suc, ◌+◌, ◌≡◌, refl, true, List, [], ◌∷◌, ◌++◌, map, take, Option, none, some, ok, Text,
  codes, text_eq, to_lower,
}
use cloud_sre_agent.Prelude.Json.{
  Json, null, boolean, string, object, field, end, store_struct, store_fields, names_field,
  store_string, store_bool,
}
use cloud_sre_agent.Domain.{LogEvent, validate_incident, validate_plan}
use cloud_sre_agent.Domain.Decode.{decode_triage, decode_analysis, decode_plan}
use cloud_sre_agent.Domain.Levels.{severity_error, severity_critical}
use cloud_sre_agent.Llm.{with_schema, decode}
use cloud_sre_agent.Pipeline.{Ports, Pipeline, State, call_generate, call_validate, call_deliver}
use cloud_sre_agent.Pipeline.Prompt.{severity_from_score}
use cloud_sre_agent.Pipeline.Stages.{
  triage, analyze, remediate, complete_plan, ask, ask_with, stage_request, answer_of,
}
use cloud_sre_agent.Pipeline.Process.{
  Outcome, change_of, deliver_plan, gate_plan, after_remediate, after_analyze, after_triage,
  process,
}
use cloud_sre_agent.Pipeline.Laws.Order.{kind, calls_made, full_journey, process-calls}
use cloud_sre_agent.Pipeline.Laws.Privacy.{process-sample_events}
use cloud_sre_agent.Pipeline.Laws.Delivery.{IsRemediated, process-IsRemediated}
use cloud_sre_agent.Tests.{fraction_runtime, event, outage_incident}

abbrev text_field : Text → Text → Json → Json
text_field k v (object fs) = object (field k (string v) fs)
text_field k v j = j

abbrev answers : Text → Option Json
answers (suc zero ∷ s) = some (
    text_field (codes "category") (codes "database")
      (object (field (codes "actionable") (boolean true) end)))
answers (suc (suc zero) ∷ s) =
    some (text_field (codes "root_cause") (codes "pool exhausted") (object end))
answers (suc (suc (suc zero)) ∷ s) = some (
    text_field (codes "code_patch") (codes "package db")
      (text_field (codes "target_file") (codes "db/pool.go") (object end)))
answers _ = none

abbrev ports : Ports ℕ
ports = record {
  generate = λ req w. (
    ok (record { text = (w + 1) ∷ []; model = codes "test"; finish_reason = codes "stop" }),
    w + 1,
  );
  sanitize = λ s. codes "[clean] " ++ s;
  validate = λ patch lang w. (ok (record { ok = true; diagnostics = [] }), w);
  deliver = λ change w. (ok (record { id = codes "7"; url = change.file_path }), w);
  schema_for = λ stage. ok null;
  parse_json = answers;
}

abbrev pub pipe : Pipeline ℕ
pipe = record { ports = ports; lang = codes "go" }

abbrev pub start : State ℕ
start = record { world = 0; calls = [] }

abbrev outcome : Outcome fraction_runtime × State ℕ
outcome = process fraction_runtime pipe outage_incident start

outcome_ok : outcome.0.error ≡ none
unfolding process validate_incident triage analyze remediate complete_plan ask ask_with
    stage_request with_schema answer_of decode call_generate call_validate call_deliver
    decode_triage decode_analysis decode_plan store_struct store_fields names_field text_eq to_lower
    store_string store_bool validate_plan severity_from_score after_triage after_analyze
    after_remediate gate_plan deliver_plan change_of
outcome_ok = refl

outcome_ref_test : outcome.0.ref.id ≡ codes "7"
unfolding process validate_incident triage analyze remediate complete_plan ask ask_with
    stage_request with_schema answer_of decode call_generate call_validate call_deliver
    decode_triage decode_analysis decode_plan store_struct store_fields names_field text_eq to_lower
    store_string store_bool validate_plan severity_from_score after_triage after_analyze
    after_remediate gate_plan deliver_plan change_of
outcome_ref_test = refl

-- The sample events again, with other contents.
abbrev other_events : List LogEvent
other_events =
    event (codes "x") 3_000_000_000 severity_critical (codes "secret")
    ∷ event (codes "y") 2_000_000_000 severity_error (codes "hidden")
    ∷ []

process-sample_events_example :
    process fraction_runtime pipe (record outage_incident { sample_events = other_events }) start
    ≡ process fraction_runtime pipe outage_incident start
process-sample_events_example =
    process-sample_events fraction_runtime outage_incident other_events refl pipe start

process-calls_example : map kind outcome.1.calls ≡ take (calls_made outcome.0.error) full_journey
process-calls_example = process-calls fraction_runtime pipe outage_incident start refl

process-IsRemediated_example :
    IsRemediated fraction_runtime pipe outage_incident outcome.0 outcome.1
process-IsRemediated_example =
    process-IsRemediated fraction_runtime pipe outage_incident start outcome_ok
