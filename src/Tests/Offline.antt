-- ===== src/Tests/Offline.antt =====
-- Runs without a model: the stub's answers, and the schemas of the requests.
use cloud_sre_agent.Prelude.{
  ℕ, ◌+◌, ◌≡◌, ◌↔◌, refl, false, [], none, some, Option, ok, Text, codes, text_eq, text_leb,
  if◌then◌else◌,
}
use cloud_sre_agent.Prelude.Json.{Json, null, string, array, object, nil, cons, Fields, end, field}
use cloud_sre_agent.Domain.{validate_incident}
use cloud_sre_agent.Llm.Stub.{triage_json, analysis_json, remediation_json, generate}
use cloud_sre_agent.Llm.Schema.{recurse_schema, require_all_properties}
use cloud_sre_agent.Llm.Schema.Laws.{
  IsComplete, AreStrict, IsStrict, require_all_properties-IsComplete,
}
use cloud_sre_agent.Llm.Schema.Fixed.{recurse_schema-IsStrict_iff}
use cloud_sre_agent.Detect.Services.{sort_texts}
use cloud_sre_agent.Pipeline.{
  Pipeline, State, Stage, triage_stage, analysis_stage, remediation_stage, noop_validate,
}
use cloud_sre_agent.Pipeline.Process.{process}
use cloud_sre_agent.Pipeline.Laws.StubAnswers.{answer_json, answer_value}
use cloud_sre_agent.Pipeline.Laws.Offline.{
  IsOffline, served_plan, EndsInDelivery, process_stub-EndsInDelivery,
}
use cloud_sre_agent.Tests.{fraction_runtime, outage_incident}

-- A reader that knows the canned answers.
unfoldable read : Text → Option Json
read s =
    if text_eq s triage_json
    then some (answer_value triage_stage)
    else if text_eq s analysis_json
    then some (answer_value analysis_stage)
    else if text_eq s remediation_json
    then some (answer_value remediation_stage)
    else none

abbrev live : ℕ → Option Text
live w = none

abbrev local_pipe : Pipeline ℕ
local_pipe = record {
  ports = record {
    generate = generate live;
    sanitize = λ s. s;
    validate = noop_validate;
    deliver = λ change w. (ok (record { id = change.file_path; url = [] }), w + 1);
    schema_for = λ stage. ok null;
    parse_json = read;
  };
  lang = codes "go";
}

reads : (stage : Stage) → read (answer_json stage) ≡ some (answer_value stage)
unfolding read text_eq
reads triage_stage = refl
reads analysis_stage = refl
reads remediation_stage = refl

local_pipe-IsOffline : IsOffline fraction_runtime live local_pipe
unfolding noop_validate
local_pipe-IsOffline = record {
  is_stub = refl;
  is_live = λ w. refl;
  reads = reads;
  reads_one = ((0, 1), refl);
  has_schema = λ stage. (null, refl);
  accepts = λ patch lang w. ([], refl);
  delivers = λ c w. (record { id = c.file_path; url = [] }, refl);
}

incident_valid : validate_incident fraction_runtime outage_incident ≡ ok tt
unfolding validate_incident
incident_valid = refl

abbrev idle : State ℕ
idle = record { world = 0; calls = [] }

process_stub-EndsInDelivery_example :
    ((process fraction_runtime local_pipe outage_incident idle).0.error ≡ none)
    × ((process fraction_runtime local_pipe outage_incident idle).0.remediation
        ≡ served_plan outage_incident.id)
    × EndsInDelivery
        (served_plan outage_incident.id)
        (process fraction_runtime local_pipe outage_incident idle).1
process_stub-EndsInDelivery_example =
    process_stub-EndsInDelivery fraction_runtime live local_pipe outage_incident idle
      local_pipe-IsOffline incident_valid

-- An object with an array of objects, of which the reflector requires some members.

abbrev step_schema : Json
step_schema = object (
    field (codes "properties") (object (field (codes "url") null (field (codes "cost") null end)))
      end)

abbrev plan_schema : Fields
plan_schema = field (codes "required") (array (cons (string (codes "title")) nil)) (
    field (codes "properties")
      (object (
        field (codes "title") null
          (field (codes "steps") (object (field (codes "items") step_schema end)) end)))
      end)

abbrev strict_step : Json
strict_step = object (
    field (codes "properties") (object (field (codes "url") null (field (codes "cost") null end))) (
      field (codes "required")
        (array (cons (string (codes "cost")) (cons (string (codes "url")) nil))) end))

plan_schema-test :
    require_all_properties plan_schema
    ≡ field
        (codes "required")
        (array (cons (string (codes "steps")) (cons (string (codes "title")) nil)))
        (field
          (codes "properties")
          (object (
            field
              (codes "title")
              null
              (field (codes "steps") (object (field (codes "items") strict_step end)) end)))
          end)
unfolding require_all_properties sort_texts text_eq text_leb
plan_schema-test = refl

require_all_properties-IsComplete_example :
    IsComplete (require_all_properties plan_schema)
    × AreStrict false (require_all_properties plan_schema)
require_all_properties-IsComplete_example = require_all_properties-IsComplete plan_schema

recurse_schema-IsStrict_iff_example :
    (recurse_schema strict_step ≡ strict_step) ↔ IsStrict strict_step
recurse_schema-IsStrict_iff_example = recurse_schema-IsStrict_iff strict_step
