-- ===== src/Pipeline/Laws/Offline.antt =====
-- internal/pipeline/pipeline.go with the provider of internal/llm/stub/stub.go: a run without any
-- model.
use cloud_sre_agent.Prelude.{
  ◌≡◌, refl, true, false, List, [], ◌∷◌, ◌++◌, Option, none, some, ok, Text, codes, is_empty, arith,
}
use cloud_sre_agent.Prelude.Json.{Json}
use cloud_sre_agent.Prelude.Runtime.{Runtime}
use cloud_sre_agent.Domain.{
  Incident, TriageResult, Analysis, RemediationPlan, validate_incident, validate_plan,
}
use cloud_sre_agent.Domain.Decode.{decode_triage, decode_analysis, decode_plan}
use cloud_sre_agent.Llm.{Response, decode, with_schema}
use cloud_sre_agent.Llm.Stub.{response_for, generate}
use cloud_sre_agent.Scm.{Change, Ref}
use cloud_sre_agent.Pipeline.{
  Stage, triage_stage, analysis_stage, remediation_stage, Pipeline, State, Call, delivered,
  call_generate, call_validate, call_deliver,
}
use cloud_sre_agent.Pipeline.Prompt.{
  triage_system_prompt, analysis_system_prompt, remediation_system_prompt, incident_prompt,
  analysis_prompt, remediation_prompt,
}
use cloud_sre_agent.Pipeline.Stages.{
  schema_name, stage_request, answer_of, ask_with, ask, complete_plan, triage, analyze, remediate,
}
use cloud_sre_agent.Pipeline.Process.{
  change_of, deliver_plan, gate_plan, after_remediate, after_analyze, after_triage, process,
}
use cloud_sre_agent.Pipeline.Laws.Delivery.{of_plan}
use cloud_sre_agent.Pipeline.Laws.StubAnswers.{
  answer_json, answer_value, stub_plan, stub_triage, stub_analysis, triage_decoded,
  analysis_decoded, plan_decoded,
}

-- The collaborators of a run offline: the provider is the stub, the context is not cancelled, the
-- readers of JSON and of numbers read the canned answers, the schemas are there, and validator and
-- target succeed.
pub record IsOffline (rt : Runtime) {W : Type 0} (ctx_err : W → Option Text) (p : Pipeline W)
    : Type 0 where
  pub is_stub : p.ports.generate ≡ generate ctx_err
  pub is_live : (w : W) → ctx_err w ≡ none
  pub reads : (stage : Stage) → p.ports.parse_json (answer_json stage) ≡ some (answer_value stage)
  pub reads_one : (x : rt.Float) × (rt.parse_float (codes "1") ≡ some x)
  pub has_schema : (stage : Stage) → (j : Json) × (p.ports.schema_for stage ≡ ok j)
  pub accepts :
      (patch lang : Text) (w : W)
      → (d : List Text) × ((p.ports.validate patch lang w).0
          ≡ ok (record { ok = true; diagnostics = d }))
  pub delivers : (c : Change) (w : W) → (ref : Ref) × ((p.ports.deliver c w).0 ≡ ok ref)

-- The plan that is delivered for an incident.
abbrev pub served_plan : Text → RemediationPlan
served_plan id = record stub_plan { incident_id = id }

-- The last call is the delivery of a plan.
abbrev pub EndsInDelivery : {W : Type 0} → RemediationPlan → State W → Type 0
EndsInDelivery plan s = (before : List Call) × (s.calls ≡ before ++ delivered (of_plan plan) ∷ [])

module _ (rt : Runtime) {W : Type 0} (ctx_err : W → Option Text) (p : Pipeline W)
    (offline : IsOffline rt ctx_err p) where
  answer_named : (stage : Stage) → response_for (schema_name stage) ≡ answer_json stage
  unfolding response_for
  answer_named triage_stage = refl
  answer_named analysis_stage = refl
  answer_named remediation_stage = refl

  answer_nonempty : (stage : Stage) → is_empty (answer_json stage) ≡ false
  answer_nonempty triage_stage = refl
  answer_nonempty analysis_stage = refl
  answer_nonempty remediation_stage = refl

  abbrev canned : Stage → Response
  canned stage = record {
    text = answer_json stage;
    model = codes "stub";
    finish_reason = codes "stop";
  }

  generate_stub :
      (stage : Stage) (system_prompt prompt : Text) (schema : Json) (s : State W)
      → (call_generate p (stage_request p stage system_prompt prompt schema) s).0
        ≡ ok (canned stage)
  unfolding call_generate generate stage_request with_schema
  generate_stub stage system_prompt prompt schema s =
      rw (offline.is_stub, offline.is_live s.world, answer_named stage) refl

  answer_stub :
      {A : Type 0} (stage : Stage) (store : Json → Option A) (out : A)
      → store (answer_value stage) ≡ some out
      → answer_of p stage store (ok (canned stage)) ≡ ok out
  unfolding answer_of decode
  answer_stub stage store out stored =
      rw (answer_of, decode, answer_nonempty stage, offline.reads stage, stored) refl

  -- A stage decodes the value of its canned answer.
  ask_stub :
      {A : Type 0} (stage : Stage) (system_prompt prompt : Text) (store : Json → Option A) (out : A)
      (s : State W)
      → store (answer_value stage) ≡ some out
      → (ask p stage system_prompt prompt store s).0 ≡ ok out
  unfolding ask ask_with
  ask_stub stage system_prompt prompt store out s stored =
      let (j, schema) = offline.has_schema stage in
      rw (ask, schema, generate_stub stage system_prompt prompt j s)
        (answer_stub stage store out stored)

  triage_stub :
      (inc : Incident rt) (s : State W)
      → (t : TriageResult rt) × ((triage rt p inc s).0 ≡ ok t) × (t.actionable ≡ true)
  unfolding triage
  triage_stub inc s =
      let (one, reads) = offline.reads_one in
      let asked =
        ask_stub triage_stage triage_system_prompt (incident_prompt rt inc) (decode_triage rt)
          (stub_triage rt one) s (triage_decoded rt one reads) in
      (record (stub_triage rt one) { incident_id = inc.id }, rw asked refl, refl)

  analyze_stub :
      (inc : Incident rt) (t : TriageResult rt) (s : State W)
      → (a : Analysis rt) × ((analyze rt p inc t s).0 ≡ ok a)
  unfolding analyze
  analyze_stub inc t s =
      let (one, reads) = offline.reads_one in
      let asked =
        ask_stub analysis_stage analysis_system_prompt (analysis_prompt rt inc t)
          (decode_analysis rt) (stub_analysis rt one) s (analysis_decoded rt one reads) in
      (record (stub_analysis rt one) { incident_id = inc.id }, rw asked refl)

  complete_stub :
      (inc : Incident rt)
      → is_empty inc.id ≡ false
      → complete_plan rt inc stub_plan ≡ ok (served_plan inc.id)
  unfolding complete_plan validate_plan
  complete_stub inc named = rw (complete_plan, validate_plan, named) refl

  remediate_stub :
      (inc : Incident rt) (a : Analysis rt) (s : State W)
      → is_empty inc.id ≡ false
      → (remediate rt p inc a s).0 ≡ ok (served_plan inc.id)
  unfolding remediate
  remediate_stub inc a s named =
      let asked =
        ask_stub remediation_stage remediation_system_prompt (remediation_prompt rt inc a)
          decode_plan stub_plan s plan_decoded in
      rw (asked, complete_stub inc named) refl

  -- The gate and the delivery of a plan.
  gate_stub :
      (t : TriageResult rt) (a : Analysis rt) (plan : RemediationPlan) (s : State W)
      → ((gate_plan rt p t a plan s).0.error ≡ none)
        × ((gate_plan rt p t a plan s).0.remediation ≡ plan)
        × EndsInDelivery plan (gate_plan rt p t a plan s).1
  unfolding gate_plan deliver_plan call_validate call_deliver change_of
  gate_stub t a plan s =
      let (d, accepted) = offline.accepts plan.code_patch p.lang s.world in
      let w = (p.ports.validate plan.code_patch p.lang s.world).1 in
      let (ref, sent) = offline.delivers (change_of plan) w in
      rw (gate_plan, accepted, deliver_plan, sent) (refl, refl, (_, refl))

  valid_named : (inc : Incident rt) → validate_incident rt inc ≡ ok tt → is_empty inc.id ≡ false
  unfolding validate_incident
  valid_named inc valid = ground (arith, valid)

  process_stub :
      (inc : Incident rt) (s : State W)
      → validate_incident rt inc ≡ ok tt
      → ((process rt p inc s).0.error ≡ none)
        × ((process rt p inc s).0.remediation ≡ served_plan inc.id)
        × EndsInDelivery (served_plan inc.id) (process rt p inc s).1
  unfolding process after_triage after_analyze after_remediate
  process_stub inc s valid =
      let (t, triaged, actionable) = triage_stub inc s in
      let s1 = (triage rt p inc s).1 in
      let (a, analyzed) = analyze_stub inc t s1 in
      let s2 = (analyze rt p inc t s1).1 in
      let planned = remediate_stub inc a s2 (valid_named inc valid) in
      let s3 = (remediate rt p inc a s2).1 in
      rw (process, valid, triaged, after_triage, actionable, analyzed, after_analyze, planned)
        (gate_stub t a (served_plan inc.id) s3)

-- With the stub as its provider, and with collaborators that succeed and readers that read the
-- canned answers, `Process` brings every valid incident to an end without an error, by a delivery of
-- the stub's plan under the incident's id.
pub process_stub-EndsInDelivery :
    (rt : Runtime) {W : Type 0} (ctx_err : W → Option Text) (p : Pipeline W) (inc : Incident rt)
    (s : State W)
    → IsOffline rt ctx_err p
    → validate_incident rt inc ≡ ok tt
    → ((process rt p inc s).0.error ≡ none)
      × ((process rt p inc s).0.remediation ≡ served_plan inc.id)
      × EndsInDelivery (served_plan inc.id) (process rt p inc s).1
process_stub-EndsInDelivery rt ctx_err p inc s offline valid =
    process_stub rt ctx_err p offline inc s valid
