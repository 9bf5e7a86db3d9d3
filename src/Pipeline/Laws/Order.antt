-- ===== src/Pipeline/Laws/Order.antt =====
-- The calls that `Process` makes through the ports, and their order.
use cloud_sre_agent.Prelude.{
  ℕ, ◌+◌, ◌≡◌, ap, ◌∙◌, inl, inr, List, [], ◌∷◌, ◌++◌, map, Option, none, some, Result, ok, err,
  arith, take, suc, Result-cases, Text,
}
use mathlib.Core.List.{map-append}
use cloud_sre_agent.Prelude.Json.{Json}
use cloud_sre_agent.Prelude.Runtime.{Runtime}
use cloud_sre_agent.Domain.{Incident, TriageResult, Analysis, RemediationPlan}
use cloud_sre_agent.Domain.Decode.{decode_triage, decode_analysis, decode_plan}
use cloud_sre_agent.Llm.{Request, Response}
use cloud_sre_agent.Pipeline.{
  Stage, triage_stage, analysis_stage, remediation_stage, Pipeline, State, Call, generated,
  validated, delivered, PipelineError, invalid_incident, schema_failed, generate_failed,
  decode_failed, remediation_invalid, not_actionable, validate_failed, patch_rejected,
  deliver_failed, call_generate, call_validate, call_deliver,
}
use cloud_sre_agent.Pipeline.Stages.{
  answer_of, ask_with, stage_request, ask, triage, analyze, complete_plan, remediate, after,
}
use cloud_sre_agent.Pipeline.Process.{
  change_of, deliver_plan, gate_plan, after_remediate, after_analyze, after_triage, process,
}

pub data CallKind : Type 0 where
  generate_call validate_call deliver_call : CallKind

abbrev pub kind : Call → CallKind
kind (generated req) = generate_call
kind (validated patch lang) = validate_call
kind (delivered change) = deliver_call

-- The calls of a journey that ends in a delivery.
abbrev pub full_journey : List CallKind
full_journey = generate_call ∷ generate_call ∷ generate_call ∷ validate_call ∷ deliver_call ∷ []

-- How many of them have been made when a model's stage fails.
abbrev pub stage_index : Stage → ℕ
stage_index triage_stage = 0
stage_index analysis_stage = 1
stage_index remediation_stage = 2

-- How many of them have been made at each end of `Process`.
abbrev pub calls_made : Option PipelineError → ℕ
calls_made none = 5
calls_made (some (invalid_incident e)) = 0
calls_made (some (schema_failed stage e)) = stage_index stage
calls_made (some (generate_failed stage e)) = stage_index stage + 1
calls_made (some (decode_failed stage)) = stage_index stage + 1
calls_made (some not_actionable) = 1
calls_made (some (remediation_invalid e)) = 3
calls_made (some (validate_failed e)) = 4
calls_made (some (patch_rejected e)) = 4
calls_made (some (deliver_failed e)) = 5

kind-snoc :
    (cs : List Call) (c : Call) (done : List CallKind)
    → map kind cs ≡ done
    → map kind (cs ++ c ∷ []) ≡ done ++ kind c ∷ []
kind-snoc cs c done h = map-append kind cs (c ∷ []) ∙ ap (λ ks. ks ++ kind c ∷ []) h

module _ (rt : Runtime) {W : Type 0} (p : Pipeline W) where
  deliver_plan-calls :
      (t : TriageResult rt) (a : Analysis rt) (plan : RemediationPlan) (s : State W)
      → map kind s.calls ≡ take 4 full_journey
      → let (out, s') = deliver_plan rt p t a plan s in
        (map kind s'.calls ≡ take (calls_made out.error) full_journey)
  unfolding deliver_plan call_deliver
  deliver_plan-calls t a plan s h =
      let more = kind-snoc s.calls (delivered (change_of plan)) _ h in ground (arith, more)

  gate_plan-calls :
      (t : TriageResult rt) (a : Analysis rt) (plan : RemediationPlan) (s : State W)
      → map kind s.calls ≡ take 3 full_journey
      → let (out, s') = gate_plan rt p t a plan s in
        map kind s'.calls ≡ take (calls_made out.error) full_journey
  unfolding gate_plan call_validate
  gate_plan-calls t a plan s h =
      let more = kind-snoc s.calls (validated plan.code_patch p.lang) _ h in
      ground (arith, more, deliver_plan-calls t a plan (call_validate p plan.code_patch s).1 more)

  -- The calls made up to the result of a stage.
  abbrev StageCalls : {A : Type 0} → Stage → Result PipelineError A → List Call → Type 0
  StageCalls stage (ok out) calls = map kind calls ≡ take (suc (stage_index stage)) full_journey
  StageCalls stage (err e) calls = map kind calls ≡ take (calls_made (some e)) full_journey

  answer_of-calls :
      {A : Type 0} (stage : Stage) (store : Json → Option A) (r : Result Text Response)
      (calls : List Call)
      → map kind calls ≡ take (suc (stage_index stage)) full_journey
      → StageCalls stage (answer_of p stage store r) calls
  unfolding answer_of
  answer_of-calls triage_stage store r calls h = ground arith
  answer_of-calls analysis_stage store r calls h = ground arith
  answer_of-calls remediation_stage store r calls h = ground arith

  ask_with-calls :
      {A : Type 0} (stage : Stage) (req : Request) (store : Json → Option A) (s : State W)
      → map kind s.calls ≡ take (stage_index stage) full_journey
      → let (r, s') = ask_with p stage req store s in StageCalls stage r s'.calls
  unfolding ask_with call_generate
  ask_with-calls triage_stage req store s h =
      answer_of-calls triage_stage store _ _ (kind-snoc s.calls (generated req) _ h)
  ask_with-calls analysis_stage req store s h =
      answer_of-calls analysis_stage store _ _ (kind-snoc s.calls (generated req) _ h)
  ask_with-calls remediation_stage req store s h =
      answer_of-calls remediation_stage store _ _ (kind-snoc s.calls (generated req) _ h)

  ask-calls :
      {A : Type 0} (stage : Stage) (system_prompt prompt : Text) (store : Json → Option A)
      (s : State W)
      → map kind s.calls ≡ take (stage_index stage) full_journey
      → let (r, s') = ask p stage system_prompt prompt store s in StageCalls stage r s'.calls
  unfolding ask
  ask-calls stage sp u store s h = elim (Result-cases (p.ports.schema_for stage)) [
    | inl (schema, e) ↦
        rw (e, ask) (ask_with-calls stage (stage_request p stage sp u schema) store s h)
    | inr (t, e) ↦ rw (e, ask) h
  ]

  -- Setting the id of an artifact makes no call and no error.
  after-calls :
      {A : Type 0} (stage : Stage) (f : A → A) (r : Result PipelineError A) (calls : List Call)
      → StageCalls stage r calls
      → StageCalls stage (after (λ out. ok (f out)) r) calls
  after-calls stage f (ok out) calls h = h
  after-calls stage f (err e) calls h = h

  complete_plan-calls :
      (inc : Incident rt) (r : Result PipelineError RemediationPlan) (calls : List Call)
      → StageCalls remediation_stage r calls
      → StageCalls remediation_stage (after (complete_plan rt inc) r) calls
  unfolding complete_plan
  complete_plan-calls inc (ok out) calls h = ground arith
  complete_plan-calls inc (err e) calls h = h

  after_remediate-calls :
      (t : TriageResult rt) (a : Analysis rt) (r : Result PipelineError RemediationPlan)
      (s : State W)
      → StageCalls remediation_stage r s.calls
      → let (out, s') = after_remediate rt p t a r s in
        map kind s'.calls ≡ take (calls_made out.error) full_journey
  unfolding after_remediate
  after_remediate-calls t a (ok plan) s h = gate_plan-calls t a plan s h
  after_remediate-calls t a (err e) s h = h

  after_analyze-calls :
      (inc : Incident rt) (t : TriageResult rt) (r : Result PipelineError (Analysis rt))
      (s : State W)
      → StageCalls analysis_stage r s.calls
      → let (out, s') = after_analyze rt p inc t r s in
        map kind s'.calls ≡ take (calls_made out.error) full_journey
  unfolding after_analyze remediate
  after_analyze-calls inc t (ok a) s h =
      after_remediate-calls t a _ _
        (complete_plan-calls inc _ _ (ask-calls remediation_stage _ _ decode_plan s h))
  after_analyze-calls inc t (err e) s h = h

  analyze-calls :
      (inc : Incident rt) (t : TriageResult rt) (s : State W)
      → map kind s.calls ≡ take 1 full_journey
      → let (r, s') = analyze rt p inc t s in StageCalls analysis_stage r s'.calls
  unfolding analyze
  analyze-calls inc t s h =
      after-calls analysis_stage (λ out. record out { incident_id = inc.id }) _ _
        (ask-calls analysis_stage _ _ (decode_analysis rt) s h)

  after_triage-calls :
      (inc : Incident rt) (r : Result PipelineError (TriageResult rt)) (s : State W)
      → StageCalls triage_stage r s.calls
      → let (out, s') = after_triage rt p inc r s in
        map kind s'.calls ≡ take (calls_made out.error) full_journey
  unfolding after_triage
  after_triage-calls inc (ok t) s h =
      let next = analyze rt p inc t s in
      ground (arith, after_analyze-calls inc t next.0 next.1 (analyze-calls inc t s h))
  after_triage-calls inc (err e) s h = h

  triage-calls :
      (inc : Incident rt) (s : State W)
      → s.calls ≡ []
      → let (r, s') = triage rt p inc s in StageCalls triage_stage r s'.calls
  unfolding triage
  triage-calls inc s h =
      after-calls triage_stage (λ out. record out { incident_id = inc.id }) _ _
        (ask-calls triage_stage _ _ (decode_triage rt) s (ap (map kind) h))

  -- The calls of `Process`, from a state with none, are a prefix of three generations, a validation
  -- of the patch and a delivery, and the returned error determines its length.
  pub process-calls :
      (inc : Incident rt) (s : State W)
      → s.calls ≡ []
      → let (out, s') = process rt p inc s in
        map kind s'.calls ≡ take (calls_made out.error) full_journey
  unfolding process
  process-calls inc s h =
      let first = triage rt p inc s in
      ground (arith, after_triage-calls inc first.0 first.1 (triage-calls inc s h))
