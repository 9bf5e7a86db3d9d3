-- ===== src/Pipeline/Stages.antt =====
-- internal/pipeline/pipeline.go: the three stages that ask the model, `triage`, `analyze` and
-- `remediate`. Each returns its artifact, or an error with the zero artifact.
use cloud_sre_agent.Prelude.{
  [], ◌∷◌, Option, none, some, Result, ok, err, Text, codes, if◌then◌else◌,
}
use cloud_sre_agent.Prelude.Int.{eq_ℤ}
use cloud_sre_agent.Prelude.Json.{Json}
use cloud_sre_agent.Prelude.Runtime.{Runtime}
use cloud_sre_agent.Domain.{Incident, TriageResult, Analysis, RemediationPlan, validate_plan}
use cloud_sre_agent.Domain.Levels.{severity_unknown}
use cloud_sre_agent.Domain.Decode.{decode_triage, decode_analysis, decode_plan}
use cloud_sre_agent.Llm.{Request, Response, system, user, with_schema, decode}
use cloud_sre_agent.Pipeline.{
  Stage, triage_stage, analysis_stage, remediation_stage, Pipeline, State, PipelineError,
  schema_failed, generate_failed, decode_failed, remediation_invalid, call_generate,
}
use cloud_sre_agent.Pipeline.Prompt.{
  triage_system_prompt, analysis_system_prompt, remediation_system_prompt, incident_prompt,
  analysis_prompt, remediation_prompt, severity_from_score,
}

abbrev pub schema_name : Stage → Text
schema_name triage_stage = codes "TriageResult"
schema_name analysis_stage = codes "Analysis"
schema_name remediation_stage = codes "RemediationPlan"

-- Apply a function to the artifact of a stage.
abbrev pub after :
    {A B : Type 0} → (A → Result PipelineError B) → Result PipelineError A → Result PipelineError B
after f (ok a) = f a
after f (err e) = err e

module _ {W : Type 0} (p : Pipeline W) where
  -- The request of a stage: both prompts pass through the sanitizer.
  unfoldable pub stage_request : Stage → Text → Text → Json → Request
  unfolding with_schema
  stage_request stage system_prompt prompt schema =
      with_schema
        (record {
          model = [];
          messages =
              record { role = system; content = p.ports.sanitize system_prompt }
              ∷ record { role = user; content = p.ports.sanitize prompt }
              ∷ [];
          max_tokens = 0;
          schema = none;
          schema_name = [];
        })
        schema (schema_name stage)

  -- What becomes of the provider's answer.
  unfoldable pub answer_of :
      {A : Type 0} → Stage → (Json → Option A) → Result Text Response → Result PipelineError A
  answer_of stage store (err e) = err (generate_failed stage e)
  answer_of stage store (ok resp) = elim (decode p.ports.parse_json store resp) [
    | none ↦ err (decode_failed stage)
    | some out ↦ ok out
  ]

  unfoldable pub ask_with :
      {A : Type 0}
      → Stage
      → Request
      → (Json → Option A)
      → State W
      → Result PipelineError A × State W
  ask_with stage req store s =
      let (answer, s') = call_generate p req s in (answer_of stage store answer, s')

  -- What the stages share: the schema, the request, and the decoding of the response.
  unfoldable pub ask :
      {A : Type 0}
      → Stage
      → Text
      → Text
      → (Json → Option A)
      → State W
      → Result PipelineError A × State W
  ask stage system_prompt prompt store s = elim (p.ports.schema_for stage) [
    | err e ↦ (err (schema_failed stage e), s)
    | ok schema ↦ ask_with stage (stage_request stage system_prompt prompt schema) store s
  ]

module _ (rt : Runtime) where
  -- The server-owned id, the priority from the score where the model left it unknown, and the check.
  unfoldable pub complete_plan :
      Incident rt → RemediationPlan → Result PipelineError RemediationPlan
  complete_plan inc out =
      let out' : RemediationPlan = record out {
        incident_id = inc.id;
        priority =
            if eq_ℤ out.priority severity_unknown
            then severity_from_score rt inc.severity_score
            else out.priority;
      } in
      elim (validate_plan out') [ err e ↦ err (remediation_invalid e) | ok _ ↦ ok out' ]

module _ (rt : Runtime) {W : Type 0} (p : Pipeline W) where
  unfoldable pub triage : Incident rt → State W → Result PipelineError (TriageResult rt) × State W
  triage inc s =
      let (r, s') =
        ask p triage_stage triage_system_prompt (incident_prompt rt inc) (decode_triage rt) s in
      (after (λ (out : TriageResult rt). ok (record out { incident_id = inc.id })) r, s')

  unfoldable pub analyze :
      Incident rt → TriageResult rt → State W → Result PipelineError (Analysis rt) × State W
  analyze inc found s =
      let (r, s') =
        ask p analysis_stage analysis_system_prompt (analysis_prompt rt inc found)
          (decode_analysis rt) s in
      (after (λ (out : Analysis rt). ok (record out { incident_id = inc.id })) r, s')

  unfoldable pub remediate :
      Incident rt → Analysis rt → State W → Result PipelineError RemediationPlan × State W
  remediate inc analysis s =
      let (r, s') =
        ask p remediation_stage remediation_system_prompt (remediation_prompt rt inc analysis)
          decode_plan s in
      (after (complete_plan rt inc) r, s')
