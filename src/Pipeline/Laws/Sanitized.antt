-- ===== src/Pipeline/Laws/Sanitized.antt =====
-- What holds of every call that `Process` makes.
use cloud_sre_agent.Prelude.{
  ◌≡◌, refl, [], ◌∷◌, Result, ok, err, Text, arith, All, All-append, Option, Result-cases, inl, inr,
}
use cloud_sre_agent.Prelude.Json.{Json}
use cloud_sre_agent.Prelude.Runtime.{Runtime}
use cloud_sre_agent.Domain.{Incident, TriageResult, Analysis, RemediationPlan}
use cloud_sre_agent.Llm.{Message}
use cloud_sre_agent.Domain.Decode.{decode_triage, decode_analysis, decode_plan}
use cloud_sre_agent.Pipeline.{
  triage_stage, analysis_stage, remediation_stage, Stage, Pipeline, State, Call, generated,
  validated, delivered, PipelineError, call_generate, call_validate, call_deliver,
}
use cloud_sre_agent.Scm.{Change}
use cloud_sre_agent.Pipeline.Stages.{stage_request, ask_with, ask, triage, analyze, remediate}
use cloud_sre_agent.Pipeline.Process.{
  change_of, deliver_plan, gate_plan, after_remediate, after_analyze, after_triage, process,
}

-- A property of calls that holds of each request that a stage makes, and of each validation and
-- delivery, is kept by `Process`.
module _ (rt : Runtime) {W : Type 0} (p : Pipeline W) (P : Call → Type 0)
    (P-generated : (stage : Stage) (system_prompt prompt : Text) (schema : Json)
      → P (generated (stage_request p stage system_prompt prompt schema)))
    (P-validated : (patch : Text) → P (validated patch p.lang))
    (P-delivered : (change : Change) → P (delivered change)) where
  deliver_plan-All :
      (t : TriageResult rt) (a : Analysis rt) (plan : RemediationPlan) (s : State W)
      → All P s.calls
      → All P (deliver_plan rt p t a plan s).1.calls
  unfolding deliver_plan call_deliver
  deliver_plan-All t a plan s h =
      All-append P s.calls (delivered (change_of plan) ∷ []) h (P-delivered (change_of plan), tt)

  gate_plan-All :
      (t : TriageResult rt) (a : Analysis rt) (plan : RemediationPlan) (s : State W)
      → All P s.calls
      → All P (gate_plan rt p t a plan s).1.calls
  unfolding gate_plan call_validate
  gate_plan-All t a plan s h =
      let more =
        All-append P s.calls (validated plan.code_patch p.lang ∷ []) h
          (P-validated plan.code_patch, tt) in
      ground (arith, more, deliver_plan-All t a plan (call_validate p plan.code_patch s).1 more)

  ask-All :
      {A : Type 0} (stage : Stage) (system_prompt prompt : Text) (store : Json → Option A)
      (s : State W)
      → All P s.calls
      → All P (ask p stage system_prompt prompt store s).1.calls
  unfolding ask ask_with call_generate
  ask-All stage sp u store s h = elim (Result-cases (p.ports.schema_for stage)) [
    | inl (schema, e) ↦
        rw (e, ask)
          (All-append P s.calls (generated (stage_request p stage sp u schema) ∷ []) h
            (P-generated stage sp u schema, tt))
    | inr (x, e) ↦ rw (e, ask) h
  ]

  after_remediate-All :
      (t : TriageResult rt) (a : Analysis rt) (r : Result PipelineError RemediationPlan)
      (s : State W)
      → All P s.calls
      → All P (after_remediate rt p t a r s).1.calls
  unfolding after_remediate
  after_remediate-All t a (ok plan) s h = gate_plan-All t a plan s h
  after_remediate-All t a (err e) s h = h

  after_analyze-All :
      (inc : Incident rt) (t : TriageResult rt) (r : Result PipelineError (Analysis rt))
      (s : State W)
      → All P s.calls
      → All P (after_analyze rt p inc t r s).1.calls
  unfolding after_analyze remediate
  after_analyze-All inc t (ok a) s h =
      after_remediate-All t a _ _ (ask-All remediation_stage _ _ decode_plan s h)
  after_analyze-All inc t (err e) s h = h

  analyze-All :
      (inc : Incident rt) (t : TriageResult rt) (s : State W)
      → All P s.calls
      → All P (analyze rt p inc t s).1.calls
  unfolding analyze
  analyze-All inc t s h = ask-All analysis_stage _ _ (decode_analysis rt) s h

  after_triage-All :
      (inc : Incident rt) (r : Result PipelineError (TriageResult rt)) (s : State W)
      → All P s.calls
      → All P (after_triage rt p inc r s).1.calls
  unfolding after_triage
  after_triage-All inc (ok t) s h =
      let next = analyze rt p inc t s in
      ground (arith, h, after_analyze-All inc t next.0 next.1 (analyze-All inc t s h))
  after_triage-All inc (err e) s h = h

  triage-All : (inc : Incident rt) (s : State W) → All P s.calls → All P (triage rt p inc s).1.calls
  unfolding triage
  triage-All inc s h = ask-All triage_stage _ _ (decode_triage rt) s h

  pub process-All :
      (inc : Incident rt) (s : State W) → All P s.calls → All P (process rt p inc s).1.calls
  unfolding process
  process-All inc s h =
      let first = triage rt p inc s in
      ground (arith, h, after_triage-All inc first.0 first.1 (triage-All inc s h))

-- Each message of a request is a text that the sanitizer returned.
abbrev pub IsSanitized : {W : Type 0} → Pipeline W → Call → Type 0
IsSanitized p (generated req) =
    All (λ (m : Message). (raw : Text) × (m.content ≡ p.ports.sanitize raw)) req.messages
IsSanitized p (validated patch lang) = Unit
IsSanitized p (delivered change) = Unit

-- Every message of every request that `Process` sends to the provider, on any path, is an output of
-- the sanitizer, if this held of the calls before.
pub process-IsSanitized :
    (rt : Runtime) {W : Type 0} (p : Pipeline W) (inc : Incident rt) (s : State W)
    → All (IsSanitized p) s.calls
    → All (IsSanitized p) (process rt p inc s).1.calls
unfolding stage_request
process-IsSanitized rt p inc s h =
    process-All rt p (IsSanitized p) (λ stage sp u schema. ((sp, refl), ((u, refl), tt)))
      (λ patch. tt) (λ change. tt) inc s h
