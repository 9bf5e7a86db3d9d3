-- ===== src/Pipeline/Laws/Delivery.antt =====
-- What a journey without an error has done.
use cloud_sre_agent.Prelude.{
  ◌≡◌, ◌≢◌, refl, ap, sym, ◌∙◌, true, Result, ok, err, arith, none, Result-cases, inl, inr,
}
use mathlib.Core.Path.{subst}
use cloud_sre_agent.Prelude.Runtime.{Runtime}
use cloud_sre_agent.Domain.{
  Incident, TriageResult, Analysis, RemediationPlan, validate_incident, validate_plan,
}
use cloud_sre_agent.Domain.Levels.{severity_unknown}
use cloud_sre_agent.Scm.{Change}
use cloud_sre_agent.Pipeline.{
  ValidationResult, Pipeline, State, PipelineError, call_validate, call_deliver,
}
use cloud_sre_agent.Pipeline.Prompt.{severity_from_score}
use cloud_sre_agent.Pipeline.Stages.{triage, analyze, complete_plan, remediate, after}
use cloud_sre_agent.Pipeline.Process.{
  Outcome, change_of, deliver_plan, gate_plan, after_remediate, after_analyze, after_triage,
  process,
}

-- The change that a plan asks for: its patch for its target file, with its fix as the description and
-- its priority as the severity.
abbrev pub of_plan : RemediationPlan → Change
of_plan plan = record {
  file_path = plan.target_file;
  patch = plan.code_patch;
  description = plan.proposed_fix;
  severity = plan.priority;
}

module _ (rt : Runtime) {W : Type 0} (p : Pipeline W) where
  -- The gate and the delivery: in the state `s` the validator accepted the plan's patch, and the
  -- target then took the plan's change, with the reference and the state that `Process` returns.
  pub record IsDelivered (plan : RemediationPlan) (s : State W) (out : Outcome rt) (s' : State W)
      : Type 0 where
    pub same_plan : out.remediation ≡ plan
    pub verdict : ValidationResult
    pub validated_ok : (call_validate p plan.code_patch s).0 ≡ ok verdict
    pub accepted : verdict.ok ≡ true
    pub delivered_ok :
        call_deliver p (of_plan plan) (call_validate p plan.code_patch s).1 ≡ (ok out.ref, s')

  -- A plan that `remediate` has completed for an incident.
  pub record IsComplete (inc : Incident rt) (plan : RemediationPlan) : Type 0 where
    pub owned : plan.incident_id ≡ inc.id
    pub prioritised : plan.priority ≢ severity_unknown
    pub well_formed : validate_plan plan ≡ ok tt

  deliver_plan-IsDelivered :
      (t : TriageResult rt) (a : Analysis rt) (plan : RemediationPlan) (s : State W)
      → (deliver_plan rt p t a plan s).0.error ≡ none
      → let (out, s') = deliver_plan rt p t a plan s in
        (out.remediation ≡ plan) × (call_deliver p (of_plan plan) s ≡ (ok out.ref, s'))
  unfolding deliver_plan change_of
  deliver_plan-IsDelivered t a plan s h = ground arith

  gate_plan-IsDelivered :
      (t : TriageResult rt) (a : Analysis rt) (plan : RemediationPlan) (s : State W)
      → (gate_plan rt p t a plan s).0.error ≡ none
      → let (out, s') = gate_plan rt p t a plan s in IsDelivered plan s out s'
  unfolding gate_plan
  gate_plan-IsDelivered t a plan s h = elim (Result-cases (call_validate p plan.code_patch s).0) [
    | inl (vr, e) ↦
        let next = (call_validate p plan.code_patch s).1 in
        let rest = deliver_plan-IsDelivered t a plan next (ground arith) in
        record {
          same_plan = ground (arith, rest);
          verdict = vr;
          validated_ok = e;
          accepted = ground arith;
          delivered_ok = ground (arith, rest);
        }
    | inr (x, e) ↦ absurd (ground arith)
  ]

  severity_from_score-ne-unknown :
      (score : rt.Float) → severity_from_score rt score ≢ severity_unknown
  unfolding severity_from_score
  severity_from_score-ne-unknown score = ground arith

  complete_plan-IsComplete :
      (inc : Incident rt) (r : Result PipelineError RemediationPlan) {plan : RemediationPlan}
      → after (complete_plan rt inc) r ≡ ok plan
      → IsComplete inc plan
  unfolding complete_plan
  complete_plan-IsComplete inc (ok out) h =
      let known = severity_from_score-ne-unknown inc.severity_score in
      record {
        owned = ground arith;
        prioritised = ground (arith, known);
        well_formed = ground arith;
      }
  complete_plan-IsComplete inc (err e) h = absurd (ground arith)

  -- The whole journey of an incident that ended without an error.
  pub record IsRemediated (inc : Incident rt) (out : Outcome rt) (s' : State W) : Type 0 where
    pub checked : validate_incident rt inc ≡ ok tt
    pub triaged : out.triage.incident_id ≡ inc.id
    pub actionable : out.triage.actionable ≡ true
    pub analyzed : out.analysis.incident_id ≡ inc.id
    pub complete : IsComplete inc out.remediation
    pub before : State W
    pub delivery : IsDelivered out.remediation before out s'

  gate_plan-artifacts :
      (t : TriageResult rt) (a : Analysis rt) (plan : RemediationPlan) (s : State W)
      → let out = (gate_plan rt p t a plan s).0 in
        (out.triage ≡ t) × (out.analysis ≡ a) × (out.remediation ≡ plan)
  unfolding gate_plan deliver_plan
  gate_plan-artifacts t a plan s = ground arith

  -- Inversion of the steps after each stage.
  after_remediate_ok :
      (t : TriageResult rt) (a : Analysis rt) (r : Result PipelineError RemediationPlan)
      (s : State W)
      → (after_remediate rt p t a r s).0.error ≡ none
      → (plan : RemediationPlan) × (r ≡ ok plan)
        × (after_remediate rt p t a r s ≡ gate_plan rt p t a plan s)
  unfolding after_remediate
  after_remediate_ok t a (ok plan) s h = (plan, refl, refl)
  after_remediate_ok t a (err e) s h = cc

  after_analyze_ok :
      (inc : Incident rt) (t : TriageResult rt) (r : Result PipelineError (Analysis rt))
      (s : State W)
      → (after_analyze rt p inc t r s).0.error ≡ none
      → (a : Analysis rt) × (plan : RemediationPlan) × (s1 : State W) × (r ≡ ok a)
        × ((remediate rt p inc a s) ≡ (ok plan, s1))
        × (after_analyze rt p inc t r s ≡ gate_plan rt p t a plan s1)
  unfolding after_analyze
  after_analyze_ok inc t (ok a) s h =
      let next = remediate rt p inc a s in
      let (plan, found, same) = after_remediate_ok t a next.0 next.1 h in
      (a, plan, next.1, refl, ground arith, same)
  after_analyze_ok inc t (err e) s h = cc

  after_triage_ok :
      (inc : Incident rt) (r : Result PipelineError (TriageResult rt)) (s : State W)
      → (after_triage rt p inc r s).0.error ≡ none
      → (t : TriageResult rt) × (r ≡ ok t)
        × (t.actionable ≡ true)
        × (after_triage rt p inc r s
            ≡ after_analyze rt p inc t (analyze rt p inc t s).0 (analyze rt p inc t s).1)
  unfolding after_triage
  after_triage_ok inc (ok t) s h = (t, refl, ground arith, ground arith)
  after_triage_ok inc (err e) s h = cc

  process_ok :
      (inc : Incident rt) (s : State W)
      → (process rt p inc s).0.error ≡ none
      → (validate_incident rt inc ≡ ok tt)
        × (process rt p inc s ≡ after_triage rt p inc (triage rt p inc s).0 (triage rt p inc s).1)
  unfolding process
  process_ok inc s h = ground arith

  triage_owned :
      (inc : Incident rt) (s : State W) {t : TriageResult rt}
      → (triage rt p inc s).0 ≡ ok t
      → t.incident_id ≡ inc.id
  unfolding triage
  triage_owned inc s h = ground arith

  analyze_owned :
      (inc : Incident rt) (t : TriageResult rt) (s : State W) {a : Analysis rt}
      → (analyze rt p inc t s).0 ≡ ok a
      → a.incident_id ≡ inc.id
  unfolding analyze
  analyze_owned inc t s h = ground arith

  remediate-IsComplete :
      (inc : Incident rt) (a : Analysis rt) (s : State W) {plan : RemediationPlan} {s1 : State W}
      → remediate rt p inc a s ≡ (ok plan, s1)
      → IsComplete inc plan
  unfolding remediate
  remediate-IsComplete inc a s h = complete_plan-IsComplete inc _ (ap (λ r. r.0) h)

  -- When `Process` returns no error, the incident was valid and judged actionable; the artifacts
  -- carry its id; the plan has a patch, a target file and a known priority; the validator accepted
  -- the plan's patch, and right after that the target took that patch for the plan's target file, with
  -- the plan's fix as description and its priority as severity, and returned the reference and the
  -- state that `Process` returns.
  pub process-IsRemediated :
      (inc : Incident rt) (s : State W)
      → (process rt p inc s).0.error ≡ none
      → IsRemediated inc (process rt p inc s).0 (process rt p inc s).1
  process-IsRemediated inc s h =
      let (checked, same0) = process_ok inc s h in
      let first = triage rt p inc s in
      let (t, triaged, actionable, same1) = after_triage_ok inc first.0 first.1 (rw same0 at h) in
      let second = analyze rt p inc t first.1 in
      let (a, plan, s1, analyzed, planned, same2) =
        after_analyze_ok inc t second.0 second.1 (rw (same0, same1) at h) in
      let same = same0 ∙ (same1 ∙ same2) in
      let (same_t, same_a, same_plan) = gate_plan-artifacts t a plan s1 in
      let gated = gate_plan-IsDelivered t a plan s1 (rw same at h) in
      subst (λ (o : Outcome rt × State W). IsRemediated inc o.0 o.1) (sym same)
        (record {
          checked = checked;
          triaged = ap (λ (x : TriageResult rt). x.incident_id) same_t ∙ triage_owned inc s triaged;
          actionable = ap (λ (x : TriageResult rt). x.actionable) same_t ∙ actionable;
          analyzed =
              ap (λ (x : Analysis rt). x.incident_id) same_a ∙ analyze_owned inc t first.1 analyzed;
          complete =
              subst (IsComplete inc) (sym same_plan) (remediate-IsComplete inc a second.1 planned);
          before = s1;
          delivery =
              subst
                (λ x.
                  IsDelivered x s1 (gate_plan rt p t a plan s1).0 (gate_plan rt p t a plan s1).1)
                (sym same_plan) gated;
        })
