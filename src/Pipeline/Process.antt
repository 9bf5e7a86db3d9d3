-- ===== src/Pipeline/Process.antt =====
-- internal/pipeline/pipeline.go: `Process`. A result always carries all four artifacts; those of
-- stages that were not reached are zero values.
use cloud_sre_agent.Prelude.{
  true, false, not, [], Option, none, some, Result, ok, err, codes, join, if◌then◌else◌,
}
use cloud_sre_agent.Prelude.Runtime.{Runtime}
use cloud_sre_agent.Domain.{Incident, TriageResult, Analysis, RemediationPlan, validate_incident}
use cloud_sre_agent.Domain.Levels.{severity_unknown}
use cloud_sre_agent.Scm.{Change, Ref}
use cloud_sre_agent.Pipeline.{
  Pipeline, State, PipelineError, invalid_incident, not_actionable, validate_failed, patch_rejected,
  deliver_failed, call_validate, call_deliver,
}
use cloud_sre_agent.Pipeline.Stages.{triage, analyze, remediate}

unfoldable pub change_of : RemediationPlan → Change
change_of plan = record {
  file_path = plan.target_file;
  patch = plan.code_patch;
  description = plan.proposed_fix;
  severity = plan.priority;
}

abbrev pub zero_plan : RemediationPlan
zero_plan = record {
  incident_id = [];
  root_cause_analysis = [];
  proposed_fix = [];
  code_patch = [];
  priority = severity_unknown;
  estimated_effort = [];
  target_file = [];
}

abbrev pub zero_ref : Ref
zero_ref = record { id = []; url = [] }

module _ (rt : Runtime) where
  abbrev pub zero_triage : TriageResult rt
  zero_triage = record {
    incident_id = [];
    category = [];
    severity = severity_unknown;
    confidence = rt.of_int 0;
    actionable = false;
    reasoning = [];
    next_actions = [];
  }

  abbrev pub zero_analysis : Analysis rt
  zero_analysis = record {
    incident_id = [];
    root_cause = [];
    proposed_fix = [];
    key_points = [];
    confidence = rt.of_int 0;
  }

  -- `Result`, with the error of `Process`.
  pub record Outcome : Type 0 where
    pub triage : TriageResult rt
    pub analysis : Analysis rt
    pub remediation : RemediationPlan
    pub ref : Ref
    pub error : Option PipelineError

  unfoldable pub failed_at :
      TriageResult rt → Analysis rt → RemediationPlan → PipelineError → Outcome
  failed_at triage analysis plan e = record {
    triage = triage;
    analysis = analysis;
    remediation = plan;
    ref = zero_ref;
    error = some e;
  }

module _ (rt : Runtime) {W : Type 0} (p : Pipeline W) where
  -- From the validated patch on.
  unfoldable pub deliver_plan :
      TriageResult rt → Analysis rt → RemediationPlan → State W → Outcome rt × State W
  unfolding failed_at
  deliver_plan t a plan s =
      let (r, s') = call_deliver p (change_of plan) s in
      (
        elim r [
          | err e ↦ failed_at rt t a plan (deliver_failed e)
          | ok ref ↦ record {
            triage = t;
            analysis = a;
            remediation = plan;
            ref = ref;
            error = none;
          }
        ],
        s',
      )

  -- The validator's gate.
  unfoldable pub gate_plan :
      TriageResult rt → Analysis rt → RemediationPlan → State W → Outcome rt × State W
  unfolding failed_at
  gate_plan t a plan s =
      let (r, s') = call_validate p plan.code_patch s in
      let delivered = deliver_plan t a plan s' in
      elim r [
        | err e ↦ (failed_at rt t a plan (validate_failed e), s')
        | ok vr ↦ elim vr.ok [
          | true ↦ delivered
          | false ↦ (failed_at rt t a plan (patch_rejected (join (codes "; ") vr.diagnostics)), s')
        ]
      ]

  -- What follows the result of each stage: an early return, or the next stage.
  unfoldable pub after_remediate :
      TriageResult rt
      → Analysis rt
      → Result PipelineError RemediationPlan
      → State W
      → Outcome rt × State W
  unfolding failed_at
  after_remediate t a (err e) s = (failed_at rt t a zero_plan e, s)
  after_remediate t a (ok plan) s = gate_plan t a plan s

  unfoldable pub after_analyze :
      Incident rt
      → TriageResult rt
      → Result PipelineError (Analysis rt)
      → State W
      → Outcome rt × State W
  unfolding failed_at
  after_analyze inc t (err e) s = (failed_at rt t (zero_analysis rt) zero_plan e, s)
  after_analyze inc t (ok a) s = let (r, s') = remediate rt p inc a s in after_remediate t a r s'

  unfoldable pub after_triage :
      Incident rt → Result PipelineError (TriageResult rt) → State W → Outcome rt × State W
  unfolding failed_at
  after_triage inc (err e) s = (failed_at rt (zero_triage rt) (zero_analysis rt) zero_plan e, s)
  after_triage inc (ok t) s =
      let (r, s') = analyze rt p inc t s in
      if not t.actionable
      then (failed_at rt t (zero_analysis rt) zero_plan not_actionable, s)
      else after_analyze inc t r s'

  -- `Process`: the incident's check, the stages with their early returns, the gate, the delivery.
  unfoldable pub process : Incident rt → State W → Outcome rt × State W
  unfolding failed_at
  process inc s =
      let (r, s') = triage rt p inc s in
      elim (validate_incident rt inc) [
        | err e ↦
            (failed_at rt (zero_triage rt) (zero_analysis rt) zero_plan (invalid_incident e), s)
        | ok _ ↦ after_triage inc r s'
      ]
