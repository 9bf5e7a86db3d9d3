-- ===== src/Pipeline/Laws/Privacy.antt =====
-- What leaves the process in the prompts of internal/pipeline/pipeline.go.
use cloud_sre_agent.Prelude.{
  ◌+◌, ◌≡◌, refl, ap, sym, ◌∙◌, List, [], ◌∷◌, map, length, count_if, Result, ok, err, arith, suc,
  if◌then◌else◌,
}
use cloud_sre_agent.Prelude.Int.{eq_ℤ}
use cloud_sre_agent.Prelude.Runtime.{Runtime}
use cloud_sre_agent.Domain.{LogEvent, Incident, TriageResult, Analysis, validate_incident}
use cloud_sre_agent.Domain.Levels.{Severity}
use cloud_sre_agent.Pipeline.{Pipeline, State, PipelineError}
use cloud_sre_agent.Pipeline.Prompt.{
  count_of, breakdown_parts, severity_breakdown, incident_prompt, analysis_prompt,
  remediation_prompt,
}
use cloud_sre_agent.Pipeline.Stages.{triage, analyze, remediate, complete_plan}
use cloud_sre_agent.Pipeline.Process.{after_analyze, after_triage, process}

abbrev pub severities : List LogEvent → List Severity
severities = map (λ e. e.severity)

count_of-severities :
    (sev : Severity) (evs : List LogEvent)
    → count_of sev evs ≡ count_if (λ s. eq_ℤ s sev) (severities evs)
unfolding count_of count_if
count_of-severities sev [] = refl
count_of-severities sev (e ∷ es) =
    ap (λ n. (if eq_ℤ e.severity sev then 1 else 0) + n) (count_of-severities sev es)

length-severities : (evs : List LogEvent) → length (severities evs) ≡ length evs
length-severities [] = refl
length-severities (e ∷ es) = ap suc (length-severities es)

module _ (xs ys : List LogEvent) (same : severities xs ≡ severities ys) where
  same_count : (sev : Severity) → count_of sev xs ≡ count_of sev ys
  same_count sev =
      count_of-severities sev xs
      ∙ (ap (count_if (λ s. eq_ℤ s sev)) same ∙ sym (count_of-severities sev ys))

  same_length : length xs ≡ length ys
  same_length = sym (length-severities xs) ∙ (ap length same ∙ length-severities ys)

  same_parts : (order : List Severity) → breakdown_parts xs order ≡ breakdown_parts ys order
  unfolding breakdown_parts
  same_parts [] = refl
  same_parts (sev ∷ order) = rw (same_count sev, same_parts order)

  same_breakdown : severity_breakdown xs ≡ severity_breakdown ys
  unfolding severity_breakdown
  same_breakdown = rw (same_parts _)

-- An incident, and the same with other sample events of the same severities.
module _ (rt : Runtime) (inc : Incident rt) (evs : List LogEvent)
    (same : severities evs ≡ severities inc.sample_events) where
  abbrev other : Incident rt
  other = record inc { sample_events = evs }

  same_prompt : incident_prompt rt other ≡ incident_prompt rt inc
  unfolding incident_prompt
  same_prompt =
      rw (same_length evs inc.sample_events same) (rw (same_breakdown evs inc.sample_events same))

  same_check : validate_incident rt other ≡ validate_incident rt inc
  unfolding validate_incident
  same_check = refl

  module _ {W : Type 0} (p : Pipeline W) where
    same_triage : (s : State W) → triage rt p other s ≡ triage rt p inc s
    unfolding triage
    same_triage s = rw same_prompt

    same_analyze :
        (t : TriageResult rt) (s : State W) → analyze rt p other t s ≡ analyze rt p inc t s
    unfolding analyze analysis_prompt
    same_analyze t s = rw same_prompt

    same_remediate :
        (a : Analysis rt) (s : State W) → remediate rt p other a s ≡ remediate rt p inc a s
    unfolding remediate remediation_prompt complete_plan
    same_remediate a s = rw same_prompt

    same_after_analyze :
        (t : TriageResult rt) (r : Result PipelineError (Analysis rt)) (s : State W)
        → after_analyze rt p other t r s ≡ after_analyze rt p inc t r s
    unfolding after_analyze
    same_after_analyze t (ok a) s = rw (same_remediate a s)
    same_after_analyze t (err e) s = refl

    same_after_triage :
        (r : Result PipelineError (TriageResult rt)) (s : State W)
        → after_triage rt p other r s ≡ after_triage rt p inc r s
    unfolding after_triage
    same_after_triage (ok t) s =
        rw (same_analyze t s)
          (rw (same_after_analyze t (analyze rt p inc t s).0 (analyze rt p inc t s).1))
    same_after_triage (err e) s = refl

    -- The sample events of an incident influence `Process` only through their severities: with any
    -- others of the same severities in their place, whatever their messages, sources, labels, ids
    -- and timestamps, the prompts, the calls, the deliveries and the result are the same.
    pub process-sample_events : (s : State W) → process rt p other s ≡ process rt p inc s
    unfolding process
    process-sample_events s = ground (
      arith,
      same_check,
      same_triage s,
      same_after_triage (triage rt p inc s).0 (triage rt p inc s).1,
    )
