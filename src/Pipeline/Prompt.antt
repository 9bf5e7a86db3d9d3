-- ===== src/Pipeline/Prompt.antt =====
-- internal/pipeline/pipeline.go: the prompts, `incidentPrompt` and `severityBreakdown`.
use cloud_sre_agent.Prelude.{
  ℕ, List, [], ◌∷◌, ◌++◌, ltb, length, count_if, Text, codes, join, if◌then◌else◌,
}
use cloud_sre_agent.Prelude.Decimal.{format_int}
use cloud_sre_agent.Prelude.Int.{eq_ℤ}
use cloud_sre_agent.Prelude.Runtime.{Runtime}
use cloud_sre_agent.Domain.{LogEvent, Incident, TriageResult, Analysis}
use cloud_sre_agent.Domain.Levels.{
  Severity, severity_critical, severity_error, severity_warning, severity_info, severity_debug,
  severity_unknown, string,
}

unfoldable pub triage_system_prompt : Text
triage_system_prompt =
    codes "You are an SRE triage assistant. Classify the incident: its category, severity, "
    ++ (codes
          "whether it is actionable (warrants a code fix), your confidence, brief reasoning, and concrete next actions. "
        ++ codes "Respond only with the requested JSON.")

unfoldable pub analysis_system_prompt : Text
analysis_system_prompt =
    codes "You are an SRE root-cause analyst. Given an incident and its triage, determine the most "
    ++ (codes
          "likely root cause and a proposed fix at a high level, with key supporting points and your confidence. "
        ++ codes "Respond only with the requested JSON.")

unfoldable pub remediation_system_prompt : Text
remediation_system_prompt =
    codes "You are an SRE remediation engineer. Produce a concrete code patch that addresses the "
    ++ (codes
          "root cause. Include the target file path, a unified-diff code patch, a short proposed-fix description, an "
        ++ codes
            "estimated effort, and restate the root-cause analysis. Respond only with the requested JSON.")

unfoldable pub newline : Text
newline = 10 ∷ []

unfoldable pub severity_order : List Severity
severity_order =
    severity_critical ∷ severity_error ∷ severity_warning ∷ severity_info ∷ severity_debug
    ∷ severity_unknown ∷ []

-- `counts[sev]` after the loop of `severityBreakdown`
unfoldable pub count_of : Severity → List LogEvent → ℕ
count_of sev = count_if (λ e. eq_ℤ e.severity sev)

-- The loop over `order`, for the severities that occur.
unfoldable pub breakdown_parts : List LogEvent → List Severity → List Text
unfolding count_of
breakdown_parts events [] = []
breakdown_parts events (sev ∷ order) =
    let part = string sev ++ (codes ": " ++ format_int (count_of sev events)) in
    let rest = breakdown_parts events order in
    if ltb 0 (count_of sev events) then part ∷ rest else rest

unfoldable pub severity_breakdown : List LogEvent → Text
unfolding breakdown_parts severity_order
severity_breakdown events = join (codes ", ") (breakdown_parts events severity_order)

module _ (rt : Runtime) where
  unfoldable pub incident_prompt : Incident rt → Text
  unfolding newline
  incident_prompt inc =
      let head =
        codes "Incident "
        ++ (inc.id
            ++ (newline
                ++ (codes "Pattern: "
                    ++ (inc.pattern
                        ++ (newline
                            ++ (codes "Severity score: "
                                ++ (rt.format_float 2 inc.severity_score
                                    ++ (newline
                                        ++ (codes "Summary: "
                                            ++ (inc.summary ++ newline)))))))))) in
      let services =
        if ltb 0 (length inc.affected_services)
        then codes "Affected services: " ++ (join (codes ", ") inc.affected_services ++ newline)
        else [] in
      let samples =
        if ltb 0 (length inc.sample_events)
        then codes "Sample events: "
          ++ (format_int (length inc.sample_events)
              ++ (codes " (" ++ (severity_breakdown inc.sample_events ++ (codes ")" ++ newline))))
        else [] in
      head ++ (services ++ samples)

  unfoldable pub analysis_prompt : Incident rt → TriageResult rt → Text
  unfolding newline
  analysis_prompt inc triage =
      incident_prompt inc
      ++ (newline
          ++ (newline
              ++ (codes "Triage category: "
                  ++ (triage.category
                      ++ (newline ++ (codes "Triage reasoning: " ++ triage.reasoning))))))

  unfoldable pub remediation_prompt : Incident rt → Analysis rt → Text
  unfolding newline
  remediation_prompt inc analysis =
      incident_prompt inc
      ++ (newline
          ++ (newline
              ++ (codes "Root cause: "
                  ++ (analysis.root_cause
                      ++ (newline ++ (codes "Proposed fix: " ++ analysis.proposed_fix))))))

  -- `severityFromScore`
  unfoldable pub severity_from_score : rt.Float → Severity
  severity_from_score score =
      if rt.float_leb (rt.decimal 9 1) score
      then severity_critical
      else if rt.float_leb (rt.decimal 5 1) score
      then severity_error
      else if rt.float_leb (rt.decimal 2 1) score
      then severity_warning
      else severity_info
