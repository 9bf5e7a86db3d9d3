-- ===== src/Detect/Build.antt =====
-- internal/detect/detect.go: `buildIncident`.
use cloud_sre_agent.Prelude.{ℕ, ◌+◌, ◌%◌, ◌^◌, Bool, ◌++◌, length, ltb, Text, codes, if◌then◌else◌}
use cloud_sre_agent.Prelude.Decimal.{format_int}
use cloud_sre_agent.Prelude.Runtime.{Runtime}
use cloud_sre_agent.Domain.{Incident, Time}
use cloud_sre_agent.Detect.{Config, Detector}
use cloud_sre_agent.Detect.Services.{affected_services}
use cloud_sre_agent.Detect.Samples.{samples}

-- `fmt.Sprintf("incident-%d", d.seq)`
unfoldable pub incident_id : ℕ → Text
incident_id seq = codes "incident-" ++ format_int seq

module _ (rt : Runtime) where
  -- The severity score: the error rate or the critical pressure, whichever is greater, at most 1.
  unfoldable pub score : Config rt → ℕ → rt.Float → rt.Float
  score cfg crit_count rate =
      let crit_frac = rt.divide (rt.of_int crit_count) (rt.of_int cfg.critical_count) in
      let blended =
        if ltb 0 cfg.critical_count
        then (if rt.float_ltb rate crit_frac then crit_frac else rate)
        else rate in
      if rt.float_ltb (rt.of_int 1) blended then rt.of_int 1 else blended

  unfoldable pub summary : ℕ → ℕ → rt.Float → ℕ → ℕ → Text
  summary err_count total rate crit_count window =
      format_int err_count
      ++ (codes " errors of "
          ++ (format_int total
              ++ (codes " events ("
                  ++ (rt.format_float 0 (rt.multiply rate (rt.of_int 100))
                      ++ (codes "% error rate, "
                          ++ (format_int crit_count
                              ++ (codes " critical) over " ++ rt.format_duration window)))))))

  -- `d.seq` has been advanced by the caller's step `build_incident`.
  unfoldable pub incident_of : Detector rt → Time → ℕ → ℕ → rt.Float → Bool → Incident rt
  unfolding incident_id
  incident_of d at err_count crit_count rate crit_trigger = record {
    id = incident_id d.seq;
    pattern = if crit_trigger then codes "critical-event-burst" else codes "elevated-error-rate";
    severity_score = score d.cfg crit_count rate;
    affected_services = affected_services d.events;
    sample_events = samples d.events;
    summary = summary err_count (length d.events) rate crit_count d.cfg.window;
    detected_at = at;
  }

  unfoldable pub build_incident :
      Detector rt
      → Time
      → ℕ
      → ℕ
      → rt.Float
      → Bool
      → record { detector : Detector rt; incident : Incident rt }
  unfolding incident_of
  build_incident d at err_count crit_count rate crit_trigger =
      let d' : Detector rt = record d { seq = (d.seq + 1) % 2 ^ 64 } in
      record { detector = d'; incident = incident_of d' at err_count crit_count rate crit_trigger }
