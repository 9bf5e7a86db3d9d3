-- ===== src/Detect/Laws/Validity.antt =====
-- The incidents that the detector emits: they satisfy `Incident.Validate`, and their identifiers
-- are distinct.

use cloud_sre_agent.Prelude.{
  ℕ, ◌+◌, ◌%◌, ◌^◌, ◌<◌, ◌≡◌, inl, inr, ◌∙◌, Bool, true, false, List, [], ◌∷◌, some, arith, length,
  All, Option-cases, ok,
}
use cloud_sre_agent.Prelude.Runtime.{Runtime, IsLawful}
use cloud_sre_agent.Domain.{LogEvent, Time, Incident, validate_incident}
use cloud_sre_agent.Detect.{Detector, Config, new}
use cloud_sre_agent.Detect.Window.{error_count}
use cloud_sre_agent.Detect.Build.{score, incident_of}
use cloud_sre_agent.Detect.Laws.Refinement.{evaluate-window}
use cloud_sre_agent.Detect.Laws.Cooldown.{record_event-window_now}
use cloud_sre_agent.Detect.Observe.{stamp, record_event, rate_of, fire, evaluate, observe, run}

module _ (rt : Runtime) where
  -- Observing an event leaves the settings.
  pub observe-cfg :
      (now : Time) (e : LogEvent) (d : Detector rt) → (observe rt now e d).0.cfg ≡ d.cfg
  unfolding observe
  observe-cfg now e d =
      (evaluate-window rt (record_event rt (stamp now e) d)).2
      ∙ (record_event-window_now rt (stamp now e) d).2

module _ (rt : Runtime) (lawful : IsLawful rt) where
  -- The score lies between 0 and 1 for any rate that is not negative.
  score_bounds :
      (cfg : Config rt) (crit : ℕ) (rate : rt.Float)
      → rt.float_leb (rt.of_int 0) rate ≡ true
      → (rt.float_ltb (score rt cfg crit rate) (rt.of_int 0) ≡ false)
        × (rt.float_ltb (rt.of_int 1) (score rt cfg crit rate) ≡ false)
  unfolding score
  score_bounds cfg crit rate h =
      let crit_frac = rt.divide (rt.of_int crit) (rt.of_int cfg.critical_count) in
      ground (
        arith,
        lawful.leb-not-ltb (rt.of_int 0) rate,
        lawful.leb-not-ltb (rt.of_int 0) crit_frac,
        lawful.leb-not-ltb (rt.of_int 0) (rt.of_int 1),
        lawful.leb-not-ltb (rt.of_int 1) (rt.of_int 1),
        lawful.leb-of_int 0 1,
        lawful.leb-of_int 1 1,
        lawful.ratio_nonneg crit cfg.critical_count,
      )

  incident_of-valid :
      (d : Detector rt) (at : Time) (errs crit : ℕ) (rate : rt.Float) (trigger : Bool)
      → rt.float_leb (rt.of_int 0) rate ≡ true
      → validate_incident rt (incident_of rt d at errs crit rate trigger) ≡ ok tt
  unfolding incident_of validate_incident
  incident_of-valid d at errs crit rate true h = ground (arith, score_bounds d.cfg crit rate h)
  incident_of-valid d at errs crit rate false h = ground (arith, score_bounds d.cfg crit rate h)

  fire-valid :
      (d : Detector rt) → 0 < length d.events → validate_incident rt (fire rt d).incident ≡ ok tt
  unfolding fire
  fire-valid d h =
      incident_of-valid (record d { last_fired_at = d.window_now; seq = (d.seq + 1) % 2 ^ 64 })
        d.window_now (error_count d.events) _ (rate_of rt d.events) _
        (lawful.ratio_nonneg (error_count d.events) (length d.events) h)

  -- Whatever the state, an incident that `observe` returns passes `Incident.Validate`, if the
  -- detector wants at least one event.
  pub observe-valid :
      (now : Time) (e : LogEvent) (d : Detector rt) {inc : Incident rt}
      → 0 < d.cfg.min_events
      → (observe rt now e d).1 ≡ some inc
      → validate_incident rt inc ≡ ok tt
  unfolding observe evaluate
  observe-valid now e d m found =
      let r = record_event rt (stamp now e) d in
      ground (arith, fire-valid r, record_event-window_now rt (stamp now e) d)

  run-valid :
      (es : List (Time × LogEvent)) (d : Detector rt)
      → 0 < d.cfg.min_events
      → All (λ inc. validate_incident rt inc ≡ ok tt) (run rt es d).1
  unfolding run
  run-valid [] d m = tt
  run-valid ((now, e) ∷ es) d m =
      let d' = (observe rt now e d).0 in
      let rest = run-valid es d' (ground (arith, observe-cfg rt now e d)) in
      elim (Option-cases (observe rt now e d).1) [
        | inl none_found ↦ rw none_found rest
        | inr (inc, found) ↦ rw found (observe-valid now e d m found, rest)
      ]

  -- Every incident that a detector made by `New` emits, over any events, passes
  -- `Incident.Validate`: it has an id, a pattern, and a severity score between 0 and 1.
  pub run-new-valid :
      (cfg : Config rt) (es : List (Time × LogEvent))
      → All (λ inc. validate_incident rt inc ≡ ok tt) (run rt es (new rt cfg)).1
  unfolding new
  run-new-valid cfg es = run-valid es (new rt cfg) (ground arith)
