-- ===== src/Detect/Laws/Cooldown.antt =====
-- The spacing of incidents.
use cloud_sre_agent.Prelude.{
  ℕ, ◌+◌, ◌^◌, ◌≤◌, ◌<◌, ◌≡◌, ◌⊎◌, inl, inr, List, Option-cases, [], ◌∷◌, none, some, arith, ap,
  ◌∙◌,
}
use mathlib.Core.Path.{subst}
use cloud_sre_agent.Prelude.Runtime.{Runtime}
use cloud_sre_agent.Domain.{LogEvent, Time, Incident}
use cloud_sre_agent.Detect.{Detector, Config, new}
use cloud_sre_agent.Detect.Build.{build_incident}
use cloud_sre_agent.Detect.Laws.Trigger.{is_cooling_iff}
use cloud_sre_agent.Detect.Laws.Refinement.{evaluate-window}
use cloud_sre_agent.Detect.Observe.{stamp, record_event, fire, evaluate, observe, emit, run}

module _ (rt : Runtime) where
  -- Each incident comes at least `gap` after the one before, the first after the time `last` if
  -- that is not zero.
  abbrev pub IsSpaced : ℕ → Time → List (Incident rt) → Type 0
  IsSpaced gap last [] = Unit
  IsSpaced gap last (inc ∷ incs) =
      (0 < last → last + gap ≤ inc.detected_at) × IsSpaced gap inc.detected_at incs

  -- What one decision leaves: no incident and the state as it was, or an incident of the window's
  -- time, which is remembered as the last, at least the cooldown after the one before.
  evaluate-spaced :
      (d : Detector rt)
      → d.last_fired_at ≤ d.window_now
      → d.cfg.cooldown < 2 ^ 63
      → ((evaluate rt d) ≡ (d, none))
        ⊎ ((inc : Incident rt) × ((evaluate rt d).1 ≡ some inc)
            × (inc.detected_at ≡ d.window_now)
            × ((evaluate rt d).0.last_fired_at ≡ d.window_now)
            × (0 < d.last_fired_at → d.last_fired_at + d.cfg.cooldown ≤ d.window_now))
  unfolding evaluate fire build_incident
  evaluate-spaced d h k =
      let cool = is_cooling_iff rt d h k in
      elim (Option-cases (evaluate rt d).1) [
        | inl e ↦ inl (ground arith)
        | inr (inc, e) ↦ inr (inc, e, ground arith, ground arith, ground (arith, cool))
      ]

  pub record_event-window_now :
      (e : LogEvent) (d : Detector rt)
      → (d.window_now ≤ (record_event rt e d).window_now)
        × ((record_event rt e d).last_fired_at ≡ d.last_fired_at)
        × ((record_event rt e d).cfg ≡ d.cfg)
  unfolding record_event
  record_event-window_now e d = ground arith

  -- One observation: the last incident stays behind the clock, and incidents that are spaced from
  -- there on are spaced from the state before.
  observe-IsSpaced :
      (now : Time) (e : LogEvent) (d : Detector rt)
      → d.last_fired_at ≤ d.window_now
      → d.cfg.cooldown < 2 ^ 63
      → let (d', found) = observe rt now e d in
        (d'.cfg ≡ d.cfg)
        × (d'.last_fired_at ≤ d'.window_now)
        × ((later : List (Incident rt))
            → IsSpaced d.cfg.cooldown d'.last_fired_at later
            → IsSpaced d.cfg.cooldown d.last_fired_at (emit rt found later))
  unfolding observe
  observe-IsSpaced now e d h k =
      let r = record_event rt (stamp now e) d in
      let (clock, last, cfg) = record_event-window_now (stamp now e) d in
      let (_, clock', cfg') = evaluate-window rt r in
      elim (evaluate-spaced r (omega arith) (ground arith)) [
        | inl e ↦ rw e (cfg, omega arith, λ later s. rw (← last) s)
        | inr (inc, found, at, last', gap) ↦ (
          cfg' ∙ cfg,
          omega arith,
          λ later s. rw found ((λ p. ground arith), rw at (rw (← last') s)),
        )
      ]

  -- From a state whose last incident is not after the window's clock, with a cooldown that fits an
  -- int64, the incidents of any run of events come at least the cooldown apart, the first one at
  -- least the cooldown after the last incident before the run.
  pub run-IsSpaced :
      (es : List (Time × LogEvent)) (d : Detector rt)
      → d.last_fired_at ≤ d.window_now
      → d.cfg.cooldown < 2 ^ 63
      → IsSpaced d.cfg.cooldown d.last_fired_at (run rt es d).1
  unfolding run
  run-IsSpaced [] d h k = tt
  run-IsSpaced ((now, e) ∷ es) d h k =
      let (cfg, behind, spaced) = observe-IsSpaced now e d h k in
      let d' = (observe rt now e d).0 in
      let same : d'.cfg.cooldown ≡ d.cfg.cooldown = ap (λ (c : Config rt). c.cooldown) cfg in
      spaced (run rt es d').1 (
        subst (λ c. IsSpaced c d'.last_fired_at (run rt es d').1) same
          (run-IsSpaced es d' behind (omega arith)))

  -- The incidents of a detector that `New` made with a cooldown that fits an int64 come at least
  -- that cooldown apart (a cooldown of 0 is the default of 60 seconds).
  pub run-new-IsSpaced :
      (cfg : Config rt) (es : List (Time × LogEvent))
      → cfg.cooldown < 2 ^ 63
      → IsSpaced (new rt cfg).cfg.cooldown 0 (run rt es (new rt cfg)).1
  unfolding new
  run-new-IsSpaced cfg es k = run-IsSpaced es (new rt cfg) (omega arith) (ground arith)
