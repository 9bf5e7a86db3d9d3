-- ===== src/Detect/Laws/Refinement.antt =====
-- The window that the detector keeps from event to event is the window of the whole history.
use cloud_sre_agent.Prelude.{
  ℕ, ◌≤◌, ◌≡◌, refl, sym, ap, ◌∙◌, List, [], ◌∷◌, ◌++◌, map, ltb, keep, keep-append, arith,
  if◌then◌else◌,
}
use mathlib.Core.List.{append_assoc, append-nil}
use cloud_sre_agent.Prelude.Runtime.{Runtime}
use cloud_sre_agent.Domain.{LogEvent, Time}
use cloud_sre_agent.Detect.{Detector}
use cloud_sre_agent.Detect.Window.{in_window, evict_events}
use cloud_sre_agent.Detect.Build.{build_incident}
use cloud_sre_agent.Detect.Observe.{stamp, record_event, fire, evaluate, observe, run}

-- The specification: the latest time seen, and the events of the history that lie within the
-- window of that time.
unfoldable pub latest : Time → List LogEvent → Time
latest now [] = now
latest now (e ∷ es) = latest (if ltb now e.timestamp then e.timestamp else now) es

abbrev pub stamped : List (Time × LogEvent) → List LogEvent
stamped = map (λ ne. stamp ne.0 ne.1)

-- An event that the earlier window dropped is outside the later one too.
evict-evict :
    (w a b : ℕ) (evs : List LogEvent)
    → a ≤ b
    → evict_events w b (evict_events w a evs) ≡ evict_events w b evs
unfolding evict_events keep
evict-evict w a b [] h = refl
evict-evict w a b (e ∷ evs) h = ground (arith, evict-evict w a b evs h)

evict-append :
    (w a b : ℕ) (evs : List LogEvent) (e : LogEvent)
    → a ≤ b
    → evict_events w b (evict_events w a evs ++ e ∷ []) ≡ evict_events w b (evs ++ e ∷ [])
unfolding evict_events
evict-append w a b evs e h =
    rw (keep-append (in_window w b) (evict_events w a evs) (e ∷ []))
      (rw (keep-append (in_window w b) evs (e ∷ [])) (rw (evict-evict w a b evs h)))

module _ (rt : Runtime) where
  -- Deciding on an incident changes neither the window, nor its clock, nor the settings.
  pub evaluate-window :
      (d : Detector rt)
      → ((evaluate rt d).0.events ≡ d.events)
        × ((evaluate rt d).0.window_now ≡ d.window_now)
        × ((evaluate rt d).0.cfg ≡ d.cfg)
  unfolding evaluate fire build_incident
  evaluate-window d = ground arith

  -- One observation, in terms of the history that the detector has seen.
  observe-window :
      (now : Time) (e : LogEvent) (d : Detector rt) (seen : List LogEvent)
      → d.events ≡ evict_events d.cfg.window d.window_now seen
      → let d' = (observe rt now e d).0 in
        (d'.window_now ≡ latest d.window_now (stamp now e ∷ []))
        × (d'.events ≡ evict_events d'.cfg.window d'.window_now (seen ++ stamp now e ∷ []))
        × (d'.cfg ≡ d.cfg)
  unfolding observe record_event latest
  observe-window now e d seen h =
      let s = stamp now e in
      let later = latest d.window_now (s ∷ []) in
      ground (
        arith,
        evaluate-window (record_event rt s d),
        evict-append d.cfg.window d.window_now later seen s,
      )

  -- The window of a detector that has seen the history `seen`, after the events `es`: its clock
  -- shows the latest time, and it holds the events of the whole history within the window of that
  -- time, in their order.
  pub run-window :
      (es : List (Time × LogEvent)) (d : Detector rt) (seen : List LogEvent)
      → d.events ≡ evict_events d.cfg.window d.window_now seen
      → let d' = (run rt es d).0 in
        (d'.window_now ≡ latest d.window_now (stamped es))
        × (d'.events ≡ evict_events d.cfg.window d'.window_now (seen ++ stamped es))
        × (d'.cfg ≡ d.cfg)
  unfolding run latest
  run-window [] d seen h =
      (refl, h ∙ ap (evict_events d.cfg.window d.window_now) (sym (append-nil seen)), refl)
  run-window ((now, e) ∷ es) d seen h =
      let d1 = (observe rt now e d).0 in
      let s = stamp now e in
      let one = observe-window now e d seen h in
      let rest = run-window es d1 (seen ++ s ∷ []) one.1 in
      ground (arith, one, rest, append_assoc seen (s ∷ []) (stamped es))
