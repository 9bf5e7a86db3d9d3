-- ===== src/Detect/Observe.antt =====
-- internal/detect/detect.go: `Observe`.
use Prim.Native.Nat.{min}
use cloud_sre_agent.Prelude.{
  ℕ, ◌-◌, ◌^◌, Bool, not, ◌&&◌, List, [], ◌∷◌, ◌++◌, length, ltb, leb, Option, none, some,
  if◌then◌else◌,
}
use cloud_sre_agent.Prelude.Runtime.{Runtime}
use cloud_sre_agent.Domain.{LogEvent, Incident, Time, is_zero}
use cloud_sre_agent.Detect.{Detector}
use cloud_sre_agent.Detect.Window.{evict_events, error_count, critical_count}
use cloud_sre_agent.Detect.Build.{build_incident}

-- An event with a zero timestamp is stamped with the wall clock's time.
unfoldable pub stamp : Time → LogEvent → LogEvent
stamp now e = if is_zero e.timestamp then record e { timestamp = now } else e

-- `a.Sub(b)` for `b` not after `a`: a duration is an int64 and saturates.
unfoldable pub time_sub : Time → Time → ℕ
time_sub a b = min (a - b) (2 ^ 63 - 1)

module _ (rt : Runtime) where
  -- The event is recorded, the window's clock moves forward, and old events leave.
  unfoldable pub record_event : LogEvent → Detector rt → Detector rt
  record_event e d =
      let now = if ltb d.window_now e.timestamp then e.timestamp else d.window_now in
      record d { events = evict_events d.cfg.window now (d.events ++ e ∷ []); window_now = now }

  unfoldable pub rate_of : List LogEvent → rt.Float
  rate_of evs = rt.divide (rt.of_int (error_count evs)) (rt.of_int (length evs))

  unfoldable pub crit_trigger : Detector rt → Bool
  crit_trigger d = ltb 0 d.cfg.critical_count && leb d.cfg.critical_count (critical_count d.events)

  unfoldable pub rate_trigger : Detector rt → Bool
  unfolding rate_of
  rate_trigger d = rt.float_leb d.cfg.error_rate_threshold (rate_of d.events)

  -- The cooldown forbids an incident.
  unfoldable pub is_cooling : Detector rt → Bool
  is_cooling d =
      not (is_zero d.last_fired_at) && ltb (time_sub d.window_now d.last_fired_at) d.cfg.cooldown

  -- The incident is emitted.
  unfoldable pub fire : Detector rt → record { detector : Detector rt; incident : Incident rt }
  unfolding rate_of build_incident
  fire d =
      build_incident rt (record d { last_fired_at = d.window_now }) d.window_now
        (error_count d.events) (critical_count d.events) (rate_of d.events) (crit_trigger d)

  -- The thresholds and the cooldown, over the window after eviction.
  unfoldable pub evaluate : Detector rt → Detector rt × Option (Incident rt)
  evaluate d =
      if ltb (length d.events) d.cfg.min_events
      then (d, none)
      else if not (crit_trigger d) && not (rate_trigger d)
      then (d, none)
      else if is_cooling d
      then (d, none)
      else ((fire d).detector, some (fire d).incident)

  unfoldable pub observe : Time → LogEvent → Detector rt → Detector rt × Option (Incident rt)
  unfolding record_event evaluate
  observe now e d = evaluate (record_event (stamp now e) d)

  abbrev pub emit : Option (Incident rt) → List (Incident rt) → List (Incident rt)
  emit none later = later
  emit (some inc) later = inc ∷ later

  -- A detector over a list of events, each with the wall clock's time, and the incidents emitted.
  unfoldable pub run : List (Time × LogEvent) → Detector rt → Detector rt × List (Incident rt)
  run [] d = (d, [])
  run ((now, e) ∷ es) d =
      let (d', found) = observe now e d in let (d'', later) = run es d' in (d'', emit found later)
