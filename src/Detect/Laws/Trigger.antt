-- ===== src/Detect/Laws/Trigger.antt =====
-- When the detector fires.
use cloud_sre_agent.Prelude.{
  ◌+◌, ◌^◌, ◌≤◌, ◌<◌, ◌≡◌, ◌≢◌, ◌↔◌, ◌⊎◌, true, false, length, arith, none,
}
use cloud_sre_agent.Prelude.Runtime.{Runtime}
use cloud_sre_agent.Detect.{Detector}
use cloud_sre_agent.Detect.Window.{critical_count}
use cloud_sre_agent.Detect.Observe.{
  rate_of, crit_trigger, rate_trigger, is_cooling, time_sub, evaluate,
}

module _ (rt : Runtime) where
  -- The conditions under which an incident is due.
  pub record IsDue (d : Detector rt) : Type 0 where
    pub enough : d.cfg.min_events ≤ length d.events
    pub crossed :
        ((0 < d.cfg.critical_count) × (d.cfg.critical_count ≤ critical_count d.events))
        ⊎ (rt.float_leb d.cfg.error_rate_threshold (rate_of rt d.events) ≡ true)
    pub cooled : (d.last_fired_at ≡ 0) ⊎ (d.last_fired_at + d.cfg.cooldown ≤ d.window_now)

  crit_trigger_iff :
      (d : Detector rt)
      → (crit_trigger rt d ≡ true)
        ↔ ((0 < d.cfg.critical_count) × (d.cfg.critical_count ≤ critical_count d.events))
  unfolding crit_trigger
  crit_trigger_iff d = ground arith

  pub is_cooling_iff :
      (d : Detector rt)
      → d.last_fired_at ≤ d.window_now
      → d.cfg.cooldown < 2 ^ 63
      → (is_cooling rt d ≡ false)
        ↔ ((d.last_fired_at ≡ 0) ⊎ (d.last_fired_at + d.cfg.cooldown ≤ d.window_now))
  unfolding is_cooling time_sub
  is_cooling_iff d h k = ground arith

  -- With the last incident not after the window's clock and a cooldown that fits an int64,
  -- `evaluate` emits an incident exactly when the window holds enough events, the critical count
  -- or the error rate crosses its threshold, and no incident was emitted less than the cooldown
  -- before.
  pub evaluate-fires_iff :
      (d : Detector rt)
      → d.last_fired_at ≤ d.window_now
      → d.cfg.cooldown < 2 ^ 63
      → ((evaluate rt d).1 ≢ none) ↔ IsDue d
  unfolding evaluate rate_trigger
  evaluate-fires_iff d h k =
      let crit = crit_trigger_iff d in
      let cool = is_cooling_iff d h k in
      (
        λ fires. record {
          enough = ground arith;
          crossed = ground (arith, crit);
          cooled = ground (arith, cool);
        },
        λ due. ground (arith, crit, cool, due.enough, due.crossed, due.cooled),
      )
