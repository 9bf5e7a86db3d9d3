-- ===== src/Detect.antt =====
-- internal/detect/detect.go: the threshold detector. `observe` takes the wall clock's time, which
-- the source reads with `time.Now`. A negative setting of `Config` acts as 0, since each test of it
-- is `> 0`, so settings are natural numbers (durations in nanoseconds).
pub mod Window
pub mod Services
pub mod Samples
pub mod Build
pub mod Observe
pub mod Laws
use cloud_sre_agent.Prelude.{ℕ, ◌*◌, ◌^◌, List, [], ltb, if◌then◌else◌}
use cloud_sre_agent.Prelude.Runtime.{Runtime}
use cloud_sre_agent.Domain.{LogEvent, Time}

abbrev pub second : ℕ
second = 1_000_000_000

module _ (rt : Runtime) where
  pub record Config : Type 0 where
    pub window : ℕ
    pub min_events : ℕ
    pub error_rate_threshold : rt.Float
    pub critical_count : ℕ
    pub cooldown : ℕ

  unfoldable pub default_config : Config
  default_config = record {
    window = 60 * second;
    min_events = 5;
    error_rate_threshold = rt.decimal 5 1;
    critical_count = 3;
    cooldown = 60 * second;
  }

  pub record Detector : Type 0 where
    pub cfg : Config
    pub events : List LogEvent
    pub last_fired_at : Time
    pub window_now : Time
    pub seq : ℕ  -- uint64

  -- `New`
  unfoldable pub new : Config → Detector
  unfolding default_config
  new cfg =
      let d = default_config in
      record {
        cfg = record {
          window = if ltb 0 cfg.window then cfg.window else d.window;
          min_events = if ltb 0 cfg.min_events then cfg.min_events else d.min_events;
          error_rate_threshold =
              if rt.float_ltb (rt.of_int 0) cfg.error_rate_threshold
              then cfg.error_rate_threshold
              else d.error_rate_threshold;
          critical_count =
              if ltb 0 cfg.critical_count then cfg.critical_count else d.critical_count;
          cooldown = if ltb 0 cfg.cooldown then cfg.cooldown else d.cooldown;
        };
        events = [];
        last_fired_at = 0;
        window_now = 0;
        seq = 0;
      }
