-- ===== src/Detect/Window.antt =====
-- internal/detect/detect.go: the sliding window, `evict` and `counts`.
use cloud_sre_agent.Prelude.{ℕ, ◌-◌, List, Bool, leb, keep, count_if}
use cloud_sre_agent.Prelude.Int.{leb_ℤ}
use cloud_sre_agent.Domain.{LogEvent, Time}
use cloud_sre_agent.Domain.Levels.{severity_error, severity_critical}

-- `!ev.Timestamp.Before(cutoff)`; a cutoff before the zero time admits what the cutoff 0 admits.
unfoldable pub in_window : ℕ → Time → LogEvent → Bool
in_window window now ev = leb (now - window) ev.timestamp

-- The loop of `evict`, over the events.
unfoldable pub evict_events : ℕ → Time → List LogEvent → List LogEvent
unfolding in_window
evict_events window now = keep (in_window window now)

unfoldable pub is_error : LogEvent → Bool
is_error ev = leb_ℤ severity_error ev.severity

unfoldable pub is_critical : LogEvent → Bool
is_critical ev = leb_ℤ severity_critical ev.severity

-- The two results of `counts`.
unfoldable pub error_count : List LogEvent → ℕ
error_count = count_if is_error

unfoldable pub critical_count : List LogEvent → ℕ
critical_count = count_if is_critical
