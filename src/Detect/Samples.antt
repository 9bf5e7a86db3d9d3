-- ===== src/Detect/Samples.antt =====
-- internal/detect/detect.go: `samples`. `sort.SliceStable` by falling severity is a stable sort by
-- insertion: an event goes before those that are less severe, and before equals that came later.
use cloud_sre_agent.Prelude.{ℕ, List, [], ◌∷◌, take, if◌then◌else◌}
use cloud_sre_agent.Prelude.Int.{ltb_ℤ}
use cloud_sre_agent.Domain.{LogEvent}

abbrev pub max_samples : ℕ
max_samples = 5

unfoldable pub insert_event : LogEvent → List LogEvent → List LogEvent
insert_event e [] = e ∷ []
insert_event e (f ∷ fs) = if ltb_ℤ e.severity f.severity then f ∷ insert_event e fs else e ∷ f ∷ fs

unfoldable pub sort_events : List LogEvent → List LogEvent
unfolding insert_event
sort_events [] = []
sort_events (e ∷ es) = insert_event e (sort_events es)

-- The slice is cut only when it is longer, which `take` does by itself.
unfoldable pub samples : List LogEvent → List LogEvent
unfolding sort_events
samples evs = take max_samples (sort_events evs)
