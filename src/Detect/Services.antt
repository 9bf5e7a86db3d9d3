-- ===== src/Detect/Services.antt =====
-- internal/detect/detect.go: `affectedServices`. The keys of the map `seen` are a list without
-- repetitions; `sort.Strings` is a sort by insertion, whose result does not depend on their order.
use cloud_sre_agent.Prelude.{
  Bool, false, ◌||◌, List, [], ◌∷◌, Text, text_eq, text_leb, is_empty, if◌then◌else◌,
}
use cloud_sre_agent.Domain.{LogEvent}

unfoldable pub mem_text : Text → List Text → Bool
mem_text s [] = false
mem_text s (t ∷ ts) = text_eq s t || mem_text s ts

-- The keys of `seen` after the loop.
unfoldable pub seen_sources : List LogEvent → List Text
unfolding mem_text
seen_sources [] = []
seen_sources (ev ∷ evs) =
    let rest = seen_sources evs in
    if is_empty ev.source then rest else if mem_text ev.source rest then rest else ev.source ∷ rest

unfoldable pub insert_text : Text → List Text → List Text
insert_text s [] = s ∷ []
insert_text s (t ∷ ts) = if text_leb s t then s ∷ t ∷ ts else t ∷ insert_text s ts

unfoldable pub sort_texts : List Text → List Text
unfolding insert_text
sort_texts [] = []
sort_texts (s ∷ ss) = insert_text s (sort_texts ss)

unfoldable pub affected_services : List LogEvent → List Text
unfolding seen_sources sort_texts
affected_services evs = sort_texts (seen_sources evs)
