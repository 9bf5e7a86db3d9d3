-- ===== src/Detect/Laws/Affected.antt =====
-- The services named by an incident.
use cloud_sre_agent.Prelude.{
  ◌≡◌, refl, ◌∙◌, Bool, true, false, not, ◌&&◌, ◌||◌, inl, inr, List, [], ◌∷◌, arith, Text, text_eq,
  text_eq_iff, text_leb, is_empty, All, Bool-cases,
}
use cloud_sre_agent.Domain.{LogEvent}
use cloud_sre_agent.Detect.Services.{
  mem_text, seen_sources, insert_text, sort_texts, affected_services,
}

pub text_leb_antisym : (s t : Text) → text_leb s t ≡ true → text_leb t s ≡ true → s ≡ t
unfolding text_leb
text_leb_antisym [] [] h k = refl
text_leb_antisym [] (b ∷ t) h k = cc
text_leb_antisym (a ∷ s) [] h k = cc
text_leb_antisym (a ∷ s) (b ∷ t) h k = ground (arith, text_leb_antisym s t)

pub text_leb_total : (s t : Text) → text_leb s t ≡ false → text_leb t s ≡ true
unfolding text_leb
text_leb_total [] t h = cc
text_leb_total (a ∷ s) [] h = refl
text_leb_total (a ∷ s) (b ∷ t) h = ground (arith, text_leb_total s t)

pub text_leb_trans :
    (s t u : Text) → text_leb s t ≡ true → text_leb t u ≡ true → text_leb s u ≡ true
unfolding text_leb
text_leb_trans [] t u h k = refl
text_leb_trans (a ∷ s) [] u h k = cc
text_leb_trans (a ∷ s) (b ∷ t) [] h k = cc
text_leb_trans (a ∷ s) (b ∷ t) (c ∷ u) h k = ground (arith, text_leb_trans s t u)

-- Strictly before, in the order of bytes.
abbrev pub ◌≺◌ : Text → Text → Type 0
◌≺◌ s t = (text_leb s t ≡ true) × (text_eq s t ≡ false)

abbrev pub IsAscending : List Text → Type 0
IsAscending [] = Unit
IsAscending (s ∷ ss) = All (λ t. ◌≺◌ s t) ss × IsAscending ss

mem-insert_text :
    (x s : Text) (ss : List Text) → mem_text x (insert_text s ss) ≡ (text_eq x s || mem_text x ss)
unfolding insert_text mem_text
mem-insert_text x s [] = refl
mem-insert_text x s (t ∷ ts) = ground (arith, mem-insert_text x s ts)

mem-sort_texts : (x : Text) (ss : List Text) → mem_text x (sort_texts ss) ≡ mem_text x ss
unfolding sort_texts mem_text
mem-sort_texts x [] = refl
mem-sort_texts x (s ∷ ss) = ground (arith, mem-insert_text x s (sort_texts ss), mem-sort_texts x ss)

-- Some event names the service `x` as its source.
unfoldable pub names_source : Text → List LogEvent → Bool
names_source x [] = false
names_source x (e ∷ es) = text_eq x e.source || names_source x es

mem-seen_sources :
    (x : Text) (evs : List LogEvent)
    → mem_text x (seen_sources evs) ≡ (not (is_empty x) && names_source x evs)
unfolding seen_sources names_source mem_text
mem-seen_sources x [] = ground arith
mem-seen_sources x (e ∷ es) = ground (arith, text_eq_iff x e.source, mem-seen_sources x es)

pub All-insert_text :
    (P : Text → Type 0) (s : Text) (ss : List Text) → P s → All P ss → All P (insert_text s ss)
unfolding insert_text
All-insert_text P s [] p h = (p, tt)
All-insert_text P s (t ∷ ts) p (q, h) = elim (Bool-cases (text_leb s t)) [
  | inl before ↦ rw before (p, (q, h))
  | inr after ↦ rw after (q, All-insert_text P s ts p h)
]

All-above : (s t : Text) (ts : List Text) → ◌≺◌ s t → All (λ u. ◌≺◌ t u) ts → All (λ u. ◌≺◌ s u) ts
All-above s t [] h all = tt
All-above s t (u ∷ us) h (p, all) = (
  (
    text_leb_trans s t u h.0 p.0,
    ground (arith, text_eq_iff s u, text_eq_iff s t, text_leb_antisym s t),
  ),
  All-above s t us h all,
)

insert_text-IsAscending :
    (s : Text) (ss : List Text)
    → mem_text s ss ≡ false
    → IsAscending ss
    → IsAscending (insert_text s ss)
unfolding insert_text mem_text
insert_text-IsAscending s [] new h = (tt, tt)
insert_text-IsAscending s (t ∷ ts) new (above, h) = elim (Bool-cases (text_leb s t)) [
  | inl before ↦
      let first : ◌≺◌ s t = (before, ground arith) in
      rw before ((first, All-above s t ts first above), (above, h))
  | inr after ↦
      let last : ◌≺◌ t s =
        (text_leb_total s t after, ground (arith, text_eq_iff s t, text_eq_iff t s)) in
      rw after (
        All-insert_text (λ u. ◌≺◌ t u) s ts last above,
        insert_text-IsAscending s ts (ground arith) h,
      )
]

abbrev IsDistinct : List Text → Type 0
IsDistinct [] = Unit
IsDistinct (s ∷ ss) = (mem_text s ss ≡ false) × IsDistinct ss

seen_sources-IsDistinct : (evs : List LogEvent) → IsDistinct (seen_sources evs)
unfolding seen_sources
seen_sources-IsDistinct [] = tt
seen_sources-IsDistinct (e ∷ es) = ground (arith, seen_sources-IsDistinct es)

sort_texts-IsAscending : (ss : List Text) → IsDistinct ss → IsAscending (sort_texts ss)
unfolding sort_texts
sort_texts-IsAscending [] h = tt
sort_texts-IsAscending (s ∷ ss) (new, h) =
    insert_text-IsAscending s (sort_texts ss) (mem-sort_texts s ss ∙ new)
      (sort_texts-IsAscending ss h)

-- The affected services are in strictly ascending order of their bytes, so none is named twice, and
-- they are exactly the sources of the events in the window that are not empty.
pub affected_services_sound :
    (evs : List LogEvent)
    → IsAscending (affected_services evs)
      × ((x : Text) → mem_text x (affected_services evs) ≡ (not (is_empty x) && names_source x evs))
unfolding affected_services
affected_services_sound evs = (
  sort_texts-IsAscending (seen_sources evs) (seen_sources-IsDistinct evs),
  λ x. mem-sort_texts x (seen_sources evs) ∙ mem-seen_sources x evs,
)
