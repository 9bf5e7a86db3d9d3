-- ===== src/Detect/Laws/Sampling.antt =====
-- The evidence attached to an incident: the most severe events of the window.
use Prim.Native.Nat.{min}
use mathlib.Core.List.{Perm}
use mathlib.Core.List.Perm
use cloud_sre_agent.Prelude.{
  ◌≡◌, refl, sym, ap, ◌∙◌, Bool, true, inl, inr, List, [], ◌∷◌, ◌++◌, arith, length, drop, keep,
  All, take-append-drop, length-take, suc, Bool-cases,
}
use mathlib.Core.Path.{subst}
use cloud_sre_agent.Prelude.Int.{ltb_ℤ, leb_ℤ, eq_ℤ}
use cloud_sre_agent.Domain.{LogEvent}
use cloud_sre_agent.Domain.Levels.{Severity}
use cloud_sre_agent.Detect.Samples.{insert_event, sort_events, samples, max_samples}

-- Each event is at least as severe as every later one.
abbrev pub IsDescending : List LogEvent → Type 0
IsDescending [] = Unit
IsDescending (e ∷ es) = All (λ f. leb_ℤ f.severity e.severity ≡ true) es × IsDescending es

abbrev pub has_severity : Severity → LogEvent → Bool
has_severity s e = eq_ℤ e.severity s

insert_event-perm : (e : LogEvent) (es : List LogEvent) → Perm (insert_event e es) (e ∷ es)
unfolding insert_event
insert_event-perm e [] = Perm.refl (e ∷ [])
insert_event-perm e (f ∷ fs) = elim (Bool-cases (ltb_ℤ e.severity f.severity)) [
  | inl less ↦ rw less (Perm.trans (Perm.cons f (insert_event-perm e fs)) (Perm.swap e f fs))
  | inr not_less ↦ rw not_less (Perm.refl (e ∷ f ∷ fs))
]

sort_events-perm : (es : List LogEvent) → Perm (sort_events es) es
unfolding sort_events
sort_events-perm [] = Perm.refl []
sort_events-perm (e ∷ es) =
    Perm.trans (insert_event-perm e (sort_events es)) (Perm.cons e (sort_events-perm es))

All-insert_event :
    (P : LogEvent → Type 0) (e : LogEvent) (es : List LogEvent)
    → P e
    → All P es
    → All P (insert_event e es)
unfolding insert_event
All-insert_event P e [] p h = (p, tt)
All-insert_event P e (f ∷ fs) p (q, h) = elim (Bool-cases (ltb_ℤ e.severity f.severity)) [
  | inl less ↦ rw less (q, All-insert_event P e fs p h)
  | inr not_less ↦ rw not_less (p, (q, h))
]

-- What is at most `f` is at most anything that `f` is at most.
All-below :
    (f e : LogEvent) (fs : List LogEvent)
    → leb_ℤ f.severity e.severity ≡ true
    → All (λ g. leb_ℤ g.severity f.severity ≡ true) fs
    → All (λ g. leb_ℤ g.severity e.severity ≡ true) fs
All-below f e [] h all = tt
All-below f e (g ∷ gs) h (p, all) = (ground arith, All-below f e gs h all)

insert_event-IsDescending :
    (e : LogEvent) (es : List LogEvent) → IsDescending es → IsDescending (insert_event e es)
unfolding insert_event
insert_event-IsDescending e [] h = (tt, tt)
insert_event-IsDescending e (f ∷ fs) (below, h) = elim (Bool-cases (ltb_ℤ e.severity f.severity)) [
  | inl less ↦ rw less (
    All-insert_event (λ g. leb_ℤ g.severity f.severity ≡ true) e fs (ground arith) below,
    insert_event-IsDescending e fs h,
  )
  | inr not_less ↦
      let above : leb_ℤ f.severity e.severity ≡ true = ground arith in
      rw not_less ((above, All-below f e fs above below), (below, h))
]

sort_events-IsDescending : (es : List LogEvent) → IsDescending (sort_events es)
unfolding sort_events
sort_events-IsDescending [] = tt
sort_events-IsDescending (e ∷ es) =
    insert_event-IsDescending e (sort_events es) (sort_events-IsDescending es)

keep-insert_event :
    (s : Severity) (e : LogEvent) (es : List LogEvent)
    → keep (has_severity s) (insert_event e es) ≡ keep (has_severity s) (e ∷ es)
unfolding insert_event keep
keep-insert_event s e [] = refl
keep-insert_event s e (f ∷ fs) = ground (arith, keep-insert_event s e fs)

-- The sort is stable: events of one severity keep their order.
sort_events_stable :
    (s : Severity) (es : List LogEvent)
    → keep (has_severity s) (sort_events es) ≡ keep (has_severity s) es
unfolding sort_events keep
sort_events_stable s [] = refl
sort_events_stable s (e ∷ es) =
    ground (arith, keep-insert_event s e (sort_events es), sort_events_stable s es)

length-insert_event :
    (e : LogEvent) (es : List LogEvent) → length (insert_event e es) ≡ suc (length es)
unfolding insert_event
length-insert_event e [] = refl
length-insert_event e (f ∷ fs) = ground (arith, length-insert_event e fs)

length-sort_events : (es : List LogEvent) → length (sort_events es) ≡ length es
unfolding sort_events
length-sort_events [] = refl
length-sort_events (e ∷ es) =
    length-insert_event e (sort_events es) ∙ ap suc (length-sort_events es)

-- The samples of a window are five of its events, or all when there are fewer. With the events
-- left out they make up the window; each sample is at least as severe as every later sample and
-- every event left out, and events of one severity come in the order of the window.
pub samples_best :
    (evs : List LogEvent)
    → (left_out : List LogEvent) × Perm (samples evs ++ left_out) evs
      × IsDescending (samples evs ++ left_out)
      × ((s : Severity)
          → keep (has_severity s) (samples evs ++ left_out) ≡ keep (has_severity s) evs)
      × (length (samples evs) ≡ min 5 (length evs))
unfolding samples
samples_best evs =
    let whole = sym (take-append-drop max_samples (sort_events evs)) in
    (
      drop max_samples (sort_events evs),
      subst (λ es. Perm es evs) whole (sort_events-perm evs),
      subst IsDescending whole (sort_events-IsDescending evs),
      λ s.
          subst (λ es. keep (has_severity s) es ≡ keep (has_severity s) evs) whole
            (sort_events_stable s evs),
      length-take max_samples (sort_events evs) ∙ ap (min 5) (length-sort_events evs),
    )
