-- ===== src/Detect/Laws/Identifiers.antt =====
-- The identifiers of incidents.
use cloud_sre_agent.Prelude.{
  ℕ, zero, suc, ◌+◌, ◌%◌, ◌^◌, ◌<◌, ◌≡◌, ◌⊎◌, inl, inr, sym, ap, ◌∙◌, List, [], ◌∷◌, none, some,
  arith, length, get_elem?, Option-cases, drop, Option-cases,
}
use mathlib.Core.Option.{some-injective}
use cloud_sre_agent.Prelude.Decimal.{format_int-injective}
use cloud_sre_agent.Prelude.Runtime.{Runtime}
use cloud_sre_agent.Domain.{LogEvent, Time, Incident}
use cloud_sre_agent.Detect.{Detector, Config, new}
use cloud_sre_agent.Detect.Build.{incident_id, build_incident}
use cloud_sre_agent.Detect.Observe.{record_event, fire, evaluate, observe, run}

incident_id-injective : (n m : ℕ) → incident_id n ≡ incident_id m → n ≡ m
unfolding incident_id
incident_id-injective n m e = format_int-injective n m (ap (drop 9) e)

module _ (rt : Runtime) where
  -- One observation either emits nothing and leaves the counter, or advances it and emits an
  -- incident that is named by it.
  observe-seq :
      (now : Time) (e : LogEvent) (d : Detector rt)
      → let (d', found) = observe rt now e d in
        ((found ≡ none) × (d'.seq ≡ d.seq))
        ⊎ ((inc : Incident rt) × (found ≡ some inc)
            × (d'.seq ≡ (d.seq + 1) % 2 ^ 64)
            × (inc.id ≡ incident_id ((d.seq + 1) % 2 ^ 64)))
  unfolding observe evaluate fire build_incident record_event
  observe-seq now e d = elim (Option-cases (observe rt now e d).1) [
    | inl none_found ↦ inl (none_found, ground arith)
    | inr (inc, found) ↦ inr (inc, found, ground arith, ground arith)
  ]

  -- The step of `run-id` at an event that emits `first`.
  emitted-id :
      (e : LogEvent) (es : List (Time × LogEvent)) (d d' : Detector rt) (i : ℕ)
      (inc first : Incident rt)
      → d'.seq ≡ (d.seq + 1) % 2 ^ 64
      → first.id ≡ incident_id ((d.seq + 1) % 2 ^ 64)
      → ((j : ℕ) (found : Incident rt)
          → d'.seq + length es < 2 ^ 64
          → get_elem? (run rt es d').1 j ≡ some found
          → (found.id ≡ incident_id (d'.seq + j + 1)) × (j < length es))
      → d.seq + suc (length es) < 2 ^ 64
      → get_elem? (first ∷ (run rt es d').1) i ≡ some inc
      → (inc.id ≡ incident_id (d.seq + i + 1)) × (i < suc (length es))
  emitted-id e es d d' zero inc first same named ih h g = (
    ap (λ (x : Incident rt). x.id) (sym (some-injective _ _ g))
        ∙ (named ∙ ap incident_id (omega arith)),
    omega arith,
  )
  emitted-id e es d d' (suc i) inc first same named ih h g =
      let (at, before) = ih i inc (omega arith) g in
      (at ∙ ap incident_id (omega arith), omega arith)

  run-id :
      (es : List (Time × LogEvent)) (d : Detector rt) (i : ℕ) (inc : Incident rt)
      → d.seq + length es < 2 ^ 64
      → get_elem? (run rt es d).1 i ≡ some inc
      → (inc.id ≡ incident_id (d.seq + i + 1)) × (i < length es)
  unfolding run
  run-id [] d i inc h g = ground arith
  run-id ((now, e) ∷ es) d i inc h g =
      let d' = (observe rt now e d).0 in
      elim (observe-seq now e d) [
        | inl (found, same) ↦
            let (named, before) = run-id es d' i inc (omega arith) (rw found at g) in
            (named ∙ ap incident_id (omega arith), omega arith)
        | inr (new_inc, found, same, named) ↦
            emitted-id e es d d' i inc new_inc same named (run-id es d') h (rw found at g)
      ]

  -- The identifier at a place is that of the counter's value there, so no two places share one: the
  -- incidents of a detector that `New` made have distinct identifiers, over fewer than 2^64 events.
  pub run-new-id_unique :
      (cfg : Config rt) (es : List (Time × LogEvent)) (i j : ℕ) (a b : Incident rt)
      → length es < 2 ^ 64
      → get_elem? (run rt es (new rt cfg)).1 i ≡ some a
      → get_elem? (run rt es (new rt cfg)).1 j ≡ some b
      → a.id ≡ b.id
      → i ≡ j
  unfolding new
  run-new-id_unique cfg es i j a b h p q same =
      let (at_i, _) = run-id es (new rt cfg) i a (omega arith) p in
      let (at_j, _) = run-id es (new rt cfg) j b (omega arith) q in
      let numbers = incident_id-injective _ _ (sym at_i ∙ (same ∙ at_j)) in omega arith
