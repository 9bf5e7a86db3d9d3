-- ===== src/Llm/Router/Laws.antt =====
-- The order in which the router of internal/llm/router/router.go tries its providers.
use cloud_sre_agent.Prelude.{
  ◌≡◌, refl, sym, ap, ◌∙◌, inl, inr, List, [], ◌∷◌, ◌++◌, Option, none, some, Result, ok, err, Text,
  arith, Option-cases, Result-cases,
}
use mathlib.Core.List.{append-nil, append_assoc}
use cloud_sre_agent.Llm.{Request, Response}
use cloud_sre_agent.Llm.Router.{
  Provider, Attempt, failed, context_done, RouterError, stopped, all_failed, Router, try_providers,
  generate,
}

module _ {W : Type 0} (ctx_err : W → Option Text) (req : Request) where
  -- The providers are called one after another from the state `w`, the context is not done before
  -- any of them, each fails, and they leave the state `w'` and these failures.
  pub data Failed : List (Provider W) → W → List Attempt → W → Type 0 where
    nobody : {w : W} → Failed [] w [] w
    then :
        {p : Provider W} {ps : List (Provider W)} {w w1 w' : W} {e : Text} {es : List Attempt}
        → ctx_err w ≡ none
        → p.generate req w ≡ (err e, w1)
        → Failed ps w1 es w'
        → Failed (p ∷ ps) w (failed p.name e ∷ es) w'

  -- What `Generate` may return, given the errors collected before.
  pub data Routed (errs : List Attempt) (ps : List (Provider W)) (w : W)
      : Result RouterError Response → W → Type 0 where
    served :
        (earlier later : List (Provider W)) (p : Provider W) {es : List Attempt} {w1 w' : W}
        {resp : Response}
        → ps ≡ earlier ++ p ∷ later
        → Failed earlier w es w1
        → ctx_err w1 ≡ none
        → p.generate req w1 ≡ (ok resp, w')
        → Routed errs ps w (ok resp) w'
    cancelled :
        (earlier later : List (Provider W)) (p : Provider W) {es all : List Attempt} {w' : W}
        {e : Text}
        → ps ≡ earlier ++ p ∷ later
        → Failed earlier w es w'
        → ctx_err w' ≡ some e
        → all ≡ errs ++ (es ++ context_done p.name e ∷ [])
        → Routed errs ps w (err (stopped all)) w'
    exhausted :
        {es all : List Attempt} {w' : W}
        → Failed ps w es w'
        → all ≡ errs ++ es
        → Routed errs ps w (err (all_failed all)) w'

  -- A failure in front.
  Routed-cons :
      {errs : List Attempt} {p : Provider W} {ps : List (Provider W)} {w w1 w' : W} {e : Text}
      {r : Result RouterError Response}
      → ctx_err w ≡ none
      → p.generate req w ≡ (err e, w1)
      → Routed (errs ++ failed p.name e ∷ []) ps w1 r w'
      → Routed errs (p ∷ ps) w r w'
  Routed-cons {p} c g (served earlier later q split fs d ok_now) =
      served (p ∷ earlier) later q (ap (λ l. p ∷ l) split) (then c g fs) d ok_now
  Routed-cons {errs} {p} {e} c g (cancelled earlier later q split fs d same) =
      cancelled (p ∷ earlier) later q (ap (λ l. p ∷ l) split) (then c g fs) d
        (same ∙ append_assoc errs (failed p.name e ∷ []) _)
  Routed-cons {errs} {p} {e} c g (exhausted fs same) =
      exhausted (then c g fs) (same ∙ append_assoc errs (failed p.name e ∷ []) _)

  try_providers-Routed :
      (errs : List Attempt) (ps : List (Provider W)) (w : W)
      → let (r, w') = try_providers ctx_err errs ps req w in Routed errs ps w r w'
  unfolding try_providers
  try_providers-Routed errs [] w = exhausted nobody (sym (append-nil errs))
  try_providers-Routed errs (p ∷ ps) w = elim (Option-cases (ctx_err w)) [
    | inl live ↦ elim (Result-cases (p.generate req w).0) [
      | inl (resp, e) ↦
          rw (live, try_providers) (rw e (served [] ps p refl nobody live (ground arith)))
      | inr (x, e) ↦
          rw (live, try_providers)
            (rw e (
              Routed-cons live (ground arith)
                (try_providers-Routed (errs ++ failed p.name x ∷ []) ps (p.generate req w).1)))
    ]
    | inr (e, done) ↦ rw (done, try_providers) (cancelled [] ps p refl nobody done refl)
  ]

  -- `Generate` calls the providers in their order, each only while the context is not done and after
  -- all before it failed. It returns the first success; or the errors of all providers, in order; or,
  -- at a provider before which the context is done, the errors so far and the context's.
  pub generate-Routed :
      (r : Router W) (w : W)
      → let (result, w') = generate ctx_err r req w in Routed [] r.providers w result w'
  unfolding generate
  generate-Routed r w = try_providers-Routed [] r.providers w
