-- ===== src/Llm/Router.antt =====
-- internal/llm/router/router.go: the provider chain. A provider acts on a state `W` of the outside
-- world, from which the context's error is read too.
pub mod Laws
use cloud_sre_agent.Prelude.{
  ℕ, zero, suc, ◌+◌, List, [], ◌∷◌, ◌++◌, map, Option, none, some, Result, ok, err, Text, codes,
  join,
}
use cloud_sre_agent.Llm.{Request, Response}

-- The port `llm.Provider`.
pub record Provider (W : Type 0) : Type 0 where
  pub name : Text
  pub generate : Request → W → Result Text Response × W

-- What `errors.Join` collects, in order.
pub data Attempt : Type 0 where
  failed : Text → Text → Attempt
  context_done : Text → Text → Attempt

pub data RouterError : Type 0 where
  primary_required : RouterError
  fallback_nil : ℕ → RouterError
  stopped : List Attempt → RouterError
  all_failed : List Attempt → RouterError

pub record Router (W : Type 0) : Type 0 where
  pub providers : List (Provider W)

module _ {W : Type 0} where
  -- The loop of `New` over the fallbacks.
  unfoldable pub add_fallbacks :
      ℕ → List (Provider W) → List (Option (Provider W)) → Result RouterError (Router W)
  add_fallbacks i providers [] = ok (record { providers = providers })
  add_fallbacks i providers (none ∷ fbs) = err (fallback_nil i)
  add_fallbacks i providers (some fb ∷ fbs) = add_fallbacks (i + 1) (providers ++ fb ∷ []) fbs

  -- `New`
  unfoldable pub new :
      Option (Provider W) → List (Option (Provider W)) → Result RouterError (Router W)
  unfolding add_fallbacks
  new none fbs = err primary_required
  new (some primary) fbs = add_fallbacks 0 (primary ∷ []) fbs

  -- `Name`
  unfoldable pub name : Router W → Text
  name r =
      codes "router["
      ++ (join (codes "->") (map (λ (p : Provider W). p.name) r.providers) ++ codes "]")

  -- The loop of `Generate`; `ctx_err` is `ctx.Err()`.
  module _ (ctx_err : W → Option Text) where
    unfoldable pub try_providers :
        List Attempt → List (Provider W) → Request → W → Result RouterError Response × W
    try_providers errs [] req w = (err (all_failed errs), w)
    try_providers errs (p ∷ ps) req w = elim (ctx_err w) [
      | some e ↦ (err (stopped (errs ++ context_done p.name e ∷ [])), w)
      | none ↦
          let (r, w') = p.generate req w in
          elim r [
            | ok resp ↦ (ok resp, w')
            | err e ↦ try_providers (errs ++ failed p.name e ∷ []) ps req w'
          ]
    ]

    -- `Generate`
    unfoldable pub generate : Router W → Request → W → Result RouterError Response × W
    unfolding try_providers
    generate r req w = try_providers [] r.providers req w
