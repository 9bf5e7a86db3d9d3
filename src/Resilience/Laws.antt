-- ===== src/Resilience/Laws.antt =====
-- What internal/resilience/resilience.go hands to failsafe-go.
use cloud_sre_agent.Prelude.{
  ◌≡◌, ◌<◌, refl, Bool, true, false, ◌&&◌, List, [], ◌∷◌, map, Option, none, some, arith, ltb,
  if◌then◌else◌, keep, All,
}
use cloud_sre_agent.Prelude.Int.{leb_ℤ}
use cloud_sre_agent.Prelude.Runtime.{Runtime}
use cloud_sre_agent.Resilience.{
  Duration, is_positive, BreakerOption, with_failure_threshold, with_success_threshold,
  with_breaker_delay, RetryConfig, Config, RetryOption, with_max_retries, with_backoff_factor,
  with_delay, with_jitter_factor, with_max_duration, Policy, retry_policy, breaker_policy,
  limiter_policy, timeout_policy, new_retry, new_circuit_breaker, new_rate_limiter, new_timeout,
  non_nil, policies,
}

abbrev pub IsPositive : Duration → Type 0
IsPositive d = is_positive d ≡ true

-- Which kind a policy is, outermost first.
pub data Layer : Type 0 where
  limiter_layer breaker_layer retry_layer timeout_layer : Layer

module _ (rt : Runtime) where
  abbrev pub layer : Policy rt → Layer
  layer (limiter_policy n d w) = limiter_layer
  layer (breaker_policy os) = breaker_layer
  layer (retry_policy os) = retry_layer
  layer (timeout_policy d) = timeout_layer

  -- Which layers a configuration asks for and configures.
  abbrev pub is_active : Config rt → Layer → Bool
  is_active c limiter_layer =
      c.rate_limiter.enabled
      && ltb 0 c.rate_limiter.max_executions
      && is_positive c.rate_limiter.period
  is_active c breaker_layer = c.circuit_breaker.enabled
  is_active c retry_layer = c.retry.enabled
  is_active c timeout_layer = c.timeout.enabled && is_positive c.timeout.timeout

  limiter-layer :
      (c : Config rt) (ps : List (Option (Policy rt)))
      → map layer (non_nil rt (new_rate_limiter rt c.rate_limiter ∷ ps)) ≡ (
          if is_active c limiter_layer
          then limiter_layer ∷ map layer (non_nil rt ps)
          else map layer (non_nil rt ps))
  unfolding new_rate_limiter non_nil
  limiter-layer c ps = ground arith

  breaker-layer :
      (c : Config rt) (ps : List (Option (Policy rt)))
      → map layer (non_nil rt (new_circuit_breaker rt c.circuit_breaker ∷ ps)) ≡ (
          if is_active c breaker_layer
          then breaker_layer ∷ map layer (non_nil rt ps)
          else map layer (non_nil rt ps))
  unfolding new_circuit_breaker non_nil
  breaker-layer c ps = ground arith

  retry-layer :
      (c : Config rt) (ps : List (Option (Policy rt)))
      → map layer (non_nil rt (new_retry rt c.retry ∷ ps)) ≡ (
          if is_active c retry_layer
          then retry_layer ∷ map layer (non_nil rt ps)
          else map layer (non_nil rt ps))
  unfolding new_retry non_nil
  retry-layer c ps = ground arith

  timeout-layer :
      (c : Config rt) (ps : List (Option (Policy rt)))
      → map layer (non_nil rt (new_timeout rt c.timeout ∷ ps)) ≡ (
          if is_active c timeout_layer
          then timeout_layer ∷ map layer (non_nil rt ps)
          else map layer (non_nil rt ps))
  unfolding new_timeout non_nil
  timeout-layer c ps = ground arith

  -- The stack holds the layers that the configuration asks for and configures, each once, in the
  -- order rate limiter, circuit breaker, retry, timeout.
  pub policies-layers :
      (c : Config rt)
      → map layer (policies rt c)
        ≡ keep (is_active c) (limiter_layer ∷ breaker_layer ∷ retry_layer ∷ timeout_layer ∷ [])
  unfolding policies non_nil keep
  policies-layers c = rw (limiter-layer, breaker-layer, retry-layer, timeout-layer) refl

  -- The options of a retry configured so: the number of retries as it is configured, positive delays,
  -- the first at most the greatest, a backoff factor that is not at most 1, and a positive jitter.
  abbrev pub IsSaneRetry : RetryConfig rt → RetryOption rt → Type 0
  IsSaneRetry c (with_max_retries n) = n ≡ c.max_retries
  IsSaneRetry c (with_backoff_factor d m f) =
      (d ≡ c.initial_delay)
      × (m ≡ c.max_delay)
      × IsPositive d
      × (leb_ℤ d m ≡ true)
      × (rt.float_leb f (rt.of_int 1) ≡ false)
  IsSaneRetry c (with_delay d) = (d ≡ c.initial_delay) × IsPositive d
  IsSaneRetry c (with_jitter_factor f) =
      (f ≡ c.jitter_factor) × (rt.float_ltb (rt.of_int 0) f ≡ true)
  IsSaneRetry c (with_max_duration d) = (d ≡ c.max_duration) × IsPositive d

  abbrev pub IsSaneBreaker : BreakerOption → Type 0
  IsSaneBreaker (with_failure_threshold n) = 0 < n
  IsSaneBreaker (with_success_threshold n) = 0 < n
  IsSaneBreaker (with_breaker_delay d) = IsPositive d

  abbrev pub IsSane : Config rt → Policy rt → Type 0
  IsSane c (retry_policy os) = All (IsSaneRetry c.retry) os
  IsSane c (breaker_policy os) = All IsSaneBreaker os
  IsSane c (limiter_policy n d none) = (0 < n) × IsPositive d
  IsSane c (limiter_policy n d (some w)) = (0 < n) × IsPositive d × IsPositive w
  IsSane c (timeout_policy d) = IsPositive d

  abbrev IsSaneOption : Config rt → Option (Policy rt) → Type 0
  IsSaneOption c none = Unit
  IsSaneOption c (some p) = IsSane c p
