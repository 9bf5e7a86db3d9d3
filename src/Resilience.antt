-- ===== src/Resilience.antt =====
-- internal/resilience/resilience.go: the policies built from the configuration. A policy of
-- failsafe-go is modelled by what the package hands to its builder; durations may be negative. How
-- failsafe-go runs a function under policies is not modelled.
pub mod Laws
use cloud_sre_agent.Prelude.{
  ℕ, ◌*◌, Bool, true, false, not, ◌&&◌, ◌||◌, List, [], ◌∷◌, ◌++◌, Option, none, some, ltb, ◌==◌,
  if◌then◌else◌,
}
use cloud_sre_agent.Prelude.Int.{ℤ, pos, ltb_ℤ, leb_ℤ}
use cloud_sre_agent.Prelude.Runtime.{Runtime}

abbrev pub Duration : Type 0
Duration = ℤ

abbrev pub is_positive : Duration → Bool
is_positive d = ltb_ℤ (pos 0) d

abbrev pub millisecond : ℕ
millisecond = 1_000_000

pub record CircuitBreakerConfig : Type 0 where
  pub enabled : Bool
  pub failure_threshold : ℕ
  pub success_threshold : ℕ
  pub delay : Duration

pub record RateLimiterConfig : Type 0 where
  pub enabled : Bool
  pub max_executions : ℕ
  pub period : Duration
  pub max_wait_time : Duration

pub record TimeoutConfig : Type 0 where
  pub enabled : Bool
  pub timeout : Duration

pub data BreakerOption : Type 0 where
  with_failure_threshold : ℕ → BreakerOption
  with_success_threshold : ℕ → BreakerOption
  with_breaker_delay : Duration → BreakerOption

-- The settings of a policy that may be left out.
unfoldable pub when : {A : Type 0} → Bool → A → List A
when true a = a ∷ []
when false a = []

module _ (rt : Runtime) where
  pub record RetryConfig : Type 0 where
    pub enabled : Bool
    pub max_retries : ℤ
    pub initial_delay : Duration
    pub max_delay : Duration
    pub backoff_factor : rt.Float
    pub jitter_factor : rt.Float
    pub max_duration : Duration

  pub record Config : Type 0 where
    pub retry : RetryConfig
    pub circuit_breaker : CircuitBreakerConfig
    pub rate_limiter : RateLimiterConfig
    pub timeout : TimeoutConfig

  pub data RetryOption : Type 0 where
    with_max_retries : ℤ → RetryOption
    with_backoff_factor : Duration → Duration → rt.Float → RetryOption
    with_delay : Duration → RetryOption
    with_jitter_factor : rt.Float → RetryOption
    with_max_duration : Duration → RetryOption

  pub data Policy : Type 0 where
    retry_policy : List RetryOption → Policy
    breaker_policy : List BreakerOption → Policy
    -- the executions in a period, and the time to wait if it is set
    limiter_policy : ℕ → Duration → Option Duration → Policy
    timeout_policy : Duration → Policy

  -- `DefaultConfig`
  unfoldable pub default_config : Config
  default_config = record {
    retry = record {
      enabled = true;
      max_retries = pos 3;
      initial_delay = pos (100 * millisecond);
      max_delay = pos (2_000 * millisecond);
      backoff_factor = rt.of_int 2;
      jitter_factor = rt.decimal 2 1;
      max_duration = pos 0;
    };
    circuit_breaker = record {
      enabled = true;
      failure_threshold = 5;
      success_threshold = 1;
      delay = pos (30_000 * millisecond);
    };
    rate_limiter = record {
      enabled = true;
      max_executions = 60;
      period = pos (60_000 * millisecond);
      max_wait_time = pos (5_000 * millisecond);
    };
    timeout = record { enabled = true; timeout = pos (30_000 * millisecond) };
  }

  -- The backoff factor, or 2 where it is at most 1.
  unfoldable pub factor_of : RetryConfig → rt.Float
  factor_of c =
      if rt.float_leb c.backoff_factor (rt.of_int 1) then rt.of_int 2 else c.backoff_factor

  unfoldable pub delay_options : RetryConfig → List RetryOption
  unfolding factor_of when
  delay_options c =
      if is_positive c.initial_delay && leb_ℤ c.initial_delay c.max_delay
      then with_backoff_factor c.initial_delay c.max_delay (factor_of c) ∷ []
      else when (is_positive c.initial_delay) (with_delay c.initial_delay)

  unfoldable pub retry_options : RetryConfig → List RetryOption
  unfolding delay_options when
  retry_options c =
      with_max_retries c.max_retries
      ∷ (delay_options c
          ++ (when (rt.float_ltb (rt.of_int 0) c.jitter_factor) (with_jitter_factor c.jitter_factor)
              ++ when (is_positive c.max_duration) (with_max_duration c.max_duration)))

  -- `NewRetry`, with none for nil
  unfoldable pub new_retry : RetryConfig → Option Policy
  unfolding retry_options
  new_retry c = if not c.enabled then none else some (retry_policy (retry_options c))

  unfoldable pub breaker_options : CircuitBreakerConfig → List BreakerOption
  unfolding when
  breaker_options c =
      when (ltb 0 c.failure_threshold) (with_failure_threshold c.failure_threshold)
      ++ (with_success_threshold (if c.success_threshold == 0 then 1 else c.success_threshold)
          ∷ when (is_positive c.delay) (with_breaker_delay c.delay))

  -- `NewCircuitBreaker`
  unfoldable pub new_circuit_breaker : CircuitBreakerConfig → Option Policy
  unfolding breaker_options
  new_circuit_breaker c = if not c.enabled then none else some (breaker_policy (breaker_options c))

  -- `NewRateLimiter`
  unfoldable pub new_rate_limiter : RateLimiterConfig → Option Policy
  new_rate_limiter c =
      if not c.enabled || (c.max_executions == 0) || leb_ℤ c.period (pos 0)
      then none
      else some (
          limiter_policy c.max_executions c.period
            (if is_positive c.max_wait_time then some c.max_wait_time else none))

  -- `NewTimeout`
  unfoldable pub new_timeout : TimeoutConfig → Option Policy
  new_timeout c =
      if not c.enabled || leb_ℤ c.timeout (pos 0) then none else some (timeout_policy c.timeout)

  -- The loop of `Policies` over the candidates.
  unfoldable pub non_nil : List (Option Policy) → List Policy
  non_nil [] = []
  non_nil (none ∷ ps) = non_nil ps
  non_nil (some p ∷ ps) = p ∷ non_nil ps

  -- `Policies`
  unfoldable pub policies : Config → List Policy
  unfolding non_nil new_rate_limiter new_circuit_breaker new_retry new_timeout
  policies c = non_nil (
      new_rate_limiter c.rate_limiter
      ∷ new_circuit_breaker c.circuit_breaker
      ∷ new_retry c.retry
      ∷ new_timeout c.timeout
      ∷ [])
