-- ===== src/CircuitBreaker/Tests.antt =====
-- Concrete runs of the circuit breaker.
use deploypilot.Base.{ℕ, ◌+◌, ◌≡◌, refl, true, false, List, [], ◌∷◌, arith}
use deploypilot.CircuitBreaker.{
  closed, open_state, default_config, CircuitBreaker, new, transition, execute,
}
use deploypilot.CircuitBreaker.Sequential.{Call, calls, opens_at_threshold, recovers}

abbrev failing : ℕ → Call
failing t = record { start = t; failed = true; now = t + 1 }

abbrev succeeding : ℕ → Call
succeeding t = record { start = t; failed = false; now = t + 1 }

abbrev four_failures : List Call
four_failures = failing 1 ∷ failing 3 ∷ failing 5 ∷ failing 7 ∷ []

abbrev tripped_breaker : CircuitBreaker
tripped_breaker = record {
  config = default_config;
  state = open_state;
  failures = 5;
  successes = 0;
  last_failure_time = 10;
}

opens_at_threshold_example :
    ((calls (new default_config) four_failures).state ≡ closed)
    × ((calls
          (new default_config)
          (failing 1 ∷ failing 3 ∷ failing 5 ∷ failing 7 ∷ failing 9 ∷ [])).state
        ≡ open_state)
    × ((calls
          (new default_config)
          (failing 1 ∷ failing 3 ∷ failing 5 ∷ failing 7 ∷ failing 9 ∷ [])).last_failure_time
        ≡ 10)
opens_at_threshold_example =
    opens_at_threshold default_config four_failures (failing 9) (refl, (refl, (refl, (refl, tt))))
      refl refl

recovers_example :
    let cb = calls tripped_breaker (succeeding 41 ∷ succeeding 43 ∷ []) in
    (cb.state ≡ closed) × (cb.failures ≡ 0) × (cb.successes ≡ 0)
recovers_example =
    recovers tripped_breaker (succeeding 41) (succeeding 43 ∷ []) (refl, (refl, tt)) refl
      (omega arith) refl

-- A callback sees the closed breaker open, and no call of it sees the open one become half-open.
callbacks :
    ((transition open_state (record tripped_breaker {
      state = closed;
      config = record default_config { has_callback = true };
    })).1
      ≡ (closed, open_state) ∷ [])
    × ((execute 41 false 42 tripped_breaker).2 ≡ [])
unfolding transition execute
callbacks = (refl, refl)
