-- ===== src/CircuitBreaker/Concurrent.antt =====
-- internal/util/circuitbreaker/circuitbreaker.go under every interleaving of its critical sections.
use deploypilot.Base.{ℕ, ◌+◌, ◌≤◌, ◌<◌, ◌≡◌, ◌≢◌, Bool, true, false, List, [], ◌∷◌, arith}
use deploypilot.CircuitBreaker.{
  State, closed, open_state, half_open, Config, CircuitBreaker, new, begin, finish, reset,
}

-- A critical section of some caller. The state that a `finish` carries is whatever its own `begin`
-- answered, any number of events ago.
pub data Event : Type 0 where
  begins : ℕ → Event
  finishes : State → Bool → ℕ → Event
  resets : Event

step : CircuitBreaker → Event → CircuitBreaker
step cb (begins now) = begin now cb
step cb (finishes seen failed now) = (finish seen failed now cb).0
step cb resets = reset cb

pub run : CircuitBreaker → List Event → CircuitBreaker
unfolding step
run cb [] = cb
run cb (e ∷ es) = run (step cb e) es

-- The breaker is closed exactly while it has seen fewer failures than the threshold.
pub record IsConsistent (cb : CircuitBreaker) : Type 0 where
  pub closed_below : cb.state ≡ closed → cb.failures < cb.config.failure_threshold
  pub tripped : cb.state ≢ closed → cb.config.failure_threshold ≤ cb.failures

begin-IsConsistent : (now : ℕ) (cb : CircuitBreaker) → IsConsistent cb → IsConsistent (begin now cb)
unfolding begin
begin-IsConsistent now cb v = ground arith

step-IsConsistent :
    (cb : CircuitBreaker) (e : Event)
    → 0 < cb.config.failure_threshold
    → IsConsistent cb
    → IsConsistent (step cb e) × (0 < (step cb e).config.failure_threshold)
unfolding step begin finish reset
step-IsConsistent cb (begins now) p v = ground arith
step-IsConsistent cb (finishes seen true now) p v = ground arith
step-IsConsistent cb (finishes seen false now) p v = ground arith
step-IsConsistent cb resets p v = ground arith

run-IsConsistent :
    (cb : CircuitBreaker) (es : List Event)
    → 0 < cb.config.failure_threshold
    → IsConsistent cb
    → IsConsistent (run cb es)
unfolding run
run-IsConsistent cb [] p v = v
run-IsConsistent cb (e ∷ es) p v =
    let (w, q) = step-IsConsistent cb e p v in run-IsConsistent (step cb e) es q w

-- With a positive failure threshold, after any interleaving of the critical sections of any callers
-- and of resets, a new breaker is closed only below the threshold of failures, and open or half-open
-- only at or above it.
pub run-new-IsConsistent :
    (c : Config) (es : List Event) → 0 < c.failure_threshold → IsConsistent (run (new c) es)
unfolding new
run-new-IsConsistent c es p = run-IsConsistent (new c) es p (ground arith)

-- Two probes are in flight after the timeout, and one success suffices to close. The first fails and
-- opens the breaker again; the second, which saw it half-open, then succeeds and closes it, although
-- the failure is as recent as can be.
pub stale_success_closes :
    (cb : CircuitBreaker) (t u v w : ℕ)
    → cb.state ≡ open_state
    → cb.last_failure_time + cb.config.timeout < t
    → cb.config.success_threshold ≡ 1
    → (run cb
        (begins t ∷ begins u ∷ finishes half_open true v ∷ finishes half_open false w ∷ [])).state
      ≡ closed
unfolding run begin finish
stale_success_closes cb t u v w o h e = ground arith
