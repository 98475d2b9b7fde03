-- ===== src/CircuitBreaker/Sequential.antt =====
-- internal/util/circuitbreaker/circuitbreaker.go, calls of `Execute` that do not overlap.
use deploypilot.Base.{
  ℕ, ◌+◌, ◌≤◌, ◌<◌, ◌≡◌, ◌↔◌, refl, ap, ◌∙◌, ◌++◌, Bool, true, false, List, [], ◌∷◌, arith, length,
  All,
}
use deploypilot.CircuitBreaker.{
  closed, open_state, half_open, Config, CircuitBreaker, new, execute, circuit_open,
}

-- A call: when it starts, whether the guarded function fails, and when that returns.
pub record Call : Type 0 where
  pub start : ℕ
  pub failed : Bool
  pub now : ℕ

pub calls : CircuitBreaker → List Call → CircuitBreaker
calls cb [] = cb
calls cb (c ∷ cs) = calls (execute c.start c.failed c.now cb).0 cs

-- A call is rejected exactly when the breaker is open and its timeout has not passed. The guarded
-- function is then not run, the breaker does not change, and no callback is made.
pub execute_rejects :
    (cb : CircuitBreaker) (start : ℕ) (failed : Bool) (now : ℕ)
    → ((execute start failed now cb).1 ≡ circuit_open
        → execute start failed now cb ≡ (cb, circuit_open, []))
      × (((execute start failed now cb).1 ≡ circuit_open)
          ↔ ((cb.state ≡ open_state) × (start ≤ cb.last_failure_time + cb.config.timeout)))
unfolding execute
execute_rejects cb start true now = ground arith
execute_rejects cb start false now = ground arith

fails_while_closed :
    (cb : CircuitBreaker) (start now : ℕ)
    → cb.state ≡ closed
    → cb.failures + 1 < cb.config.failure_threshold
    → ((execute start true now cb).0.state ≡ closed)
      × ((execute start true now cb).0.failures ≡ cb.failures + 1)
      × ((execute start true now cb).0.config ≡ cb.config)
unfolding execute
fails_while_closed cb start now s h = ground arith

fails_last :
    (cb : CircuitBreaker) (start now : ℕ)
    → cb.state ≡ closed
    → cb.config.failure_threshold ≡ cb.failures + 1
    → ((execute start true now cb).0.state ≡ open_state)
      × ((execute start true now cb).0.last_failure_time ≡ now)
unfolding execute
fails_last cb start now s h = ground arith

fails_below :
    (cb : CircuitBreaker) (cs : List Call)
    → All (λ c. c.failed ≡ true) cs
    → cb.state ≡ closed
    → cb.failures + length cs < cb.config.failure_threshold
    → ((calls cb cs).state ≡ closed)
      × ((calls cb cs).failures ≡ cb.failures + length cs)
      × ((calls cb cs).config ≡ cb.config)
unfolding calls
fails_below cb [] f s h = (s, omega arith, refl)
fails_below cb (c ∷ cs) f s h =
    let (s', n, e) = fails_while_closed cb c.start c.now s (omega arith) in
    rw f.0 (
      ground (
        arith,
        fails_below (execute c.start true c.now cb).0 cs f.1 s' (rw (n, e) (omega arith)),
        n,
        e,
      ))

calls-snoc :
    (cb : CircuitBreaker) (cs : List Call) (c : Call)
    → calls cb (cs ++ c ∷ []) ≡ (execute c.start c.failed c.now (calls cb cs)).0
unfolding calls
calls-snoc cb [] c = refl
calls-snoc cb (d ∷ cs) c = calls-snoc (execute d.start d.failed d.now cb).0 cs c

-- A new breaker stays closed while fewer calls than the threshold have failed in a row, and the
-- failing call that reaches the threshold opens it, with its own time as the start of the timeout.
pub opens_at_threshold :
    (c : Config) (cs : List Call) (last : Call)
    → All (λ k. k.failed ≡ true) cs
    → last.failed ≡ true
    → length cs + 1 ≡ c.failure_threshold
    → ((calls (new c) cs).state ≡ closed)
      × ((calls (new c) (cs ++ last ∷ [])).state ≡ open_state)
      × ((calls (new c) (cs ++ last ∷ [])).last_failure_time ≡ last.now)
unfolding new
opens_at_threshold c cs last f l h =
    let (s, n, e) = fails_below (new c) cs f refl (omega arith) in
    let (o, t) =
      fails_last (calls (new c) cs) last.start last.now s
        (ap (λ (k : Config). k.failure_threshold) e ∙ omega (arith, n)) in
    (s, rw (calls-snoc (new c) cs last, l) o, rw (calls-snoc (new c) cs last, l) t)

-- One success of a half-open breaker, short of the threshold and at it.
probes :
    (cb : CircuitBreaker) (start now : ℕ)
    → cb.state ≡ half_open
    → cb.successes + 1 < cb.config.success_threshold
    → ((execute start false now cb).0.state ≡ half_open)
      × ((execute start false now cb).0.successes ≡ cb.successes + 1)
      × ((execute start false now cb).0.config ≡ cb.config)
unfolding execute
probes cb start now s h = ground arith

probes_last :
    (cb : CircuitBreaker) (start now : ℕ)
    → cb.state ≡ half_open
    → cb.successes + 1 ≡ cb.config.success_threshold
    → let cb' = (execute start false now cb).0 in
      (cb'.state ≡ closed) × (cb'.failures ≡ 0) × (cb'.successes ≡ 0)
unfolding execute
probes_last cb start now s h = ground arith

recovers_from_half_open :
    (cb : CircuitBreaker) (c : Call) (cs : List Call)
    → All (λ k. k.failed ≡ false) (c ∷ cs)
    → cb.state ≡ half_open
    → cb.successes + length (c ∷ cs) ≡ cb.config.success_threshold
    → let cb' = calls cb (c ∷ cs) in (cb'.state ≡ closed) × (cb'.failures ≡ 0) × (cb'.successes ≡ 0)
unfolding calls
recovers_from_half_open cb c [] f s h = rw f.0 (probes_last cb c.start c.now s (omega arith))
recovers_from_half_open cb c (d ∷ ds) f s h =
    let (s', n, e) = probes cb c.start c.now s (omega arith) in
    rw f.0 (
      recovers_from_half_open (execute c.start false c.now cb).0 d ds f.1 s'
        (rw (n, e) (omega arith)))

half_opens :
    (cb : CircuitBreaker) (start : ℕ) (failed : Bool) (now : ℕ)
    → cb.state ≡ open_state
    → cb.last_failure_time + cb.config.timeout < start
    → execute start failed now cb
      ≡ execute start failed now (record cb { state = half_open; successes = 0 })
unfolding execute
half_opens cb start failed now s h = ground arith

-- An open breaker whose timeout has passed is closed, with both counts at 0, by as many successful
-- calls in a row as the success threshold says.
pub recovers :
    (cb : CircuitBreaker) (c : Call) (cs : List Call)
    → All (λ k. k.failed ≡ false) (c ∷ cs)
    → cb.state ≡ open_state
    → cb.last_failure_time + cb.config.timeout < c.start
    → length (c ∷ cs) ≡ cb.config.success_threshold
    → let cb' = calls cb (c ∷ cs) in (cb'.state ≡ closed) × (cb'.failures ≡ 0) × (cb'.successes ≡ 0)
unfolding calls
recovers cb c cs f s t h =
    rw (half_opens cb c.start c.failed c.now s t, calls)
      (recovers_from_half_open (record cb { state = half_open; successes = 0 }) c cs f refl
        (omega arith))
