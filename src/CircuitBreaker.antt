-- ===== src/CircuitBreaker.antt =====
-- internal/util/circuitbreaker/circuitbreaker.go. Times and durations are numbers of one unit, and
-- each reading of the clock is an argument. `Execute` releases the lock while the guarded function
-- runs, so its two critical sections are functions of their own, `begin` and `finish`, which other
-- calls may come between. A call of the callback is the pair of states that it is given.
mod Sequential
mod Concurrent
mod Tests
use deploypilot.Base.{
  ℕ, suc, ◌+◌, ◌≡◌, refl, Bool, true, false, ◌&&◌, Option, none, some, List, [], ◌∷◌, ltb, leb,
  if◌then◌else◌, arith,
}

pub data State : Type 0 where
  closed open_state half_open : State

abbrev pub is_open : State → Bool
is_open open_state = true
is_open _ = false

abbrev pub is_half_open : State → Bool
is_half_open half_open = true
is_half_open _ = false

abbrev pub same_state : State → State → Bool
same_state closed closed = true
same_state open_state open_state = true
same_state half_open half_open = true
same_state _ _ = false

pub record Config : Type 0 where
  pub failure_threshold : ℕ
  pub success_threshold : ℕ
  pub timeout : ℕ
  pub has_callback : Bool

-- In seconds.
abbrev pub default_config : Config
default_config = record {
  failure_threshold = 5;
  success_threshold = 2;
  timeout = 30;
  has_callback = false;
}

pub record CircuitBreaker : Type 0 where
  pub config : Config
  pub state : State
  pub failures : ℕ
  pub successes : ℕ
  pub last_failure_time : ℕ

pub new : Config → CircuitBreaker
new c = record { config = c; state = closed; failures = 0; successes = 0; last_failure_time = 0 }

-- `State`. `time.Since(t) > d` is `t + d < now`.
pub begin : ℕ → CircuitBreaker → CircuitBreaker
begin now cb =
    if is_open cb.state && ltb (cb.last_failure_time + cb.config.timeout) now
    then record cb { state = half_open; successes = 0 }
    else cb

pub transition : State → CircuitBreaker → CircuitBreaker × List (State × State)
transition to cb = (
  record cb { state = to },
  (if cb.config.has_callback
      then (if same_state cb.state to then [] else (cb.state, to) ∷ [])
      else []),
)

-- The second critical section of `Execute`: `seen` is the state that `begin` answered, `failed`
-- whether the function returned an error.
pub finish : State → Bool → ℕ → CircuitBreaker → CircuitBreaker × List (State × State)
unfolding transition
finish seen true now cb =
    let cb' : CircuitBreaker = record cb {
      failures = cb.failures + 1;
      successes = 0;
      last_failure_time = now;
    } in
    if leb cb.config.failure_threshold cb'.failures then transition open_state cb' else (cb', [])
finish seen false now cb =
    let cb' : CircuitBreaker = record cb { successes = cb.successes + 1 } in
    if is_half_open seen && leb cb.config.success_threshold cb'.successes
    then transition closed (record cb' { failures = 0; successes = 0 })
    else (cb', [])

pub data Outcome : Type 0 where
  circuit_open : Outcome
  returned : Bool → Outcome

-- `Execute` with nothing in between: `failed` is what the function does when it is called.
pub execute : ℕ → Bool → ℕ → CircuitBreaker → CircuitBreaker × Outcome × List (State × State)
unfolding begin finish
execute start failed now cb =
    let cb' : CircuitBreaker = begin start cb in
    if is_open cb'.state
    then (cb', circuit_open, [])
    else (let (cb'', calls) = finish cb'.state failed now cb' in (cb'', returned failed, calls))

pub reset : CircuitBreaker → CircuitBreaker
reset cb = record cb { state = closed; failures = 0; successes = 0 }
