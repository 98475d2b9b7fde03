-- ===== src/Batch/Parallel.antt =====
-- internal/service/batch_deploy.go: `deployParallel`. A run is a sequence of events, in any order that
-- the code allows: the loop acquires the semaphore and starts a goroutine, the context is cancelled,
-- the loop records an application that it cannot start then, and a goroutine ends with the result of
-- `deploySingle`, which may be any result with its index, and releases the semaphore.
use deploypilot.Base.{
  ℕ, suc, ◌≡◌, Bool, true, false, ◌&&◌, List, [], ◌∷◌, Option, none, some, String, length, ltb,
  any_of, nat_tested, ◌==◌, if◌then◌else◌,
}
use deploypilot.Batch.{ItemResult}

pub record Parallel : Type 0 where
  pub next : ℕ
  pub cancelled : Bool
  pub running : List ℕ
  pub results : ℕ → Option ItemResult

pub data Event : Type 0 where
  acquires cancels skips : Event
  finishes : ℕ → ItemResult → Event

-- The limit of goroutines; one that is not positive is 0.
unfoldable pub limit_of : ℕ → ℕ
limit_of max_concurrent = if max_concurrent == 0 then 5 else max_concurrent

unfoldable pub parallel_start : Parallel
parallel_start = record { next = 0; cancelled = false; running = []; results = λ i. none }

-- `results[i] = r`
unfoldable pub put_result : ℕ → ItemResult → (ℕ → Option ItemResult) → ℕ → Option ItemResult
put_result i r results j = if i == j then some r else results j

-- What the loop records for an application that it does not start.
unfoldable pub cancelled_item : (ℕ → String) → ℕ → ItemResult
cancelled_item names i = record {
  index = i;
  app_name = names i;
  success = false;
  error = "context cancelled";
}

unfoldable pub leave : ℕ → List ℕ → List ℕ
leave i [] = []
leave i (j ∷ js) = let rest = leave i js in if i == j then js else j ∷ rest

-- The state after an event, or none where it cannot happen, among `n` applications.
unfoldable pub parallel_step : ℕ → ℕ → (ℕ → String) → Event → Parallel → Option Parallel
unfolding put_result cancelled_item leave
parallel_step n limit names acquires s =
    if ltb s.next n && ltb (length s.running) limit
    then some (record s { next = suc s.next; running = s.next ∷ s.running })
    else none
parallel_step n limit names cancels s = some (record s { cancelled = true })
parallel_step n limit names skips s =
    if ltb s.next n && s.cancelled
    then some (record s {
      next = suc s.next;
      results = put_result s.next (cancelled_item names s.next) s.results;
    })
    else none
parallel_step n limit names (finishes i r) s =
    if any_of (λ j. i == j) s.running && r.index == i
    then some (record s { running = leave i s.running; results = put_result i r s.results })
    else none

abbrev pub and_then {ℓ κ} : {A : Type ℓ} {B : Type κ} → Option A → (A → Option B) → Option B
and_then none f = none
and_then (some a) f = f a

unfoldable pub parallel_run : ℕ → ℕ → (ℕ → String) → List Event → Parallel → Option Parallel
unfolding parallel_step
parallel_run n limit names [] s = some s
parallel_run n limit names (e ∷ es) s =
    and_then (parallel_step n limit names e s) (parallel_run n limit names es)

-- `g.Wait()` returns: the loop is over and every goroutine has ended.
abbrev pub IsOver : ℕ → Parallel → Type 0
IsOver n s = (s.next ≡ n) × (s.running ≡ [])

abbrev pub is_work : Event → Bool
is_work cancels = false
is_work _ = true
