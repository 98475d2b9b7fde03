-- ===== src/Batch/Tests.antt =====
-- A concrete batch: four applications, of which the one with an odd number fails.
use deploypilot.Base.{
  true, false, String, Option, some, none, ◌≤◌, ◌<◌, ◌*◌, ◌⊎◌, count_if, arith, ℕ, suc, ◌+◌, ◌%◌,
  ◌≡◌, refl, ap, List, [], ◌∷◌, ◌==◌, nat_tested, length,
}
use deploypilot.Batch.{ItemResult, deploy_from, deploy_rolling, deploy_sequential}
use deploypilot.Batch.Parallel.{
  Parallel, Event, acquires, finishes, parallel_start, put_result, parallel_step, parallel_run,
  IsOver, is_work,
}
use deploypilot.Batch.Ends.{HasResult, parallel_run-results, parallel_run-ends}
use deploypilot.Batch.Strategies.{deploy_rolling-sequential}

abbrev deploy_even : ℕ → ℕ → ℕ → ℕ × ItemResult
deploy_even s i app =
    (s + app, record { index = i; app_name = "web"; success = app % 2 == 0; error = "" })

abbrev numbers : List ℕ
numbers = 2 ∷ 4 ∷ 5 ∷ 8 ∷ []

deploy_rolling-sequential_example :
    deploy_rolling deploy_even 0 3 numbers ≡ deploy_sequential deploy_even 0 numbers
deploy_rolling-sequential_example = deploy_rolling-sequential deploy_even 0 3 numbers

one_each : (s : ℕ) (apps : List ℕ) → length (deploy_sequential deploy_even s apps).1 ≡ length apps
unfolding deploy_sequential deploy_from
one_each s apps = go s 0 apps
  where
    go : (s i : ℕ) (apps : List ℕ) → length (deploy_from deploy_even s i apps).1 ≡ length apps
    go s i [] = refl
    go s i (app ∷ apps) = ap suc (go (s + app) (suc i) apps)

abbrev one_name : ℕ → String
one_name i = "batch-app"

abbrev fine : ℕ → ItemResult
fine i = record { index = i; app_name = "batch-app"; success = true; error = "" }

-- Two applications with one goroutine at a time; the second is begun when the first has ended.
abbrev two_events : List Event
two_events = acquires ∷ finishes 0 (fine 0) ∷ acquires ∷ finishes 1 (fine 1) ∷ []

abbrev both_done : Parallel
unfolding parallel_start put_result
both_done = record {
  next = 2;
  cancelled = false;
  running = [];
  results = put_result 1 (fine 1) (put_result 0 (fine 0) (parallel_start.results));
}

parallel_run-results_example :
    (length both_done.running ≤ 1)
    × (IsOver 2 both_done → (i : ℕ) → i < 2 → HasResult both_done.results i)
unfolding parallel_run parallel_start both_done deploypilot.Base.any_of
parallel_run-results_example = parallel_run-results 2 1 one_name two_events both_done refl

parallel_run-ends_example :
    (count_if is_work two_events ≤ 2 * 2)
    × (IsOver 2 both_done
        ⊎ ((e : Event) × (t : Parallel) × (is_work e ≡ true)
            × (parallel_step 2 1 one_name e both_done ≡ some t)))
unfolding parallel_run parallel_start both_done deploypilot.Base.any_of
parallel_run-ends_example = parallel_run-ends 2 1 one_name two_events both_done (omega arith) refl
