-- ===== src/Batch.antt =====
-- internal/service/batch_deploy.go: the strategies of a batch deployment. The deployment of one
-- application is the parameter `deploy_single`, given its index; what it changes outside is the state.
-- A batch size that is not positive is 0.
pub mod Strategies
pub mod Parallel
pub mod Ends
mod Tests
use deploypilot.Base.{
  ℕ, zero, suc, ◌+◌, ◌-◌, Bool, true, false, Option, none, some, List, [], ◌∷◌, ◌++◌, String,
  length, count_if, ltb, nat_tested, ◌==◌, if◌then◌else◌, not, replicate,
}

pub data Strategy : Type 0 where
  sequential parallel rolling unknown : Strategy

pub record ItemResult : Type 0 where
  pub index : ℕ
  pub app_name : String
  pub success : Bool
  pub error : String

pub record BatchResult : Type 0 where
  pub total : ℕ
  pub success : ℕ
  pub failed : ℕ
  pub results : List ItemResult

-- The first elements of a list, and the others.
unfoldable pub take {ℓ} : {A : Type ℓ} → ℕ → List A → List A
take zero xs = []
take (suc n) [] = []
take (suc n) (x ∷ xs) = x ∷ take n xs

unfoldable pub drop {ℓ} : {A : Type ℓ} → ℕ → List A → List A
drop zero xs = xs
drop (suc n) [] = []
drop (suc n) (x ∷ xs) = drop n xs

module _ {ℓ κ} {S : Type ℓ} {App : Type κ} (deploy_single : S → ℕ → App → S × ItemResult) where
  -- The loop that both strategies without concurrency run, over the applications from an index on.
  unfoldable pub deploy_from : S → ℕ → List App → S × List ItemResult
  deploy_from s i [] = (s, [])
  deploy_from s i (app ∷ apps) =
      let (s', r) = deploy_single s i app in
      let (t, rs) = deploy_from s' (suc i) apps in (t, r ∷ rs)

  -- `deploySequential`
  unfoldable pub deploy_sequential : S → List App → S × List ItemResult
  deploy_sequential s apps = deploy_from s 0 apps

  -- `deployRolling`: one round of its outer loop for each `suc`, the batches counted by the index at
  -- which they start. The index and the batch end at the number of applications.
  unfoldable pub rolling_rounds : ℕ → ℕ → S → ℕ → List App → S × List ItemResult
  unfolding deploy_from
  rolling_rounds zero batch_size s i apps = (s, [])
  rolling_rounds (suc fuel) batch_size s i [] = (s, [])
  rolling_rounds (suc fuel) batch_size s i (app ∷ apps) =
      let (s', rs) = deploy_from s i (take batch_size (app ∷ apps)) in
      let (t, more) =
        rolling_rounds fuel batch_size s' (i + batch_size) (drop batch_size (app ∷ apps)) in
      (t, rs ++ more)

  unfoldable pub deploy_rolling : S → ℕ → List App → S × List ItemResult
  deploy_rolling s batch_size apps =
      rolling_rounds (length apps) (if batch_size == 0 then 3 else batch_size) s 0 apps

  -- The strategy that runs: an unknown one is sequential.
  unfoldable pub run_strategy :
      (S → List App → S × List ItemResult) → S → Strategy → ℕ → List App → S × List ItemResult
  run_strategy deploy_parallel s sequential batch_size apps = deploy_sequential s apps
  run_strategy deploy_parallel s parallel batch_size apps = deploy_parallel s apps
  run_strategy deploy_parallel s rolling batch_size apps = deploy_rolling s batch_size apps
  run_strategy deploy_parallel s unknown batch_size apps = deploy_sequential s apps

  -- `executeBatchDeploy`, with what the concurrent strategy makes as a parameter; the duration is
  -- left out.
  unfoldable pub execute_batch_deploy :
      (S → List App → S × List ItemResult) → S → Strategy → ℕ → List App → S × BatchResult
  execute_batch_deploy deploy_parallel s strategy batch_size [] =
      (s, record { total = 0; success = 0; failed = 0; results = [] })
  execute_batch_deploy deploy_parallel s strategy batch_size (app ∷ apps) =
      let (t, results) = run_strategy deploy_parallel s strategy batch_size (app ∷ apps) in
      (
        t,
        record {
          total = length (app ∷ apps);
          success = count_if (λ r. r.success) results;
          failed = count_if (λ r. not r.success) results;
          results = results;
        },
      )
