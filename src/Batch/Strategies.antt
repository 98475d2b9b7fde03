-- ===== src/Batch/Strategies.antt =====
-- internal/service/batch_deploy.go: the strategies agree, and the counts add up.
use deploypilot.Base.{
  ℕ, zero, suc, ◌+◌, ◌≤◌, ◌≡◌, refl, ap, ◌∙◌, false, not, List, [], ◌∷◌, ◌++◌, length, count_if,
  ◌==◌, nat_tested, arith,
}
use deploypilot.Batch.{
  Strategy, sequential, parallel, rolling, unknown, ItemResult, take, drop, deploy_from,
  deploy_sequential, rolling_rounds, deploy_rolling, run_strategy, execute_batch_deploy,
}

module _ {ℓ κ} {S : Type ℓ} {App : Type κ} (deploy_single : S → ℕ → App → S × ItemResult) where
  deploy_from-split :
      (n : ℕ) (s : S) (i : ℕ) (apps : List App)
      → let (s', rs) = deploy_from deploy_single s i (take n apps) in
        let (t, more) = deploy_from deploy_single s' (i + n) (drop n apps) in
        (t, rs ++ more) ≡ deploy_from deploy_single s i apps
  unfolding take drop deploy_from
  deploy_from-split zero s i apps = ap (λ j. deploy_from deploy_single s j apps) (omega arith)
  deploy_from-split (suc n) s i [] = refl
  deploy_from-split (suc n) s i (app ∷ apps) =
      let (s', r) = deploy_single s i app in
      let shift : i + suc n ≡ suc i + n = omega arith in
      rw shift (ap (λ p. (p.0, r ∷ p.1)) (deploy_from-split n s' (suc i) apps))

  drop-le : (n : ℕ) (apps : List App) → length (drop n apps) ≤ length apps
  unfolding drop
  drop-le zero apps = omega arith
  drop-le (suc n) [] = omega arith
  drop-le (suc n) (app ∷ apps) = omega (arith, drop-le n apps)

  rolling_rounds-deploy_from :
      (fuel n : ℕ) (s : S) (i : ℕ) (apps : List App)
      → length apps ≤ fuel
      → rolling_rounds deploy_single fuel (suc n) s i apps ≡ deploy_from deploy_single s i apps
  unfolding rolling_rounds deploy_from drop
  rolling_rounds-deploy_from zero n s i [] l = refl
  rolling_rounds-deploy_from zero n s i (app ∷ apps) l = absurd (omega (arith, l))
  rolling_rounds-deploy_from (suc fuel) n s i [] l = refl
  rolling_rounds-deploy_from (suc fuel) n s i (app ∷ apps) l =
      let (s', rs) = deploy_from deploy_single s i (take (suc n) (app ∷ apps)) in
      rw
        (rolling_rounds-deploy_from fuel n s' (i + suc n) (drop n apps)
          (omega (arith, l, drop-le n apps)))
        (deploy_from-split (suc n) s i (app ∷ apps))

  -- The rolling strategy, with any batch size, deploys the same applications in the same order and
  -- reports the same results as the sequential one: it ends, skips none and deploys none twice. A batch
  -- that fails stops nothing.
  pub deploy_rolling-sequential :
      (s : S) (batch_size : ℕ) (apps : List App)
      → deploy_rolling deploy_single s batch_size apps ≡ deploy_sequential deploy_single s apps
  unfolding deploy_rolling deploy_sequential
  deploy_rolling-sequential s zero apps =
      rolling_rounds-deploy_from (length apps) 2 s 0 apps (omega arith)
  deploy_rolling-sequential s (suc n) apps =
      let given : (suc n == 0) ≡ false = ground arith in
      rw given (rolling_rounds-deploy_from (length apps) n s 0 apps (omega arith))

  length-deploy_from :
      (s : S) (i : ℕ) (apps : List App)
      → length (deploy_from deploy_single s i apps).1 ≡ length apps
  unfolding deploy_from
  length-deploy_from s i [] = refl
  length-deploy_from s i (app ∷ apps) =
      ap suc (length-deploy_from (deploy_single s i app).0 (suc i) apps)

  module _ (deploy_parallel : S → List App → S × List ItemResult)
      (one_each : (s : S) (apps : List App) → length (deploy_parallel s apps).1 ≡ length apps) where
    length-run_strategy :
        (s : S) (strategy : Strategy) (n : ℕ) (apps : List App)
        → length (run_strategy deploy_single deploy_parallel s strategy n apps).1 ≡ length apps
    unfolding run_strategy deploy_sequential
    length-run_strategy s sequential n apps = length-deploy_from s 0 apps
    length-run_strategy s parallel n apps = one_each s apps
    length-run_strategy s rolling n apps =
        rw (deploy_rolling-sequential s n apps) (length-deploy_from s 0 apps)
    length-run_strategy s unknown n apps = length-deploy_from s 0 apps

    counts_add :
        (rs : List ItemResult)
        → count_if (λ r. r.success) rs + count_if (λ r. not r.success) rs ≡ length rs
    unfolding count_if
    counts_add [] = refl
    counts_add (r ∷ rs) = ground (arith, counts_add rs)

    -- Whatever the strategy, and whichever deployments fail, a batch reports one result for each
    -- application, and its successes and failures add up to its total. The concurrent strategy is taken
    -- to report one result for each application, as it fills a slice of that length.
    pub execute_batch_deploy_adds :
        (s : S) (strategy : Strategy) (n : ℕ) (apps : List App)
        → let b = (execute_batch_deploy deploy_single deploy_parallel s strategy n apps).1 in
          (b.total ≡ length apps) × (length b.results ≡ b.total) × (b.success + b.failed ≡ b.total)
    unfolding execute_batch_deploy
    execute_batch_deploy_adds s strategy n [] = (refl, refl, omega arith)
    execute_batch_deploy_adds s strategy n (app ∷ apps) =
        let l = length-run_strategy s strategy n (app ∷ apps) in
        (
          refl,
          l,
          counts_add (run_strategy deploy_single deploy_parallel s strategy n (app ∷ apps)).1 ∙ l,
        )
