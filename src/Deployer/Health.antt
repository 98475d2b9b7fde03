-- ===== src/Deployer/Health.antt =====
-- internal/engine/deployer/health.go. A probe (an HTTP request or a TCP connection) is a function
-- of the round in which it is made; the sleeps and the latencies are left out.
use deploypilot.Base.{
  ℕ, zero, suc, ◌+◌, Bool, true, false, [], ◌∷◌, Option, none, some, Text, codes, if◌then◌else◌,
  ◌==◌, text_tested,
}
use deploypilot.Strings.{to_lower}
use deploypilot.Deployer.{Host, M, Result, ok, err, Error, ◌>>=◌, ◌>>◌, pure, attempt}
use deploypilot.Deployer.Command.{DeployConfig}
use deploypilot.Deployer.Inspect.{ContainerStatus, get_container_status, stop, remove}
use deploypilot.Deployer.Deploy.{deploy}

-- `Error` says which attempt failed last, or that the context was cancelled.
pub data CheckError : Type 0 where
  no_error context_done : CheckError
  attempt_failed : ℕ → CheckError
  deploy_failed : Error → CheckError

pub record HealthResult : Type 0 where
  pub healthy : Bool
  pub attempts : ℕ
  pub error : CheckError

-- What a check reaches outside: whether the context is done at a round, and whether the probe
-- succeeds in it.
pub record Probe : Type 0 where
  pub done : ℕ → Bool
  pub succeeds : ℕ → Bool

-- The rounds of `CheckHTTP` and `CheckTCP` from `i` on; `last` is the error of the round before.
unfoldable pub probe_rounds : Probe → ℕ → ℕ → CheckError → ℕ → HealthResult
probe_rounds p retries i last zero = record { healthy = false; attempts = retries; error = last }
probe_rounds p retries i last (suc left) =
    if p.done i
    then record { healthy = false; attempts = i + 1; error = context_done }
    else elim (p.succeeds i) [
      | true ↦ record { healthy = true; attempts = i + 1; error = no_error }
      | false ↦ probe_rounds p retries (suc i) (attempt_failed (i + 1)) left
    ]

-- `CheckHTTP` and `CheckTCP`
unfoldable pub check : Probe → ℕ → HealthResult
unfolding probe_rounds
check p retries = probe_rounds p retries 0 no_error retries

pub data RollbackMessage : Type 0 where
  no_previous_image rolled_back : RollbackMessage
  redeploy_failed : Error → RollbackMessage

pub record RollbackResult : Type 0 where
  pub success : Bool
  pub old_image : Text
  pub message : RollbackMessage
  pub was_rolled_back : Bool

-- The configuration with which `Rollback` deploys: an image and a name.
unfoldable pub bare_config : Text → Text → DeployConfig
bare_config name image = record {
  image = image;
  container_name = name;
  ports = [];
  env_vars = [];
  restart_policy = [];
  network = [];
  volumes = [];
  labels = [];
  cpu = [];
  memory = [];
}

unfoldable pub rollback_result : Text → Result ContainerStatus → RollbackResult
rollback_result image (ok s) = record {
  success = true;
  old_image = image;
  message = rolled_back;
  was_rolled_back = true;
}
rollback_result image (err e) = record {
  success = false;
  old_image = image;
  message = redeploy_failed e;
  was_rolled_back = false;
}

unfoldable pub stopped_only : RollbackResult
stopped_only = record {
  success = false;
  old_image = [];
  message = no_previous_image;
  was_rolled_back = false;
}

-- `Rollback`. Its errors are part of the result, so it does not fail.
unfoldable pub rollback : Host → Text → Text → M RollbackResult
unfolding bare_config rollback_result stopped_only
rollback h name [] = do attempt (stop h name); pure stopped_only
rollback h name (c ∷ image) = do
  attempt (stop h name)
  attempt (remove h name)
  status ← attempt (deploy h (bare_config name (c ∷ image)))
  pure (rollback_result (c ∷ image) status)

-- The probe that a kind of check makes, if it makes one.
pub record Probes : Type 0 where
  pub http : Probe
  pub tcp : Probe

unfoldable pub run_check : Probes → Text → HealthResult
unfolding check
run_check p kind =
    if to_lower kind == codes "http"
    then check p.http 3
    else if to_lower kind == codes "tcp"
    then check p.tcp 3
    else record { healthy = true; attempts = 0; error = no_error }

abbrev pub image_or_empty : Result ContainerStatus → Text
image_or_empty (ok s) = s.image
image_or_empty (err e) = []

-- The part of `DeployWithHealthCheck` behind the deployment.
after_deploy :
    Host
    → DeployConfig
    → Probes
    → Text
    → Text
    → Result ContainerStatus
    → M (Option ContainerStatus × HealthResult × Option RollbackResult)
unfolding run_check
after_deploy h cfg p kind current (err e) =
    pure (none, record { healthy = false; attempts = 0; error = deploy_failed e }, none)
after_deploy h cfg p kind current (ok status) =
    let health : HealthResult = run_check p kind in
    if health.healthy then pure (some status, health, none) else (do
      rolled ← rollback h cfg.container_name current
      pure (some status, health, some rolled))

-- `DeployWithHealthCheck`
unfoldable pub deploy_with_health_check :
    Host
    → DeployConfig
    → Probes
    → Text
    → M (Option ContainerStatus × HealthResult × Option RollbackResult)
unfolding after_deploy
deploy_with_health_check h cfg p kind = do
  existing ← attempt (get_container_status h cfg.container_name)
  status ← attempt (deploy h cfg)
  after_deploy h cfg p kind (image_or_empty existing) status
