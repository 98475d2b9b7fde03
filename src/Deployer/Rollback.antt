-- ===== src/Deployer/Rollback.antt =====
-- internal/engine/deployer/health.go: what a failed health check does to the container.
use deploypilot.Base.{
  text_tested, ◌∙◌, Option, ◌≡◌, ◌≢◌, ◌↔◌, refl, true, false, List, [], ◌∷◌, none, some, Text,
  codes, arith,
}
use deploypilot.Shell.{blanked}
use deploypilot.Shell.Lexer.{shell_words}
use deploypilot.Deployer.{Host, M, ◌>>=◌, pure, Result, ok, err, Error}
use deploypilot.Deployer.Command.{DeployConfig, stop_command, remove_command, build_run_command}
use deploypilot.Deployer.Inspect.{ContainerStatus, get_container_status, stop, remove}
use deploypilot.Deployer.Deploy.{deploy}
use deploypilot.Deployer.Rounds.{IsHealthy, run_check_iff, not_true}
use deploypilot.Deployer.Argv.{shell_words-build_run_command, run_argv}
use deploypilot.Deployer.Health.{
  Probes, HealthResult, RollbackResult, deploy_failed, bare_config, rollback, rollback_result,
  stopped_only, image_or_empty, run_check, deploy_with_health_check,
}

-- The commands before the redeployment of a rollback.
abbrev pub after_removal : Text → List Text → List Text
after_removal name log = remove_command name ∷ stop_command name ∷ log

pub stop_runs :
    (h : Host) (name : Text) (log : List Text) → (stop h name log).1 ≡ stop_command name ∷ log
unfolding stop
stop_runs h name log = ground arith

pub remove_runs :
    (h : Host) (name : Text) (log : List Text) → (remove h name log).1 ≡ remove_command name ∷ log
unfolding remove
remove_runs h name log = ground arith

rollback_none :
    (h : Host) (name : Text) (log : List Text)
    → rollback h name [] log ≡ (ok stopped_only, stop_command name ∷ log)
unfolding rollback
rollback_none h name log = rw (stop_runs h name log)

rollback_some :
    (h : Host) (name image : Text) (log : List Text)
    → image ≢ []
    → let deployed = deploy h (bare_config name image) (after_removal name log) in
      rollback h name image log ≡ (ok (rollback_result image deployed.0), deployed.1)
unfolding rollback
rollback_some h name [] log n = absurd (n refl)
rollback_some h name (c ∷ s) log n =
    rw (stop_runs h name log) (rw (remove_runs h name (stop_command name ∷ log)))

told :
    (image : Text) (r : Result ContainerStatus)
    → ((rollback_result image r).was_rolled_back ≡ true) ↔ ((s : ContainerStatus) × (r ≡ ok s))
unfolding rollback_result
told image (ok s) = (λ e. (s, refl), λ e. refl)
told image (err e) = (λ f. cc, λ f. cc (f.1))

-- A rollback to an image stops and removes the container, whatever the host answers, and then makes
-- one deployment of that image under that name. It says that it rolled back exactly when that
-- deployment succeeds. With no image it only stops the container, and says that it did not.
pub rollback_trace :
    (h : Host) (name image : Text) (log : List Text)
    → ((rollback h name [] log ≡ (ok stopped_only, stop_command name ∷ log))
        × (stopped_only.was_rolled_back ≡ false))
      × (image ≢ []
          → let deployed = deploy h (bare_config name image) (after_removal name log) in
            let result = rollback_result image deployed.0 in
            (rollback h name image log ≡ (ok result, deployed.1))
            × ((result.was_rolled_back ≡ true) ↔ ((s : ContainerStatus) × (deployed.0 ≡ ok s))))
unfolding stopped_only
rollback_trace h name image log =
    ((rollback_none h name log, refl), λ n. (rollback_some h name image log n, told image _))

-- Whatever the container ran with, a rollback runs it with its name, the default restart policy and
-- the image, and with nothing else: its ports, volumes, environment, labels, limits and network are
-- not restored.
pub rollback_argv :
    (name image : Text)
    → shell_words (build_run_command (bare_config name image))
      ≡ some (
          codes "docker"
          ∷ codes "run"
          ∷ codes "-d"
          ∷ codes "--name"
          ∷ blanked name
          ∷ codes "--restart"
          ∷ codes "unless-stopped"
          ∷ blanked image
          ∷ [])
unfolding bare_config run_argv blanked
rollback_argv name image = shell_words-build_run_command (bare_config name image)

-- The answer, from that of the rollback.
answered :
    ContainerStatus
    → HealthResult
    → Result RollbackResult × List Text
    → Result (Option ContainerStatus × HealthResult × Option RollbackResult) × List Text
answered s health (ok rolled, log) = (ok (some s, health, some rolled), log)
answered s health (err e, log) = (err e, log)

behind_rollback :
    (s : ContainerStatus) (health : HealthResult) (m : M RollbackResult) (log : List Text)
    → (m >>= λ rolled. pure (some s, health, some rolled)) log ≡ answered s health (m log)
unfolding answered
behind_rollback s health m log = go (m log)
  where
    go :
        (r : Result RollbackResult × List Text)
        → ((λ l. r) >>= λ rolled. pure (some s, health, some rolled)) log ≡ answered s health r
    go (ok rolled, l) = refl
    go (err x, l) = refl

module _ (h : Host) (cfg : DeployConfig) (p : Probes) (kind : Text) (log : List Text) where
  abbrev pub inspected : Result ContainerStatus × List Text
  inspected = get_container_status h cfg.container_name log

  abbrev pub deployed_after : Result ContainerStatus × List Text
  deployed_after = deploy h cfg inspected.1

  -- The image that the container ran before the deployment, or none where that could not be read.
  abbrev pub image_before : Text
  image_before = image_or_empty inspected.0

  -- The deployment of the image before, behind the stop and the removal of the new container.
  abbrev pub redeployed : Result ContainerStatus × List Text
  redeployed =
      deploy h (bare_config cfg.container_name image_before)
        (after_removal cfg.container_name deployed_after.1)

  unhealthy :
      (s : ContainerStatus)
      → deployed_after.0 ≡ ok s
      → (run_check p kind).healthy ≡ false
      → deploy_with_health_check h cfg p kind log
        ≡ answered s
            (run_check p kind)
            (rollback h cfg.container_name image_before deployed_after.1)
  unfolding deploy_with_health_check
  unhealthy s f sick =
      rw (f, sick)
        (behind_rollback s (run_check p kind) (rollback h cfg.container_name image_before)
          deployed_after.1)

  -- A deployment that fails is not checked and not rolled back, and its error is answered. One that
  -- succeeds and is healthy (a round of the check of its kind succeeds, or it has no such check) runs
  -- no further command. One that succeeds and is not healthy is followed by a rollback: where the image
  -- that the container ran before could be read, the container is stopped and removed and that image
  -- deployed, and the answer says whether that succeeded; where not, the container is only stopped.
  pub health_check_rolls_back :
      ((e : Error)
        → deployed_after.0 ≡ err e
        → deploy_with_health_check h cfg p kind log ≡ (
          ok (none, record { healthy = false; attempts = 0; error = deploy_failed e }, none),
          deployed_after.1,
        ))
      × ((s : ContainerStatus)
          → deployed_after.0 ≡ ok s
          → IsHealthy p kind
          → deploy_with_health_check h cfg p kind log
            ≡ (ok (some s, run_check p kind, none), deployed_after.1))
      × ((s : ContainerStatus)
          → deployed_after.0 ≡ ok s
          → ¬ IsHealthy p kind
          → (image_before ≢ []
              → deploy_with_health_check h cfg p kind log ≡ (
                ok (some s, run_check p kind, some (rollback_result image_before redeployed.0)),
                redeployed.1,
              ))
            × (image_before ≡ []
                → deploy_with_health_check h cfg p kind log ≡ (
                  ok (some s, run_check p kind, some stopped_only),
                  stop_command cfg.container_name ∷ deployed_after.1,
                )))
  unfolding deploy_with_health_check answered
  health_check_rolls_back = (
    λ e f. rw f refl,
    λ s f t. rw (f, (run_check_iff p kind).1 t) refl,
    λ s f u.
        let sick = not_true (run_check p kind).healthy (λ e. u ((run_check_iff p kind).0 e)) in
        (
          λ n.
              unhealthy s f sick
              ∙ rw (rollback_some h cfg.container_name image_before deployed_after.1 n) refl,
          λ e.
              unhealthy s f sick ∙ rw (e, rollback_none h cfg.container_name deployed_after.1) refl,
        ),
  )
