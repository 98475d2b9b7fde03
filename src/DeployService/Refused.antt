-- ===== src/DeployService/Refused.antt =====
-- internal/service/deploy_service.go: deployments that are refused, and rollbacks step by step.
use deploypilot.Base.{
  ◌≡◌, ◌≢◌, refl, ◌∙◌, if_cases, false, List, [], ◌∷◌, Option, none, some, Text, codes, arith,
  is_empty, sym, subst,
}
use deploypilot.Deployer.{Host}
use deploypilot.Deployer.Command.{inspect_command, stop_command, remove_command}
use deploypilot.Deployer.Inspect.{get_container_status}
use deploypilot.Deployer.Health.{image_or_empty}
use deploypilot.Deployer.Rollback.{stop_runs, remove_runs}
use deploypilot.DeployService.Preflight.{run_preflight}
use deploypilot.DeployService.Records.{
  DeployConfig, failed_with, preflight_error, rollback_pull_failed, Server, Journal, Bridge,
}
use deploypilot.DeployService.Run.{
  World, deploy_on, deploy_checked, preflight_config, refuse_deploy, run_deploy,
}
use deploypilot.DeployService.Rollback.{
  rollback_service, rollback_with_type, rollback_to, rollback_pulled, finish_rollback,
  unquoted_pull, build_rollback_config,
}
use deploypilot.DeployService.Ends.{EndsAs, target-Named, finish_rollback-EndsAs}
use deploypilot.DeployService.Ready.{is_empty→eq}
use deploypilot.DeployService.Untouched.{OnlyProbes, run_preflight-OnlyProbes}

-- A deployment whose preflight fails runs no command but the echo, the version of docker and the
-- listings of listeners of a preflight; its error is the report, and its journal is the one of the
-- refusal.
pub deploy_on-refused :
    (b : Bridge) (h : Host) (s : Server) (cfg : DeployConfig) (log : List Text) (j : Journal)
    → let (pf, log') = run_preflight h b.dial (preflight_config s cfg) log in
      pf.passed ≡ false
      → (deploy_on b h s cfg log j
          ≡ ((failed_with (preflight_error pf), refuse_deploy b cfg pf j), log'))
        × OnlyProbes log log'
unfolding deploy_on deploy_checked
deploy_on-refused b h s cfg log j e =
    (rw e refl, run_preflight-OnlyProbes h (preflight_config s cfg) b.dial log)

status_runs :
    (h : Host) (name : Text) (log : List Text)
    → (get_container_status h name log).1 ≡ inspect_command name ∷ log
unfolding get_container_status
status_runs h name log = ground arith

module _ (b : Bridge) (name image : Text) (w : World) where
  abbrev pub looked : List Text
  looked = inspect_command name ∷ w.log

  -- What the host answers to the pull of a rollback.
  abbrev pub rollback_pulled_answer : Option Text
  rollback_pulled_answer = b.executor.run_command looked (unquoted_pull image)

  -- The world when the rollback calls `Deploy`.
  abbrev pub cleared : World
  cleared = record w {
    log = remove_command name ∷ stop_command name ∷ unquoted_pull image ∷ looked;
  }

  abbrev pub target : DeployConfig
  target = build_rollback_config b name image w.journal

  -- The image that is recorded as the one before.
  abbrev pub current_image : Text
  current_image = image_or_empty (get_container_status b.executor name w.log).0

  from_pull :
      (kind : Text)
      → rollback_to b name image kind w
        ≡ rollback_pulled b name image target current_image kind rollback_pulled_answer
            (record w { log = unquoted_pull image ∷ looked })
  unfolding rollback_to
  from_pull kind = rw (status_runs b.executor name w.log) refl

  to_image :
      image ≢ [] → rollback_service b name image w ≡ rollback_to b name image (codes "rollback") w
  unfolding rollback_service rollback_with_type
  to_image n =
      if_cases (λ r. r ≡ rollback_to b name image (codes "rollback") w) (is_empty image) _ _
        (λ e. absurd (n (is_empty→eq image e))) (λ _. refl)

  pull_succeeds :
      (out : Option Text)
      → out ≢ none
      → rollback_pulled b name image target current_image
          (codes "rollback")
          out
          (record w { log = unquoted_pull image ∷ looked })
        ≡ finish_rollback b image target current_image
            (codes "rollback")
            (run_deploy b target cleared)
  unfolding rollback_pulled
  pull_succeeds none e = absurd (e refl)
  pull_succeeds (some out) e =
      rw (stop_runs b.executor name (unquoted_pull image ∷ looked))
        (rw (remove_runs b.executor name (stop_command name ∷ unquoted_pull image ∷ looked)) refl)

  -- A rollback to an image that is not empty: where its pull fails, it has only looked at the container
  -- and tried the pull, so that the container is not stopped and nothing is recorded. Where the pull
  -- succeeds it stops and removes the container, whatever the host answers, and then deploys: it
  -- answers the container of that deployment, or fails where that failed, and runs no further command.
  -- What it records, if the database takes it, names the container, the image, the image before, and
  -- success exactly where the deployment succeeded; then the app's version is set, where there is one.
  pub rollback_service_steps :
      image ≢ []
      → (rollback_pulled_answer ≡ none
          → rollback_service b name image w
            ≡ (failed_with rollback_pull_failed, record w { log = unquoted_pull image ∷ looked }))
        × (rollback_pulled_answer ≢ none
            → EndsAs b name image target.app_name current_image
                (run_deploy b target cleared)
                (rollback_service b name image w))
  unfolding rollback_pulled
  rollback_service_steps n = (
    λ e. to_image n ∙ from_pull (codes "rollback") ∙ rw e refl,
    λ e.
        subst (EndsAs b name image target.app_name current_image (run_deploy b target cleared))
          (sym (to_image n ∙ from_pull (codes "rollback") ∙ pull_succeeds rollback_pulled_answer e))
          (finish_rollback-EndsAs b name image target current_image (target-Named b name image w)
            (run_deploy b target cleared)),
  )
