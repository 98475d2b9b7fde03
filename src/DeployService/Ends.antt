-- ===== src/DeployService/Ends.antt =====
-- internal/service/deploy_service.go: what a rollback answers and records behind its deployment.
use deploypilot.Base.{
  ◌≡◌, refl, List, ◌∷◌, Option, none, some, Text, codes, is_empty, ◌↔◌, ap, Bool-cases, inl, inr,
  ◌&&◌, if◌then◌else◌,
}
use deploypilot.DeployService.Outcome.{Succeeds}
use deploypilot.Deployer.Command.{DeployConfig as ContainerConfig}
use deploypilot.Deployer.Inspect.{ContainerStatus}
use deploypilot.Deployer.Health.{bare_config}
use deploypilot.DeployService.Records.{
  DeployConfig, ServiceResult, done, failed_with, rollback_deploy_failed, App, DeploymentRecord,
  Journal, Bridge, save_rollback_record, create_record,
}
use deploypilot.DeployService.Run.{World}
use deploypilot.DeployService.Rollback.{
  finish_rollback, build_rollback_config, config_for, with_env, with_limits, with_app,
  merge_snapshot, with_snapshot, minimal_config,
}

-- What a rollback answers, from what its deployment does, and what becomes of the versions.
unfoldable pub Answers :
    Text
    → Text
    → ServiceResult ContainerStatus × List (Text × Text)
    → ServiceResult ContainerStatus × List (Text × Text)
    → Type 0
Answers image app (failed_with e, vs) (r, vs') =
    (r ≡ failed_with (rollback_deploy_failed e)) × (vs' ≡ vs)
Answers image app (done cs, vs) (r, vs') =
    (r ≡ done cs) × (vs' ≡ (if is_empty app then vs else (app, image) ∷ vs))

-- How a rollback ends behind its deployment.
abbrev pub EndsAs :
    Bridge
    → Text
    → Text
    → Text
    → Text
    → ServiceResult ContainerStatus × World
    → ServiceResult ContainerStatus × World
    → Type 0
EndsAs b name image app before (d, w) (r, w') =
    Answers image app (d, w.journal.versions) (r, w'.journal.versions)
    × (w'.log ≡ w.log)
    × (w'.remote_log ≡ w.remote_log)
    × ((new : DeploymentRecord) × (w'.journal.records
          ≡ (if b.has_db && b.stores new then new ∷ w.journal.records else w.journal.records))
        × (new.container_name ≡ name)
        × (new.image ≡ image)
        × (new.previous_image ≡ before)
        × (new.deploy_type ≡ codes "rollback")
        × ((new.status ≡ codes "success") ↔ Succeeds d))

abbrev Named : Text → Text → ContainerConfig → Type 0
Named name image c = (c.container_name ≡ name) × (c.image ≡ image)

module _ (name image : Text) where
  env-Named :
      (m : Option (List (Text × Text))) (c : ContainerConfig)
      → Named name image c
      → Named name image (with_env m c)
  unfolding with_env
  env-Named none c p = p
  env-Named (some m) c p = p

  limits-Named :
      (m : Option (List (Text × Text))) (c : ContainerConfig)
      → Named name image c
      → Named name image (with_limits m c)
  unfolding with_limits
  limits-Named none c p = p
  limits-Named (some m) c p = p

  snapshot-Named :
      (s : Option DeployConfig) (c : ContainerConfig)
      → Named name image c
      → Named name image (with_snapshot s c)
  unfolding with_snapshot merge_snapshot
  snapshot-Named none c p = p
  snapshot-Named (some s) c p = p

  config-Named :
      (b : Bridge) (app : Option App) (j : Journal)
      → Named name image (config_for b app name image j).container
  unfolding config_for with_app minimal_config bare_config
  config-Named b none j = (refl, refl)
  config-Named b (some app) j = snapshot-Named _ _ (limits-Named _ _ (env-Named _ _ (refl, refl)))

pub target-Named :
    (b : Bridge) (name image : Text) (w : World)
    → Named name image (build_rollback_config b name image w.journal).container
unfolding build_rollback_config
target-Named b name image w = config-Named name image b _ w.journal

created :
    (b : Bridge) (r : DeploymentRecord) (j : Journal)
    → ((create_record b r j).versions ≡ j.versions)
      × ((create_record b r j).records
          ≡ (if b.has_db && b.stores r then r ∷ j.records else j.records))
unfolding create_record
created b r j = elim (Bool-cases (b.has_db && b.stores r)) [
  | inl e ↦ rw e (refl, refl)
  | inr e ↦ rw e (refl, refl)
]

pub finish_rollback-EndsAs :
    (b : Bridge) (name image : Text) (cfg : DeployConfig) (before : Text)
    → Named name image cfg.container
    → (d : ServiceResult ContainerStatus × World)
    → EndsAs b name image cfg.app_name before d
        (finish_rollback b image cfg before (codes "rollback") d)
unfolding finish_rollback save_rollback_record Answers
finish_rollback-EndsAs b name image cfg before n (failed_with e, w) =
    let (versions, records) = created b _ w.journal in
    ((refl, versions), refl, refl, (_, records, n.0, n.1, refl, refl, (λ f. cc, λ f. cc (f.1))))
finish_rollback-EndsAs b name image cfg before n (done cs, w) =
    let (versions, records) = created b _ w.journal in
    (
      (refl, ap (λ vs. if is_empty cfg.app_name then vs else (cfg.app_name, image) ∷ vs) versions),
      refl,
      refl,
      (_, records, n.0, n.1, refl, refl, (λ _. (cs, refl), λ _. refl)),
    )
