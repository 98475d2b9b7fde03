-- ===== src/DeployService/Outcome.antt =====
-- internal/service/deploy_service.go: the records of deployments.
use deploypilot.Base.{
  ◌≡◌, ◌≢◌, ◌↔◌, ◌⊎◌, refl, true, inl, inr, List, [], ◌∷◌, Option, none, some, Text, codes, arith,
  is_empty, text_tested, if_cases,
}
use deploypilot.Deployer.{Host, Result, ok, err}
use deploypilot.Deployer.Inspect.{ContainerStatus}
use deploypilot.Deployer.Deploy.{deploy}
use deploypilot.Deployer.Health.{bare_config}
use deploypilot.DeployService.Preflight.{PreflightResult, run_preflight}
use deploypilot.DeployService.Records.{
  DeployConfig, preflight_error, server_not_found, no_remote_executor, ServiceResult, done,
  failed_with, DeploymentRecord, Server, Journal, Bridge, deployment_record, save_deployment_record,
  create_record,
}
use deploypilot.DeployService.Run.{
  World, bare_request, refuse_deploy, announce, finish_deploy, deploy_checked, preflight_config,
  deploy_on, no_server, deploy_local, deploy_remote, run_deploy,
}

-- A database that stores what it is given.
pub record Stores (b : Bridge) : Type 0 where
  pub present : b.has_db ≡ true
  pub accepts : (r : DeploymentRecord) → b.stores r ≡ true

abbrev pub Succeeds : ServiceResult ContainerStatus → Type 0
Succeeds r = (cs : ContainerStatus) × (r ≡ done cs)

-- One record was added: it is of this container and image, it is a success exactly if the deployment
-- was, and then it holds the configuration.
abbrev pub Recorded :
    Bridge → DeployConfig → Journal → ServiceResult ContainerStatus → Journal → Type 0
Recorded b cfg j r j' =
    (new : DeploymentRecord) × (j'.records ≡ new ∷ j.records)
    × (new.container_name ≡ cfg.container.container_name)
    × (new.image ≡ cfg.container.image)
    × ((new.status ≡ codes "success") ↔ Succeeds r)
    × (Succeeds r → new.config_snapshot ≡ b.marshal cfg)

module _ (b : Bridge) (s : Stores b) where
  saved :
      (cfg : DeployConfig) (status : Text) (pf : Option PreflightResult) (j : Journal)
      → (save_deployment_record b cfg status pf j).records
        ≡ deployment_record b cfg status pf ∷ j.records
  unfolding save_deployment_record create_record
  saved cfg status pf j = rw (s.present, s.accepts (deployment_record b cfg status pf)) refl

  finish-Recorded :
      (cfg : DeployConfig) (r : Result ContainerStatus) (j : Journal)
      → let (r', j') = finish_deploy b cfg r (announce cfg j) in Recorded b cfg j r' j'
  unfolding finish_deploy announce deployment_record
  finish-Recorded cfg (ok cs) j = (
    deployment_record b cfg (codes "success") none,
    saved cfg (codes "success") none _,
    refl,
    refl,
    (λ _. (cs, refl), λ _. refl),
    λ _. refl,
  )
  finish-Recorded cfg (err e) j = (
    deployment_record b cfg (codes "failed") none,
    saved cfg (codes "failed") none _,
    refl,
    refl,
    (λ f. cc, λ f. cc (f.1)),
    λ _. refl,
  )

  refused-Recorded :
      (cfg : DeployConfig) (pf : PreflightResult) (j : Journal)
      → Recorded b cfg j (failed_with (preflight_error pf)) (refuse_deploy b cfg pf j)
  unfolding refuse_deploy deployment_record bare_request bare_config
  refused-Recorded cfg pf j = (
    deployment_record b (bare_request cfg) (codes "preflight_failed") (some pf),
    saved (bare_request cfg) (codes "preflight_failed") (some pf) j,
    refl,
    refl,
    (λ f. cc, λ f. cc (f.1)),
    λ f. cc (f.1),
  )

  -- What holds of the two journals of a deployment, the one where it is refused included.
  checked-Recorded :
      (h : Host) (cfg : DeployConfig) (p : PreflightResult × List Text) (j : Journal)
      → let ((r, j'), log) = deploy_checked b h cfg p j in Recorded b cfg j r j'
  unfolding deploy_checked
  checked-Recorded h cfg (pf, log) j =
      if_cases Ends pf.passed _ _ (λ _. finish-Recorded cfg (deploy h cfg.container log).0 j)
        (λ _. refused-Recorded cfg pf j)
    where
      Ends : (ServiceResult ContainerStatus × Journal) × List Text → Type 0
      Ends e = Recorded b cfg j e.0.0 e.0.1

  abbrev pub Accounted : DeployConfig → World → ServiceResult ContainerStatus × World → Type 0
  Accounted cfg w e =
      Recorded b cfg w.journal e.0 e.1.journal
      ⊎ ((e.1 ≡ w)
          × (cfg.server_id ≢ [])
          × ((e.0 ≡ failed_with server_not_found) ⊎ (e.0 ≡ failed_with no_remote_executor)))

  local-Accounted : (cfg : DeployConfig) (w : World) → Accounted cfg w (deploy_local b cfg w)
  unfolding deploy_local deploy_on
  local-Accounted cfg w = inl (
      checked-Recorded b.executor cfg
        (run_preflight b.executor b.dial (preflight_config no_server cfg) w.log) w.journal)

  remote-Accounted :
      (cfg : DeployConfig) (s : Option Server) (h : Option Host) (w : World)
      → cfg.server_id ≢ []
      → Accounted cfg w (deploy_remote b cfg s h w)
  unfolding deploy_remote deploy_on
  remote-Accounted cfg none h w n = inr (refl, n, inl refl)
  remote-Accounted cfg (some s) none w n = inr (refl, n, inr refl)
  remote-Accounted cfg (some s) (some h) w n = inl (
      checked-Recorded h cfg
        (run_preflight h b.dial (preflight_config s cfg) (w.remote_log cfg.server_id)) w.journal)

  -- Where the database stores what it is given, a deployment adds exactly one record. It names the
  -- container and the image, and its status is `success` exactly if the deployment succeeds, whatever
  -- the preflight and the commands answer; then it holds the configuration. Only where a server is named that is not found, or to
  -- which no connection is made, does it add none; then it does nothing.
  pub run_deploy-Accounted : (cfg : DeployConfig) (w : World) → Accounted cfg w (run_deploy b cfg w)
  unfolding run_deploy
  run_deploy-Accounted cfg w =
      if_cases (Accounted cfg w) (is_empty cfg.server_id) _ _ (λ _. local-Accounted cfg w)
        (λ e.
          remote-Accounted cfg (b.find_server cfg.server_id) (b.get_remote_executor cfg.server_id) w
            (λ f. absurd (ground (arith, e, f))))
