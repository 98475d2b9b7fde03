-- ===== src/DeployService/Run.antt =====
-- internal/service/deploy_service.go: `Deploy`. The commands that were run on the machine of the
-- program, and those on each server, are kept apart, the newest first.
use deploypilot.Base.{
  List, [], Option, none, some, Text, codes, is_empty, if◌then◌else◌, ◌==◌, text_tested,
}
use deploypilot.Deployer.{Host, Result, ok, err}
use deploypilot.Deployer.Inspect.{ContainerStatus}
use deploypilot.Deployer.Deploy.{deploy}
use deploypilot.Deployer.Health.{bare_config}
use deploypilot.DeployService.Preflight.{PreflightResult, PreflightConfig, run_preflight}
use deploypilot.DeployService.Records.{
  DeployConfig, server_not_found, no_remote_executor, preflight_error, deploy_error, ServiceResult,
  done, failed_with, Server, preflight, pull, run, Journal, Bridge, save_deployment_record, publish,
  count,
}

pub record World : Type 0 where
  pub log : List Text
  pub remote_log : Text → List Text
  pub journal : Journal

-- The configuration that is recorded for a preflight that fails.
unfoldable pub bare_request : DeployConfig → DeployConfig
bare_request cfg = record {
  container = bare_config cfg.container.container_name cfg.container.image;
  app_name = [];
  server_id = cfg.server_id;
}

-- What `Deploy` does with a preflight that fails.
unfoldable pub refuse_deploy : Bridge → DeployConfig → PreflightResult → Journal → Journal
unfolding bare_request
refuse_deploy b cfg pf j = count cfg (codes "failed") (
    publish cfg.container.container_name preflight (codes "failed") 20
      (save_deployment_record b (bare_request cfg) (codes "preflight_failed") (some pf) j))

-- What it publishes before the deployer is called.
unfoldable pub announce : DeployConfig → Journal → Journal
announce cfg j =
    publish cfg.container.container_name pull (codes "running") 30
      (publish cfg.container.container_name preflight (codes "success") 20 j)

-- What it does with the deployer's result.
unfoldable pub finish_deploy :
    Bridge
    → DeployConfig
    → Result ContainerStatus
    → Journal
    → ServiceResult ContainerStatus × Journal
finish_deploy b cfg (err e) j = (
  failed_with (deploy_error e),
  publish cfg.container.container_name run (codes "failed") 60
      (count cfg (codes "failed") (save_deployment_record b cfg (codes "failed") none j)),
)
finish_deploy b cfg (ok cs) j = (
  done cs,
  publish cfg.container.container_name run (codes "success") 90
      (count cfg (codes "success") (save_deployment_record b cfg (codes "success") none j)),
)

-- `Deploy` behind its preflight.
unfoldable pub deploy_checked :
    Bridge
    → Host
    → DeployConfig
    → PreflightResult × List Text
    → Journal
    → (ServiceResult ContainerStatus × Journal) × List Text
unfolding refuse_deploy announce finish_deploy
deploy_checked b h cfg (pf, log) j =
    if pf.passed
    then (let (r, log') = deploy h cfg.container log in
        (finish_deploy b cfg r (announce cfg j), log'))
    else ((failed_with (preflight_error pf), refuse_deploy b cfg pf j), log)

unfoldable pub preflight_config : Server → DeployConfig → PreflightConfig
preflight_config s cfg = record {
  host = s.host;
  port = s.port;
  port_mappings = cfg.container.ports;
}

-- `Deploy` on an executor.
unfoldable pub deploy_on :
    Bridge
    → Host
    → Server
    → DeployConfig
    → List Text
    → Journal
    → (ServiceResult ContainerStatus × Journal) × List Text
unfolding deploy_checked preflight_config
deploy_on b h s cfg log j =
    deploy_checked b h cfg (run_preflight h b.dial (preflight_config s cfg) log) j

unfoldable pub no_server : Server
no_server = record { host = []; port = 0 }

unfoldable pub deploy_local : Bridge → DeployConfig → World → ServiceResult ContainerStatus × World
unfolding deploy_on no_server
deploy_local b cfg w =
    let ((r, j), log) = deploy_on b b.executor no_server cfg w.log w.journal in
    (r, record w { log = log; journal = j })

-- `Deploy` for a server that is named, with its row and the executor that is opened for it.
unfoldable pub deploy_remote :
    Bridge
    → DeployConfig
    → Option Server
    → Option Host
    → World
    → ServiceResult ContainerStatus × World
unfolding deploy_on
deploy_remote b cfg none executor w = (failed_with server_not_found, w)
deploy_remote b cfg (some s) none w = (failed_with no_remote_executor, w)
deploy_remote b cfg (some s) (some h) w =
    let ((r, j), log) = deploy_on b h s cfg (w.remote_log cfg.server_id) w.journal in
    (
      r,
      record w {
        remote_log = λ id. if id == cfg.server_id then log else w.remote_log id;
        journal = j;
      },
    )

-- `Deploy`
unfoldable pub run_deploy : Bridge → DeployConfig → World → ServiceResult ContainerStatus × World
unfolding deploy_local deploy_remote
run_deploy b cfg w =
    if is_empty cfg.server_id
    then deploy_local b cfg w
    else deploy_remote b cfg (b.find_server cfg.server_id) (b.get_remote_executor cfg.server_id) w
