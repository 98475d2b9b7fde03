-- ===== src/DeployService/Rollback.antt =====
-- internal/service/deploy_service.go: `Rollback` and the configuration that it deploys.
use deploypilot.Base.{
  List, [], ◌∷◌, ◌++◌, Option, none, some, Text, codes, is_empty, if◌then◌else◌, ◌==◌, text_tested,
}
use deploypilot.Deployer.Command.{DeployConfig as ContainerConfig}
use deploypilot.Deployer.Inspect.{ContainerStatus, get_container_status, stop, remove}
use deploypilot.Deployer.Health.{bare_config, image_or_empty}
use deploypilot.DeployService.Records.{
  DeployConfig, no_previous_image, rollback_pull_failed, rollback_deploy_failed, ServiceResult,
  done, failed_with, DeploymentRecord, App, Journal, Bridge, save_rollback_record, last_success,
  find_previous_successful_image,
}
use deploypilot.DeployService.Run.{World, run_deploy}

-- `m[key]` of a Go map of texts.
unfoldable pub get_text : Text → List (Text × Text) → Text
get_text key [] = []
get_text key ((k, v) ∷ rest) = let v' = get_text key rest in if k == key then v else v'

abbrev pub or_keep {ℓ} : {A : Type ℓ} → List A → List A → List A
or_keep [] old = old
or_keep (x ∷ xs) old = x ∷ xs

unfoldable pub with_env : Option (List (Text × Text)) → ContainerConfig → ContainerConfig
with_env none c = c
with_env (some env) c = record c { env_vars = env }

unfoldable pub with_limits : Option (List (Text × Text)) → ContainerConfig → ContainerConfig
unfolding get_text
with_limits none c = c
with_limits (some limits) c = record c {
  cpu = get_text (codes "cpu") limits;
  memory = get_text (codes "memory") limits;
}

-- `json.Unmarshal` of a column, which is not tried where the column is empty.
unfoldable pub column_map : Bridge → Text → Option (List (Text × Text))
column_map b s = if is_empty s then none else b.unmarshal_map s

-- What the app's record restores.
unfoldable pub with_app : Bridge → App → ContainerConfig → ContainerConfig
unfolding with_env with_limits column_map
with_app b app c = with_limits (column_map b app.resource_limits) (
    with_env (column_map b app.env_vars)
      (record c { ports = if is_empty app.domain then c.ports else codes "80:80, 443:443" }))

-- What the snapshot of the last successful deployment restores: each field that it has.
unfoldable pub merge_snapshot : ContainerConfig → ContainerConfig → ContainerConfig
merge_snapshot snap c = record c {
  ports = or_keep snap.ports c.ports;
  env_vars = or_keep snap.env_vars c.env_vars;
  network = or_keep snap.network c.network;
  volumes = or_keep snap.volumes c.volumes;
  labels = or_keep snap.labels c.labels;
  cpu = or_keep snap.cpu c.cpu;
  memory = or_keep snap.memory c.memory;
  restart_policy = or_keep snap.restart_policy c.restart_policy;
}

unfoldable pub snapshot_of : Bridge → Option DeploymentRecord → Option DeployConfig
snapshot_of b none = none
snapshot_of b (some r) = if is_empty r.config_snapshot then none else b.unmarshal r.config_snapshot

unfoldable pub with_snapshot : Option DeployConfig → ContainerConfig → ContainerConfig
unfolding merge_snapshot
with_snapshot none c = c
with_snapshot (some snap) c = merge_snapshot snap.container c

-- The configuration with no app record.
unfoldable pub minimal_config : Text → Text → ContainerConfig
minimal_config name image = record (bare_config name image) {
  restart_policy = codes "unless-stopped";
}

unfoldable pub config_for : Bridge → Option App → Text → Text → Journal → DeployConfig
unfolding minimal_config with_app with_snapshot snapshot_of
config_for b none name image j = record {
  container = minimal_config name image;
  app_name = [];
  server_id = [];
}
config_for b (some app) name image j = record {
  container =
      with_snapshot (snapshot_of b (last_success b name j))
        (with_app b app (minimal_config name image));
  app_name = app.name;
  server_id = [];
}

-- `buildRollbackConfig`, which makes no error.
unfoldable pub build_rollback_config : Bridge → Text → Text → Journal → DeployConfig
unfolding config_for
build_rollback_config b name image j =
    config_for b (if b.has_db then b.find_app name else none) name image j

-- The pull that a rollback runs itself, with the image as it is.
unfoldable pub unquoted_pull : Text → Text
unquoted_pull image = codes "docker pull " ++ image

-- The record and the version that follow the deployment of a rollback.
unfoldable pub finish_rollback :
    Bridge
    → Text
    → DeployConfig
    → Text
    → Text
    → ServiceResult ContainerStatus × World
    → ServiceResult ContainerStatus × World
finish_rollback b image cfg current deploy_type (failed_with e, w) = (
  failed_with (rollback_deploy_failed e),
  record w {
    journal = save_rollback_record b cfg current deploy_type (codes "failed") (some e) w.journal;
  },
)
finish_rollback b image cfg current deploy_type (done cs, w) =
    let j = save_rollback_record b cfg current deploy_type (codes "success") none w.journal in
    (
      done cs,
      record w {
        journal = record j {
          versions =
              if is_empty cfg.app_name then j.versions else (cfg.app_name, image) ∷ j.versions;
        };
      },
    )

-- A rollback from its pull on.
unfoldable pub rollback_pulled :
    Bridge
    → Text
    → Text
    → DeployConfig
    → Text
    → Text
    → Option Text
    → World
    → ServiceResult ContainerStatus × World
unfolding finish_rollback
rollback_pulled b name image cfg current deploy_type none w = (failed_with rollback_pull_failed, w)
rollback_pulled b name image cfg current deploy_type (some out) w =
    let (r, log) = stop b.executor name w.log in
    let (r', log') = remove b.executor name log in
    finish_rollback b image cfg current deploy_type (run_deploy b cfg (record w { log = log' }))

-- A rollback to an image.
unfoldable pub rollback_to :
    Bridge → Text → Text → Text → World → ServiceResult ContainerStatus × World
unfolding rollback_pulled build_rollback_config unquoted_pull
rollback_to b name image deploy_type w =
    let (status, log) = get_container_status b.executor name w.log in
    rollback_pulled b name image (build_rollback_config b name image w.journal)
      (image_or_empty status) deploy_type (b.executor.run_command log (unquoted_pull image))
      (record w { log = unquoted_pull image ∷ log })

unfoldable pub rollback_found :
    Bridge → Text → Option Text → Text → World → ServiceResult ContainerStatus × World
unfolding rollback_to
rollback_found b name none deploy_type w = (failed_with no_previous_image, w)
rollback_found b name (some image) deploy_type w = rollback_to b name image deploy_type w

-- `RollbackWithType`
unfoldable pub rollback_with_type :
    Bridge → Text → Text → Text → World → ServiceResult ContainerStatus × World
unfolding rollback_found
rollback_with_type b name image deploy_type w =
    let kind = or_keep deploy_type (codes "rollback") in
    if is_empty image
    then rollback_found b name (find_previous_successful_image b name w.journal) kind w
    else rollback_to b name image kind w

-- `Rollback`
unfoldable pub rollback_service :
    Bridge → Text → Text → World → ServiceResult ContainerStatus × World
unfolding rollback_with_type
rollback_service b name image w = rollback_with_type b name image (codes "rollback") w
