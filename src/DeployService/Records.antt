-- ===== src/DeployService/Records.antt =====
-- internal/service/deploy_service.go: the deployment records, and what the bridge keeps and reaches.
-- The records stand newest first, as `Order("created_at DESC")` has them; their ids and times, the
-- log lines and the durations are left out. The tables of servers and apps, which a deployment only
-- reads, are parameters, as are the encoding of JSON and whether the database stores a record.
use deploypilot.Base.{
  ℕ, Bool, not, ◌&&◌, List, [], ◌∷◌, Option, none, some, Text, codes, is_empty, if◌then◌else◌, ◌==◌,
  text_tested, keep_if, ltb,
}
use deploypilot.Strings.{ℤ, pos, negsuc}
use deploypilot.Batch.{take}
use deploypilot.Deployer.{Host, Error}
use deploypilot.Deployer.Command as Command
use deploypilot.DeployService.Preflight.{PreflightCheck, PreflightErrorCode, PreflightResult}

-- mcp.DeployConfig: the fields that the deployer takes, and two of the bridge's own.
pub record DeployConfig : Type 0 where
  pub container : Command.DeployConfig
  pub app_name : Text
  pub server_id : Text

pub data ServiceError : Type 0 where
  server_not_found no_remote_executor no_previous_image rollback_pull_failed no_database :
      ServiceError
  preflight_error : PreflightResult → ServiceError
  deploy_error : Error → ServiceError
  rollback_deploy_failed : ServiceError → ServiceError

pub data ServiceResult {ℓ} (A : Type ℓ) : Type ℓ where
  done : A → ServiceResult A
  failed_with : ServiceError → ServiceResult A

pub record DeploymentRecord : Type 0 where
  pub server_id : Text
  pub app_name : Text
  pub app_id : Text
  pub container_name : Text
  pub image : Text
  pub previous_image : Text
  pub deploy_type : Text
  pub config_snapshot : Text
  pub status : Text
  pub preflight_code : Option PreflightErrorCode
  pub preflight_checks : List PreflightCheck
  pub error_message : Option ServiceError

-- The columns of an app that a rollback reads.
pub record App : Type 0 where
  pub id : Text
  pub name : Text
  pub domain : Text
  pub env_vars : Text
  pub resource_limits : Text

pub record Server : Type 0 where
  pub host : Text
  pub port : ℕ

pub data Step : Type 0 where
  preflight pull run : Step

pub record DeployEvent : Type 0 where
  pub app_id : Text
  pub step : Step
  pub status : Text
  pub progress : ℕ

-- One increment of the counter of deployments.
pub record Counted : Type 0 where
  pub container : Text
  pub server : Text
  pub outcome : Text

-- What the bridge writes; the newest entry of each list comes first.
pub record Journal : Type 0 where
  pub records : List DeploymentRecord
  pub events : List DeployEvent
  pub counted : List Counted
  pub versions : List (Text × Text)

-- What the bridge reaches. With no database `find_server` answers none, where the code panics.
pub record Bridge : Type 0 where
  pub executor : Host
  pub has_db : Bool
  pub find_server : Text → Option Server
  pub get_remote_executor : Text → Option Host
  pub dial : Text → ℕ → Option Bool
  pub find_app : Text → Option App
  pub app_id_of : Text → Option Text
  pub stores : DeploymentRecord → Bool
  pub marshal : DeployConfig → Text
  pub unmarshal : Text → Option DeployConfig
  pub unmarshal_map : Text → Option (List (Text × Text))

abbrev pub text_or_empty : Option Text → Text
text_or_empty none = []
text_or_empty (some t) = t

-- The id of the app of a configuration, where there is one.
pub resolve_app_id : Bridge → Text → Text
resolve_app_id b name = if is_empty name then [] else text_or_empty (b.app_id_of name)

-- `b.DB.Create(record)`; its error is only logged.
unfoldable pub create_record : Bridge → DeploymentRecord → Journal → Journal
create_record b r j = if b.has_db && b.stores r then record j { records = r ∷ j.records } else j

abbrev pub code_in : Option PreflightResult → Option PreflightErrorCode
code_in none = none
code_in (some pf) = pf.code

abbrev pub checks_in : Option PreflightResult → List PreflightCheck
checks_in none = []
checks_in (some pf) = pf.checks

unfoldable pub deployment_record :
    Bridge → DeployConfig → Text → Option PreflightResult → DeploymentRecord
unfolding resolve_app_id
deployment_record b cfg status pf = record {
  server_id = cfg.server_id;
  app_name = cfg.app_name;
  app_id = resolve_app_id b cfg.app_name;
  container_name = cfg.container.container_name;
  image = cfg.container.image;
  previous_image = [];
  deploy_type = codes "deploy";
  config_snapshot = b.marshal cfg;
  status = status;
  preflight_code = code_in pf;
  preflight_checks = checks_in pf;
  error_message = none;
}

-- `saveDeploymentRecord`
unfoldable pub save_deployment_record :
    Bridge → DeployConfig → Text → Option PreflightResult → Journal → Journal
unfolding create_record deployment_record
save_deployment_record b cfg status pf j = create_record b (deployment_record b cfg status pf) j

-- `saveRollbackRecord`
unfoldable pub save_rollback_record :
    Bridge → DeployConfig → Text → Text → Text → Option ServiceError → Journal → Journal
unfolding create_record
save_rollback_record b cfg current deploy_type status error j =
    create_record b
      (record {
        server_id = cfg.server_id;
        app_name = cfg.app_name;
        app_id = [];
        container_name = cfg.container.container_name;
        image = cfg.container.image;
        previous_image = current;
        deploy_type = deploy_type;
        config_snapshot = b.marshal cfg;
        status = status;
        preflight_code = none;
        preflight_checks = [];
        error_message = error;
      })
      j

-- `b.EventBus.Publish`
abbrev pub publish : Text → Step → Text → ℕ → Journal → Journal
publish app step status progress j = record j {
  events = record { app_id = app; step = step; status = status; progress = progress } ∷ j.events;
}

-- `metrics.DeployTotal.WithLabelValues(...).Inc()`
abbrev pub count : DeployConfig → Text → Journal → Journal
count cfg outcome j = record j {
  counted =
      record { container = cfg.container.container_name; server = cfg.server_id; outcome = outcome }
      ∷ j.counted;
}

-- The first element that passes a test.
unfoldable pub find_first {ℓ} : {A : Type ℓ} → (A → Bool) → List A → Option A
find_first p [] = none
find_first p (x ∷ xs) = let rest = find_first p xs in if p x then some x else rest

abbrev pub is_success_of : Text → DeploymentRecord → Bool
is_success_of name r = r.container_name == name && r.status == codes "success"

-- The query for the newest successful record of a container.
unfoldable pub last_success : Bridge → Text → Journal → Option DeploymentRecord
unfolding find_first
last_success b name j = if b.has_db then find_first (is_success_of name) j.records else none

abbrev image_in : Option DeploymentRecord → Option Text
image_in none = none
image_in (some r) = some r.image

-- `findPreviousSuccessfulImage`
unfoldable pub find_previous_successful_image : Bridge → Text → Journal → Option Text
unfolding last_success
find_previous_successful_image b name j = image_in (last_success b name j)

-- `GetLatestDeploymentRecord`
pub get_latest_deployment_record : Text → Journal → Option DeploymentRecord
unfolding find_first
get_latest_deployment_record name j = find_first (λ r. r.container_name == name) j.records

pub history_limit : ℤ → ℕ
history_limit (negsuc n) = 20
history_limit (pos n) = if ltb 0 n && not (ltb 100 n) then n else 20

-- `GetDeploymentHistory`; a query that fails is left out.
pub get_deployment_history : Bridge → Text → ℤ → Journal → ServiceResult (List DeploymentRecord)
unfolding take history_limit
get_deployment_history b name limit j =
    if b.has_db
    then done (take (history_limit limit) (keep_if (λ r. r.container_name == name) j.records))
    else failed_with no_database
