-- ===== src/Deployer/Deploy.antt =====
-- internal/engine/deployer/deployer.go: `Deploy`, `GetContainerLogs` and `HealthCheck`.
use deploypilot.Base.{
  ℕ, suc, zero, ◌*◌, ◌/◌, ◌==◌, nat_tested, text_tested, ◌||◌, Bool, not, [], ◌∷◌, ◌++◌, none, some,
  Text, codes, is_empty, if◌then◌else◌,
}
use deploypilot.Strings.{trim_space, decimal}
use deploypilot.Shell.{shell_quote}
use deploypilot.Deployer.{
  Host, M, Result, ok, err, image_required, name_required, pull_failed, run_failed, remove_failed,
  logs_failed, check_failed, cancelled, ◌>>=◌, ◌>>◌, pure, require, attempt, exec,
}
use deploypilot.Deployer.Command.{DeployConfig, pull_command, replace_command, build_run_command}
use deploypilot.Deployer.Inspect.{ContainerStatus, get_container_status}

-- The status that `Deploy` answers where the inspection fails; its `CreatedAt` is Go's zero time.
pub minimal_status : DeployConfig → Text → ContainerStatus
minimal_status cfg output = record {
  id = (let id = trim_space output in if is_empty id then cfg.container_name else id);
  name = cfg.container_name;
  image = cfg.image;
  status = codes "created";
  created_at = 0;
}

abbrev pub status_or : ContainerStatus → Result ContainerStatus → ContainerStatus
status_or d (ok s) = s
status_or d (err e) = d

-- `Deploy`
unfoldable pub deploy : Host → DeployConfig → M ContainerStatus
unfolding minimal_status
deploy h cfg = do
  require (not (is_empty cfg.image)) image_required
  require (not (is_empty cfg.container_name)) name_required
  exec h pull_failed (pull_command cfg.image)
  attempt (exec h remove_failed (replace_command cfg.container_name))
  output ← exec h run_failed (build_run_command cfg)
  status ← attempt (get_container_status h cfg.container_name)
  pure (status_or (minimal_status cfg output) status)

pub logs_command : Text → ℕ → Text
logs_command name tail =
    codes "docker logs --tail " ++ (decimal tail ++ (b' ' ∷ (shell_quote name ++ codes " 2>&1")))

-- `GetContainerLogs`
pub get_container_logs : Host → Text → ℕ → M Text
unfolding logs_command
get_container_logs h name tail = exec h logs_failed (logs_command name tail)

-- Durations in nanoseconds.
pub record HealthCheckConfig : Type 0 where
  pub kind : Text
  pub target : Text
  pub interval : ℕ
  pub timeout : ℕ
  pub retries : ℕ

abbrev second : ℕ
second = 1_000_000_000

abbrev or_default : ℕ → ℕ → ℕ
or_default n d = if n == 0 then d else n

pub with_defaults : HealthCheckConfig → HealthCheckConfig
with_defaults cfg = record cfg {
  interval = or_default cfg.interval (5 * second);
  timeout = or_default cfg.timeout (3 * second);
  retries = or_default cfg.retries 3;
}

-- `strings.TrimPrefix` by `tcp://`.
trim_tcp : Text → Text
trim_tcp (a ∷ b ∷ c ∷ d ∷ e ∷ f ∷ rest) =
    if a ∷ b ∷ c ∷ d ∷ e ∷ f ∷ [] == codes "tcp://" then rest else a ∷ b ∷ c ∷ d ∷ e ∷ f ∷ rest
trim_tcp s = s

-- `buildHealthCheckCommand`
unfoldable pub build_health_check_command : HealthCheckConfig → Text
unfolding trim_tcp
build_health_check_command cfg =
    let seconds = decimal (cfg.timeout / second) in
    if cfg.kind == codes "http"
    then codes "curl -sf --max-time " ++ (seconds ++ (b' ' ∷ cfg.target))
    else if cfg.kind == codes "tcp"
    then codes "timeout "
      ++ (seconds
          ++ (codes " bash -c 'echo > /dev/tcp/" ++ (trim_tcp cfg.target ++ codes "' 2>/dev/null")))
    else codes "echo ok"

-- The rounds of the loop from `i` on, as many as are left. `done i` is whether the context is
-- cancelled when round `i` begins; the sleep between two rounds changes nothing that is kept.
unfoldable pub check_rounds : Host → (ℕ → Bool) → Text → ℕ → ℕ → M (Unit {0})
check_rounds h done cmd i zero log = (err check_failed, log)
check_rounds h done cmd i (suc left) log =
    if done i then (err cancelled, log) else elim (h.run_command log cmd) [
      | some out ↦ (ok tt, cmd ∷ log)
      | none ↦ check_rounds h done cmd (suc i) left (cmd ∷ log)
    ]

-- `HealthCheck`
unfoldable pub health_check : Host → (ℕ → Bool) → HealthCheckConfig → M (Unit {0})
unfolding with_defaults check_rounds
health_check h done cfg =
    let cfg' = with_defaults cfg in
    if cfg.kind == codes "none" || is_empty cfg.kind
    then pure tt
    else check_rounds h done (build_health_check_command cfg') 0 cfg'.retries
