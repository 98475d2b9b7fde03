-- ===== src/DeployService/Tests.antt =====
-- Concrete deployments and rollbacks by the bridge.
use deploypilot.Base.{
  ◌==◌, ◌*◌, ◌/◌, ltb, if◌then◌else◌, ◌++◌, ℕ, ◌≡◌, ◌≢◌, ◌↔◌, refl, Bool, true, false, List, [],
  ◌∷◌, none, some, Option, Text, codes, arith, join, map, text_tested,
}
use deploypilot.Strings.{parse_int, trim_space, split}
use deploypilot.Deployer.{Host}
use deploypilot.Deployer.Inspect.{get_container_status, parse_status}
use deploypilot.Deployer.Deploy.{deploy, minimal_status}
use deploypilot.DeployService.Preflight.{
  disk_space, memory, check_docker, check_port_conflict, port_command, PreflightConfig,
  run_preflight, parse_host_ports, host_ports_of, host_port, ports_free, is_busy,
}
use deploypilot.DeployService.Full.{
  Floats, in_gigabytes, disk_command, memory_command, check_disk_space, check_memory,
  parse_disk_size, first_checks, run_preflight_full,
}
use deploypilot.DeployService.Agree.{HasDisk, HasMemory, run_preflight_full-passes}
use deploypilot.DeployService.Ready.{run_preflight_iff, TcpReady, SshReady, DockerReady, PortsFree}
use deploypilot.DeployService.Records.{DeployConfig, failed_with, preflight_error, App, Bridge}
use deploypilot.DeployService.Run.{
  World, run_deploy, deploy_on, preflight_config, refuse_deploy, finish_deploy, no_server,
}
use deploypilot.DeployService.Rollback.{rollback_service, build_rollback_config}
use deploypilot.DeployService.Outcome.{Stores, Accounted, Succeeds, run_deploy-Accounted}
use deploypilot.DeployService.Target.{AllFail, deploys, rollback_service-deploys}
use deploypilot.DeployService.Restored.{Restores, build_rollback_config-Restores}
use deploypilot.DeployService.Refused.{
  deploy_on-refused, rollback_service_steps, cleared, target, current_image,
}
use deploypilot.DeployService.Ends.{EndsAs}
use deploypilot.DeployService.Untouched.{OnlyProbes}

-- Every command succeeds with no output.
abbrev quiet_host : Host
quiet_host = record { run_command = λ log cmd. some []; parse_time = λ s. none; now = 0 }

-- Every command answers a line, so that each port seems to be in use.
abbrev busy_host : Host
busy_host = record {
  run_command = λ log cmd. some (codes "LISTEN");
  parse_time = λ s. none;
  now = 0;
}

abbrev silent_host : Host
silent_host = record { run_command = λ log cmd. none; parse_time = λ s. none; now = 0 }

abbrev local_ports : PreflightConfig
local_ports = record { host = []; port = 0; port_mappings = codes "80:80" }

abbrev no_dial : Text → ℕ → Option Bool
no_dial host port = none

abbrev quiet_answer : Text → Option Text
quiet_answer cmd = some []

run_preflight_iff_example : ((run_preflight quiet_host no_dial local_ports []).0.passed ≡ true) ↔ (
    TcpReady quiet_answer quiet_host (λ log cmd. refl) no_dial local_ports
    × SshReady quiet_answer quiet_host (λ log cmd. refl) no_dial local_ports
    × DockerReady quiet_answer quiet_host (λ log cmd. refl) no_dial local_ports
    × PortsFree quiet_answer quiet_host (λ log cmd. refl) no_dial local_ports)
run_preflight_iff_example =
    run_preflight_iff quiet_answer quiet_host (λ log cmd. refl) no_dial local_ports []

-- A bridge with a database that stores everything, and no server.
abbrev bridge_on : Host → DeployConfig → Bridge
bridge_on h snapshot = record {
  executor = h;
  has_db = true;
  find_server = λ id. none;
  get_remote_executor = λ id. none;
  dial = no_dial;
  find_app = λ name. some (record {
    id = codes "1";
    name = codes "shop";
    domain = [];
    env_vars = [];
    resource_limits = [];
  });
  app_id_of = λ name. none;
  stores = λ r. true;
  marshal = λ cfg. codes "{}";
  unmarshal = λ s. some snapshot;
  unmarshal_map = λ s. none;
}

abbrev web : DeployConfig
web = record {
  container = record {
    image = codes "nginx:1";
    container_name = codes "web";
    ports = codes "80:80";
    env_vars = [];
    restart_policy = [];
    network = codes "front";
    volumes = [];
    labels = [];
    cpu = [];
    memory = [];
  };
  app_name = [];
  server_id = [];
}

abbrev empty_world : World
empty_world = record {
  log = [];
  remote_log = λ id. [];
  journal = record { records = []; events = []; counted = []; versions = [] };
}

abbrev quiet_bridge : Bridge
quiet_bridge = bridge_on quiet_host web

stored : (h : Host) → Stores (bridge_on h web)
stored h = record { present = refl; accepts = λ r. refl }

run_deploy-Accounted_example :
    Accounted quiet_bridge
      (stored quiet_host)
      web
      empty_world
      (run_deploy quiet_bridge web empty_world)
run_deploy-Accounted_example = run_deploy-Accounted quiet_bridge (stored quiet_host) web empty_world

web_deployed : Succeeds (run_deploy quiet_bridge web empty_world).0
unfolding run_deploy run_preflight preflight_config no_server ports_free parse_host_ports
    host_ports_of host_port trim_space split deploy get_container_status parse_status
web_deployed = (minimal_status web.container [], refl)

-- A request with no image, which the deployer refuses.
abbrev nameless : DeployConfig
nameless = record web { container = record web.container { image = [] } }

nameless_fails : AllFail quiet_bridge (nameless ∷ []) (run_deploy quiet_bridge web empty_world).1
unfolding AllFail run_deploy run_preflight preflight_config no_server ports_free parse_host_ports
    host_ports_of host_port trim_space split deploy get_container_status parse_status finish_deploy
nameless_fails = (λ cs f. cc, tt)

rollback_service-deploys_example :
    rollback_service quiet_bridge
      (codes "web")
      []
      (deploys quiet_bridge (nameless ∷ []) (run_deploy quiet_bridge web empty_world).1)
    ≡ rollback_service quiet_bridge
        (codes "web")
        (codes "nginx:1")
        (deploys quiet_bridge (nameless ∷ []) (run_deploy quiet_bridge web empty_world).1)
rollback_service-deploys_example =
    rollback_service-deploys quiet_bridge (stored quiet_host) web (nameless ∷ []) empty_world
      (ground arith) web_deployed nameless_fails

abbrev shop : App
shop = record {
  id = codes "1";
  name = codes "shop";
  domain = [];
  env_vars = [];
  resource_limits = [];
}

build_rollback_config-Restores_example :
    let new =
      build_rollback_config quiet_bridge
        (codes "web")
        (codes "nginx:0")
        (run_deploy quiet_bridge web empty_world).1.journal in
    (Restores web.container new.container
      × (new.container.image ≡ codes "nginx:0")
      × (new.container.container_name ≡ codes "web"))
    × (new.server_id ≡ [])
    × (new.app_name ≡ codes "shop")
build_rollback_config-Restores_example =
    build_rollback_config-Restores quiet_bridge (stored quiet_host) web (ground arith) refl
      empty_world shop (codes "nginx:0") web_deployed refl

busy_report : (run_preflight busy_host no_dial (preflight_config no_server web) []).0.passed ≡ false
unfolding run_preflight preflight_config no_server ports_free parse_host_ports host_ports_of
    host_port trim_space split is_busy
busy_report = refl

deploy_on-refused_example :
    let b = bridge_on busy_host web in
    let (pf, log) = run_preflight busy_host no_dial (preflight_config no_server web) [] in
    (deploy_on b busy_host no_server web [] empty_world.journal
      ≡ ((failed_with (preflight_error pf), refuse_deploy b web pf empty_world.journal), log))
    × OnlyProbes [] log
deploy_on-refused_example =
    deploy_on-refused (bridge_on busy_host web) busy_host no_server web [] empty_world.journal
      busy_report

rollback_service_steps_example :
    let b = bridge_on quiet_host web in
    let name = codes "web" in
    let image = codes "nginx:0" in
    EndsAs b name image
      (target b name image empty_world).app_name
      (current_image b name image empty_world)
      (run_deploy b (target b name image empty_world) (cleared b name image empty_world))
      (rollback_service b name image empty_world)
rollback_service_steps_example =
    (rollback_service_steps (bridge_on quiet_host web) (codes "web") (codes "nginx:0") empty_world
        (ground arith)).1
      (λ e. cc e)

-- A float as a whole number of GB, which answers nothing but `10`.
abbrev whole : Floats ℕ
whole = record {
  parse_float = λ s. if s == codes "10" then some 10 else none;
  times = λ x n. x * n;
  over = λ x n. x / n;
  less = λ x n. ltb x n;
}

-- A host with 10 GB of disk and 900 MB of memory, and no listener.
abbrev roomy_host : Host
roomy_host = record {
  run_command = λ log cmd.
      if cmd == disk_command whole
      then some (codes " 10G")
      else if cmd == memory_command
      then some (codes "900")
      else some [];
  parse_time = λ s. none;
  now = 0;
}

roomy_passes : (run_preflight_full whole roomy_host no_dial local_ports []).0.passed ≡ true
unfolding run_preflight_full first_checks check_disk_space check_memory parse_disk_size parse_int
    trim_space check_port_conflict ports_free parse_host_ports host_ports_of host_port split
    port_command check_docker in_gigabytes deploypilot.Base.text_beq deploypilot.Base.all_of is_busy
roomy_passes = refl

run_preflight_full-passes_example :
    let r = run_preflight roomy_host no_dial local_ports [] in
    let full = run_preflight_full whole roomy_host no_dial local_ports [] in
    (r.0.passed ≡ true)
    × (full.0.checks
        ≡ (r.0.checks ++ record { name = disk_space; passed = true } ∷ [])
          ++ record { name = memory; passed = true } ∷ [])
    × (full.1 ≡ memory_command ∷ disk_command whole ∷ r.1)
    × HasDisk whole (roomy_host.run_command r.1 (disk_command whole))
    × HasMemory (roomy_host.run_command (disk_command whole ∷ r.1) memory_command)
run_preflight_full-passes_example =
    run_preflight_full-passes roomy_host no_dial local_ports whole [] roomy_passes
