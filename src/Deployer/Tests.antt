-- ===== src/Deployer/Tests.antt =====
-- Concrete deployments.
use deploypilot.Base.{
  ◌≡◌, refl, false, [], ◌∷◌, none, some, codes, ◌==◌, text_beq, nat_tested, join,
}
use deploypilot.Shell.{blanked, shell_quote, escape_quotes}
use deploypilot.Shell.Lexer.{shell_words}
use deploypilot.Strings.{decimal}
use deploypilot.Deployer.{Host, ok, err, pull_failed}
use deploypilot.Deployer.Command.{DeployConfig, build_run_command, pull_command}
use deploypilot.Deployer.Inspect.{get_container_status}
use deploypilot.Deployer.Deploy.{deploy, build_health_check_command}
use deploypilot.Deployer.Argv.{run_argv, shell_words-build_run_command}
use deploypilot.Deployer.Trace.{deploy_trace}
use deploypilot.Deployer.Rollback.{
  rollback_trace, health_check_rolls_back, after_removal, deployed_after,
}
use deploypilot.Deployer.Health.{
  Probe, Probes, bare_config, rollback, rollback_result, deploy_failed, deploy_with_health_check,
}

abbrev web : DeployConfig
web = record {
  image = codes "nginx:1";
  container_name = codes "web";
  ports = codes "80:80";
  env_vars = (codes "MOTD", codes "it's; up") ∷ [];
  restart_policy = [];
  network = [];
  volumes = [];
  labels = [];
  cpu = codes "2";
  memory = [];
}

-- A host on which every command succeeds with no output.
abbrev quiet_host : Host
quiet_host = record { run_command = λ log cmd. some []; parse_time = λ s. some 0; now = 0 }

abbrev broken_host : Host
broken_host = record { run_command = λ log cmd. none; parse_time = λ s. none; now = 0 }

web_command :
    build_run_command web
    ≡ codes
        "docker run -d --name 'web' --restart 'unless-stopped' -p '80:80' -e 'MOTD'='it'\"'\"'s; up' --cpus '2' 'nginx:1'"
unfolding build_run_command shell_quote escape_quotes blanked join
web_command = refl

shell_words-build_run_command_example :
    shell_words (build_run_command web)
    ≡ some (
        codes "docker"
        ∷ codes "run"
        ∷ codes "-d"
        ∷ codes "--name"
        ∷ codes "web"
        ∷ codes "--restart"
        ∷ codes "unless-stopped"
        ∷ codes "-p"
        ∷ codes "80:80"
        ∷ codes "-e"
        ∷ codes "MOTD=it's; up"
        ∷ codes "--cpus"
        ∷ codes "2"
        ∷ codes "nginx:1"
        ∷ [])
unfolding run_argv blanked
shell_words-build_run_command_example = shell_words-build_run_command web

deploy_trace_example :
    deploy broken_host web [] ≡ (err pull_failed, codes "docker pull 'nginx:1'" ∷ [])
unfolding pull_command shell_quote escape_quotes blanked
deploy_trace_example = ((deploy_trace broken_host web []).2 (λ e. cc) (λ e. cc)).0 refl

-- The third probe of three is the first to succeed.
abbrev slow_start : Probe
slow_start = record { done = λ i. false; succeeds = λ i. i == 2 }

rollback_trace_example :
    let deployed =
      deploy quiet_host
        (bare_config (codes "web") (codes "nginx:0"))
        (after_removal (codes "web") []) in
    rollback quiet_host (codes "web") (codes "nginx:0") []
    ≡ (ok (rollback_result (codes "nginx:0") deployed.0), deployed.1)
rollback_trace_example =
    ((rollback_trace quiet_host (codes "web") (codes "nginx:0") []).1 (λ e. cc)).0

abbrev no_probes : Probes
no_probes = record { http = slow_start; tcp = slow_start }

health_check_rolls_back_example :
    deploy_with_health_check broken_host web no_probes (codes "http") [] ≡ (
      ok (none, record { healthy = false; attempts = 0; error = deploy_failed pull_failed }, none),
      (deployed_after broken_host web no_probes (codes "http") []).1,
    )
unfolding deploy get_container_status
health_check_rolls_back_example =
    (health_check_rolls_back broken_host web no_probes (codes "http") []).0 pull_failed refl

-- The target of a health check is not quoted.
unquoted_target :
    shell_words (
      build_health_check_command (record {
        kind = codes "http";
        target = codes "http://a/;reboot";
        interval = 0;
        timeout = 3_000_000_000;
        retries = 1;
      }))
    ≡ none
unfolding build_health_check_command shell_words decimal text_beq
unquoted_target = refl
