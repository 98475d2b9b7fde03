-- ===== src/Healer/Tests.antt =====
-- A concrete run of the healer: a container that is unhealthy at every pass.
use deploypilot.Base.{
  ℕ, ◌+◌, ◌≤◌, ◌≡◌, refl, some, none, List, [], ◌∷◌, Text, codes, arith, if◌then◌else◌, text_beq,
  lookup, keep_if,
}
use deploypilot.Deployer.{Host}
use deploypilot.Deployer.Command.{detail_command, restart_count_command, inspect_command}
use deploypilot.Healer.{
  Healer, default_healing_config, treat, count_recent_restarts, needs_rollback, at_least,
  attempts_of, recent, record_restart, made, is_some, restarted, rolled_back, unhealthy,
}
use deploypilot.Healer.Restarts.{Pass, run_passes, restarts-le}
use deploypilot.Healer.Commands.{answered_runs, restart_runs}

abbrev sick_answer : Text → Text
sick_answer command =
    if text_beq command (detail_command (codes "web"))
    then codes "false|0|false|42|s|f|unhealthy"
    else if text_beq command (restart_count_command (codes "web"))
    then codes "0"
    else if text_beq command (inspect_command (codes "web"))
    then codes "id|/web|nginx|running|t"
    else codes "web"

abbrev sick_host : Host
sick_host = record {
  run_command = λ log command. some (sick_answer command);
  parse_time = λ s. none;
  now = 0;
}

abbrev fresh : Healer
fresh = record { config = default_healing_config; attempts = [] }

abbrev pass : ℕ → Pass
pass t = record { name = "web"; now = t; later = t + 1 }

abbrev passes : List Pass
passes = pass 10 ∷ pass 40 ∷ pass 70 ∷ pass 100 ∷ pass 130 ∷ []

restarts-le_example : restart_runs sick_host "web" (run_passes sick_host fresh [] passes) ≤ 0 + 3
unfolding answered_runs
restarts-le_example =
    restarts-le sick_host "web" fresh [] 200 passes refl
      (
        (omega arith, omega arith),
        (
          (omega arith, omega arith),
          (
            (omega arith, omega arith),
            ((omega arith, omega arith), ((omega arith, omega arith), tt)),
          ),
        ),
      )
      ((λ e. refl), ((λ e. refl), ((λ e. refl), ((λ e. refl), ((λ e. refl), tt)))))

-- After two attempts in the window a third restart is made, and after three none.
abbrev tried : List ℕ → Healer
tried ts = record fresh { attempts = ("web", ts) ∷ [] }

third_restart_only :
    ((treat sick_host (tried (10 ∷ 40 ∷ [])) "web" (codes "running") 70 71 unhealthy []).0.0.action
      ≡ restarted)
    × ((treat sick_host
          (tried (10 ∷ 40 ∷ 71 ∷ []))
          "web"
          (codes "running")
          100
          101
          unhealthy
          []).0.0.action
        ≡ rolled_back)
unfolding treat count_recent_restarts needs_rollback at_least attempts_of recent record_restart made
    is_some lookup keep_if
third_restart_only = (refl, refl)
