-- ===== src/Deployer/Command.antt =====
-- internal/engine/deployer/deployer.go: the configuration of a container, and the commands that are
-- built from it. A Go map stands in the order in which one iteration visits it.
use deploypilot.Base.{
  List, [], ◌∷◌, ◌++◌, map, Text, codes, is_empty, join, if◌then◌else◌, text_tested,
}
use deploypilot.Shell.{shell_quote}

pub record DeployConfig : Type 0 where
  pub image : Text
  pub container_name : Text
  pub ports : Text
  pub env_vars : List (Text × Text)
  pub restart_policy : Text
  pub network : Text
  pub volumes : Text
  pub labels : List (Text × Text)
  pub cpu : Text
  pub memory : Text

-- The restart policy that an empty one stands for.
abbrev pub policy_of : DeployConfig → Text
policy_of cfg = if is_empty cfg.restart_policy then codes "unless-stopped" else cfg.restart_policy

-- An argument that is left out where its value is empty.
abbrev pub optional_arg : Text → Text → List Text
optional_arg prefix value = if is_empty value then [] else (prefix ++ shell_quote value) ∷ []

-- An argument `key=value`.
abbrev pub pair_arg : Text → Text × Text → Text
pair_arg prefix (k, v) = prefix ++ (shell_quote k ++ b'=' ∷ shell_quote v)

-- The arguments that `buildRunCommand` appends behind the first three.
abbrev pub option_args : DeployConfig → List Text
option_args cfg =
    optional_arg (codes "-p ") cfg.ports
    ++ (optional_arg (codes "-v ") cfg.volumes
        ++ (map (pair_arg (codes "-e ")) cfg.env_vars
            ++ (map (pair_arg (codes "-l ")) cfg.labels
                ++ (optional_arg (codes "--cpus ") cfg.cpu
                    ++ (optional_arg (codes "--memory ") cfg.memory
                        ++ (optional_arg (codes "--network ") cfg.network
                            ++ shell_quote cfg.image ∷ []))))))

-- `buildRunCommand`
unfoldable pub build_run_command : DeployConfig → Text
build_run_command cfg = join (codes " ") (
    codes "docker run -d"
    ∷ (codes "--name " ++ shell_quote cfg.container_name)
    ∷ (codes "--restart " ++ shell_quote (policy_of cfg))
    ∷ option_args cfg)

unfoldable pub pull_command : Text → Text
pull_command image = codes "docker pull " ++ shell_quote image

-- The removal that `Deploy` makes of a container of the same name.
unfoldable pub replace_command : Text → Text
replace_command name = codes "docker rm -f " ++ (shell_quote name ++ codes " 2>/dev/null || true")

unfoldable pub stop_command : Text → Text
stop_command name = codes "docker stop " ++ shell_quote name

unfoldable pub remove_command : Text → Text
remove_command name = codes "docker rm -f " ++ shell_quote name

unfoldable pub inspect_command : Text → Text
inspect_command name =
    codes
      "docker inspect --format '{{.Id}}|{{.Name}}|{{.Config.Image}}|{{.State.Status}}|{{.Created}}' "
    ++ (shell_quote name ++ codes " 2>/dev/null")

unfoldable pub detail_command : Text → Text
detail_command name =
    codes
      "docker inspect --format '{{.State.OOMKilled}}|{{.State.ExitCode}}|{{.State.Restarting}}|{{.State.Pid}}|{{.State.StartedAt}}|{{.State.FinishedAt}}|{{.State.Health.Status}}' "
    ++ (shell_quote name ++ codes " 2>/dev/null")

unfoldable pub restart_count_command : Text → Text
restart_count_command name =
    codes "docker inspect --format '{{.RestartCount}}' "
    ++ (shell_quote name ++ codes " 2>/dev/null")
