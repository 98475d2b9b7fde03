-- ===== src/DeployService/Preflight.antt =====
-- internal/service/preflight.go. The texts of messages and suggestions are left out, as are the
-- category and the severity. The executor is
-- a host, as for the deployer; a TCP connection that is tried is a parameter, which answers nothing
-- where it fails, and otherwise whether it could be closed.
use deploypilot.Base.{
  ℕ, Bool, true, false, not, ◌||◌, List, [], ◌∷◌, ◌++◌, Option, none, some, Text, codes, is_empty,
  if◌then◌else◌, ◌==◌, nat_tested, text_tested,
}
use deploypilot.Strings.{trim_space, split}
use deploypilot.Deployer.{Host}

pub data CheckName : Type 0 where
  tcp_connectivity ssh_authentication docker_availability port_conflict disk_space memory :
      CheckName

pub record PreflightCheck : Type 0 where
  pub name : CheckName
  pub passed : Bool

pub data PreflightErrorCode : Type 0 where
  tcp_unreachable ssh_auth_failed docker_unavailable port_in_use : PreflightErrorCode

pub record PreflightResult : Type 0 where
  pub passed : Bool
  pub checks : List PreflightCheck
  pub code : Option PreflightErrorCode

pub record PreflightConfig : Type 0 where
  pub host : Text
  pub port : ℕ
  pub port_mappings : Text

-- A check, and the commands after it.
abbrev pub Checked : Type 0
Checked = PreflightCheck × List Text

-- Whether a connection is made and closed.
abbrev pub dialled : Option Bool → Bool
dialled none = false
dialled (some closed) = closed

-- `checkTCP`
abbrev pub check_tcp : Option Bool → PreflightCheck
check_tcp d = record { name = tcp_connectivity; passed = dialled d }

abbrev pub says_ok : Option Text → Bool
says_ok none = false
says_ok (some out) = trim_space out == codes "ok"

abbrev pub echo_command : Text
echo_command = codes "echo ok"

-- `checkSSHAuth`
unfoldable pub check_ssh_auth : Host → List Text → Checked
check_ssh_auth h log = (
  record { name = ssh_authentication; passed = says_ok (h.run_command log echo_command) },
  echo_command ∷ log,
)

abbrev pub answered : Option Text → Bool
answered none = false
answered (some out) = true

abbrev pub version_command : Text
version_command = codes "docker version --format '{{.Server.Version}}'"

-- `checkDocker`
unfoldable pub check_docker : Host → List Text → Checked
check_docker h log = (
  record { name = docker_availability; passed = answered (h.run_command log version_command) },
  version_command ∷ log,
)

-- `part[:idx]` for the index of a character, or the part as it is.
unfoldable pub cut_at : ℕ → Text → Text
cut_at c [] = []
cut_at c (d ∷ s) = let rest = cut_at c s in if d == c then [] else d ∷ rest

-- The host port of one mapping; it may be empty.
unfoldable pub host_port : Text → Text
unfolding cut_at
host_port part = trim_space (cut_at b'/' (cut_at b':' (trim_space part)))

-- The loop of `parseHostPorts`.
unfoldable pub host_ports_of : List Text → List Text
unfolding host_port
host_ports_of [] = []
host_ports_of (part ∷ parts) =
    let rest = host_ports_of parts in
    if is_empty (host_port part) then rest else host_port part ∷ rest

-- `parseHostPorts`
unfoldable pub parse_host_ports : Text → List Text
unfolding host_ports_of
parse_host_ports mappings = host_ports_of (split mappings b',')

unfoldable pub port_command : Text → Text
port_command port = codes "ss -tlnp 2>/dev/null | grep ':" ++ (port ++ codes " ' || true")

-- Whether the answer shows a listener: an error does not.
unfoldable pub is_busy : Option Text → Bool
is_busy none = false
is_busy (some out) = not (is_empty (trim_space out))

-- The loop of `checkPortConflict`: whether no port is in use, and the commands after it.
unfoldable pub ports_free : Host → List Text → List Text → Bool × List Text
unfolding is_busy port_command
ports_free h [] log = (true, log)
ports_free h (port ∷ ports) log =
    let rest = ports_free h ports (port_command port ∷ log) in
    if is_busy (h.run_command log (port_command port))
    then (false, port_command port ∷ log)
    else rest

-- `checkPortConflict`
unfoldable pub check_port_conflict : Host → Text → List Text → Checked
unfolding parse_host_ports ports_free
check_port_conflict h mappings log =
    let (free, log') = ports_free h (parse_host_ports mappings) log in
    (record { name = port_conflict; passed = free }, log')

-- What `RunPreflight` does with a check: a failed one ends it with its code.
unfoldable pub then_check :
    PreflightErrorCode
    → List PreflightCheck
    → Checked
    → (List PreflightCheck → List Text → PreflightResult × List Text)
    → PreflightResult × List Text
then_check code checks (c, log) next =
    if c.passed
    then next (checks ++ c ∷ []) log
    else (record { passed = false; checks = checks ++ c ∷ []; code = some code }, log)

unfoldable pub all_passed : List PreflightCheck → List Text → PreflightResult × List Text
all_passed checks log = (record { passed = true; checks = checks; code = none }, log)

-- `RunPreflight` from its fourth check on, from its third, and from its second.
unfoldable pub preflight_ports :
    Host → PreflightConfig → List PreflightCheck → List Text → PreflightResult × List Text
unfolding all_passed then_check check_port_conflict
preflight_ports h cfg checks log =
    if is_empty cfg.port_mappings
    then all_passed checks log
    else then_check port_in_use checks (check_port_conflict h cfg.port_mappings log) all_passed

unfoldable pub preflight_docker :
    Host → PreflightConfig → List PreflightCheck → List Text → PreflightResult × List Text
unfolding preflight_ports then_check check_docker
preflight_docker h cfg checks log =
    then_check docker_unavailable checks (check_docker h log) (preflight_ports h cfg)

unfoldable pub preflight_ssh :
    Host → PreflightConfig → List PreflightCheck → List Text → PreflightResult × List Text
unfolding preflight_docker then_check check_ssh_auth
preflight_ssh h cfg checks log =
    if is_empty cfg.host
    then preflight_docker h cfg checks log
    else then_check ssh_auth_failed checks (check_ssh_auth h log) (preflight_docker h cfg)

-- `RunPreflight`
unfoldable pub run_preflight :
    Host → (Text → ℕ → Option Bool) → PreflightConfig → List Text → PreflightResult × List Text
unfolding preflight_ssh then_check
run_preflight h dial cfg log =
    if is_empty cfg.host || cfg.port == 0
    then preflight_ssh h cfg [] log
    else then_check tcp_unreachable [] (check_tcp (dial cfg.host cfg.port), log)
        (preflight_ssh h cfg)
