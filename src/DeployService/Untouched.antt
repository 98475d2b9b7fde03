-- ===== src/DeployService/Untouched.antt =====
-- internal/service/deploy_service.go and preflight.go: the commands of a preflight.
use deploypilot.Base.{
  ℕ, ◌≡◌, ◌⊎◌, refl, sym, ap, ◌∙◌, Bool, inl, inr, List, [], ◌∷◌, ◌++◌, Option, Text, is_empty,
  if_cases, All, append_assoc, ◌||◌, ◌==◌, nat_tested,
}
use deploypilot.Deployer.{Host}
use deploypilot.DeployService.Preflight.{
  PreflightCheck, PreflightErrorCode, PreflightResult, PreflightConfig, Checked, check_tcp,
  check_ssh_auth, check_docker, check_port_conflict, ports_free, then_check, all_passed,
  preflight_ports, preflight_docker, preflight_ssh, run_preflight, echo_command, version_command,
  port_command, parse_host_ports, tcp_unreachable, ssh_auth_failed, docker_unavailable, port_in_use,
}

-- A command that a preflight runs: the echo, the version of docker, or the listeners of a port.
abbrev pub IsProbe : Text → Type 0
IsProbe cmd =
    (cmd ≡ echo_command) ⊎ (cmd ≡ version_command) ⊎ ((port : Text) × (cmd ≡ port_command port))

-- Only probes were run from one list of commands to another.
abbrev pub OnlyProbes : List Text → List Text → Type 0
OnlyProbes log log' = (cmds : List Text) × (log' ≡ cmds ++ log) × All IsProbe cmds

no_probe : (log : List Text) → OnlyProbes log log
no_probe log = ([], refl, tt)

all_append : (xs ys : List Text) → All IsProbe xs → All IsProbe ys → All IsProbe (xs ++ ys)
all_append [] ys h k = k
all_append (x ∷ xs) ys h k = (h.0, all_append xs ys h.1 k)

more_probes :
    (log log' log'' : List Text)
    → OnlyProbes log log'
    → OnlyProbes log' log''
    → OnlyProbes log log''
more_probes log log' log'' (cs, e, h) (ds, f, k) = (
  ds ++ cs,
  f ∙ ap (λ (l : List Text). ds ++ l) e ∙ sym (append_assoc ds cs log),
  all_append ds cs k h,
)

module _ (h : Host) (cfg : PreflightConfig) where
  abbrev Probing : List Text → PreflightResult × List Text → Type 0
  Probing log r = OnlyProbes log r.1

  abbrev NextProbes : (List PreflightCheck → List Text → PreflightResult × List Text) → Type 0
  NextProbes next = (cs : List PreflightCheck) (log : List Text) → Probing log (next cs log)

  then_check-Probing :
      (log : List Text) (code : PreflightErrorCode) (cs : List PreflightCheck) (c : Checked)
      (next : List PreflightCheck → List Text → PreflightResult × List Text)
      → OnlyProbes log c.1
      → NextProbes next
      → Probing log (then_check code cs c next)
  unfolding then_check
  then_check-Probing log code cs (c, log') next o n =
      if_cases (Probing log) c.passed _ _ (λ _. more_probes log log' _ o (n (cs ++ c ∷ []) log'))
        (λ _. o)

  ports_free-OnlyProbes :
      (ports : List Text) (log : List Text) → OnlyProbes log (ports_free h ports log).1
  unfolding ports_free
  ports_free-OnlyProbes [] log = no_probe log
  ports_free-OnlyProbes (p ∷ ports) log =
      if_cases (λ (r : Bool × List Text). OnlyProbes log r.1) _ _ _ (λ _. one)
        (λ _.
          more_probes log (port_command p ∷ log) _ one
            (ports_free-OnlyProbes ports (port_command p ∷ log)))
    where
      one : OnlyProbes log (port_command p ∷ log)
      one = (port_command p ∷ [], refl, (inr (inr (p, refl)), tt))

  ports-Probing : NextProbes (preflight_ports h cfg)
  unfolding preflight_ports all_passed check_port_conflict
  ports-Probing cs log =
      if_cases (Probing log) (is_empty cfg.port_mappings) _ _ (λ _. no_probe log)
        (λ _.
          then_check-Probing log port_in_use cs (check_port_conflict h cfg.port_mappings log)
            all_passed (ports_free-OnlyProbes (parse_host_ports cfg.port_mappings) log)
            (λ ds l. no_probe l))

  docker-Probing : NextProbes (preflight_docker h cfg)
  unfolding preflight_docker check_docker
  docker-Probing cs log =
      then_check-Probing log docker_unavailable cs (check_docker h log) (preflight_ports h cfg)
        (version_command ∷ [], refl, (inr (inl refl), tt)) ports-Probing

  ssh-Probing : NextProbes (preflight_ssh h cfg)
  unfolding preflight_ssh check_ssh_auth
  ssh-Probing cs log =
      if_cases (Probing log) (is_empty cfg.host) _ _ (λ _. docker-Probing cs log)
        (λ _.
          then_check-Probing log ssh_auth_failed cs (check_ssh_auth h log) (preflight_docker h cfg)
            (echo_command ∷ [], refl, (inl refl, tt)) docker-Probing)

  pub run_preflight-OnlyProbes :
      (dial : Text → ℕ → Option Bool) (log : List Text)
      → OnlyProbes log (run_preflight h dial cfg log).1
  unfolding run_preflight
  run_preflight-OnlyProbes dial log =
      if_cases (Probing log) (is_empty cfg.host || cfg.port == 0) _ _ (λ _. ssh-Probing [] log)
        (λ _.
          then_check-Probing log tcp_unreachable [] (check_tcp (dial cfg.host cfg.port), log)
            (preflight_ssh h cfg) (no_probe log) ssh-Probing)
