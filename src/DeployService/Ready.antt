-- ===== src/DeployService/Ready.antt =====
-- internal/service/preflight.go: when a preflight passes, on a host whose answer to a command does
-- not depend on the commands before it.
use deploypilot.Base.{
  ℕ, ◌≡◌, ◌≢◌, ◌↔◌, refl, ap, sym, ◌∙◌, not, text_beq_iff, Bool, true, false, ◌||◌, List, [], ◌∷◌,
  ◌++◌, Option, none, some, Text, codes, arith, All, is_empty, if_cases, ◌==◌, nat_tested,
  text_tested,
}
use deploypilot.Strings.{trim_space}
use deploypilot.Deployer.{Host}
use deploypilot.DeployService.Preflight.{
  PreflightCheck, PreflightErrorCode, PreflightResult, PreflightConfig, Checked, dialled, says_ok,
  answered, is_busy, check_tcp, check_ssh_auth, check_docker, check_port_conflict, ports_free,
  then_check, all_passed, preflight_ports, preflight_docker, preflight_ssh, run_preflight,
  echo_command, version_command, port_command, parse_host_ports,
}
use deploypilot.DeployService.Preflight.{docker_unavailable, ssh_auth_failed, tcp_unreachable}
use deploypilot.DeployService.Ports.{no_mappings}

pub is_empty→eq : (s : Text) → is_empty s ≡ true → s ≡ []
is_empty→eq [] e = refl
is_empty→eq (c ∷ s) e = absurd (ground (arith, e))

dialled→eq : (d : Option Bool) → dialled d ≡ true → d ≡ some true
dialled→eq none e = absurd (ground (arith, e))
dialled→eq (some b) e = ap some e

some_injective {ℓ} : {A : Type ℓ} {x y : A} → some x ≡ some y → x ≡ y
some_injective e = cc e

busy_iff :
    (o : Option Text) → (is_busy o ≡ false) ↔ ((out : Text) → o ≡ some out → trim_space out ≡ [])
unfolding is_busy
busy_iff none = (λ _ out e. cc e, λ _. refl)
busy_iff (some t) = (
  λ e out f.
      ap trim_space (sym (some_injective f)) ∙ is_empty→eq (trim_space t) (ground (arith, e)),
  λ k. ap (λ u. not (is_empty u)) (k t refl),
)

ok_iff :
    (o : Option Text)
    → (says_ok o ≡ true) ↔ ((out : Text) × (o ≡ some out) × (trim_space out ≡ codes "ok"))
ok_iff none = (λ e. cc e, λ (out, e, f). cc e)
ok_iff (some t) = (
  λ e. (t, refl, (text_beq_iff (trim_space t) (codes "ok")).0 e),
  λ (out, e, f).
      (text_beq_iff (trim_space t) (codes "ok")).1 (ap trim_space (some_injective e) ∙ f),
)

answered_iff : (o : Option Text) → (answered o ≡ true) ↔ ((out : Text) × (o ≡ some out))
answered_iff none = (λ e. cc e, λ (out, e). cc e)
answered_iff (some t) = (λ _. (t, refl), λ _. refl)

module _ (answer : Text → Option Text) (h : Host)
    (a : (log : List Text) (cmd : Text) → h.run_command log cmd ≡ answer cmd)
    (dial : Text → ℕ → Option Bool) (cfg : PreflightConfig) where
  abbrev IsFree : Text → Type 0
  IsFree p = is_busy (answer (port_command p)) ≡ false

  abbrev PortsPass : Type 0
  PortsPass = All IsFree (parse_host_ports cfg.port_mappings)

  abbrev DockerPass : Type 0
  DockerPass = answered (answer version_command) ≡ true

  abbrev SshPass : Type 0
  SshPass = cfg.host ≢ [] → says_ok (answer echo_command) ≡ true

  abbrev pub TcpReady : Type 0
  TcpReady = cfg.host ≢ [] → cfg.port ≢ 0 → dial cfg.host cfg.port ≡ some true

  ports_free_iff :
      (ps : List Text) (log : List Text) → ((ports_free h ps log).0 ≡ true) ↔ All IsFree ps
  unfolding ports_free
  ports_free_iff [] log = (λ _. tt, λ _. refl)
  ports_free_iff (p ∷ ps) log =
      rw (a log (port_command p)) (ground (arith, ports_free_iff ps (port_command p ∷ log)))

  abbrev Passes : PreflightResult × List Text → Type 0
  Passes r = r.0.passed ≡ true

  then_check_iff :
      (code : PreflightErrorCode) (cs : List PreflightCheck) (cl : Checked)
      (next : List PreflightCheck → List Text → PreflightResult × List Text)
      → Passes (then_check code cs cl next)
        ↔ ((cl.0.passed ≡ true) × Passes (next (cs ++ cl.0 ∷ []) cl.1))
  unfolding then_check
  then_check_iff code cs (c, log) next = ground arith

  no_mapping-IsFree : (m : Text) → is_empty m ≡ true → All IsFree (parse_host_ports m)
  no_mapping-IsFree [] e = rw no_mappings tt
  no_mapping-IsFree (c ∷ m) e = absurd (ground (arith, e))

  ports_iff :
      (cs : List PreflightCheck) (log : List Text)
      → Passes (preflight_ports h cfg cs log) ↔ PortsPass
  unfolding preflight_ports all_passed check_port_conflict then_check
  ports_iff cs log =
      let free = ports_free_iff (parse_host_ports cfg.port_mappings) log in
      if_cases (λ r. Passes r ↔ PortsPass) (is_empty cfg.port_mappings) _ _
        (λ e. (λ _. no_mapping-IsFree cfg.port_mappings e, λ _. refl))
        (λ e.
          if_cases (λ r. Passes r ↔ PortsPass)
            (ports_free h (parse_host_ports cfg.port_mappings) log).0 _ _
            (λ f. (λ _. free.0 f, λ _. refl))
            (λ f. (λ g. absurd (ground (arith, g)), λ g. absurd (ground (arith, f, free.1 g)))))

  docker_iff :
      (cs : List PreflightCheck) (log : List Text)
      → Passes (preflight_docker h cfg cs log) ↔ (DockerPass × PortsPass)
  unfolding preflight_docker check_docker
  docker_iff cs log =
      let (f, g) =
        then_check_iff docker_unavailable cs (check_docker h log) (preflight_ports h cfg) in
      let (f', g') = ports_iff (cs ++ (check_docker h log).0 ∷ []) (version_command ∷ log) in
      rw⁻¹ (a log version_command) (λ p. ((f p).0, f' (f p).1), λ q. g (q.0, g' q.1))

  ssh_iff :
      (cs : List PreflightCheck) (log : List Text)
      → Passes (preflight_ssh h cfg cs log) ↔ (SshPass × DockerPass × PortsPass)
  unfolding preflight_ssh check_ssh_auth
  ssh_iff cs log =
      if_cases (λ r. Passes r ↔ (SshPass × DockerPass × PortsPass)) (is_empty cfg.host) _ _
        (λ e.
          let (f, g) = docker_iff cs log in
          (λ p. (λ n. absurd (n (is_empty→eq cfg.host e)), (f p).0, (f p).1), λ q. g (q.1, q.2)))
        (λ n.
          let (f, g) =
            then_check_iff ssh_auth_failed cs (check_ssh_auth h log) (preflight_docker h cfg) in
          let (f', g') = docker_iff (cs ++ (check_ssh_auth h log).0 ∷ []) (echo_command ∷ log) in
          rw⁻¹ (a log echo_command) (
            λ p. (λ _. (f p).0, (f' (f p).1).0, (f' (f p).1).1),
            λ q. g (q.0 (λ e. absurd (ground (arith, n, e))), g' (q.1, q.2)),
          ))

  checks_pass_iff :
      (log : List Text)
      → ((run_preflight h dial cfg log).0.passed ≡ true)
        ↔ (TcpReady × SshPass × DockerPass × PortsPass)
  unfolding run_preflight
  checks_pass_iff log =
      if_cases (λ r. Passes r ↔ (TcpReady × SshPass × DockerPass × PortsPass))
        (is_empty cfg.host || cfg.port == 0) _ _
        (λ e.
          let (f, g) = ssh_iff [] log in
          (
            λ p. (
              λ n m. absurd (ground (arith, e, n, m, is_empty→eq cfg.host)),
              (f p).0,
              (f p).1,
              (f p).2,
            ),
            λ q. g (q.1, q.2, q.3),
          ))
        (λ n.
          let c = check_tcp (dial cfg.host cfg.port) in
          let (f, g) = then_check_iff tcp_unreachable [] (c, log) (preflight_ssh h cfg) in
          let (f', g') = ssh_iff (c ∷ []) log in
          (
            λ p. (
              λ _ _. dialled→eq (dial cfg.host cfg.port) (f p).0,
              (f' (f p).1).0,
              (f' (f p).1).1,
              (f' (f p).1).2,
            ),
            λ q. g (
              rw (q.0 (λ e. absurd (ground (arith, n, e))) (λ e. absurd (ground (arith, n, e))))
                  refl,
              g' (q.1, q.2, q.3),
            ),
          ))

  -- The listing for a port shows no listener.
  abbrev pub IsQuiet : Text → Type 0
  IsQuiet p = (out : Text) → answer (port_command p) ≡ some out → trim_space out ≡ []

  abbrev pub PortsFree : Type 0
  PortsFree = All IsQuiet (parse_host_ports cfg.port_mappings)

  abbrev pub DockerReady : Type 0
  DockerReady = (out : Text) × (answer version_command ≡ some out)

  abbrev pub SshReady : Type 0
  SshReady =
      cfg.host ≢ []
      → (out : Text) × (answer echo_command ≡ some out) × (trim_space out ≡ codes "ok")

  all-IsQuiet : (ps : List Text) → All IsFree ps ↔ All IsQuiet ps
  all-IsQuiet [] = (λ _. tt, λ _. tt)
  all-IsQuiet (p ∷ ps) =
      let (f, g) = all-IsQuiet ps in
      let (k, l) = busy_iff (answer (port_command p)) in
      (λ h'. (k h'.0, f h'.1), λ h'. (l h'.0, g h'.1))

  -- A preflight passes exactly if, for a remote server with a port, the connection is made, for a
  -- remote server the shell answers `ok`, docker answers, and no host port of the mappings shows a
  -- listener; on a host whose answer to a command does not depend on the commands before it.
  pub run_preflight_iff :
      (log : List Text)
      → ((run_preflight h dial cfg log).0.passed ≡ true)
        ↔ (TcpReady × SshReady × DockerReady × PortsFree)
  run_preflight_iff log =
      let (f, g) = checks_pass_iff log in
      let ports = all-IsQuiet (parse_host_ports cfg.port_mappings) in
      let docker = answered_iff (answer version_command) in
      let shell = ok_iff (answer echo_command) in
      (
        λ p. let (t, s, d, q) = f p in (t, (λ n. shell.0 (s n)), docker.0 d, ports.0 q),
        λ (t, s, d, q). g (t, (λ n. shell.1 (s n)), docker.1 d, ports.1 q),
      )
