-- ===== src/DeployService/Agree.antt =====
-- internal/service/preflight.go: the full preflight and the one that stops at a failure.
use deploypilot.Base.{
  ℕ, ◌≡◌, refl, Bool, true, false, not, ◌||◌, List, [], ◌∷◌, ◌++◌, Option, none, some, ◌≤◌, Text,
  is_empty, all_of, if◌then◌else◌, ◌==◌, nat_tested, arith, if_cases,
}
use deploypilot.Deployer.{Host}
use deploypilot.Strings.{ℤ, pos, negsuc, trim_space, parse_int}
use deploypilot.DeployService.Preflight.{
  disk_space, memory, PreflightCheck, PreflightErrorCode, PreflightResult, PreflightConfig, Checked,
  check_tcp, check_ssh_auth, check_docker, check_port_conflict, then_check, all_passed,
  preflight_ports, preflight_docker, preflight_ssh, run_preflight, tcp_unreachable, ssh_auth_failed,
  docker_unavailable, port_in_use,
}
use deploypilot.DeployService.Report.{all_pass}
use deploypilot.DeployService.Full.{
  Floats, disk_answer, enough_disk, memory_answer, enough_memory, disk_command, memory_command,
  parse_disk_size, add_check, check_disk_space, check_memory, first_checks, run_preflight_full,
}

abbrev Made : Type 0
Made = List PreflightCheck × List Text

abbrev passes : Made → PreflightResult × List Text
passes p = all_passed p.0 p.1

all_pass-front :
    (cs : List PreflightCheck) (c : PreflightCheck)
    → all_pass (cs ++ c ∷ []) ≡ true
    → (all_pass cs ≡ true) × (c.passed ≡ true)
unfolding all_of
all_pass-front [] c h = ground (arith, h)
all_pass-front (d ∷ cs) c h = ground (arith, h, all_pass-front cs c)

add_check-front :
    (made : Bool) (check : List Text → Checked) (p : Made)
    → all_pass (add_check made check p).0 ≡ true
    → all_pass p.0 ≡ true
unfolding add_check
add_check-front true check (cs, log) h = (all_pass-front cs (check log).0 h).0
add_check-front false check (cs, log) h = h

-- An answer with a size, which is not below 1.
abbrev pub HasDisk : {F : Type 0} → Floats F → Option Text → Type 0
HasDisk {F = F} fl answer =
    (out : Text) × (size : F) × (answer ≡ some out)
    × (parse_disk_size fl (trim_space out) ≡ some size)
    × (fl.less size 1 ≡ false)

-- An answer with a number, which is at least 128.
abbrev pub HasMemory : Option Text → Type 0
HasMemory answer =
    (out : Text) × (mb : ℕ) × (answer ≡ some out)
    × (parse_int (trim_space out) ≡ some (pos mb))
    × (128 ≤ mb)

disk_answer-HasDisk :
    {F : Type 0} (fl : Floats F) (answer : Option Text)
    → disk_answer fl answer ≡ true
    → HasDisk fl answer
unfolding disk_answer enough_disk
disk_answer-HasDisk fl none h = cc h
disk_answer-HasDisk {F = F} fl (some out) h = go (parse_disk_size fl (trim_space out)) refl h
  where
    go :
        (size : Option F)
        → parse_disk_size fl (trim_space out) ≡ size
        → enough_disk fl size ≡ true
        → HasDisk fl (some out)
    go none e h = cc h
    go (some size) e h = (out, size, refl, e, ground (arith, h))

memory_answer-HasMemory : (answer : Option Text) → memory_answer answer ≡ true → HasMemory answer
unfolding memory_answer enough_memory
memory_answer-HasMemory none h = cc h
memory_answer-HasMemory (some out) h = go (parse_int (trim_space out)) refl h
  where
    go :
        (n : Option ℤ)
        → parse_int (trim_space out) ≡ n
        → enough_memory n ≡ true
        → HasMemory (some out)
    go none e h = cc h
    go (some (pos mb)) e h = (out, mb, refl, e, ground (arith, h))
    go (some (negsuc n)) e h = cc h

-- A stage of the preflight makes the check that the full one makes, where all that follows passes.
stage :
    (skip : Bool) (code : PreflightErrorCode) (check : List Text → Checked)
    (next : List PreflightCheck → List Text → PreflightResult × List Text) (later : Made → Made)
    → ((p : Made) → all_pass (later p).0 ≡ true → all_pass p.0 ≡ true)
    → ((p : Made) → all_pass (later p).0 ≡ true → next p.0 p.1 ≡ passes (later p))
    → (p : Made) → all_pass (later (add_check (not skip) check p)).0 ≡ true
    → (if skip then next p.0 p.1 else then_check code p.0 (check p.1) next)
      ≡ passes (later (add_check (not skip) check p))
unfolding add_check then_check
stage true code check next later f n (cs, log) h = n (cs, log) h
stage false code check next later f n (cs, log) h =
    let made : Made = (cs ++ (check log).0 ∷ [], (check log).1) in
    if_cases (λ (r : PreflightResult × List Text). r ≡ passes (later made)) (check log).0.passed _ _
      (λ _. n made h)
      (λ e. absurd (ground (arith, e, (all_pass-front cs (check log).0 (f made h)).1)))

module _ (h : Host) (dial : Text → ℕ → Option Bool) (cfg : PreflightConfig) where
  with_ports : Made → Made
  with_ports p =
      add_check (not (is_empty cfg.port_mappings)) (check_port_conflict h cfg.port_mappings) p

  with_docker : Made → Made
  unfolding with_ports
  with_docker p = with_ports (add_check true (check_docker h) p)

  with_ssh : Made → Made
  unfolding with_docker
  with_ssh p = with_docker (add_check (not (is_empty cfg.host)) (check_ssh_auth h) p)

  ports_front : (p : Made) → all_pass (with_ports p).0 ≡ true → all_pass p.0 ≡ true
  unfolding with_ports
  ports_front p a = add_check-front _ (check_port_conflict h cfg.port_mappings) p a

  docker_front : (p : Made) → all_pass (with_docker p).0 ≡ true → all_pass p.0 ≡ true
  unfolding with_docker
  docker_front p a = add_check-front true (check_docker h) p (ports_front _ a)

  ssh_front : (p : Made) → all_pass (with_ssh p).0 ≡ true → all_pass p.0 ≡ true
  unfolding with_ssh
  ssh_front p a = add_check-front _ (check_ssh_auth h) p (docker_front _ a)

  ports_agree :
      (p : Made)
      → all_pass (with_ports p).0 ≡ true
      → preflight_ports h cfg p.0 p.1 ≡ passes (with_ports p)
  unfolding preflight_ports with_ports
  ports_agree p a =
      stage (is_empty cfg.port_mappings) port_in_use (check_port_conflict h cfg.port_mappings)
        all_passed (λ q. q) (λ q b. b) (λ q b. refl) p a

  docker_agree :
      (p : Made)
      → all_pass (with_docker p).0 ≡ true
      → preflight_docker h cfg p.0 p.1 ≡ passes (with_docker p)
  unfolding preflight_docker with_docker
  docker_agree p a =
      stage false docker_unavailable (check_docker h) (preflight_ports h cfg) with_ports ports_front
        ports_agree p a

  ssh_agree :
      (p : Made)
      → all_pass (with_ssh p).0 ≡ true
      → preflight_ssh h cfg p.0 p.1 ≡ passes (with_ssh p)
  unfolding preflight_ssh with_ssh
  ssh_agree p a =
      stage (is_empty cfg.host) ssh_auth_failed (check_ssh_auth h) (preflight_docker h cfg)
        with_docker docker_front docker_agree p a

  first_agree :
      (log : List Text)
      → all_pass (first_checks h dial cfg log).0 ≡ true
      → run_preflight h dial cfg log ≡ passes (first_checks h dial cfg log)
  unfolding run_preflight first_checks with_ssh with_docker with_ports
  first_agree log a =
      stage (is_empty cfg.host || cfg.port == 0) tcp_unreachable
        (λ l. (check_tcp (dial cfg.host cfg.port), l)) (preflight_ssh h cfg) with_ssh ssh_front
        ssh_agree ([], log) a

  -- Where the full preflight passes, the one that stops at a failure, which a deployment runs, passes
  -- too, and the full one has run all its commands and made all its checks, with the same answers,
  -- before those of the disk and the memory. The host then answers to the first of these with a size
  -- that is not below 1 GB, and to the second with at least 128 MB.
  pub run_preflight_full-passes :
      {F : Type 0} (fl : Floats F) (log : List Text)
      → (run_preflight_full fl h dial cfg log).0.passed ≡ true
      → let r = run_preflight h dial cfg log in
        (r.0.passed ≡ true)
        × ((run_preflight_full fl h dial cfg log).0.checks
            ≡ (r.0.checks ++ record { name = disk_space; passed = true } ∷ [])
              ++ record { name = memory; passed = true } ∷ [])
        × ((run_preflight_full fl h dial cfg log).1 ≡ memory_command ∷ disk_command fl ∷ r.1)
        × HasDisk fl (h.run_command r.1 (disk_command fl))
        × HasMemory (h.run_command (disk_command fl ∷ r.1) memory_command)
  unfolding run_preflight_full all_passed add_check check_disk_space check_memory
  run_preflight_full-passes fl log a =
      let first = first_checks h dial cfg log in
      let (disk, log') = check_disk_space fl h first.1 in
      let (mem, log'') = check_memory h log' in
      let c = all_pass-front (first.0 ++ disk ∷ []) mem a in
      let b = all_pass-front first.0 disk c.0 in
      rw (first_agree log b.0) (
        refl,
        cc (b.1, c.1),
        refl,
        disk_answer-HasDisk fl (h.run_command first.1 (disk_command fl)) b.1,
        memory_answer-HasMemory (h.run_command (disk_command fl ∷ first.1) memory_command) c.1,
      )
