-- ===== src/DeployService/Report.antt =====
-- internal/service/preflight.go: the report of a preflight.
use deploypilot.Base.{
  ℕ, ◌≡◌, ◌⊎◌, inl, inr, refl, Bool, true, false, List, [], ◌∷◌, ◌++◌, Option, none, some, Text,
  arith, all_of, if_cases, is_empty, ◌||◌, ◌==◌, nat_tested,
}
use deploypilot.Deployer.{Host}
use deploypilot.DeployService.Preflight.{
  CheckName, tcp_connectivity, ssh_authentication, docker_availability, port_conflict, disk_space,
  memory, PreflightCheck, PreflightErrorCode, tcp_unreachable, ssh_auth_failed, docker_unavailable,
  port_in_use, PreflightResult, PreflightConfig, Checked, check_tcp, check_ssh_auth, check_docker,
  check_port_conflict, then_check, all_passed, preflight_ports, preflight_docker, preflight_ssh,
  run_preflight,
}

-- The code that a failed check has, if it is one of those that end a preflight.
abbrev pub code_of : CheckName → Option PreflightErrorCode
code_of tcp_connectivity = some tcp_unreachable
code_of ssh_authentication = some ssh_auth_failed
code_of docker_availability = some docker_unavailable
code_of port_conflict = some port_in_use
code_of disk_space = none
code_of memory = none

abbrev pub all_pass : List PreflightCheck → Bool
all_pass checks = all_of (λ c. c.passed) checks

-- Either every check passed and there is no code, or the last check is the one that failed, and the
-- code is its.
abbrev pub IsReport : PreflightResult → Type 0
IsReport r =
    ((r.passed ≡ true) × (all_pass r.checks ≡ true) × (r.code ≡ none))
    ⊎ ((cs : List PreflightCheck) × (c : PreflightCheck) × (r.passed ≡ false)
        × (r.checks ≡ cs ++ c ∷ [])
        × (all_pass cs ≡ true)
        × (c.passed ≡ false)
        × (r.code ≡ code_of c.name))

abbrev Reports : PreflightResult × List Text → Type 0
Reports r = IsReport r.0

all_pass-snoc :
    (cs : List PreflightCheck) (c : PreflightCheck)
    → all_pass cs ≡ true
    → c.passed ≡ true
    → all_pass (cs ++ c ∷ []) ≡ true
unfolding all_of
all_pass-snoc [] c h p = ground arith
all_pass-snoc (d ∷ cs) c h p = ground (arith, all_pass-snoc cs c)

then_check-IsReport :
    (checks : List PreflightCheck) (cl : Checked) (code : PreflightErrorCode)
    → some code ≡ code_of cl.0.name
    → (next : List PreflightCheck → List Text → PreflightResult × List Text)
    → ((cs : List PreflightCheck) (log : List Text) → all_pass cs ≡ true → IsReport (next cs log).0)
    → all_pass checks ≡ true
    → IsReport (then_check code checks cl next).0
unfolding then_check
then_check-IsReport checks (c, log) code e next n a =
    if_cases Reports c.passed _ _ (λ p. n (checks ++ c ∷ []) log (all_pass-snoc checks c a p))
      (λ p. inr (checks, c, refl, refl, a, p, e))

module _ (h : Host) (cfg : PreflightConfig) where
  all_passed-IsReport :
      (cs : List PreflightCheck) (log : List Text)
      → all_pass cs ≡ true
      → IsReport (all_passed cs log).0
  unfolding all_passed
  all_passed-IsReport cs log a = inl (refl, a, refl)

  ports-IsReport :
      (cs : List PreflightCheck) (log : List Text)
      → all_pass cs ≡ true
      → IsReport (preflight_ports h cfg cs log).0
  unfolding preflight_ports check_port_conflict
  ports-IsReport cs log a =
      if_cases Reports (is_empty cfg.port_mappings) _ _ (λ e. all_passed-IsReport cs log a)
        (λ n.
          then_check-IsReport cs (check_port_conflict h cfg.port_mappings log) port_in_use refl
            all_passed all_passed-IsReport a)

  docker-IsReport :
      (cs : List PreflightCheck) (log : List Text)
      → all_pass cs ≡ true
      → IsReport (preflight_docker h cfg cs log).0
  unfolding preflight_docker check_docker
  docker-IsReport cs log a =
      then_check-IsReport cs (check_docker h log) docker_unavailable refl (preflight_ports h cfg)
        ports-IsReport a

  ssh-IsReport :
      (cs : List PreflightCheck) (log : List Text)
      → all_pass cs ≡ true
      → IsReport (preflight_ssh h cfg cs log).0
  unfolding preflight_ssh check_ssh_auth
  ssh-IsReport cs log a =
      if_cases Reports (is_empty cfg.host) _ _ (λ e. docker-IsReport cs log a)
        (λ n.
          then_check-IsReport cs (check_ssh_auth h log) ssh_auth_failed refl
            (preflight_docker h cfg) docker-IsReport a)

-- A report passes exactly if each of its checks passed, and has no code then. Otherwise its last
-- check is the first that failed, and its code is the one of that check.
pub run_preflight-IsReport :
    (h : Host) (dial : Text → ℕ → Option Bool) (cfg : PreflightConfig) (log : List Text)
    → IsReport (run_preflight h dial cfg log).0
unfolding run_preflight all_of
run_preflight-IsReport h dial cfg log =
    if_cases Reports (is_empty cfg.host || cfg.port == 0) _ _ (λ e. ssh-IsReport h cfg [] log refl)
      (λ n.
        then_check-IsReport [] (check_tcp (dial cfg.host cfg.port), log) tcp_unreachable refl
          (preflight_ssh h cfg) (ssh-IsReport h cfg) refl)
