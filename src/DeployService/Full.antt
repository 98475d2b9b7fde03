-- ===== src/DeployService/Full.antt =====
-- internal/service/preflight.go: `RunPreflightFull`, which makes every check. `strconv.ParseFloat` and
-- the arithmetic of float64 are parameters.
use deploypilot.Base.{
  ℕ, ◌*◌, ◌-◌, Bool, true, false, not, ◌&&◌, ◌||◌, List, [], ◌∷◌, ◌++◌, Option, none, some, Text,
  codes, is_empty, all_of, ltb, leb, if◌then◌else◌, ◌==◌, nat_tested, text_tested,
}
use mathlib.Core.List.{reverse}
use deploypilot.Strings.{ℤ, pos, negsuc, trim_space, parse_int}
use deploypilot.Deployer.{Host}
use deploypilot.DeployService.Preflight.{
  disk_space, memory, PreflightCheck, PreflightResult, PreflightConfig, Checked, check_tcp,
  check_ssh_auth, check_docker, check_port_conflict,
}

pub record Floats (F : Type 0) : Type 0 where
  pub parse_float : Text → Option F
  pub times : F → ℕ → F
  pub over : F → ℕ → F
  pub less : F → ℕ → Bool

-- The trailing characters that are no digits, and what stands before them, both reversed.
unfoldable pub cut_suffix : Text → Text × Text
cut_suffix [] = ([], [])
cut_suffix (c ∷ s) =
    let (suffix, rest) = cut_suffix s in
    if leb b'0' c && leb c b'9' then ([], c ∷ s) else (c ∷ suffix, rest)

abbrev to_upper : Text → Text
to_upper [] = []
to_upper (c ∷ s) = (if leb b'a' c && leb c b'z' then c - 32 else c) ∷ to_upper s

module _ {F : Type 0} (fl : Floats F) where
  -- The size in GB for a unit in capitals.
  unfoldable pub in_gigabytes : Text → F → F
  in_gigabytes unit val =
      if unit == codes "T" || unit == codes "TB"
      then fl.times val 1024
      else if unit == codes "G" || unit == codes "GB"
      then val
      else if unit == codes "M" || unit == codes "MB"
      then fl.over val 1024
      else if unit == codes "K" || unit == codes "KB"
      then fl.over val (1024 * 1024)
      else fl.over val (1024 * 1024 * 1024)

  unfoldable pub sized : Text → Option F → Option F
  sized unit none = none
  sized unit (some val) = some (in_gigabytes unit val)

  -- `parseDiskSize`
  unfoldable pub parse_disk_size : Text → Option F
  unfolding cut_suffix sized
  parse_disk_size s =
      let (suffix, rest) = cut_suffix (reverse (trim_space s)) in
      if is_empty (trim_space s)
      then none
      else sized (to_upper (reverse suffix)) (fl.parse_float (trim_space (reverse rest)))

  unfoldable pub enough_disk : Option F → Bool
  enough_disk none = false
  enough_disk (some size) = not (fl.less size 1)

  unfoldable pub disk_answer : Option Text → Bool
  unfolding parse_disk_size enough_disk
  disk_answer none = false
  disk_answer (some out) = enough_disk (parse_disk_size (trim_space out))

  abbrev pub disk_command : Text
  disk_command = codes "df -h / --output=avail | tail -1"

  -- `checkDiskSpace`
  unfoldable pub check_disk_space : Host → List Text → Checked
  unfolding disk_answer
  check_disk_space h log = (
    record { name = disk_space; passed = disk_answer (h.run_command log disk_command) },
    disk_command ∷ log,
  )

unfoldable pub enough_memory : Option ℤ → Bool
enough_memory none = false
enough_memory (some (pos mb)) = not (ltb mb 128)
enough_memory (some (negsuc n)) = false

unfoldable pub memory_answer : Option Text → Bool
unfolding enough_memory
memory_answer none = false
memory_answer (some out) = enough_memory (parse_int (trim_space out))

abbrev pub memory_command : Text
memory_command = codes "free -m | awk '/Mem:/{print $7}'"

-- `checkMemory`
unfoldable pub check_memory : Host → List Text → Checked
unfolding memory_answer
check_memory h log = (
  record { name = memory; passed = memory_answer (h.run_command log memory_command) },
  memory_command ∷ log,
)

-- A check behind others, if it is made.
unfoldable pub add_check :
    Bool → (List Text → Checked) → List PreflightCheck × List Text → List PreflightCheck × List Text
add_check made check (checks, log) =
    let (c, log') = check log in if made then (checks ++ c ∷ [], log') else (checks, log)

-- The four checks that `RunPreflight` makes too.
unfoldable pub first_checks :
    Host → (Text → ℕ → Option Bool) → PreflightConfig → List Text → List PreflightCheck × List Text
unfolding add_check
first_checks h dial cfg log =
    add_check (not (is_empty cfg.port_mappings)) (check_port_conflict h cfg.port_mappings) (
      add_check true (check_docker h) (
        add_check (not (is_empty cfg.host)) (check_ssh_auth h) (
          add_check (not (is_empty cfg.host || cfg.port == 0))
            (λ l. (check_tcp (dial cfg.host cfg.port), l)) ([], log))))

module _ {F : Type 0} (fl : Floats F) where
  -- `RunPreflightFull`; it has no code.
  unfoldable pub run_preflight_full :
      Host → (Text → ℕ → Option Bool) → PreflightConfig → List Text → PreflightResult × List Text
  unfolding first_checks add_check check_memory check_disk_space
  run_preflight_full h dial cfg log =
      let (checks, log') =
        add_check true (check_memory h)
          (add_check true (check_disk_space fl h) (first_checks h dial cfg log)) in
      (record { passed = all_of (λ c. c.passed) checks; checks = checks; code = none }, log')
