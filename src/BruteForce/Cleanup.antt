-- ===== src/BruteForce/Cleanup.antt =====
-- internal/bruteforce/protector.go: what the cleanup and a success leave of the checks.
use mathlib.Core.Option
use deploypilot.Base.{
  ℕ, ◌≤◌, ◌≡◌, ◌≢◌, refl, ap, ◌∙◌, true, not, ◌&&◌, Option, none, some, List, [], ◌∷◌, String, Dict,
  lookup, lookup-insert, lookup-erase_self, lookup-retain, lookup-map_values, option_keep,
  str_eq_ne, arith, keep_if, count_if, is_empty, string_tested,
}
use deploypilot.BruteForce.{
  Config, AttemptRecord, AccountState, Protector, CheckResult, check, check_account, check_ip,
  check_delay, count_recent, record_failure, record_success, prune_old, is_recent, lock_over,
  allowed_result, or_else, cleanup, cleanup_map, locked_result,
}

-- A result but for the number of attempts that it reports.
pub core : CheckResult → CheckResult
core r = record r { attempts = 0 }

count-keep :
    (c : Config) (now t : ℕ) (as' : List AttemptRecord)
    → now ≤ t
    → count_if (is_recent c t) (keep_if (is_recent c now) as') ≡ count_if (is_recent c t) as'
unfolding keep_if count_if
count-keep c now t [] l = refl
count-keep c now t (a ∷ rest) l = ground (arith, count-keep c now t rest l)

no_recent :
    (c : Config) (now t : ℕ) (as' : List AttemptRecord)
    → now ≤ t
    → is_empty (keep_if (is_recent c now) as') ≡ true
    → count_if (is_recent c t) as' ≡ 0
unfolding keep_if count_if
no_recent c now t [] l e = refl
no_recent c now t (a ∷ rest) l e = ground (arith, no_recent c now t rest l)

-- What the cleanup makes of a state, if it keeps it.
abbrev cleaned : Config → ℕ → Option AccountState → Option AccountState
cleaned c now o =
    option_keep (λ s. not (is_empty s.attempts && lock_over s now)) (Option.map (prune_old c now) o)

lookup-cleanup_map :
    (c : Config) (now : ℕ) (key : String) (m : Dict AccountState)
    → lookup key (cleanup_map c now m) ≡ cleaned c now (lookup key m)
unfolding cleanup_map
lookup-cleanup_map c now key m =
    lookup-retain _ key _ ∙ ap (option_keep _) (lookup-map_values (prune_old c now) key m)

check_delay_zero : (c : Config) → check_delay c 0 ≡ none
unfolding check_delay
check_delay_zero c = ground arith

module _ (c : Config) (now t : ℕ) (l : now ≤ t) where
  check_account-cleaned :
      (o : Option AccountState)
      → Option.map core (check_account c t (cleaned c now o))
        ≡ Option.map core (check_account c t o)
  unfolding check_account prune_old count_recent core locked_result
  check_account-cleaned none = refl
  check_account-cleaned (some s) =
      ground
        (arith, count-keep c now t s.attempts l, no_recent c now t s.attempts l, check_delay_zero c)

  check_ip-cleaned :
      (o : Option AccountState)
      → Option.map core (check_ip t (cleaned c now o)) ≡ Option.map core (check_ip t o)
  unfolding check_ip prune_old core locked_result
  check_ip-cleaned none = refl
  check_ip-cleaned (some s) = ground arith

core-or_else :
    (o : Option CheckResult) (r : CheckResult)
    → core (or_else o r) ≡ or_else (Option.map core o) (core r)
core-or_else none r = refl
core-or_else (some q) r = refl

-- The cleanup changes no later check but in the number of attempts that it reports.
pub check-cleanup :
    (p : Protector) (username ip : String) (now t : ℕ)
    → now ≤ t
    → core (check (cleanup p now) username ip t) ≡ core (check p username ip t)
unfolding check cleanup
check-cleanup p username ip now t l =
    rw
      (
        lookup-cleanup_map p.config now username p.accounts,
        lookup-cleanup_map p.config now ip p.ips,
      )
      (simp (
        core-or_else,
        check_account-cleaned p.config now t l (lookup username p.accounts),
        check_ip-cleaned p.config now t l (lookup ip p.ips),
      ))

-- A failure of one account from one address changes no check of another account from another address.
pub check-record_failure_ne :
    (p : Protector) (username ip message username' ip' : String) (now t : ℕ)
    → username ≢ username'
    → ip ≢ ip'
    → check (record_failure p username ip message now) username' ip' t ≡ check p username' ip' t
unfolding check record_failure
check-record_failure_ne p username ip message username' ip' now t u i =
    simp (lookup-insert, str_eq_ne username username' u, str_eq_ne ip ip' i)

-- After a success the account and the address are let in at once, whatever they failed before.
pub check-record_success :
    (p : Protector) (username ip : String) (t : ℕ)
    → check (record_success p username ip) username ip t ≡ allowed_result
unfolding check record_success check_account check_ip
check-record_success p username ip t = simp lookup-erase_self
