-- ===== src/BruteForce/Tests.antt =====
-- Concrete runs of the protector.
use deploypilot.Base.{ℕ, ◌≡◌, refl, false, List, [], ◌∷◌, ◌++◌, arith, lookup}
use deploypilot.BruteForce.{Config, new, default_config, check, account_locked}
use deploypilot.BruteForce.Lockout.{Failure, fail_all, locks_after_max}

-- In seconds.
abbrev small : Config
small = record default_config {
  lockout_duration = 900;
  window_duration = 900;
  base_delay = 1;
  max_delay = 30;
  ip_lockout_duration = 1800;
}

abbrev wrong_password : ℕ → Failure
wrong_password t = record { ip = "10.0.0.1"; message = "bad"; time = t }

abbrev guesses : List Failure
guesses = wrong_password 100 ∷ wrong_password 110 ∷ wrong_password 120 ∷ wrong_password 130 ∷ []

locks_after_max_example :
    let result =
      check
        (fail_all (new small) "ann" (guesses ++ wrong_password 140 ∷ []))
        "ann"
        "10.9.9.9"
        500 in
    (result.allowed ≡ false)
    × (result.reason ≡ account_locked)
    × (result.attempts ≡ 5)
    × (result.locked_until ≡ 1040)
unfolding new lookup
locks_after_max_example =
    locks_after_max (new small) "ann" "10.9.9.9" guesses (wrong_password 140) 500 refl (omega arith)
      (omega arith) (omega arith) (omega arith)
