-- ===== src/Trial/Tests.antt =====
-- A trial that is extended once, and asked for long after its end.
use deploypilot.Base.{
  ℕ, ◌*◌, ◌+◌, ◌≡◌, refl, true, false, List, [], ◌∷◌, none, Dict, lookup, insert,
}
use deploypilot.License.Data.{day}
use deploypilot.Trial.{
  TrialPeriod, TrialStatus, Call, new_trial, init_trial_period, extend_trial, extend_found,
  init_found, mark_expired, mark_checked, is_trial_expired,
}
use deploypilot.Trial.Ends.{Op, inits, extends, apply, run, IsAccounted, run-IsAccounted}
use deploypilot.Trial.Extended.{is_trial_expired-run-extend_trial}

abbrev call_at : ℕ → Call
call_at now = record { now = now; reads = true; creates = true; saves = true; updates = true }

abbrev extended_trial : TrialPeriod
extended_trial = record {
  status = TrialStatus.extended;
  started_at = 5;
  expires_at = 5 + 40 * day;
  extended_days = 10;
  original_days = 30;
  last_checked_at = 7;
  converted_at = none;
}

abbrev calls : List Op
calls = inits "m1" (call_at 5) ∷ inits "m1" (call_at 7) ∷ extends "m1" (call_at 9) 10 ∷ []

run-IsAccounted_example : IsAccounted extended_trial
unfolding run apply init_trial_period extend_trial new_trial init_found mark_expired mark_checked
    extend_found lookup insert
run-IsAccounted_example = run-IsAccounted calls "m1" extended_trial refl

abbrev begun : Dict TrialPeriod
begun = ("m1", new_trial 5) ∷ []

is_trial_expired-run-extend_trial_example :
    is_trial_expired none "m1"
      (call_at (900 * day))
      (run (inits "m1" (call_at (800 * day)) ∷ []) (extend_trial "m1" (call_at 9) 10 begun).0)
    ≡ false
unfolding extend_trial lookup new_trial extend_found
is_trial_expired-run-extend_trial_example =
    is_trial_expired-run-extend_trial "m1" (call_at 9) 10 begun refl
      (inits "m1" (call_at (800 * day)) ∷ []) none (call_at (900 * day))
