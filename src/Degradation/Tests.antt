-- ===== src/Degradation/Tests.antt =====
-- An instance whose license ended yesterday, in its grace period.
use deploypilot.Base.{◌*◌, ◌≡◌, ◌↔◌, refl, true, [], ◌∷◌, some}
use deploypilot.License.Data.{LicenseData, day}
use deploypilot.License.Load.{info_of, new_engine}
use deploypilot.Features.Cached.{started}
use deploypilot.Trial as Trial
use deploypilot.Degradation.{
  Instance, Call, check_read_only, get_degradation_status, by_license, with_trial,
}
use deploypilot.Degradation.ReadOnly.{IsReadOnly, check_read_only_iff}

abbrev sold : LicenseData
sold = record {
  tenant_id = "t1";
  use_type = "commercial";
  tier = "pro";
  issuer_role = "developer";
  issued_to = "";
  max_issued = 0;
  issued_count = 0;
  addons = [];
  max_servers = 50;
  max_apps = 100;
  max_users = 50;
  issued_at = 0;
  expires_at = 864_000;
  machine_id = "";
}

abbrev ended : Instance
ended = record {
  engine = some (record (new_engine (7 ∷ []) 3) { info = some (info_of sold []) });
  flags = started 300;
  machine = "m1";
  trials = [];
}

abbrev next_day : Call
next_day = record {
  flags = record { now = 11 * day; reads = true; writes = true; marks = true };
  trial = record { now = 11 * day; reads = true; creates = true; saves = true; updates = true };
}

check_read_only_iff_example : (check_read_only ended next_day ≡ true) ↔ IsReadOnly ended next_day
check_read_only_iff_example = check_read_only_iff ended next_day

-- It is read-only at once.
grace_is_read_only : check_read_only ended next_day ≡ true
unfolding check_read_only get_degradation_status with_trial by_license info_of
    Trial.is_trial_expired Trial.has_license deploypilot.License.Allows.validate new_engine
    Trial.is_trial_active
grace_is_read_only = refl
