-- ===== src/Features/Tests.antt =====
-- A flag that is switched off while the cache holds it, and an override for one tenant.
use deploypilot.Base.{
  ℕ, ◌≡◌, ◌↔◌, String, refl, true, List, [], ◌∷◌, none, some, lookup, insert, values,
}
use deploypilot.Features.{
  FeatureFlagOverride, Call, new_cache, find_override, put_override, by_key, by_tenant, cache_flags,
  cache_set, invalidate,
}
use deploypilot.Features.Flags.{
  evaluate_feature, list_feature_flags, all_flags, load_flags, evaluated,
}
use deploypilot.Features.Changes.{
  FlagUpdate, init_feature_flags, update_feature_flag, update_found, updates_nothing,
  update_columns, set_feature_flag_override, override_found, mark_flag, seed, default_flag,
}
use deploypilot.Features.Cached.{
  Op, lists, updates, overrides, starts, run, apply, started, Decides, Permits,
  evaluate_feature-run,
}

abbrev call_at : ℕ → Call
call_at now = record { now = now; reads = true; writes = true; marks = true }

abbrev switch_off : FlagUpdate
switch_off = record {
  status = some "disabled";
  name = none;
  description = none;
  default_enabled = none;
  required_tier = none;
  required_use_type = none;
  category = none;
}

abbrev for_tenant : FeatureFlagOverride
for_tenant = record {
  flag_key = "ssl";
  tenant_id = "t1";
  enabled = true;
  reason = "";
  overridden_by = "admin";
}

abbrev ops : List Op
ops =
    starts (call_at 1)
    ∷ lists none (call_at 2)
    ∷ updates (call_at 3) "ssl" switch_off
    ∷ overrides (call_at 4) for_tenant
    ∷ []

-- The flag is off for all tenants but the one with an override.
evaluate_feature-run_example :
    (evaluate_feature none (run ops (started 300)) (call_at 5) "ssl" "t2" ≡ true)
    ↔ ◌≡◌ {A = String} "disabled" "enabled"
unfolding run apply init_feature_flags seed default_flag list_feature_flags evaluated all_flags
    load_flags cache_flags cache_set by_key by_tenant values insert lookup update_feature_flag
    update_found updates_nothing update_columns set_feature_flag_override override_found mark_flag
    put_override invalidate new_cache find_override Decides Permits
evaluate_feature-run_example = evaluate_feature-run 300 ops none (call_at 5) "ssl" "t2" refl
