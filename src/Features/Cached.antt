-- ===== src/Features/Cached.antt =====
-- internal/service/feature_flag_service.go: the cache never changes what a feature evaluates to.
use deploypilot.Base.{
  ℕ, ◌≡◌, ◌≤◌, ◌↔◌, ◌⊎◌, arith, refl, sym, ap, not, Bool-cases, inl, inr, Bool, true, false, List,
  [], ◌∷◌, Option, none, some, String, lookup, if_cases, if◌then◌else◌, ◌==◌, string_tested,
  is_empty,
}
use deploypilot.License.Data.{Engine}
use deploypilot.License.Allows.{get_tier, get_use_type, is_feature_enabled}
use deploypilot.Features.{
  FeatureFlag, FeatureFlagOverride, FeatureFlagCache, Bridge, Call, new_cache, cache_flag,
  cache_flags, cache_override, find_override, or_read, is_stale,
}
use deploypilot.Features.Flags.{
  tier_rank, is_below_tier, is_other_use, flag_allows, engine_allows, decide, override_for,
  flag_for, evaluate_feature, all_flags, list_feature_flags, get_feature_flags_for_tenant,
}
use deploypilot.Features.Changes.{
  FlagUpdate, update_feature_flag, set_feature_flag_override, delete_feature_flag_override,
  init_feature_flags,
}
use deploypilot.Features.Table.{IsTable}
use deploypilot.Features.Coherent.{
  IsCoherent, IsCoherentPair, load_flags-IsCoherent, evaluated_same, tenant_listed_same,
  update_found-IsCoherent, override_found-IsCoherent, delete_found-IsCoherent, seeded-IsCoherent,
}

pub data Op : Type 0 where
  lists : Option Engine → Call → Op
  lists_for : Option Engine → Call → String → Op
  updates : Call → String → FlagUpdate → Op
  overrides : Call → FeatureFlagOverride → Op
  deletes : Call → String → String → Op
  starts : Call → Op

unfoldable pub apply : Op → Bridge → Bridge
apply (lists e c) b = (list_feature_flags e c b).0
apply (lists_for e c tenant) b = (get_feature_flags_for_tenant e c tenant b).0
apply (updates c key u) b = (update_feature_flag c key u b).0
apply (overrides c o) b = (set_feature_flag_override c o b).0
apply (deletes c key tenant) b = (delete_feature_flag_override c key tenant b).0
apply (starts c) b = (init_feature_flags c b).0

unfoldable pub run : List Op → Bridge → Bridge
run [] b = b
run (op ∷ ops) b = run ops (apply op b)

apply-IsCoherent : (op : Op) (b : Bridge) → IsCoherent b → IsCoherent (apply op b)
unfolding apply list_feature_flags get_feature_flags_for_tenant update_feature_flag
    set_feature_flag_override delete_feature_flag_override init_feature_flags all_flags
apply-IsCoherent (lists e c) b h =
    evaluated_same e c _ (load_flags-IsCoherent c b (cache_flags b.cache c.now) h)
apply-IsCoherent (lists_for e c tenant) b h =
    tenant_listed_same e c tenant _ (load_flags-IsCoherent c b (cache_flags b.cache c.now) h)
apply-IsCoherent (updates c key u) b h =
    if_cases IsCoherentPair c.reads _ _
      (λ _. update_found-IsCoherent c key u (lookup key b.tables.flags) b refl h) (λ _. h)
apply-IsCoherent (overrides c o) b h =
    if_cases IsCoherentPair c.reads _ _
      (λ _. override_found-IsCoherent c o (lookup o.flag_key b.tables.flags) b refl h) (λ _. h)
apply-IsCoherent (deletes c key tenant) b h =
    if_cases IsCoherentPair c.writes _ _
      (λ _. delete_found-IsCoherent c key tenant (find_override b.tables.overrides key tenant) b h)
      (λ _. h)
apply-IsCoherent (starts c) b h =
    if_cases IsCoherentPair c.reads _ _
      (λ _.
        if_cases IsCoherentPair (is_empty b.tables.flags) _ _
          (λ empty.
            if_cases IsCoherentPair c.writes _ _ (λ _. seeded-IsCoherent c b empty h) (λ _. h))
          (λ _. h))
      (λ _. h)

run-IsCoherent : (ops : List Op) (b : Bridge) → IsCoherent b → IsCoherent (run ops b)
unfolding run
run-IsCoherent [] b h = h
run-IsCoherent (op ∷ ops) b h = run-IsCoherent ops (apply op b) (apply-IsCoherent op b h)

cached_none :
    (cache : FeatureFlagCache) (key tenant : String) (now : ℕ)
    → cache.overrides ≡ []
    → cache_override cache key tenant now ≡ none
unfolding cache_override find_override lookup
cached_none cache key tenant now e =
    if_cases (λ (o : Option FeatureFlagOverride). o ≡ none) (is_stale cache now) _ _ (λ _. refl)
      (λ _. rw e)

-- What a cache has, if it is what the table has, goes for it.
or_read-same :
    (cached stored : Option FeatureFlag)
    → ((f : FeatureFlag) → cached ≡ some f → stored ≡ some f)
    → or_read true cached stored ≡ stored
or_read-same none stored h = refl
or_read-same (some f) stored h = sym (h f refl)

override_for-direct :
    (b : Bridge) (c : Call) (key tenant : String)
    → IsCoherent b
    → c.reads ≡ true
    → override_for b c key tenant
      ≡ (if tenant == "" then none else find_override b.tables.overrides key tenant)
unfolding override_for
override_for-direct b c key tenant h r = rw (cached_none b.cache key tenant c.now h.overrides, r)

live :
    (stale : Bool) (cached : Option FeatureFlag) (f : FeatureFlag)
    → (if stale then none else cached) ≡ some f
    → cached ≡ some f
live true cached f e = cc e
live false cached f e = e

flag_for-direct :
    (b : Bridge) (c : Call) (key : String)
    → IsCoherent b
    → c.reads ≡ true
    → flag_for b c key ≡ lookup key b.tables.flags
unfolding flag_for cache_flag
flag_for-direct b c key h r = rw r (
    or_read-same (cache_flag b.cache key c.now) (lookup key b.tables.flags)
      λ f e. h.flags key f (live (is_stale b.cache c.now) (lookup key b.cache.flags) f e))

-- What a flag asks for: that it is enabled, and of a license that there is, that its tier is not below
-- the one required, and that its kind of use is the one required, if one is.
unfoldable pub Permits : Option Engine → FeatureFlag → Type 0
Permits none f = f.status ≡ "enabled"
Permits (some e) f =
    (f.status ≡ "enabled")
    × (tier_rank f.required_tier ≤ tier_rank (get_tier e))
    × ((f.required_use_type ≡ "") ⊎ (get_use_type e ≡ f.required_use_type))

-- What the answer is: that of the override, or what the flag asks for, or what the license enables, or
-- yes where there is none of these.
unfoldable pub Decides :
    Option Engine → String → ℕ → Option FeatureFlagOverride → Option FeatureFlag → Bool → Type 0
Decides e key now (some o) flag answer = answer ≡ o.enabled
Decides e key now none (some f) answer = (answer ≡ true) ↔ Permits e f
Decides (some e) key now none none answer = answer ≡ is_feature_enabled e key now
Decides none key now none none answer = answer ≡ true

lowest : tier_rank "" ≡ 0
unfolding tier_rank
lowest = refl

tier_iff :
    (e : Engine) (r : String)
    → (is_below_tier (some e) r ≡ false) ↔ (tier_rank r ≤ tier_rank (get_tier e))
unfolding is_below_tier
tier_iff e r = elim (Bool-cases (r == "")) [
  | inl empty ↦
      let zero_rank : tier_rank r ≡ 0 = rw ((string_tested.same_iff r "").0 empty) lowest in
      ground (arith, empty, zero_rank)
  | inr asked ↦ elim (Bool-cases (r == get_tier e)) [
    | inl same ↦
        let equal : tier_rank r ≡ tier_rank (get_tier e) =
          ap tier_rank ((string_tested.same_iff r (get_tier e)).0 same) in
        ground (arith, same, equal)
    | inr other ↦ ground (arith, asked, other)
  ]
]

use_iff :
    (e : Engine) (r : String)
    → (is_other_use (some e) r ≡ false) ↔ ((r ≡ "") ⊎ (get_use_type e ≡ r))
unfolding is_other_use
use_iff e r =
    let u = string_tested.same_iff r "" in
    let v = string_tested.same_iff (get_use_type e) r in ground (arith, u, v)

three_tests :
    {P Q R : Type 0} (a b c : Bool)
    → (a ≡ true) ↔ P
    → (b ≡ false) ↔ Q
    → (c ≡ false) ↔ R
    → ((if not a then false else if b then false else if c then false else true) ≡ true)
      ↔ (P × Q × R)
three_tests a b c p q r = ground (arith, p, q, r)

allows-Permits : (e : Option Engine) (f : FeatureFlag) → (flag_allows e f ≡ true) ↔ Permits e f
unfolding flag_allows is_below_tier is_other_use Permits
allows-Permits none f = let s = string_tested.same_iff f.status "enabled" in ground (arith, s)
allows-Permits (some e) f =
    three_tests (f.status == "enabled") (is_below_tier (some e) f.required_tier)
      (is_other_use (some e) f.required_use_type) (string_tested.same_iff f.status "enabled")
      (tier_iff e f.required_tier) (use_iff e f.required_use_type)

decide-Decides :
    (e : Option Engine) (key : String) (now : ℕ) (o : Option FeatureFlagOverride)
    (flag : Option FeatureFlag)
    → Decides e key now o flag (decide e key now o flag)
unfolding Decides decide engine_allows
decide-Decides e key now (some o) flag = refl
decide-Decides e key now none (some f) = allows-Permits e f
decide-Decides (some e) key now none none = refl
decide-Decides none key now none none = refl

abbrev pub started : ℕ → Bridge
started ttl = record { tables = record { flags = []; overrides = [] }; cache = new_cache ttl }

started-IsCoherent : (ttl : ℕ) → IsCoherent (started ttl)
unfolding new_cache lookup IsTable
started-IsCoherent ttl = record { table = tt; flags = λ k f e. cc e; overrides = refl }

-- Whatever flags and overrides are listed, changed, made and removed, one call after the other, and
-- whatever the database refuses meanwhile, the cache never shows: where the database answers, a feature
-- evaluates to what its tables say at that time. The override of the tenant decides; without one the
-- flag does, which asks for its status and of the license for a tier and a kind of use; without a flag
-- the license does.
pub evaluate_feature-run :
    (ttl : ℕ) (ops : List Op) (engine : Option Engine) (c : Call) (key tenant : String)
    → c.reads ≡ true
    → let b = run ops (started ttl) in
      Decides engine key c.now
        (if tenant == "" then none else find_override b.tables.overrides key tenant)
        (lookup key b.tables.flags)
        (evaluate_feature engine b c key tenant)
unfolding evaluate_feature
evaluate_feature-run ttl ops engine c key tenant r =
    let h = run-IsCoherent ops (started ttl) (started-IsCoherent ttl) in
    rw
      (
        override_for-direct (run ops (started ttl)) c key tenant h r,
        flag_for-direct (run ops (started ttl)) c key h r,
      )
      (decide-Decides engine key c.now _ _)
