-- ===== src/Degradation/ReadOnly.antt =====
-- internal/service/degradation_service.go: when an instance is in read-only mode.
use deploypilot.Base.{
  ℕ, ◌<◌, ◌≡◌, ◌≢◌, ◌↔◌, ◌⊎◌, inl, inr, refl, Bool, true, false, List, [], ◌∷◌, Option, none, some,
  String, is_empty, arith,
}
use deploypilot.License.Data.{LicenseInfo}
use deploypilot.Trial.{is_trial_expired, is_trial_active}
use deploypilot.Degradation.{
  LicenseStatus, unlicensed, valid, expiring_soon, expired, DegradationStatus, Instance, Call,
  get_gated_features, license_of, status_by_end, license_status_of, level_by_license, by_license,
  by_trial, with_trial, get_degradation_status, is_read_only, check_read_only,
}

-- A license is loaded, and its end has passed; its grace period is not asked for.
abbrev pub HasEnded : ℕ → Option LicenseInfo → Type 0
HasEnded now info =
    (i : LicenseInfo) × (end : ℕ) × (info ≡ some i) × (i.valid_to ≡ some end) × (end < now)

-- What makes an instance read-only: a license that has ended, unless a trial runs that gates features;
-- or, where none is loaded or the one that is has ended, a trial that has expired.
abbrev pub IsReadOnly : Instance → Call → Type 0
IsReadOnly s c =
    (HasEnded c.trial.now (license_of s.engine)
      × ¬ (
          (is_trial_active s.engine s.machine c.trial s.trials ≡ true)
          × (is_empty (get_gated_features s c) ≡ false)))
    ⊎ ((HasEnded c.trial.now (license_of s.engine) ⊎ (license_of s.engine ≡ none))
        × (is_trial_expired s.engine s.machine c.trial s.trials ≡ true))

by_end-expired :
    (now : ℕ) (o : Option ℕ)
    → status_by_end now o ≡ expired
    → (end : ℕ) × (o ≡ some end) × (end < now)
unfolding status_by_end
by_end-expired now none h = cc h
by_end-expired now (some end) h = (end, refl, ground (arith, h))

by_end-ne-unlicensed : (now : ℕ) (o : Option ℕ) → status_by_end now o ≢ unlicensed
unfolding status_by_end
by_end-ne-unlicensed now none = λ h. cc h
by_end-ne-unlicensed now (some end) = λ h. ground (arith, h)

status-expired :
    (now : ℕ) (info : Option LicenseInfo) → license_status_of now info ≡ expired → HasEnded now info
unfolding license_status_of
status-expired now none h = cc h
status-expired now (some i) h =
    let (end, e, lt) = by_end-expired now i.valid_to h in (i, end, refl, e, lt)

HasEnded-status :
    (now : ℕ) (info : Option LicenseInfo) → HasEnded now info → license_status_of now info ≡ expired
unfolding license_status_of status_by_end
HasEnded-status now info (i, end, e, v, lt) = rw (e, v) (ground arith)

status-unlicensed :
    (now : ℕ) (info : Option LicenseInfo) → license_status_of now info ≡ unlicensed → info ≡ none
unfolding license_status_of
status-unlicensed now none h = refl
status-unlicensed now (some i) h = absurd (by_end-ne-unlicensed now i.valid_to h)

-- The same, of the status of the license and three tests.
abbrev Reads : LicenseStatus → Bool → Bool → List String → Type 0
Reads status x a gated =
    ((status ≡ expired) × ¬ ((a ≡ true) × (is_empty gated ≡ false)))
    ⊎ (((status ≡ expired) ⊎ (status ≡ unlicensed)) × (x ≡ true))

level-Reads :
    (status : LicenseStatus) (x a : Bool) (gated : List String) (d : DegradationStatus)
    → d.level ≡ level_by_license status gated
    → is_read_only (with_trial status x a gated d).level ≡ true
    → Reads status x a gated
unfolding with_trial by_trial level_by_license
level-Reads unlicensed true a gated d e h = inr (inr refl, refl)
level-Reads unlicensed false true [] d e h = cc (e, h)
level-Reads unlicensed false true (g ∷ gs) d e h = cc h
level-Reads unlicensed false false gated d e h = cc (e, h)
level-Reads expired true a gated d e h = inr (inl refl, refl)
level-Reads expired false true [] d e h = inl (refl, λ n. cc (n.1))
level-Reads expired false true (g ∷ gs) d e h = cc h
level-Reads expired false false gated d e h = inl (refl, λ n. cc (n.0))
level-Reads valid x a [] d e h = cc (e, h)
level-Reads valid x a (g ∷ gs) d e h = cc (e, h)
level-Reads expiring_soon x a gated d e h = cc (e, h)

Reads-level :
    (status : LicenseStatus) (x a : Bool) (gated : List String) (d : DegradationStatus)
    → d.level ≡ level_by_license status gated
    → Reads status x a gated
    → is_read_only (with_trial status x a gated d).level ≡ true
unfolding with_trial by_trial level_by_license
Reads-level unlicensed x a gated d e (inl (s, n)) = cc s
Reads-level unlicensed true a gated d e (inr (s, t)) = refl
Reads-level unlicensed false a gated d e (inr (s, t)) = cc t
Reads-level expired true a gated d e r = refl
Reads-level expired false true [] d e r = rw e
Reads-level expired false true (g ∷ gs) d e (inl (s, n)) = absurd (n (refl, refl))
Reads-level expired false true (g ∷ gs) d e (inr (s, t)) = cc t
Reads-level expired false false gated d e r = rw e
Reads-level valid x a gated d e (inl (s, n)) = cc s
Reads-level valid x a gated d e (inr (inl s, t)) = cc s
Reads-level valid x a gated d e (inr (inr s, t)) = cc s
Reads-level expiring_soon x a gated d e (inl (s, n)) = cc s
Reads-level expiring_soon x a gated d e (inr (inl s, t)) = cc s
Reads-level expiring_soon x a gated d e (inr (inr s, t)) = cc s

Reads-IsReadOnly :
    (s : Instance) (c : Call)
    → Reads
        (license_status_of c.trial.now (license_of s.engine))
        (is_trial_expired s.engine s.machine c.trial s.trials)
        (is_trial_active s.engine s.machine c.trial s.trials)
        (get_gated_features s c)
    → IsReadOnly s c
Reads-IsReadOnly s c (inl (e, n)) = inl (status-expired c.trial.now (license_of s.engine) e, n)
Reads-IsReadOnly s c (inr (inl e, t)) =
    inr (inl (status-expired c.trial.now (license_of s.engine) e), t)
Reads-IsReadOnly s c (inr (inr u, t)) =
    inr (inr (status-unlicensed c.trial.now (license_of s.engine) u), t)

none-status :
    (now : ℕ) (info : Option LicenseInfo) → info ≡ none → license_status_of now info ≡ unlicensed
unfolding license_status_of
none-status now info e = rw e

IsReadOnly-Reads :
    (s : Instance) (c : Call)
    → IsReadOnly s c
    → Reads
        (license_status_of c.trial.now (license_of s.engine))
        (is_trial_expired s.engine s.machine c.trial s.trials)
        (is_trial_active s.engine s.machine c.trial s.trials)
        (get_gated_features s c)
IsReadOnly-Reads s c (inl (e, n)) = inl (HasEnded-status c.trial.now (license_of s.engine) e, n)
IsReadOnly-Reads s c (inr (inl e, t)) =
    inr (inl (HasEnded-status c.trial.now (license_of s.engine) e), t)
IsReadOnly-Reads s c (inr (inr u, t)) =
    inr (inr (none-status c.trial.now (license_of s.engine) u), t)

-- An instance is in read-only mode exactly if the end of its license has passed, its grace period not
-- counted, unless a trial is active and some feature is gated, or if its trial has expired and there is
-- no license loaded, or one whose end has passed.
pub check_read_only_iff : (s : Instance) (c : Call) → (check_read_only s c ≡ true) ↔ IsReadOnly s c
unfolding check_read_only get_degradation_status by_license
check_read_only_iff s c = (
  λ h. Reads-IsReadOnly s c (level-Reads _ _ _ (get_gated_features s c) (by_license s c) refl h),
  λ r. Reads-level _ _ _ (get_gated_features s c) (by_license s c) refl (IsReadOnly-Reads s c r),
)
