-- ===== src/Trial/Extended.antt =====
-- internal/service/trial_service.go: a trial that was extended is never found to have expired.
use deploypilot.Base.{
  ℕ, ◌+◌, ◌*◌, ◌≡◌, refl, sym, ◌∙◌, subst, true, false, ◌||◌, List, [], ◌∷◌, Option, none, some,
  String, Dict, lookup, insert, lookup-insert, lookup-insert_self, ltb, if_cases, ◌==◌,
  string_tested, nat_tested, arith, Bool-cases, inl, inr,
}
use deploypilot.License.Data.{Engine, day}
use deploypilot.Trial.{
  TrialStatus, TrialPeriod, Call, TrialResult, ok, is_active, is_expired, is_converted, new_trial,
  mark_expired, mark_checked, init_found, init_trial_period, extend_found, extend_trial,
  convert_found, convert_trial, is_trial_expired,
}
use deploypilot.Trial.Ends.{Op, inits, extends, converts, apply, run}

-- Neither active nor marked as expired.
abbrev IsBehind : TrialPeriod → Type 0
IsBehind t = (is_active t.status ≡ false) × (is_expired t.status ≡ false)

some_injective : {a b : TrialPeriod} → ◌≡◌ {A = Option TrialPeriod} (some a) (some b) → a ≡ b
some_injective h = cc

mark_expired-IsBehind : (c : Call) (t : TrialPeriod) → IsBehind t → IsBehind (mark_expired c t)
unfolding mark_expired
mark_expired-IsBehind c t h = rw (h.0) h

mark_checked-IsBehind : (c : Call) (t : TrialPeriod) → IsBehind t → IsBehind (mark_checked c t)
unfolding mark_checked
mark_checked-IsBehind c t h = if_cases IsBehind c.updates _ t (λ _. h) (λ _. h)

module _ (m : String) where
  IsPast : Dict TrialPeriod → Type 0
  IsPast trials = (t : TrialPeriod) × (lookup m trials ≡ some t) × IsBehind t

  insert-IsPast :
      (k : String) (t : TrialPeriod) (trials : Dict TrialPeriod)
      → ((k == m) ≡ true → IsBehind t)
      → IsPast trials
      → IsPast (insert k t trials)
  unfolding IsPast
  insert-IsPast k t trials h (s, e, b) = elim (Bool-cases (k == m)) [
    | inl same ↦ (t, rw (lookup-insert k m t trials, same), h same)
    | inr other ↦ (s, rw (lookup-insert k m t trials, other) e, b)
  ]

  own :
      (k : String) (found : Option TrialPeriod) (trials : Dict TrialPeriod)
      → lookup k trials ≡ found
      → IsPast trials
      → (k == m) ≡ true
      → (t : TrialPeriod) × (found ≡ some t) × IsBehind t
  unfolding IsPast
  own k found trials e (s, l, b) same = (
    s,
    sym e ∙ subst (λ j. lookup j trials ≡ some s) (sym ((string_tested.same_iff k m).0 same)) l,
    b,
  )

  -- The row that a call finds under the machine's own name is past, and not missing.
  found-IsBehind :
      (k : String) (t : TrialPeriod) (trials : Dict TrialPeriod)
      → lookup k trials ≡ some t
      → IsPast trials
      → (k == m) ≡ true
      → IsBehind t
  found-IsBehind k t trials e p same =
      let (s, is, b) = own k (some t) trials e p same in subst IsBehind (sym (some_injective is)) b

  not_missing :
      (k : String) (trials : Dict TrialPeriod)
      → lookup k trials ≡ none
      → IsPast trials
      → (k == m) ≡ true
      → (t : TrialPeriod) → IsBehind t
  not_missing k trials e p same t = let (s, is, b) = own k none trials e p same in absurd (cc is)

  abbrev StaysPast : Dict TrialPeriod × TrialResult → Type 0
  StaysPast o = IsPast o.0

  init_found-IsPast :
      (k : String) (c : Call) (found : Option TrialPeriod) (trials : Dict TrialPeriod)
      → lookup k trials ≡ found
      → IsPast trials
      → StaysPast (init_found k c found trials)
  unfolding init_found
  init_found-IsPast k c none trials e p =
      if_cases StaysPast c.creates _ _
        (λ _.
          insert-IsPast k (new_trial c.now) trials
            (λ same. not_missing k trials e p same (new_trial c.now)) p)
        (λ _. p)
  init_found-IsPast k c (some t) trials e p =
      insert-IsPast k _ trials
        (λ same.
          mark_checked-IsBehind c _
            (mark_expired-IsBehind c t (found-IsBehind k t trials e p same)))
        p

  extend_found-IsPast :
      (k : String) (c : Call) (days : ℕ) (found : Option TrialPeriod) (trials : Dict TrialPeriod)
      → IsPast trials
      → StaysPast (extend_found k c days found trials)
  unfolding extend_found
  extend_found-IsPast k c days none trials p = p
  extend_found-IsPast k c days (some t) trials p =
      if_cases StaysPast (is_converted t.status) _ _ (λ _. p)
        (λ _.
          if_cases StaysPast c.updates _ _ (λ _. insert-IsPast k _ trials (λ same. (refl, refl)) p)
            (λ _. p))

  convert_found-IsPast :
      (k : String) (now : ℕ) (found : Option TrialPeriod) (trials : Dict TrialPeriod)
      → IsPast trials
      → IsPast (convert_found k now found trials)
  unfolding convert_found
  convert_found-IsPast k now none trials p = p
  convert_found-IsPast k now (some t) trials p =
      if_cases IsPast (is_converted t.status) _ _ (λ _. p)
        (λ _. insert-IsPast k _ trials (λ same. (refl, refl)) p)

  apply-IsPast : (op : Op) (trials : Dict TrialPeriod) → IsPast trials → IsPast (apply op trials)
  unfolding apply init_trial_period extend_trial convert_trial
  apply-IsPast (inits k c) trials p =
      if_cases StaysPast c.reads _ _ (λ _. init_found-IsPast k c (lookup k trials) trials refl p)
        (λ _. p)
  apply-IsPast (extends k c days) trials p =
      if_cases StaysPast (days == 0 || ltb 365 days) _ _ (λ _. p)
        (λ _.
          if_cases StaysPast c.reads _ _
            (λ _. extend_found-IsPast k c days (lookup k trials) trials p) (λ _. p))
  apply-IsPast (converts k c) trials p =
      if_cases StaysPast c.updates _ _
        (λ _. convert_found-IsPast k c.now (lookup k trials) trials p) (λ _. p)

  run-IsPast : (ops : List Op) (trials : Dict TrialPeriod) → IsPast trials → IsPast (run ops trials)
  unfolding run
  run-IsPast [] trials p = p
  run-IsPast (op ∷ ops) trials p = run-IsPast ops (apply op trials) (apply-IsPast op trials p)

  abbrev PastIfOk : Dict TrialPeriod × TrialResult → Type 0
  PastIfOk o = o.1 ≡ ok → IsPast o.0

  extended-IsPast :
      (c : Call) (days : ℕ) (found : Option TrialPeriod) (trials : Dict TrialPeriod)
      → PastIfOk (extend_found m c days found trials)
  unfolding extend_found IsPast
  extended-IsPast c days none trials = λ e. cc e
  extended-IsPast c days (some t) trials =
      if_cases PastIfOk (is_converted t.status) _ _ (λ _ e. cc e)
        (λ _.
          if_cases PastIfOk c.updates _ _
            (λ _ _. (
              record t {
                status = TrialStatus.extended;
                expires_at = t.expires_at + days * day;
                extended_days = t.extended_days + days;
              },
              lookup-insert_self m _ trials,
              (refl, refl),
            ))
            (λ _ e. cc e))

  extend_trial-IsPast :
      (c : Call) (days : ℕ) (trials : Dict TrialPeriod) → PastIfOk (extend_trial m c days trials)
  unfolding extend_trial
  extend_trial-IsPast c days trials =
      if_cases PastIfOk (days == 0 || ltb 365 days) _ _ (λ _ e. cc e)
        (λ _.
          if_cases PastIfOk c.reads _ _ (λ _. extended-IsPast c days (lookup m trials) trials)
            (λ _ e. cc e))

-- Once a trial was extended, its machine's trial is never again found to have expired, however long ago
-- the extension ended, with any license or none, and whatever trials are begun, checked, extended and
-- converted since.
pub is_trial_expired-run-extend_trial :
    (m : String) (c : Call) (days : ℕ) (trials : Dict TrialPeriod)
    → (extend_trial m c days trials).1 ≡ ok
    → (ops : List Op) (engine : Option Engine) (later : Call)
    → is_trial_expired engine m later (run ops (extend_trial m c days trials).0) ≡ false
unfolding is_trial_expired IsPast
is_trial_expired-run-extend_trial m c days trials done ops engine later =
    let (t, e, b) =
      run-IsPast m ops (extend_trial m c days trials).0
        (extend_trial-IsPast m c days trials done) in
    rw e (ground (arith, b.1))
