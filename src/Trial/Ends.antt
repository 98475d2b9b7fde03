-- ===== src/Trial/Ends.antt =====
-- internal/service/trial_service.go: how long trials last, and how an extended one ends.
use deploypilot.Base.{
  ℕ, ◌+◌, ◌*◌, ◌≡◌, refl, sym, subst, ◌∙◌, ◌||◌, nat_tested, true, false, ◌&&◌, List, [], ◌∷◌,
  Option, none, some, String, Dict, lookup, insert, lookup-insert, ltb, if_cases, ◌==◌,
  string_tested, arith, Bool-cases, inl, inr,
}
use deploypilot.License.Data.{day}
use deploypilot.Trial.{
  TrialPeriod, Call, TrialResult, is_active, is_expired, is_converted, new_trial, mark_expired,
  mark_checked, init_found, init_trial_period, extend_found, extend_trial, convert_found,
  convert_trial,
}

pub data Op : Type 0 where
  inits : String → Call → Op
  extends : String → Call → ℕ → Op
  converts : String → Call → Op

unfoldable pub apply : Op → Dict TrialPeriod → Dict TrialPeriod
apply (inits m c) trials = (init_trial_period m c trials).0
apply (extends m c days) trials = (extend_trial m c days trials).0
apply (converts m c) trials = (convert_trial m c trials).0

unfoldable pub run : List Op → Dict TrialPeriod → Dict TrialPeriod
run [] trials = trials
run (op ∷ ops) trials = run ops (apply op trials)

-- The days of a trial add up to its end; only an extension adds days, and it leaves a trial neither
-- active nor expired.
pub record IsAccounted (t : TrialPeriod) : Type 0 where
  pub ends : t.expires_at ≡ t.started_at + (30 + t.extended_days) * day
  pub original : t.original_days ≡ 30
  pub not_extended : is_active t.status ≡ true → t.extended_days ≡ 0
  pub never_extended : is_expired t.status ≡ true → t.extended_days ≡ 0

Each : (TrialPeriod → Type 0) → Dict TrialPeriod → Type 0
Each P trials = (m : String) (t : TrialPeriod) → lookup m trials ≡ some t → P t

some_injective : {a b : TrialPeriod} → ◌≡◌ {A = Option TrialPeriod} (some a) (some b) → a ≡ b
some_injective h = cc

at :
    (m : String) (t : TrialPeriod) (trials : Dict TrialPeriod)
    → lookup m trials ≡ some t
    → Each IsAccounted trials
    → IsAccounted t
unfolding Each
at m t trials e h = h m t e

insert-Each :
    (P : TrialPeriod → Type 0) (m : String) (t : TrialPeriod) (trials : Dict TrialPeriod)
    → P t
    → Each P trials
    → Each P (insert m t trials)
unfolding Each
insert-Each P m t trials h all other s e = elim (Bool-cases (m == other)) [
  | inl same ↦ subst P (some_injective (sym (looked same) ∙ e)) h
  | inr different ↦ all other s (sym (looked_other different) ∙ e)
]
  where
    looked : (m == other) ≡ true → lookup other (insert m t trials) ≡ some t
    looked same = rw (lookup-insert m other t trials, same)

    looked_other : (m == other) ≡ false → lookup other (insert m t trials) ≡ lookup other trials
    looked_other different = rw (lookup-insert m other t trials, different)

new_trial-IsAccounted : (now : ℕ) → IsAccounted (new_trial now)
unfolding new_trial
new_trial-IsAccounted now = record {
  ends = omega arith;
  original = refl;
  not_extended = λ _. refl;
  never_extended = λ _. refl;
}

mark_expired-IsAccounted :
    (c : Call) (t : TrialPeriod) → IsAccounted t → IsAccounted (mark_expired c t)
unfolding mark_expired
mark_expired-IsAccounted c t h =
    if_cases IsAccounted (is_active t.status && ltb t.expires_at c.now && c.saves) _ t
      (λ e. record {
        ends = h.ends;
        original = h.original;
        not_extended = λ _. h.not_extended (was_active e);
        never_extended = λ _. h.not_extended (was_active e);
      })
      (λ _. h)
  where
    was_active :
        (is_active t.status && ltb t.expires_at c.now && c.saves) ≡ true → is_active t.status ≡ true
    was_active e = ground arith

mark_checked-IsAccounted :
    (c : Call) (t : TrialPeriod) → IsAccounted t → IsAccounted (mark_checked c t)
unfolding mark_checked
mark_checked-IsAccounted c t h =
    if_cases IsAccounted c.updates _ t
      (λ _. record {
        ends = h.ends;
        original = h.original;
        not_extended = h.not_extended;
        never_extended = h.never_extended;
      })
      (λ _. h)

abbrev Kept : Dict TrialPeriod × TrialResult → Type 0
Kept o = Each IsAccounted o.0

init_found-Kept :
    (m : String) (c : Call) (found : Option TrialPeriod) (trials : Dict TrialPeriod)
    → lookup m trials ≡ found
    → Each IsAccounted trials
    → Kept (init_found m c found trials)
unfolding init_found
init_found-Kept m c none trials e h =
    if_cases Kept c.creates _ _
      (λ _. insert-Each IsAccounted m (new_trial c.now) trials (new_trial-IsAccounted c.now) h)
      (λ _. h)
init_found-Kept m c (some t) trials e h =
    insert-Each IsAccounted m _ trials
      (mark_checked-IsAccounted c _ (mark_expired-IsAccounted c t (at m t trials e h))) h

extend_found-Kept :
    (m : String) (c : Call) (days : ℕ) (found : Option TrialPeriod) (trials : Dict TrialPeriod)
    → lookup m trials ≡ found
    → Each IsAccounted trials
    → Kept (extend_found m c days found trials)
unfolding extend_found
extend_found-Kept m c days none trials e h = h
extend_found-Kept m c days (some t) trials e h =
    if_cases Kept (is_converted t.status) _ _ (λ _. h)
      (λ _.
        if_cases Kept c.updates _ _
          (λ _.
            insert-Each IsAccounted m _ trials
              (record {
                ends = omega (arith, (at m t trials e h).ends);
                original = (at m t trials e h).original;
                not_extended = λ no. cc no;
                never_extended = λ no. cc no;
              })
              h)
          (λ _. h))

convert_found-Each :
    (m : String) (now : ℕ) (found : Option TrialPeriod) (trials : Dict TrialPeriod)
    → lookup m trials ≡ found
    → Each IsAccounted trials
    → Each IsAccounted (convert_found m now found trials)
unfolding convert_found
convert_found-Each m now none trials e h = h
convert_found-Each m now (some t) trials e h =
    if_cases (Each IsAccounted) (is_converted t.status) _ _ (λ _. h)
      (λ _.
        insert-Each IsAccounted m _ trials
          (record {
            ends = (at m t trials e h).ends;
            original = (at m t trials e h).original;
            not_extended = λ no. cc no;
            never_extended = λ no. cc no;
          })
          h)

apply-Each :
    (op : Op) (trials : Dict TrialPeriod)
    → Each IsAccounted trials
    → Each IsAccounted (apply op trials)
unfolding apply init_trial_period extend_trial convert_trial
apply-Each (inits m c) trials h =
    if_cases Kept c.reads _ _ (λ _. init_found-Kept m c (lookup m trials) trials refl h) (λ _. h)
apply-Each (extends m c days) trials h =
    if_cases Kept (days == 0 || ltb 365 days) _ _ (λ _. h)
      (λ _.
        if_cases Kept c.reads _ _ (λ _. extend_found-Kept m c days (lookup m trials) trials refl h)
          (λ _. h))
apply-Each (converts m c) trials h =
    if_cases Kept c.updates _ _ (λ _. convert_found-Each m c.now (lookup m trials) trials refl h)
      (λ _. h)

run-Each :
    (ops : List Op) (trials : Dict TrialPeriod)
    → Each IsAccounted trials
    → Each IsAccounted (run ops trials)
unfolding run
run-Each [] trials h = h
run-Each (op ∷ ops) trials h = run-Each ops (apply op trials) (apply-Each op trials h)

none-Each : Each IsAccounted []
unfolding Each lookup
none-Each m t e = cc e

-- Whatever trials are begun, checked, extended and converted, on any machines, and whatever the
-- database refuses, each trial ends as many days after its start as it had and as extensions added to
-- it, and one that is active or is marked as expired was never extended.
pub run-IsAccounted :
    (ops : List Op) (m : String) (t : TrialPeriod) → lookup m (run ops []) ≡ some t → IsAccounted t
unfolding Each
run-IsAccounted ops m t e = run-Each ops [] none-Each m t e
