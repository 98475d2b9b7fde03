-- ===== src/Batch/Ends.antt =====
-- internal/service/batch_deploy.go: the runs of `deployParallel`.
use deploypilot.Base.{
  ℕ, suc, ◌+◌, ◌-◌, ◌*◌, ◌≤◌, ◌<◌, ◌≡◌, ◌≢◌, ◌⊎◌, inl, inr, refl, subst, Bool, true, false, ◌&&◌,
  List, [], ◌∷◌, Option, none, some, String, length, ltb, any_of, count_if, nat_tested, ◌==◌,
  if◌then◌else◌, arith, Bool-cases,
}
use deploypilot.Batch.{ItemResult}
use deploypilot.Batch.Parallel.{
  Parallel, Event, acquires, cancels, skips, finishes, parallel_start, put_result, cancelled_item,
  leave, parallel_step, parallel_run, and_then, IsOver, is_work,
}

some_injective {ℓ} : {A : Type ℓ} {x y : A} → some x ≡ some y → x ≡ y
some_injective h = cc h

-- An application has a result of its own.
abbrev pub HasResult : (ℕ → Option ItemResult) → ℕ → Type 0
HasResult results i = (r : ItemResult) × (results i ≡ some r) × (r.index ≡ i)

put-HasResult :
    (k i : ℕ) (r : ItemResult) (results : ℕ → Option ItemResult)
    → r.index ≡ k
    → (k ≡ i) ⊎ HasResult results i
    → HasResult (put_result k r results) i
unfolding put_result
put-HasResult k i r results e h = elim (Bool-cases (k == i)) [
  | inl t ↦ rw t (r, refl, ground (arith, t, e))
  | inr f ↦ rw f (kept h f)
]
  where
    kept : (k ≡ i) ⊎ HasResult results i → (k == i) ≡ false → HasResult results i
    kept (inl x) f = absurd (ground (arith, x, f))
    kept (inr x) f = x

if_some {ℓ} :
    {A : Type ℓ} {b : Bool} {x y : A} → (if b then some x else none) ≡ some y → (b ≡ true) × (x ≡ y)
if_some {b = true} h = (refl, some_injective h)
if_some {b = false} h = cc h

through {ℓ κ} :
    {A : Type ℓ} {B : Type κ} {f : A → Option B} {b : B} (o : Option A)
    → and_then o f ≡ some b
    → (a : A) × (o ≡ some a) × (f a ≡ some b)
through none h = cc h
through (some a) h = (a, refl, h)

module _ (n limit : ℕ) (names : ℕ → String) where
  -- What is left to do: two events for each application not begun, one for each goroutine.
  abbrev pub work_left : Parallel → ℕ
  work_left s = 2 * (n - s.next) + length s.running

  -- Each application that was begun runs or has a result of its own, and no more run than may.
  abbrev pub Begun : Parallel → ℕ → Type 0
  Begun s i = (any_of (λ j. i == j) s.running ≡ true) ⊎ HasResult s.results i

  pub record IsFair (s : Parallel) : Type 0 where
    pub few : length s.running ≤ limit
    pub within : s.next ≤ n
    pub begun : (i : ℕ) → i < s.next → Begun s i

  length-leave :
      (i : ℕ) (js : List ℕ) → any_of (λ j. i == j) js ≡ true → suc (length (leave i js)) ≡ length js
  unfolding leave any_of
  length-leave i [] h = cc h
  length-leave i (j ∷ js) h = ground (arith, h, length-leave i js)

  stays-leave :
      (i k : ℕ) (js : List ℕ)
      → i ≢ k
      → any_of (λ j. k == j) js ≡ true
      → any_of (λ j. k == j) (leave i js) ≡ true
  unfolding leave any_of
  stays-leave i k [] n' h = cc h
  stays-leave i k (j ∷ js) n' h = ground (arith, h, n', stays-leave i k js)

  Less : Event → Parallel → Parallel → Type 0
  Less e s s' = (if is_work e then 1 else 0) + work_left s' ≤ work_left s

  step-Less :
      (e : Event) (s s' : Parallel) → parallel_step n limit names e s ≡ some s' → Less e s s'
  unfolding parallel_step Less
  step-Less acquires s s' h =
      let (t, e) = if_some h in subst (Less acquires s) e (ground (arith, t))
  step-Less cancels s s' h = subst (Less cancels s) (some_injective h) (omega arith)
  step-Less skips s s' h = let (t, e) = if_some h in subst (Less skips s) e (ground (arith, t))
  step-Less (finishes i r) s s' h =
      let (t, e) = if_some h in
      subst (Less (finishes i r) s) e (ground (arith, length-leave i s.running, t))

  finished :
      (s : Parallel) (k : ℕ) (r : ItemResult)
      → (any_of (λ j. k == j) s.running && r.index == k) ≡ true
      → (i : ℕ) → Begun s i
      → (any_of (λ j. i == j) (leave k s.running) ≡ true) ⊎ HasResult (put_result k r s.results) i
  finished s k r t i (inr h) = inr (put-HasResult k i r s.results (ground (arith, t)) (inr h))
  finished s k r t i (inl h) = elim (Bool-cases (k == i)) [
    | inl e ↦ inr (put-HasResult k i r s.results (ground (arith, t)) (inl (ground (arith, e))))
    | inr e ↦ inl (stays-leave k i s.running (ground (arith, e)) h)
  ]

  skipped :
      (s : Parallel) (i : ℕ)
      → (s.next ≡ i) ⊎ Begun s i
      → (any_of (λ j. i == j) s.running ≡ true)
        ⊎ HasResult (put_result s.next (cancelled_item names s.next) s.results) i
  unfolding cancelled_item
  skipped s i (inr (inl h)) = inl h
  skipped s i (inr (inr h)) =
      inr (put-HasResult s.next i (cancelled_item names s.next) s.results refl (inr h))
  skipped s i (inl e) =
      inr (put-HasResult s.next i (cancelled_item names s.next) s.results refl (inl e))

  -- The last index, or one before.
  last_or :
      (s : Parallel) (i : ℕ) → i < suc s.next → (i < s.next → Begun s i) → (s.next ≡ i) ⊎ Begun s i
  last_or s i l b = elim (Bool-cases (s.next == i)) [
    | inl e ↦ inl (ground (arith, e))
    | inr e ↦ inr (b (ground (arith, e, l)))
  ]

  step-IsFair :
      (e : Event) (s s' : Parallel)
      → IsFair s
      → parallel_step n limit names e s ≡ some s'
      → IsFair s'
  unfolding parallel_step cancelled_item any_of
  step-IsFair acquires s s' f h =
      let (t, e) = if_some h in
      subst IsFair e (record {
        few = ground (arith, t);
        within = ground (arith, t);
        begun = λ i l. ground (arith, f.begun i, l);
      })
  step-IsFair cancels s s' f h =
      subst IsFair (some_injective h) (record { few = f.few; within = f.within; begun = f.begun })
  step-IsFair skips s s' f h =
      let (t, e) = if_some h in
      subst IsFair e (record {
        few = f.few;
        within = ground (arith, t);
        begun = λ i l. skipped s i (last_or s i l (f.begun i));
      })
  step-IsFair (finishes k r) s s' f h =
      let (t, e) = if_some h in
      subst IsFair e (record {
        few = ground (arith, f.few, t, length-leave k s.running);
        within = f.within;
        begun = λ i l. finished s k r t i (f.begun i l);
      })

  ended : (s : Parallel) → IsOver n s → (i : ℕ) → Begun s i → HasResult s.results i
  unfolding any_of
  ended s o i (inr h) = h
  ended s o i (inl h) = absurd (ground (arith, o.1, h))

  -- The loop goes on, or a goroutine ends, or all is over.
  next_event :
      (s : Parallel) (js : List ℕ)
      → s.running ≡ js
      → 0 < limit
      → s.next ≤ n
      → IsOver n s
        ⊎ ((e : Event) × (t : Parallel) × (is_work e ≡ true)
            × (parallel_step n limit names e s ≡ some t))
  unfolding parallel_step any_of
  next_event s (j ∷ js) r p w =
      let item : ItemResult = record { index = j; app_name = ""; success = true; error = "" } in
      inr (
        finishes j item,
        record s { running = leave j s.running; results = put_result j item s.results },
        refl,
        ground (arith, r),
      )
  next_event s [] r p w = elim (Bool-cases (ltb s.next n)) [
    | inl l ↦ inr (
      acquires,
      record s { next = suc s.next; running = s.next ∷ s.running },
      refl,
      ground (arith, r, p, l),
    )
    | inr l ↦ inl (ground (arith, l, w), r)
  ]

  run-IsFair :
      (es : List Event) (s s' : Parallel)
      → IsFair s
      → parallel_run n limit names es s ≡ some s'
      → IsFair s'
  unfolding parallel_run
  run-IsFair [] s s' f h = subst IsFair (some_injective h) f
  run-IsFair (e ∷ es) s s' f h =
      let (t, q, g) = through (parallel_step n limit names e s) h in
      run-IsFair es t s' (step-IsFair e s t f q) g

  run-less :
      (es : List Event) (s s' : Parallel)
      → parallel_run n limit names es s ≡ some s'
      → count_if is_work es + work_left s' ≤ work_left s
  unfolding parallel_run count_if Less
  run-less [] s s' h =
      subst (λ (t : Parallel). 0 + work_left t ≤ work_left s) (some_injective h) (omega arith)
  run-less (e ∷ es) s s' h =
      let (t, q, g) = through (parallel_step n limit names e s) h in
      ground (arith, run-less es t s' g, step-Less e s t q)

  start-IsFair : IsFair parallel_start
  unfolding parallel_start
  start-IsFair = record {
    few = omega arith;
    within = omega arith;
    begun = λ i l. absurd (ground (arith, l));
  }

  -- Whatever the goroutines do, in any order, and whenever the context is cancelled, no more of them
  -- run at a time than the limit; and when the batch is over, each application has a result, which
  -- is its own.
  pub parallel_run-results :
      (es : List Event) (s : Parallel)
      → parallel_run n limit names es parallel_start ≡ some s
      → (length s.running ≤ limit) × (IsOver n s → (i : ℕ) → i < n → HasResult s.results i)
  parallel_run-results es s h =
      let fair = run-IsFair es parallel_start s start-IsFair h in
      (fair.few, λ over i l. ended s over i (fair.begun i (ground (arith, over.0, l))))

  -- A batch is over after at most two events for each application, the cancellation not counted, and
  -- until then one more is possible, if the limit is positive.
  pub parallel_run-ends :
      (es : List Event) (s : Parallel)
      → 0 < limit
      → parallel_run n limit names es parallel_start ≡ some s
      → (count_if is_work es ≤ 2 * n)
        × (IsOver n s
            ⊎ ((e : Event) × (t : Parallel) × (is_work e ≡ true)
                × (parallel_step n limit names e s ≡ some t)))
  unfolding parallel_start
  parallel_run-ends es s p h = (
    omega (arith, run-less es parallel_start s h),
    next_event s s.running refl p (run-IsFair es parallel_start s start-IsFair h).within,
  )
