-- ===== src/Confirm/Life.antt =====
-- internal/confirm/store.go: the life of one request.
use deploypilot.Base.{
  ℕ, ◌≤◌, ◌≡◌, ◌↔◌, ◌⊎◌, inl, inr, subst, ltb, Bool, true, false, Option, none, some, List, [], ◌∷◌,
  String, lookup, lookup-insert, lookup-insert_self, lookup-retain, option_keep, arith,
  Option-cases, Bool-cases, ◌==◌, string_tested,
}
use deploypilot.Confirm.{
  Status, pending, approved, executed, is_pending, Request, Store, auto_expire, put, not_pending,
  ok, err, confirm, reject, set_result, cleanup, is_kept,
}

-- A confirmation succeeds exactly for a request that is there, is pending and has not run out.
pub confirm_iff :
    (s : Store) (id by : String) (now now' : ℕ)
    → ((r : Request) × ((confirm s id by now now').1 ≡ ok r)) ↔ (
        (r : Request) × (lookup id s.requests ≡ some r)
        × (r.status ≡ pending)
        × (now ≤ r.expires_at))
unfolding confirm
confirm_iff s id by now now' = elim (Option-cases (lookup id s.requests)) [
  | inl e ↦ (λ h. absurd (ground (arith, h.1)), λ h. absurd (ground (arith, h.1)))
  | inr (r, e) ↦ (
    λ h. (r, e, ground (arith, h.1), ground (arith, h.1)),
    λ h. (
      record r { status = approved; confirmed_at = some now'; confirmed_by = by },
      ground (arith, h.1, h.2, h.3),
    ),
  )
]

confirm_leaves :
    (s : Store) (id by : String) (now now' : ℕ) (r : Request)
    → (confirm s id by now now').1 ≡ ok r
    → (lookup id (confirm s id by now now').0.requests ≡ some r) × (r.status ≡ approved)
unfolding confirm put
confirm_leaves s id by now now' r h = elim (Option-cases (lookup id s.requests)) [
  | inl e ↦ absurd (ground arith)
  | inr (q, e) ↦ ground (
    arith,
    lookup-insert_self id
        (record q { status = approved; confirmed_at = some now'; confirmed_by = by }) s.requests,
  )
]

-- A request that is not pending is refused by both answers, which leave the store as it is.
decided_refuses :
    (s : Store) (id by : String) (now now' : ℕ) (r : Request)
    → lookup id s.requests ≡ some r
    → is_pending r.status ≡ false
    → (confirm s id by now now' ≡ (s, err (not_pending r.status)))
      × (reject s id by now ≡ (s, err (not_pending r.status)))
unfolding confirm reject
decided_refuses s id by now now' r e d = ground arith

-- After a confirmation succeeds, no other confirmation or rejection of that request does, and none
-- changes the store.
pub confirm_once :
    (s : Store) (id by by' : String) (now now' later later' : ℕ) (r : Request)
    → (confirm s id by now now').1 ≡ ok r
    → let s' = (confirm s id by now now').0 in
      (confirm s' id by' later later' ≡ (s', err (not_pending approved)))
      × (reject s' id by' later ≡ (s', err (not_pending approved)))
confirm_once s id by by' now now' later later' r h =
    let (e, a) = confirm_leaves s id by now now' r h in
    let s' = (confirm s id by now now').0 in
    let (c, d) = decided_refuses s' id by' later later' r e (rw a) in
    (rw (← a) c, rw (← a) (decided_refuses s' id by' later 0 r e (rw a)).1)

-- An operation on the store, but for the creation of requests: whatever any caller or any goroutine
-- that waits for the expiry does next.
pub data Op : Type 0 where
  confirms : String → String → ℕ → ℕ → Op
  rejects : String → String → ℕ → Op
  expires : String → Op
  sets_result : String → String → String → Op
  cleans : ℕ → ℕ → Op

apply : Store → Op → Store
apply s (confirms id by now now') = (confirm s id by now now').0
apply s (rejects id by now) = (reject s id by now).0
apply s (expires id) = auto_expire s id
apply s (sets_result id result message) = set_result s id result message
apply s (cleans age now) = (cleanup s age now).0

pub run : Store → List Op → Store
unfolding apply
run s [] = s
run s (o ∷ os) = run (apply s o) os

-- What may become of a request that is decided: it stays as it is decided, is executed, or is gone.
abbrev pub StaysDecided : Status → Option Request → Type 0
StaysDecided st none = Unit
StaysDecided st (some r) = (r.status ≡ st) ⊎ (r.status ≡ executed)

module _ (st : Status) (decided : is_pending st ≡ false) (id : String) where
  put-StaysDecided :
      (s : Store) (r : Request) (key : String)
      → ((key == id) ≡ true → StaysDecided st (some r))
      → StaysDecided st (lookup id s.requests)
      → StaysDecided st (lookup id (put s r key).requests)
  unfolding put
  put-StaysDecided s r key new old = elim (Bool-cases (key == id)) [
    | inl e ↦ rw (lookup-insert key id r s.requests, e) (new e)
    | inr e ↦ rw (lookup-insert key id r s.requests, e) old
  ]

  -- A pending request is not the decided one.
  other_key :
      (s : Store) (key : String) (r : Request)
      → StaysDecided st (lookup id s.requests)
      → lookup key s.requests ≡ some r
      → is_pending r.status ≡ true
      → (key == id) ≡ true
      → ⊥
  other_key s key r h e p k =
      let same = (string_tested.same_iff key id).0 k in
      go (subst (λ j. lookup j s.requests ≡ some r) same e)
    where
      go : lookup id s.requests ≡ some r → ⊥
      go f = elim (rw f at h) [ inl a ↦ ground arith | inr a ↦ ground arith ]

  confirm-StaysDecided :
      (s : Store) (key by : String) (now now' : ℕ)
      → StaysDecided st (lookup id s.requests)
      → StaysDecided st (lookup id (confirm s key by now now').0.requests)
  unfolding confirm
  confirm-StaysDecided s key by now now' h = elim (Option-cases (lookup key s.requests)) [
    | inl e ↦ rw (e, confirm) h
    | inr (r, e) ↦ elim (Bool-cases (is_pending r.status)) [
      | inl p ↦ elim (Bool-cases (ltb r.expires_at now)) [
        | inl l ↦
            rw (e, confirm)
              (rw (p, l) (put-StaysDecided s _ key (λ k. absurd (other_key s key r h e p k)) h))
        | inr l ↦
            rw (e, confirm)
              (rw (p, l) (put-StaysDecided s _ key (λ k. absurd (other_key s key r h e p k)) h))
      ]
      | inr p ↦ rw (e, confirm) (rw p h)
    ]
  ]

  reject-StaysDecided :
      (s : Store) (key by : String) (now : ℕ)
      → StaysDecided st (lookup id s.requests)
      → StaysDecided st (lookup id (reject s key by now).0.requests)
  unfolding reject
  reject-StaysDecided s key by now h = elim (Option-cases (lookup key s.requests)) [
    | inl e ↦ rw (e, reject) h
    | inr (r, e) ↦ elim (Bool-cases (is_pending r.status)) [
      | inl p ↦
          rw (e, reject)
            (rw p (put-StaysDecided s _ key (λ k. absurd (other_key s key r h e p k)) h))
      | inr p ↦ rw (e, reject) (rw p h)
    ]
  ]

  auto_expire-StaysDecided :
      (s : Store) (key : String)
      → StaysDecided st (lookup id s.requests)
      → StaysDecided st (lookup id (auto_expire s key).requests)
  unfolding auto_expire
  auto_expire-StaysDecided s key h = elim (Option-cases (lookup key s.requests)) [
    | inl e ↦ rw (e, auto_expire) h
    | inr (r, e) ↦ elim (Bool-cases (is_pending r.status)) [
      | inl p ↦
          rw (e, auto_expire)
            (rw p (put-StaysDecided s _ key (λ k. absurd (other_key s key r h e p k)) h))
      | inr p ↦ rw (e, auto_expire) (rw p h)
    ]
  ]

  set_result-StaysDecided :
      (s : Store) (key result message : String)
      → StaysDecided st (lookup id s.requests)
      → StaysDecided st (lookup id (set_result s key result message).requests)
  unfolding set_result
  set_result-StaysDecided s key result message h = elim (Option-cases (lookup key s.requests)) [
    | inl e ↦ rw (e, set_result) h
    | inr (r, e) ↦ rw (e, set_result) (put-StaysDecided s _ key (λ k. inr (ground arith)) h)
  ]

  option_keep-StaysDecided :
      (p : Request → Bool) (o : Option Request)
      → StaysDecided st o
      → StaysDecided st (option_keep p o)
  option_keep-StaysDecided p none h = tt
  option_keep-StaysDecided p (some r) h = elim (Bool-cases (p r)) [
    | inl e ↦ rw e h
    | inr e ↦ rw e tt
  ]

  apply-StaysDecided :
      (s : Store) (o : Op)
      → StaysDecided st (lookup id s.requests)
      → StaysDecided st (lookup id (apply s o).requests)
  unfolding apply cleanup
  apply-StaysDecided s (confirms key by now now') h = confirm-StaysDecided s key by now now' h
  apply-StaysDecided s (rejects key by now) h = reject-StaysDecided s key by now h
  apply-StaysDecided s (expires key) h = auto_expire-StaysDecided s key h
  apply-StaysDecided s (sets_result key result message) h =
      set_result-StaysDecided s key result message h
  apply-StaysDecided s (cleans age now) h =
      rw (lookup-retain (is_kept age now) id s.requests)
        (option_keep-StaysDecided (is_kept age now) (lookup id s.requests) h)

  -- A request that is decided never becomes another one: whatever confirmations, rejections, expiries,
  -- results and cleanups follow, by any caller and on any request, a request that was approved,
  -- rejected or expired keeps that status, is marked as executed, or is deleted. None that was rejected
  -- or expired is ever approved.
  pub run-StaysDecided :
      (s : Store) (os : List Op)
      → StaysDecided st (lookup id s.requests)
      → StaysDecided st (lookup id (run s os).requests)
  unfolding run
  run-StaysDecided s [] h = h
  run-StaysDecided s (o ∷ os) h = run-StaysDecided (apply s o) os (apply-StaysDecided s o h)
