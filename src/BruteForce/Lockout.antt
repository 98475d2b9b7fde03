-- ===== src/BruteForce/Lockout.antt =====
-- internal/bruteforce/protector.go: when an account is locked.
use deploypilot.Base.{
  ℕ, ◌+◌, ◌≤◌, ◌<◌, ◌≡◌, refl, ap, sym, subst, ◌∙◌, true, false, none, some, List, [], ◌∷◌, ◌++◌,
  String, lookup, lookup-insert_self, arith, All, length, length-append, keep_if,
}
use deploypilot.BruteForce.{
  Config, AttemptRecord, AccountState, Protector, check, check_account, record_failure, add_failure,
  prune_old, get_or_create, is_recent, account_locked, locked_result, is_locked,
}

-- A failed login of one account: the address, the message and the time.
pub record Failure : Type 0 where
  pub ip : String
  pub message : String
  pub time : ℕ

pub fail_all : Protector → String → List Failure → Protector
fail_all p username [] = p
fail_all p username (f ∷ fs) =
    fail_all (record_failure p username f.ip f.message f.time) username fs

-- A failure counts at `now`: it is not later, and lies within the window.
abbrev pub Counts : Config → ℕ → ℕ → Type 0
Counts c now t = (t ≤ now) × (now < t + c.window_duration)

abbrev AllCount : Config → ℕ → List AttemptRecord → Type 0
AllCount c now = All (λ a. Counts c now a.time)

keep_all :
    (c : Config) (now t : ℕ) (as' : List AttemptRecord)
    → t ≤ now
    → AllCount c now as'
    → keep_if (is_recent c t) as' ≡ as'
unfolding keep_if
keep_all c now t [] l h = refl
keep_all c now t (a ∷ rest) l h = ground (arith, keep_all c now t rest l h.1)

AllCount-snoc :
    (c : Config) (now : ℕ) (as' : List AttemptRecord) (a : AttemptRecord)
    → AllCount c now as'
    → Counts c now a.time
    → AllCount c now (as' ++ a ∷ [])
AllCount-snoc c now [] a h k = (k, tt)
AllCount-snoc c now (b ∷ rest) a h k = (h.0, AllCount-snoc c now rest a h.1 k)

-- A failure that counts, after others that do, is added and nothing is pruned.
add_failure-Counts :
    (c : Config) (limit lockout now : ℕ) (a : AttemptRecord) (s : AccountState)
    → AllCount c now s.attempts
    → Counts c now a.time
    → (add_failure c limit lockout a.time a s).attempts ≡ s.attempts ++ a ∷ []
unfolding add_failure prune_old
add_failure-Counts c limit lockout now a s h k =
    ground (
      arith,
      keep_all c now a.time (s.attempts ++ a ∷ []) k.0 (AllCount-snoc c now s.attempts a h k),
    )

-- The state of an account, a new one where it has none.
abbrev pub state_of : Protector → String → AccountState
state_of p username = get_or_create (lookup username p.accounts)

module _ (p : Protector) (username : String) where
  record_failure_state :
      (ip message : String) (now : ℕ)
      → state_of (record_failure p username ip message now) username
        ≡ add_failure p.config p.config.max_attempts p.config.lockout_duration now
            (record { time = now; ip = ip; error = message })
            (state_of p username)
  unfolding record_failure get_or_create
  record_failure_state ip message now = rw lookup-insert_self

  lookup-record_failure :
      (ip message : String) (now : ℕ)
      → lookup username (record_failure p username ip message now).accounts
        ≡ some (
            add_failure p.config p.config.max_attempts p.config.lockout_duration now
              (record { time = now; ip = ip; error = message })
              (state_of p username))
  unfolding record_failure
  lookup-record_failure ip message now = lookup-insert_self username _ p.accounts

-- What a run of failures that all count leaves of the account.
record HasCounted (c : Config) (now n : ℕ) (p : Protector) (username : String) : Type 0 where
  same_config : p.config ≡ c
  counted : length (state_of p username).attempts ≡ n
  all_count : AllCount c now (state_of p username).attempts

module _ (now : ℕ) (p : Protector) (username ip message : String) (t : ℕ) where
  new_attempt : AttemptRecord
  new_attempt = record { time = t; ip = ip; error = message }

  record_failure_attempts :
      AllCount p.config now (state_of p username).attempts
      → Counts p.config now t
      → (state_of (record_failure p username ip message t) username).attempts
        ≡ (state_of p username).attempts ++ new_attempt ∷ []
  unfolding new_attempt
  record_failure_attempts h k = rw (record_failure_state p username ip message t) (
      add_failure-Counts p.config p.config.max_attempts p.config.lockout_duration now new_attempt
        (state_of p username) h k)

  record_failure-HasCounted :
      (n : ℕ)
      → HasCounted p.config now n p username
      → Counts p.config now t
      → HasCounted p.config now (n + 1) (record_failure p username ip message t) username
  unfolding record_failure new_attempt
  record_failure-HasCounted n v k =
      let e = record_failure_attempts v.all_count k in
      record {
        same_config = refl;
        counted =
            ap length e
            ∙ length-append (state_of p username).attempts (new_attempt ∷ [])
            ∙ omega (arith, v.counted);
        all_count =
            subst (AllCount p.config now) (sym e)
              (AllCount-snoc p.config now (state_of p username).attempts new_attempt v.all_count k);
      }

record_failure_config :
    (p : Protector) (username ip message : String) (t : ℕ)
    → (record_failure p username ip message t).config ≡ p.config
unfolding record_failure
record_failure_config p username ip message t = refl

fail_all-HasCounted :
    (c : Config) (now n : ℕ) (p : Protector) (username : String) (fs : List Failure)
    → p.config ≡ c
    → HasCounted p.config now n p username
    → All (λ f. Counts c now f.time) fs
    → HasCounted c now (n + length fs) (fail_all p username fs) username
unfolding fail_all record_failure
fail_all-HasCounted c now n p username [] e v h =
    subst (λ k. HasCounted c now k p username) (omega arith)
      (subst (λ d. HasCounted d now n p username) e v)
fail_all-HasCounted c now n p username (f ∷ fs) e v h =
    subst (λ k. HasCounted c now k (fail_all p username (f ∷ fs)) username) (omega arith)
      (fail_all-HasCounted c now (n + 1) (record_failure p username f.ip f.message f.time) username
        fs e
        (record_failure-HasCounted now p username f.ip f.message f.time n v
          (subst (λ d. Counts d now f.time) (sym e) h.0))
        h.1)

fail_all-snoc :
    (p : Protector) (username : String) (fs : List Failure) (f : Failure)
    → fail_all p username (fs ++ f ∷ [])
      ≡ record_failure (fail_all p username fs) username f.ip f.message f.time
unfolding fail_all
fail_all-snoc p username [] f = refl
fail_all-snoc p username (g ∷ fs) f =
    fail_all-snoc (record_failure p username g.ip g.message g.time) username fs f

-- The failure that reaches the limit locks.
add_failure_locks :
    (c : Config) (limit lockout : ℕ) (a : AttemptRecord) (s : AccountState)
    → AllCount c a.time s.attempts
    → 0 < c.window_duration
    → limit ≤ length s.attempts + 1
    → add_failure c limit lockout a.time a s
      ≡ record { attempts = s.attempts ++ a ∷ []; locked_until = a.time + lockout }
unfolding add_failure prune_old
add_failure_locks c limit lockout a s h w l = ground (
  arith,
  keep_all c a.time a.time (s.attempts ++ a ∷ []) (omega arith)
      (AllCount-snoc c a.time s.attempts a h (omega arith)),
  length-append s.attempts (a ∷ []),
)

check_locked :
    (p : Protector) (username ip : String) (now : ℕ) (s : AccountState)
    → lookup username p.accounts ≡ some s
    → is_locked s now ≡ true
    → check p username ip now ≡ locked_result account_locked s
unfolding check check_account
check_locked p username ip now s f l = ground arith

fresh-HasCounted :
    (now : ℕ) (p : Protector) (username : String)
    → lookup username p.accounts ≡ none
    → HasCounted p.config now 0 p username
unfolding get_or_create
fresh-HasCounted now p username e = record {
  same_config = refl;
  counted = rw e;
  all_count = rw e tt;
}

-- Failures of an account that all lie in the window of the last one lock it, once they are as many as
-- the limit: until the lockout ends, each check refuses the account, from every address.
pub locks_after_max :
    (p : Protector) (username ip : String) (fs : List Failure) (last : Failure) (now : ℕ)
    → lookup username p.accounts ≡ none
    → 0 < p.config.window_duration
    → All (λ f. Counts p.config last.time f.time) fs
    → p.config.max_attempts ≤ length fs + 1
    → now < last.time + p.config.lockout_duration
    → let result = check (fail_all p username (fs ++ last ∷ [])) username ip now in
      (result.allowed ≡ false)
      × (result.reason ≡ account_locked)
      × (result.attempts ≡ length fs + 1)
      × (result.locked_until ≡ last.time + p.config.lockout_duration)
unfolding locked_result
locks_after_max p username ip fs last now e w h m l =
    let q = fail_all p username fs in
    let a : AttemptRecord = record { time = last.time; ip = last.ip; error = last.message } in
    let v =
      fail_all-HasCounted p.config last.time 0 p username fs refl
        (fresh-HasCounted last.time p username e) h in
    let g = v.same_config in
    let locked =
      add_failure_locks p.config p.config.max_attempts p.config.lockout_duration a
        (state_of q username) v.all_count (omega arith) (omega (arith, v.counted)) in
    let found =
      lookup-record_failure q username last.ip last.message last.time
      ∙ ap
          (λ c.
            some
              (add_failure c c.max_attempts c.lockout_duration last.time a (state_of q username)))
          g
      ∙ ap some locked in
    rw (fail_all-snoc p username fs last) (
      rw
        (check_locked (record_failure q username last.ip last.message last.time) username ip now
          (record {
            attempts = (state_of q username).attempts ++ a ∷ [];
            locked_until = last.time + p.config.lockout_duration;
          })
          found (ground arith))
        (
          refl,
          refl,
          length-append (state_of q username).attempts (a ∷ []) ∙ omega (arith, v.counted),
          refl,
        ))
