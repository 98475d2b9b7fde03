-- ===== src/Oauth2/Codes.antt =====
-- internal/service/oauth2_service.go: a code of an authorization is redeemed at most once.
use native.Mathlib.Nat.{le_trans}
use deploypilot.Base.{
  ℕ, ◌+◌, ◌≤◌, ◌≡◌, refl, sym, subst, Bool, true, false, not, ◌&&◌, ◌||◌, List, [], ◌∷◌, some,
  String, if◌then◌else◌, arith, Bool-cases, inl, inr, ◌==◌, string_tested, any_of, str_eq_refl,
}
use deploypilot.Oauth2.Store.{
  Authorization, Database, Config, Json, Call, Result, done, failed, M, find_first,
  insert_authorization, is_accepted,
}
use deploypilot.Oauth2.Grants.{create_authorization, exchange_code, mark_used, is_open_code}
use deploypilot.Oauth2.Triples.{
  Triple, Outcome, bind_rule, require_rule, given_rule, using_rule, fail_rule, select-Triple,
  if-Outcome, kept_by,
}
use deploypilot.Oauth2.Runs.{
  Op, creates_client, updates_client, deletes_client, regenerates, authorizes, exchanges,
  uses_credentials, refreshes, revokes, apply,
}
use deploypilot.Oauth2.Chances.{
  has_code, chance, mark, marked, chance-marked-le, chance-marked-lt, chance-cons-le,
}
use deploypilot.Oauth2.Spares.{
  create_token-Spares, refresh_token-Spares, client_credentials-Spares, revoke_token-Spares,
  create_client-Spares, update_client-Spares, delete_client-Spares, regenerate_secret-Spares,
}

-- Whether a result is a success.
abbrev is_done : {A : Type 0} → Result A → Bool
is_done (done a) = true
is_done (failed e) = false

-- How many of the calls are exchanges of the code that give a token.
redeemed_now : Json → Config → String → Op → Database → ℕ
redeemed_now j cfg code (exchanges c code') db =
    if code' == code && is_done (exchange_code j cfg c code' db).1 then 1 else 0
redeemed_now j cfg code _ db = 0

unfoldable pub redemptions : Json → Config → String → List Op → Database → ℕ
unfolding redeemed_now
redemptions j cfg code [] db = 0
redemptions j cfg code (op ∷ ops) db =
    redeemed_now j cfg code op db + redemptions j cfg code ops (apply j cfg op db)

-- The authorizations by what they still allow of a code.
AtMost : String → ℕ → List Authorization → Type 0
AtMost code n rows = chance code rows ≤ n

-- A success uses up one chance.
abbrev Left : String → ℕ → Database → Type 0
Left code n db = AtMost code n db.authorizations

-- One chance fewer.
abbrev Spent : String → ℕ → Database → Type 0
Spent code n db = chance code db.authorizations + 1 ≤ n

not_clashing : (creates clash : Bool) → (creates && not clash) ≡ true → clash ≡ false
not_clashing creates clash h = ground arith

insert_authorization-Left :
    (code : String) (n : ℕ) (c : Call) (row : Authorization)
    → row.used ≡ false
    → Triple (Left code n) (insert_authorization c row) (λ _. Left code n) (Left code n)
unfolding insert_authorization AtMost
insert_authorization-Left code n c row u = record {
  holds = λ db h.
      if-Outcome (λ _. Left code n) (Left code n)
        (is_accepted c (λ r. r.id == row.id || r.code == row.code) db.authorizations) _ _
        (λ e.
          omega (arith, chance-cons-le code row db.authorizations u (not_clashing c.creates _ e)))
        (λ _. h);
}

create_authorization-Left :
    (code : String) (n : ℕ) (j : Json) (cfg : Config) (c : Call) (client user : String)
    (scopes : List String)
    → Triple
        (Left code n)
        (create_authorization j cfg c client user scopes)
        (λ _. Left code n)
        (Left code n)
unfolding create_authorization
create_authorization-Left code n j cfg c client user scopes =
    bind_rule (select-Triple (Left code n) c _ _ _) λ r.
      using_rule (Unit {0}) (Left code n) (λ db h. (tt, h.0))
        λ _.
          require_rule _ _ _ (λ db h. h)
            λ _.
              given_rule _ _ _ (λ db h. h)
                λ code' _.
                  given_rule _ _ _ (λ db h. h) λ id _. insert_authorization-Left code n c _ refl

-- Marking any row leaves no more chances, and marking the one that an exchange found leaves fewer.
mark_found :
    (code : String) (n : ℕ) (c : Call) (a : Authorization)
    → Triple
        (λ db. Left code n db × (find_first (is_open_code code) db.authorizations ≡ some a))
        (mark_used c a.id)
        (λ _. Spent code n)
        (Left code n)
unfolding mark_used AtMost marked mark
mark_found code n c a = record {
  holds = λ db h.
      if-Outcome (λ _. Spent code n) (Left code n) c.updates _ _
        (λ _. omega (arith, chance-marked-lt code db.authorizations a h.1, h.0)) (λ _. h.0);
}

mark_other :
    (code : String) (n : ℕ) (c : Call) (id : String)
    → Triple (Left code n) (mark_used c id) (λ _. Left code n) (Left code n)
unfolding mark_used AtMost marked mark
mark_other code n c id = record {
  holds = λ db h.
      if-Outcome (λ _. Left code n) (Left code n) c.updates _ _
        (λ _. omega (arith, chance-marked-le code id db.authorizations)) (λ _. h);
}

-- An exchange that gives a token uses up a chance of its code.
exchange-Spent :
    (code : String) (n : ℕ) (j : Json) (cfg : Config) (c : Call)
    → Triple (Left code n) (exchange_code j cfg c code) (λ _. Spent code n) (Left code n)
unfolding exchange_code AtMost
exchange-Spent code n j cfg c = bind_rule (select-Triple (Left code n) c _ _ _) λ a.
    require_rule _ _ _ (λ db h. h.0)
      λ _. bind_rule (mark_found code n c a) λ _.
        fail_rule (Spent code n) (λ db h. omega arith)
          (create_token-Spares (λ rows. chance code rows + 1 ≤ n) j cfg c _ _ _)

exchange_other :
    (code other : String) (n : ℕ) (j : Json) (cfg : Config) (c : Call)
    → Triple (Left code n) (exchange_code j cfg c other) (λ _. Left code n) (Left code n)
unfolding exchange_code
exchange_other code other n j cfg c = bind_rule (select-Triple (Left code n) c _ _ _) λ a.
    using_rule (Unit {0}) (Left code n) (λ db h. (tt, h.0))
      λ _.
        require_rule _ _ _ (λ db h. h)
          λ _.
            bind_rule (mark_other code n c a.id)
              λ _. create_token-Spares (AtMost code n) j cfg c _ _ _

counted :
    {A : Type 0} (code : String) (n : ℕ) (o : Database × Result A)
    → Outcome (λ _. Spent code n) (Left code n) o
    → (if is_done o.1 then 1 else 0) + chance code o.0.authorizations ≤ n
unfolding AtMost
counted code n (db, done a) h = omega arith
counted code n (db, failed e) h = omega arith

Step : String → Json → Config → Op → Database → Type 0
Step code j cfg op db =
    redeemed_now j cfg code op db + chance code (apply j cfg op db).authorizations
    ≤ chance code db.authorizations

quiet :
    (code : String) {A : Type 0} {m : M A}
    → ((n : ℕ) → Triple (Left code n) m (λ _. Left code n) (Left code n))
    → (db : Database) → 0 + chance code (m db).0.authorizations ≤ chance code db.authorizations
unfolding AtMost
quiet code t db = omega (arith, kept_by (t (chance code db.authorizations)) db (omega arith))

step_same :
    (code : String) (j : Json) (cfg : Config) (c : Call) (db : Database)
    → Step code j cfg (exchanges c code) db
unfolding Step apply redeemed_now AtMost
step_same code j cfg c db = rw (str_eq_refl code) (
    counted code (chance code db.authorizations) (exchange_code j cfg c code db)
      ((exchange-Spent code _ j cfg c).holds db (omega arith)))

apply-Step :
    (code : String) (j : Json) (cfg : Config) (op : Op) (db : Database) → Step code j cfg op db
unfolding Step apply redeemed_now
apply-Step code j cfg (creates_client c user name uris scopes grants) db =
    quiet code (λ n. create_client-Spares (AtMost code n) j cfg c user name uris scopes grants) db
apply-Step code j cfg (updates_client c id user u) db =
    quiet code (λ n. update_client-Spares (AtMost code n) j cfg c id user u) db
apply-Step code j cfg (deletes_client c id user) db =
    quiet code (λ n. delete_client-Spares (AtMost code n) j cfg c id user) db
apply-Step code j cfg (regenerates c id user) db =
    quiet code (λ n. regenerate_secret-Spares (AtMost code n) j cfg c id user) db
apply-Step code j cfg (authorizes c client user scopes) db =
    quiet code (λ n. create_authorization-Left code n j cfg c client user scopes) db
apply-Step code j cfg (exchanges c other) db = elim (Bool-cases (other == code)) [
  | inl same ↦
      subst (λ k. Step code j cfg (exchanges c k) db)
        (sym ((string_tested.same_iff other code).0 same)) (step_same code j cfg c db)
  | inr different ↦ rw different (quiet code (λ n. exchange_other code other n j cfg c) db)
]
apply-Step code j cfg (uses_credentials c client secret scopes) db =
    quiet code (λ n. client_credentials-Spares (AtMost code n) j cfg c client secret scopes) db
apply-Step code j cfg (refreshes c refresh) db =
    quiet code (λ n. refresh_token-Spares (AtMost code n) j cfg c refresh) db
apply-Step code j cfg (revokes c access) db =
    quiet code (λ n. revoke_token-Spares (AtMost code n) j cfg c access) db

redemptions-le-chance :
    (code : String) (j : Json) (cfg : Config) (ops : List Op) (db : Database)
    → redemptions j cfg code ops db ≤ chance code db.authorizations
unfolding redemptions Step
redemptions-le-chance code j cfg [] db = omega arith
redemptions-le-chance code j cfg (op ∷ ops) db =
    omega
      (arith, apply-Step code j cfg op db, redemptions-le-chance code j cfg ops (apply j cfg op db))

-- On a database that holds no authorization yet, a code is redeemed at most once: among any calls, each
-- made while no other is, at most one exchange of it gives a token, whatever fails half way.
pub redemptions-le :
    (j : Json) (cfg : Config) (code : String) (ops : List Op) (db : Database)
    → db.authorizations ≡ []
    → redemptions j cfg code ops db ≤ 1
unfolding chance has_code any_of
redemptions-le j cfg code ops db e =
    le_trans (redemptions-le-chance code j cfg ops db) (rw e (omega arith))
