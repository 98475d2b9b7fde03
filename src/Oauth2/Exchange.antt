-- ===== src/Oauth2/Exchange.antt =====
-- internal/service/oauth2_service.go: what an exchange of a code gives.
use deploypilot.Base.{
  ℕ, ◌+◌, ◌*◌, ◌≤◌, ◌≡◌, refl, sym, subst, true, false, not, List, some, String, arith, ◌==◌,
  string_tested, ltb, str_eq_refl,
}
use deploypilot.Oauth2.Store.{
  Authorization, Token, Database, Config, Json, ReadsBack, Call, done, ◌>>=◌, require, given,
  select, find_first, insert_token, is_accepted,
}
use deploypilot.Oauth2.Clients.{parse_scopes}
use deploypilot.Oauth2.Grants.{
  create_token, exchange_code, validate_access_token, mark_used, is_open_code, hour,
}
use deploypilot.Oauth2.Triples.{
  Triple, Outcome, bind_rule, require_rule, given_rule, using_rule, fail_rule, done_rule,
  select-Triple, if-Outcome,
}

-- The token is the newest, and made as it is asked for.
record IsMade (j : Json) (cfg : Config) (c : Call) (client user : String) (asked : List String)
    (t : Token) (db : Database) : Type 0 where
  pub client_id : t.client_id ≡ client
  pub user_id : t.user_id ≡ user
  pub scopes : t.scopes ≡ j.marshal asked
  pub expires_at : t.expires_at ≡ c.now + cfg.token_expire_hours * hour
  pub newest : find_first (λ (r : Token). r.access_token == t.access_token) db.tokens ≡ some t

abbrev Anything : Database → Type 0
Anything db = Unit

create_token-IsMade :
    (j : Json) (cfg : Config) (c : Call) (client user : String) (scopes : List String)
    → Triple Anything
        (create_token j cfg c client user scopes)
        (IsMade j cfg c client user scopes)
        Anything
unfolding create_token insert_token find_first
create_token-IsMade j cfg c client user scopes =
    given_rule _ _ _ (λ db h. h)
      λ access _.
        given_rule _ _ _ (λ db h. h)
          λ refresh _.
            given_rule _ _ _ (λ db h. h)
              λ id _. record {
                holds = λ db h.
                    if-Outcome (IsMade j cfg c client user scopes) Anything
                      (is_accepted c _ db.tokens) _ _
                      (λ _. record {
                        client_id = refl;
                        user_id = refl;
                        scopes = refl;
                        expires_at = refl;
                        newest = rw (str_eq_refl access);
                      })
                      (λ _. tt);
              }

not_after : (now end : ℕ) → now ≤ end → ltb end now ≡ false
not_after now end h = ground arith

validate_newest :
    (c : Call) (t : Token) (db : Database)
    → find_first (λ (r : Token). r.access_token == t.access_token) db.tokens ≡ some t
    → c.reads ≡ true
    → c.now ≤ t.expires_at
    → validate_access_token c t.access_token db ≡ (db, done t)
unfolding validate_access_token select require given ◌>>=◌
validate_newest c t db e r h = rw (r, e, not_after c.now t.expires_at h)

in_time : (now end : ℕ) → not (ltb end now) ≡ true → now ≤ end
in_time now end h = ground arith

marked_any : (c : Call) (id : String) → Triple Anything (mark_used c id) (λ _. Anything) Anything
unfolding mark_used
marked_any c id = record {
  holds = λ db h. if-Outcome (λ _. Anything) Anything c.updates _ _ (λ _. tt) (λ _. tt);
}

-- What an exchange of a code, begun in the database `db`, has made.
abbrev Redeemed : Json → Config → Call → String → Database → Token → Database → Type 0
Redeemed j cfg c code db t db' =
    (a : Authorization) × (find_first (is_open_code code) db.authorizations ≡ some a)
    × (c.now ≤ a.expires_at)
    × IsMade j cfg c a.client_id a.user_id (parse_scopes j a.scopes) t db'

exchange-Redeemed :
    (j : Json) (cfg : Config) (c : Call) (code : String) (start : Database)
    → Triple (λ db. start ≡ db) (exchange_code j cfg c code) (Redeemed j cfg c code start) Anything
unfolding exchange_code
exchange-Redeemed j cfg c code start =
    bind_rule (fail_rule (λ db. start ≡ db) (λ db h. tt) (select-Triple (λ db. start ≡ db) c _ _ _))
      λ a.
        using_rule (find_first (is_open_code code) start.authorizations ≡ some a) Anything
          (λ db h. (
            subst (λ (d : Database). find_first (is_open_code code) d.authorizations ≡ some a)
                (sym h.0) h.1,
            tt,
          ))
          λ found.
            require_rule _ _ _ (λ db h. tt)
              λ now. bind_rule (marked_any c a.id) λ _.
                done_rule (IsMade j cfg c a.client_id a.user_id (parse_scopes j a.scopes))
                  (λ t db made. (a, found, in_time c.now a.expires_at now, made))
                  (create_token-IsMade j cfg c _ _ _)

-- An exchange of a code that gives a token found an authorization with this code that was not used and
-- had not run out; the token is for the same client, user and scopes, and runs out after the hours that
-- are set; and a check of its access token right after, in a call whose query is answered, accepts it
-- until then, where JSON reads back what it wrote.
pub exchange_code-validates :
    (j : Json) (cfg : Config)
    → ReadsBack j
    → (c later : Call) (code : String) (db db' : Database) (t : Token)
    → exchange_code j cfg c code db ≡ (db', done t)
    → later.reads ≡ true
    → later.now ≤ t.expires_at
    → (a : Authorization) × (find_first (is_open_code code) db.authorizations ≡ some a)
      × (c.now ≤ a.expires_at)
      × (t.client_id ≡ a.client_id)
      × (t.user_id ≡ a.user_id)
      × (parse_scopes j t.scopes ≡ parse_scopes j a.scopes)
      × (t.expires_at ≡ c.now + cfg.token_expire_hours * hour)
      × (validate_access_token later t.access_token db' ≡ (db', done t))
unfolding parse_scopes
exchange_code-validates j cfg back c later code db db' t e r now =
    let (a, found, live, made) =
      subst (Outcome (Redeemed j cfg c code db) Anything) e
        ((exchange-Redeemed j cfg c code db).holds db refl) in
    (
      a,
      found,
      live,
      made.client_id,
      made.user_id,
      rw (made.scopes, back) refl,
      made.expires_at,
      validate_newest later t db' made.newest r now,
    )
