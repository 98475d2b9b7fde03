-- ===== src/Oauth2/GrantsKeep.antt =====
-- internal/service/oauth2_service.go: the grants hand on only scopes that a client may have.
use deploypilot.Base.{◌≡◌, subst, Bool, ◌&&◌, List, some, String, All, arith, ◌==◌, string_tested}
use deploypilot.Oauth2.Store.{
  Client, Authorization, Token, Database, Config, Json, ReadsBack, Call, find_first,
  insert_authorization, insert_token, is_accepted,
}
use deploypilot.Oauth2.Clients.{parse_scopes}
use deploypilot.Oauth2.Grants.{
  create_token, create_authorization, exchange_code, client_credentials, refresh_token, mark_used,
  delete_token, is_open_code,
}
use deploypilot.Oauth2.Triples.{
  using_rule, if-Outcome, bind_rule, require_rule, given_rule, select-Triple, find_first-holds,
  find_first-All, update_rows-All, keep_if-All,
}
use deploypilot.Oauth2.Scopes.{
  MayHave, IsGranted, Keeps, marshalled, or_defaults-All, requested_scopes-All,
}

module _ (R : String → String → Type 0) (j : Json) (cfg : Config) (reads_back : ReadsBack j) where
  pub insert_token-Keeps :
      (c : Call) (row : Token)
      → MayHave R j row.client_id row.scopes
      → Keeps R j (insert_token c row)
  unfolding insert_token
  insert_token-Keeps c row h = record {
    holds = λ db g.
        if-Outcome (λ _. (IsGranted R j)) (IsGranted R j) (is_accepted c _ db.tokens) _ _
          (λ _. record {
            clients = g.clients;
            authorizations = g.authorizations;
            tokens = (h, g.tokens);
          })
          (λ _. g);
  }

  pub create_token-Keeps :
      (c : Call) (client user : String) (scopes : List String)
      → All (R client) scopes
      → Keeps R j (create_token j cfg c client user scopes)
  unfolding create_token
  create_token-Keeps c client user scopes h =
      given_rule _ _ _ (λ db g. g)
        λ access _.
          given_rule _ _ _ (λ db g. g)
            λ refresh _.
              given_rule _ _ _ (λ db g. g)
                λ id _. insert_token-Keeps c _ (marshalled R j reads_back client scopes h)

  pub mark_used-Keeps : (c : Call) (id : String) → Keeps R j (mark_used c id)
  unfolding mark_used
  mark_used-Keeps c id = record {
    holds = λ db g.
        if-Outcome (λ _. (IsGranted R j)) (IsGranted R j) c.updates _ _
          (λ _. record {
            clients = g.clients;
            authorizations = update_rows-All _ _ _ db.authorizations (λ a h. h) g.authorizations;
            tokens = g.tokens;
          })
          (λ _. g);
  }

  pub exchange_code-Keeps : (c : Call) (code : String) → Keeps R j (exchange_code j cfg c code)
  unfolding exchange_code
  exchange_code-Keeps c code = bind_rule (select-Triple (IsGranted R j) c _ _ _) λ authz.
      require_rule _ _ _ (λ db g. g.0)
        λ _.
          using_rule (All (R authz.client_id) (parse_scopes j authz.scopes)) (IsGranted R j)
            (λ db g. (
              find_first-All _ (is_open_code code) db.authorizations authz g.1 g.0.authorizations,
              g.0,
            ))
            λ may. bind_rule (mark_used-Keeps c authz.id) λ _. create_token-Keeps c _ _ _ may

  pub delete_token-Keeps : (c : Call) (id : String) → Keeps R j (delete_token c id)
  unfolding delete_token
  delete_token-Keeps c id = record {
    holds = λ db g.
        if-Outcome (λ _. (IsGranted R j)) (IsGranted R j) c.updates _ _
          (λ _. record {
            clients = g.clients;
            authorizations = g.authorizations;
            tokens = keep_if-All _ _ db.tokens g.tokens;
          })
          (λ _. g);
  }

  pub refresh_token-Keeps :
      (c : Call) (refresh : String) → Keeps R j (refresh_token j cfg c refresh)
  unfolding refresh_token
  refresh_token-Keeps c refresh = bind_rule (select-Triple (IsGranted R j) c _ _ _) λ old.
      using_rule (All (R old.client_id) (parse_scopes j old.scopes)) (IsGranted R j)
        (λ db g.
          (find_first-All _ (λ t. t.refresh_token == refresh) db.tokens old g.1 g.0.tokens, g.0))
        λ may. bind_rule (delete_token-Keeps c old.id) λ _. create_token-Keeps c _ _ _ may

  abbrev client_found : String → Client → Bool
  client_found client r = r.client_id == client && r.enabled

  pub found_registered :
      (client : String) (r : Client) (db : Database)
      → IsGranted R j db × (find_first (client_found client) db.clients ≡ some r)
      → All (R client) (parse_scopes j r.scopes) × (IsGranted R j) db
  found_registered client r db (g, e) = (
    subst (λ c. All (R c) (parse_scopes j r.scopes))
        ((string_tested.same_iff r.client_id client).0
          (ground (arith, find_first-holds (client_found client) db.clients r e)))
        (find_first-All _ (client_found client) db.clients r e g.clients),
    g,
  )

  pub client_credentials-Keeps :
      (c : Call) (client secret : String) (scopes : List String)
      → Keeps R j (client_credentials j cfg c client secret scopes)
  unfolding client_credentials
  client_credentials-Keeps c client secret scopes =
      bind_rule (select-Triple (IsGranted R j) c _ _ _) λ r.
        using_rule (All (R client) (parse_scopes j r.scopes)) (IsGranted R j)
          (found_registered client r)
          λ may.
            require_rule _ _ _ (λ db g. g)
              λ _.
                require_rule _ _ _ (λ db g. g)
                  λ _. create_token-Keeps c client r.user_id _ (
                    or_defaults-All (R client) _ _
                      (requested_scopes-All (R client) scopes (parse_scopes j r.scopes) may) may)

  pub insert_authorization-Keeps :
      (c : Call) (row : Authorization)
      → MayHave R j row.client_id row.scopes
      → Keeps R j (insert_authorization c row)
  unfolding insert_authorization
  insert_authorization-Keeps c row h = record {
    holds = λ db g.
        if-Outcome (λ _. (IsGranted R j)) (IsGranted R j) (is_accepted c _ db.authorizations) _ _
          (λ _. record {
            clients = g.clients;
            authorizations = (h, g.authorizations);
            tokens = g.tokens;
          })
          (λ _. g);
  }

  pub create_authorization-Keeps :
      (c : Call) (client user : String) (scopes : List String)
      → Keeps R j (create_authorization j cfg c client user scopes)
  unfolding create_authorization
  create_authorization-Keeps c client user scopes =
      bind_rule (select-Triple (IsGranted R j) c _ _ _) λ r.
        using_rule (All (R client) (parse_scopes j r.scopes)) (IsGranted R j)
          (found_registered client r)
          λ may.
            require_rule _ _ _ (λ db g. g)
              λ _.
                given_rule _ _ _ (λ db g. g)
                  λ code _.
                    given_rule _ _ _ (λ db g. g)
                      λ id _. insert_authorization-Keeps c _ (
                        marshalled R j reads_back client _
                          (requested_scopes-All (R client) scopes (parse_scopes j r.scopes) may))
