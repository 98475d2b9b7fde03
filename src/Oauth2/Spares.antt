-- ===== src/Oauth2/Spares.antt =====
-- internal/service/oauth2_service.go: the operations that leave the authorizations alone.
use deploypilot.Base.{Bool, List, String, string_tested, any_of}
use deploypilot.Oauth2.Store.{
  Client, Authorization, Token, Database, Config, Json, Call, M, insert_client, insert_token,
  is_accepted,
}
use deploypilot.Oauth2.Clients.{
  ClientUpdate, create_client, update_client, delete_client, regenerate_secret, change_clients,
  set_secret,
}
use deploypilot.Oauth2.Grants.{
  create_token, client_credentials, refresh_token, revoke_token, delete_token,
}
use deploypilot.Oauth2.Triples.{
  Triple, bind_rule, require_rule, given_rule, using_rule, select-Triple, if-Outcome,
  check_quota-Triple,
}

module _ (P : List Authorization → Type 0) (j : Json) (cfg : Config) where
  abbrev pub Of : Database → Type 0
  Of db = P db.authorizations

  abbrev pub Spares : {A : Type 0} → M A → Type 0
  Spares m = Triple Of m (λ _. Of) Of

  insert_token-Spares : (c : Call) (row : Token) → Spares (insert_token c row)
  unfolding insert_token
  insert_token-Spares c row = record {
    holds = λ db h. if-Outcome (λ _. Of) Of (is_accepted c _ db.tokens) _ _ (λ _. h) (λ _. h);
  }

  pub create_token-Spares :
      (c : Call) (client user : String) (scopes : List String)
      → Spares (create_token j cfg c client user scopes)
  unfolding create_token
  create_token-Spares c client user scopes =
      given_rule _ _ _ (λ db h. h)
        λ access _.
          given_rule _ _ _ (λ db h. h)
            λ refresh _. given_rule _ _ _ (λ db h. h) λ id _. insert_token-Spares c _

  delete_token-Spares : (c : Call) (id : String) → Spares (delete_token c id)
  unfolding delete_token
  delete_token-Spares c id = record {
    holds = λ db h. if-Outcome (λ _. Of) Of c.updates _ _ (λ _. h) (λ _. h);
  }

  pub refresh_token-Spares : (c : Call) (refresh : String) → Spares (refresh_token j cfg c refresh)
  unfolding refresh_token
  refresh_token-Spares c refresh = bind_rule (select-Triple Of c _ _ _) λ old.
      using_rule (Unit {0}) Of (λ db h. (tt, h.0))
        λ _. bind_rule (delete_token-Spares c old.id) λ _. create_token-Spares c _ _ _

  pub client_credentials-Spares :
      (c : Call) (client secret : String) (scopes : List String)
      → Spares (client_credentials j cfg c client secret scopes)
  unfolding client_credentials
  client_credentials-Spares c client secret scopes = bind_rule (select-Triple Of c _ _ _) λ r.
      using_rule (Unit {0}) Of (λ db h. (tt, h.0))
        λ _.
          require_rule _ _ _ (λ db h. h)
            λ _. require_rule _ _ _ (λ db h. h) λ _. create_token-Spares c _ _ _

  pub revoke_token-Spares : (c : Call) (access : String) → Spares (revoke_token c access)
  unfolding revoke_token
  revoke_token-Spares c access = record {
    holds = λ db h.
        if-Outcome (λ _. Of) Of c.updates _ _
          (λ _. if-Outcome (λ _. Of) Of (any_of _ db.tokens) _ _ (λ _. h) (λ _. h)) (λ _. h);
  }

  insert_client-Spares : (c : Call) (row : Client) → Spares (insert_client c row)
  unfolding insert_client
  insert_client-Spares c row = record {
    holds = λ db h. if-Outcome (λ _. Of) Of (is_accepted c _ db.clients) _ _ (λ _. h) (λ _. h);
  }

  pub create_client-Spares :
      (c : Call) (user name : String) (uris scopes grants : List String)
      → Spares (create_client j cfg c user name uris scopes grants)
  unfolding create_client
  create_client-Spares c user name uris scopes grants =
      bind_rule (check_quota-Triple Of cfg c user) λ _.
        given_rule _ _ _ (λ db h. h)
          λ client _.
            given_rule _ _ _ (λ db h. h)
              λ secret _.
                given_rule _ _ _ (λ db h. h)
                  λ id _. bind_rule (insert_client-Spares c _) λ row. record { holds = λ db h. h }

  change_clients-Spares :
      (c : Call) (p : Client → Bool) (change : Database → Database)
      → ((db : Database) → Of db → Of (change db))
      → Spares (change_clients c p change)
  unfolding change_clients
  change_clients-Spares c p change k = record {
    holds = λ db h.
        if-Outcome (λ _. Of) Of c.updates _ _
          (λ _. if-Outcome (λ _. Of) Of (any_of p db.clients) _ _ (λ _. k db h) (λ _. h)) (λ _. h);
  }

  pub update_client-Spares :
      (c : Call) (id user : String) (u : ClientUpdate) → Spares (update_client c id user u)
  unfolding update_client
  update_client-Spares c id user u = change_clients-Spares c _ _ (λ db h. h)

  pub delete_client-Spares : (c : Call) (id user : String) → Spares (delete_client c id user)
  unfolding delete_client
  delete_client-Spares c id user = change_clients-Spares c _ _ (λ db h. h)

  set_secret-Spares : (c : Call) (id secret : String) → Spares (set_secret c id secret)
  unfolding set_secret
  set_secret-Spares c id secret = record {
    holds = λ db h. if-Outcome (λ _. Of) Of c.updates _ _ (λ _. h) (λ _. h);
  }

  pub regenerate_secret-Spares :
      (c : Call) (id user : String) → Spares (regenerate_secret c id user)
  unfolding regenerate_secret
  regenerate_secret-Spares c id user = bind_rule (select-Triple Of c _ _ _) λ r.
      using_rule (Unit {0}) Of (λ db h. (tt, h.0))
        λ _.
          given_rule _ _ _ (λ db h. h)
            λ secret _. bind_rule (set_secret-Spares c _ secret) λ _. record { holds = λ db h. h }
