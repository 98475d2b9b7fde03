-- ===== src/Oauth2/ClientsKeep.antt =====
-- internal/service/oauth2_service.go: the operations on clients keep the scopes to those registered.
use deploypilot.Base.{◌≡◌, refl, Bool, List, Option, none, some, String, string_tested, any_of}
use deploypilot.Oauth2.Store.{
  Client, Database, Config, Json, ReadsBack, Call, insert_client, is_accepted,
}
use deploypilot.Oauth2.Clients.{
  ClientUpdate, create_client, update_client, delete_client, regenerate_secret, update_columns,
  or_old, change_clients, set_secret,
}
use deploypilot.Oauth2.Grants.{revoke_token}
use deploypilot.Oauth2.Triples.{
  using_rule, if-Outcome, check_quota-Triple, bind_rule, given_rule, select-Triple, update_rows-All,
  keep_if-All,
}
use deploypilot.Oauth2.Runs.{creates_client, updates_client}
use deploypilot.Oauth2.Scopes.{MayHave, IsGranted, Registers, Keeps, marshalled}

module _ (R : String → String → Type 0) (j : Json) (cfg : Config) (reads_back : ReadsBack j) where
  pub insert_client-Keeps :
      (c : Call) (row : Client)
      → MayHave R j row.client_id row.scopes
      → Keeps R j (insert_client c row)
  unfolding insert_client
  insert_client-Keeps c row h = record {
    holds = λ db g.
        if-Outcome (λ _. (IsGranted R j)) (IsGranted R j) (is_accepted c _ db.clients) _ _
          (λ _. record {
            clients = (h, g.clients);
            authorizations = g.authorizations;
            tokens = g.tokens;
          })
          (λ _. g);
  }

  pub create_client-Keeps :
      (c : Call) (user name : String) (uris scopes grants : List String)
      → Registers R j (creates_client c user name uris scopes grants)
      → Keeps R j (create_client j cfg c user name uris scopes grants)
  unfolding create_client
  create_client-Keeps c user name uris scopes grants h =
      bind_rule (check_quota-Triple (IsGranted R j) cfg c user) λ _.
        given_rule _ _ _ (λ db g. g)
          λ client e.
            given_rule _ _ _ (λ db g. g)
              λ secret _.
                given_rule _ _ _ (λ db g. g)
                  λ id _.
                    bind_rule (insert_client-Keeps c _ (marshalled R j reads_back _ _ (h client e)))
                      λ row. record { holds = λ db g. g }

  pub change_clients-Keeps :
      (c : Call) (p : Client → Bool) (change : Database → Database)
      → ((db : Database) → IsGranted R j db → IsGranted R j (change db))
      → Keeps R j (change_clients c p change)
  unfolding change_clients
  change_clients-Keeps c p change k = record {
    holds = λ db g.
        if-Outcome (λ _. (IsGranted R j)) (IsGranted R j) c.updates _ _
          (λ _.
            if-Outcome (λ _. (IsGranted R j)) (IsGranted R j) (any_of p db.clients) _ _
              (λ _. k db g) (λ _. g))
          (λ _. g);
  }

  pub updated :
      (client : String) (new : Option String) (old : String)
      → ((text : String) → new ≡ some text → MayHave R j client text)
      → MayHave R j client old
      → MayHave R j client (or_old new old)
  updated client none old h k = k
  updated client (some text) old h k = h text refl

  pub update_client-Keeps :
      (c : Call) (id user : String) (u : ClientUpdate)
      → Registers R j (updates_client c id user u)
      → Keeps R j (update_client c id user u)
  unfolding update_client update_columns
  update_client-Keeps c id user u h = change_clients-Keeps c _ _ λ db g. record {
    clients =
        update_rows-All _ _ _ db.clients
          (λ r k. updated r.client_id u.scopes r.scopes (λ text e. h text e r.client_id) k)
          g.clients;
    authorizations = g.authorizations;
    tokens = g.tokens;
  }

  pub delete_client-Keeps : (c : Call) (id user : String) → Keeps R j (delete_client c id user)
  unfolding delete_client
  delete_client-Keeps c id user = change_clients-Keeps c _ _ λ db g. record {
    clients = keep_if-All _ _ db.clients g.clients;
    authorizations = g.authorizations;
    tokens = g.tokens;
  }

  pub set_secret-Keeps : (c : Call) (id secret : String) → Keeps R j (set_secret c id secret)
  unfolding set_secret
  set_secret-Keeps c id secret = record {
    holds = λ db g.
        if-Outcome (λ _. (IsGranted R j)) (IsGranted R j) c.updates _ _
          (λ _. record {
            clients = update_rows-All _ _ _ db.clients (λ r k. k) g.clients;
            authorizations = g.authorizations;
            tokens = g.tokens;
          })
          (λ _. g);
  }

  pub regenerate_secret-Keeps :
      (c : Call) (id user : String) → Keeps R j (regenerate_secret c id user)
  unfolding regenerate_secret
  regenerate_secret-Keeps c id user = bind_rule (select-Triple (IsGranted R j) c _ _ _) λ r.
      given_rule _ _ _ (λ db g. g.0)
        λ secret _.
          bind_rule {Q = λ _. (IsGranted R j)}
            (using_rule (Unit {0}) (IsGranted R j) (λ db g. (tt, g.0))
              λ _. set_secret-Keeps c _ secret)
            λ _. record { holds = λ db g. g }

  pub revoke_token-Keeps : (c : Call) (access : String) → Keeps R j (revoke_token c access)
  unfolding revoke_token
  revoke_token-Keeps c access = record {
    holds = λ db g.
        if-Outcome (λ _. (IsGranted R j)) (IsGranted R j) c.updates _ _
          (λ _.
            if-Outcome (λ _. (IsGranted R j)) (IsGranted R j) (any_of _ db.tokens) _ _
              (λ _. record {
                clients = g.clients;
                authorizations = g.authorizations;
                tokens = keep_if-All _ _ db.tokens g.tokens;
              })
              (λ _. g))
          (λ _. g);
  }
