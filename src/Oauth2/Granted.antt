-- ===== src/Oauth2/Granted.antt =====
-- internal/service/oauth2_service.go: the scopes of a token are ones that its client has registered.
use deploypilot.Base.{◌≡◌, subst, List, [], ◌∷◌, String, All, string_tested}
use deploypilot.Oauth2.Store.{Token, Database, empty_database, Config, Json, ReadsBack, Call, done}
use deploypilot.Oauth2.Clients.{parse_scopes}
use deploypilot.Oauth2.Grants.{validate_access_token}
use deploypilot.Oauth2.Triples.{
  Triple, Outcome, kept_by, bind_rule, require_rule, select-Triple, find_first-All,
}
use deploypilot.Oauth2.Runs.{
  Op, creates_client, updates_client, deletes_client, regenerates, authorizes, exchanges,
  uses_credentials, refreshes, revokes, apply, run,
}
use deploypilot.Oauth2.Scopes.{MayHave, IsGranted, Registers}
use deploypilot.Oauth2.GrantsKeep.{
  create_authorization-Keeps, exchange_code-Keeps, client_credentials-Keeps, refresh_token-Keeps,
}
use deploypilot.Oauth2.ClientsKeep.{
  create_client-Keeps, update_client-Keeps, delete_client-Keeps, regenerate_secret-Keeps,
  revoke_token-Keeps,
}

module _ (R : String → String → Type 0) (j : Json) (cfg : Config) (reads_back : ReadsBack j) where
  apply-IsGranted :
      (op : Op) (db : Database)
      → Registers R j op
      → IsGranted R j db
      → IsGranted R j (apply j cfg op db)
  unfolding apply
  apply-IsGranted (creates_client c user name uris scopes grants) db h =
      kept_by (create_client-Keeps R j cfg reads_back c user name uris scopes grants h) db
  apply-IsGranted (updates_client c id user u) db h =
      kept_by (update_client-Keeps R j cfg reads_back c id user u h) db
  apply-IsGranted (deletes_client c id user) db h =
      kept_by (delete_client-Keeps R j cfg reads_back c id user) db
  apply-IsGranted (regenerates c id user) db h =
      kept_by (regenerate_secret-Keeps R j cfg reads_back c id user) db
  apply-IsGranted (authorizes c client user scopes) db h =
      kept_by (create_authorization-Keeps R j cfg reads_back c client user scopes) db
  apply-IsGranted (exchanges c code) db h =
      kept_by (exchange_code-Keeps R j cfg reads_back c code) db
  apply-IsGranted (uses_credentials c client secret scopes) db h =
      kept_by (client_credentials-Keeps R j cfg reads_back c client secret scopes) db
  apply-IsGranted (refreshes c refresh) db h =
      kept_by (refresh_token-Keeps R j cfg reads_back c refresh) db
  apply-IsGranted (revokes c access) db h =
      kept_by (revoke_token-Keeps R j cfg reads_back c access) db

  run-IsGranted :
      (ops : List Op) (db : Database)
      → All (Registers R j) ops
      → IsGranted R j db
      → IsGranted R j (run j cfg ops db)
  unfolding run
  run-IsGranted [] db h g = g
  run-IsGranted (op ∷ ops) db h g =
      run-IsGranted ops (apply j cfg op db) h.1 (apply-IsGranted op db h.0 g)

  validated :
      (c : Call) (access : String)
      → Triple
          (IsGranted R j)
          (validate_access_token c access)
          (λ t _. MayHave R j t.client_id t.scopes)
          (IsGranted R j)
  unfolding validate_access_token
  validated c access = bind_rule (select-Triple (IsGranted R j) c _ _ _) λ t.
      require_rule _ _ _ (λ db g. g.0)
        λ _. record { holds = λ db g. find_first-All _ _ db.tokens t g.1 g.0.tokens }

-- Whatever clients, codes and tokens are made, changed, used and revoked, on a database that starts
-- empty, and whatever calls fail half way, the scopes of a token that is accepted are ones that its
-- client may have, for any choice of what a client may have that allows all scopes that a creation
-- (its unknown scopes left out) or an update of a client registers, where JSON reads back what it
-- wrote.
pub validate_access_token-MayHave :
    (R : String → String → Type 0) (j : Json) (cfg : Config)
    → ReadsBack j
    → (ops : List Op) → All (Registers R j) ops
    → (c : Call) (access : String) (db : Database) (t : Token)
    → validate_access_token c access (run j cfg ops empty_database) ≡ (db, done t)
    → All (R t.client_id) (parse_scopes j t.scopes)
validate_access_token-MayHave R j cfg back ops h c access db t e =
    subst (Outcome (λ (t : Token) _. All (R t.client_id) (parse_scopes j t.scopes)) (IsGranted R j))
      e
      ((validated R j cfg back c access).holds _ (
        run-IsGranted R j cfg back ops empty_database h
          (record { clients = tt; authorizations = tt; tokens = tt })))
