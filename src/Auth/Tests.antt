-- ===== src/Auth/Tests.antt =====
-- Concrete runs of the stores of tickets, states and revoked tokens.
use deploypilot.Base.{
  ◌+◌, ◌≤◌, ◌≡◌, refl, not, true, false, List, [], ◌∷◌, length, ltb, str_ne, arith, String, lookup,
  ◌≢◌,
}
use deploypilot.Auth.Index as Logout
use deploypilot.Auth.Refresh.{
  RefreshTokenEntry, new_refresh_store, store, retrieve, revoke_all_for_user, cleanup_refresh,
}
use deploypilot.Auth.Logout.{retrieve-revoke_all_for_user}
use deploypilot.Auth.Ticket.{TicketStore}
use deploypilot.Auth.Blacklist.{new_token_blacklist, revoke, is_revoked}
use deploypilot.Auth.OneUse.{Op, generates, validates, cleans, admissions, admissions-le}
use deploypilot.Auth.Revocation
use deploypilot.Auth.Revocation.{is_revoked-run-revoke, validate_state_once}

abbrev one_ticket : TicketStore
one_ticket = record {
  tickets = ("t1", record { user_id = "u"; role = "dev"; created_at = 0; expires_at = 60 }) ∷ [];
  max_tickets = 10000;
}

abbrev ticket_calls : List Op
ticket_calls =
    generates "t2" "v" "admin" 60 5
    ∷ validates "t1" 10
    ∷ cleans 20
    ∷ validates "t1" 21
    ∷ validates "t2" 30
    ∷ []

admissions-le_example : admissions "t1" one_ticket ticket_calls ≤ 1
admissions-le_example = admissions-le "t1" one_ticket ticket_calls (str_ne "t2" "t1" refl, tt)

is_revoked-run-revoke_example :
    is_revoked
      (Revocation.run
        (revoke new_token_blacklist "j1" 100 10)
        (Revocation.revokes "j2" 5 20 ∷ Revocation.cleans 60 ∷ []))
      "j1"
      90
    ≡ true
is_revoked-run-revoke_example =
    is_revoked-run-revoke new_token_blacklist "j1" 100 10 90
      (Revocation.revokes "j2" 5 20 ∷ Revocation.cleans 60 ∷ []) (omega arith)
      (str_ne "j2" "j1" refl, (omega arith, tt))

abbrev token_of : String → String → RefreshTokenEntry
token_of id user = record {
  token_id = id;
  user_id = user;
  role = "dev";
  device_info = "";
  ip_address = "";
  created_at = 0;
  expires_at = 60;
}

abbrev logins : List Logout.Op
logins = Logout.stores (token_of "t1" "ann") ∷ Logout.stores (token_of "t2" "bob") ∷ []

abbrev later : List Logout.Op
later = Logout.cleans_at 30 ∷ Logout.stores (token_of "t3" "bob") ∷ []

retrieve-revoke_all_for_user_example : (token_of "t3" "bob").user_id ≢ "ann"
unfolding Logout.run Logout.apply store revoke_all_for_user cleanup_refresh new_refresh_store
    retrieve lookup deploypilot.Base.insert deploypilot.Base.erase
retrieve-revoke_all_for_user_example =
    retrieve-revoke_all_for_user logins later "ann" (tt, (str_ne "bob" "ann" refl, tt)) "t3" 40
      (token_of "t3" "bob") refl
