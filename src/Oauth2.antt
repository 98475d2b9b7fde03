-- ===== src/Oauth2.antt =====
-- internal/service/oauth2_service.go: the clients, codes and tokens of OAuth2, as rows of a database.
-- An operation is a function of the database that answers with the new one and a result. What a call
-- meets (the clock, the random texts that it draws, whether the database answers) is an argument, and
-- so is the encoding of lists in JSON. Times are in nanoseconds.
pub mod Store
pub mod Clients
pub mod Grants
mod Triples
pub mod Scopes
mod GrantsKeep
mod ClientsKeep
pub mod Runs
pub mod Granted
mod Chances
mod Spares
pub mod Codes
pub mod Exchange
mod Tests
