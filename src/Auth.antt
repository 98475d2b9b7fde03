-- ===== src/Auth.antt =====
-- internal/auth: the in-memory stores of tickets, states and revoked tokens. Times are numbers of one
-- unit, and each reading of the clock is an argument.
pub mod Ticket
pub mod OauthState
pub mod Blacklist
pub mod Refresh
pub mod Index
pub mod Logout
mod OneUse
mod Revocation
mod Tests
