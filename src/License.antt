-- ===== src/License.antt =====
-- internal/license/license.go: the engine that verifies a license and answers what it allows. Keys,
-- signatures and payloads are lists of bytes; Ed25519, base64 and JSON are parameters. Times are in
-- nanoseconds, and each reading of the clock is an argument. The numbers of a license are natural ones,
-- where one that is not positive counts as 0. The callbacks are left out.
pub mod Data
pub mod Load
pub mod Allows
pub mod Trusted
pub mod Issued
mod Tests
