-- ===== src/DeployService.antt =====
-- internal/service/deploy_service.go and preflight.go: the deployment of a container by the bridge.
pub mod Preflight
pub mod Report
pub mod Full
pub mod Agree
pub mod Ports
pub mod Ready
pub mod Records
pub mod Run
pub mod Rollback
pub mod Outcome
pub mod Target
pub mod Restored
pub mod Untouched
pub mod Ends
pub mod Refused
mod Tests
