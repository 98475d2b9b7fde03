-- ===== src/Lib.antt =====
-- DeployPilot deploys containers to servers over the docker command line, watches them, and guards its
-- own API. This library models the parts that decide what is run and who is let in, and proves what
-- they promise.
--
-- How the parts interact: the API and the MCP tools ask for a deployment, which internal/engine/deployer
-- turns into shell commands, with texts quoted by internal/util/shell.go. The bridge
-- (internal/service/deploy_service.go) runs a preflight before, records what came of it, and rolls back
-- to an image that it recorded; a batch of deployments runs
-- them by a strategy (internal/service/batch_deploy.go); the healer (internal/engine/healer) inspects
-- containers by the deployer and restarts them. A request passes the rate limiter
-- (internal/middleware/ratelimit.go) and the brute-force protection (internal/bruteforce), calls of
-- outside services pass a circuit breaker (internal/util/circuitbreaker), and a dangerous operation
-- waits in the confirmation store (internal/confirm). Logins and web sockets use the stores of
-- internal/auth, passwords keep the policy of internal/middleware/password.go, providers come from
-- plugins (internal/plugin), other programs log in by OAuth2
-- (internal/service/oauth2_service.go), the license (internal/license), the trial and the feature flags
-- of an instance say what it may do and whether it is read-only, old backups are removed by their
-- number and age (internal/backup), and what was done is kept in the hash chain of internal/audit.
--
-- Base: Boolean tests, lists, dictionaries (Go's maps) and texts (lists of code points), shared by all.
-- Strings: what the program uses of Go's packages strings, strconv and unicode.
-- Shell: internal/util/shell.go. `shell_quote` is ShellQuote. Shell/Lexer is no code of the program but
--   the POSIX shell's splitting of a command into words, against which the quoting is read.
-- Deployer: internal/engine/deployer/deployer.go and health.go. An operation is a function of the list
--   of commands that were run, newest first; a host is any function from that list and a command to an
--   answer. Command builds the commands, Inspect reads answers, Deploy and Health are the operations;
--   Argv, Trace, Rounds and Rollback hold the proofs.
-- Healer: internal/engine/healer/healer.go, over Deployer.Inspect.
-- Batch: internal/service/batch_deploy.go. The rolling loop has the number of applications as fuel,
--   which is enough since each round takes at least one. The loops of the health checks recurse on the
--   number of rounds that the code makes. Parallel is the concurrent strategy as a step relation.
-- DeployService: internal/service/deploy_service.go and preflight.go, over Deployer. Preflight, Full,
--   Records, Run and Rollback hold the code, the other modules the proofs.
--   The journal is what the bridge writes into its database, its event bus and its counters; the log of
--   each machine is kept apart.
-- Password: internal/middleware/password.go.
-- Plugin: internal/plugin/registry.go and lifecycle.go.
-- MemoryCache: internal/service/memory_cache.go.
-- Retention: internal/backup/retention.go.
-- Oauth2: internal/service/oauth2_service.go. Store holds the tables and the monad of an operation,
--   Clients and Grants the service, Runs its calls in sequence; Triples has Hoare rules for the proofs.
-- License: internal/license/license.go. Load has the keys and the loading, Allows what is allowed.
-- Trial: internal/service/trial_service.go.
-- Features: internal/service/feature_flag_service.go. Flags has the evaluation, Changes the updates.
-- Degradation: internal/service/degradation_service.go and internal/middleware/degradation.go, over
--   License, Trial and Features.
-- CircuitBreaker: internal/util/circuitbreaker/circuitbreaker.go. A step is one critical section.
-- BruteForce: internal/bruteforce/protector.go. A delay is an int64 as the shift computes it.
-- RateLimit: internal/middleware/ratelimit.go, times in nanoseconds.
-- Confirm: internal/confirm/store.go.
-- Auth: internal/auth/ticket.go, state.go, blacklist.go and refresh_token.go, the stores in memory.
-- Permissions: internal/mcp/permissions.go, the table of tools and roles in full.
-- Audit: internal/audit/chain.go. The HMAC is a parameter, and so is the text of a time.
--
-- Times are natural numbers, and each reading of the clock is an argument. A mutex makes each method
-- one step. Where the code gives the mutex up in between, the circuit breaker and the concurrent batch
-- have a step for each part; a pass of the healer, a listing of the flags and a reload of a plugin are
-- one step each, so that what is said of them is said of calls that do not overlap.
--
-- Not modelled: the HTTP handlers, the database, the providers and the web front end, which are calls
-- of libraries and services; the texts of errors, of which only the kind is kept; the goroutines that
-- call a cleanup at each tick, whose calls may come at any point of a run. In the whole of a batch the
-- concurrent strategy is a parameter; by itself it is modelled with results that may be any.
pub mod Base
pub mod Shell
pub mod Strings
pub mod Deployer
pub mod Healer
pub mod Batch
pub mod CircuitBreaker
pub mod BruteForce
pub mod RateLimit
pub mod Confirm
pub mod Auth
pub mod Audit
pub mod Permissions
pub mod DeployService
pub mod Password
pub mod Plugin
pub mod Retention
pub mod MemoryCache
pub mod Oauth2
pub mod License
pub mod Trial
pub mod Features
pub mod Degradation
