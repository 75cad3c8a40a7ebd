-- ===== src/Lib.antt =====
-- cronlite: the scheduler of jobs and the delivery of their webhooks.
--
-- The scheduler (internal/scheduler) finds the due times of the enabled jobs at each tick, stores an
-- execution for each and tells a worker of it through the event bus (internal/transport/channel). A
-- dispatcher (internal/dispatcher) claims the execution in PostgreSQL (internal/store/postgres),
-- which gives it a lease and a generation, renews the lease while it sends the webhook up to four
-- times, and completes the execution. A circuit breaker per URL (internal/circuitbreaker) can defer a delivery,
-- and the guard of destinations (internal/webhookurl) decides at connect time which addresses it
-- may reach. The reconciler (internal/reconciler) requeues executions whose lease is over and tells
-- of executions that nobody took. The REST API limits its clients with token buckets
-- (internal/api/middleware.go) and caches their keys (internal/api/key_cache.go). The service
-- (internal/service) changes the jobs of a namespace and its keys, the admin pages
-- (internal/webadmin) sign in to sessions, the migrations (internal/migrate) bring the schema up to
-- date under a lock, and a leader election (internal/leaderelection) picks the instance that schedules.
--
-- Which file models what:
--   Base: numbers, lists and maps that the others share.
--   Domain: the records of internal/domain.
--   Store: the executions table of queries.go, and InsertExecution, ClaimExecution,
--     DequeueExecution(s), RenewExecutionClaim, CompleteExecution, RequeueExpiredExecutions,
--     UpdateExecutionStatus, AckExecution and GetOrphanedExecutions of store.go. A statement is one
--     step on the list of the rows; Store/Steps runs any sequence of them, and Store/Deletion any
--     sequence of them and of the deletions of jobs, which take their executions.
--   Lease: executionLease of internal/dispatcher/ownership.go, with the store, as events of one
--     worker and of all the others.
--   Breaker: CircuitBreaker of internal/circuitbreaker/breaker.go, with the cleanups that callers
--     hold; Breaker/System runs any sequence of calls.
--   Dispatcher: Dispatch and dispatchOwned of internal/dispatcher/dispatcher.go, as the list of their
--     effects given the answers of the world; Dispatcher/Classify has the metrics classes.
--   Scheduler: processTick, processJobWithProgress, windowStart and emitExecution of
--     internal/scheduler/scheduler.go, and the query of the enabled jobs.
--   Reconciler: runCycle of internal/reconciler/reconciler.go, over the Store.
--   RateLimit: ipRateLimiter and namespaceRateLimiter of internal/api/middleware.go.
--   EventBus: Emit and Channel of internal/transport/channel/bus.go, as a relation of steps.
--   KeyCache: apiKeyCache of internal/api/key_cache.go, as the steps of the lookups.
--   Jobs: the tables of jobs, schedules and tags of store.go, with SetJobEnabled of control.go;
--     Jobs/Service, Trigger, NextRuns and Listing are the operations of internal/service/jobs.go over
--     them, Jobs/Phrases its schedules in words, Jobs/Tenancy all that change jobs as requests.
--   Keys: the tables of API keys and admin sessions of store.go; Keys/Service is apikeys.go of
--     internal/service, Keys/Sessions and Keys/SignIn the session manager, the sign-in, the setup and the
--     sign-out of internal/webadmin, Keys/Steps any sequence of them.
--   Config: Validate of internal/config/validate.go.
--   Leader: runOnce and holdLock of internal/leaderelection/leader.go, as one elector's moves, and any
--     electors with the sessions and the advisory lock of the server.
--   Migrate: the runner of the migrations, internal/migrate; Migrate/Load reads the files, Migrate/Lock
--     waits for the lock, Migrate/Commands is the whole of Run, with NeedsBaseline and StatusOf.
--   WebhookUrl: checkAddr, Allowlist.Matches and guardedDial of internal/webhookurl/guard.go; Hostnames,
--     Policy and Access are the allowlist's parser and tailnet_policy.go, Tailnet the routed dialer of
--     tailnet.go, Validation validation.go.
--
-- State is a record that each operation takes and returns. A map is an association list over keys
-- with Go's equality. A time is a number of nanoseconds, and in Store, Lease and Keys of microseconds of
-- the database; uint64 epochs of the breaker wrap around. What the code asks of the world (clocks,
-- the network, PostgreSQL failures, the cron library's Next, netip's parser) is a record of answers
-- that the definitions take; what the theorems need of the cron library is `IsCron`.
--
-- Fuel: a tick reads pages until one is short. The fuel of process_tick is the number of pages that
-- it may read, and one more than there are rows is enough. The fuel of acquire_lock is a number of
-- polls, and a poll per interval of the timeout and two more are enough. Every other loop is bounded
-- by the code itself (attempts, MaxFiresPerTick) or runs over a list.
--
-- Not modelled: logging, metrics sinks, the goroutines and tickers that call the modelled steps, the
-- HTTP request itself, float64 rounding in the token buckets, and failures inside a SQL statement,
-- which leave its table as it was. The REST, MCP and job pages' handlers, the reading of the
-- configuration, the saved views, the fleet and bulk operations, the text that describes a cron
-- expression, the tailnet node, and the programs and tools are outside this library.
pub mod Base
pub mod Domain
pub mod Store
pub mod Lease
pub mod Breaker
pub mod Dispatcher
pub mod EventBus
pub mod Scheduler
pub mod Reconciler
pub mod RateLimit
pub mod KeyCache
pub mod WebhookUrl
pub mod Migrate
pub mod Jobs
pub mod Leader
pub mod Keys
pub mod Config
