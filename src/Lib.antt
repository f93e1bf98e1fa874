-- ===== src/Lib.antt =====
-- GasGuard: users and roles, API keys, protocol fees, the limits on requests and transactions, the
-- RPC providers, the alerts on gas prices, the gas subsidy, the exports and reports of gas usage,
-- the cache and the analyzer registry of its two NestJS applications, apps/api and
-- apps/api-service, and of its modules and libraries.
--
-- Parts, and the code they follow:
--   Prelude, Prelude/*  the names of the library that all parts use, numbers, lists and dictionaries
--   Exec, Http          an async method as a function of a state that returns or throws; the exceptions
--                       of NestJS that are thrown
--   Storage/*           TypeORM's Repository as a record of operations and laws (Ordered: queries with
--                       an order and a limit), its consequences for queries, and a table in memory that
--                       has the laws
--   Calendar            days, weeks and the end of a day; the months of the calendar as a parameter
--   Users/Role          hasRoleAccess: apps/api-service/src/rbac/enums/role.enum.ts
--   Users/User          User: apps/api-service/src/database/entities/user.entity.ts
--   Users/Guard         RolesGuard: apps/api-service/src/rbac/guards/roles.guard.ts
--   Users/Service       RbacService: apps/api-service/src/rbac/services/rbac.service.ts
--   Users/Auth          AuthService and JwtStrategy: apps/api-service/src/auth
--   Users/Stats         the counts and lists of RbacService
--   Users/Calls         a history of calls of RbacService; Users/Effect what a call does to the table
--   Users/Emails, Login, Lockout, Unlock   the theorems on users, logins and locks
--   RateLimit/Plans, Config   apps/api/src/rate-limiting/schemas and config
--   RateLimit/Redis     the commands of Redis that are used, with laws; RateLimit/Local is one
--   RateLimit/Service   RateLimitService: apps/api/src/rate-limiting/services/rate-limit.service.ts
--   RateLimit/Guard     RateLimitGuard: apps/api/src/rate-limiting/guards/rate-limit.guard.ts
--   RateLimit/Counters, Admission, Bound, Admin, Refusal   the theorems on quotas
--   ApiKeys/Key         the entity and the repository of apps/api-service/src/audit
--   ApiKeys/Service     ApiKeyService: apps/api-service/src/audit/services/api-key.service.ts
--   ApiKeys/Guard       apps/api-service/src/auth/guards/api-key-auth.guard.ts
--   ApiKeys/Calls       the calls that write; Updates and Outcomes what they write
--   ApiKeys/Lifecycle, Validation   the theorems on keys
--   Transactions/Limiter   RateLimitService: apps/api-service/src/transection/rate-limit.service.ts
--   Transactions/Suspicious   SuspiciousActivityService: suspicious-activity.service.ts beside it
--   Transactions/Window, Bound, Retry, Burst   the theorems on transactions
--   Rpc/Manager         RpcProviderManager: apps/api/src/services/rpc-provider-manager.ts
--   Rpc/Failover, Health   the theorems on the providers of a chain
--   Numbers             JavaScript's numbers that need not be whole, as a parameter without laws
--   Fees/Config         apps/api-service/src/gas-estimation/interfaces/fee-config.interface.ts
--   Fees/Rules, Store, Updates, Approvals   FeeConfigurationService:
--                       apps/api-service/src/gas-estimation/services/fee-configuration.service.ts
--   Fees/Queries        the queries that sort the service's own logs
--   Fees/Steps, Signing, Runs   the store that each request leaves, and runs of requests
--   Fees/Audit, Quorum, Waiting, Timelock, Approval, Prices, Priced   the theorems on fees
--   Spikes/Config, Classifier, Engine, Webhooks, Monitor   src/modules/gas-spike-alert
--   Spikes/Severities, Delivery, History, Alerts   the theorems on spikes of gas prices
--   Cache/Config, Memory, Metrics, Service   apps/api-service/src/gas/caching
--   Cache/Calls, Freshness   how old a cached answer can be
--   Analysis/Analyzer, Results, Registry   libs/engine/core
--   Analysis/Removal, Index, Runs   the lists of the registry by language
--   Exports/Record, Slices, Csv, Chain, Collect, Network, Service   ExportsService:
--                       apps/api/src/exports
--   Exports/Reader, Cells, Table, RoundTrip   a reader of CSV, and what it reads of an export
--   Exports/HashSet, Hashes, Order, Streams   the theorems on exports
--   Subsidy/Entity      apps/api-service/src/gas-subsidy/entities
--   Subsidy/Store, Check, Usage, Summary   GasSubsidyService:
--                       apps/api-service/src/gas-subsidy/services/gas-subsidy.service.ts
--   Subsidy/Calls       a history of calls of GasSubsidyService
--   Subsidy/Checked, Tables, Periods, Accepted, Active, Counts   the theorems on the subsidy
--   Reports/Dates, Scheduling   SchedulingService: apps/api-service/src/reports/services/scheduling.service.ts
--   Reports/Aggregation DataAggregationService: data-aggregation.service.ts beside it
--   Reports/Report      the table of reports, the merchants and the mails
--   Reports/Adhoc       ReportService: report.service.ts beside it
--   Reports/Breakdown, Settled, Sweeps, Pending, OnDemand   the theorems on reports
--   */Examples          runs on small inputs, and the theorems at these inputs
--
-- How they interact: a request passes a guard, which asks a service, which reads and writes a
-- table or Redis. A guard takes the service's operations directly; a service takes its table
-- (`UserRepository`, `ApiKeyTable`) or its `Redis` as a parameter of its section. A fee changes by
-- a direct update, by a scheduled one when the sweep finds it due, or by the last approval of a
-- request: all three end in `apply_fee_update`. The monitor of gas prices asks the classifier and
-- the threshold engine, and hands its alert to the webhooks. The cache counts each answer in its
-- metrics. An export asks a node of the chain for logs and for transactions, both parameters, and
-- streams what it collected as text. A usage of the subsidy is checked against the caps, recorded
-- in the log and may flag the wallet; where an alert is due, the call throws. A schedule of
-- reports, or a request for one, saves a report, has its file made and mailed, and writes how it
-- ended.
--
-- Conventions. A service's method is a function of its arguments, of the time and of the state,
-- and gives its result or exception with the new state; what was written before a throw stays.
-- Times are milliseconds as natural numbers, a day has 24 hours (the clock is UTC), and a call
-- reads the clock and the state of the connection once. Counts are natural numbers: no counter
-- reaches 2^53. Prices, percentages and averages are numbers of `Arithmetic`, of which nothing is
-- assumed. `Property` tells a column set to null from one left undefined, which TypeORM's `save`
-- and `update` skip. The ids of new rows, random parts of keys, SHA-256, bcrypt and the signature
-- of a token are arguments. A Redis counter key is a record of the parts of its text, and a stored
-- quota is the quota itself, not its JSON text. A pipeline of Redis is executed whole or, where it
-- fails, not at all. Of messages only the constant part is kept. The cache keeps texts;
-- `JSON.stringify` and `JSON.parse` are parameters. Where a row is saved or updated, the database
-- does not fail. A decimal column gives back what `column` says, and two of its texts are compared
-- by `text_le`. No definition takes fuel that could run out: each recursion is on a list, a text,
-- or the number of turns that a loop has left, which for the check of a cap, the slices of a list
-- and the chunks of blocks is shown to be enough, or is the length of the list.
--
-- Not modelled: routing, dependency injection, decorators of validation, logging, pages of users
-- and of keys, the getters and the analytics of fees, the text of report files and of mails, the
-- detection of abnormal usage in reports, the fallback sweep of reports, which calls a method that
-- its table lacks, the flags' listing of the gas subsidy, and the other subsystems of the
-- repository (tiered and dynamic pricing, analytics, the reliability of chains, the scanner and
-- its analyzers, the Rust crates).
mod Prelude
pub mod Numbers
pub mod Exports
pub mod Fees
pub mod Exec
pub mod Http
pub mod Storage
pub mod Subsidy
pub mod Users
pub mod RateLimit
pub mod ApiKeys
pub mod Transactions
pub mod Reports
pub mod Rpc
pub mod Spikes
pub mod Cache
pub mod Calendar
pub mod Analysis
