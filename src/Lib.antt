-- ===== src/Lib.antt =====
-- transact-go: wallets with a ledger, transfers between users, deposits and withdrawals through
-- payment providers. The server is a NestJS application over a SQL database, a cache and Bull queues.
--
-- Parts, and the files that model them:
--   * Wallets (src/modules/wallets/wallets.service.ts and entities/): Wallets/Entities and
--     Wallets/Service. `Bank` is the state, the tables `wallets` and `ledger_entries`; the methods
--     createWallet, getWallet, debit, credit and reconcileBalance are create_wallet, get_wallet,
--     debit, credit and reconcile_balance; getUserWallets and getLedger are in Wallets/Queries.
--   * Fees (src/modules/fees/fees.service.ts): Fees/Service has calculate with its helpers, and
--     Fees/Rules getActiveRule, invalidateFeeCache and seedDefaultRules, over the table of rules and
--     a cache that is a parameter (Cache).
--   * Users (src/modules/users): Users/Entities, and Users/Service with getProfile.
--   * Authentication (src/modules/auth): Auth/Service has
--     register, login, refreshTokens and logout over `AuthDb`, the table of users and the clock, and
--     Auth/Guards the check of an access token and the guards of src/common/guards. bcrypt and the
--     signing of tokens come behind the records of Auth/Interfaces. Auth/Lockout is about wrong
--     passwords, Auth/Unlock about the end of a lock, Auth/Sessions about refresh tokens,
--     Auth/Registration about new accounts. Auth/Bodies has the decorators of dto/auth.dto.ts and
--     Auth/Routes the routes of auth.controller.ts; Auth/Accepted is about the bodies that pass,
--     Auth/Registry and Auth/Accounts about the table of users under these routes, Auth/SignUp about a
--     new account from its body to a login.
--   * Transfers (src/modules/transfers/transfers.service.ts): Transfers/Service has internalTransfer
--     and assertWithinDailyLimit, and Transfers/Queries getTransferHistory and getTransferById. The
--     state `Db` (Transfers/Store) is the bank, the tables `transfers` and `users`, and what is
--     handed to queues and logs. The fees come through the interface `FeeSchedule`, which
--     Transfers/Schedule fills with the fees component.
--   * Payments (src/modules/payments/payments.service.ts and payments.processor.ts):
--     Payments/Service has initiateDeposit, initiateWithdrawal and completeDeposit, and
--     Payments/Processor the handlers of the jobs. Payments/Providers has charge and
--     parseWebhookEvent of the mock providers, Payments/Signatures their verifyWebhookSignature, and
--     Payments/SignedHeader is about the header of Stripe.
--   * Webhooks (src/modules/webhooks/webhooks.controller.ts and webhooks.processor.ts):
--     Webhooks/Controller and Webhooks/Processor. `WebhookStore` adds the events and their jobs.
--     Webhooks/Signed has the routes with the signatures checked.
--   * Idempotency (src/common/interceptors/idempotency.interceptor.ts): Idempotency/Interceptor has
--     intercept in its three steps, the lookup, the claim of the key and the handler, and
--     Idempotency/Once what overlapping requests do to the table of records. Idempotency/Cases has the
--     ways in which a request can end.
--   * KYC (src/modules/kyc/kyc.service.ts): Kyc/Entities and Kyc/Service, with submitKyc and
--     processResult; Kyc/Pending and Kyc/Approval are about what submissions and reviews leave.
--   * Fraud (src/modules/fraud/fraud.service.ts): Fraud/State has the tables and caches, Fraud/Checks
--     the four checks of a rule, and Fraud/Service evaluate, getActiveRules and the seeds. A call of
--     the cache may throw. Fraud/Gate is what the payments see of it:
--     the verdict, and `Db` keeps every question, from which Fraud/Withdrawals computes the alerts,
--     counters and caches that the service has by then. Fraud/Alerts, Fraud/DailyLimit
--     and Fraud/Velocity are about what an evaluation records and lets pass, Fraud/Withdrawals about
--     withdrawals that go through it, and Fraud/Seeds about the seeds at a second start.
--   * Exchange rates (src/modules/exchange-rates/exchange-rates.service.ts): Exchange/Service, with
--     getRate, convert and refreshMockRates; Exchange/Conversion is about converting there and back.
--     Ratio has the numbers with decimals.
--   * Reports (src/modules/reports/reports.service.ts): Reports/Statement has generateStatement,
--     Reports/Summary getUserSummary and Reports/Platform getPlatformSummary; Reports/History, Reports/Balance, Reports/Totals,
--     Reports/Consistency and Reports/Breakdown relate them to the ledger and the transfers.
--   * Administration (src/modules/admin/admin.module.ts and dto/): Admin/Dto, Admin/Rows, Admin/Lists
--     and Admin/Service. `AdminDb` is the state of the other modules with the audit
--     trail; each handler changes the part that it works on. Admin/FeeRules is about the cache of the fee rules, Admin/Accounts about
--     accounts and wallets that are blocked.
--   * Audit (src/modules/audit/audit.service.ts): Audit/Service, with log, extractIp and getLogs;
--     Audit/Pages.
--   * Requests (src/common/filters/http-exception.filter.ts and the controllers): Http/Filter has the
--     filter and Http/UniqueDetail its message for duplicates. Http/Transfers has the three routes
--     that move money, from the token to the response; `Server` adds the records of requests to the
--     state of the transfers. Http/Runs, Http/Retries and Http/Moves are about what such a request
--     does, once and repeated. Http/Routes has the routes that give defaults to their parameters.
--   * Scheduled tasks (src/modules/queue/queue.module.ts): Tasks/Service, with the cleanup of the
--     records, the seeds at the start and the refresh of the rates; Tasks/Cleanup is about requests
--     that are repeated after a cleanup, Tasks/Startup about starts and refreshes.
--   * Notifications (src/modules/notifications): Notifications/Service and Notifications/Processor.
--   * Health (src/modules/health/health.module.ts): Health.
-- Outcome is how a method ends: it returns or throws, and what it wrote before a throw stays written
-- unless a transaction is rolled back. Tests holds concrete inputs.
--
-- What is taken as what: amounts of money are exact integers, as the entities declare them; the
-- database driver returns bigint columns as texts, which is not modelled. Decimal rates are scaled
-- integers, and a product with a rate is exact before it is rounded. Keys (uuids) and times are
-- natural numbers, and pages and page sizes too. A table is the list of its rows, the newest first.
-- A transfer whose currency, reference or narration is longer than its column is refused. The other
-- calls of the database go through, but for the outage during a start that Tasks/Service has.
-- Columns that no code reads back (JSON metadata, provider responses, updatedAt) are left out.
-- A method that takes a row lock or runs in a transaction is one step.
--
-- What depends on other programs is a parameter: the cache with the laws Cache states, whether the
-- server of the queues accepts jobs during a call, the answers of the payment providers, HMAC-SHA256,
-- local midnight, the texts of keys and messages, the checks of the validator package, hashing and the signing of tokens, averages
-- and deviations that the database computes, random numbers. All recursion is structural, on a list or
-- on a number of pages, so nothing runs on fuel.
--
-- Not modelled: the timers and the configuration of the queues, the database and the throttler; the
-- validation of bodies by decorators outside auth, whose outcome is an argument of the routes; routes
-- that only pass requests on; the wiring of the server and its documentation pages.
pub mod Prelude
pub mod Outcome
pub mod Wallets
pub mod Cache
pub mod Ratio
pub mod Fees
pub mod Users
pub mod Transfers
pub mod Fraud
pub mod Payments
pub mod Webhooks
pub mod Idempotency
pub mod Kyc
pub mod Reports
pub mod Auth
pub mod Exchange
pub mod Audit
pub mod Admin
pub mod Notifications
pub mod Health
pub mod Http
pub mod Tasks
pub mod Tests
