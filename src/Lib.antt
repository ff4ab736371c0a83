-- ===== src/Lib.antt =====
-- StepFi-API: loans for learners, with a credit score behind them and a contract on Stellar
-- below.
--
-- The parts and how they interact. A borrower asks `LoansService`
-- (src/modules/loans/loans.service.ts) for a quote or a loan. It reads the borrower's
-- reputation, lets `CreditScoringService` (src/modules/credit-scoring/credit-scoring.service.ts)
-- assess the application, builds a transaction for the borrower to sign through the contract
-- client (src/stellar/contracts/clients/creditline.client.ts), and stores the loan as pending.
-- The signed transaction is settled later by `TransactionStatusCheckerService`
-- (src/jobs/transaction-status-checker/transaction-status-checker.service.ts), which asks
-- Horizon, activates the loan or writes its balance, and notifies the borrower. Requests pass
-- the guards (src/auth/guards/roles.guard.ts, src/auth/guards/api-key.guard.ts), which rest on
-- the cached state of a user (src/modules/auth/user-status.service.ts). Mentors vouch for
-- learners (src/modules/vouching/vouching.service.ts), and investors move money in and out of
-- the pool (src/modules/liquidity/liquidity.service.ts). The contracts' events are copied into
-- index tables by the indexer (src/indexer/indexer.service.ts). Signed transactions come in
-- through `TransactionsService` (src/modules/transactions/transactions.service.ts), which checks
-- them against an allowlist and records them before Horizon gets them. Wallets sign in with a
-- challenge and keep a family of refresh tokens through `AuthService`
-- (src/modules/auth/auth.service.ts), and `ReputationService`
-- (src/modules/reputation/reputation.service.ts) serves the scores that loans are granted on.
-- Vendors keep their products, their dashboard and their API keys through `VendorsService`
-- (src/modules/vendors/vendors.service.ts). `HorizonClientService`
-- (src/stellar/horizon-client.service.ts) spreads the calls of Horizon over several endpoints.
-- Jobs compare the tables with the index
-- (src/jobs/state-reconciliation/state-reconciliation.processor.ts) and remind borrowers of
-- payments (src/jobs/loan-payment-reminder/loan-payment-reminder.service.ts).
--
-- Which file models which part:
--   Common       shared names, lists, integers, and handlers as state passing (`Act`)
--   Credit       `resolveTier` and `assess`; theorems in Credit/Tiers and Credit/Assess
--   Loans        Types and Terms (the quote and the schedule), Service (`createLoan`,
--                `buildRepaymentXdr`, `repayLoan`, `assessLoan`), Portfolio (`getAvailableCredit`,
--                `getStats`, the items of `getMyLoans`); theorems in Schedule, Creation, Repayment,
--                Assessment and Accounts
--   Checker      Types, Horizon (`checkTransactionStatus`), Metadata (`parseTransactionMetadata`
--                and the calls that the contract client builds), FollowUp (`applyFollowUpActions`),
--                Notice (the notification), Cycle (`finalizeTransaction`, `checkTransactions`);
--                theorems in Retries, LoanWrites, Settlement, Once,
--                Progress and Isolation
--   Access       UserStatus, Roles and ApiKey; theorems in Staleness, RoleChecks, KeyChecks and
--                RateLimit
--   Vouching     the table `vouches` and the handlers of src/modules/vouching/vouching.service.ts; theorems
--                in Exclusive and Lifecycle, over the lemmas of Rows
--   Liquidity    deposits, withdrawals and the error map of src/modules/liquidity/liquidity.service.ts, and
--                the share-price fallbacks of src/blockchain/contracts/liquidity-contract.client.ts;
--                theorems in Pool
--   Indexer      the cycle of src/indexer/indexer.service.ts that copies contract events into the index;
--                theorems in Cursor and Persist
--   Transactions Types, Allowlist (`assertOperationAllowlist`, `assertWalletAuthorizes`), Failures
--                (the reading of errors), Records (the rows) and Service (`submitTransaction`,
--                `getTransactionStatus`) of src/modules/transactions/transactions.service.ts; theorems
--                in Checks, Outcomes, Accepted, Replay and Status
--   Auth         Types, Challenge (the signature schemes) and Service (`register`, `generateNonce`,
--                `verifySignature`, `generateTokens`, `refreshTokens`) of
--                src/modules/auth/auth.service.ts; theorems in Signatures, Schemes, Nonces,
--                OwnChallenge, RoundTrip, Sessions, Rotation, Refresh and Registration
--   Reputation   the scores of src/modules/reputation/reputation.service.ts; theorems in Sources
--                and Limits
--   Vendors      the status actions, products, dashboard and API keys of
--                src/modules/vendors/vendors.service.ts, the handlers in Service, Lists and
--                Accounts; theorems in Keys, Products and Pages
--   HorizonClient `withFailover` and `isEndpointError` of src/stellar/horizon-client.service.ts;
--                theorems in Breakers, Failover and Calls
--   Reconciliation Reader (src/indexer/authoritative-state.reader.ts), Service, Wallets and
--                Cycle (src/jobs/state-reconciliation/state-reconciliation.processor.ts); theorems in
--                Convergence, over the loop of Sync, Orphans and Report, over Totals
--   Reminders    src/jobs/loan-payment-reminder/loan-payment-reminder.service.ts, the job in Service;
--                theorems in Daily and Accounts
-- A function keeps its name in snake case. Each component has a module Tests of concrete runs.
--
-- Conventions. What a handler calls outside the modelled code (the database, the contract
-- clients, Horizon, the cache, the clock) is a record of functions over an abstract state `S` of
-- the world: `LoansEnv`, `CreditEnv`, `CheckerEnv`, `KeyEnv`, `PoolEnv`, `IndexerEnv`,
-- `TransactionsEnv`, `AuthEnv`, `ReputationEnv`, `VendorsEnv`, `ListsEnv`, `AccountsEnv`,
-- `HorizonEnv`, `ReconciliationEnv`, `RemindersEnv`. A table of vouches is the list of its rows.
-- A query gives `none` where the client reports an error or no row, as the handlers treat both
-- alike. A handler is an `Act`: it takes a state and either returns or throws, with the state
-- that its writes left behind. An amount of money is a whole number of stroops (10^-7 dollars),
-- and JavaScript's numbers are exact decimals: rounding is modelled where the source rounds and
-- nowhere else. Times are milliseconds, and the clock moves with the calls of the world only:
-- two readings without a call between them are equal.
--
-- Bounds. The loop of `checkTransactionStatus` recurses on the attempts that are left, at most
-- three; the schedule on the payments that are left; the failover on the endpoints that are
-- left, at most as many as there are. No other recursion needs fuel.
--
-- Not modelled: the processor beside the checker, which no module registers; the paging of
-- `getMyLoans`; the pool's cached summaries; the event parser, the notifications, the list of a
-- vendor's products, the sponsors, the learners and the administration; how the services read
-- their configuration; and the framework's declarations (controllers, DTOs, modules). Calls of
-- the database, the cache and the key functions are taken not to throw unless a reply says so.
mod Common
pub mod Access
pub mod Auth
pub mod Checker
pub mod Credit
pub mod HorizonClient
pub mod Indexer
pub mod Liquidity
pub mod Loans
pub mod Reconciliation
pub mod Reminders
pub mod Reputation
pub mod Transactions
pub mod Vendors
pub mod Vouching
