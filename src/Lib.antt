-- ===== src/Lib.antt =====
-- Leopold is a prize savings protocol: depositors keep their principal, the yield is the prize of
-- a round, and a round's winner is drawn with a chance in proportion to a time-weighted balance.
-- This library models the parts of its TypeScript code that decide: the reference models that the
-- contracts are tested against, the keeper that moves the rounds on, and decisions of the web
-- application.
--
-- Files and sources:
-- - Reference/Accounting: `AccountingReferenceModel` of reference/leopoldModels.ts. Snapshot holds
--   the state and `assertInvariants`, Accounting the methods, Steps their effects, Invariant and
--   Reachable what holds from call to call.
-- - Reference/Twab: `TwabReferenceModel` of the same file. Twab has the state and the changes,
--   Interpolate the queries. History and Ledger compare the checkpoints with the log of the changes
--   behind them, Conservation compares the accounts with the vault, Operations has the deposits and
--   withdrawals, and Runs the models that sequences of calls lead to.
-- - Reference/Round: `RoundStateReferenceModel`, with its diagram.
-- - Reference/Rejection, Reference/Draw, Reference/Chunks: `rejectionParameters`, `mapCandidate`,
--   `settlePrivateDraw`, `completePrivateDraw` and `deterministicChunks`.
-- - Keeper/Lifecycle, Keeper/Planner: the types of keeper/src/lifecycle.ts, and `planNextAction`
--   and `isActionRequired` of keeper/src/planner.ts. Planner/WellFormed says what the contracts
--   guarantee of a snapshot.
-- - Keeper/GasPolicy, Keeper/Balance: keeper/src/gas-policy.ts and keeper/src/balance-guard.ts.
-- - Keeper/Journal: the entry schema, the append-only check and the store in memory of
--   keeper/src/journal.ts. Journal/Document has the store in a file, as the document in it, and
--   Journal/Simulation compares the two.
-- - Keeper/Engine: `updateEntry`, `#reconcileEntry` and `#reconcileOutstanding` of
--   keeper/src/engine.ts, which read the chain through an `Observation` and write the journal.
-- - Keeper/Gateway, Keeper/Run: the gateway of keeper/src/lifecycle.ts, over any world behind it,
--   and the whole `KeeperEngine` as a state monad in which a call may throw. Run/Steps has its
--   methods, `runOnce` with the order of its calls, and the polling loop of keeper/src/cli.ts.
--   Run/Hoare has the rules for conditions on the journal and the broadcasts, Run/Live and
--   Run/Reconcile the conditions, Run/Safety the runs, and Run/Termination the clock.
-- - Frontend: `deriveWalletGateMode` and `deriveLeopoldRecovery` of frontend/lib/auth/recovery.ts,
--   `getAuthReadiness` and `checkFinancialWalletLink` of frontend/lib/auth/readiness.ts, and
--   `prepareWithdrawalRound` of frontend/lib/leopold/withdrawal.ts. Frontend/Wallet has
--   `walletSessionReducer` of frontend/lib/auth/wallet-identity.ts, Wallet/Session the runs of it,
--   Wallet/Snapshot what the application sees, and Wallet/Derive `deriveWalletSession`.
--   Frontend/Transactions has the records that the browser keeps
--   (frontend/lib/leopold/transactions.ts) and Frontend/PrivateBalance the reveal of a balance
--   (frontend/lib/leopold/private-balance.ts). Frontend/Reliability has the retries of reads
--   (frontend/lib/ops/reliability.ts), with the regular expressions that sort the errors.
--   Frontend/Account has frontend/lib/auth/username.ts and frontend/lib/auth/account-state.ts, and
--   Account/Integrity the updates of frontend/lib/auth/account-integrity.ts.
-- - Prelude: integers, lists, maps, strings and searches that the parts share. Tests: runs on small
--   inputs.
--
-- How the code is rendered: a `bigint` is an integer ℤ over the native numbers, unbounded as in the
-- code, and a natural number where it is read from an unsigned contract word. An object that
-- changes is a state that each operation returns, also after an exception. A string is the list of
-- its code units. A `Map` is a list in the order of insertion. `sort` is a stable insertion sort.
-- Loops over an array are recursion on the list. The binary search of `interpolate` and the loop of
-- `deterministicChunks` run on fuel, as many steps as there are checkpoints and participants, which
-- is enough since each step makes the interval smaller or the cursor larger; the digits of a number
-- run on one more step than the number; the loop of `#waitAndReconcile` on one more than the
-- milliseconds to wait, since a pause takes a millisecond at least; and the loop of
-- `withReadReliability` on its limit of attempts.
--
-- Not modelled: what is behind the gateway (calls of ethers and of the chain), the writing of the
-- journal's file and its lock, the messages of the logger, the command line and its configuration,
-- the delay between two reads (floating point), the rest of the frontend, the scripts, and the
-- contracts themselves, which are Solidity.
pub mod Prelude
pub mod Reference
pub mod Keeper
pub mod Frontend
pub mod Tests
