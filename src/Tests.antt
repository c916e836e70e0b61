-- ===== src/Tests.antt =====
-- Runs of the models on small inputs.
mod Accounting
mod Twab
mod Draws
mod Rounds
mod Planner
mod Keeper
mod Run
mod Frontend
mod Readiness
mod Wallet
mod Transactions
mod PrivateBalance
mod Reliability
mod Account
mod Floors
mod Broadcast
