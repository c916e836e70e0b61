-- ===== src/Frontend.antt =====
-- Decisions of the web application (frontend/lib).
pub mod Recovery
pub mod Withdrawal
pub mod Readiness
pub mod Wallet
pub mod Transactions
pub mod PrivateBalance
pub mod Reliability
pub mod Account
