-- ===== src/Reference.antt =====
-- The reference models of reference/leopoldModels.ts, a child for each class or group of functions.
pub mod Accounting
pub mod Twab
pub mod Round
pub mod Chunks
pub mod Rejection
pub mod Draw
