-- ===== src/Keeper.antt =====
-- The keeper of keeper/src: it watches the vaults' rounds and sends the next lifecycle transaction.
pub mod Lifecycle
pub mod GasPolicy
pub mod Balance
pub mod Planner
pub mod Journal
pub mod Engine
pub mod Gateway
pub mod Run
