-- ===== src/Keeper/Planner/Order.antt =====
-- keeper/src/planner.ts: `planNextAction` closes expired rounds first, and in which order.
