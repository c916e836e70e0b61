-- ===== src/Reference/Accounting/Invariant.antt =====
-- What `assertInvariants` (reference/leopoldModels.ts) checks, as a predicate on the snapshot.
use leopold.Prelude.{◌≡◌, arith}
use leopold.Prelude.Int.{pos, ◌+ℤ◌, ◌≤ℤ◌, parts_of_eq}
use leopold.Reference.Accounting.Snapshot.{AccountingSnapshot, done, initial, assert_invariants}

pub record IsReconciled (s : AccountingSnapshot) : Type 0 where
  pub principal_liability_nonneg : pos 0 ≤ℤ s.principal_liability
  pub liquid_principal_nonneg : pos 0 ≤ℤ s.liquid_principal
  pub deployed_principal_nonneg : pos 0 ≤ℤ s.deployed_principal
  pub principal_in_transition_nonneg : pos 0 ≤ℤ s.principal_in_transition
  pub strategy_shortfall_nonneg : pos 0 ≤ℤ s.strategy_shortfall
  pub liquid_prize_assets_nonneg : pos 0 ≤ℤ s.liquid_prize_assets
  pub realized_surplus_nonneg : pos 0 ≤ℤ s.realized_surplus
  pub reserved_prize_nonneg : pos 0 ≤ℤ s.reserved_prize
  pub sponsored_prize_nonneg : pos 0 ≤ℤ s.sponsored_prize
  pub winnings_liability_nonneg : pos 0 ≤ℤ s.winnings_liability
  pub harvested_yield_nonneg : pos 0 ≤ℤ s.harvested_yield
  pub sponsor_contributions_nonneg : pos 0 ≤ℤ s.sponsor_contributions
  pub allocated_winnings_nonneg : pos 0 ≤ℤ s.allocated_winnings
  pub withdrawn_winnings_nonneg : pos 0 ≤ℤ s.withdrawn_winnings
  pub auto_saved_winnings_nonneg : pos 0 ≤ℤ s.auto_saved_winnings
  pub principal :
      s.liquid_principal +ℤ s.deployed_principal +ℤ s.principal_in_transition
        +ℤ s.strategy_shortfall
      ≡ s.principal_liability
  pub prize_categories :
      s.realized_surplus +ℤ s.sponsored_prize +ℤ s.reserved_prize +ℤ s.winnings_liability
      ≡ s.liquid_prize_assets
  pub prize_assets :
      s.harvested_yield +ℤ s.sponsor_contributions
      ≡ s.liquid_prize_assets +ℤ s.withdrawn_winnings +ℤ s.auto_saved_winnings

pub initial-IsReconciled : IsReconciled initial
unfolding ◌+ℤ◌
initial-IsReconciled = ground arith

-- A reconciled snapshot passes every check.
pub assert_of_IsReconciled :
    (s : AccountingSnapshot) → IsReconciled s → assert_invariants s ≡ (done, s)
unfolding assert_invariants
assert_of_IsReconciled s h = ground (
  arith,
  parts_of_eq _ _ h.principal,
  parts_of_eq _ _ h.prize_categories,
  parts_of_eq _ _ h.prize_assets,
)
