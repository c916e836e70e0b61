-- ===== src/Reference/Accounting.antt =====
-- The methods of `AccountingReferenceModel` in reference/leopoldModels.ts.
pub mod Snapshot
pub mod Invariant
pub mod Steps
pub mod Reachable
use leopold.Prelude.{◌||◌}
use leopold.Prelude.Int.{ℤ, pos, ◌+ℤ◌, ◌-ℤ◌, ltb_ℤ}
use Snapshot.{
  Action, ◌>>◌, throw_if, update, positive, assert_invariants, insufficient_principal_liquidity,
  insufficient_liquid_principal, excess_deployment_completion, excess_deployment_cancellation,
  loss_exceeds_deployed_basis, excess_principal_return, negative_prize_source, unfunded_prize,
  unreserved_winnings, excess_auto_save, insufficient_winnings_liquidity,
}

unfoldable pub deposit_principal : ℤ → Action
deposit_principal amount =
    positive amount
    >> update (λ s. record s {
      principal_liability = s.principal_liability +ℤ amount;
      liquid_principal = s.liquid_principal +ℤ amount;
    })
    >> assert_invariants

unfoldable pub withdraw_principal : ℤ → Action
withdraw_principal amount =
    positive amount
    >> throw_if (λ s. ltb_ℤ s.principal_liability amount || ltb_ℤ s.liquid_principal amount)
        insufficient_principal_liquidity
    >> update (λ s. record s {
      principal_liability = s.principal_liability -ℤ amount;
      liquid_principal = s.liquid_principal -ℤ amount;
    })
    >> assert_invariants

unfoldable pub deploy_principal : ℤ → Action
deploy_principal amount =
    positive amount
    >> throw_if (λ s. ltb_ℤ s.liquid_principal amount) insufficient_liquid_principal
    >> update (λ s. record s {
      liquid_principal = s.liquid_principal -ℤ amount;
      deployed_principal = s.deployed_principal +ℤ amount;
    })
    >> assert_invariants

unfoldable pub begin_aggregate_deployment : ℤ → Action
begin_aggregate_deployment amount =
    positive amount
    >> throw_if (λ s. ltb_ℤ s.liquid_principal amount) insufficient_liquid_principal
    >> update (λ s. record s {
      liquid_principal = s.liquid_principal -ℤ amount;
      principal_in_transition = s.principal_in_transition +ℤ amount;
    })
    >> assert_invariants

unfoldable pub complete_aggregate_deployment : ℤ → Action
complete_aggregate_deployment amount =
    positive amount
    >> throw_if (λ s. ltb_ℤ s.principal_in_transition amount) excess_deployment_completion
    >> update (λ s. record s {
      principal_in_transition = s.principal_in_transition -ℤ amount;
      deployed_principal = s.deployed_principal +ℤ amount;
    })
    >> assert_invariants

unfoldable pub cancel_aggregate_deployment : ℤ → Action
cancel_aggregate_deployment amount =
    positive amount
    >> throw_if (λ s. ltb_ℤ s.principal_in_transition amount) excess_deployment_cancellation
    >> update (λ s. record s {
      principal_in_transition = s.principal_in_transition -ℤ amount;
      liquid_principal = s.liquid_principal +ℤ amount;
    })
    >> assert_invariants

unfoldable pub recognize_strategy_loss : ℤ → Action
recognize_strategy_loss amount =
    positive amount
    >> throw_if (λ s. ltb_ℤ s.deployed_principal amount) loss_exceeds_deployed_basis
    >> update (λ s. record s {
      deployed_principal = s.deployed_principal -ℤ amount;
      strategy_shortfall = s.strategy_shortfall +ℤ amount;
    })
    >> assert_invariants

unfoldable pub return_principal : ℤ → Action
return_principal amount =
    positive amount
    >> throw_if (λ s. ltb_ℤ s.deployed_principal amount) excess_principal_return
    >> update (λ s. record s {
      deployed_principal = s.deployed_principal -ℤ amount;
      liquid_principal = s.liquid_principal +ℤ amount;
    })
    >> assert_invariants

unfoldable pub harvest_genuine_surplus : ℤ → Action
harvest_genuine_surplus amount =
    positive amount
    >> update (λ s. record s {
      liquid_prize_assets = s.liquid_prize_assets +ℤ amount;
      realized_surplus = s.realized_surplus +ℤ amount;
      harvested_yield = s.harvested_yield +ℤ amount;
    })
    >> assert_invariants

unfoldable pub sponsor : ℤ → Action
sponsor amount =
    positive amount
    >> update (λ s. record s {
      liquid_prize_assets = s.liquid_prize_assets +ℤ amount;
      sponsored_prize = s.sponsored_prize +ℤ amount;
      sponsor_contributions = s.sponsor_contributions +ℤ amount;
    })
    >> assert_invariants

unfoldable pub reserve_prize : ℤ → ℤ → Action
reserve_prize from_yield from_sponsor =
    throw_if (λ s. ltb_ℤ from_yield (pos 0) || ltb_ℤ from_sponsor (pos 0)) negative_prize_source
    >> throw_if (λ s. ltb_ℤ s.realized_surplus from_yield || ltb_ℤ s.sponsored_prize from_sponsor)
        unfunded_prize
    >> update (λ s. record s {
      realized_surplus = s.realized_surplus -ℤ from_yield;
      sponsored_prize = s.sponsored_prize -ℤ from_sponsor;
      reserved_prize = s.reserved_prize +ℤ (from_yield +ℤ from_sponsor);
    })
    >> assert_invariants

unfoldable pub allocate_winnings : ℤ → Action
allocate_winnings amount =
    positive amount
    >> throw_if (λ s. ltb_ℤ s.reserved_prize amount) unreserved_winnings
    >> update (λ s. record s {
      reserved_prize = s.reserved_prize -ℤ amount;
      winnings_liability = s.winnings_liability +ℤ amount;
      allocated_winnings = s.allocated_winnings +ℤ amount;
    })
    >> assert_invariants

unfoldable pub auto_save : ℤ → Action
auto_save amount =
    positive amount
    >> throw_if (λ s. ltb_ℤ s.winnings_liability amount) excess_auto_save
    >> update (λ s. record s {
      winnings_liability = s.winnings_liability -ℤ amount;
      liquid_prize_assets = s.liquid_prize_assets -ℤ amount;
      principal_liability = s.principal_liability +ℤ amount;
      liquid_principal = s.liquid_principal +ℤ amount;
      auto_saved_winnings = s.auto_saved_winnings +ℤ amount;
    })
    >> assert_invariants

unfoldable pub withdraw_winnings : ℤ → Action
withdraw_winnings amount =
    positive amount
    >> throw_if (λ s. ltb_ℤ s.winnings_liability amount || ltb_ℤ s.liquid_prize_assets amount)
        insufficient_winnings_liquidity
    >> update (λ s. record s {
      winnings_liability = s.winnings_liability -ℤ amount;
      liquid_prize_assets = s.liquid_prize_assets -ℤ amount;
      withdrawn_winnings = s.withdrawn_winnings +ℤ amount;
    })
    >> assert_invariants
