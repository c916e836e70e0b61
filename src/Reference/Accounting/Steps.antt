-- ===== src/Reference/Accounting/Steps.antt =====
-- Each method of `AccountingReferenceModel` (reference/leopoldModels.ts) from a reconciled snapshot.
use leopold.Prelude.{◌≡◌, ◌⊎◌, arith}
use leopold.Prelude.Int.{ℤ, pos, ◌+ℤ◌, ◌-ℤ◌, ◌≤ℤ◌, ◌<ℤ◌, parts_of_eq, int_laws}
use leopold.Reference.Accounting.Snapshot.{
  AccountingSnapshot, Action, Outcome, done, thrown, negative_accounting_category,
  principal_reconciliation_failed, prize_category_reconciliation_failed,
  prize_asset_reconciliation_failed,
}
use leopold.Reference.Accounting
use leopold.Reference.Accounting.Invariant.{IsReconciled, assert_of_IsReconciled}

-- A call of one of the methods.
pub data Op : Type 0 where
  deposit_principal : ℤ → Op
  withdraw_principal : ℤ → Op
  deploy_principal : ℤ → Op
  begin_aggregate_deployment : ℤ → Op
  complete_aggregate_deployment : ℤ → Op
  cancel_aggregate_deployment : ℤ → Op
  recognize_strategy_loss : ℤ → Op
  return_principal : ℤ → Op
  harvest_genuine_surplus : ℤ → Op
  sponsor : ℤ → Op
  reserve_prize : ℤ → ℤ → Op
  allocate_winnings : ℤ → Op
  auto_save : ℤ → Op
  withdraw_winnings : ℤ → Op

unfoldable pub apply : Op → Action
unfolding Accounting.deposit_principal Accounting.withdraw_principal Accounting.deploy_principal
    Accounting.begin_aggregate_deployment Accounting.complete_aggregate_deployment
    Accounting.cancel_aggregate_deployment Accounting.recognize_strategy_loss
    Accounting.return_principal Accounting.harvest_genuine_surplus Accounting.sponsor
    Accounting.reserve_prize Accounting.allocate_winnings Accounting.auto_save
    Accounting.withdraw_winnings
apply (deposit_principal a) = Accounting.deposit_principal a
apply (withdraw_principal a) = Accounting.withdraw_principal a
apply (deploy_principal a) = Accounting.deploy_principal a
apply (begin_aggregate_deployment a) = Accounting.begin_aggregate_deployment a
apply (complete_aggregate_deployment a) = Accounting.complete_aggregate_deployment a
apply (cancel_aggregate_deployment a) = Accounting.cancel_aggregate_deployment a
apply (recognize_strategy_loss a) = Accounting.recognize_strategy_loss a
apply (return_principal a) = Accounting.return_principal a
apply (harvest_genuine_surplus a) = Accounting.harvest_genuine_surplus a
apply (sponsor a) = Accounting.sponsor a
apply (reserve_prize y p) = Accounting.reserve_prize y p
apply (allocate_winnings a) = Accounting.allocate_winnings a
apply (auto_save a) = Accounting.auto_save a
apply (withdraw_winnings a) = Accounting.withdraw_winnings a

-- The snapshot that a method writes when its guards let it through.
abbrev pub effect : Op → AccountingSnapshot → AccountingSnapshot
effect (deposit_principal a) s = record s {
  principal_liability = s.principal_liability +ℤ a;
  liquid_principal = s.liquid_principal +ℤ a;
}
effect (withdraw_principal a) s = record s {
  principal_liability = s.principal_liability -ℤ a;
  liquid_principal = s.liquid_principal -ℤ a;
}
effect (deploy_principal a) s = record s {
  liquid_principal = s.liquid_principal -ℤ a;
  deployed_principal = s.deployed_principal +ℤ a;
}
effect (begin_aggregate_deployment a) s = record s {
  liquid_principal = s.liquid_principal -ℤ a;
  principal_in_transition = s.principal_in_transition +ℤ a;
}
effect (complete_aggregate_deployment a) s = record s {
  principal_in_transition = s.principal_in_transition -ℤ a;
  deployed_principal = s.deployed_principal +ℤ a;
}
effect (cancel_aggregate_deployment a) s = record s {
  principal_in_transition = s.principal_in_transition -ℤ a;
  liquid_principal = s.liquid_principal +ℤ a;
}
effect (recognize_strategy_loss a) s = record s {
  deployed_principal = s.deployed_principal -ℤ a;
  strategy_shortfall = s.strategy_shortfall +ℤ a;
}
effect (return_principal a) s = record s {
  deployed_principal = s.deployed_principal -ℤ a;
  liquid_principal = s.liquid_principal +ℤ a;
}
effect (harvest_genuine_surplus a) s = record s {
  liquid_prize_assets = s.liquid_prize_assets +ℤ a;
  realized_surplus = s.realized_surplus +ℤ a;
  harvested_yield = s.harvested_yield +ℤ a;
}
effect (sponsor a) s = record s {
  liquid_prize_assets = s.liquid_prize_assets +ℤ a;
  sponsored_prize = s.sponsored_prize +ℤ a;
  sponsor_contributions = s.sponsor_contributions +ℤ a;
}
effect (reserve_prize y p) s = record s {
  realized_surplus = s.realized_surplus -ℤ y;
  sponsored_prize = s.sponsored_prize -ℤ p;
  reserved_prize = s.reserved_prize +ℤ (y +ℤ p);
}
effect (allocate_winnings a) s = record s {
  reserved_prize = s.reserved_prize -ℤ a;
  winnings_liability = s.winnings_liability +ℤ a;
  allocated_winnings = s.allocated_winnings +ℤ a;
}
effect (auto_save a) s = record s {
  winnings_liability = s.winnings_liability -ℤ a;
  liquid_prize_assets = s.liquid_prize_assets -ℤ a;
  principal_liability = s.principal_liability +ℤ a;
  liquid_principal = s.liquid_principal +ℤ a;
  auto_saved_winnings = s.auto_saved_winnings +ℤ a;
}
effect (withdraw_winnings a) s = record s {
  winnings_liability = s.winnings_liability -ℤ a;
  liquid_prize_assets = s.liquid_prize_assets -ℤ a;
  withdrawn_winnings = s.withdrawn_winnings +ℤ a;
}

-- The one source that bounds each method's amount. A withdrawal of principal is bounded by the
-- liquid part alone and a withdrawal of winnings by the liability alone.
abbrev pub Funded : Op → AccountingSnapshot → Type 0
Funded (deposit_principal a) s = pos 0 <ℤ a
Funded (withdraw_principal a) s = (pos 0 <ℤ a) × (a ≤ℤ s.liquid_principal)
Funded (deploy_principal a) s = (pos 0 <ℤ a) × (a ≤ℤ s.liquid_principal)
Funded (begin_aggregate_deployment a) s = (pos 0 <ℤ a) × (a ≤ℤ s.liquid_principal)
Funded (complete_aggregate_deployment a) s = (pos 0 <ℤ a) × (a ≤ℤ s.principal_in_transition)
Funded (cancel_aggregate_deployment a) s = (pos 0 <ℤ a) × (a ≤ℤ s.principal_in_transition)
Funded (recognize_strategy_loss a) s = (pos 0 <ℤ a) × (a ≤ℤ s.deployed_principal)
Funded (return_principal a) s = (pos 0 <ℤ a) × (a ≤ℤ s.deployed_principal)
Funded (harvest_genuine_surplus a) s = pos 0 <ℤ a
Funded (sponsor a) s = pos 0 <ℤ a
Funded (reserve_prize y p) s =
    (pos 0 ≤ℤ y) × (pos 0 ≤ℤ p) × (y ≤ℤ s.realized_surplus) × (p ≤ℤ s.sponsored_prize)
Funded (allocate_winnings a) s = (pos 0 <ℤ a) × (a ≤ℤ s.reserved_prize)
Funded (auto_save a) s = (pos 0 <ℤ a) × (a ≤ℤ s.winnings_liability)
Funded (withdraw_winnings a) s = (pos 0 <ℤ a) × (a ≤ℤ s.winnings_liability)

-- The outcome of a guard that throws before the first write.
abbrev pub IsRefusal : Outcome → Type 0
IsRefusal done = ⊥
IsRefusal (thrown negative_accounting_category) = ⊥
IsRefusal (thrown principal_reconciliation_failed) = ⊥
IsRefusal (thrown prize_category_reconciliation_failed) = ⊥
IsRefusal (thrown prize_asset_reconciliation_failed) = ⊥
IsRefusal (thrown _) = Unit

module _ (s : AccountingSnapshot) (h : IsReconciled s) where
  pub effect-IsReconciled : (op : Op) → Funded op s → IsReconciled (effect op s)
  effect-IsReconciled (deposit_principal a) f = omega (
    int_laws,
    parts_of_eq _ _ h.principal,
    parts_of_eq _ _ h.prize_categories,
    parts_of_eq _ _ h.prize_assets,
  )
  effect-IsReconciled _ f = omega (
    int_laws,
    parts_of_eq _ _ h.principal,
    parts_of_eq _ _ h.prize_categories,
    parts_of_eq _ _ h.prize_assets,
  )

  liquid-le-liability : s.liquid_principal ≤ℤ s.principal_liability
  liquid-le-liability = omega (int_laws, parts_of_eq _ _ h.principal)

  winnings-le-assets : s.winnings_liability ≤ℤ s.liquid_prize_assets
  winnings-le-assets = omega (int_laws, parts_of_eq _ _ h.prize_categories)

  -- From a reconciled snapshot a funded call completes: no check throws after the write, and what
  -- it writes is exactly the method's effect.
  pub apply-Funded : (op : Op) → Funded op s → apply op s ≡ (done, effect op s)
  unfolding apply
  apply-Funded (withdraw_principal a) f = ground (
    arith,
    liquid-le-liability,
    assert_of_IsReconciled (effect (withdraw_principal a) s)
        (effect-IsReconciled (withdraw_principal a) f),
  )
  apply-Funded (withdraw_winnings a) f = ground (
    arith,
    winnings-le-assets,
    assert_of_IsReconciled (effect (withdraw_winnings a) s)
        (effect-IsReconciled (withdraw_winnings a) f),
  )
  apply-Funded op f =
      ground (arith, assert_of_IsReconciled (effect op s) (effect-IsReconciled op f))

  -- From a reconciled snapshot a call that is not funded is refused by a guard before anything is
  -- written: the snapshot is unchanged, and the error is not one of `assertInvariants`.
  pub apply_refused : (op : Op) → ¬ Funded op s → ((apply op s).1 ≡ s) × IsRefusal (apply op s).0
  unfolding apply
  apply_refused (deposit_principal a) n = ground (arith, n)
  apply_refused op n = ground (arith, n)

pub Funded-cases : (op : Op) (s : AccountingSnapshot) → Funded op s ⊎ (¬ Funded op s)
Funded-cases (deposit_principal a) s = ground arith
Funded-cases _ s = ground arith
