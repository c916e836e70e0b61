-- ===== src/Reference/Accounting/Snapshot.antt =====
-- The snapshot, the errors and the checks of `AccountingReferenceModel` (reference/leopoldModels.ts).
-- A method is an action on the snapshot; an exception leaves what was written before it, so an
-- action returns the state in every case.
use leopold.Prelude.{Bool, false, ◌||◌, List, [], ◌∷◌, not, if◌then◌else◌}
use leopold.Prelude.Int.{ℤ, pos, ◌+ℤ◌, ltb_ℤ, leb_ℤ, eqb_ℤ}

pub record AccountingSnapshot : Type 0 where
  pub principal_liability : ℤ
  pub liquid_principal : ℤ
  pub deployed_principal : ℤ
  pub principal_in_transition : ℤ
  pub strategy_shortfall : ℤ
  pub liquid_prize_assets : ℤ
  pub realized_surplus : ℤ
  pub reserved_prize : ℤ
  pub sponsored_prize : ℤ
  pub winnings_liability : ℤ
  pub harvested_yield : ℤ
  pub sponsor_contributions : ℤ
  pub allocated_winnings : ℤ
  pub withdrawn_winnings : ℤ
  pub auto_saved_winnings : ℤ

abbrev pub initial : AccountingSnapshot
initial = record {
  principal_liability = pos 0;
  liquid_principal = pos 0;
  deployed_principal = pos 0;
  principal_in_transition = pos 0;
  strategy_shortfall = pos 0;
  liquid_prize_assets = pos 0;
  realized_surplus = pos 0;
  reserved_prize = pos 0;
  sponsored_prize = pos 0;
  winnings_liability = pos 0;
  harvested_yield = pos 0;
  sponsor_contributions = pos 0;
  allocated_winnings = pos 0;
  withdrawn_winnings = pos 0;
  auto_saved_winnings = pos 0;
}

-- The messages of the thrown errors, by the guard that throws.
pub data AccountingError : Type 0 where
  amount_must_be_positive : AccountingError
  insufficient_principal_liquidity : AccountingError
  insufficient_liquid_principal : AccountingError
  excess_deployment_completion : AccountingError
  excess_deployment_cancellation : AccountingError
  loss_exceeds_deployed_basis : AccountingError
  excess_principal_return : AccountingError
  negative_prize_source : AccountingError
  unfunded_prize : AccountingError
  unreserved_winnings : AccountingError
  excess_auto_save : AccountingError
  insufficient_winnings_liquidity : AccountingError
  negative_accounting_category : AccountingError
  principal_reconciliation_failed : AccountingError
  prize_category_reconciliation_failed : AccountingError
  prize_asset_reconciliation_failed : AccountingError

pub data Outcome : Type 0 where
  done : Outcome
  thrown : AccountingError → Outcome

abbrev pub Action : Type 0
Action = AccountingSnapshot → Outcome × AccountingSnapshot

infixl 5 ◌>>◌
abbrev pub ◌>>◌ : Action → Action → Action
◌>>◌ m k s = let (r, s') = m s in elim r [ done ↦ k s' | thrown e ↦ (thrown e, s') ]

abbrev pub throw_if : (AccountingSnapshot → Bool) → AccountingError → Action
throw_if test e s = (if test s then thrown e else done, s)

abbrev pub update : (AccountingSnapshot → AccountingSnapshot) → Action
update f s = (done, f s)

abbrev pub positive : ℤ → Action
positive amount = throw_if (λ s. leb_ℤ amount (pos 0)) amount_must_be_positive

-- `Object.values(this.state)`
abbrev values : AccountingSnapshot → List ℤ
values s =
    s.principal_liability ∷ s.liquid_principal ∷ s.deployed_principal ∷ s.principal_in_transition
    ∷ s.strategy_shortfall ∷ s.liquid_prize_assets ∷ s.realized_surplus ∷ s.reserved_prize
    ∷ s.sponsored_prize ∷ s.winnings_liability ∷ s.harvested_yield ∷ s.sponsor_contributions
    ∷ s.allocated_winnings ∷ s.withdrawn_winnings ∷ s.auto_saved_winnings ∷ []

abbrev any_negative : List ℤ → Bool
any_negative [] = false
any_negative (v ∷ vs) = ltb_ℤ v (pos 0) || any_negative vs

unfoldable pub assert_invariants : Action
assert_invariants =
    throw_if (λ s. any_negative (values s)) negative_accounting_category
    >> throw_if
        (λ s. not (
          eqb_ℤ
            (s.liquid_principal +ℤ s.deployed_principal +ℤ s.principal_in_transition
              +ℤ s.strategy_shortfall)
            s.principal_liability))
        principal_reconciliation_failed
    >> throw_if
        (λ s. not (
          eqb_ℤ
            (s.realized_surplus +ℤ s.sponsored_prize +ℤ s.reserved_prize +ℤ s.winnings_liability)
            s.liquid_prize_assets))
        prize_category_reconciliation_failed
    >> throw_if
        (λ s. not (
          eqb_ℤ (s.harvested_yield +ℤ s.sponsor_contributions)
            (s.liquid_prize_assets +ℤ s.withdrawn_winnings +ℤ s.auto_saved_winnings)))
        prize_asset_reconciliation_failed
