-- ===== src/Tests/Accounting.antt =====
-- `AccountingReferenceModel` (reference/leopoldModels.ts) on small inputs.
use leopold.Prelude.{◌≡◌, List, [], ◌∷◌, arith}
use leopold.Prelude.Int.{pos}
use leopold.Reference.Accounting.Snapshot.{done, initial}
use leopold.Reference.Accounting.Invariant.{IsReconciled, initial-IsReconciled}
use leopold.Reference.Accounting.Steps.{
  Op, deposit_principal, withdraw_principal, sponsor, reserve_prize, allocate_winnings, auto_save,
  withdraw_winnings, apply, effect, IsRefusal, apply-Funded, apply_refused,
}
use leopold.Reference.Accounting.Reachable.{
  run, run-IsReconciled, PrizesAccounted, run-PrizesAccounted, withdraw_deposit, undo_lem,
}

abbrev season : List Op
season =
    deposit_principal (pos 50)
    ∷ sponsor (pos 9)
    ∷ reserve_prize (pos 0) (pos 9)
    ∷ allocate_winnings (pos 9)
    ∷ auto_save (pos 4)
    ∷ withdraw_winnings (pos 6)
    ∷ withdraw_winnings (pos 5)
    ∷ []

apply-Funded_example :
    apply (deposit_principal (pos 5)) initial ≡ (done, effect (deposit_principal (pos 5)) initial)
apply-Funded_example =
    apply-Funded initial initial-IsReconciled (deposit_principal (pos 5)) (omega arith)

apply_refused_example :
    ((apply (withdraw_principal (pos 5)) initial).1 ≡ initial)
    × IsRefusal (apply (withdraw_principal (pos 5)) initial).0
apply_refused_example =
    apply_refused initial initial-IsReconciled (withdraw_principal (pos 5)) (ground arith)

run-IsReconciled_example : IsReconciled (run season initial)
run-IsReconciled_example = run-IsReconciled season

run-PrizesAccounted_example : PrizesAccounted (run season initial)
run-PrizesAccounted_example = run-PrizesAccounted season

undo_lem_example :
    apply (withdraw_principal (pos 5)) (apply (deposit_principal (pos 5)) initial).1
    ≡ (done, initial)
undo_lem_example = undo_lem initial (withdraw_deposit (pos 5)) initial-IsReconciled (omega arith)
