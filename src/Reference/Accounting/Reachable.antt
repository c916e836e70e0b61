-- ===== src/Reference/Accounting/Reachable.antt =====
-- Sequences of calls on one `AccountingReferenceModel` (reference/leopoldModels.ts).
use leopold.Prelude.{◌≡◌, refl, ap, ◌∙◌, List, [], ◌∷◌, inl, inr}
use leopold.Prelude.Int.{ℤ, ◌+ℤ◌, parts_of_eq, int_laws, +ℤ_cancel, -ℤ_cancel}
use leopold.Reference.Accounting.Snapshot.{AccountingSnapshot, done, initial}
use leopold.Reference.Accounting.Invariant.{IsReconciled, initial-IsReconciled}
use leopold.Reference.Accounting.Steps.{
  Op, deposit_principal, withdraw_principal, deploy_principal, begin_aggregate_deployment,
  cancel_aggregate_deployment, return_principal, apply, effect, Funded, Funded-cases, apply-Funded,
  apply_refused, effect-IsReconciled,
}

-- A caller that catches every exception and goes on.
unfoldable pub run : List Op → AccountingSnapshot → AccountingSnapshot
run [] s = s
run (op ∷ ops) s = run ops (apply op s).1

-- A property of reconciled snapshots that every funded effect keeps holds after any calls.
module _ (P : AccountingSnapshot → Type 0)
    (keep : (op : Op) (s : AccountingSnapshot)
      → IsReconciled s
      → Funded op s
      → P s
      → P (effect op s)) where
  apply_induction :
      (op : Op) (s : AccountingSnapshot)
      → IsReconciled s
      → P s
      → IsReconciled (apply op s).1 × P (apply op s).1
  apply_induction op s h p = elim (Funded-cases op s) [
    | inl f ↦ rw (apply-Funded s h op f) (effect-IsReconciled s h op f, keep op s h f p)
    | inr n ↦ rw ((apply_refused s h op n).0) (h, p)
  ]

  run_induction :
      (ops : List Op) (s : AccountingSnapshot)
      → IsReconciled s
      → P s
      → IsReconciled (run ops s) × P (run ops s)
  unfolding run
  run_induction [] s h p = (h, p)
  run_induction (op ∷ ops) s h p =
      let (h', p') = apply_induction op s h p in run_induction ops (apply op s).1 h' p'

-- What `assertInvariants` checks holds after any sequence of calls on a new model, whichever of
-- them throw.
pub run-IsReconciled : (ops : List Op) → IsReconciled (run ops initial)
run-IsReconciled ops =
    (run_induction (λ _. Unit {0}) (λ op s h f p. tt) ops initial initial-IsReconciled tt).0

-- Every prize unit has one place, as have all allocated winnings.
pub record PrizesAccounted (s : AccountingSnapshot) : Type 0 where
  pub sources :
      s.harvested_yield +ℤ s.sponsor_contributions
      ≡ s.realized_surplus +ℤ s.sponsored_prize +ℤ s.reserved_prize +ℤ s.allocated_winnings
  pub winnings :
      s.allocated_winnings ≡ s.winnings_liability +ℤ s.withdrawn_winnings +ℤ s.auto_saved_winnings

effect-PrizesAccounted :
    (op : Op) (s : AccountingSnapshot)
    → IsReconciled s
    → Funded op s
    → PrizesAccounted s
    → PrizesAccounted (effect op s)
effect-PrizesAccounted (deposit_principal a) s h f p = record {
  sources = p.sources;
  winnings = p.winnings;
}
effect-PrizesAccounted _ s h f p = record {
  sources = omega (int_laws, parts_of_eq _ _ p.sources);
  winnings = omega (int_laws, parts_of_eq _ _ p.winnings);
}

-- After any calls on a new model, what was harvested and sponsored is the uncommitted surplus and
-- sponsorship, the reserve and the winnings ever allocated; and the winnings ever allocated are
-- those still owed, those paid out and those saved as principal.
pub run-PrizesAccounted : (ops : List Op) → PrizesAccounted (run ops initial)
unfolding ◌+ℤ◌
run-PrizesAccounted ops =
    (run_induction PrizesAccounted effect-PrizesAccounted ops initial initial-IsReconciled
      (record { sources = refl; winnings = refl })).1

-- The second call takes the movement of the first one back.
pub data Undoes : Op → Op → Type 0 where
  withdraw_deposit : (a : ℤ) → Undoes (deposit_principal a) (withdraw_principal a)
  return_deploy : (a : ℤ) → Undoes (deploy_principal a) (return_principal a)
  deploy_return : (a : ℤ) → Undoes (return_principal a) (deploy_principal a)
  cancel_begin : (a : ℤ) → Undoes (begin_aggregate_deployment a) (cancel_aggregate_deployment a)
  begin_cancel : (a : ℤ) → Undoes (cancel_aggregate_deployment a) (begin_aggregate_deployment a)

undo-Funded :
    {op u : Op} (s : AccountingSnapshot)
    → Undoes op u
    → IsReconciled s
    → Funded op s
    → Funded u (effect op s) × (effect u (effect op s) ≡ s)
undo-Funded s (withdraw_deposit a) h f = (omega int_laws, simp (+ℤ_cancel, -ℤ_cancel))
undo-Funded s (return_deploy a) h f = (omega int_laws, simp (+ℤ_cancel, -ℤ_cancel))
undo-Funded s (deploy_return a) h f = (omega int_laws, simp (+ℤ_cancel, -ℤ_cancel))
undo-Funded s (cancel_begin a) h f = (omega int_laws, simp (+ℤ_cancel, -ℤ_cancel))
undo-Funded s (begin_cancel a) h f = (omega int_laws, simp (+ℤ_cancel, -ℤ_cancel))

-- A funded deposit, deployment, return, begun or cancelled aggregate deployment is undone by its
-- opposite of the same amount: that call succeeds and gives back the snapshot, from any reconciled
-- snapshot.
pub undo_lem :
    {op u : Op} (s : AccountingSnapshot)
    → Undoes op u
    → IsReconciled s
    → Funded op s
    → apply u (apply op s).1 ≡ (done, s)
undo_lem {op} {u} s w h f =
    let (g, e) = undo-Funded s w h f in
    rw (apply-Funded s h op f)
      (apply-Funded (effect op s) (effect-IsReconciled s h op f) u g ∙ ap (λ t. (done, t)) e)
