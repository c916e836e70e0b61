-- ===== src/Reference/Twab/Runs.antt =====
-- The models that the calls of `TwabReferenceModel` (reference/leopoldModels.ts) lead to.
use leopold.Prelude.{◌≡◌, refl, sym, ap, ◌∙◌, subst, Option, none, some, List, [], ◌∷◌, arith}
use leopold.Prelude.Int.{ℤ, pos, ◌+ℤ◌, ◌-ℤ◌, ◌≤ℤ◌}
use leopold.Prelude.Eq.{get, set, list_eq, nat_eq}
use leopold.Prelude.Results.{ok}
use leopold.Prelude.Text.{Text}
use leopold.Reference.Twab.{
  VaultId, vault_number, Checkpoint, Model, new, Outcome, done, thrown, Action, ◌>>◌, key, last,
  or_empty, balance_of, balance, total_balance, user_checkpoints, total_checkpoints, write,
  write_after, actions_must_be_chronological, change_user, change_total, change, deposit, withdraw,
  move,
}
use leopold.Reference.Twab.Interpolate.{weight, aggregate_weight}
use leopold.Reference.Twab.Writes.{Until}
use leopold.Reference.Twab.History.{integral}
use leopold.Reference.Twab.Ledger.{
  Entry, user_history, total_at, Faithful, new-Faithful, entry_of, change-Faithful,
}
use leopold.Reference.Twab.Conservation.{
  Covers, sum_weights, weight_of_Faithful, weights_of_Faithful,
}

-- The models that calls of which none throws lead to from the empty one, with the log of the
-- balance changes that were asked for, newest first; a move is a withdrawal and a deposit.
pub data Reached : Model → List Entry → Type 0 where
  opened : Reached new []
  deposited :
      {m m' : Model} {log : List Entry}
      → Reached m log
      → (v : VaultId) (a : Text) (amount t : ℤ) → deposit v a amount t m ≡ (done, m')
      → Reached m' (entry_of v a amount t ∷ log)
  withdrawn :
      {m m' : Model} {log : List Entry}
      → Reached m log
      → (v : VaultId) (a : Text) (amount t : ℤ) → withdraw v a amount t m ≡ (done, m')
      → Reached m' (entry_of v a (pos 0 -ℤ amount) t ∷ log)
  moved :
      {m m' : Model} {log : List Entry}
      → Reached m log
      → (source destination : VaultId) (a : Text) (amount t : ℤ)
      → move source destination a amount t m ≡ (done, m')
      → Reached m' (entry_of destination a amount t ∷ entry_of source a (pos 0 -ℤ amount) t ∷ log)

-- Where two actions in a row do not throw, neither does the first, and the second goes on from it.
both_done :
    (f g : Action) (m m' : Model)
    → (f >> g) m ≡ (done, m')
    → (n : Model) × (f m ≡ (done, n)) × (g n ≡ (done, m'))
both_done f g m m' e = of (f m).0 (f m).1 refl e
  where
    of :
        (r : Outcome) (n : Model)
        → f m ≡ (r, n)
        → (elim r as (λ _. Outcome × Model) [ done ↦ g n | thrown x ↦ (thrown x, n) ]) ≡ (done, m')
        → (n' : Model) × (f m ≡ (done, n')) × (g n' ≡ (done, m'))
    of done n q h = (n, q, h)
    of (thrown x) n q h = absurd (ground (arith, h))

write-some : (cs cs' : List Checkpoint) (nb t : ℤ) → write cs nb t ≡ some cs' → Until cs t
unfolding write write_after
write-some cs cs' nb t e p newest = of (last cs) newest e
  where
    of : (o : Option Checkpoint) → o ≡ some p → write_after o cs nb t ≡ some cs' → p.timestamp ≤ℤ t
    of none q h = absurd (ground arith)
    of (some c) q h = ground arith

module _ (m m' : Model) (v : VaultId) (a : Text) (delta t : ℤ) where
  user_done :
      change_user v a delta t m ≡ (done, m')
      → (pos 0 ≤ℤ balance m v a +ℤ delta) × (m'.vault_totals ≡ m.vault_totals)
  unfolding change_user balance
  user_done e = (
    ground (arith, e),
    of (write (user_checkpoints m v a) (balance m v a +ℤ delta) t) (ground (arith, e)),
  )
    where
      of :
          (o : Option (List Checkpoint))
          → (elim o as (λ _. Outcome × Model) [
            | none ↦ (thrown actions_must_be_chronological, m)
            | some cs ↦ (done, record m { checkpoints = set m.checkpoints (key v a) cs })
          ])
            ≡ (done, m')
          → m'.vault_totals ≡ m.vault_totals
      of none h = absurd (ground (arith, h))
      of (some cs) h = ap (λ r. r.1.vault_totals) (sym h)

  total_done :
      change_total v delta t m ≡ (done, m')
      → (pos 0 ≤ℤ total_balance m v +ℤ delta) × Until (total_at m (vault_number v)) t
  unfolding change_total total_balance total_at total_checkpoints
  total_done e = (
    ground (arith, e),
    of (write (total_at m (vault_number v)) (total_balance m v +ℤ delta) t) refl
        (ground (arith, e)),
  )
    where
      of :
          (o : Option (List Checkpoint))
          → write (total_at m (vault_number v)) (total_balance m v +ℤ delta) t ≡ o
          → (elim o as (λ _. Outcome × Model) [
            | none ↦ (thrown actions_must_be_chronological, m)
            | some cs ↦ (done, record m { vault_totals = set m.vault_totals (vault_number v) cs })
          ])
            ≡ (done, m')
          → Until (total_at m (vault_number v)) t
      of none q h = absurd (ground (arith, h))
      of (some cs) q h = write-some (total_at m (vault_number v)) cs _ t q

module _ (m m' : Model) (v : VaultId) (a : Text) (delta t : ℤ) where
  -- A change that does not throw was in order and left no balance below zero.
  change-done :
      change v a delta t m ≡ (done, m')
      → (pos 0 ≤ℤ balance m v a +ℤ delta)
        × (pos 0 ≤ℤ total_balance m v +ℤ delta)
        × Until (total_at m (vault_number v)) t
  unfolding change total_balance total_at total_checkpoints
  change-done e =
      let (n, first, second) =
        both_done (change_user v a delta t) (change_total v delta t) m m' e in
      let (p, same) = user_done m n v a delta t first in
      let (q, until) =
        subst
          (λ totals.
            let cs = or_empty (get totals (vault_number v)) in
            (pos 0 ≤ℤ balance_of (last cs) +ℤ delta) × Until cs t)
          same (total_done n m' v a delta t second) in
      (p, q, until)

  changed-Faithful :
      (log : List Entry)
      → Faithful m log
      → change v a delta t m ≡ (done, m')
      → Faithful m' (entry_of v a delta t ∷ log)
  changed-Faithful log h e =
      let (p, q, until) = change-done e in
      let (n, e', f) = change-Faithful m log v a delta t h until p q in
      subst (λ x. Faithful x (entry_of v a delta t ∷ log)) (ap (λ r. r.1) (sym e' ∙ e)) f

deposit-done :
    (m m' : Model) (v : VaultId) (a : Text) (amount t : ℤ)
    → deposit v a amount t m ≡ (done, m')
    → change v a amount t m ≡ (done, m')
unfolding deposit
deposit-done m m' v a amount t e = ground (arith, e)

withdraw-done :
    (m m' : Model) (v : VaultId) (a : Text) (amount t : ℤ)
    → withdraw v a amount t m ≡ (done, m')
    → change v a (pos 0 -ℤ amount) t m ≡ (done, m')
unfolding withdraw
withdraw-done m m' v a amount t e = ground (arith, e)

move-done :
    (m m' : Model) (source destination : VaultId) (a : Text) (amount t : ℤ)
    → move source destination a amount t m ≡ (done, m')
    → (n : Model) × (withdraw source a amount t m ≡ (done, n))
      × (deposit destination a amount t n ≡ (done, m'))
unfolding move
move-done m m' source destination a amount t e =
    both_done (withdraw source a amount t) (deposit destination a amount t) m m' (ground (arith, e))

-- A model that such calls lead to is the exact record of their log.
pub Reached-Faithful : {m : Model} {log : List Entry} → Reached m log → Faithful m log
Reached-Faithful opened = new-Faithful
Reached-Faithful (deposited {m} {m'} {log} r v a amount t e) =
    changed-Faithful m m' v a amount t log (Reached-Faithful r) (deposit-done m m' v a amount t e)
Reached-Faithful (withdrawn {m} {m'} {log} r v a amount t e) =
    changed-Faithful m m' v a (pos 0 -ℤ amount) t log (Reached-Faithful r)
      (withdraw-done m m' v a amount t e)
Reached-Faithful (moved {m} {m'} {log} r source destination a amount t e) =
    let (n, first, second) = move-done m m' source destination a amount t e in
    changed-Faithful n m' destination a amount t (entry_of source a (pos 0 -ℤ amount) t ∷ log)
      (changed-Faithful m n source a (pos 0 -ℤ amount) t log (Reached-Faithful r)
        (withdraw-done m n source a amount t first))
      (deposit-done n m' destination a amount t second)

module _ (m : Model) (log : List Entry) (r : Reached m log) (v : VaultId) where
  -- After any deposits, withdrawals and moves of which none threw, an account's weight over an
  -- interval that does not close before it opens is the exact integral over it of the balance that
  -- the log of those calls gives the account, for every account, also one that has no checkpoints.
  pub weight_exact :
      (a : Text) (opens_at closes_at : ℤ)
      → opens_at ≤ℤ closes_at
      → weight m v a opens_at closes_at
        ≡ ok (
            integral (user_history (key v a) log) closes_at
            -ℤ integral (user_history (key v a) log) opens_at)
  weight_exact = weight_of_Faithful m log (Reached-Faithful r) v

  -- After any deposits, withdrawals and moves of which none threw, and over accounts to which each
  -- of the vault's balance changes belongs exactly once, the accounts' weights over an interval
  -- that does not close before it opens add up to the vault's aggregate weight.
  pub weights_add_up :
      (accounts : List Text) (opens_at closes_at : ℤ)
      → Covers v accounts log
      → opens_at ≤ℤ closes_at
      → sum_weights m v accounts opens_at closes_at ≡ aggregate_weight m v opens_at closes_at
  weights_add_up = weights_of_Faithful m log (Reached-Faithful r) v
