-- ===== src/Reference/Twab/Operations.antt =====
-- `deposit` and `withdraw` of `TwabReferenceModel` (reference/leopoldModels.ts).
use leopold.Prelude.{
  ◌≤◌, ◌≡◌, refl, ap, ◌∙◌, none, some, List, [], ◌∷◌, arith, Bool-cases, inl, inr,
}
use leopold.Prelude.Int.{ℤ, pos, ◌+ℤ◌, ◌-ℤ◌, ◌≤ℤ◌, ◌<ℤ◌, int_laws, parts_of_eq, +ℤ_parts}
use leopold.Prelude.Eq.{list_beq, nat_eq, get-set, set, list_eq, list_beq_iff}
use leopold.Prelude.Text.{Text}
use leopold.Reference.Twab.{
  VaultId, vault_number, Checkpoint, Model, done, thrown, actions_must_be_chronological, key, last,
  balance_of, balance, total_balance, user_checkpoints, total_checkpoints, write, change, deposit,
  withdraw,
}
use leopold.Reference.Twab.Writes.{Until, write-Extends}
use leopold.Reference.Twab.History.{net}
use leopold.Reference.Twab.Ledger.{
  Entry, user_history, total_history, user_at, total_at, Faithful, entry_of, change-Faithful,
}
use leopold.Reference.Twab.Conservation.{Covers, count_key, sum_users, sum_users-total}

write_early :
    (cs : List Checkpoint) (p : Checkpoint) (nb t : ℤ)
    → last cs ≡ some p
    → t <ℤ p.timestamp
    → write cs nb t ≡ none
unfolding write
write_early cs p nb t e early = rw e (ground arith)

user_at-set :
    (m : Model) (k : Text) (user : List Checkpoint)
    → user_at (record m { checkpoints = set m.checkpoints k user }) k ≡ user
unfolding user_at
user_at-set m k user = rw (get-set m.checkpoints k k user) (ground (arith, list_beq_iff k k))

module _ (m : Model) (log : List Entry) (h : Faithful m log) (v : VaultId) (a : Text) where
  balance-eq-net : balance m v a ≡ net (user_history (key v a) log)
  unfolding balance user_checkpoints user_at
  balance-eq-net = (h.users (key v a)).holds

  total_balance-eq-net : total_balance m v ≡ net (total_history (vault_number v) log)
  unfolding total_balance total_checkpoints total_at
  total_balance-eq-net = (h.totals (vault_number v)).holds

  sum_users_nonneg : (accounts : List Text) → pos 0 ≤ℤ sum_users (λ e. e.delta) v accounts log
  unfolding sum_users
  sum_users_nonneg [] = omega arith
  sum_users_nonneg (b ∷ accounts) = omega (int_laws, sum_users_nonneg accounts, h.solvent (key v b))

  user-le-sum_users :
      (accounts : List Text)
      → 1 ≤ count_key v (key v a) accounts
      → net (user_history (key v a) log) ≤ℤ sum_users (λ e. e.delta) v accounts log
  unfolding sum_users count_key
  user-le-sum_users [] c = absurd (omega arith)
  user-le-sum_users (b ∷ accounts) c = elim (Bool-cases (list_beq (key v a) (key v b))) [
    | inl here ↦
        rw (← (list_beq_iff (key v a) (key v b)).0 here)
          (omega (int_laws, sum_users_nonneg accounts))
    | inr later ↦ omega (int_laws, user-le-sum_users accounts (ground arith), h.solvent (key v b))
  ]

  module _ (amount t : ℤ) (positive : pos 0 <ℤ amount) where
    -- A deposit of a positive amount that is not earlier than the vault's last action succeeds,
    -- and the model is the exact record of the log with the deposit added.
    pub deposit-Faithful :
        Until (total_at m (vault_number v)) t
        → (m' : Model) × (deposit v a amount t m ≡ (done, m'))
          × Faithful m' (entry_of v a amount t ∷ log)
    unfolding deposit
    deposit-Faithful until =
        let (m', e, f) =
          change-Faithful m log v a amount t h until
            (omega (int_laws, parts_of_eq _ _ balance-eq-net, h.solvent (key v a)))
            (omega (int_laws, parts_of_eq _ _ total_balance-eq-net, h.funded (vault_number v))) in
        (m', ground (arith, e), f)

    -- A withdrawal of a positive amount within the account's balance that is not earlier than the
    -- vault's last action succeeds, the vault's total being large enough, and the model is the
    -- exact record of the log with the withdrawal added. Each entry of the vault belongs to one of
    -- the accounts, of which the withdrawer is one.
    pub withdraw-Faithful :
        (accounts : List Text)
        → Covers v accounts log
        → 1 ≤ count_key v (key v a) accounts
        → Until (total_at m (vault_number v)) t
        → amount ≤ℤ balance m v a
        → (m' : Model) × (withdraw v a amount t m ≡ (done, m'))
          × Faithful m' (entry_of v a (pos 0 -ℤ amount) t ∷ log)
    unfolding withdraw
    withdraw-Faithful accounts covers known until le =
        let (m', e, f) = change-Faithful m log v a (pos 0 -ℤ amount) t h until (omega int_laws) (
          omega (
            int_laws,
            parts_of_eq _ _ balance-eq-net,
            parts_of_eq _ _ total_balance-eq-net,
            user-le-sum_users accounts known,
            parts_of_eq _ _ (sum_users-total (λ b. b.delta) v accounts log covers),
          )) in
        (m', ground (arith, e), f)

    -- A positive deposit that is not earlier than the account's last action, and earlier than the
    -- vault's, throws after its first half: the account's balance has grown and the vault's total
    -- has not.
    pub deposit_half_written :
        (p : Checkpoint)
        → Until (user_at m (key v a)) t
        → last (total_at m (vault_number v)) ≡ some p
        → t <ℤ p.timestamp
        → (m' : Model) × (deposit v a amount t m ≡ (thrown actions_must_be_chronological, m'))
          × (balance m' v a ≡ balance m v a +ℤ amount)
          × (total_balance m' v ≡ total_balance m v)
    unfolding deposit change balance total_balance user_at total_at
    deposit_half_written p until newest early =
        let (user, e, x) =
          write-Extends (user_at m (key v a)) (balance m v a +ℤ amount) t
            (h.users (key v a)).ordered until in
        (
          record m { checkpoints = set m.checkpoints (key v a) user },
          ground (
            arith,
            e,
            write_early (total_at m (vault_number v)) p (total_balance m v +ℤ amount) t newest
                early,
            parts_of_eq _ _ balance-eq-net,
            h.solvent (key v a),
            +ℤ_parts (balance m v a) amount,
            parts_of_eq _ _ total_balance-eq-net,
            h.funded (vault_number v),
            +ℤ_parts (total_balance m v) amount,
          ),
          ap balance_of (ap last (user_at-set m (key v a) user) ∙ x.newest),
          refl,
        )
