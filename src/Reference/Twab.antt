-- ===== src/Reference/Twab.antt =====
-- `TwabReferenceModel` of reference/leopoldModels.ts: balances over time as checkpoint lists, one
-- for each vault and account and one for each vault's total.
pub mod Interpolate
pub mod Search
pub mod Writes
pub mod History
pub mod Ledger
pub mod Conservation
pub mod Operations
pub mod Runs
use leopold.Prelude.{
  ℕ, zero, suc, ◌+◌, ◌-◌, ◌/◌, Bool, true, false, ◌||◌, Option, none, some, List, [], ◌∷◌, ◌++◌,
  ltb, if◌then◌else◌,
}
use leopold.Prelude.Int.{ℤ, pos, ◌+ℤ◌, ◌-ℤ◌, ◌*ℤ◌, ltb_ℤ, leb_ℤ, eqb_ℤ}
use leopold.Prelude.Eq.{get, set, list_eq, nat_eq}
use leopold.Prelude.Lists.{length, get_elem?}
use leopold.Prelude.Text.{Text, to_lower_case}

-- `1 | 2 | 3 | 4`
pub data VaultId : Type 0 where
  vault_1 vault_2 vault_3 vault_4 : VaultId

abbrev pub vault_number : VaultId → ℕ
vault_number vault_1 = 1
vault_number vault_2 = 2
vault_number vault_3 = 3
vault_number vault_4 = 4

pub record BalanceAction : Type 0 where
  pub timestamp : ℤ
  pub delta : ℤ

pub record Checkpoint : Type 0 where
  pub timestamp : ℤ
  pub balance : ℤ
  pub cumulative : ℤ

pub data TwabError : Type 0 where
  deposit_must_be_positive : TwabError
  invalid_withdrawal : TwabError
  vault_move_must_cross_vaults : TwabError
  invalid_interval : TwabError
  negative_balance : TwabError
  negative_aggregate : TwabError
  actions_must_be_chronological : TwabError

pub record Model : Type 0 where
  pub checkpoints : List (Text × List Checkpoint)
  pub vault_totals : List (ℕ × List Checkpoint)

abbrev pub new : Model
new = record { checkpoints = []; vault_totals = [] }

-- The state comes back after an exception too, since what was written stays written.
pub data Outcome : Type 0 where
  done : Outcome
  thrown : TwabError → Outcome

abbrev pub Action : Type 0
Action = Model → Outcome × Model

infixl 5 ◌>>◌
abbrev pub ◌>>◌ : Action → Action → Action
◌>>◌ m k s = let (r, s') = m s in elim r [ done ↦ k s' | thrown e ↦ (thrown e, s') ]

abbrev pub throw_if : (Model → Bool) → TwabError → Action
throw_if test e s = (if test s then thrown e else done, s)

-- `${vaultId}:${account.toLowerCase()}`; a vault's number has one digit.
unfoldable pub key : VaultId → Text → Text
key vault_id account = (b'0' + vault_number vault_id) ∷ b':' ∷ to_lower_case account

unfoldable pub last : List Checkpoint → Option Checkpoint
last [] = none
last (c ∷ []) = some c
last (c ∷ d ∷ cs) = last (d ∷ cs)

-- A map's value, where a missing key counts as no checkpoints.
abbrev pub or_empty : Option (List Checkpoint) → List Checkpoint
or_empty none = []
or_empty (some cs) = cs

abbrev pub balance_of : Option Checkpoint → ℤ
balance_of none = pos 0
balance_of (some c) = c.balance

unfoldable pub user_checkpoints : Model → VaultId → Text → List Checkpoint
user_checkpoints m v a = or_empty (get m.checkpoints (key v a))

unfoldable pub total_checkpoints : Model → VaultId → List Checkpoint
total_checkpoints m v = or_empty (get m.vault_totals (vault_number v))

unfoldable pub balance : Model → VaultId → Text → ℤ
unfolding user_checkpoints
balance m v a = balance_of (last (user_checkpoints m v a))

pub total_balance : Model → VaultId → ℤ
unfolding total_checkpoints
total_balance m v = balance_of (last (total_checkpoints m v))

-- The in-place update of the last checkpoint, which keeps its timestamp.
unfoldable pub set_last : List Checkpoint → ℤ → ℤ → List Checkpoint
set_last [] new_balance cumulative = []
set_last (c ∷ []) new_balance cumulative =
    record c { balance = new_balance; cumulative = cumulative } ∷ []
set_last (c ∷ d ∷ cs) new_balance cumulative = c ∷ set_last (d ∷ cs) new_balance cumulative

unfoldable pub write_after : Option Checkpoint → List Checkpoint → ℤ → ℤ → Option (List Checkpoint)
write_after none cs new_balance timestamp =
    some (cs ++ record { timestamp = timestamp; balance = new_balance; cumulative = pos 0 } ∷ [])
write_after (some previous) cs new_balance timestamp =
    if ltb_ℤ timestamp previous.timestamp
    then none
    else (let cumulative =
          previous.cumulative +ℤ previous.balance *ℤ (timestamp -ℤ previous.timestamp) in
        if eqb_ℤ previous.timestamp timestamp
        then some (set_last cs new_balance cumulative)
        else some (
            cs
            ++ record { timestamp = timestamp; balance = new_balance; cumulative = cumulative }
              ∷ []))

-- `none` is the exception "actions must be chronological", thrown before the list changes.
unfoldable pub write : List Checkpoint → ℤ → ℤ → Option (List Checkpoint)
unfolding write_after
write cs new_balance timestamp = write_after (last cs) cs new_balance timestamp

-- The first half of `change`, on the account, and the second, on the vault's total.
unfoldable pub change_user : VaultId → Text → ℤ → ℤ → Action
unfolding user_checkpoints
change_user v a delta timestamp m =
    let user = user_checkpoints m v a in
    let user_balance = balance_of (last user) in
    if ltb_ℤ (user_balance +ℤ delta) (pos 0)
    then (thrown negative_balance, m)
    else elim (write user (user_balance +ℤ delta) timestamp) [
      | none ↦ (thrown actions_must_be_chronological, m)
      | some user' ↦ (done, record m { checkpoints = set m.checkpoints (key v a) user' })
    ]

unfoldable pub change_total : VaultId → ℤ → ℤ → Action
unfolding total_checkpoints
change_total v delta timestamp m =
    let total = total_checkpoints m v in
    let total_balance = balance_of (last total) in
    if ltb_ℤ (total_balance +ℤ delta) (pos 0)
    then (thrown negative_aggregate, m)
    else elim (write total (total_balance +ℤ delta) timestamp) [
      | none ↦ (thrown actions_must_be_chronological, m)
      | some total' ↦ (done, record m { vault_totals = set m.vault_totals (vault_number v) total' })
    ]

unfoldable pub change : VaultId → Text → ℤ → ℤ → Action
unfolding change_user change_total
change v a delta timestamp = change_user v a delta timestamp >> change_total v delta timestamp

unfoldable pub deposit : VaultId → Text → ℤ → ℤ → Action
deposit v a amount timestamp =
    throw_if (λ m. leb_ℤ amount (pos 0)) deposit_must_be_positive >> change v a amount timestamp

pub withdraw : VaultId → Text → ℤ → ℤ → Action
withdraw v a amount timestamp =
    throw_if (λ m. leb_ℤ amount (pos 0) || ltb_ℤ (balance m v a) amount) invalid_withdrawal
    >> change v a (pos 0 -ℤ amount) timestamp

pub move : VaultId → VaultId → Text → ℤ → ℤ → Action
move source destination a amount timestamp =
    throw_if (λ m. nat_eq.beq (vault_number source) (vault_number destination))
      vault_move_must_cross_vaults
    >> withdraw source a amount timestamp
    >> deposit destination a amount timestamp
