-- ===== src/Frontend/Withdrawal.antt =====
-- frontend/lib/leopold/withdrawal.ts: the preparation of a principal withdrawal. The reads of the
-- round and the transaction that advances it are the caller's; their answers are a `World`, with the
-- second read the one that follows the transaction. An exception keeps what it was thrown with.
use leopold.Prelude.{
  ◌≡◌, ◌↔◌, refl, ◌⊎◌, inl, inr, Bool, true, false, not, Option, List, [], ◌∷◌, arith,
  if◌then◌else◌,
}
use leopold.Prelude.Results.{Result, ok, err, Result-cases}
use leopold.Prelude.Search.{In}
use leopold.Prelude.Text.{Text}

pub record WithdrawalRoundSnapshot : Type 0 where
  pub can_withdraw_now : Bool
  pub can_prepare_withdrawal : Bool
  pub reason : Option Text

-- What the caller's three operations do. `advance_round` is asked for only once.
pub record World : Type 0 where
  pub first_read : Result Text WithdrawalRoundSnapshot
  pub advance_round : Result Text (Unit {0})
  pub second_read : Result Text WithdrawalRoundSnapshot

pub data WithdrawalError : Type 0 where
  round_check_failed : Text → WithdrawalError
  withdrawal_unavailable : Option Text → WithdrawalError
  advance_failed : Text → WithdrawalError
  refresh_failed : Text → WithdrawalError
  round_not_open : WithdrawalError

-- What the caller sees, in order: the stages and the calls.
pub data Event : Type 0 where
  withdraw_round_check : Event
  read_round : Event
  advance : Event
  withdraw_refresh : Event

abbrev pub Trace : Type 0
Trace = List Event × Result WithdrawalError WithdrawalRoundSnapshot

-- The `catch` after `advanceRound`: a fresh read shows whether another caller was first.
raced : Text → Result Text WithdrawalRoundSnapshot → Result WithdrawalError WithdrawalRoundSnapshot
raced e (err f) = err (advance_failed e)
raced e (ok round) = if round.can_withdraw_now then ok round else err (advance_failed e)

refreshed : Result Text WithdrawalRoundSnapshot → Result WithdrawalError WithdrawalRoundSnapshot
refreshed (err f) = err (refresh_failed f)
refreshed (ok round) = if round.can_withdraw_now then ok round else err round_not_open

after_advance : Result Text (Unit {0}) → Result Text WithdrawalRoundSnapshot → Trace
unfolding raced refreshed
after_advance (err e) read =
    (withdraw_round_check ∷ read_round ∷ advance ∷ read_round ∷ [], raced e read)
after_advance (ok u) read = (
  withdraw_round_check ∷ read_round ∷ advance ∷ withdraw_refresh ∷ read_round ∷ [],
  refreshed read,
)

after_check : World → Result Text WithdrawalRoundSnapshot → Trace
unfolding after_advance
after_check w (err e) = (withdraw_round_check ∷ read_round ∷ [], err (round_check_failed e))
after_check w (ok current) =
    if not current.can_prepare_withdrawal
    then (withdraw_round_check ∷ read_round ∷ [], err (withdrawal_unavailable current.reason))
    else if current.can_withdraw_now
    then (withdraw_round_check ∷ read_round ∷ [], ok current)
    else after_advance w.advance_round w.second_read

unfoldable pub prepare_withdrawal_round : World → Trace
unfolding after_check
prepare_withdrawal_round w = after_check w w.first_read

after_check_open :
    (w : World) (first : Result Text WithdrawalRoundSnapshot) (round : WithdrawalRoundSnapshot)
    → (after_check w first).1 ≡ ok round
    → (round.can_withdraw_now ≡ true) × ((first ≡ ok round) ⊎ (w.second_read ≡ ok round))
unfolding after_check after_advance raced refreshed
after_check_open w (err e) round q = absurd (ground arith)
after_check_open w (ok current) round q = elim (Result-cases w.advance_round) [
  | inl (e, h) ↦ elim (Result-cases w.second_read) [
    | inl (f, k) ↦ ground (arith, h, k)
    | inr (r, k) ↦ ground (arith, h, k)
  ]
  | inr (u, h) ↦ elim (Result-cases w.second_read) [
    | inl (f, k) ↦ ground (arith, h, k)
    | inr (r, k) ↦ ground (arith, h, k)
  ]
]

-- A round that the preparation returns is one that the caller read, and a withdrawal is possible in
-- it, whatever the reads and the transaction answered.
pub prepare_withdrawal_round_open :
    (w : World) (round : WithdrawalRoundSnapshot)
    → (prepare_withdrawal_round w).1 ≡ ok round
    → (round.can_withdraw_now ≡ true) × ((w.first_read ≡ ok round) ⊎ (w.second_read ≡ ok round))
unfolding prepare_withdrawal_round
prepare_withdrawal_round_open w round e = after_check_open w w.first_read round e

after_check_advances :
    (w : World) (first : Result Text WithdrawalRoundSnapshot)
    → In advance (after_check w first).0 ↔ (
        (current : WithdrawalRoundSnapshot) × (first ≡ ok current)
        × (current.can_prepare_withdrawal ≡ true)
        × (current.can_withdraw_now ≡ false))
unfolding after_check after_advance
after_check_advances w (err e) = (λ h. absurd (ground arith), λ h. absurd (ground arith))
after_check_advances w (ok current) = elim (Result-cases w.advance_round) [
  | inl (e, k) ↦
      (λ h. (current, refl, ground (arith, k), ground (arith, k)), λ h. ground (arith, k))
  | inr (u, k) ↦
      (λ h. (current, refl, ground (arith, k), ground (arith, k)), λ h. ground (arith, k))
]

-- The transaction that advances the round is asked for exactly when the first read shows that the
-- withdrawal can be prepared and is not possible yet.
pub prepare_withdrawal_round_advances :
    (w : World)
    → In advance (prepare_withdrawal_round w).0 ↔ (
        (current : WithdrawalRoundSnapshot) × (w.first_read ≡ ok current)
        × (current.can_prepare_withdrawal ≡ true)
        × (current.can_withdraw_now ≡ false))
unfolding prepare_withdrawal_round
prepare_withdrawal_round_advances w = after_check_advances w w.first_read
