-- ===== src/Tests/Frontend.antt =====
-- Decisions of the web application (frontend/lib) on small inputs.
use leopold.Prelude.{◌≡◌, ◌≢◌, ◌↔◌, ◌⊎◌, refl, true, false, none}
use leopold.Prelude.Results.{ok, err}
use leopold.Prelude.Search.{In}
use leopold.Prelude.Text.{codes}
use leopold.Frontend.Withdrawal.{
  WithdrawalRoundSnapshot, World, advance, prepare_withdrawal_round, prepare_withdrawal_round_open,
  prepare_withdrawal_round_advances,
}
use leopold.Frontend.Recovery.{
  RecoveryInputs, signed_in_ready, metadata_present, connected, reason_connected,
  app_rpc_unavailable, integrity_ready, gate_application, gate_financial_metadata_error,
  derive_wallet_gate_mode, derive_leopold_recovery, IsSettled, derive_leopold_recovery_gate,
}

abbrev expired : WithdrawalRoundSnapshot
expired = record { can_withdraw_now = false; can_prepare_withdrawal = true; reason = none }

abbrev reopened : WithdrawalRoundSnapshot
reopened = record { can_withdraw_now = true; can_prepare_withdrawal = true; reason = none }

-- Another caller has advanced the round.
abbrev race : World
race = record {
  first_read = ok expired;
  advance_round = err (codes "reverted");
  second_read = ok reopened;
}

won : (prepare_withdrawal_round race).1 ≡ ok reopened
unfolding prepare_withdrawal_round
won = refl

prepare_withdrawal_round_open_example :
    (reopened.can_withdraw_now ≡ true)
    × ((race.first_read ≡ ok reopened) ⊎ (race.second_read ≡ ok reopened))
prepare_withdrawal_round_open_example = prepare_withdrawal_round_open race reopened won

prepare_withdrawal_round_advances_example : In advance (prepare_withdrawal_round race).0 ↔ (
    (current : WithdrawalRoundSnapshot) × (race.first_read ≡ ok current)
    × (current.can_prepare_withdrawal ≡ true)
    × (current.can_withdraw_now ≡ false))
prepare_withdrawal_round_advances_example = prepare_withdrawal_round_advances race

abbrev offline : RecoveryInputs
offline = record {
  account_status = signed_in_ready;
  financial_metadata_status = metadata_present;
  wallet_session_status = connected;
  wallet_session_reason = reason_connected;
  network_health = app_rpc_unavailable;
  can_confirm_financial_wallet = false;
  financial_wallet_integrity = integrity_ready;
}

derive_leopold_recovery_gate_example : ((derive_leopold_recovery offline).visible ≡ false) ↔ (
    (derive_wallet_gate_mode signed_in_ready metadata_present ≢ gate_application)
      × (derive_wallet_gate_mode signed_in_ready metadata_present ≢ gate_financial_metadata_error)
    ⊎ ((derive_wallet_gate_mode signed_in_ready metadata_present ≡ gate_application)
        × IsSettled offline))
derive_leopold_recovery_gate_example = derive_leopold_recovery_gate offline
