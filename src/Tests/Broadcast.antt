-- ===== src/Tests/Broadcast.antt =====
-- A run of the keeper (keeper/src/engine.ts) from an empty journal.
use leopold.Prelude.{ℕ, ◌≡◌, refl, [], ◌∷◌}
use leopold.Prelude.Results.{ok}
use leopold.Prelude.Lists.{length}
use leopold.Tests.Run.{gateway, options}
use leopold.Tests.Planner.{at, daily, daily_vault, round_7}
use leopold.Prelude.{none}
use leopold.Prelude.Text.{codes}
use leopold.Keeper.Gateway.{KeeperGateway}
use leopold.Keeper.Lifecycle.{VaultSnapshot, LifecycleAction, close_round}
use leopold.Keeper.Journal.{unknown}
use leopold.Keeper.Run.{
  safe_error_code, pure, raise, gets, attempt, call, ◌>>=◌, raise_if, guard_balance, put_entry,
  EngineState, blocked,
}
use leopold.Keeper.Run.Steps.{
  last_attempt, preflight, nonces, observe_transaction, observe, reconcile, reconcile_all,
  reconcile_journal, pause, wait_until, wait_and_reconcile, give_up, record_submitted, send, submit,
  prepare_data, unprepared, act_after, run_once, poll,
}
use leopold.Keeper.Gateway.{read_hint}
use leopold.Keeper.Engine.{
  is_unresolved, update_entry, action_of, action_from_entry, required_action, is_entry_required,
  is_closed, is_fresh, is_confirmed, final_receipt, dropped_entry, without_receipt, by_receipt,
  reconcile_entry, after_entry, reconcile_entries, reconcile_outstanding,
}
use leopold.Keeper.Journal.{
  status_number, is_hex_digit, are_hex_digits, is_hex, is_present, is_valid_transition,
  are_valid_transitions, last_transition, same_bool, is_latest, attempt_id_of, is_valid_identity,
  is_valid_entry, same_transition, is_prefix, same_identity, assert_append_only_update,
  check_previous, put, journal_entry_for_prepared,
}
use leopold.Keeper.Balance.{assert_keeper_balance_within_limits, assert_keeper_balance_within_limit}
use leopold.Keeper.Planner.{
  close_active, due_closure, closes_before, filter_map, due_closures, prune, register, enter_active,
  entry_action, unfinished, unfinished_action, by_id, after_entries, after_closures,
  plan_next_action,
}
use leopold.Keeper.Planner.Actions.{find_round, action_key, create_action, action_for_round}
use leopold.Keeper.Planner.Required.{
  same_address, find_vault, find_candidate, can_register, can_prune, required_in,
  is_action_required,
}
use leopold.Prelude.Eq.{list_beq, option_beq, get, set}
use leopold.Prelude.Search.{find, keep, first_some, insert, sort_by}
use leopold.Prelude.Text.{lower_char, to_lower_case, decimal, has_code, trim}
use leopold.Prelude.Int.{◌+ℤ◌, ◌-ℤ◌, ◌*ℤ◌, ◌/ℤ◌, ◌%ℤ◌}

abbrev vault : VaultSnapshot
vault = record daily_vault {
  vault = record daily { address = codes "0x00112233445566778899aabbccddeeff00112233" };
}

abbrev chain : KeeperGateway ℕ
chain = record gateway { read_snapshot = λ h w. (ok (record (at 200) { vaults = vault ∷ [] }), w) }

abbrev closing : LifecycleAction
closing = create_action vault round_7 close_round (decimal 100) none none

abbrev fresh : EngineState ℕ
fresh = record { world = 500; journal = []; broadcasts = [] }

one_broadcast : length (run_once chain options fresh).1.broadcasts ≡ 1
unfolding safe_error_code pure raise gets attempt call ◌>>=◌ raise_if guard_balance put_entry
    last_attempt preflight nonces observe_transaction observe reconcile reconcile_all
    reconcile_journal pause wait_until wait_and_reconcile give_up record_submitted send submit
    prepare_data unprepared act_after run_once poll read_hint is_unresolved update_entry action_of
    action_from_entry required_action is_entry_required is_closed is_fresh is_confirmed
    final_receipt dropped_entry without_receipt by_receipt reconcile_entry after_entry
    reconcile_entries reconcile_outstanding status_number is_hex_digit are_hex_digits is_hex
    is_present is_valid_transition are_valid_transitions last_transition same_bool is_latest
    attempt_id_of is_valid_identity is_valid_entry same_transition is_prefix same_identity
    assert_append_only_update check_previous put journal_entry_for_prepared
    assert_keeper_balance_within_limits assert_keeper_balance_within_limit close_active due_closure
    closes_before filter_map due_closures prune register enter_active entry_action unfinished
    unfinished_action by_id after_entries after_closures plan_next_action find_round action_key
    create_action action_for_round same_address find_vault find_candidate can_register can_prune
    required_in is_action_required list_beq option_beq get set find keep first_some insert sort_by
    lower_char to_lower_case decimal has_code trim ◌+ℤ◌ ◌-ℤ◌ ◌*ℤ◌ ◌/ℤ◌ ◌%ℤ◌
one_broadcast = refl

outcome_is_unknown : (run_once chain options fresh).0 ≡ ok (blocked closing.key unknown)
unfolding safe_error_code pure raise gets attempt call ◌>>=◌ raise_if guard_balance put_entry
    last_attempt preflight nonces observe_transaction observe reconcile reconcile_all
    reconcile_journal pause wait_until wait_and_reconcile give_up record_submitted send submit
    prepare_data unprepared act_after run_once poll read_hint is_unresolved update_entry action_of
    action_from_entry required_action is_entry_required is_closed is_fresh is_confirmed
    final_receipt dropped_entry without_receipt by_receipt reconcile_entry after_entry
    reconcile_entries reconcile_outstanding status_number is_hex_digit are_hex_digits is_hex
    is_present is_valid_transition are_valid_transitions last_transition same_bool is_latest
    attempt_id_of is_valid_identity is_valid_entry same_transition is_prefix same_identity
    assert_append_only_update check_previous put journal_entry_for_prepared
    assert_keeper_balance_within_limits assert_keeper_balance_within_limit close_active due_closure
    closes_before filter_map due_closures prune register enter_active entry_action unfinished
    unfinished_action by_id after_entries after_closures plan_next_action find_round action_key
    create_action action_for_round same_address find_vault find_candidate can_register can_prune
    required_in is_action_required list_beq option_beq get set find keep first_some insert sort_by
    lower_char to_lower_case decimal has_code trim ◌+ℤ◌ ◌-ℤ◌ ◌*ℤ◌ ◌/ℤ◌ ◌%ℤ◌
outcome_is_unknown = refl
