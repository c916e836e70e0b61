-- ===== src/Tests/Keeper.antt =====
-- The keeper's gas policy, balance guard, journal and engine (keeper/src) on small inputs.
use leopold.Prelude.{◌≡◌, ◌↔◌, refl, true, false, none, some, [], ◌∷◌, arith}
use leopold.Prelude.Int.{pos, ◌+ℤ◌, ◌*ℤ◌, ◌/ℤ◌, ◌≤ℤ◌, ◌<ℤ◌}
use leopold.Prelude.Eq.{get, set, list_beq, nat_eq, list_eq}
use leopold.Prelude.Search.{find}
use leopold.Prelude.Results.{ok}
use leopold.Prelude.Text.{Text, codes, to_lower_case, lower_char}
use leopold.Keeper.Lifecycle.{close_round}
use leopold.Keeper.Balance.{
  assert_keeper_balance_within_limits, assert_keeper_balance_within_limits_iff,
}
use leopold.Keeper.GasPolicy.{
  GasPolicyDecision, default_gas_floors, default_gas_policy, ceil_multiply, is_invalid_floor,
  are_missing, is_invalid_estimate, value_or, with_margin, chosen_limit, apply_gas_policy,
}
use leopold.Keeper.GasPolicy.Bounds.{IsCovered, apply_gas_policy-IsCovered}
use leopold.Keeper.Planner.Required.{find_vault}
use leopold.Keeper.Journal.{
  prepared, reconciled, JournalEntry, JournalStore, is_hex_digit, are_hex_digits, is_hex,
  is_present, same_bool, is_latest, status_number, is_valid_transition, are_valid_transitions,
  last_transition, attempt_id_of, is_valid_identity, is_valid_entry, put,
}
use leopold.Keeper.Journal.AppendOnly.{Continues, put-Continues}
use leopold.Keeper.Engine.{
  update_entry, from_receipt, TransactionReceipt, Observation, EngineOptions, is_closed, action_of,
  action_from_entry, required_action, is_entry_required, by_receipt, final_receipt, reconcile_entry,
}
use leopold.Keeper.Engine.Resolution.{Justified, reconcile_entry-Justified}
use leopold.Keeper.Engine.Accepted.{reconcile_entry_accepted}

assert_keeper_balance_within_limits_iff_example :
    assert_keeper_balance_within_limits (pos 5) (pos 1) (pos 9) ≡ ok tt
    ↔ ((pos 0 ≤ℤ pos 1 × pos 0 <ℤ pos 9) × (pos 1 ≤ℤ pos 5 × pos 5 ≤ℤ pos 9))
assert_keeper_balance_within_limits_iff_example =
    assert_keeper_balance_within_limits_iff (pos 5) (pos 1) (pos 9)

abbrev closing_gas : GasPolicyDecision
closing_gas = record {
  action = close_round;
  estimated_gas = some (pos 800_000);
  gas_floor = some (pos 750_000);
  multiplier_bps = pos 12_500;
  additive_margin = pos 25_000;
  gas_limit = pos 1_025_000;
  estimation_fallback = false;
}

closing_gas_decided :
    apply_gas_policy close_round (some (pos 800_000)) default_gas_policy false ≡ ok closing_gas
unfolding apply_gas_policy chosen_limit with_margin value_or is_invalid_estimate are_missing
    is_invalid_floor ceil_multiply default_gas_floors ◌+ℤ◌ ◌*ℤ◌ ◌/ℤ◌
closing_gas_decided = refl

apply_gas_policy-IsCovered_example :
    IsCovered default_gas_policy close_round (some (pos 800_000)) closing_gas
apply_gas_policy-IsCovered_example =
    apply_gas_policy-IsCovered close_round (some (pos 800_000)) default_gas_policy false closing_gas
      closing_gas_decided

abbrev pub hash : Text
hash = codes "0x00112233445566778899aabbccddeeff00112233445566778899aabbccddeeff"

abbrev pub closing : JournalEntry
closing = record {
  attempt_id = codes "k:0x00112233445566778899aabbccddeeff00112233445566778899aabbccddeeff";
  replay_of_attempt_id = none;
  action_key = codes "k";
  vault = codes "0x00112233445566778899aabbccddeeff00112233";
  vault_name = codes "daily";
  round_id = 7;
  action = close_round;
  cursor = none;
  account = none;
  tx_hash = hash;
  calldata_hash = hash;
  nonce = 3;
  submitted_at = 100;
  updated_at = 100;
  status = prepared;
  block_number = none;
  block_hash = none;
  confirmations = none;
  error_code = none;
  history =
      record {
        status = prepared;
        at = 100;
        block_number = none;
        block_hash = none;
        confirmations = none;
        error_code = none;
      }
      ∷ [];
}

abbrev receipt : TransactionReceipt
receipt = record { status = some 1; block_number = 40; block_hash = hash; confirmations = 3 }

abbrev options : EngineOptions
options = record { confirmations = 2; receipt_wait_ms = 1_000 }

-- The vault's round has been closed.
abbrev observation : Observation
observation = record {
  receipt = some receipt;
  snapshot = record {
    chain_id = 11_155_111;
    block_number = 1;
    block_hash = hash;
    block_timestamp = 200;
    vaults = [];
  };
  now = 500;
  transaction_found = true;
  checked_at = 500;
  latest_nonce = 4;
  pending_nonce = 4;
}

abbrev pub closed : JournalEntry
closed = update_entry closing reconciled 500 (from_receipt receipt none)

abbrev pub store : JournalStore
store = (closing.attempt_id, closing) ∷ []

found_closing : get store closing.attempt_id ≡ some closing
unfolding get list_beq
found_closing = refl

pub valid_closing : is_valid_entry closing ≡ true
unfolding is_valid_entry is_valid_identity is_latest same_bool is_present is_hex are_hex_digits
    is_hex_digit are_valid_transitions is_valid_transition last_transition status_number
    attempt_id_of list_beq to_lower_case lower_char
valid_closing = refl

valid_receipt : is_hex 64 receipt.block_hash ≡ true
unfolding is_hex are_hex_digits is_hex_digit
valid_receipt = refl

reconciles : reconcile_entry options observation closing ≡ some closed
unfolding reconcile_entry is_closed is_entry_required action_from_entry action_of required_action
    find_vault find by_receipt final_receipt
reconciles = refl

reconcile_entry-Justified_example : Justified options observation closing closed.status
reconcile_entry-Justified_example =
    reconcile_entry-Justified options observation closing closed reconciles

reconcile_entry_accepted_example : put store closed ≡ ok (set store closing.attempt_id closed)
reconcile_entry_accepted_example =
    reconcile_entry_accepted store closing valid_closing found_closing options observation closed
      (λ r e. ground (arith, valid_receipt)) reconciles

found_closed : get store closed.attempt_id ≡ some closing
unfolding update_entry
found_closed = found_closing

put-Continues_example : Continues closing closed
put-Continues_example =
    put-Continues store closed closing (set store closing.attempt_id closed)
      (reconcile_entry_accepted store closing valid_closing found_closing options observation closed
        (λ r e. ground (arith, valid_receipt)) reconciles)
      found_closed
