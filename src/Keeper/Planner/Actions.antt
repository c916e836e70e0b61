-- ===== src/Keeper/Planner/Actions.antt =====
-- keeper/src/planner.ts: the actions that a round may need, and their keys.
use leopold.Prelude.{ℕ, Bool, true, false, Option, none, some, ◌∷◌, ◌++◌, ◌==◌}
use leopold.Prelude.Eq.{nat_eq}
use leopold.Prelude.Search.{find}
use leopold.Prelude.Text.{Text, codes, to_lower_case, decimal}
use leopold.Keeper.Lifecycle.{
  RoundState, uninitialized, open_round, aggregate_pending, aggregate_finalized, empty,
  candidate_validity_pending, candidate_rejected, ticket_accepted, winner_processing,
  winnings_allocated, settled, reconciliation_pending, reconciliation_failed, ready_to_allocate,
  allocation_processing, RoundSnapshot, VaultSnapshot, LifecycleActionKind, register_auto_entry,
  prune_auto_entry, close_round, finalize_aggregate, settle_empty_round, generate_random_candidate,
  finalize_candidate_validity, process_selection, finalize_reconciliation,
  recover_failed_reconciliation, process_allocation, finalize_settlement, LifecycleAction,
}

abbrev pub is_open : RoundState → Bool
is_open open_round = true
is_open s = false

abbrev pub is_settled : RoundState → Bool
is_settled settled = true
is_settled s = false

unfoldable pub find_round : VaultSnapshot → ℕ → Option RoundSnapshot
find_round vault round_id = find (λ r. r.round_id == round_id) vault.rounds

-- The kind's string.
abbrev pub kind_text : LifecycleActionKind → Text
kind_text register_auto_entry = codes "register-auto-entry"
kind_text prune_auto_entry = codes "prune-auto-entry"
kind_text close_round = codes "close-round"
kind_text finalize_aggregate = codes "finalize-aggregate"
kind_text settle_empty_round = codes "settle-empty-round"
kind_text generate_random_candidate = codes "generate-random-candidate"
kind_text finalize_candidate_validity = codes "finalize-candidate-validity"
kind_text process_selection = codes "process-selection"
kind_text finalize_reconciliation = codes "finalize-reconciliation"
kind_text recover_failed_reconciliation = codes "recover-failed-reconciliation"
kind_text process_allocation = codes "process-allocation"
kind_text finalize_settlement = codes "finalize-settlement"

-- `${address.toLowerCase()}:${roundId}:${kind}:${version}`
unfoldable pub action_key : Text → ℕ → LifecycleActionKind → Text → Text
action_key address round_id kind version =
    to_lower_case address
    ++ (b':' ∷ (decimal round_id ++ (b':' ∷ (kind_text kind ++ (b':' ∷ version)))))

unfoldable pub create_action :
    VaultSnapshot
    → RoundSnapshot
    → LifecycleActionKind
    → Text
    → Option ℕ
    → Option Text
    → LifecycleAction
create_action vault round kind version cursor account = record {
  key = action_key vault.vault.address round.round_id kind version;
  kind = kind;
  vault = vault.vault;
  round_id = round.round_id;
  cursor = cursor;
  account = account;
}

-- `??` on a string.
abbrev text_or : Option Text → Text → Text
text_or none d = d
text_or (some t) d = t

action_for_state : RoundState → VaultSnapshot → RoundSnapshot → Option LifecycleAction
action_for_state aggregate_pending v r =
    some (create_action v r finalize_aggregate (codes "phase") none none)
action_for_state aggregate_finalized v r =
    some (create_action v r generate_random_candidate (codes "initial") none none)
action_for_state empty v r = some (create_action v r settle_empty_round (codes "phase") none none)
action_for_state candidate_validity_pending v r = some (
    create_action v r finalize_candidate_validity
      (text_or r.candidate_validity_handle (codes "pending-handle")) none none)
action_for_state candidate_rejected v r = some (
    create_action v r generate_random_candidate
      (text_or r.candidate_validity_handle (codes "rejected-handle")) none none)
action_for_state ticket_accepted v r = some (
    create_action v r process_selection (decimal r.selection_cursor) (some r.selection_cursor) none)
action_for_state winner_processing v r = some (
    create_action v r process_selection (decimal r.selection_cursor) (some r.selection_cursor) none)
action_for_state reconciliation_pending v r =
    some (create_action v r finalize_reconciliation (codes "phase") none none)
action_for_state reconciliation_failed v r =
    some (create_action v r recover_failed_reconciliation (codes "phase") none none)
action_for_state ready_to_allocate v r = some (
    create_action v r process_allocation (decimal r.allocation_cursor) (some r.allocation_cursor)
      none)
action_for_state allocation_processing v r = some (
    create_action v r process_allocation (decimal r.allocation_cursor) (some r.allocation_cursor)
      none)
action_for_state winnings_allocated v r =
    some (create_action v r finalize_settlement (codes "phase") none none)
action_for_state uninitialized v r = none
action_for_state open_round v r = none
action_for_state settled v r = none

unfoldable pub action_for_round : VaultSnapshot → RoundSnapshot → Option LifecycleAction
unfolding action_for_state
action_for_round v r = action_for_state r.state v r
