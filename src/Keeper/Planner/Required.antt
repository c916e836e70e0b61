-- ===== src/Keeper/Planner/Required.antt =====
-- keeper/src/planner.ts: `isActionRequired`, whether the snapshot still calls for an action.
use leopold.Prelude.{ℕ, Bool, true, false, ◌&&◌, not, Option, none, some, ◌==◌, ltb, leb}
use leopold.Prelude.Eq.{list_beq, nat_eq}
use leopold.Prelude.Search.{find}
use leopold.Prelude.Text.{Text, to_lower_case}
use leopold.Keeper.Lifecycle.{
  RoundState, aggregate_pending, aggregate_finalized, empty, candidate_validity_pending,
  candidate_rejected, ticket_accepted, winner_processing, winnings_allocated,
  reconciliation_pending, reconciliation_failed, ready_to_allocate, allocation_processing,
  RoundSnapshot, AutoEntryCandidate, VaultSnapshot, ProtocolSnapshot, LifecycleActionKind,
  register_auto_entry, prune_auto_entry, close_round, finalize_aggregate, settle_empty_round,
  generate_random_candidate, finalize_candidate_validity, process_selection,
  finalize_reconciliation, recover_failed_reconciliation, process_allocation, finalize_settlement,
  LifecycleAction,
}
use leopold.Keeper.Planner.Actions.{is_open, find_round}

-- `a.toLowerCase() === b.toLowerCase()`
unfoldable pub same_address : Text → Text → Bool
same_address a b = list_beq (to_lower_case a) (to_lower_case b)

-- `entry.account.toLowerCase() === action.account?.toLowerCase()`
abbrev pub same_account : Option Text → Text → Bool
same_account none a = false
same_account (some b) a = same_address a b

unfoldable pub find_vault : ProtocolSnapshot → Text → Option VaultSnapshot
find_vault s address = find (λ v. same_address v.vault.address address) s.vaults

unfoldable pub find_candidate : VaultSnapshot → Option Text → Option AutoEntryCandidate
find_candidate v account = find (λ e. same_account account e.account) v.auto_entry_candidates

-- `cursor === action.cursor`
abbrev pub is_cursor : Option ℕ → ℕ → Bool
is_cursor none c = false
is_cursor (some d) c = c == d

open_until : Option RoundSnapshot → ℕ → Bool
open_until none timestamp = false
open_until (some active) timestamp = is_open active.state && ltb timestamp active.closes_at

open_now : Option RoundSnapshot → Bool
open_now none = false
open_now (some active) = is_open active.state

unfoldable pub can_register : ℕ → Option AutoEntryCandidate → Bool
can_register bond_amount none = false
can_register bond_amount (some e) =
    e.enabled && (not e.registered && leb bond_amount e.available_credit)

unfoldable pub can_prune : Option AutoEntryCandidate → Bool
can_prune none = false
can_prune (some e) = not e.enabled && elim e.prospectively_enabled [ some p ↦ not p | none ↦ true ]

-- Which states call for an action of the kind, where that is all that is asked of the state.
abbrev pub in_phase : LifecycleActionKind → RoundState → Bool
in_phase close_round RoundState.open_round = true
in_phase finalize_aggregate aggregate_pending = true
in_phase settle_empty_round empty = true
in_phase generate_random_candidate aggregate_finalized = true
in_phase generate_random_candidate candidate_rejected = true
in_phase finalize_candidate_validity candidate_validity_pending = true
in_phase process_selection ticket_accepted = true
in_phase process_selection winner_processing = true
in_phase finalize_reconciliation reconciliation_pending = true
in_phase recover_failed_reconciliation reconciliation_failed = true
in_phase process_allocation ready_to_allocate = true
in_phase process_allocation allocation_processing = true
in_phase finalize_settlement winnings_allocated = true
in_phase k s = false

-- The `switch` on the kind, for the vault and the round that were found.
unfoldable pub required_in :
    LifecycleActionKind → ProtocolSnapshot → LifecycleAction → VaultSnapshot → RoundSnapshot → Bool
unfolding open_until open_now can_register can_prune
required_in register_auto_entry s a v r =
    a.round_id == v.active_round_id
    && (open_until (find_round v v.active_round_id) s.block_timestamp
        && can_register v.bond_amount (find_candidate v a.account))
required_in prune_auto_entry s a v r =
    a.round_id == v.active_round_id
    && (open_now (find_round v v.active_round_id) && can_prune (find_candidate v a.account))
required_in close_round s a v r =
    v.active_round_id == a.round_id
    && (in_phase close_round r.state && leb r.closes_at s.block_timestamp)
required_in process_selection s a v r =
    in_phase process_selection r.state
    && (is_cursor a.cursor r.selection_cursor && ltb r.selection_cursor r.participant_count)
required_in process_allocation s a v r =
    in_phase process_allocation r.state
    && (is_cursor a.cursor r.allocation_cursor
        && (ltb r.allocation_cursor r.participant_count
            && open_until (find_round v v.active_round_id) s.block_timestamp))
required_in k s a v r = in_phase k r.state

required_for : ProtocolSnapshot → LifecycleAction → VaultSnapshot → Option RoundSnapshot → Bool
unfolding required_in
required_for s a v none = false
required_for s a v (some r) = required_in a.kind s a v r

required_by : ProtocolSnapshot → LifecycleAction → Option VaultSnapshot → Bool
unfolding required_for
required_by s a none = false
required_by s a (some v) = required_for s a v (find_round v a.round_id)

unfoldable pub is_action_required : ProtocolSnapshot → LifecycleAction → Bool
unfolding required_by
is_action_required s a = required_by s a (find_vault s a.vault.address)
