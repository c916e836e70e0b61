-- ===== src/Keeper/Planner.antt =====
-- keeper/src/planner.ts: `planNextAction`, the one lifecycle action that is due.
pub mod Actions
pub mod Required
pub mod WellFormed
pub mod Soundness
pub mod Idle
pub mod Order
pub mod Keys
use leopold.Prelude.{
  ℕ, Bool, true, false, ◌&&◌, not, Option, none, some, List, [], ◌∷◌, ltb, leb, ◌||◌, if◌then◌else◌,
}
use leopold.Prelude.Search.{find, keep, first_some, sort_by, first}
use leopold.Prelude.Text.{codes, to_lower_case, decimal}
use leopold.Keeper.Lifecycle.{
  RoundState, RoundSnapshot, AutoEntryCandidate, VaultSnapshot, ProtocolSnapshot,
  register_auto_entry, prune_auto_entry, close_round, process_selection, process_allocation,
  LifecycleActionKind, LifecycleAction, selection_chunk_size, allocation_chunk_size,
}
use Actions.{is_open, is_settled, find_round, create_action, action_for_round}

-- The closing of the vault's active round, if it is open and past its end.
unfoldable pub close_active : ℕ → VaultSnapshot → Option RoundSnapshot → Option LifecycleAction
close_active timestamp v none = none
close_active timestamp v (some active) =
    if not (is_open active.state) || ltb timestamp active.closes_at
    then none
    else some (create_action v active close_round (decimal active.closes_at) none none)

unfoldable pub due_closure : ℕ → VaultSnapshot → Option LifecycleAction
unfolding close_active
due_closure timestamp v = close_active timestamp v (find_round v v.active_round_id)

-- The comparison of `sort`: by round, then by the vault's number.
unfoldable pub closes_before : LifecycleAction → LifecycleAction → Bool
closes_before left right =
    if ltb left.round_id right.round_id
    then true
    else if ltb right.round_id left.round_id
    then false
    else ltb left.vault.id right.vault.id

-- The results of a `map`, without those that are `null`.
unfoldable pub filter_map : {A B : Type 0} → (A → Option B) → List A → List B
filter_map f [] = []
filter_map f (x ∷ xs) = let rest = filter_map f xs in elim (f x) [ some b ↦ b ∷ rest | none ↦ rest ]

unfoldable pub due_closures : ProtocolSnapshot → List LifecycleAction
due_closures s = sort_by closes_before (filter_map (due_closure s.block_timestamp) s.vaults)

abbrev pub is_eligible : ℕ → AutoEntryCandidate → Bool
is_eligible bond_amount entry =
    entry.enabled && (not entry.registered && leb bond_amount entry.available_credit)

-- `prospectivelyEnabled !== true`
abbrev pub is_not_prospective : Option Bool → Bool
is_not_prospective (some true) = false
is_not_prospective (some false) = true
is_not_prospective none = true

abbrev pub is_stale : AutoEntryCandidate → Bool
is_stale entry = not entry.enabled && is_not_prospective entry.prospectively_enabled

unfoldable pub prune :
    VaultSnapshot → RoundSnapshot → Option AutoEntryCandidate → Option LifecycleAction
prune v active none = none
prune v active (some stale) = some (
    create_action v active prune_auto_entry (to_lower_case stale.account) none (some stale.account))

unfoldable pub register :
    VaultSnapshot → RoundSnapshot → Option AutoEntryCandidate → Option LifecycleAction
unfolding prune
register v active (some candidate) = some (
    create_action v active register_auto_entry (to_lower_case candidate.account) none
      (some candidate.account))
register v active none = prune v active (find is_stale v.auto_entry_candidates)

unfoldable pub enter_active : ℕ → VaultSnapshot → Option RoundSnapshot → Option LifecycleAction
unfolding register
enter_active timestamp v none = none
enter_active timestamp v (some active) =
    if not (is_open active.state) || leb active.closes_at timestamp
    then none
    else register v active (find (is_eligible v.bond_amount) v.auto_entry_candidates)

-- The body of the first `for` loop, with `continue` as no result.
unfoldable pub entry_action : ℕ → VaultSnapshot → Option LifecycleAction
unfolding enter_active
entry_action timestamp v = enter_active timestamp v (find_round v v.active_round_id)

unfoldable pub unfinished : VaultSnapshot → List RoundSnapshot
unfinished v =
    sort_by (λ l r. ltb l.round_id r.round_id)
      (keep (λ r. ltb r.round_id v.active_round_id && not (is_settled r.state)) v.rounds)

-- The body of the second `for` loop.
unfoldable pub unfinished_action : VaultSnapshot → Option LifecycleAction
unfinished_action v = first_some (action_for_round v) (unfinished v)

unfoldable pub by_id : List VaultSnapshot → List VaultSnapshot
by_id = sort_by (λ l r. ltb l.vault.id r.vault.id)

unfoldable pub after_entries : ProtocolSnapshot → Option LifecycleAction → Option LifecycleAction
after_entries s (some action) = some action
after_entries s none = first_some unfinished_action (by_id s.vaults)

unfoldable pub after_closures : ProtocolSnapshot → Option LifecycleAction → Option LifecycleAction
unfolding after_entries
after_closures s (some closure) = some closure
after_closures s none =
    after_entries s (first_some (entry_action s.block_timestamp) (by_id s.vaults))

unfoldable pub plan_next_action : ProtocolSnapshot → Option LifecycleAction
unfolding after_closures
plan_next_action s = after_closures s (first (due_closures s))

chunk_size_of : LifecycleActionKind → Option ℕ
chunk_size_of process_selection = some selection_chunk_size
chunk_size_of process_allocation = some allocation_chunk_size
chunk_size_of k = none

pub action_chunk_size : LifecycleAction → Option ℕ
unfolding chunk_size_of
action_chunk_size action = chunk_size_of action.kind
