-- ===== src/Keeper/Engine.antt =====
-- keeper/src/engine.ts: what the engine does with the entries of its journal, and when it signs.
-- The gateway's answers, which come from the chain, are an `Observation`.
pub mod Updates
pub mod Accepted
pub mod Resolution
pub mod Outstanding
use Prim.Native.String.{String}
use leopold.Prelude.{
  ℕ, ◌+◌, ◌≡◌, Bool, true, false, not, ◌&&◌, ◌||◌, Option, none, some, List, [], ◌∷◌, ◌++◌, map,
  ◌==◌, ltb, leb, if◌then◌else◌,
}
use leopold.Prelude.Eq.{set}
use leopold.Prelude.Search.{keep}
use leopold.Prelude.Results.{Result, ok, err, ◌>>=◌}
use leopold.Prelude.Text.{Text, codes}
use leopold.Keeper.Lifecycle.{VaultConfig, VaultSnapshot, ProtocolSnapshot, LifecycleAction}
use leopold.Keeper.Planner.Required.{find_vault, is_action_required}
use leopold.Keeper.Journal.{
  JournalStatus, prepared, submitted, confirmed, reconciled, obsolete, reorged, reverted, unknown,
  JournalTransition, JournalEntry, JournalStore, JournalError, put,
}

unfoldable pub is_unresolved : JournalStatus → Bool
is_unresolved prepared = true
is_unresolved submitted = true
is_unresolved confirmed = true
is_unresolved unknown = true
is_unresolved reverted = true
is_unresolved status = false

-- The `options` of `updateEntry`.
pub record UpdateOptions : Type 0 where
  pub block_number : Option ℕ
  pub block_hash : Option Text
  pub confirmations : Option ℕ
  pub error_code : Option Text

abbrev pub no_options : UpdateOptions
no_options = record {
  block_number = none;
  block_hash = none;
  confirmations = none;
  error_code = none;
}

-- `...(x === undefined ? {} : { x })` over an object that may have the field.
abbrev pub overwrite : {A : Type 0} → Option A → Option A → Option A
overwrite none old = old
overwrite (some new) old = some new

abbrev pub transition_to : JournalStatus → ℕ → UpdateOptions → JournalTransition
transition_to status now options = record {
  status = status;
  at = now;
  block_number = options.block_number;
  block_hash = options.block_hash;
  confirmations = options.confirmations;
  error_code = options.error_code;
}

unfoldable pub update_entry : JournalEntry → JournalStatus → ℕ → UpdateOptions → JournalEntry
update_entry entry status now options = record {
  attempt_id = entry.attempt_id;
  replay_of_attempt_id = entry.replay_of_attempt_id;
  action_key = entry.action_key;
  vault = entry.vault;
  vault_name = entry.vault_name;
  round_id = entry.round_id;
  action = entry.action;
  cursor = entry.cursor;
  account = entry.account;
  tx_hash = entry.tx_hash;
  calldata_hash = entry.calldata_hash;
  nonce = entry.nonce;
  submitted_at = entry.submitted_at;
  updated_at = now;
  status = status;
  block_number = overwrite options.block_number entry.block_number;
  block_hash = overwrite options.block_hash entry.block_hash;
  confirmations = overwrite options.confirmations entry.confirmations;
  error_code = overwrite options.error_code entry.error_code;
  history = entry.history ++ (transition_to status now options ∷ []);
}

pub record TransactionReceipt : Type 0 where
  pub status : Option ℕ
  pub block_number : ℕ
  pub block_hash : Text
  pub confirmations : ℕ

-- What the gateway and the clock answer while one entry is reconciled; `checked_at` is when the age
-- of the entry is tested, and `now` when the entry is updated. The code reads the last four only
-- where it needs them.
pub record Observation : Type 0 where
  pub receipt : Option TransactionReceipt
  pub snapshot : ProtocolSnapshot
  pub now : ℕ
  pub transaction_found : Bool
  pub checked_at : ℕ
  pub latest_nonce : ℕ
  pub pending_nonce : ℕ

pub record EngineOptions : Type 0 where
  pub confirmations : ℕ
  pub receipt_wait_ms : ℕ

unfoldable pub action_of : JournalEntry → Option VaultSnapshot → Option LifecycleAction
action_of entry none = none
action_of entry (some vault) = some (record {
  key = entry.action_key;
  kind = entry.action;
  vault = vault.vault;
  round_id = entry.round_id;
  cursor = entry.cursor;
  account = entry.account;
})

unfoldable pub action_from_entry : ProtocolSnapshot → JournalEntry → Option LifecycleAction
unfolding action_of
action_from_entry snapshot entry = action_of entry (find_vault snapshot entry.vault)

unfoldable pub required_action : ProtocolSnapshot → Option LifecycleAction → Bool
required_action snapshot none = false
required_action snapshot (some action) = is_action_required snapshot action

-- `action !== null && isActionRequired(snapshot, action)`
unfoldable pub is_entry_required : ProtocolSnapshot → JournalEntry → Bool
unfolding action_from_entry required_action
is_entry_required snapshot entry = required_action snapshot (action_from_entry snapshot entry)

abbrev pub with_code : String → UpdateOptions
with_code code = record {
  block_number = none;
  block_hash = none;
  confirmations = none;
  error_code = some (codes code);
}

abbrev pub from_receipt : TransactionReceipt → Option Text → UpdateOptions
from_receipt receipt code = record {
  block_number = some receipt.block_number;
  block_hash = some receipt.block_hash;
  confirmations = some receipt.confirmations;
  error_code = code;
}

-- `status === n`
abbrev pub is_status : ℕ → Option ℕ → Bool
is_status n none = false
is_status n (some m) = m == n

unfoldable pub is_closed : JournalStatus → Bool
is_closed unknown = true
is_closed reverted = true
is_closed status = false

unfoldable pub is_fresh : JournalStatus → Bool
is_fresh prepared = true
is_fresh submitted = true
is_fresh status = false

unfoldable pub is_confirmed : JournalStatus → Bool
is_confirmed confirmed = true
is_confirmed status = false

-- `receipt.confirmations >= this.#confirmations`
unfoldable pub final_receipt : TransactionReceipt → Bool → ℕ → JournalEntry → JournalEntry
final_receipt receipt required now entry =
    if is_status 1 receipt.status && not required
    then update_entry entry reconciled now (from_receipt receipt none)
    else if is_status 0 receipt.status && not required
    then update_entry entry obsolete now (from_receipt receipt none)
    else if is_status 0 receipt.status
    then update_entry entry reverted now
        (from_receipt receipt (some (codes "TRANSACTION_REVERTED")))
    else update_entry entry unknown now
        (from_receipt receipt (some (codes "CONFIRMED_STATE_UNCHANGED")))

-- There is no transaction either: what follows the test of the age.
unfoldable pub dropped_entry : Observation → Bool → JournalEntry → JournalEntry
unfolding is_confirmed
dropped_entry o required entry =
    if not required
    then update_entry entry obsolete o.now (with_code "STATE_ADVANCED_EXTERNALLY")
    else if is_confirmed entry.status
    then update_entry entry reorged o.now (with_code "REORGED_TRANSACTION_DROPPED")
    else update_entry entry unknown o.now (
        if ltb entry.nonce o.latest_nonce || ltb entry.nonce o.pending_nonce
        then with_code "NONCE_CONSUMED_OUTCOME_UNKNOWN"
        else with_code "TX_OUTCOME_UNKNOWN")

-- The entry is returned as it is where the result is `none`; else the result is put and returned.
unfoldable pub without_receipt :
    EngineOptions → Observation → Bool → JournalEntry → Option JournalEntry
unfolding dropped_entry is_fresh
without_receipt options o required entry =
    if o.transaction_found
    then some (update_entry entry submitted o.now no_options)
    else if is_fresh entry.status && ltb o.checked_at (entry.submitted_at + options.receipt_wait_ms)
    then none
    else some (dropped_entry o required entry)

unfoldable pub by_receipt :
    EngineOptions
    → Observation
    → Bool
    → JournalEntry
    → Option TransactionReceipt
    → Option JournalEntry
unfolding without_receipt final_receipt
by_receipt options o required entry none = without_receipt options o required entry
by_receipt options o required entry (some receipt) =
    if ltb receipt.confirmations options.confirmations
    then some (
        update_entry entry confirmed o.now
          (from_receipt receipt (some (codes "WAITING_CONFIRMATIONS"))))
    else some (final_receipt receipt required o.now entry)

-- `#reconcileEntry`
unfoldable pub reconcile_entry : EngineOptions → Observation → JournalEntry → Option JournalEntry
unfolding by_receipt
reconcile_entry options o entry =
    let required = is_entry_required o.snapshot entry in
    if is_closed entry.status
    then (if required
        then none
        else some (update_entry entry obsolete o.now (with_code "STATE_ADVANCED_EXTERNALLY")))
    else by_receipt options o required entry o.receipt

-- What is left of `for (const entry of entries)` after one entry: stop at one that stays unresolved.
unfoldable pub after_entry :
    Option JournalEntry
    → JournalEntry
    → JournalStore
    → (JournalStore → JournalStore × Result JournalError (Option JournalEntry))
    → JournalStore × Result JournalError (Option JournalEntry)
after_entry none entry store rest =
    if is_unresolved entry.status then (store, ok (some entry)) else rest store
after_entry (some result) entry store rest = elim (put store result) [
  | err e ↦ (store, err e)
  | ok store' ↦ if is_unresolved result.status then (store', ok (some result)) else rest store'
]

-- The chain answers each entry with an observation of its own; the store is what is left after an
-- error too.
unfoldable pub reconcile_entries :
    EngineOptions
    → (JournalEntry → Observation)
    → List JournalEntry
    → JournalStore
    → JournalStore × Result JournalError (Option JournalEntry)
unfolding after_entry
reconcile_entries options observe [] store = (store, ok none)
reconcile_entries options observe (entry ∷ entries) store =
    let rest = λ (s : JournalStore). reconcile_entries options observe entries s in
    after_entry (reconcile_entry options (observe entry) entry) entry store rest

-- `list`
abbrev pub values : JournalStore → List JournalEntry
values [] = []
values ((k, entry) ∷ store) = entry ∷ values store

-- `#reconcileOutstanding`
unfoldable pub reconcile_outstanding :
    EngineOptions
    → (JournalEntry → Observation)
    → JournalStore
    → JournalStore × Result JournalError (Option JournalEntry)
reconcile_outstanding options observe store =
    reconcile_entries options observe (keep (λ e. is_unresolved e.status) (values store)) store
