-- ===== src/Keeper/Journal.antt =====
-- keeper/src/journal.ts: the journal of the transactions that the keeper has signed. An ISO time is
-- the number of milliseconds that it writes, and `roundId` and `cursor`, which the schema keeps to
-- digits, are the numbers that they write.
pub mod AppendOnly
pub mod Document
pub mod Simulation
use leopold.Prelude.{
  ℕ, zero, suc, ◌+◌, ◌≡◌, Bool, true, false, not, ◌&&◌, ◌||◌, Option, none, some, List, [], ◌∷◌,
  ◌++◌, ◌==◌, ltb, leb, if◌then◌else◌,
}
use leopold.Prelude.Eq.{Eq, list_beq, nat_eq, list_eq, option_beq, get, set}
use leopold.Prelude.Lists.{length}
use leopold.Prelude.Results.{Result, ok, err, ◌>>=◌, ◌>>◌, throw_if}
use leopold.Prelude.Text.{Text, to_lower_case}
use leopold.Keeper.Lifecycle.{
  LifecycleActionKind, register_auto_entry, prune_auto_entry, process_selection, process_allocation,
  VaultConfig, LifecycleAction,
}
use leopold.Keeper.Planner.Actions.{kind_text}

pub data JournalStatus : Type 0 where
  prepared : JournalStatus
  submitted : JournalStatus
  confirmed : JournalStatus
  reconciled : JournalStatus
  obsolete : JournalStatus
  reorged : JournalStatus
  reverted : JournalStatus
  unknown : JournalStatus

-- `===` on two statuses compares their numbers here.
unfoldable pub status_number : JournalStatus → ℕ
status_number prepared = 0
status_number submitted = 1
status_number confirmed = 2
status_number reconciled = 3
status_number obsolete = 4
status_number reorged = 5
status_number reverted = 6
status_number unknown = 7

pub record JournalTransition : Type 0 where
  pub status : JournalStatus
  pub at : ℕ
  pub block_number : Option ℕ
  pub block_hash : Option Text
  pub confirmations : Option ℕ
  pub error_code : Option Text

pub record JournalEntry : Type 0 where
  pub attempt_id : Text
  pub replay_of_attempt_id : Option Text
  pub action_key : Text
  pub vault : Text
  pub vault_name : Text
  pub round_id : ℕ
  pub action : LifecycleActionKind
  pub cursor : Option ℕ
  pub account : Option Text
  pub tx_hash : Text
  pub calldata_hash : Text
  pub nonce : ℕ
  pub submitted_at : ℕ
  pub updated_at : ℕ
  pub status : JournalStatus
  pub block_number : Option ℕ
  pub block_hash : Option Text
  pub confirmations : Option ℕ
  pub error_code : Option Text
  pub history : List JournalTransition

pub data JournalError : Type 0 where
  invalid_entry : JournalError
  immutable_field_changed : JournalError
  history_truncated : JournalError
  history_not_append_only : JournalError
  invalid_document : JournalError
  empty_checkpoint_key : JournalError

-- `/^0x[0-9a-fA-F]{n}$/u`
unfoldable pub is_hex_digit : ℕ → Bool
is_hex_digit c =
    (leb b'0' c && leb c b'9') || (leb b'a' c && leb c b'f') || (leb b'A' c && leb c b'F')

unfoldable pub are_hex_digits : ℕ → Text → Bool
unfolding is_hex_digit
are_hex_digits zero [] = true
are_hex_digits (suc n) (c ∷ cs) = is_hex_digit c && are_hex_digits n cs
are_hex_digits _ _ = false

unfoldable pub is_hex : ℕ → Text → Bool
unfolding are_hex_digits
is_hex n (z ∷ x ∷ cs) = z == b'0' && x == b'x' && are_hex_digits n cs
is_hex n _ = false

unfoldable pub is_present : {A : Type 0} → Option A → Bool
is_present none = false
is_present (some a) = true

abbrev pub holds_of : {A : Type 0} → (A → Bool) → Option A → Bool
holds_of p none = true
holds_of p (some a) = p a

-- `z.string().max(120)`
abbrev pub is_code : Text → Bool
is_code t = leb (length t) 120

-- `journalTransitionSchema`
unfoldable pub is_valid_transition : JournalTransition → Bool
is_valid_transition t = holds_of (is_hex 64) t.block_hash && holds_of is_code t.error_code

unfoldable pub are_valid_transitions : List JournalTransition → Bool
are_valid_transitions [] = true
are_valid_transitions (t ∷ ts) = is_valid_transition t && are_valid_transitions ts

unfoldable pub last_transition : List JournalTransition → Option JournalTransition
last_transition [] = none
last_transition (t ∷ []) = some t
last_transition (t ∷ u ∷ ts) = last_transition (u ∷ ts)

abbrev pub is_cursor_action : LifecycleActionKind → Bool
is_cursor_action process_selection = true
is_cursor_action process_allocation = true
is_cursor_action k = false

abbrev pub is_account_action : LifecycleActionKind → Bool
is_account_action register_auto_entry = true
is_account_action prune_auto_entry = true
is_account_action k = false

unfoldable pub same_bool : Bool → Bool → Bool
same_bool true b = b
same_bool false b = not b

unfoldable pub is_latest : Option JournalTransition → JournalStatus → ℕ → Bool
unfolding status_number
is_latest none status updated_at = false
is_latest (some latest) status updated_at =
    status_number latest.status == status_number status && latest.at == updated_at

unfoldable pub attempt_id_of : Text → Text → Text
attempt_id_of action_key hash = action_key ++ (b':' ∷ to_lower_case hash)

-- The fields that no update changes, as `journalEntrySchema` checks them.
unfoldable pub is_valid_identity : JournalEntry → Bool
unfolding is_present same_bool
is_valid_identity e =
    not (length e.attempt_id == 0)
    && holds_of (λ t. not (length t == 0)) e.replay_of_attempt_id
    && not (length e.action_key == 0)
    && is_hex 40 e.vault
    && not (length e.vault_name == 0)
    && holds_of (is_hex 40) e.account
    && is_hex 64 e.tx_hash
    && is_hex 64 e.calldata_hash
    && same_bool (is_cursor_action e.action) (is_present e.cursor)
    && same_bool (is_account_action e.action) (is_present e.account)
    && list_beq e.attempt_id (attempt_id_of e.action_key e.tx_hash)

-- `journalEntrySchema`
unfoldable pub is_valid_entry : JournalEntry → Bool
unfolding is_latest
is_valid_entry e =
    is_valid_identity e
    && holds_of (is_hex 64) e.block_hash
    && holds_of is_code e.error_code
    && are_valid_transitions e.history
    && is_latest (last_transition e.history) e.status e.updated_at

-- `JSON.stringify(transition) === JSON.stringify(next.history[index])`
unfoldable pub same_transition : JournalTransition → JournalTransition → Bool
unfolding status_number
same_transition s t =
    status_number s.status == status_number t.status
    && s.at == t.at
    && option_beq s.block_number t.block_number
    && option_beq s.block_hash t.block_hash
    && option_beq s.confirmations t.confirmations
    && option_beq s.error_code t.error_code

unfoldable pub is_prefix : List JournalTransition → List JournalTransition → Bool
is_prefix [] ts = true
is_prefix (s ∷ ss) [] = false
is_prefix (s ∷ ss) (t ∷ ts) = same_transition s t && is_prefix ss ts

-- The loop over `immutableKeys`.
unfoldable pub same_identity : JournalEntry → JournalEntry → Bool
same_identity p n =
    list_beq p.attempt_id n.attempt_id
    && option_beq p.replay_of_attempt_id n.replay_of_attempt_id
    && list_beq p.action_key n.action_key
    && list_beq p.vault n.vault
    && list_beq p.vault_name n.vault_name
    && p.round_id == n.round_id
    && list_beq (kind_text p.action) (kind_text n.action)
    && option_beq p.cursor n.cursor
    && option_beq p.account n.account
    && list_beq p.tx_hash n.tx_hash
    && list_beq p.calldata_hash n.calldata_hash
    && p.nonce == n.nonce
    && p.submitted_at == n.submitted_at

unfoldable pub assert_append_only_update :
    JournalEntry → JournalEntry → Result JournalError (Unit {0})
assert_append_only_update previous next = do
  throw_if (not (same_identity previous next)) immutable_field_changed
  throw_if (ltb (length next.history) (length previous.history)) history_truncated
  throw_if (not (is_prefix previous.history next.history)) history_not_append_only
  ok tt

-- `MemoryJournalStore`: the entries by attempt id.
abbrev pub JournalStore : Type 0
JournalStore = List (Text × JournalEntry)

unfoldable pub check_previous : Option JournalEntry → JournalEntry → Result JournalError (Unit {0})
check_previous none next = ok tt
check_previous (some previous) next = assert_append_only_update previous next

unfoldable pub put : JournalStore → JournalEntry → Result JournalError JournalStore
unfolding check_previous
put store entry = do
  throw_if (not (is_valid_entry entry)) invalid_entry
  check_previous (get store entry.attempt_id) entry
  ok (set store entry.attempt_id entry)

pub record PreparedTransaction : Type 0 where
  pub hash : Text
  pub nonce : ℕ
  pub calldata_hash : Text

unfoldable pub journal_entry_for_prepared :
    LifecycleAction → PreparedTransaction → ℕ → Option Text → JournalEntry
journal_entry_for_prepared action transaction now replay_of_attempt_id = record {
  attempt_id = attempt_id_of action.key transaction.hash;
  replay_of_attempt_id = replay_of_attempt_id;
  action_key = action.key;
  vault = action.vault.address;
  vault_name = action.vault.name;
  round_id = action.round_id;
  action = action.kind;
  cursor = action.cursor;
  account = action.account;
  tx_hash = transaction.hash;
  calldata_hash = transaction.calldata_hash;
  nonce = transaction.nonce;
  submitted_at = now;
  updated_at = now;
  status = prepared;
  block_number = none;
  block_hash = none;
  confirmations = none;
  error_code = none;
  history =
      record {
        status = prepared;
        at = now;
        block_number = none;
        block_hash = none;
        confirmations = none;
        error_code = none;
      }
      ∷ [];
}
