-- ===== src/Keeper/Lifecycle.antt =====
-- The types of keeper/src/lifecycle.ts. A `bigint` that is read from an unsigned contract word is a
-- natural number.
use leopold.Prelude.{ℕ, Bool, Option, List}
use leopold.Prelude.Text.{Text}

abbrev pub sepolia_chain_id : ℕ
sepolia_chain_id = 11_155_111

abbrev pub selection_chunk_size : ℕ
selection_chunk_size = 4

abbrev pub allocation_chunk_size : ℕ
allocation_chunk_size = 4

pub data RoundState : Type 0 where
  uninitialized : RoundState
  open_round : RoundState
  aggregate_pending : RoundState
  aggregate_finalized : RoundState
  empty : RoundState
  candidate_validity_pending : RoundState
  candidate_rejected : RoundState
  ticket_accepted : RoundState
  winner_processing : RoundState
  winnings_allocated : RoundState
  settled : RoundState
  reconciliation_pending : RoundState
  reconciliation_failed : RoundState
  ready_to_allocate : RoundState
  allocation_processing : RoundState

pub record VaultConfig : Type 0 where
  pub id : ℕ
  pub name : Text
  pub cadence : Text
  pub address : Text
  pub bond_escrow : Text
  pub automatic_entry : Option Bool

pub record RoundSnapshot : Type 0 where
  pub round_id : ℕ
  pub opens_at : ℕ
  pub closes_at : ℕ
  pub state : RoundState
  pub public_aggregate_twab : ℕ
  pub public_prize : ℕ
  pub participant_count : ℕ
  pub selection_cursor : ℕ
  pub allocation_cursor : ℕ
  pub candidate_validity_handle : Option Text

pub record AutoEntryCandidate : Type 0 where
  pub account : Text
  pub enabled : Bool
  pub prospectively_enabled : Option Bool
  pub available_credit : ℕ
  pub registered : Bool

pub record VaultSnapshot : Type 0 where
  pub vault : VaultConfig
  pub active_round_id : ℕ
  pub bond_amount : ℕ
  pub auto_entry_candidates : List AutoEntryCandidate
  pub rounds : List RoundSnapshot

pub record ProtocolSnapshot : Type 0 where
  pub chain_id : ℕ
  pub block_number : ℕ
  pub block_hash : Text
  pub block_timestamp : ℕ
  pub vaults : List VaultSnapshot

pub data LifecycleActionKind : Type 0 where
  register_auto_entry : LifecycleActionKind
  prune_auto_entry : LifecycleActionKind
  close_round : LifecycleActionKind
  finalize_aggregate : LifecycleActionKind
  settle_empty_round : LifecycleActionKind
  generate_random_candidate : LifecycleActionKind
  finalize_candidate_validity : LifecycleActionKind
  process_selection : LifecycleActionKind
  finalize_reconciliation : LifecycleActionKind
  recover_failed_reconciliation : LifecycleActionKind
  process_allocation : LifecycleActionKind
  finalize_settlement : LifecycleActionKind

pub record LifecycleAction : Type 0 where
  pub key : Text
  pub kind : LifecycleActionKind
  pub vault : VaultConfig
  pub round_id : ℕ
  pub cursor : Option ℕ
  pub account : Option Text
