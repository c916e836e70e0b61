-- ===== src/Frontend/Transactions.antt =====
-- frontend/lib/leopold/transactions.ts: the stages of a transaction, and the public records of
-- transactions that the browser keeps.
pub mod Store
pub mod Checkpoint
use Prim.Native.String.{String}
use leopold.Prelude.{
  ℕ, Bool, true, false, not, ◌&&◌, ◌||◌, Option, none, some, List, [], ◌∷◌, if◌then◌else◌,
}
use leopold.Prelude.Eq.{list_beq, nat_eq}
use leopold.Prelude.Lists.{take}
use leopold.Prelude.Search.{keep}
use leopold.Prelude.Text.{Text, codes, to_lower_case}
use leopold.Frontend.Readiness.{is_truthy}

pub data TransactionStage : Type 0 where
  ready : TransactionStage
  in_wallet : TransactionStage
  submitted : TransactionStage
  confirming : TransactionStage
  approval_simulating : TransactionStage
  approval_signature : TransactionStage
  approval_submitted : TransactionStage
  approval_confirming : TransactionStage
  allowance_refresh : TransactionStage
  wrap_simulating : TransactionStage
  wrap_signature : TransactionStage
  wrap_submitted : TransactionStage
  wrap_confirming : TransactionStage
  save_encrypting : TransactionStage
  save_simulating : TransactionStage
  save_signature : TransactionStage
  save_submitted : TransactionStage
  save_confirming : TransactionStage
  save_receipt : TransactionStage
  save_post_refresh : TransactionStage
  withdraw_round_check : TransactionStage
  withdraw_round_advance_simulating : TransactionStage
  withdraw_round_advance_signature : TransactionStage
  withdraw_round_advance_submitted : TransactionStage
  withdraw_round_advance_confirming : TransactionStage
  withdraw_refresh : TransactionStage
  withdraw_simulating : TransactionStage
  withdraw_signature : TransactionStage
  withdraw_submitted : TransactionStage
  withdraw_confirming : TransactionStage
  withdraw_receipt : TransactionStage
  private_processing : TransactionStage
  complete : TransactionStage
  failed : TransactionStage

pub transaction_stage_label : TransactionStage → String
transaction_stage_label ready = "Ready"
transaction_stage_label in_wallet = "Waiting for wallet"
transaction_stage_label submitted = "Submitted"
transaction_stage_label confirming = "Confirming"
transaction_stage_label approval_simulating = "Simulating approval"
transaction_stage_label approval_signature = "Waiting for approval signature"
transaction_stage_label approval_submitted = "Approval submitted"
transaction_stage_label approval_confirming = "Confirming approval"
transaction_stage_label allowance_refresh = "Refreshing USDC allowance"
transaction_stage_label wrap_simulating = "Simulating private conversion"
transaction_stage_label wrap_signature = "Waiting for private conversion signature"
transaction_stage_label wrap_submitted = "Private conversion submitted"
transaction_stage_label wrap_confirming = "Confirming private conversion"
transaction_stage_label save_encrypting = "Encrypting private deposit"
transaction_stage_label save_simulating = "Simulating vault deposit"
transaction_stage_label save_signature = "Waiting for vault deposit signature"
transaction_stage_label save_submitted = "Vault deposit submitted"
transaction_stage_label save_confirming = "Confirming vault deposit"
transaction_stage_label save_receipt = "Vault deposit receipt confirmed"
transaction_stage_label save_post_refresh = "Refreshing vault state"
transaction_stage_label withdraw_round_check = "Checking withdrawal eligibility"
transaction_stage_label withdraw_round_advance_simulating = "Preparing withdrawal"
transaction_stage_label withdraw_round_advance_signature = "Confirm preparation"
transaction_stage_label withdraw_round_advance_submitted = "Withdrawal preparation submitted"
transaction_stage_label withdraw_round_advance_confirming = "Confirming withdrawal preparation"
transaction_stage_label withdraw_refresh = "Refreshing round state"
transaction_stage_label withdraw_simulating = "Simulating withdrawal"
transaction_stage_label withdraw_signature = "Waiting for withdrawal signature"
transaction_stage_label withdraw_submitted = "Withdrawal submitted"
transaction_stage_label withdraw_confirming = "Confirming withdrawal"
transaction_stage_label withdraw_receipt = "Withdrawal receipt confirmed"
transaction_stage_label private_processing = "Private processing"
transaction_stage_label complete = "Complete"
transaction_stage_label failed = "Failed"

-- The stages that are not in `busyStages` are these three.
pub transaction_is_busy : TransactionStage → Bool
transaction_is_busy ready = false
transaction_is_busy complete = false
transaction_is_busy failed = false
transaction_is_busy stage = true

pub data OperationStage : Type 0 where
  approval : OperationStage
  wrap : OperationStage
  save : OperationStage

pub record SafeTransactionRecord : Type 0 where
  pub id : Text
  pub kind : Text
  pub operation_id : Option Text
  pub operation_stage : Option OperationStage
  pub hash : Option Text
  pub chain_id : ℕ
  pub account : Text
  pub stage : TransactionStage
  pub error_stage : Option TransactionStage
  pub updated_at : ℕ

starts_with : Text → Text → Bool
starts_with t [] = true
starts_with [] (c ∷ cs) = false
starts_with (d ∷ ds) (c ∷ cs) = list_beq (d ∷ []) (c ∷ []) && starts_with ds cs

is_in_flight : TransactionStage → Bool
is_in_flight submitted = true
is_in_flight confirming = true
is_in_flight stage = false

pub is_unresolved_v2_transaction : SafeTransactionRecord → Bool
unfolding starts_with is_in_flight
is_unresolved_v2_transaction item =
    starts_with item.kind (codes "v2-") && is_truthy item.hash && is_in_flight item.stage

-- What the storage key of the browser holds: without a window there is none, and a text that is no
-- array of records makes the reading throw.
pub data Storage : Type 0 where
  no_window : Storage
  absent : Storage
  malformed : Storage
  records : List SafeTransactionRecord → Storage

abbrev pub is_of_account : Text → SafeTransactionRecord → Bool
is_of_account account item = list_beq (to_lower_case item.account) (to_lower_case account)

unfoldable pub load_safe_transactions : Storage → Text → List SafeTransactionRecord
load_safe_transactions no_window account = []
load_safe_transactions absent account = []
load_safe_transactions malformed account = []
load_safe_transactions (records items) account = take 20 (keep (is_of_account account) items)

abbrev pub has_other_id : Text → SafeTransactionRecord → Bool
has_other_id id item = not (list_beq item.id id)

pub stored_records : Storage → SafeTransactionRecord → List SafeTransactionRecord
stored_records storage item =
    take 20 (item ∷ keep (has_other_id item.id) (load_safe_transactions storage item.account))

unfoldable pub persist_safe_transaction : Storage → SafeTransactionRecord → Storage
unfolding stored_records
persist_safe_transaction no_window item = no_window
persist_safe_transaction storage item = records (stored_records storage item)
