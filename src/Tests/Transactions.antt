-- ===== src/Tests/Transactions.antt =====
-- frontend/lib/leopold/transactions.ts on a few records.
use leopold.Prelude.{ℕ, ◌≡◌, refl, none, some, [], ◌∷◌, arith, if◌then◌else◌}
use leopold.Prelude.Eq.{list_beq, nat_eq, get, set}
use leopold.Prelude.Lists.{take}
use leopold.Prelude.Search.{find, keep, sort_by, insert}
use leopold.Prelude.Text.{Text, codes, to_lower_case}
use leopold.Frontend.Transactions.{
  SafeTransactionRecord, Storage, records, submitted, OperationStage, approval, wrap, has_other_id,
  load_safe_transactions, persist_safe_transaction,
}
use leopold.Frontend.Transactions.Store.{load-persist}
use leopold.Frontend.Transactions.Checkpoint.{
  V2AddMoneyCheckpoint, find_latest_v2_add_money_checkpoint, checkpoint_of_first, sorted_groups,
  newest, group_all, add_to_group, group_or_empty, add_money_of, latest_for_stage,
}
use leopold.Frontend.Transactions.Checkpoint.Latest.{
  IsLatest, find_latest_v2_add_money_checkpoint-IsLatest,
}

abbrev item : Text → Text → OperationStage → ℕ → SafeTransactionRecord
item id operation stage updated_at = record {
  id = id;
  kind = codes "v2-add-money";
  operation_id = some operation;
  operation_stage = some stage;
  hash = some (codes "0x1");
  chain_id = 11_155_111;
  account = codes "0xAb";
  stage = submitted;
  error_stage = none;
  updated_at = updated_at;
}

abbrev old_approval : SafeTransactionRecord
old_approval = item (codes "1") (codes "a") approval 5

abbrev new_approval : SafeTransactionRecord
new_approval = item (codes "2") (codes "b") approval 7

abbrev new_wrap : SafeTransactionRecord
new_wrap = item (codes "3") (codes "b") wrap 9

abbrev storage : Storage
storage = records (old_approval ∷ new_approval ∷ [])

-- The wallet of another account takes the storage over.
load-persist_example :
    load_safe_transactions (persist_safe_transaction storage new_wrap) (codes "0xCd") ≡ (
      if list_beq (to_lower_case new_wrap.account) (to_lower_case (codes "0xCd"))
      then take 20 (
          new_wrap
          ∷ keep (has_other_id new_wrap.id) (load_safe_transactions storage new_wrap.account))
      else [])
load-persist_example = load-persist storage new_wrap (codes "0xCd") (λ e. ground arith)

abbrev checkpoint : V2AddMoneyCheckpoint
checkpoint = record {
  operation_id = codes "b";
  records = new_wrap ∷ new_approval ∷ [];
  approval = some new_approval;
  wrap = some new_wrap;
  save = none;
}

found_checkpoint :
    find_latest_v2_add_money_checkpoint (old_approval ∷ new_approval ∷ new_wrap ∷ [])
    ≡ some checkpoint
unfolding find_latest_v2_add_money_checkpoint checkpoint_of_first sorted_groups newest group_all
    add_to_group group_or_empty add_money_of latest_for_stage find sort_by insert get set list_beq
found_checkpoint = refl

find_latest_v2_add_money_checkpoint-IsLatest_example :
    IsLatest (old_approval ∷ new_approval ∷ new_wrap ∷ []) checkpoint
find_latest_v2_add_money_checkpoint-IsLatest_example =
    find_latest_v2_add_money_checkpoint-IsLatest (old_approval ∷ new_approval ∷ new_wrap ∷ [])
      checkpoint found_checkpoint
