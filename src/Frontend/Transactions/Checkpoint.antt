-- ===== src/Frontend/Transactions/Checkpoint.antt =====
-- `findLatestV2AddMoneyCheckpoint` of frontend/lib/leopold/transactions.ts.
pub mod Groups
pub mod Latest
use leopold.Prelude.{
  ℕ, Bool, true, false, ◌&&◌, Option, none, some, List, [], ◌∷◌, ◌++◌, ltb, if◌then◌else◌,
}
use leopold.Prelude.Eq.{list_beq, nat_eq, list_eq, get, set}
use leopold.Prelude.Search.{find, sort_by}
use leopold.Prelude.Text.{Text, codes}
use leopold.Frontend.Readiness.{is_truthy}
use leopold.Frontend.Transactions.{OperationStage, approval, wrap, save, SafeTransactionRecord}

abbrev pub Item : Type 0
Item = SafeTransactionRecord

pub record V2AddMoneyCheckpoint : Type 0 where
  pub operation_id : Text
  pub records : List Item
  pub approval : Option Item
  pub wrap : Option Item
  pub save : Option Item

abbrev pub Groups : Type 0
Groups = List (Text × List Item)

-- The operation that a record counts for, if it does not `continue`.
operation_of : Option Text → Option Text
operation_of none = none
operation_of (some []) = none
operation_of (some (c ∷ cs)) = some (c ∷ cs)

unfoldable pub add_money_of : Item → Option Text
unfolding operation_of
add_money_of item =
    if list_beq item.kind (codes "v2-add-money") then operation_of item.operation_id else none

unfoldable pub group_or_empty : Option (List Item) → List Item
group_or_empty none = []
group_or_empty (some group) = group

unfoldable pub add_to_group : Item → Option Text → Groups → Groups
add_to_group item none grouped = grouped
add_to_group item (some id) grouped =
    set grouped id (group_or_empty (get grouped id) ++ (item ∷ []))

unfoldable pub group_all : List Item → Groups → Groups
group_all [] grouped = grouped
group_all (item ∷ items) grouped = group_all items (add_to_group item (add_money_of item) grouped)

abbrev pub is_newer : Item → Item → Bool
is_newer left right = ltb right.updated_at left.updated_at

-- `group[0]?.updatedAt ?? 0`
unfoldable pub newest : List Item → ℕ
newest [] = 0
newest (item ∷ items) = item.updated_at

abbrev pub has_newer : List Item → List Item → Bool
has_newer left right = ltb (newest right) (newest left)

unfoldable pub sorted_groups : Groups → List (List Item)
sorted_groups [] = []
sorted_groups ((id, group) ∷ grouped) = sort_by is_newer group ∷ sorted_groups grouped

same_stage : OperationStage → Option OperationStage → Bool
same_stage approval (some approval) = true
same_stage wrap (some wrap) = true
same_stage save (some save) = true
same_stage stage other = false

or_find : Option Item → Option Item → Option Item
or_find none other = other
or_find (some item) other = some item

unfoldable pub latest_for_stage : List Item → OperationStage → Option Item
unfolding same_stage or_find
latest_for_stage operation stage =
    or_find (find (λ r. same_stage stage r.operation_stage && is_truthy r.hash) operation)
      (find (λ r. same_stage stage r.operation_stage) operation)

checkpoint_of : List Item → Option Text → Option V2AddMoneyCheckpoint
checkpoint_of operation none = none
checkpoint_of operation (some id) = some (record {
  operation_id = id;
  records = operation;
  approval = latest_for_stage operation approval;
  wrap = latest_for_stage operation wrap;
  save = latest_for_stage operation save;
})

-- `if (!operation?.[0]?.operationId) return null`
unfoldable pub checkpoint_of_first : List (List Item) → Option V2AddMoneyCheckpoint
unfolding checkpoint_of operation_of
checkpoint_of_first [] = none
checkpoint_of_first ([] ∷ groups) = none
checkpoint_of_first ((item ∷ items) ∷ groups) =
    checkpoint_of (item ∷ items) (operation_of item.operation_id)

unfoldable pub find_latest_v2_add_money_checkpoint : List Item → Option V2AddMoneyCheckpoint
find_latest_v2_add_money_checkpoint items =
    checkpoint_of_first (sort_by has_newer (sorted_groups (group_all items [])))
