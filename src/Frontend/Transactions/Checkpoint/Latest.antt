-- ===== src/Frontend/Transactions/Checkpoint/Latest.antt =====
-- The checkpoint that frontend/lib/leopold/transactions.ts finds is that of the latest operation.
use leopold.Prelude.{
  ◌≤◌, ◌≡◌, refl, sym, ap, subst, ◌∙◌, inl, Option, none, some, List, [], ◌∷◌, arith,
}
use leopold.Prelude.Eq.{nat_eq, list_eq, option_beq_iff, get}
use leopold.Prelude.Search.{
  In, keep-In, In-keep, sort_by, first, In-sort_by, sort_by-In, first-sort_by,
}
use leopold.Prelude.Text.{Text}
use leopold.Frontend.Transactions.Checkpoint.{
  Item, V2AddMoneyCheckpoint, Groups, operation_of, add_money_of, group_or_empty, group_all,
  is_newer, newest, has_newer, sorted_groups, checkpoint_of, checkpoint_of_first,
  find_latest_v2_add_money_checkpoint,
}
use leopold.Frontend.Transactions.Checkpoint.Groups.{
  records_of, get-group_all, IsDistinct, group_all-IsDistinct, In-sorted_groups, sorted_groups-In,
}

In-first : (xs : List Item) (x : Item) → In x xs → (m : Item) × (first xs ≡ some m)
In-first [] x h = absurd h
In-first (y ∷ ys) x h = (y, refl)

newest-first : (xs : List Item) (m : Item) → first xs ≡ some m → newest xs ≡ m.updated_at
unfolding newest
newest-first [] m h = absurd (ground arith)
newest-first (x ∷ xs) m h = ground arith

-- No record of a group is newer than its first one.
newest_of_group :
    (group : List Item) (x : Item) → In x group → x.updated_at ≤ newest (sort_by is_newer group)
newest_of_group group x h =
    let (m, e) = In-first (sort_by is_newer group) x (sort_by-In is_newer group x h) in
    let least =
      first-sort_by is_newer (λ a b p. ground arith) (λ a b c p q. ground arith) group m e x h in
    rw (newest-first (sort_by is_newer group) m e) (ground arith)

first-In : {A : Type 0} (xs : List A) (m : A) → first xs ≡ some m → In m xs
first-In [] m h = absurd (ground arith)
first-In (x ∷ xs) m h = inl (ground arith)

some_injective : {A : Type 0} {a b : A} → some a ≡ some b → a ≡ b
some_injective h = ground arith

-- The checkpoint is built on the first group.
first_group :
    (groups : List (List Item)) (c : V2AddMoneyCheckpoint)
    → checkpoint_of_first groups ≡ some c
    → (head : Item) × (first groups ≡ some c.records)
      × (first c.records ≡ some head)
      × (operation_of head.operation_id ≡ some c.operation_id)
unfolding checkpoint_of_first checkpoint_of
first_group [] c h = absurd (ground arith)
first_group ([] ∷ groups) c h = absurd (ground arith)
first_group ((item ∷ items) ∷ groups) c h = built (operation_of item.operation_id) refl h
  where
    built :
        (o : Option Text)
        → operation_of item.operation_id ≡ o
        → checkpoint_of (item ∷ items) o ≡ some c
        → (head : Item) × (first ((item ∷ items) ∷ groups) ≡ some c.records)
          × (first c.records ≡ some head)
          × (operation_of head.operation_id ≡ some c.operation_id)
    built none q k = absurd (ground arith)
    built (some id) q k =
        let p = some_injective k in
        (
          item,
          ap (λ (d : V2AddMoneyCheckpoint). some d.records) p,
          sym (ap (λ (d : V2AddMoneyCheckpoint). first d.records) p),
          q ∙ ap (λ (d : V2AddMoneyCheckpoint). some d.operation_id) p,
        )

operation_of_add_money :
    (x : Item) (id : Text) → add_money_of x ≡ some id → operation_of x.operation_id ≡ some id
unfolding add_money_of
operation_of_add_money x id h = ground arith

module _ (items : List Item) where
  abbrev groups : Groups
  groups = group_all items []

  distinct : IsDistinct groups
  distinct = group_all-IsDistinct items [] tt

  group_of :
      (id : Text) (group : List Item) → get groups id ≡ some group → group ≡ records_of id items
  unfolding group_or_empty get
  group_of id group h = ap group_or_empty (sym h) ∙ get-group_all items [] id

  records_of-In :
      (id : Text) (x : Item) → In x (records_of id items) → In x items × (add_money_of x ≡ some id)
  unfolding records_of
  records_of-In id x h =
      let (there, same) = keep-In _ items x h in
      (there, (option_beq_iff (add_money_of x) (some id)).0 same)

  In-records_of :
      (id : Text) (x : Item) → In x items → add_money_of x ≡ some id → In x (records_of id items)
  unfolding records_of
  In-records_of id x h e = In-keep _ items x h ((option_beq_iff (add_money_of x) (some id)).1 e)

  -- A record of an operation is in a group that is found.
  grouped :
      (id : Text) (x : Item)
      → In x items
      → add_money_of x ≡ some id
      → (group : List Item) × (get groups id ≡ some group) × In x group
  unfolding group_or_empty get
  grouped id x h e = found (get groups id) refl
    where
      found :
          (o : Option (List Item))
          → get groups id ≡ o
          → (group : List Item) × (o ≡ some group) × In x group
      found none q = absurd (
          subst (In x) (sym (ap group_or_empty (sym q) ∙ get-group_all items [] id))
            (In-records_of id x h e))
      found (some group) q =
          (group, refl, subst (In x) (sym (group_of id group q)) (In-records_of id x h e))

  -- No record of any operation is newer than the first group.
  newest_of_all :
      (operation : List Item)
      → first (sort_by has_newer (sorted_groups groups)) ≡ some operation
      → (x : Item) (id : Text) → In x items
      → add_money_of x ≡ some id
      → x.updated_at ≤ newest operation
  newest_of_all operation is_first x id i e =
      let (group, at, there) = grouped id x i e in
      let older =
        first-sort_by has_newer (λ a b p. ground arith) (λ a b d p q. ground arith)
          (sorted_groups groups) operation is_first (sort_by is_newer group)
          (sorted_groups-In groups id group at) in
      let below = newest_of_group group x there in ground arith

  -- What the checkpoint of the latest operation is.
  pub record IsLatest (c : V2AddMoneyCheckpoint) : Type 0 where
    pub only : (x : Item) → In x c.records → In x items × (add_money_of x ≡ some c.operation_id)
    pub whole : (x : Item) → In x items → add_money_of x ≡ some c.operation_id → In x c.records
    pub newest_first :
        (x : Item) (id : Text)
        → In x items
        → add_money_of x ≡ some id
        → x.updated_at ≤ newest c.records

  -- The records of the found checkpoint are exactly the stored records of its operation, and no
  -- record of any operation was updated later than the first of them.
  pub find_latest_v2_add_money_checkpoint-IsLatest :
      (c : V2AddMoneyCheckpoint) → find_latest_v2_add_money_checkpoint items ≡ some c → IsLatest c
  unfolding find_latest_v2_add_money_checkpoint
  find_latest_v2_add_money_checkpoint-IsLatest c h =
      let sorted = sort_by has_newer (sorted_groups groups) in
      let (head, is_first, has_head, operation) = first_group sorted c h in
      let (id, group, at, q) = In-sorted_groups groups c.records distinct (
        In-sort_by has_newer (sorted_groups groups) c.records
          (first-In sorted c.records is_first)) in
      let members : group ≡ records_of id items = group_of id group at in
      let taken : (x : Item) → In x c.records → In x items × (add_money_of x ≡ some id) = λ x i.
        records_of-In id x
          (subst (In x) members (In-sort_by is_newer group x (subst (In x) q i))) in
      let same : id ≡ c.operation_id = some_injective (
        sym (operation_of_add_money head id (taken head (first-In c.records head has_head)).1)
        ∙ operation) in
      record {
        only = λ x i. subst (λ j. In x items × (add_money_of x ≡ some j)) same (taken x i);
        whole = λ x i e. subst (In x) (sym q) (
            sort_by-In is_newer group x (
              subst (In x) (sym members) (In-records_of id x i (e ∙ ap (λ j. some j) (sym same)))));
        newest_first = λ x j i e. newest_of_all c.records is_first x j i e;
      }
