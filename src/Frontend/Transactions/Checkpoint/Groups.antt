-- ===== src/Frontend/Transactions/Checkpoint/Groups.antt =====
-- The groups of records that `findLatestV2AddMoneyCheckpoint` of frontend/lib/leopold/transactions.ts
-- makes.
use leopold.Prelude.{
  ◌≡◌, refl, sym, ap, ◌∙◌, inl, inr, Bool, true, false, Option, none, some, List, [], ◌∷◌, ◌++◌,
  Bool-cases, arith, if◌then◌else◌,
}
use leopold.Prelude.Eq.{list_beq, list_beq_iff, nat_eq, list_eq, option_beq, get, set, get-set}
use leopold.Prelude.Search.{In, keep, sort_by}
use leopold.Prelude.Text.{Text}
use leopold.Frontend.Transactions.Checkpoint.{
  Item, Groups, add_money_of, group_or_empty, add_to_group, group_all, is_newer, sorted_groups,
}

-- The records of one operation.
unfoldable pub records_of : Text → List Item → List Item
records_of id = keep (λ x. option_beq (add_money_of x) (some id))

nil-append : (xs : List Item) → xs ++ [] ≡ xs
nil-append [] = refl
nil-append (x ∷ xs) = ap (λ ys. x ∷ ys) (nil-append xs)

append_assoc : (xs ys zs : List Item) → (xs ++ ys) ++ zs ≡ xs ++ (ys ++ zs)
append_assoc [] ys zs = refl
append_assoc (x ∷ xs) ys zs = ap (λ t. x ∷ t) (append_assoc xs ys zs)

get-add_to_group :
    (item : Item) (operation : Option Text) (g : Groups) (id : Text)
    → group_or_empty (get (add_to_group item operation g) id)
      ≡ group_or_empty (get g id) ++ (if option_beq operation (some id) then item ∷ [] else [])
unfolding add_to_group group_or_empty option_beq
get-add_to_group item none g id = sym (nil-append _)
get-add_to_group item (some k) g id =
    ap group_or_empty (get-set g k id (group_or_empty (get g k) ++ (item ∷ [])))
    ∙ chosen (list_beq k id) refl
  where
    chosen :
        (b : Bool)
        → list_beq k id ≡ b
        → group_or_empty (if b then some (group_or_empty (get g k) ++ (item ∷ [])) else get g id)
          ≡ group_or_empty (get g id) ++ (if b then item ∷ [] else [])
    chosen true h = ap (λ j. group_or_empty (get g j) ++ (item ∷ [])) ((list_beq_iff k id).0 h)
    chosen false h = sym (nil-append _)

if-append :
    (b : Bool) (item : Item) (items : List Item)
    → (if b then item ∷ [] else []) ++ items ≡ (if b then item ∷ items else items)
if-append true item items = refl
if-append false item items = refl

pub get-group_all :
    (items : List Item) (g : Groups) (id : Text)
    → group_or_empty (get (group_all items g) id) ≡ group_or_empty (get g id) ++ records_of id items
unfolding group_all records_of keep
get-group_all [] g id = sym (nil-append _)
get-group_all (item ∷ items) g id =
    get-group_all items (add_to_group item (add_money_of item) g) id
    ∙ ap (λ t. t ++ records_of id items) (get-add_to_group item (add_money_of item) g id)
    ∙ append_assoc (group_or_empty (get g id))
        (if option_beq (add_money_of item) (some id) then item ∷ [] else []) (records_of id items)
    ∙ ap (λ t. group_or_empty (get g id) ++ t)
        (if-append (option_beq (add_money_of item) (some id)) item (records_of id items))

-- No operation has two groups.
abbrev pub IsDistinct : Groups → Type 0
IsDistinct [] = Unit {0}
IsDistinct ((k, group) ∷ g) = (get g k ≡ none) × IsDistinct g

set-IsDistinct :
    (g : Groups) (k : Text) (group : List Item) → IsDistinct g → IsDistinct (set g k group)
unfolding get set
set-IsDistinct [] k group d = (refl, tt)
set-IsDistinct ((j, other) ∷ g) k group d = elim (Bool-cases (list_beq j k)) [
  | inl here ↦ rw here d
  | inr off ↦ rw off (
    get-set g k j group ∙ ground (arith, list_beq_iff k j, list_beq_iff j k, d.0),
    set-IsDistinct g k group d.1,
  )
]

add_to_group-IsDistinct :
    (item : Item) (operation : Option Text) (g : Groups)
    → IsDistinct g
    → IsDistinct (add_to_group item operation g)
unfolding add_to_group
add_to_group-IsDistinct item none g d = d
add_to_group-IsDistinct item (some id) g d = set-IsDistinct g id _ d

pub group_all-IsDistinct :
    (items : List Item) (g : Groups) → IsDistinct g → IsDistinct (group_all items g)
unfolding group_all
group_all-IsDistinct [] g d = d
group_all-IsDistinct (item ∷ items) g d =
    group_all-IsDistinct items _ (add_to_group-IsDistinct item (add_money_of item) g d)

-- What the list of groups holds, and what it does not miss.
pub In-sorted_groups :
    (g : Groups) (s : List Item)
    → IsDistinct g
    → In s (sorted_groups g)
    → (id : Text) × (group : List Item) × (get g id ≡ some group) × (s ≡ sort_by is_newer group)
unfolding sorted_groups get
In-sorted_groups [] s d h = absurd h
In-sorted_groups ((k, group) ∷ g) s d (inl q) =
    (k, group, ground (arith, (list_beq_iff k k).1 refl), q)
In-sorted_groups ((k, group) ∷ g) s d (inr i) =
    let (id, found, at, q) = In-sorted_groups g s d.1 i in
    (id, found, ground (arith, list_beq_iff k id, at, d.0), q)

pub sorted_groups-In :
    (g : Groups) (id : Text) (group : List Item)
    → get g id ≡ some group
    → In (sort_by is_newer group) (sorted_groups g)
unfolding sorted_groups get
sorted_groups-In [] id group h = absurd (ground arith)
sorted_groups-In ((k, other) ∷ g) id group h = ground (arith, h, sorted_groups-In g id group)
