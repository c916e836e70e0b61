-- ===== src/Keeper/Planner/Keys.antt =====
-- The key of an action (keeper/src/planner.ts): it tells actions apart.
use leopold.Prelude.{
  ℕ, ◌≡◌, refl, sym, ap, ◌∙◌, Bool, true, not, ◌&&◌, ◌==◌, Option, some, List, [], ◌∷◌, arith,
}
use leopold.Prelude.Eq.{list_beq, nat_eq}
use leopold.Prelude.Search.{find}
use leopold.Prelude.Text.{Text, to_lower_case, decimal}
use leopold.Prelude.Text.Decimal.{
  NoColon, decimal_injective, decimal-NoColon, to_lower_case-NoColon, split_at_colon,
}
use leopold.Keeper.Lifecycle.{
  LifecycleActionKind, register_auto_entry, prune_auto_entry, close_round, finalize_aggregate,
  settle_empty_round, generate_random_candidate, finalize_candidate_validity, process_selection,
  finalize_reconciliation, recover_failed_reconciliation, process_allocation, finalize_settlement,
}
use leopold.Keeper.Planner.Actions.{kind_text, action_key}

all_kinds : List LifecycleActionKind
all_kinds =
    register_auto_entry ∷ prune_auto_entry ∷ close_round ∷ finalize_aggregate ∷ settle_empty_round
    ∷ generate_random_candidate ∷ finalize_candidate_validity ∷ process_selection
    ∷ finalize_reconciliation ∷ recover_failed_reconciliation ∷ process_allocation
    ∷ finalize_settlement ∷ []

unfoldable pub read_kind : Text → Option LifecycleActionKind
unfolding all_kinds
read_kind t = find (λ k. list_beq (kind_text k) t) all_kinds

read_kind-kind_text : (k : LifecycleActionKind) → read_kind (kind_text k) ≡ some k
unfolding read_kind find list_beq all_kinds
read_kind-kind_text register_auto_entry = refl
read_kind-kind_text k = refl

kind_text_injective : (j k : LifecycleActionKind) → kind_text j ≡ kind_text k → j ≡ k
kind_text_injective j k h =
    let same = sym (read_kind-kind_text j) ∙ ap read_kind h ∙ read_kind-kind_text k in
    ground (arith, same)

-- A test for `NoColon`.
unfoldable pub is_plain : Text → Bool
is_plain [] = true
is_plain (c ∷ t) = not (c == b':') && is_plain t

pub is_plain_lem : (t : Text) → is_plain t ≡ true → NoColon t
unfolding is_plain
is_plain_lem [] h = tt
is_plain_lem (c ∷ t) h = (λ e. ground arith, is_plain_lem t (ground arith))

kind_text-NoColon : (k : LifecycleActionKind) → NoColon (kind_text k)
unfolding is_plain
kind_text-NoColon register_auto_entry = is_plain_lem (kind_text register_auto_entry) refl
kind_text-NoColon k = is_plain_lem (kind_text k) refl

-- Actions with the same key, on vaults whose addresses have no colon, are of the same vault but for
-- the case of letters, of the same round and of the same kind, and they have the same version.
pub action_key_injective :
    (a b : Text) (m n : ℕ) (j k : LifecycleActionKind) (v w : Text)
    → NoColon a
    → NoColon b
    → action_key a m j v ≡ action_key b n k w
    → (to_lower_case a ≡ to_lower_case b) × (m ≡ n) × (j ≡ k) × (v ≡ w)
unfolding action_key
action_key_injective a b m n j k v w h i e =
    let (address, rest) =
      split_at_colon (to_lower_case a) (to_lower_case b) _ _ (to_lower_case-NoColon a h)
        (to_lower_case-NoColon b i) e in
    let (round, last) =
      split_at_colon (decimal m) (decimal n) _ _ (decimal-NoColon m) (decimal-NoColon n) rest in
    let (kind, version) =
      split_at_colon (kind_text j) (kind_text k) _ _ (kind_text-NoColon j) (kind_text-NoColon k)
        last in
    (address, decimal_injective m n round, kind_text_injective j k kind, version)
