-- ===== src/Keeper/Engine/Updates.antt =====
-- The updates of keeper/src/engine.ts pass the checks of keeper/src/journal.ts.
use leopold.Prelude.{ℕ, ◌≡◌, refl, Bool, true, Option, none, some, List, [], ◌∷◌, ◌++◌, arith}
use leopold.Prelude.Eq.{nat_eq, list_eq, get, set}
use leopold.Prelude.Lists.{length-append}
use leopold.Prelude.Results.{ok}
use leopold.Keeper.Journal.{
  JournalStatus, JournalTransition, JournalEntry, JournalStore, is_hex, is_code, holds_of,
  is_valid_transition, are_valid_transitions, last_transition, is_valid_identity, is_valid_entry,
  same_identity, assert_append_only_update, check_previous, put,
}
use leopold.Keeper.Journal.AppendOnly.{is_prefix-append, same_identity_self}
use leopold.Keeper.Engine.{UpdateOptions, overwrite, update_entry, transition_to}

last_transition-append :
    (ts : List JournalTransition) (t : JournalTransition)
    → last_transition (ts ++ (t ∷ [])) ≡ some t
unfolding last_transition
last_transition-append [] t = refl
last_transition-append (u ∷ []) t = refl
last_transition-append (u ∷ v ∷ ts) t = last_transition-append (v ∷ ts) t

are_valid_transitions-append :
    (ts : List JournalTransition) (t : JournalTransition)
    → are_valid_transitions ts ≡ true
    → is_valid_transition t ≡ true
    → are_valid_transitions (ts ++ (t ∷ [])) ≡ true
unfolding are_valid_transitions
are_valid_transitions-append [] t h v = ground arith
are_valid_transitions-append (u ∷ ts) t h v = ground (arith, are_valid_transitions-append ts t)

-- The options are of the shape that the schema asks for.
pub record AreValid (options : UpdateOptions) : Type 0 where
  pub hash : holds_of (is_hex 64) options.block_hash ≡ true
  pub code : holds_of is_code options.error_code ≡ true

overwrite_holds :
    {A : Type 0} (p : A → Bool) (new old : Option A)
    → holds_of p new ≡ true
    → holds_of p old ≡ true
    → holds_of p (overwrite new old) ≡ true
overwrite_holds p none old h k = k
overwrite_holds p (some a) old h k = h

update_entry_is_valid :
    (entry : JournalEntry) (status : JournalStatus) (now : ℕ) (options : UpdateOptions)
    → AreValid options
    → is_valid_entry entry ≡ true
    → is_valid_entry (update_entry entry status now options) ≡ true
unfolding is_valid_entry is_valid_identity update_entry is_valid_transition
update_entry_is_valid entry status now options v h = ground (
  arith,
  v.hash,
  v.code,
  last_transition-append entry.history (transition_to status now options),
  are_valid_transitions-append entry.history (transition_to status now options),
  overwrite_holds (is_hex 64) options.block_hash entry.block_hash,
  overwrite_holds is_code options.error_code entry.error_code,
)

same_identity-update :
    (entry : JournalEntry) (status : JournalStatus) (now : ℕ) (options : UpdateOptions)
    → same_identity entry (update_entry entry status now options) ≡ true
unfolding same_identity update_entry
same_identity-update entry status now options = same_identity_self entry

update_appends :
    (entry : JournalEntry) (status : JournalStatus) (now : ℕ) (options : UpdateOptions)
    → assert_append_only_update entry (update_entry entry status now options) ≡ ok tt
unfolding assert_append_only_update update_entry
update_appends entry status now options = ground (
  arith,
  same_identity-update entry status now options,
  is_prefix-append entry.history (transition_to status now options ∷ []),
  length-append entry.history (transition_to status now options ∷ []),
)

-- Writing an updated entry over the stored one never fails.
pub put_update :
    (store : JournalStore) (entry : JournalEntry) (status : JournalStatus) (now : ℕ)
    (options : UpdateOptions)
    → AreValid options
    → is_valid_entry entry ≡ true
    → get store entry.attempt_id ≡ some entry
    → put store (update_entry entry status now options)
      ≡ ok (set store entry.attempt_id (update_entry entry status now options))
unfolding put update_entry check_previous
put_update store entry status now options v h found = ground (
  arith,
  found,
  update_entry_is_valid entry status now options v h,
  update_appends entry status now options,
)
