-- ===== src/Keeper/Engine/Accepted.antt =====
-- The journal (keeper/src/journal.ts) accepts what `#reconcileEntry` (keeper/src/engine.ts) writes.
use leopold.Prelude.{
  ℕ, ◌≡◌, refl, Bool, true, false, not, ◌&&◌, ◌||◌, Option, none, some, arith, ltb, if◌then◌else◌,
}
use leopold.Prelude.Eq.{nat_eq, list_eq, get, set}
use leopold.Prelude.Results.{ok}
use leopold.Prelude.Text.{codes}
use leopold.Keeper.Journal.{
  submitted, confirmed, reconciled, obsolete, reorged, reverted, unknown, JournalEntry,
  JournalStore, is_hex, is_valid_entry, put,
}
use leopold.Keeper.Engine.{
  update_entry, with_code, from_receipt, no_options, TransactionReceipt, Observation, EngineOptions,
  is_entry_required, final_receipt, dropped_entry, without_receipt, by_receipt, reconcile_entry,
  is_status, is_confirmed,
}
use leopold.Keeper.Engine.Updates.{put_update}

module _ (store : JournalStore) (entry : JournalEntry) (valid : is_valid_entry entry ≡ true)
    (found : get store entry.attempt_id ≡ some entry) where
  abbrev Accepted : JournalEntry → Type 0
  Accepted r = put store r ≡ ok (set store entry.attempt_id r)

  either : (b : Bool) (x y : JournalEntry) → Accepted x → Accepted y → Accepted (if b then x else y)
  either true x y p q = p
  either false x y p q = q

  final_receipt-Accepted :
      (r : TransactionReceipt) (required : Bool) (now : ℕ)
      → is_hex 64 r.block_hash ≡ true
      → Accepted (final_receipt r required now entry)
  unfolding final_receipt
  final_receipt-Accepted r required now hex =
      either (is_status 1 r.status && not required) _ _
        (put_update store entry reconciled now (from_receipt r none)
          (record { hash = hex; code = refl }) valid found)
        (either (is_status 0 r.status && not required) _ _
          (put_update store entry obsolete now (from_receipt r none)
            (record { hash = hex; code = refl }) valid found)
          (either (is_status 0 r.status) _ _
            (put_update store entry reverted now
              (from_receipt r (some (codes "TRANSACTION_REVERTED")))
              (record { hash = hex; code = refl }) valid found)
            (put_update store entry unknown now
              (from_receipt r (some (codes "CONFIRMED_STATE_UNCHANGED")))
              (record { hash = hex; code = refl }) valid found)))

  nonce-Accepted :
      (b : Bool) (now : ℕ)
      → Accepted (
          update_entry entry unknown now (
            if b
            then with_code "NONCE_CONSUMED_OUTCOME_UNKNOWN"
            else with_code "TX_OUTCOME_UNKNOWN"))
  nonce-Accepted true now =
      put_update store entry unknown now (with_code "NONCE_CONSUMED_OUTCOME_UNKNOWN")
        (record { hash = refl; code = refl }) valid found
  nonce-Accepted false now =
      put_update store entry unknown now (with_code "TX_OUTCOME_UNKNOWN")
        (record { hash = refl; code = refl }) valid found

  obsolete-Accepted :
      (now : ℕ) → Accepted (update_entry entry obsolete now (with_code "STATE_ADVANCED_EXTERNALLY"))
  obsolete-Accepted now =
      put_update store entry obsolete now (with_code "STATE_ADVANCED_EXTERNALLY")
        (record { hash = refl; code = refl }) valid found

  dropped_entry-Accepted :
      (o : Observation) (required : Bool) → Accepted (dropped_entry o required entry)
  unfolding dropped_entry
  dropped_entry-Accepted o required = either (not required) _ _ (obsolete-Accepted o.now) (
      either (is_confirmed entry.status) _ _
        (put_update store entry reorged o.now (with_code "REORGED_TRANSACTION_DROPPED")
          (record { hash = refl; code = refl }) valid found)
        (nonce-Accepted (ltb entry.nonce o.latest_nonce || ltb entry.nonce o.pending_nonce) o.now))

  by_receipt-Accepted :
      (options : EngineOptions) (o : Observation) (required : Bool)
      (receipt : Option TransactionReceipt) (result : JournalEntry)
      → ((r : TransactionReceipt) → receipt ≡ some r → is_hex 64 r.block_hash ≡ true)
      → by_receipt options o required entry receipt ≡ some result
      → Accepted result
  unfolding by_receipt without_receipt
  by_receipt-Accepted options o required none result hex e = ground (
    arith,
    dropped_entry-Accepted o required,
    put_update store entry submitted o.now no_options (record { hash = refl; code = refl }) valid
        found,
  )
  by_receipt-Accepted options o required (some r) result hex e = ground (
    arith,
    final_receipt-Accepted r required o.now (hex r refl),
    put_update store entry confirmed o.now (from_receipt r (some (codes "WAITING_CONFIRMATIONS")))
        (record { hash = hex r refl; code = refl }) valid found,
  )

-- The journal accepts every entry that `#reconcileEntry` writes over a stored entry that satisfies
-- the schema, provided that the block hash of the receipt is a 32-byte hexadecimal string.
pub reconcile_entry_accepted :
    (store : JournalStore) (entry : JournalEntry)
    → is_valid_entry entry ≡ true
    → get store entry.attempt_id ≡ some entry
    → (options : EngineOptions) (o : Observation) (result : JournalEntry)
    → ((r : TransactionReceipt) → o.receipt ≡ some r → is_hex 64 r.block_hash ≡ true)
    → reconcile_entry options o entry ≡ some result
    → put store result ≡ ok (set store entry.attempt_id result)
unfolding reconcile_entry
reconcile_entry_accepted store entry valid found options o result hex e = ground (
  arith,
  obsolete-Accepted store entry valid found o.now,
  by_receipt-Accepted store entry valid found options o (is_entry_required o.snapshot entry)
      o.receipt result hex,
)
