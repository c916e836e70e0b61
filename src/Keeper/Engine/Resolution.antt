-- ===== src/Keeper/Engine/Resolution.antt =====
-- What the outcome of `#reconcileEntry` (keeper/src/engine.ts) says about the chain.
use leopold.Prelude.{
  ℕ, ◌+◌, ◌≤◌, ◌<◌, ◌≡◌, ◌≢◌, ◌⊎◌, inl, inr, refl, subst, Bool, true, false, ◌&&◌, ltb, Option,
  none, some, arith, Bool-cases,
}
use leopold.Keeper.Journal.{
  JournalStatus, prepared, submitted, confirmed, reconciled, unknown, reverted, obsolete, reorged,
  JournalEntry,
}
use leopold.Keeper.Engine.{
  is_closed, is_confirmed, is_fresh, update_entry, TransactionReceipt, Observation, EngineOptions,
  is_status, is_entry_required, final_receipt, dropped_entry, without_receipt, by_receipt,
  reconcile_entry,
}

is_status-true : (n : ℕ) (s : Option ℕ) → is_status n s ≡ true → s ≡ some n
is_status-true n none h = absurd (ground arith)
is_status-true n (some m) h = ground arith

is_status-false : (n : ℕ) (s : Option ℕ) → is_status n s ≡ false → s ≢ some n
is_status-false n s h e = ground arith

module _ (options : EngineOptions) (o : Observation) (entry : JournalEntry) where
  abbrev IsOpen : Type 0
  IsOpen = is_closed entry.status ≡ false

  abbrev IsRequired : Bool → Type 0
  IsRequired b = is_entry_required o.snapshot entry ≡ b

  -- A receipt with enough confirmations and such a status.
  abbrev IsFinal : (Option ℕ → Type 0) → Type 0
  IsFinal P =
      (r : TransactionReceipt) × (o.receipt ≡ some r)
      × (options.confirmations ≤ r.confirmations)
      × P r.status

  -- Neither a receipt nor a transaction, and the time that a fresh entry is given is over.
  abbrev IsGone : Type 0
  IsGone =
      (o.receipt ≡ none)
      × (o.transaction_found ≡ false)
      × (is_fresh entry.status && ltb o.checked_at (entry.submitted_at + options.receipt_wait_ms)
          ≡ false)

  -- What the chain has shown where an entry is given a status.
  abbrev pub Justified : JournalStatus → Type 0
  Justified prepared = ⊥
  Justified submitted = IsOpen × (o.receipt ≡ none) × (o.transaction_found ≡ true)
  Justified confirmed =
      IsOpen
      × ((r : TransactionReceipt) × (o.receipt ≡ some r)
          × (r.confirmations < options.confirmations))
  Justified reconciled = IsOpen × IsFinal (λ s. s ≡ some 1) × IsRequired false
  Justified reverted = IsOpen × IsFinal (λ s. s ≡ some 0) × IsRequired true
  Justified unknown =
      IsOpen
      × (IsFinal (λ s. (s ≢ some 0) × ((s ≢ some 1) ⊎ IsRequired true))
          ⊎ (IsGone × IsRequired true × (entry.status ≢ confirmed)))
  Justified reorged = IsOpen × IsGone × IsRequired true × (entry.status ≡ confirmed)
  Justified obsolete =
      IsRequired false
      × ((is_closed entry.status ≡ true) ⊎ (IsOpen × (IsFinal (λ s. s ≡ some 0) ⊎ IsGone)))

  given :
      (result : JournalEntry) (s : JournalStatus)
      → s ≡ result.status
      → Justified s
      → Justified result.status
  given result s q h = subst Justified q h

  dropped-Justified :
      (result : JournalEntry)
      → IsOpen
      → IsGone
      → dropped_entry o (is_entry_required o.snapshot entry) entry ≡ result
      → Justified result.status
  unfolding dropped_entry update_entry is_confirmed
  dropped-Justified result still gone e = elim (Bool-cases (is_entry_required o.snapshot entry)) [
    | inr n ↦ given result obsolete (ground arith) (n, inr (still, inr gone))
    | inl y ↦ elim (Bool-cases (is_confirmed entry.status)) [
      | inl c ↦ given result reorged (ground arith) (still, gone, y, ground arith)
      | inr c ↦ given result unknown (ground arith) (still, inr (gone, y, λ q. ground (arith, q)))
    ]
  ]

  final-Justified :
      (result : JournalEntry) (r : TransactionReceipt)
      → IsOpen
      → o.receipt ≡ some r
      → options.confirmations ≤ r.confirmations
      → final_receipt r (is_entry_required o.snapshot entry) o.now entry ≡ result
      → Justified result.status
  unfolding final_receipt update_entry
  final-Justified result r still here enough e = elim (Bool-cases (is_status 1 r.status)) [
    | inl one ↦ elim (Bool-cases (is_entry_required o.snapshot entry)) [
      | inl y ↦ given result unknown (ground arith) (
        still,
        inl (r, here, enough, ((λ z. ground (arith, is_status-true 1 r.status one, z)), inr y)),
      )
      | inr n ↦
          given result reconciled (ground arith)
            (still, (r, here, enough, is_status-true 1 r.status one), n)
    ]
    | inr other ↦ elim (Bool-cases (is_status 0 r.status)) [
      | inl nil ↦ elim (Bool-cases (is_entry_required o.snapshot entry)) [
        | inl y ↦
            given result reverted (ground arith)
              (still, (r, here, enough, is_status-true 0 r.status nil), y)
        | inr n ↦
            given result obsolete (ground arith)
              (n, inr (still, inl (r, here, enough, is_status-true 0 r.status nil)))
      ]
      | inr z ↦ given result unknown (ground arith) (
        still,
        inl (
          r,
          here,
          enough,
          (is_status-false 0 r.status z, inl (is_status-false 1 r.status other)),
        ),
      )
    ]
  ]

  without-Justified :
      (result : JournalEntry)
      → IsOpen
      → o.receipt ≡ none
      → without_receipt options o (is_entry_required o.snapshot entry) entry ≡ some result
      → Justified result.status
  unfolding without_receipt update_entry
  without-Justified result still nothing e = elim (Bool-cases o.transaction_found) [
    | inl found ↦ given result submitted (ground arith) (still, nothing, found)
    | inr lost ↦ dropped-Justified result still (nothing, lost, ground arith) (ground arith)
  ]

  by_receipt-Justified :
      (result : JournalEntry) (receipt : Option TransactionReceipt)
      → IsOpen
      → o.receipt ≡ receipt
      → by_receipt options o (is_entry_required o.snapshot entry) entry receipt ≡ some result
      → Justified result.status
  unfolding by_receipt update_entry
  by_receipt-Justified result none still here e = without-Justified result still here e
  by_receipt-Justified result (some r) still here e =
      elim (Bool-cases (ltb r.confirmations options.confirmations)) [
        | inl few ↦ given result confirmed (ground arith) (still, (r, here, ground arith))
        | inr enough ↦ final-Justified result r still here (ground arith) (ground arith)
      ]

  -- Every status that `#reconcileEntry` gives is one that the chain accounts for. A closed
  -- entry, unknown or reverted, only becomes obsolete, and only when its action is not required any
  -- more. For the others: `submitted` has a
  -- transaction and no receipt; `confirmed` a receipt with too few confirmations; with enough
  -- confirmations, `reconciled` has receipt status 1 and an action no longer required, `reverted`
  -- receipt status 0 and an action still required, `obsolete` receipt status 0 and an action no
  -- longer required, and `unknown` any other receipt. Where receipt and transaction are both gone
  -- and a fresh entry's time is over, `obsolete` has an action no longer required, `reorged` a
  -- confirmed entry whose action still is, and `unknown` any other whose action still is.
  pub reconcile_entry-Justified :
      (result : JournalEntry)
      → reconcile_entry options o entry ≡ some result
      → Justified result.status
  unfolding reconcile_entry update_entry
  reconcile_entry-Justified result e = elim (Bool-cases (is_closed entry.status)) [
    | inl shut ↦ elim (Bool-cases (is_entry_required o.snapshot entry)) [
      | inl y ↦ absurd (ground arith)
      | inr n ↦ given result obsolete (ground arith) (n, inl shut)
    ]
    | inr still ↦ by_receipt-Justified result o.receipt still refl (ground arith)
  ]
