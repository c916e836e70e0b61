-- ===== src/Keeper/Engine/Outstanding.antt =====
-- What `#reconcileOutstanding` (keeper/src/engine.ts) leaves in the journal.
use leopold.Prelude.{
  ◌≡◌, refl, ◌⊎◌, inl, inr, true, false, none, some, List, [], ◌∷◌, arith, Bool-cases, Option-cases,
}
use leopold.Prelude.Eq.{nat_eq, list_eq, list_beq, list_beq_iff, get, set, get-set}
use leopold.Prelude.Search.{In, keep, In-keep, keep-In}
use leopold.Prelude.Results.{ok, Result-cases}
use leopold.Prelude.Text.{Text}
use leopold.Keeper.Journal.{JournalEntry, JournalStore, put}
use leopold.Keeper.Engine.{
  is_unresolved, update_entry, Observation, EngineOptions, reconcile_entry, by_receipt,
  without_receipt, dropped_entry, final_receipt, after_entry, reconcile_entries, values,
  reconcile_outstanding,
}

-- Each entry is stored under its own attempt id.
abbrev pub IsKeyed : JournalStore → Type 0
IsKeyed store = (k : Text) (e : JournalEntry) → get store k ≡ some e → e.attempt_id ≡ k

pub attempt_id-reconcile :
    (options : EngineOptions) (o : Observation) (entry result : JournalEntry)
    → reconcile_entry options o entry ≡ some result
    → result.attempt_id ≡ entry.attempt_id
unfolding reconcile_entry by_receipt without_receipt dropped_entry final_receipt update_entry
attempt_id-reconcile options o entry result e = ground arith

pub put_ok :
    (store : JournalStore) (e : JournalEntry) (store' : JournalStore)
    → put store e ≡ ok store'
    → store' ≡ set store e.attempt_id e
unfolding put
put_ok store e store' h = ground arith

-- What is stored is resolved, or is still to come.
abbrev pub Covered : JournalStore → List JournalEntry → Type 0
Covered store entries =
    (k : Text) (e : JournalEntry)
    → get store k ≡ some e
    → (is_unresolved e.status ≡ false)
      ⊎ ((x : JournalEntry) × In x entries × (x.attempt_id ≡ e.attempt_id))

pub set-IsKeyed :
    (store : JournalStore) (r : JournalEntry) → IsKeyed store → IsKeyed (set store r.attempt_id r)
set-IsKeyed store r keyed k e h =
    ground (arith, get-set store r.attempt_id k r, list_beq_iff r.attempt_id k, keyed k e)

pub set-Covered :
    (store : JournalStore) (x r : JournalEntry) (xs : List JournalEntry)
    → IsKeyed store
    → Covered store (x ∷ xs)
    → r.attempt_id ≡ x.attempt_id
    → is_unresolved r.status ≡ false
    → Covered (set store r.attempt_id r) xs
set-Covered store x r xs keyed c same resolved k e h = elim (Bool-cases (list_beq r.attempt_id k)) [
  | inl at ↦ inl (ground (arith, get-set store r.attempt_id k r))
  | inr off ↦ elim (c k e (ground (arith, get-set store r.attempt_id k r))) [
    | inl resolved ↦ inl resolved
    | inr (y, inl is_x, q) ↦
        absurd
          (ground (arith, keyed k e, get-set store r.attempt_id k r, list_beq_iff r.attempt_id k))
    | inr (y, inr later, q) ↦ inr (y, later, q)
  ]
]

pub In-values :
    (store : JournalStore) (k : Text) (e : JournalEntry)
    → get store k ≡ some e
    → In e (values store)
unfolding get
In-values [] k e h = absurd (ground arith)
In-values ((j, x) ∷ store) k e h = ground (arith, In-values store k e)

resolves :
    (options : EngineOptions) (observe : JournalEntry → Observation) (entries : List JournalEntry)
    (store store' : JournalStore)
    → IsKeyed store
    → Covered store entries
    → ((x : JournalEntry) → In x entries → is_unresolved x.status ≡ true)
    → reconcile_entries options observe entries store ≡ (store', ok none)
    → (k : Text) (e : JournalEntry) → get store' k ≡ some e
    → is_unresolved e.status ≡ false
unfolding reconcile_entries after_entry
resolves options observe [] store store' keyed c live e k x h = elim (c k x (ground arith)) [
  | inl r ↦ r
  | inr (y, i, q) ↦ absurd i
]
resolves options observe (x ∷ xs) store store' keyed c live e k y h =
    elim (Option-cases (reconcile_entry options (observe x) x)) [
      | inl same ↦ absurd (ground (arith, live x (inl refl), same))
      | inr (r, step) ↦ elim (Result-cases (put store r)) [
        | inl (failure, q) ↦ absurd (ground (arith, step, q))
        | inr (store₁, q) ↦ elim (Bool-cases (is_unresolved r.status)) [
          | inl stays ↦ absurd (ground (arith, step, q, stays))
          | inr resolved ↦
              resolves options observe xs store₁ store'
                (rw (put_ok store r store₁ q) (set-IsKeyed store r keyed))
                (rw (put_ok store r store₁ q) (
                  set-Covered store x r xs keyed c
                    (attempt_id-reconcile options (observe x) x r step) resolved))
                (λ z i. live z (inr i)) (ground (arith, step, q, resolved)) k y h
        ]
      ]
    ]

-- When `#reconcileOutstanding` lets the engine go on, whatever the chain answered, no entry of the
-- journal is left in an unresolved status, provided that each entry was stored under its own
-- attempt id.
reconcile_outstanding_resolves :
    (options : EngineOptions) (observe : JournalEntry → Observation) (store store' : JournalStore)
    → IsKeyed store
    → reconcile_outstanding options observe store ≡ (store', ok none)
    → (k : Text) (e : JournalEntry) → get store' k ≡ some e
    → is_unresolved e.status ≡ false
unfolding reconcile_outstanding
reconcile_outstanding_resolves options observe store store' keyed e =
    resolves options observe (keep (λ e. is_unresolved e.status) (values store)) store store' keyed
      (λ k x h. elim (Bool-cases (is_unresolved x.status)) [
        | inl still ↦ inr (x, In-keep _ (values store) x (In-values store k x h) still, refl)
        | inr resolved ↦ inl resolved
      ])
      (λ x i. (keep-In _ (values store) x i).1) e
