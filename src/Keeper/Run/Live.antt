-- ===== src/Keeper/Run/Live.antt =====
-- Which entries of the journal are unresolved, in a run of the engine (keeper/src/engine.ts).
use leopold.Prelude.{
  ◌≡◌, refl, sym, ◌∙◌, inl, inr, true, false, none, some, List, [], ◌∷◌, arith, Bool-cases,
}
use leopold.Prelude.Eq.{nat_eq, list_eq, list_beq, list_beq_iff, get, set, get-set}
use leopold.Prelude.Search.{In}
use leopold.Prelude.Text.{Text}
use leopold.Keeper.Journal.{JournalEntry, JournalStore, prepared}
use leopold.Keeper.Engine.{is_unresolved, values}
use leopold.Keeper.Engine.Outstanding.{IsKeyed}
use leopold.Keeper.Run.{Broadcast}

-- A map: each entry under its own attempt id, and no id twice.
abbrev pub IsMap : JournalStore → Type 0
IsMap [] = Unit {0}
IsMap ((k, e) ∷ store) = (e.attempt_id ≡ k) × (get store k ≡ none) × IsMap store

pub IsMap-IsKeyed : (store : JournalStore) → IsMap store → IsKeyed store
unfolding get
IsMap-IsKeyed [] m k e h = absurd (ground arith)
IsMap-IsKeyed ((j, x) ∷ store) m k e h =
    ground (arith, list_beq_iff j k, IsMap-IsKeyed store m.2 k e)

pub set-IsMap :
    (store : JournalStore) (e : JournalEntry) → IsMap store → IsMap (set store e.attempt_id e)
unfolding get set
set-IsMap [] e m = (refl, refl, tt)
set-IsMap ((j, x) ∷ store) e m = elim (Bool-cases (list_beq j e.attempt_id)) [
  | inl here ↦ rw here (sym ((list_beq_iff j e.attempt_id).0 here), m.1, m.2)
  | inr off ↦ rw off (
    m.0,
    get-set store e.attempt_id j e
        ∙ ground (arith, list_beq_iff e.attempt_id j, list_beq_iff j e.attempt_id, m.1),
    set-IsMap store e m.2,
  )
]

pub get-values :
    (store : JournalStore) (e : JournalEntry)
    → IsMap store
    → In e (values store)
    → get store e.attempt_id ≡ some e
unfolding get
get-values [] e m i = absurd i
get-values ((j, x) ∷ store) e m (inl q) = ground (arith, list_beq_iff j x.attempt_id, q)
get-values ((j, x) ∷ store) e m (inr i) =
    let q = get-values store e m.2 i in
    elim (Bool-cases (list_beq j e.attempt_id)) [
      | inl h ↦ absurd (ground (arith, (list_beq_iff j e.attempt_id).0 h, m.1, q))
      | inr n ↦ rw n q
    ]

-- No entry but that of one attempt is unresolved.
abbrev pub OnlyLive : Text → JournalStore → Type 0
OnlyLive id store =
    (k : Text) (e : JournalEntry)
    → get store k ≡ some e
    → is_unresolved e.status ≡ true
    → e.attempt_id ≡ id

abbrev pub AllResolved : JournalStore → Type 0
AllResolved store =
    (k : Text) (e : JournalEntry) → get store k ≡ some e → is_unresolved e.status ≡ false

-- A transaction that is broadcast has its prepared entry in the journal, and it is the one
-- unresolved entry.
pub record IsPrepared (x : Broadcast) : Type 0 where
  pub entry : JournalEntry
  pub stored : get x.journal entry.attempt_id ≡ some entry
  pub has_status : entry.status ≡ prepared
  pub same_hash : entry.tx_hash ≡ x.transaction.hash
  pub same_nonce : entry.nonce ≡ x.transaction.nonce
  pub only : OnlyLive entry.attempt_id x.journal

abbrev pub AllPrepared : List Broadcast → Type 0
AllPrepared [] = Unit {0}
AllPrepared (x ∷ xs) = IsPrepared x × AllPrepared xs

abbrev pub Only : Text → JournalStore → List Broadcast → Type 0
Only id j b = IsMap j × OnlyLive id j × AllPrepared b

abbrev pub Clear : JournalStore → List Broadcast → Type 0
Clear j b = IsMap j × AllResolved j × AllPrepared b

-- At most one attempt is unresolved.
pub record IsSafe (j : JournalStore) (b : List Broadcast) : Type 0 where
  pub is_map : IsMap j
  pub live_id : Text
  pub only_live : OnlyLive live_id j
  pub all_prepared : AllPrepared b

pub Only-IsSafe : (id : Text) (j : JournalStore) (b : List Broadcast) → Only id j b → IsSafe j b
Only-IsSafe id j b h = record { is_map = h.0; live_id = id; only_live = h.1; all_prepared = h.2 }

pub Clear-Only : (id : Text) (j : JournalStore) (b : List Broadcast) → Clear j b → Only id j b
Clear-Only id j b h = (h.0, λ k e g u. absurd (ground (arith, h.1 k e g, u)), h.2)

pub set-OnlyLive :
    (id : Text) (store : JournalStore) (e : JournalEntry)
    → OnlyLive id store
    → e.attempt_id ≡ id
    → OnlyLive id (set store e.attempt_id e)
set-OnlyLive id store e live same k x g u = ground (arith, get-set store e.attempt_id k e, live k x)

pub set-Only :
    (id : Text) (j : JournalStore) (b : List Broadcast) (e : JournalEntry)
    → Only id j b
    → e.attempt_id ≡ id
    → Only id (set j e.attempt_id e) b
set-Only id j b e h same = (set-IsMap j e h.0, set-OnlyLive id j e h.1 same, h.2)
