-- ===== src/Keeper/Journal/Simulation.antt =====
-- The two journals of keeper/src/journal.ts, in a file and in memory, side by side.
use leopold.Prelude.{
  ◌≡◌, ◌↔◌, refl, sym, ◌∙◌, Bool, true, false, not, Option, none, some, List, [], ◌∷◌, ◌++◌, arith,
  Bool-cases, inl, inr, if◌then◌else◌,
}
use leopold.Prelude.Eq.{list_beq, list_beq_iff, nat_eq, list_eq, get, set, get-set}
use leopold.Prelude.Search.{find, keep}
use leopold.Prelude.Results.{ok, err}
use leopold.Prelude.Text.{Text}
use leopold.Keeper.Journal.{JournalEntry, JournalStore, JournalError, put}
use leopold.Keeper.Journal.Document.{
  JournalDocument, is_valid_document, find_attempt, with_entry, file_put,
}

find-append :
    {A : Type 0} (p : A → Bool) (xs ys : List A)
    → find p (xs ++ ys) ≡ (elim (find p xs) [ some x ↦ some x | none ↦ find p ys ])
unfolding find
find-append p [] ys = refl
find-append p (x ∷ xs) ys = elim (Bool-cases (p x)) [
  | inl h ↦ rw h refl
  | inr n ↦ rw n (find-append p xs ys)
]

-- The other attempts are found as before, and the entry's own is gone.
find-others :
    (es : List JournalEntry) (id k : Text)
    → find_attempt (keep (λ c. not (list_beq c.attempt_id id)) es) k
      ≡ (if list_beq id k then none else find_attempt es k)
unfolding find_attempt find keep
find-others [] id k = ground arith
find-others (e ∷ es) id k = ground (
  arith,
  list_beq_iff e.attempt_id id,
  list_beq_iff e.attempt_id k,
  list_beq_iff id k,
  find-others es id k,
)

find-with_entry :
    (d : JournalDocument) (e : JournalEntry) (k : Text)
    → find_attempt (with_entry d e).entries k
      ≡ (if list_beq e.attempt_id k then some e else find_attempt d.entries k)
unfolding with_entry find_attempt find
find-with_entry d e k =
    find-append (λ c. list_beq c.attempt_id k) _ (e ∷ [])
    ∙ (rw (find-others d.entries e.attempt_id k)
        (last (list_beq e.attempt_id k) refl (find_attempt d.entries k)))
  where
    last :
        (b : Bool)
        → list_beq e.attempt_id k ≡ b
        → (o : Option JournalEntry)
        → (elim (if b then none else o) [
          | some x ↦ some x
          | none ↦ find (λ c. list_beq c.attempt_id k) (e ∷ [])
        ])
          ≡ (if b then some e else o)
    last true h o = ground (arith, h)
    last false h none = ground (arith, h)
    last false h (some x) = refl

-- Both journals hold the same entry of every attempt, in whatever order.
abbrev pub Agree : JournalDocument → JournalStore → Type 0
Agree d m = (k : Text) → find_attempt d.entries k ≡ get m k

with_entry-Agree :
    (d : JournalDocument) (m : JournalStore) (e : JournalEntry)
    → Agree d m
    → Agree (with_entry d e) (set m e.attempt_id e)
with_entry-Agree d m e agree k =
    find-with_entry d e k ∙ (rw (agree k) (sym (get-set m e.attempt_id k e)))

-- As long as the two journals agree, the file refuses what the memory refuses, with its error.
pub file_put_refuses :
    (d : JournalDocument) (m : JournalStore) (e : JournalEntry) (x : JournalError)
    → Agree d m
    → put m e ≡ err x
    → file_put d e ≡ err x
unfolding file_put put
file_put_refuses d m e x agree h = ground (arith, h, agree e.attempt_id)

module _ (d d' : JournalDocument) (m : JournalStore) (e : JournalEntry) (agree : Agree d m) where
  file_put_taken :
      file_put d e ≡ ok d'
      → (m' : JournalStore) × (put m e ≡ ok m')
        × (with_entry d e ≡ d')
        × (is_valid_document d' ≡ true)
        × Agree d' m'
  unfolding file_put put
  file_put_taken h = (
    set m e.attempt_id e,
    ground (arith, h, agree e.attempt_id),
    stored,
    ground (arith, h),
    rw (← stored) (with_entry-Agree d m e agree),
  )
    where
      stored : with_entry d e ≡ d'
      stored = ground (arith, h)

  file_put_takes :
      (m' : JournalStore)
      → put m e ≡ ok m'
      → with_entry d e ≡ d'
      → is_valid_document d' ≡ true
      → file_put d e ≡ ok d'
  unfolding file_put put
  file_put_takes m' p q v = ground (arith, p, q, v, agree e.attempt_id)

  -- As long as the two journals agree, the file takes an entry exactly when the memory takes it and
  -- the document with the entry in it satisfies the schema: valid entries, named checkpoints, no
  -- attempt and no hash twice, and a parent for each replay. The file then holds that document, and the two journals agree again
  -- on the entry of every attempt, in whatever order they hold them.
  pub file_put_simulates : (file_put d e ≡ ok d') ↔ (
      (m' : JournalStore) × (put m e ≡ ok m')
      × (with_entry d e ≡ d')
      × (is_valid_document d' ≡ true)
      × Agree d' m')
  file_put_simulates = (file_put_taken, λ x. let (m', p, q, v, a) = x in file_put_takes m' p q v)
