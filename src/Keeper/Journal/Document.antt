-- ===== src/Keeper/Journal/Document.antt =====
-- The journal in a file (`FileJournalStore` of keeper/src/journal.ts), as the document that the file
-- holds: `#read` parses it, and every write parses the next one first.
use leopold.Prelude.{
  Bool, true, false, not, ◌&&◌, ◌||◌, Option, none, some, List, [], ◌∷◌, ◌++◌, if◌then◌else◌,
}
use leopold.Prelude.Eq.{list_beq, nat_eq, list_eq, get, set}
use leopold.Prelude.Search.{find, keep}
use leopold.Prelude.Results.{Result, ok, err, ◌>>◌, throw_if}
use leopold.Prelude.Text.{Text, to_lower_case}
use leopold.Keeper.Journal.{
  JournalEntry, JournalError, invalid_entry, invalid_document, empty_checkpoint_key, is_valid_entry,
  check_previous,
}

pub record JournalDocument : Type 0 where
  pub entries : List JournalEntry
  pub checkpoints : List (Text × Text)

-- What `#read` gives where there is no file.
abbrev pub empty_journal : JournalDocument
empty_journal = record { entries = []; checkpoints = [] }

unfoldable pub contains : Text → List Text → Bool
contains t [] = false
contains t (u ∷ us) = list_beq u t || contains t us

-- The two sets of the loop, and the entries with a replay parent.
are_distinct : List Text → Bool
are_distinct [] = true
are_distinct (t ∷ ts) = not (contains t ts) && are_distinct ts

unfoldable pub attempts : List JournalEntry → List Text
attempts [] = []
attempts (e ∷ es) = e.attempt_id ∷ attempts es

hashes : List JournalEntry → List Text
hashes [] = []
hashes (e ∷ es) = to_lower_case e.tx_hash ∷ hashes es

has_parent : List Text → Option Text → Bool
has_parent ids none = true
has_parent ids (some []) = true
has_parent ids (some (c ∷ cs)) = contains (c ∷ cs) ids

have_parents : List Text → List JournalEntry → Bool
unfolding has_parent
have_parents ids [] = true
have_parents ids (e ∷ es) = has_parent ids e.replay_of_attempt_id && have_parents ids es

are_valid : List JournalEntry → Bool
are_valid [] = true
are_valid (e ∷ es) = is_valid_entry e && are_valid es

are_named : List (Text × Text) → Bool
are_named [] = true
are_named (([], v) ∷ cs) = false
are_named ((c ∷ k, v) ∷ cs) = are_named cs

-- `journalDocumentSchema`
unfoldable pub is_valid_document : JournalDocument → Bool
unfolding are_distinct hashes have_parents are_valid are_named
is_valid_document d =
    are_valid d.entries
    && are_named d.checkpoints
    && are_distinct (attempts d.entries)
    && are_distinct (hashes d.entries)
    && have_parents (attempts d.entries) d.entries

-- `parseJournal`
abbrev pub parse_journal : JournalDocument → Result JournalError JournalDocument
parse_journal d = if is_valid_document d then ok d else err invalid_document

unfoldable pub find_attempt : List JournalEntry → Text → Option JournalEntry
find_attempt es id = find (λ e. list_beq e.attempt_id id) es

-- `{ ...current, entries: [...entries, parsedEntry] }`
unfoldable pub with_entry : JournalDocument → JournalEntry → JournalDocument
with_entry d e = record d {
  entries = keep (λ c. not (list_beq c.attempt_id e.attempt_id)) d.entries ++ (e ∷ []);
}

unfoldable pub file_put : JournalDocument → JournalEntry → Result JournalError JournalDocument
file_put current entry = do
  throw_if (not (is_valid_entry entry)) invalid_entry
  check_previous (find_attempt current.entries entry.attempt_id) entry
  parse_journal (with_entry current entry)

unfoldable pub file_put_checkpoint :
    JournalDocument → Text → Text → Result JournalError JournalDocument
file_put_checkpoint current [] value = err empty_checkpoint_key
file_put_checkpoint current (c ∷ key) value =
    parse_journal (record current { checkpoints = set current.checkpoints (c ∷ key) value })

abbrev pub file_get_checkpoint : JournalDocument → Text → Option Text
file_get_checkpoint current key = get current.checkpoints key
