-- ===== src/Keeper/Journal/AppendOnly.antt =====
-- What the checks of keeper/src/journal.ts keep.
use leopold.Prelude.{◌≡◌, refl, true, some, List, [], ◌∷◌, ◌++◌, ◌==◌, arith}
use leopold.Prelude.Eq.{list_beq_iff, nat_eq, list_eq, option_beq_iff, get}
use leopold.Prelude.Results.{ok}
use leopold.Keeper.Planner.Actions.{kind_text}
use leopold.Keeper.Journal.{
  JournalStatus, JournalTransition, JournalEntry, JournalStore, status_number, same_transition,
  is_prefix, same_identity, assert_append_only_update, put,
}

same_transition_self : (t : JournalTransition) → same_transition t t ≡ true
unfolding same_transition
same_transition_self t = ground (
  arith,
  option_beq_iff t.block_number t.block_number,
  option_beq_iff t.block_hash t.block_hash,
  option_beq_iff t.confirmations t.confirmations,
  option_beq_iff t.error_code t.error_code,
)

pub is_prefix-append : (ss ts : List JournalTransition) → is_prefix ss (ss ++ ts) ≡ true
unfolding is_prefix
is_prefix-append [] ts = refl
is_prefix-append (s ∷ ss) ts = rw (same_transition_self s, is_prefix-append ss ts) refl

status_injective : (s t : JournalStatus) → (status_number s == status_number t) ≡ true → s ≡ t
unfolding status_number
status_injective s t h = ground arith

transition_ext :
    (s t : JournalTransition)
    → s.status ≡ t.status
    → s.at ≡ t.at
    → s.block_number ≡ t.block_number
    → s.block_hash ≡ t.block_hash
    → s.confirmations ≡ t.confirmations
    → s.error_code ≡ t.error_code
    → s ≡ t
transition_ext s t a b c d e f = cc

same_transition_eq : (s t : JournalTransition) → same_transition s t ≡ true → s ≡ t
unfolding same_transition
same_transition_eq s t h =
    transition_ext s t (status_injective s.status t.status (ground arith)) (ground arith)
      ((option_beq_iff s.block_number t.block_number).0 (ground arith))
      ((option_beq_iff s.block_hash t.block_hash).0 (ground arith))
      ((option_beq_iff s.confirmations t.confirmations).0 (ground arith))
      ((option_beq_iff s.error_code t.error_code).0 (ground arith))

-- What the test accepts is a prefix.
is_prefix_eq :
    (ss ts : List JournalTransition)
    → is_prefix ss ts ≡ true
    → (rest : List JournalTransition) × (ts ≡ ss ++ rest)
unfolding is_prefix
is_prefix_eq [] ts h = (ts, refl)
is_prefix_eq (s ∷ ss) [] h = absurd (ground arith)
is_prefix_eq (s ∷ ss) (t ∷ ts) h =
    let (rest, e) = is_prefix_eq ss ts (ground arith) in
    (rest, rw (same_transition_eq s t (ground arith), e) refl)

pub same_identity_self : (e : JournalEntry) → same_identity e e ≡ true
unfolding same_identity
same_identity_self e = ground (
  arith,
  list_beq_iff e.attempt_id e.attempt_id,
  option_beq_iff e.replay_of_attempt_id e.replay_of_attempt_id,
  list_beq_iff e.action_key e.action_key,
  list_beq_iff e.vault e.vault,
  list_beq_iff e.vault_name e.vault_name,
  list_beq_iff (kind_text e.action) (kind_text e.action),
  option_beq_iff e.cursor e.cursor,
  option_beq_iff e.account e.account,
  list_beq_iff e.tx_hash e.tx_hash,
  list_beq_iff e.calldata_hash e.calldata_hash,
)

-- What an entry keeps of the one that was stored under its attempt id.
pub record Continues (previous next : JournalEntry) : Type 0 where
  pub same_key : next.action_key ≡ previous.action_key
  pub same_hash : next.tx_hash ≡ previous.tx_hash
  pub same_nonce : next.nonce ≡ previous.nonce
  pub same_calldata : next.calldata_hash ≡ previous.calldata_hash
  pub same_submission : next.submitted_at ≡ previous.submitted_at
  pub appended : (rest : List JournalTransition) × (next.history ≡ previous.history ++ rest)

-- Where `put` succeeds on an attempt that is already in the store, the transaction that the attempt
-- is about does not change and the stored history is a prefix of the new one.
pub put-Continues :
    (store : JournalStore) (next previous : JournalEntry) (store' : JournalStore)
    → put store next ≡ ok store'
    → get store next.attempt_id ≡ some previous
    → Continues previous next
unfolding put assert_append_only_update same_identity
put-Continues store next previous store' e found = record {
  same_key = ground (arith, list_beq_iff previous.action_key next.action_key);
  same_hash = ground (arith, list_beq_iff previous.tx_hash next.tx_hash);
  same_nonce = ground arith;
  same_calldata = ground (arith, list_beq_iff previous.calldata_hash next.calldata_hash);
  same_submission = ground arith;
  appended = is_prefix_eq previous.history next.history (ground arith);
}
