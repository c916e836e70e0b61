-- ===== src/Keeper/Run/Steps.antt =====
-- The methods of `KeeperEngine` (keeper/src/engine.ts), over a gateway.
use leopold.Prelude.{
  ℕ, zero, suc, ◌+◌, Bool, true, false, not, ◌&&◌, Option, none, some, List, [], ◌∷◌, ◌==◌, ltb,
  leb, if◌then◌else◌,
}
use leopold.Prelude.Int.{ℤ, ◌-ℤ◌, ltb_ℤ}
use leopold.Prelude.Eq.{list_beq, nat_eq}
use leopold.Prelude.Search.{keep}
use leopold.Prelude.Results.{Result, ok, err}
use leopold.Prelude.Text.{Text, to_lower_case}
use leopold.Keeper.Lifecycle.{sepolia_chain_id, LifecycleAction, ProtocolSnapshot}
use leopold.Keeper.Planner.{plan_next_action}
use leopold.Keeper.Planner.Required.{is_action_required}
use leopold.Keeper.Journal.{
  JournalStatus, submitted, confirmed, reconciled, obsolete, unknown, JournalEntry,
  PreparedTransaction, journal_entry_for_prepared,
}
use leopold.Keeper.Engine.{
  is_unresolved, update_entry, no_options, UpdateOptions, TransactionReceipt, Observation,
  is_closed, is_fresh, is_confirmed, is_entry_required, reconcile_entry, values,
}
use leopold.Keeper.Gateway.{SignedLifecycleTransaction, latest, pending, KeeperGateway, read_hint}
use leopold.Keeper.Run.{
  EngineError, refuses_chain, snapshot_not_sepolia, cannot_cover_cost, hash_mismatch, out_of_fuel,
  KeeperOptions, KeeperRunResult, idle, blocked, submitted_result, reconciled_result,
  obsolete_result, EngineState, Engine, safe_error_code, pure, raise, gets, attempt, call, ◌>>=◌,
  ◌>>◌, raise_if, guard_balance, put_entry,
}

abbrev pub with_error : Text → UpdateOptions
with_error code = record {
  block_number = none;
  block_hash = none;
  confirmations = none;
  error_code = some code;
}

-- The last entry of an action's attempts, in the order of the list.
unfoldable pub last_attempt : Text → List JournalEntry → Option JournalEntry
last_attempt key [] = none
last_attempt key (e ∷ es) =
    let rest = last_attempt key es in
    elim rest [ some f ↦ some f | none ↦ if list_beq e.action_key key then some e else none ]

abbrev pub replays : Option JournalEntry → Option Text
replays none = none
replays (some e) = some e.attempt_id

abbrev pub is_waiting : JournalStatus → Bool
is_waiting submitted = true
is_waiting confirmed = true
is_waiting status = false

abbrev pub to_prepare : SignedLifecycleTransaction → PreparedTransaction
to_prepare t = record { hash = t.hash; nonce = t.nonce; calldata_hash = t.calldata_hash }

module _ {World : Type 0} (gateway : KeeperGateway World) (options : KeeperOptions) where
  unfoldable pub preflight : Engine World ℤ
  preflight = do
    chain_id ← call gateway.get_chain_id
    raise_if (not (chain_id == sepolia_chain_id)) (refuses_chain chain_id)
    balance ← call gateway.get_keeper_balance
    guard_balance options balance
    pure balance

  abbrev pub clock : Engine World ℕ
  clock = gets (λ s. gateway.now s.world)

  -- The two nonces, read only where an entry is about to become unknown.
  unfoldable pub nonces : Bool → Engine World (ℕ × ℕ)
  nonces false = pure (0, 0)
  nonces true = do
    latest_nonce ← call (gateway.get_transaction_count latest)
    pending_nonce ← call (gateway.get_transaction_count pending)
    pure (latest_nonce, pending_nonce)

  abbrev pub observed :
      Option TransactionReceipt → ProtocolSnapshot → Bool → ℕ → ℕ × ℕ → Engine World Observation
  observed receipt snapshot found checked_at counts = do
    now ← clock
    pure (record {
      receipt = receipt;
      snapshot = snapshot;
      now = now;
      transaction_found = found;
      checked_at = checked_at;
      latest_nonce = counts.0;
      pending_nonce = counts.1;
    })

  -- What is read where there is no receipt.
  unfoldable pub observe_transaction : JournalEntry → ProtocolSnapshot → Engine World Observation
  observe_transaction entry snapshot = do
    found ← call (gateway.get_transaction entry.tx_hash)
    checked_at ← clock
    counts ← nonces (
        not found
        && (not (
              is_fresh entry.status
              && ltb checked_at (entry.submitted_at + options.reconciling.receipt_wait_ms))
            && (is_entry_required snapshot entry && not (is_confirmed entry.status))))
    observed none snapshot found checked_at counts

  abbrev pub observe_receipt :
      JournalEntry → ProtocolSnapshot → Option TransactionReceipt → Engine World Observation
  observe_receipt entry snapshot (some receipt) = observed (some receipt) snapshot false 0 (0, 0)
  observe_receipt entry snapshot none =
      if is_closed entry.status
      then observed none snapshot false 0 (0, 0)
      else observe_transaction entry snapshot

  unfoldable pub observe : JournalEntry → Engine World Observation
  observe entry = do
    receipt ← call (gateway.get_receipt entry.tx_hash)
    snapshot ← call (
        gateway.read_snapshot
          (some (read_hint entry.vault entry.action entry.account entry.round_id)))
    observe_receipt entry snapshot receipt

  -- The entry is put only where the decision changes it.
  abbrev pub settle : JournalEntry → Option JournalEntry → Engine World JournalEntry
  settle entry none = pure entry
  settle entry (some result) = put_entry result >> pure result

  -- `#reconcileEntry`: what is observed, and the decision on it.
  unfoldable pub reconcile : JournalEntry → Engine World JournalEntry
  reconcile entry = do o ← observe entry; settle entry (reconcile_entry options.reconciling o entry)

  unfoldable pub reconcile_all : List JournalEntry → Engine World (Option JournalEntry)
  reconcile_all [] = pure none
  reconcile_all (entry ∷ entries) =
      let rest = reconcile_all entries in
      do result ← reconcile entry; if is_unresolved result.status then pure (some result) else rest

  abbrev pub listed : Engine World (List JournalEntry)
  listed = gets (λ s. values s.journal)

  -- `#reconcileOutstanding`
  unfoldable pub reconcile_journal : Engine World (Option JournalEntry)
  reconcile_journal = do
    entries ← listed
    reconcile_all (keep (λ e. is_unresolved e.status) entries)

  unfoldable pub pause : Engine World (Unit {0})
  pause s = (ok tt, record s { world = gateway.sleep options.receipt_poll_ms s.world })

  -- The loop of `#waitAndReconcile`, on fuel.
  unfoldable pub wait_until : ℕ → ℕ → JournalEntry → Engine World JournalEntry
  wait_until zero deadline entry = raise out_of_fuel
  wait_until (suc fuel) deadline entry =
      let again = wait_until fuel deadline in
      do
        current ← reconcile entry
        if not (is_waiting current.status) then pure current else (do
          now ← clock
          if leb deadline now then pure current else (pause >> again current))

  unfoldable pub wait_and_reconcile : JournalEntry → Engine World JournalEntry
  wait_and_reconcile entry = do
    now ← clock
    wait_until (suc options.reconciling.receipt_wait_ms) (now + options.reconciling.receipt_wait_ms)
        entry

  abbrev pub outcome : Text → Text → JournalEntry → JournalStatus → KeeperRunResult
  outcome key hash final reconciled = reconciled_result key hash
  outcome key hash final obsolete = obsolete_result key hash
  outcome key hash final submitted = submitted_result key hash
  outcome key hash final status = blocked key status

  -- The `catch` around the broadcast.
  unfoldable pub give_up : JournalEntry → Text → EngineError → Engine World KeeperRunResult
  give_up entry key error = do
    now ← clock
    put_entry (update_entry entry unknown now (with_error (safe_error_code error)))
    pure (blocked key unknown)

  abbrev pub after_submitted :
      JournalEntry → Text → Text → Result EngineError (Unit {0}) → Engine World KeeperRunResult
  after_submitted entry key hash (err e) = give_up entry key e
  after_submitted entry key hash (ok u) = do
    final ← wait_and_reconcile entry
    pure (outcome key hash final final.status)

  -- `entry` is the submitted one when its own `put` throws.
  unfoldable pub record_submitted : JournalEntry → Text → Text → Engine World KeeperRunResult
  record_submitted entry key hash = do
    now ← clock
    let submitted_entry = update_entry entry submitted now no_options
    r ← attempt (put_entry submitted_entry)
    after_submitted submitted_entry key hash r

  abbrev pub after_broadcast :
      JournalEntry → Text → Text → Result EngineError Text → Engine World KeeperRunResult
  after_broadcast entry key hash (err e) = give_up entry key e
  after_broadcast entry key hash (ok returned) =
      if not (list_beq (to_lower_case returned) (to_lower_case hash))
      then give_up entry key hash_mismatch
      else record_submitted entry key hash

  -- The call of the gateway, recorded.
  unfoldable pub send : SignedLifecycleTransaction → Engine World Text
  send transaction s = call (gateway.broadcast transaction) (record s {
    broadcasts = record { transaction = transaction; journal = s.journal } ∷ s.broadcasts;
  })

  -- From the signature on.
  unfoldable pub submit : LifecycleAction → Option Text → Text → Engine World KeeperRunResult
  submit action replay calldata = do
    transaction ← call (gateway.sign action calldata)
    balance ← call gateway.get_keeper_balance
    guard_balance options balance
    raise_if (ltb_ℤ (balance -ℤ options.minimum_balance_wei) transaction.maximum_cost_wei)
        cannot_cover_cost
    now ← clock
    let entry = journal_entry_for_prepared action (to_prepare transaction) now replay
    put_entry entry
    r ← attempt (send transaction)
    after_broadcast entry action.key transaction.hash r

  unfoldable pub prepare_data : LifecycleAction → Engine World Text
  prepare_data action = do
    calldata ← call (gateway.encode_action action)
    call (gateway.simulate action calldata)
    pure calldata

  -- The `catch` around the preparation.
  unfoldable pub unprepared : LifecycleAction → EngineError → Engine World KeeperRunResult
  unprepared action error = do
    snapshot ← call (
        gateway.read_snapshot
          (some (read_hint action.vault.address action.kind action.account action.round_id)))
    if not (is_action_required snapshot action) then pure idle else raise error

  abbrev pub after_preparation :
      LifecycleAction → Option Text → Result EngineError Text → Engine World KeeperRunResult
  after_preparation action replay (err e) = unprepared action e
  after_preparation action replay (ok calldata) = submit action replay calldata

  unfoldable pub act_after : LifecycleAction → Option JournalEntry → Engine World KeeperRunResult
  act_after action none = do r ← attempt (prepare_data action); after_preparation action none r
  act_after action (some previous) =
      if is_unresolved previous.status
      then pure (blocked previous.action_key previous.status)
      else (do
        r ← attempt (prepare_data action)
        after_preparation action (some previous.attempt_id) r)

  abbrev pub act : Option LifecycleAction → Engine World KeeperRunResult
  act none = pure idle
  act (some action) = do entries ← listed; act_after action (last_attempt action.key entries)

  abbrev pub after_outstanding : Option JournalEntry → Engine World KeeperRunResult
  after_outstanding (some entry) = pure (blocked entry.action_key entry.status)
  after_outstanding none = do
    snapshot ← call (gateway.read_snapshot none)
    raise_if (not (snapshot.chain_id == sepolia_chain_id)) snapshot_not_sepolia
    act (plan_next_action snapshot)

  unfoldable pub run_once : Engine World KeeperRunResult
  run_once = do preflight; outstanding ← reconcile_journal; after_outstanding outstanding

  -- The wait of `POLL_INTERVAL_MS` between two runs.
  rest : ℕ → EngineState World → EngineState World
  rest interval s = record s { world = gateway.sleep interval s.world }

  -- The polling loop of keeper/src/cli.ts, which goes on after an error, for a number of rounds.
  unfoldable pub poll : ℕ → ℕ → EngineState World → EngineState World
  unfolding rest
  poll interval zero s = s
  poll interval (suc n) s = poll interval n (rest interval (run_once s).1)
