-- ===== src/Keeper/Run/Termination/Methods.antt =====
-- The methods of the engine (keeper/src/engine.ts) end, when the clock runs.
use leopold.Prelude.{
  ℕ, zero, suc, ◌+◌, ◌≤◌, ap, ◌≢◌, Bool, true, false, not, Option, none, some, List, [], ◌∷◌, arith,
  leb,
}
use leopold.Prelude.Eq.{list_beq, nat_eq}
use leopold.Prelude.Results.{Result, ok, err}
use leopold.Prelude.Text.{Text, to_lower_case}
use leopold.Keeper.Lifecycle.{LifecycleAction, ProtocolSnapshot}
use leopold.Keeper.Planner.Required.{is_action_required}
use leopold.Keeper.Journal.{JournalEntry}
use leopold.Keeper.Engine.{is_unresolved, is_closed, TransactionReceipt}
use leopold.Keeper.Gateway.{SignedLifecycleTransaction, KeeperGateway}
use leopold.Keeper.Run.{
  EngineError, out_of_fuel, hash_mismatch, KeeperOptions, EngineState, Engine, call, ◌>>=◌,
}
use leopold.Keeper.Run.Steps.{
  is_waiting, preflight, nonces, observe_transaction, observe_receipt, observe, settle, reconcile,
  reconcile_all, reconcile_journal, pause, wait_until, wait_and_reconcile, give_up, after_submitted,
  record_submitted, after_broadcast, send, submit, prepare_data, unprepared, after_preparation,
  act_after, act, after_outstanding, run_once,
}
use leopold.Keeper.Run.Termination.{
  ClockRuns, Ends, bind-Ends, call-Ends, pure-Ends, gets-Ends, raise-Ends, raise_if-Ends,
  guard_balance-Ends, put_entry-Ends, if-Ends, attempt-Ends, attempt-next, clock-Ends,
}

module _ {World : Type 0} (g : KeeperGateway World) (runs : ClockRuns g) (options : KeeperOptions)
    (polls : 1 ≤ options.receipt_poll_ms) where
  preflight-Ends : (t : ℕ) → Ends g t (preflight g options)
  unfolding preflight
  preflight-Ends t = bind-Ends g (call-Ends g _ runs.get_chain_id) (λ chain_id.
      bind-Ends g (raise_if-Ends g _ _ (λ z. cc z)) (λ u.
        bind-Ends g (call-Ends g _ runs.get_keeper_balance)
          (λ balance. bind-Ends g (guard_balance-Ends g options balance) (λ v. pure-Ends g _))))

  nonces-Ends : (t : ℕ) (b : Bool) → Ends g t (nonces g options b)
  unfolding nonces
  nonces-Ends t false = pure-Ends g _
  nonces-Ends t true =
      bind-Ends g (call-Ends g _ (runs.get_transaction_count _))
        (λ a. bind-Ends g (call-Ends g _ (runs.get_transaction_count _)) (λ b. pure-Ends g _))

  observe_transaction-Ends :
      (t : ℕ) (e : JournalEntry) (s : ProtocolSnapshot)
      → Ends g t (observe_transaction g options e s)
  unfolding observe_transaction
  observe_transaction-Ends t e s = bind-Ends g (call-Ends g _ (runs.get_transaction _)) (λ found.
      bind-Ends g (gets-Ends g _) (λ checked.
        bind-Ends g (nonces-Ends t _)
          (λ counts. bind-Ends g (gets-Ends g _) (λ now. pure-Ends g _))))

  observe_receipt-Ends :
      (t : ℕ) (e : JournalEntry) (s : ProtocolSnapshot) (r : Option TransactionReceipt)
      → Ends g t (observe_receipt g options e s r)
  observe_receipt-Ends t e s none =
      if-Ends g (is_closed e.status) (λ c. bind-Ends g (gets-Ends g _) (λ now. pure-Ends g _))
        (λ c. observe_transaction-Ends t e s)
  observe_receipt-Ends t e s (some r) = bind-Ends g (gets-Ends g _) (λ now. pure-Ends g _)

  settle-Ends :
      (t : ℕ) (e : JournalEntry) (d : Option JournalEntry) → Ends g t (settle g options e d)
  settle-Ends t e none = pure-Ends g _
  settle-Ends t e (some r) = bind-Ends g (put_entry-Ends g r) (λ u. pure-Ends g _)

  reconcile-Ends : (t : ℕ) (e : JournalEntry) → Ends g t (reconcile g options e)
  unfolding reconcile observe
  reconcile-Ends t e =
      bind-Ends g
        (bind-Ends g (call-Ends g _ (runs.get_receipt _)) (λ receipt.
          bind-Ends g (call-Ends g _ (runs.read_snapshot _))
            (λ s. observe_receipt-Ends t e s receipt)))
        (λ o. settle-Ends t e _)

  reconcile_all-Ends : (t : ℕ) (es : List JournalEntry) → Ends g t (reconcile_all g options es)
  unfolding reconcile_all
  reconcile_all-Ends t [] = pure-Ends g _
  reconcile_all-Ends t (e ∷ es) =
      bind-Ends g (reconcile-Ends t e) (λ r.
        if-Ends g (is_unresolved r.status) (λ c. pure-Ends g _) (λ c. reconcile_all-Ends t es))

  reconcile_journal-Ends : (t : ℕ) → Ends g t (reconcile_journal g options)
  unfolding reconcile_journal
  reconcile_journal-Ends t = bind-Ends g (gets-Ends g _) (λ es. reconcile_all-Ends t _)

  -- After a pause the time is later.
  pause-next :
      {B : Type 0} (t : ℕ) (m : Engine World B)
      → Ends g (t + 1) m
      → Ends g t (pause g options >>= λ u. m)
  unfolding ◌>>=◌ pause
  pause-next t m h = record {
    later = λ s le.
        let next = record s { world = g.sleep options.receipt_poll_ms s.world } in
        let y =
          h.later next (omega (arith, le, polls, runs.sleep options.receipt_poll_ms s.world)) in
        omega (arith, y);
    fuelled = λ s le.
        h.fuelled (record s { world = g.sleep options.receipt_poll_ms s.world })
          (omega (arith, le, polls, runs.sleep options.receipt_poll_ms s.world));
  }

  wait_until-Ends :
      (fuel t deadline : ℕ) (e : JournalEntry)
      → deadline ≤ t + fuel
      → Ends g t (wait_until g options (suc fuel) deadline e)
  unfolding wait_until
  wait_until-Ends zero t deadline e le = bind-Ends g (reconcile-Ends t e) (λ current.
      if-Ends g (not (is_waiting current.status)) (λ c. pure-Ends g _)
        (λ c. clock-Ends g (λ now at.
          if-Ends g (leb deadline now) (λ d. pure-Ends g _) (λ d. absurd (ground arith)))))
  wait_until-Ends (suc fuel) t deadline e le = bind-Ends g (reconcile-Ends t e) (λ current.
      if-Ends g (not (is_waiting current.status)) (λ c. pure-Ends g _)
        (λ c. clock-Ends g (λ now at.
          if-Ends g (leb deadline now) (λ d. pure-Ends g _)
            (λ d.
              pause-next now _ (wait_until-Ends fuel (now + 1) deadline current (omega arith))))))

  wait_and_reconcile-Ends : (t : ℕ) (e : JournalEntry) → Ends g t (wait_and_reconcile g options e)
  unfolding wait_and_reconcile
  wait_and_reconcile-Ends t e =
      clock-Ends g
        (λ now at. wait_until-Ends options.reconciling.receipt_wait_ms now _ e (omega arith))

  give_up-Ends :
      (t : ℕ) (e : JournalEntry) (key : Text) (x : EngineError)
      → Ends g t (give_up g options e key x)
  unfolding give_up
  give_up-Ends t e key x =
      bind-Ends g (gets-Ends g _) (λ now. bind-Ends g (put_entry-Ends g _) (λ u. pure-Ends g _))

  after_submitted-Ends :
      (t : ℕ) (e : JournalEntry) (key hash : Text) (r : Result EngineError (Unit {0}))
      → Ends g t (after_submitted g options e key hash r)
  after_submitted-Ends t e key hash (err x) = give_up-Ends t e key x
  after_submitted-Ends t e key hash (ok u) =
      bind-Ends g (wait_and_reconcile-Ends t e) (λ final. pure-Ends g _)

  record_submitted-Ends :
      (t : ℕ) (e : JournalEntry) (key hash : Text)
      → Ends g t (record_submitted g options e key hash)
  unfolding record_submitted
  record_submitted-Ends t e key hash = bind-Ends g (gets-Ends g _) (λ now.
      bind-Ends g (attempt-Ends g (put_entry-Ends g _)) (λ r. after_submitted-Ends t _ key hash r))

  after_broadcast-Ends :
      (t : ℕ) (e : JournalEntry) (key hash : Text) (r : Result EngineError Text)
      → Ends g t (after_broadcast g options e key hash r)
  after_broadcast-Ends t e key hash (err x) = give_up-Ends t e key x
  after_broadcast-Ends t e key hash (ok returned) =
      if-Ends g (not (list_beq (to_lower_case returned) (to_lower_case hash)))
        (λ c. give_up-Ends t e key hash_mismatch) (λ c. record_submitted-Ends t e key hash)

  send-Ends : (t : ℕ) (x : SignedLifecycleTransaction) → Ends g t (send g options x)
  unfolding send
  send-Ends t x =
      let h : Ends g t (call (g.broadcast x)) = call-Ends g _ (runs.broadcast x) in
      record { later = λ s le. h.later _ le; fuelled = λ s le. h.fuelled _ le }

  submit-Ends :
      (t : ℕ) (action : LifecycleAction) (replay : Option Text) (calldata : Text)
      → Ends g t (submit g options action replay calldata)
  unfolding submit
  submit-Ends t action replay calldata = bind-Ends g (call-Ends g _ (runs.sign _ _)) (λ x.
      bind-Ends g (call-Ends g _ runs.get_keeper_balance) (λ balance.
        bind-Ends g (guard_balance-Ends g options balance) (λ u.
          bind-Ends g (raise_if-Ends g _ _ (λ z. cc z)) (λ v. bind-Ends g (gets-Ends g _) (λ now.
            bind-Ends g (put_entry-Ends g _) (λ w.
              bind-Ends g (attempt-Ends g (send-Ends t x))
                (λ r. after_broadcast-Ends t _ _ _ r)))))))

  after_preparation-Ends :
      (t : ℕ) (action : LifecycleAction) (replay : Option Text) (r : Result EngineError Text)
      → r ≢ err out_of_fuel
      → Ends g t (after_preparation g options action replay r)
  unfolding unprepared
  after_preparation-Ends t action replay (ok calldata) n = submit-Ends t action replay calldata
  after_preparation-Ends t action replay (err x) n =
      bind-Ends g (call-Ends g _ (runs.read_snapshot _)) (λ snapshot.
        if-Ends g (not (is_action_required snapshot action)) (λ c. pure-Ends g _)
          (λ c. raise-Ends g x (λ z. n (ap err z))))

  prepare_data-Ends : (t : ℕ) (action : LifecycleAction) → Ends g t (prepare_data g options action)
  unfolding prepare_data
  prepare_data-Ends t action =
      bind-Ends g (call-Ends g _ (runs.encode_action _))
        (λ calldata. bind-Ends g (call-Ends g _ (runs.simulate _ _)) (λ u. pure-Ends g _))

  act_after-Ends :
      (t : ℕ) (action : LifecycleAction) (previous : Option JournalEntry)
      → Ends g t (act_after g options action previous)
  unfolding act_after
  act_after-Ends t action none =
      attempt-next g (prepare_data-Ends t action) (after_preparation-Ends t action none)
  act_after-Ends t action (some previous) =
      if-Ends g (is_unresolved previous.status) (λ c. pure-Ends g _)
        (λ c.
          attempt-next g (prepare_data-Ends t action)
            (after_preparation-Ends t action (some previous.attempt_id)))

  act-Ends : (t : ℕ) (action : Option LifecycleAction) → Ends g t (act g options action)
  act-Ends t none = pure-Ends g _
  act-Ends t (some action) = bind-Ends g (gets-Ends g _) (λ entries. act_after-Ends t action _)

  after_outstanding-Ends :
      (t : ℕ) (outstanding : Option JournalEntry)
      → Ends g t (after_outstanding g options outstanding)
  after_outstanding-Ends t (some e) = pure-Ends g _
  after_outstanding-Ends t none =
      bind-Ends g (call-Ends g _ (runs.read_snapshot _))
        (λ snapshot. bind-Ends g (raise_if-Ends g _ _ (λ z. cc z)) (λ u. act-Ends t _))

  run_once-Ends : (t : ℕ) → Ends g t (run_once g options)
  unfolding run_once
  run_once-Ends t =
      bind-Ends g (preflight-Ends t)
        (λ balance. bind-Ends g (reconcile_journal-Ends t) (after_outstanding-Ends t))

  -- When the clock is never set back by a call, a pause lasts as long as it says, and the pause
  -- between two polls of a receipt is not zero, the waiting for a receipt ends in every run: the
  -- fuel that is given, one more than the milliseconds to wait, is never used up.
  pub run_once_ends : (s : EngineState World) → (run_once g options s).0 ≢ err out_of_fuel
  run_once_ends s = let x = run_once-Ends (g.now s.world) in x.fuelled s (omega arith)
