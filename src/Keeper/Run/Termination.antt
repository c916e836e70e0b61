-- ===== src/Keeper/Run/Termination.antt =====
-- A run of the engine (keeper/src/engine.ts) ends: the loop of `#waitAndReconcile` has fuel enough
-- when the clock runs.
pub mod Methods
use leopold.Prelude.{
  ℕ, zero, suc, ◌+◌, ◌≤◌, ◌<◌, ◌≡◌, refl, ◌≢◌, Bool, true, false, not, Option, none, some, List, [],
  ◌∷◌, inl, inr, arith, ltb, leb, ◌==◌, if◌then◌else◌,
}
use leopold.Prelude.Int.{ℤ}
use leopold.Prelude.Eq.{list_beq, nat_eq}
use leopold.Prelude.Results.{Result, ok, err, Result-cases}
use leopold.Prelude.Text.{Text, to_lower_case}
use leopold.Prelude.Search.{keep}
use leopold.Keeper.Lifecycle.{LifecycleAction, ProtocolSnapshot}
use leopold.Keeper.Balance.{assert_keeper_balance_within_limits}
use leopold.Keeper.Planner.Required.{is_action_required}
use leopold.Keeper.Journal.{JournalEntry, put}
use leopold.Keeper.Engine.{is_unresolved, is_closed, TransactionReceipt, reconcile_entry, values}
use leopold.Keeper.Gateway.{
  Thrown, SignedLifecycleTransaction, BlockTag, SnapshotReadHint, KeeperGateway,
}
use leopold.Keeper.Run.{
  EngineError, out_of_fuel, hash_mismatch, KeeperOptions, KeeperRunResult, EngineState, Engine,
  pure, raise, gets, attempt, call, lift, ◌>>=◌, raise_if, guard_balance, check_balance, put_entry,
  stored,
}
use leopold.Keeper.Run.Steps.{
  is_waiting, preflight, nonces, observe_transaction, observe_receipt, observe, settle, reconcile,
  reconcile_all, reconcile_journal, pause, wait_until, wait_and_reconcile, give_up, after_submitted,
  record_submitted, after_broadcast, send, submit, prepare_data, unprepared, after_preparation,
  act_after, act, after_outstanding, run_once,
}

-- No call sets the clock back, and a pause of some milliseconds takes that long at least.
pub record ClockRuns {World : Type 0} (g : KeeperGateway World) : Type 0 where
  pub get_chain_id : (w : World) → g.now w ≤ g.now (g.get_chain_id w).1
  pub get_keeper_balance : (w : World) → g.now w ≤ g.now (g.get_keeper_balance w).1
  pub read_snapshot :
      (h : Option SnapshotReadHint) (w : World) → g.now w ≤ g.now (g.read_snapshot h w).1
  pub encode_action : (a : LifecycleAction) (w : World) → g.now w ≤ g.now (g.encode_action a w).1
  pub simulate : (a : LifecycleAction) (d : Text) (w : World) → g.now w ≤ g.now (g.simulate a d w).1
  pub sign : (a : LifecycleAction) (d : Text) (w : World) → g.now w ≤ g.now (g.sign a d w).1
  pub broadcast : (t : SignedLifecycleTransaction) (w : World) → g.now w ≤ g.now (g.broadcast t w).1
  pub get_receipt : (h : Text) (w : World) → g.now w ≤ g.now (g.get_receipt h w).1
  pub get_transaction : (h : Text) (w : World) → g.now w ≤ g.now (g.get_transaction h w).1
  pub get_transaction_count :
      (b : BlockTag) (w : World) → g.now w ≤ g.now (g.get_transaction_count b w).1
  pub sleep : (ms : ℕ) (w : World) → g.now w + ms ≤ g.now (g.sleep ms w)

module _ {World : Type 0} (g : KeeperGateway World) where
  -- From the time `t` on, the part ends with fuel, at a time that is not before `t`.
  pub record Ends {A : Type 0} (t : ℕ) (m : Engine World A) : Type 0 where
    pub later : (s : EngineState World) → t ≤ g.now s.world → t ≤ g.now (m s).1.world
    pub fuelled : (s : EngineState World) → t ≤ g.now s.world → (m s).0 ≢ err out_of_fuel

  next-Ends :
      {A B : Type 0} (t : ℕ) (k : A → Engine World B) (r : Result EngineError A)
      (s : EngineState World)
      → ((a : A) → Ends t (k a))
      → t ≤ g.now s.world
      → r ≢ err out_of_fuel
      → (t
          ≤ g.now
              (elim r as (λ _. Result EngineError B × EngineState World) [
                | ok a ↦ k a s
                | err e ↦ (err e, s)
              ]).1.world)
        × ((elim r as (λ _. Result EngineError B × EngineState World) [
          | ok a ↦ k a s
          | err e ↦ (err e, s)
        ]).0
            ≢ err out_of_fuel)
  next-Ends t k (ok a) s h le n = let x = h a in (x.later s le, x.fuelled s le)
  next-Ends t k (err e) s h le n = (le, λ q. n (ground (arith, q)))

  pub bind-Ends :
      {A B : Type 0} {t : ℕ} {m : Engine World A} {k : A → Engine World B}
      → Ends t m
      → ((a : A) → Ends t (k a))
      → Ends t (m >>= k)
  unfolding ◌>>=◌
  bind-Ends {t = t} {m = m} {k = k} h f = record {
    later = λ s le. (next-Ends t k (m s).0 (m s).1 f (h.later s le) (h.fuelled s le)).0;
    fuelled = λ s le. (next-Ends t k (m s).0 (m s).1 f (h.later s le) (h.fuelled s le)).1;
  }

  lift-fuelled : {A : Type 0} (r : Result Thrown A) → lift r ≢ err out_of_fuel
  unfolding lift
  lift-fuelled (ok a) q = cc q
  lift-fuelled (err e) q = cc q

  pub call-Ends :
      {A : Type 0} {t : ℕ} (f : World → Result Thrown A × World)
      → ((w : World) → g.now w ≤ g.now (f w).1)
      → Ends t (call f)
  unfolding call
  call-Ends f h = record {
    later = λ s le. omega (arith, h s.world);
    fuelled = λ s le. lift-fuelled (f s.world).0;
  }

  pub pure-Ends : {A : Type 0} {t : ℕ} (a : A) → Ends t (pure a)
  unfolding pure
  pure-Ends a = record { later = λ s le. le; fuelled = λ s le q. cc q }

  pub gets-Ends : {A : Type 0} {t : ℕ} (f : EngineState World → A) → Ends t (gets f)
  unfolding gets
  gets-Ends f = record { later = λ s le. le; fuelled = λ s le q. cc q }

  pub raise-Ends :
      {A : Type 0} {t : ℕ} (e : EngineError) → e ≢ out_of_fuel → Ends {A = A} t (raise e)
  unfolding raise
  raise-Ends e n = record { later = λ s le. le; fuelled = λ s le q. n (ground (arith, q)) }

  pub raise_if-Ends : {t : ℕ} (b : Bool) (e : EngineError) → e ≢ out_of_fuel → Ends t (raise_if b e)
  unfolding raise_if
  raise_if-Ends true e n = raise-Ends e n
  raise_if-Ends false e n = pure-Ends tt

  pub guard_balance-Ends :
      {t : ℕ} (options : KeeperOptions) (balance : ℤ) → Ends t (guard_balance options balance)
  unfolding guard_balance check_balance
  guard_balance-Ends options balance =
      elim (Result-cases (
        assert_keeper_balance_within_limits balance options.minimum_balance_wei
          options.maximum_balance_wei)) [
            | inl (e, q) ↦ rw q (raise-Ends _ (λ z. cc z))
            | inr (a, q) ↦ rw q (pure-Ends tt)
          ]

  pub put_entry-Ends : {t : ℕ} (e : JournalEntry) → Ends t (put_entry e)
  unfolding put_entry stored
  put_entry-Ends e = record {
    later = λ s le. elim (Result-cases (put s.journal e)) [
      | inl (x, q) ↦ rw q le
      | inr (j, q) ↦ rw q le
    ];
    fuelled = λ s le. elim (Result-cases (put s.journal e)) [
      | inl (x, q) ↦ rw q (λ z. cc z)
      | inr (j, q) ↦ rw q (λ z. cc z)
    ];
  }

  pub if-Ends :
      {A : Type 0} {t : ℕ} (b : Bool) {m n : Engine World A}
      → (b ≡ true → Ends t m)
      → (b ≡ false → Ends t n)
      → Ends t (if b then m else n)
  if-Ends true h k = h refl
  if-Ends false h k = k refl

  pub attempt-Ends : {A : Type 0} {t : ℕ} {m : Engine World A} → Ends t m → Ends t (attempt m)
  unfolding attempt
  attempt-Ends h = record { later = h.later; fuelled = λ s le q. cc q }

  -- What the clock reads is the time from which the rest runs.
  pub clock-Ends :
      {B : Type 0} {t : ℕ} {k : ℕ → Engine World B}
      → ((n : ℕ) → t ≤ n → Ends n (k n))
      → Ends t (gets (λ s. g.now s.world) >>= k)
  unfolding ◌>>=◌ gets
  clock-Ends {t = t} h = record {
    later = λ s le.
        let x = h (g.now s.world) le in let y = x.later s (omega arith) in omega (arith, le, y);
    fuelled = λ s le. let x = h (g.now s.world) le in x.fuelled s (omega arith);
  }

  -- A caught error is not a lack of fuel.
  pub attempt-next :
      {A B : Type 0} {t : ℕ} {m : Engine World A} {k : Result EngineError A → Engine World B}
      → Ends t m
      → ((r : Result EngineError A) → r ≢ err out_of_fuel → Ends t (k r))
      → Ends t (attempt m >>= k)
  unfolding ◌>>=◌ attempt
  attempt-next {m = m} h f = record {
    later = λ s le. let x = f (m s).0 (h.fuelled s le) in x.later (m s).1 (h.later s le);
    fuelled = λ s le. let x = f (m s).0 (h.fuelled s le) in x.fuelled (m s).1 (h.later s le);
  }
