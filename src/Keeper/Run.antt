-- ===== src/Keeper/Run.antt =====
-- `KeeperEngine` of keeper/src/engine.ts as a whole: `preflight`, `#reconcileOutstanding`,
-- `#waitAndReconcile` and `runOnce`, over any gateway, and the polling loop of keeper/src/cli.ts.
pub mod Steps
pub mod Hoare
pub mod Live
pub mod Reconcile
pub mod Safety
pub mod Termination
use leopold.Prelude.{
  ℕ, zero, suc, ◌+◌, ◌*◌, Bool, true, false, not, ◌||◌, Option, none, some, List, [], ◌∷◌, ◌==◌,
  ltb, leb, if◌then◌else◌,
}
use leopold.Prelude.Int.{ℤ, ◌-ℤ◌, ltb_ℤ}
use leopold.Prelude.Eq.{list_beq, nat_eq, list_eq}
use leopold.Prelude.Search.{keep}
use leopold.Prelude.Lists.{take}
use leopold.Prelude.Results.{Result, ok, err}
use leopold.Prelude.Text.{Text, codes, to_lower_case}
use leopold.Keeper.Lifecycle.{
  sepolia_chain_id, LifecycleActionKind, LifecycleAction, ProtocolSnapshot,
}
use leopold.Keeper.Balance.{BalanceError, assert_keeper_balance_within_limits}
use leopold.Keeper.Planner.{plan_next_action}
use leopold.Keeper.Planner.Required.{is_action_required}
use leopold.Keeper.Journal.{
  JournalStatus, prepared, submitted, confirmed, reconciled, obsolete, unknown, JournalEntry,
  JournalStore, JournalError, invalid_entry, put, PreparedTransaction, journal_entry_for_prepared,
}
use leopold.Keeper.Engine.{
  is_unresolved, update_entry, no_options, UpdateOptions, TransactionReceipt, Observation,
  EngineOptions, is_closed, is_fresh, is_confirmed, is_entry_required, reconcile_entry, values,
}
use leopold.Keeper.Gateway.{
  Thrown, SignedLifecycleTransaction, latest, pending, KeeperGateway, read_hint,
}

pub data EngineError : Type 0 where
  gateway_threw : Thrown → EngineError
  journal_refused : JournalError → EngineError
  refuses_chain : ℕ → EngineError
  balance_outside_limits : BalanceError → EngineError
  snapshot_not_sepolia : EngineError
  cannot_cover_cost : EngineError
  hash_mismatch : EngineError
  out_of_fuel : EngineError

pub record KeeperOptions : Type 0 where
  pub reconciling : EngineOptions
  pub minimum_balance_wei : ℤ
  pub maximum_balance_wei : ℤ
  pub receipt_poll_ms : ℕ

pub data KeeperRunResult : Type 0 where
  idle : KeeperRunResult
  blocked : Text → JournalStatus → KeeperRunResult
  submitted_result : Text → Text → KeeperRunResult
  reconciled_result : Text → Text → KeeperRunResult
  obsolete_result : Text → Text → KeeperRunResult

-- A transaction that was handed to the gateway for broadcast, with the journal at that moment.
pub record Broadcast : Type 0 where
  pub transaction : SignedLifecycleTransaction
  pub journal : JournalStore

-- The broadcasts are a record of the calls, the newest first, which the code does not keep.
pub record EngineState (World : Type 0) : Type 0 where
  pub world : World
  pub journal : JournalStore
  pub broadcasts : List Broadcast

-- A call that was made stays made when a later one throws, so the state comes back with an error.
abbrev pub Engine : Type 0 → Type 0 → Type 0
Engine World A = EngineState World → Result EngineError A × EngineState World

code_or : Option Text → Text → Text
code_or none name = name
code_or (some code) name = code

-- `safeErrorCode`. The errors that the engine throws itself are plain, and zod names its own.
unfoldable pub safe_error_code : EngineError → Text
unfolding take code_or
safe_error_code (gateway_threw t) = take 80 (code_or t.code t.name)
safe_error_code (journal_refused invalid_entry) = codes "ZodError"
safe_error_code e = codes "Error"

lift : {A : Type 0} → Result Thrown A → Result EngineError A
lift (ok a) = ok a
lift (err t) = err (gateway_threw t)

module _ {World A : Type 0} where
  unfoldable pub pure : A → Engine World A
  pure a s = (ok a, s)

  unfoldable pub raise : EngineError → Engine World A
  raise e s = (err e, s)

  unfoldable pub gets : (EngineState World → A) → Engine World A
  gets f s = (ok (f s), s)

  -- `try`: the error becomes a value.
  unfoldable pub attempt : Engine World A → Engine World (Result EngineError A)
  attempt m s = (ok (m s).0, (m s).1)

  unfoldable pub call : (World → Result Thrown A × World) → Engine World A
  unfolding lift
  call f s = (lift (f s.world).0, record s { world = (f s.world).1 })

infixl 5 ◌>>=◌ ◌>>◌
unfoldable pub ◌>>=◌ : {World A B : Type 0} → Engine World A → (A → Engine World B) → Engine World B
◌>>=◌ m k s = elim (m s).0 [ ok a ↦ k a (m s).1 | err e ↦ (err e, (m s).1) ]

abbrev pub ◌>>◌ : {World A B : Type 0} → Engine World A → Engine World B → Engine World B
m >> k = m >>= λ _. k

module _ {World : Type 0} where
  unfoldable pub raise_if : Bool → EngineError → Engine World (Unit {0})
  raise_if true e = raise e
  raise_if false e = pure tt

  check_balance : Result BalanceError (Unit {0}) → Engine World (Unit {0})
  check_balance (ok u) = pure tt
  check_balance (err e) = raise (balance_outside_limits e)

  unfoldable pub guard_balance : KeeperOptions → ℤ → Engine World (Unit {0})
  unfolding check_balance
  guard_balance options balance = check_balance (
      assert_keeper_balance_within_limits balance options.minimum_balance_wei
        options.maximum_balance_wei)

  stored :
      EngineState World
      → Result JournalError JournalStore
      → Result EngineError (Unit {0}) × EngineState World
  stored s (ok journal) = (ok tt, record s { journal = journal })
  stored s (err e) = (err (journal_refused e), s)

  -- `this.#journal.put(entry)`
  unfoldable pub put_entry : JournalEntry → Engine World (Unit {0})
  unfolding stored
  put_entry entry s = stored s (put s.journal entry)
