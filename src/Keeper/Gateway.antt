-- ===== src/Keeper/Gateway.antt =====
-- `KeeperGateway` and `SignedLifecycleTransaction` of keeper/src/lifecycle.ts, with the clock of the
-- engine's options. What lies behind the gateway is a world that each call may change, and a call
-- may throw.
use leopold.Prelude.{ℕ, Bool, Option, none, some, [], ◌∷◌}
use leopold.Prelude.Int.{ℤ}
use leopold.Prelude.Results.{Result}
use leopold.Prelude.Text.{Text}
use leopold.Keeper.Lifecycle.{
  LifecycleActionKind, register_auto_entry, prune_auto_entry, LifecycleAction, ProtocolSnapshot,
}
use leopold.Keeper.GasPolicy.{GasPolicyDecision}
use leopold.Keeper.Engine.{TransactionReceipt}

-- A thrown value: the `code` it may have, and the name of the error.
pub record Thrown : Type 0 where
  pub code : Option Text
  pub name : Text

pub record SnapshotReadHint : Type 0 where
  pub vault_address : Text
  pub account : Option Text
  pub round_id : Option ℕ

pub record SignedLifecycleTransaction : Type 0 where
  pub action : LifecycleAction
  pub hash : Text
  pub nonce : ℕ
  pub serialized : Text
  pub calldata_hash : Text
  pub maximum_cost_wei : ℤ
  pub gas_policy : Option GasPolicyDecision

pub data BlockTag : Type 0 where
  latest : BlockTag
  pending : BlockTag

pub record KeeperGateway (World : Type 0) : Type 0 where
  pub get_chain_id : World → Result Thrown ℕ × World
  pub get_keeper_balance : World → Result Thrown ℤ × World
  pub read_snapshot : Option SnapshotReadHint → World → Result Thrown ProtocolSnapshot × World
  pub encode_action : LifecycleAction → World → Result Thrown Text × World
  pub simulate : LifecycleAction → Text → World → Result Thrown (Unit {0}) × World
  pub sign : LifecycleAction → Text → World → Result Thrown SignedLifecycleTransaction × World
  pub broadcast : SignedLifecycleTransaction → World → Result Thrown Text × World
  pub get_receipt : Text → World → Result Thrown (Option TransactionReceipt) × World
  -- Whether the transaction is known.
  pub get_transaction : Text → World → Result Thrown Bool × World
  pub get_transaction_count : BlockTag → World → Result Thrown ℕ × World
  pub now : World → ℕ
  pub sleep : ℕ → World → World

-- The hint of a read for one action: its account only where the action registers or prunes one.
hinted_account : LifecycleActionKind → Option Text → Option Text
hinted_account kind none = none
hinted_account kind (some []) = none
hinted_account register_auto_entry (some (c ∷ cs)) = some (c ∷ cs)
hinted_account prune_auto_entry (some (c ∷ cs)) = some (c ∷ cs)
hinted_account kind (some (c ∷ cs)) = none

unfoldable pub read_hint : Text → LifecycleActionKind → Option Text → ℕ → SnapshotReadHint
unfolding hinted_account
read_hint address kind account round_id = record {
  vault_address = address;
  account = hinted_account kind account;
  round_id = some round_id;
}
