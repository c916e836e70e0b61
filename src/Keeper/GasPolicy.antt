-- ===== src/Keeper/GasPolicy.antt =====
-- keeper/src/gas-policy.ts: the gas limit of a lifecycle transaction. `multiplierBps` is modelled as
-- an integer; the code refuses every other number by `Number.isInteger`.
pub mod Bounds
pub mod Floors
use leopold.Prelude.{Bool, true, false, ◌||◌, Option, none, some, if◌then◌else◌}
use leopold.Prelude.Int.{ℤ, pos, ◌+ℤ◌, ◌*ℤ◌, ◌/ℤ◌, ltb_ℤ, leb_ℤ}
use leopold.Prelude.Results.{Result, ok, err, ◌>>=◌, ◌>>◌, throw_if}
use leopold.Keeper.Lifecycle.{
  LifecycleActionKind, register_auto_entry, prune_auto_entry, close_round, finalize_aggregate,
  settle_empty_round, generate_random_candidate, finalize_candidate_validity, process_selection,
  finalize_reconciliation, recover_failed_reconciliation, process_allocation, finalize_settlement,
}

pub record GasPolicyConfig : Type 0 where
  pub multiplier_bps : ℤ
  pub additive_margin : ℤ
  pub maximum_gas_limit : ℤ
  pub floors : LifecycleActionKind → Option ℤ

pub record GasPolicyDecision : Type 0 where
  pub action : LifecycleActionKind
  pub estimated_gas : Option ℤ
  pub gas_floor : Option ℤ
  pub multiplier_bps : ℤ
  pub additive_margin : ℤ
  pub gas_limit : ℤ
  pub estimation_fallback : Bool

unfoldable pub default_gas_floors : LifecycleActionKind → ℤ
default_gas_floors register_auto_entry = pos 700_000
default_gas_floors prune_auto_entry = pos 300_000
default_gas_floors close_round = pos 750_000
default_gas_floors finalize_aggregate = pos 350_000
default_gas_floors settle_empty_round = pos 350_000
default_gas_floors generate_random_candidate = pos 600_000
default_gas_floors finalize_candidate_validity = pos 350_000
default_gas_floors process_selection = pos 1_000_000
default_gas_floors finalize_reconciliation = pos 350_000
default_gas_floors recover_failed_reconciliation = pos 350_000
default_gas_floors process_allocation = pos 1_000_000
default_gas_floors finalize_settlement = pos 500_000

abbrev pub default_gas_policy : GasPolicyConfig
default_gas_policy = record {
  multiplier_bps = pos 12_500;
  additive_margin = pos 25_000;
  maximum_gas_limit = pos 3_000_000;
  floors = λ k. some (default_gas_floors k);
}

pub data GasError : Type 0 where
  invalid_multiplier : GasError
  invalid_bounds : GasError
  invalid_floor : GasError
  no_estimate_and_no_floor : GasError
  invalid_estimate : GasError
  limit_exceeded : GasError

unfoldable pub ceil_multiply : ℤ → ℤ → ℤ
ceil_multiply value basis_points = (value *ℤ basis_points +ℤ pos 9_999) /ℤ pos 10_000

-- `floor !== undefined && (floor <= 0n || floor > config.maximumGasLimit)`
unfoldable pub is_invalid_floor : Option ℤ → ℤ → Bool
is_invalid_floor none maximum = false
is_invalid_floor (some floor) maximum = leb_ℤ floor (pos 0) || ltb_ℤ maximum floor

unfoldable pub are_missing : Option ℤ → Option ℤ → Bool
are_missing none none = true
are_missing none (some f) = false
are_missing (some g) f = false

unfoldable pub is_invalid_estimate : Option ℤ → Bool
is_invalid_estimate none = false
is_invalid_estimate (some g) = leb_ℤ g (pos 0)

unfoldable pub value_or : Option ℤ → ℤ → ℤ
value_or none d = d
value_or (some v) d = v

unfoldable pub with_margin : Option ℤ → Option ℤ → GasPolicyConfig → ℤ
unfolding value_or ceil_multiply
with_margin none floor config = value_or floor (pos 0)
with_margin (some g) floor config = ceil_multiply g config.multiplier_bps +ℤ config.additive_margin

-- The estimate with its margin, or the floor where that is higher.
unfoldable pub chosen_limit : Option ℤ → Option ℤ → GasPolicyConfig → ℤ
unfolding value_or with_margin
chosen_limit estimated_gas floor config =
    let estimated_with_margin = with_margin estimated_gas floor config in
    if ltb_ℤ (value_or floor (pos 0)) estimated_with_margin
    then estimated_with_margin
    else value_or floor estimated_with_margin

unfoldable pub apply_gas_policy :
    LifecycleActionKind → Option ℤ → GasPolicyConfig → Bool → Result GasError GasPolicyDecision
unfolding is_invalid_floor are_missing is_invalid_estimate chosen_limit
apply_gas_policy action estimated_gas config estimation_fallback = do
  throw_if (ltb_ℤ config.multiplier_bps (pos 10_000) || ltb_ℤ (pos 20_000) config.multiplier_bps)
      invalid_multiplier
  throw_if (ltb_ℤ config.additive_margin (pos 0) || leb_ℤ config.maximum_gas_limit (pos 0))
      invalid_bounds
  let floor = config.floors action
  throw_if (is_invalid_floor floor config.maximum_gas_limit) invalid_floor
  throw_if (are_missing estimated_gas floor) no_estimate_and_no_floor
  throw_if (is_invalid_estimate estimated_gas) invalid_estimate
  let gas_limit = chosen_limit estimated_gas floor config
  if ltb_ℤ config.maximum_gas_limit gas_limit
      then err limit_exceeded
      else ok (record {
        action = action;
        estimated_gas = estimated_gas;
        gas_floor = floor;
        multiplier_bps = config.multiplier_bps;
        additive_margin = config.additive_margin;
        gas_limit = gas_limit;
        estimation_fallback = estimation_fallback;
      })
