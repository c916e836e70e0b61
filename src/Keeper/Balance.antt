-- ===== src/Keeper/Balance.antt =====
-- keeper/src/balance-guard.ts: the keeper's balance must lie between two configured limits.

use leopold.Prelude.{◌↔◌, ◌≡◌, arith}
use leopold.Prelude.Int.{ℤ, pos, ltb_ℤ, leb_ℤ, ◌≤ℤ◌, ◌<ℤ◌}
use leopold.Prelude.Results.{Result, ok, ◌>>◌, throw_if}

pub data BalanceError : Type 0 where
  minimum_negative : BalanceError
  maximum_not_positive : BalanceError
  minimum_above_maximum : BalanceError
  below_minimum : BalanceError
  above_maximum : BalanceError

unfoldable pub assert_keeper_balance_within_limits : ℤ → ℤ → ℤ → Result BalanceError (Unit {0})
assert_keeper_balance_within_limits balance minimum maximum = do
  throw_if (ltb_ℤ minimum (pos 0)) minimum_negative
  throw_if (leb_ℤ maximum (pos 0)) maximum_not_positive
  throw_if (ltb_ℤ maximum minimum) minimum_above_maximum
  throw_if (ltb_ℤ balance minimum) below_minimum
  throw_if (ltb_ℤ maximum balance) above_maximum
  ok tt

unfoldable pub assert_keeper_balance_within_limit : ℤ → ℤ → Result BalanceError (Unit {0})
assert_keeper_balance_within_limit balance maximum =
    assert_keeper_balance_within_limits balance (pos 0) maximum

-- The guard lets a balance through exactly when the limits are sensible (the minimum is not
-- negative, the maximum is positive and not below the minimum) and the balance lies between them,
-- both limits included.
pub assert_keeper_balance_within_limits_iff :
    (balance minimum maximum : ℤ)
    → assert_keeper_balance_within_limits balance minimum maximum ≡ ok tt
      ↔ ((pos 0 ≤ℤ minimum × pos 0 <ℤ maximum) × (minimum ≤ℤ balance × balance ≤ℤ maximum))
unfolding assert_keeper_balance_within_limits
assert_keeper_balance_within_limits_iff balance minimum maximum = ground arith
