-- ===== src/Keeper/GasPolicy/Bounds.antt =====
-- The limits that keeper/src/gas-policy.ts decides on.
use leopold.Prelude.{ℕ, ◌+◌, ◌*◌, ◌/◌, ◌≡◌, Bool, Option, none, some, ap, arith}
use leopold.Prelude.Int.{ℤ, pos, negsuc, ◌+ℤ◌, ◌*ℤ◌, ◌/ℤ◌, ◌≤ℤ◌, ◌<ℤ◌, +ℤ_parts}
use leopold.Prelude.Results.{ok}
use leopold.Keeper.Lifecycle.{LifecycleActionKind}
use leopold.Keeper.GasPolicy.{
  GasPolicyConfig, GasPolicyDecision, ceil_multiply, apply_gas_policy, chosen_limit, value_or,
  with_margin, is_invalid_estimate,
}

ceil_multiply_pos : (n b : ℕ) → ceil_multiply (pos n) (pos b) ≡ pos ((n * b + 9_999) / 10_000)
unfolding ceil_multiply ◌+ℤ◌ ◌*ℤ◌ ◌/ℤ◌
ceil_multiply_pos n b = ground arith

-- Rounded up, at least the value itself.
value-le-ceil_multiply : (g b : ℤ) → pos 0 <ℤ g → pos 10_000 ≤ℤ b → g ≤ℤ ceil_multiply g b
value-le-ceil_multiply (pos n) (pos b) p q = rw (ceil_multiply_pos n b) (grind arith)
value-le-ceil_multiply (pos n) (negsuc b) p q = absurd (omega arith)
value-le-ceil_multiply (negsuc n) b p q = absurd (ground arith)

floor-le-chosen_limit :
    (estimated : Option ℤ) (f : ℤ) (config : GasPolicyConfig)
    → f ≤ℤ chosen_limit estimated (some f) config
unfolding chosen_limit value_or with_margin
floor-le-chosen_limit none f config = ground arith
floor-le-chosen_limit (some g) f config = ground arith

margin-le-chosen_limit :
    (g : ℤ) (floor : Option ℤ) (config : GasPolicyConfig)
    → (ceil_multiply g config.multiplier_bps +ℤ config.additive_margin)
      ≤ℤ chosen_limit (some g) floor config
unfolding chosen_limit value_or with_margin
margin-le-chosen_limit g none config = ground arith
margin-le-chosen_limit g (some f) config = ground arith

-- What a decision that is returned says.
record Decided (config : GasPolicyConfig) (action : LifecycleActionKind) (estimated : Option ℤ)
    (d : GasPolicyDecision) : Type 0 where
  multiplier : pos 10_000 ≤ℤ config.multiplier_bps
  margin : pos 0 ≤ℤ config.additive_margin
  within : chosen_limit estimated (config.floors action) config ≤ℤ config.maximum_gas_limit
  positive : (g : ℤ) → estimated ≡ some g → pos 0 <ℤ g
  limit : d.gas_limit ≡ chosen_limit estimated (config.floors action) config
  same_action : d.action ≡ action

decided :
    (action : LifecycleActionKind) (estimated : Option ℤ) (config : GasPolicyConfig)
    (fallback : Bool) (d : GasPolicyDecision)
    → apply_gas_policy action estimated config fallback ≡ ok d
    → Decided config action estimated d
unfolding apply_gas_policy is_invalid_estimate
decided action none config fallback d e = record {
  multiplier = ground arith;
  margin = ground arith;
  within = ground arith;
  positive = λ g q. ground arith;
  limit = ground arith;
  same_action = ground arith;
}
decided action (some h) config fallback d e = record {
  multiplier = ground arith;
  margin = ground arith;
  within = ground arith;
  positive = λ g q. ground arith;
  limit = ground arith;
  same_action = ground arith;
}

-- Every limit that is decided on is within the maximum and not below the reviewed floor nor the
-- estimate.
pub record IsCovered (config : GasPolicyConfig) (action : LifecycleActionKind)
    (estimated : Option ℤ) (d : GasPolicyDecision) : Type 0 where
  pub within : d.gas_limit ≤ℤ config.maximum_gas_limit
  pub above_floor : (floor : ℤ) → config.floors action ≡ some floor → floor ≤ℤ d.gas_limit
  pub above_estimate : (g : ℤ) → estimated ≡ some g → g ≤ℤ d.gas_limit
  pub same_action : d.action ≡ action

-- A gas limit that `apply_gas_policy` decides on is for the action that was asked for, is at most
-- the configured maximum, and is not below the reviewed floor nor the estimate, where there is one.
pub apply_gas_policy-IsCovered :
    (action : LifecycleActionKind) (estimated : Option ℤ) (config : GasPolicyConfig)
    (fallback : Bool) (d : GasPolicyDecision)
    → apply_gas_policy action estimated config fallback ≡ ok d
    → IsCovered config action estimated d
apply_gas_policy-IsCovered action estimated config fallback d e =
    let x = decided action estimated config fallback d e in
    record {
      within = rw x.limit x.within;
      above_floor = λ f q. rw (x.limit, q) (floor-le-chosen_limit estimated f config);
      above_estimate = λ g q.
          rw (x.limit, ap (λ e. chosen_limit e (config.floors action) config) q)
            (omega (
              arith,
              value-le-ceil_multiply g config.multiplier_bps (x.positive g q) x.multiplier,
              x.margin,
              +ℤ_parts (ceil_multiply g config.multiplier_bps) config.additive_margin,
              margin-le-chosen_limit g (config.floors action) config,
            ));
      same_action = x.same_action;
    }
