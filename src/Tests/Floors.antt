-- ===== src/Tests/Floors.antt =====
-- `parseGasFloors` (keeper/src/gas-policy.ts) on a few values of the environment.
use leopold.Prelude.{◌≡◌, refl, some, [], ◌∷◌}
use leopold.Prelude.Eq.{list_beq, nat_eq, set}
use leopold.Prelude.Search.{find}
use leopold.Prelude.Results.{ok, err}
use leopold.Prelude.Text.{codes, trim}
use leopold.Keeper.Planner.Keys.{read_kind}
use leopold.Keeper.GasPolicy.Floors.{unknown_keeper_gas_action, parse_gas_floors}

two_floors :
    parse_gas_floors (some (codes "close-round=800000, process-selection = 7"))
    ≡ ok ((codes "close-round", 800_000) ∷ (codes "process-selection", 7) ∷ [])
unfolding parse_gas_floors read_kind find list_beq set trim
two_floors = refl

unknown_action :
    parse_gas_floors (some (codes "open-round=1"))
    ≡ err (unknown_keeper_gas_action (codes "open-round"))
unfolding parse_gas_floors read_kind find list_beq set trim
unknown_action = refl

-- A name that every object inherits is taken for an action.
inherited_action : parse_gas_floors (some (codes "toString=1")) ≡ ok ((codes "toString", 1) ∷ [])
unfolding parse_gas_floors read_kind find list_beq set trim
inherited_action = refl
