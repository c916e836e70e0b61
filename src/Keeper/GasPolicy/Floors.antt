-- ===== src/Keeper/GasPolicy/Floors.antt =====
-- `parseGasFloors` of keeper/src/gas-policy.ts, which reads KEEPER_GAS_FLOORS.
use leopold.Prelude.{
  ℕ, ◌+◌, ◌*◌, ◌-◌, Bool, true, false, not, ◌&&◌, ◌||◌, Option, none, some, List, [], ◌∷◌, leb,
  if◌then◌else◌,
}
use leopold.Prelude.Eq.{list_beq, nat_eq, list_eq, set}
use leopold.Prelude.Results.{Result, ok, err, ◌>>=◌}
use leopold.Prelude.Text.{Text, codes, has_code, trim}
use leopold.Keeper.Planner.Keys.{read_kind}

pub data GasFloorsError : Type 0 where
  invalid_gas_floors_format : GasFloorsError
  unknown_keeper_gas_action : Text → GasFloorsError

abbrev pub GasFloors : Type 0
GasFloors = List (Text × ℕ)

before_first : ℕ → List Text → List Text
before_first c [] = (c ∷ []) ∷ []
before_first c (t ∷ ts) = (c ∷ t) ∷ ts

-- `split` at one character.
split_on : ℕ → Text → List Text
unfolding before_first
split_on separator [] = [] ∷ []
split_on separator (c ∷ cs) =
    let rest = split_on separator cs in
    if has_code c (separator ∷ []) then [] ∷ rest else before_first c rest

are_digits : Text → Bool
are_digits [] = true
are_digits (c ∷ cs) = leb b'0' c && leb c b'9' && are_digits cs

-- `/^\d+$/u`
is_number : Text → Bool
unfolding are_digits
is_number [] = false
is_number (c ∷ cs) = are_digits (c ∷ cs)

number_from : ℕ → Text → ℕ
number_from n [] = n
number_from n (c ∷ cs) = number_from (10 * n + (c - b'0')) cs

-- What every object inherits, and the operator `in` finds as well.
inherited_names : List Text
inherited_names =
    codes "constructor"
    ∷ codes "hasOwnProperty"
    ∷ codes "isPrototypeOf"
    ∷ codes "propertyIsEnumerable"
    ∷ codes "toLocaleString"
    ∷ codes "toString"
    ∷ codes "valueOf"
    ∷ codes "__defineGetter__"
    ∷ codes "__defineSetter__"
    ∷ codes "__lookupGetter__"
    ∷ codes "__lookupSetter__"
    ∷ codes "__proto__"
    ∷ []

is_one_of : Text → List Text → Bool
is_one_of t [] = false
is_one_of t (u ∷ us) = list_beq t u || is_one_of t us

-- `rawAction in DEFAULT_GAS_FLOORS`: every kind of action has a default.
is_known_action : Text → Bool
unfolding is_one_of inherited_names
is_known_action t = elim (read_kind t) [ some kind ↦ true | none ↦ is_one_of t inherited_names ]

-- A number written to `__proto__` is ignored.
write_floor : Text → ℕ → GasFloors → GasFloors
write_floor action floor floors =
    if list_beq action (codes "__proto__") then floors else set floors action floor

parse_token : List Text → GasFloors → Result GasFloorsError GasFloors
unfolding is_number number_from is_known_action write_floor
parse_token [] floors = err invalid_gas_floors_format
parse_token (action ∷ []) floors = err invalid_gas_floors_format
parse_token (action ∷ (floor ∷ parts)) floors =
    if list_beq (trim action) [] || not (is_number (trim floor))
    then err invalid_gas_floors_format
    else if not (is_known_action (trim action))
    then err (unknown_keeper_gas_action (trim action))
    else ok (write_floor (trim action) (number_from 0 (trim floor)) floors)

-- The loop over the tokens, which stops at an error.
parse_tokens : List Text → GasFloors → Result GasFloorsError GasFloors
unfolding split_on parse_token
parse_tokens [] floors = ok floors
parse_tokens (token ∷ tokens) floors = do
  next ← parse_token (split_on b'=' token) floors
  parse_tokens tokens next

unfoldable pub parse_gas_floors : Option Text → Result GasFloorsError GasFloors
unfolding parse_tokens split_on
parse_gas_floors none = ok []
parse_gas_floors (some value) =
    if list_beq (trim value) [] then ok [] else parse_tokens (split_on b',' value) []
