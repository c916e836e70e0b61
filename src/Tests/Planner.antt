-- ===== src/Tests/Planner.antt =====
-- keeper/src/planner.ts on one vault with one round.
use leopold.Prelude.{ℕ, ◌≡◌, refl, inl, inr, true, false, none, some, [], ◌∷◌, arith}
use leopold.Prelude.Eq.{nat_eq}
use leopold.Prelude.Search.{find, first_some, sort_by, insert, keep}
use leopold.Prelude.Text.{codes, decimal, to_lower_case, lower_char}
use leopold.Keeper.Lifecycle.{
  open_round, RoundSnapshot, VaultConfig, VaultSnapshot, ProtocolSnapshot, LifecycleAction,
  close_round,
}
use leopold.Keeper.Planner.Actions.{create_action, find_round}
use leopold.Keeper.Planner.Required.{is_action_required}
use leopold.Keeper.Planner.WellFormed.{WellFormed}
use leopold.Keeper.Planner.Soundness.{plan_next_action_required}
use leopold.Keeper.Planner.Idle.{plan_next_action_idle}
use leopold.Prelude.Text.Decimal.{NoColon}
use leopold.Keeper.Planner.Actions.{action_key}
use leopold.Keeper.Planner.Keys.{is_plain, is_plain_lem, action_key_injective}
use leopold.Keeper.Planner.{
  due_closure, due_closures, filter_map, plan_next_action, entry_action, unfinished_action,
  unfinished, by_id, after_closures, after_entries, enter_active, register, prune, close_active,
}

abbrev pub round_7 : RoundSnapshot
round_7 = record {
  round_id = 7;
  opens_at = 0;
  closes_at = 100;
  state = open_round;
  public_aggregate_twab = 0;
  public_prize = 0;
  participant_count = 2;
  selection_cursor = 0;
  allocation_cursor = 0;
  candidate_validity_handle = none;
}

abbrev pub daily : VaultConfig
daily = record {
  id = 1;
  name = codes "daily";
  cadence = codes "day";
  address = codes "0xAb";
  bond_escrow = codes "0xCd";
  automatic_entry = none;
}

abbrev pub daily_vault : VaultSnapshot
daily_vault = record {
  vault = daily;
  active_round_id = 7;
  bond_amount = 5;
  auto_entry_candidates = [];
  rounds = round_7 ∷ [];
}

abbrev pub at : ℕ → ProtocolSnapshot
at t = record {
  chain_id = 11_155_111;
  block_number = 1;
  block_hash = codes "0x0";
  block_timestamp = t;
  vaults = daily_vault ∷ [];
}

abbrev closing_7 : LifecycleAction
closing_7 = create_action daily_vault round_7 close_round (decimal 100) none none

at-WellFormed : (t : ℕ) → WellFormed (at t)
at-WellFormed t = record {
  addresses = (λ y h. absurd h, tt);
  round_ids = λ v h. ground arith;
  accounts = λ v h. ground arith;
  active = λ v h. elim h [ inl e ↦ rw e (round_7, inl refl, refl, refl) | inr n ↦ absurd n ];
  later = λ v r h i l. ground arith;
  selecting = λ v r h i p. ground arith;
  allocating = λ v r h i p. ground arith;
}

planned_at_200 : plan_next_action (at 200) ≡ some closing_7
unfolding plan_next_action after_closures due_closures filter_map sort_by insert due_closure
    close_active find_round find create_action
planned_at_200 = refl

idle_at_50 : plan_next_action (at 50) ≡ none
unfolding plan_next_action after_closures after_entries enter_active register prune entry_action
    unfinished_action unfinished by_id first_some keep due_closures filter_map sort_by insert
    due_closure close_active find_round find create_action
idle_at_50 = refl

plan_next_action_required_example : is_action_required (at 200) closing_7 ≡ true
plan_next_action_required_example =
    plan_next_action_required (at 200) (at-WellFormed 200) closing_7 planned_at_200

plan_next_action_idle_example : is_action_required (at 50) closing_7 ≡ false
plan_next_action_idle_example =
    plan_next_action_idle (at 50) (at-WellFormed 50) idle_at_50 closing_7

-- Two spellings of one address.
same_key :
    action_key (codes "0xAb") 7 close_round (decimal 100)
    ≡ action_key (codes "0xaB") 7 close_round (decimal 100)
unfolding action_key to_lower_case lower_char
same_key = refl

first_plain : NoColon (codes "0xAb")
unfolding is_plain
first_plain = is_plain_lem (codes "0xAb") refl

second_plain : NoColon (codes "0xaB")
unfolding is_plain
second_plain = is_plain_lem (codes "0xaB") refl

action_key_injective_example :
    (to_lower_case (codes "0xAb") ≡ to_lower_case (codes "0xaB"))
    × (round_7.round_id ≡ round_7.round_id)
    × (close_round ≡ close_round)
    × (decimal 100 ≡ decimal 100)
action_key_injective_example =
    action_key_injective (codes "0xAb") (codes "0xaB") round_7.round_id round_7.round_id close_round
      close_round (decimal 100) (decimal 100) first_plain second_plain same_key
