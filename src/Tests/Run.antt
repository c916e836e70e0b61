-- ===== src/Tests/Run.antt =====
-- A whole run of the keeper (keeper/src/engine.ts) against a small chain, and its journals
-- (keeper/src/journal.ts).
use leopold.Prelude.{ℕ, ◌+◌, ◌≡◌, ◌≢◌, ◌↔◌, refl, true, false, none, [], ◌∷◌, arith}
use leopold.Prelude.Int.{pos}
use leopold.Prelude.Eq.{get, list_beq, option_beq, nat_eq, list_eq}
use leopold.Prelude.Results.{ok, err}
use leopold.Prelude.Text.{codes, to_lower_case, lower_char}
use leopold.Keeper.Gateway.{KeeperGateway}
use leopold.Keeper.Run.{KeeperOptions, EngineState, out_of_fuel}
use leopold.Keeper.Run.Steps.{run_once, poll}
use leopold.Keeper.Run.Live.{IsSafe}
use leopold.Keeper.Run.Safety.{poll-IsSafe}
use leopold.Keeper.Run.Termination.{ClockRuns}
use leopold.Keeper.Run.Termination.Methods.{run_once_ends}
use leopold.Keeper.Journal.{
  JournalStore, put, is_valid_entry, is_valid_identity, is_hex, are_hex_digits, is_hex_digit,
  is_latest, same_bool, is_present, attempt_id_of, are_valid_transitions, is_valid_transition,
  last_transition, status_number, check_previous, assert_append_only_update, same_identity,
  is_prefix, same_transition,
}
use leopold.Keeper.Engine.{update_entry, from_receipt}
use leopold.Keeper.Journal.Document.{
  JournalDocument, file_put, find_attempt, is_valid_document, with_entry, attempts, contains,
}
use leopold.Keeper.Journal.Simulation.{Agree, file_put_simulates}
use leopold.Prelude.Search.{find, keep}
use leopold.Tests.Keeper.{hash, closing, closed, store}
use leopold.Tests.Planner.{at}

-- The world is its clock. The round of the snapshot is due, and a broadcast transaction is never
-- mined.
abbrev pub gateway : KeeperGateway ℕ
gateway = record {
  get_chain_id = λ w. (ok 11_155_111, w);
  get_keeper_balance = λ w. (ok (pos 9), w);
  read_snapshot = λ h w. (ok (at 200), w);
  encode_action = λ a w. (ok (codes "0x"), w);
  simulate = λ a d w. (ok tt, w);
  sign = λ a d w. (
    ok (record {
      action = a;
      hash = hash;
      nonce = 4;
      serialized = d;
      calldata_hash = hash;
      maximum_cost_wei = pos 2;
      gas_policy = none;
    }),
    w,
  );
  broadcast = λ t w. (ok t.hash, w + 1);
  get_receipt = λ h w. (ok none, w);
  get_transaction = λ h w. (ok false, w);
  get_transaction_count = λ b w. (ok 4, w);
  now = λ w. w;
  sleep = λ ms w. w + ms;
}

abbrev pub options : KeeperOptions
options = record {
  reconciling = record { confirmations = 2; receipt_wait_ms = 4 };
  minimum_balance_wei = pos 1;
  maximum_balance_wei = pos 20;
  receipt_poll_ms = 2;
}

abbrev start : EngineState ℕ
start = record { world = 500; journal = store; broadcasts = [] }

start-IsSafe : IsSafe start.journal start.broadcasts
unfolding get
start-IsSafe = record {
  is_map = (refl, refl, tt);
  live_id = closing.attempt_id;
  only_live = λ k e g u. ground (arith, g);
  all_prepared = tt;
}

poll-IsSafe_example :
    IsSafe (poll gateway options 60 2 start).journal (poll gateway options 60 2 start).broadcasts
poll-IsSafe_example = poll-IsSafe gateway options 60 2 start start-IsSafe

clock-ClockRuns : ClockRuns gateway
clock-ClockRuns = record {
  get_chain_id = λ w. omega arith;
  get_keeper_balance = λ w. omega arith;
  read_snapshot = λ h w. omega arith;
  encode_action = λ a w. omega arith;
  simulate = λ a d w. omega arith;
  sign = λ a d w. omega arith;
  broadcast = λ t w. omega arith;
  get_receipt = λ h w. omega arith;
  get_transaction = λ h w. omega arith;
  get_transaction_count = λ b w. omega arith;
  sleep = λ ms w. omega arith;
}

run_once_ends_example : (run_once gateway options start).0 ≢ err out_of_fuel
run_once_ends_example = run_once_ends gateway clock-ClockRuns options (omega arith) start

abbrev document : JournalDocument
document = record { entries = closing ∷ []; checkpoints = [] }

document-Agree : Agree document store
unfolding find_attempt find get
document-Agree k = ground arith

file_put-closed : file_put document closed ≡ ok (record { entries = closed ∷ []; checkpoints = [] })
unfolding file_put is_valid_entry is_valid_identity update_entry is_hex are_hex_digits is_hex_digit
    is_latest same_bool is_present list_beq attempt_id_of to_lower_case lower_char
    are_valid_transitions is_valid_transition last_transition status_number check_previous
    find_attempt find assert_append_only_update same_identity option_beq is_prefix same_transition
    is_valid_document with_entry keep attempts contains from_receipt
file_put-closed = refl

file_put_simulates_example :
    (file_put document closed ≡ ok (record { entries = closed ∷ []; checkpoints = [] })) ↔ (
      (m : JournalStore) × (put store closed ≡ ok m)
      × (with_entry document closed ≡ record { entries = closed ∷ []; checkpoints = [] })
      × (is_valid_document (record { entries = closed ∷ []; checkpoints = [] }) ≡ true)
      × Agree (record { entries = closed ∷ []; checkpoints = [] }) m)
file_put_simulates_example =
    file_put_simulates document (record { entries = closed ∷ []; checkpoints = [] }) store closed
      document-Agree
