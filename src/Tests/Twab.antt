-- ===== src/Tests/Twab.antt =====
-- `TwabReferenceModel` (reference/leopoldModels.ts) on small inputs.
use leopold.Prelude.{◌≡◌, refl, sym, ap, ◌∙◌, some, none, List, [], ◌∷◌, arith}
use leopold.Prelude.Int.{pos, ◌+ℤ◌, ◌-ℤ◌, ◌*ℤ◌}
use leopold.Prelude.Eq.{get, set, list_beq, nat_eq, list_eq}
use leopold.Prelude.Results.{ok}
use leopold.Prelude.Text.{Text, codes, to_lower_case}
use leopold.Reference.Twab.{
  vault_1, Checkpoint, Model, new, Outcome, done, thrown, actions_must_be_chronological, key, last,
  set_last, balance, total_balance, write, write_after, change, change_user, change_total, deposit,
  withdraw, total_checkpoints, user_checkpoints,
}
use leopold.Reference.Twab.Interpolate.{interpolate, weight, aggregate_weight}
use leopold.Reference.Twab.Search.{walk, interpolate-eq-walk}
use leopold.Reference.Twab.History.{integral}
use leopold.Reference.Twab.Ledger.{
  Entry, entry_of, user_history, user_at, total_at, Faithful, new-Faithful,
}
use leopold.Reference.Twab.Conservation.{count_key, Covers, sum_weights}
use leopold.Reference.Twab.Runs.{Reached, opened, deposited, weight_exact, weights_add_up}
use leopold.Reference.Twab.Operations.{deposit-Faithful, withdraw-Faithful, deposit_half_written}

abbrev alice : Text
alice = codes "0xA1"

abbrev bob : Text
bob = codes "0xB2"

abbrev carol : Text
carol = codes "0xC3"

abbrev two_checkpoints : List Checkpoint
two_checkpoints =
    record { timestamp = pos 100; balance = pos 10; cumulative = pos 0 }
    ∷ record { timestamp = pos 200; balance = pos 30; cumulative = pos 1_000 }
    ∷ []

interpolate-eq-walk_example :
    interpolate two_checkpoints (pos 150) ≡ ok (walk two_checkpoints (pos 150))
interpolate-eq-walk_example = interpolate-eq-walk two_checkpoints (pos 150) (ground arith)

succeeded : (r : Outcome × Model) (m : Model) → r ≡ (done, m) → r ≡ (done, r.1)
succeeded r m e = e ∙ ap (λ x. (done, x)) (ap (λ p. p.1) (sym e))

abbrev one_deposit : Model
one_deposit = (deposit vault_1 alice (pos 10) (pos 100) new).1

abbrev one_entry : List Entry
one_entry = entry_of vault_1 alice (pos 10) (pos 100) ∷ []

deposit-Faithful_example :
    (m : Model) × (deposit vault_1 alice (pos 10) (pos 100) new ≡ (done, m)) × Faithful m one_entry
deposit-Faithful_example =
    deposit-Faithful new [] new-Faithful vault_1 alice (pos 10) (pos 100) (omega arith)
      (unfold last total_at get in ground arith)

one_deposit-Faithful : Faithful one_deposit one_entry
one_deposit-Faithful =
    let (m, e, f) =
      deposit-Faithful new [] new-Faithful vault_1 alice (pos 10) (pos 100) (omega arith)
        (unfold last total_at get in ground arith) in
    rw (ap (λ r. r.1) e) f

abbrev two_entries : List Entry
two_entries = entry_of vault_1 bob (pos 4) (pos 200) ∷ one_entry

abbrev two_deposits : Model
two_deposits = (deposit vault_1 bob (pos 4) (pos 200) one_deposit).1

last_total :
    last (total_at one_deposit 1)
    ≡ some (record { timestamp = pos 100; balance = pos 10; cumulative = pos 0 })
unfolding deposit change change_user change_total write write_after user_checkpoints
    total_checkpoints total_at get set last ◌+ℤ◌ ◌-ℤ◌ ◌*ℤ◌
last_total = refl

two_deposits-Faithful : Faithful two_deposits two_entries
two_deposits-Faithful =
    let (m, e, f) =
      deposit-Faithful one_deposit one_entry one_deposit-Faithful vault_1 bob (pos 4) (pos 200)
        (omega arith) (ground (arith, last_total)) in
    rw (ap (λ r. r.1) e) f

two_deposits-Reached : Reached two_deposits two_entries
two_deposits-Reached =
    let (m, e, f) =
      deposit-Faithful new [] new-Faithful vault_1 alice (pos 10) (pos 100) (omega arith)
        (unfold last total_at get in ground arith) in
    let (n, e', f') =
      deposit-Faithful one_deposit one_entry one_deposit-Faithful vault_1 bob (pos 4) (pos 200)
        (omega arith) (ground (arith, last_total)) in
    deposited (deposited opened vault_1 alice (pos 10) (pos 100) (succeeded _ m e)) vault_1 bob
      (pos 4) (pos 200) (succeeded _ n e')

last_two :
    last (total_at two_deposits 1)
    ≡ some (record { timestamp = pos 200; balance = pos 14; cumulative = pos 1_000 })
unfolding deposit change change_user change_total write write_after user_checkpoints
    total_checkpoints total_at get set last set_last ◌+ℤ◌ ◌-ℤ◌ ◌*ℤ◌ list_beq key to_lower_case
last_two = refl

no_carol : last (user_at two_deposits (key vault_1 carol)) ≡ none
unfolding deposit change change_user change_total write write_after user_checkpoints
    total_checkpoints total_at user_at get set last set_last ◌+ℤ◌ ◌-ℤ◌ ◌*ℤ◌ key to_lower_case
    list_beq
no_carol = refl

alice_balance : balance two_deposits vault_1 alice ≡ pos 10
unfolding balance deposit change change_user change_total write write_after user_checkpoints
    total_checkpoints total_at user_at get set last set_last ◌+ℤ◌ ◌-ℤ◌ ◌*ℤ◌ key to_lower_case
    list_beq
alice_balance = refl

two_covered : Covers vault_1 (alice ∷ bob ∷ []) two_entries
unfolding count_key key to_lower_case list_beq
two_covered = (λ e. refl, (λ e. refl, tt))

known_alice : count_key vault_1 (key vault_1 alice) (alice ∷ bob ∷ []) ≡ 1
unfolding count_key key to_lower_case list_beq
known_alice = refl

withdraw-Faithful_example :
    (m : Model) × (withdraw vault_1 alice (pos 3) (pos 250) two_deposits ≡ (done, m))
    × Faithful m (entry_of vault_1 alice (pos 0 -ℤ pos 3) (pos 250) ∷ two_entries)
withdraw-Faithful_example =
    withdraw-Faithful two_deposits two_entries two_deposits-Faithful vault_1 alice (pos 3) (pos 250)
      (omega arith) (alice ∷ bob ∷ []) two_covered (omega (arith, known_alice))
      (ground (arith, last_two)) (rw alice_balance (omega arith))

deposit_half_written_example :
    (m : Model) × (deposit vault_1 carol (pos 6) (pos 150) two_deposits
      ≡ (thrown actions_must_be_chronological, m))
    × (balance m vault_1 carol ≡ balance two_deposits vault_1 carol +ℤ pos 6)
    × (total_balance m vault_1 ≡ total_balance two_deposits vault_1)
deposit_half_written_example =
    deposit_half_written two_deposits two_entries two_deposits-Faithful vault_1 carol (pos 6)
      (pos 150) (omega arith)
      (record { timestamp = pos 200; balance = pos 14; cumulative = pos 1_000 })
      (ground (arith, no_carol)) last_two (omega arith)

weight_exact_example :
    weight two_deposits vault_1 alice (pos 50) (pos 300)
    ≡ ok (
        integral (user_history (key vault_1 alice) two_entries) (pos 300)
        -ℤ integral (user_history (key vault_1 alice) two_entries) (pos 50))
weight_exact_example =
    weight_exact two_deposits two_entries two_deposits-Reached vault_1 alice (pos 50) (pos 300)
      (omega arith)

weights_add_up_example :
    sum_weights two_deposits vault_1 (alice ∷ bob ∷ []) (pos 50) (pos 300)
    ≡ aggregate_weight two_deposits vault_1 (pos 50) (pos 300)
weights_add_up_example =
    weights_add_up two_deposits two_entries two_deposits-Reached vault_1 (alice ∷ bob ∷ []) (pos 50)
      (pos 300) two_covered (omega arith)
