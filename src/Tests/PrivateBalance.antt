-- ===== src/Tests/PrivateBalance.antt =====
-- frontend/lib/leopold/private-balance.ts with one account.
use leopold.Prelude.{◌≡◌, refl, some}
use leopold.Prelude.Int.{pos}
use leopold.Prelude.Eq.{list_beq, nat_eq}
use leopold.Prelude.Results.{ok}
use leopold.Prelude.Calls.{done, checked, ◌>>=◌}
use leopold.Prelude.Text.{codes, to_lower_case, lower_char}
use leopold.Frontend.PrivateBalance.{
  PrivateBalanceClients, Revealed, is_zero_balance_handle, same_private_balance_identity,
  throw_unless, is_signer, assert_configured_identity, assert_sepolia_clients,
  read_current_private_balance_handle, decrypt_current_private_balance, revalidate, reveal_identity,
  reveal_private_balance_from_current_handle,
}
use leopold.Frontend.PrivateBalance.Reveal.{IsBound, reveal_private_balance-IsBound}

-- The world counts nothing; the relayer knows one balance.
abbrev clients : PrivateBalanceClients (Unit {0})
clients = record {
  signer_account = some (codes "0xAb");
  account = codes "0xab";
  wallet_chain_id = done 11_155_111;
  public_chain_id = done 11_155_111;
  read_handle = λ token account. done (codes "0x77");
  decrypt = λ account token handle. done (pos 250);
}

abbrev balance : Revealed
balance = record {
  identity = record {
    chain_id = 11_155_111;
    account = codes "0xab";
    token = codes "0xEf";
    handle = codes "0x77";
  };
  value = pos 250;
}

revealed_balance :
    (reveal_private_balance_from_current_handle
      (some (codes "0xEf"))
      (λ w. clients)
      (λ s w. w)
      (λ i w. w)
      clients
      (codes "0xeF")
      tt).0
    ≡ ok balance
unfolding reveal_private_balance_from_current_handle reveal_identity revalidate
    decrypt_current_private_balance read_current_private_balance_handle assert_sepolia_clients
    assert_configured_identity is_signer throw_unless same_private_balance_identity
    is_zero_balance_handle to_lower_case lower_char list_beq done checked ◌>>=◌
revealed_balance = refl

reveal_private_balance-IsBound_example :
    IsBound
      (some (codes "0xEf"))
      (λ w. clients)
      (λ s w. w)
      (λ i w. w)
      clients
      (codes "0xeF")
      tt
      balance
      (reveal_private_balance_from_current_handle
        (some (codes "0xEf"))
        (λ w. clients)
        (λ s w. w)
        (λ i w. w)
        clients
        (codes "0xeF")
        tt).1
reveal_private_balance-IsBound_example =
    reveal_private_balance-IsBound (some (codes "0xEf")) (λ w. clients) (λ s w. w) (λ i w. w)
      clients (codes "0xeF") tt balance revealed_balance
