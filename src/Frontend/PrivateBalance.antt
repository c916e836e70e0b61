-- ===== src/Frontend/PrivateBalance.antt =====
-- frontend/lib/leopold/private-balance.ts: the reveal of the private balance. The clients of viem
-- and of the relayer are parameters, and so is the configured token of the deployment.
pub mod Reads
pub mod Reveal
use leopold.Prelude.{
  ℕ, zero, suc, Bool, true, false, not, ◌&&◌, ◌||◌, ◌==◌, Option, none, some, List, [], ◌∷◌, ◌++◌,
  if◌then◌else◌,
}
use leopold.Prelude.Int.{ℤ, pos}
use leopold.Prelude.Eq.{list_beq, nat_eq}
use leopold.Prelude.Results.{Result, ok, err}
use leopold.Prelude.Calls.{Calls, done, checked, ◌>>=◌, ◌>>◌}
use leopold.Prelude.Text.{Text, codes, to_lower_case}
use leopold.Frontend.Wallet.Snapshot.{leopold_chain_id}

pub data RevealStage : Type 0 where
  reading_handle : RevealStage
  awaiting_decrypt_authorization : RevealStage
  decrypting : RevealStage
  revalidating_handle : RevealStage
  revealed : RevealStage

pub data RevealError : Type 0 where
  configuration_missing : RevealError
  wrong_token : RevealError
  wrong_account : RevealError
  wrong_network_wallet_client : ℕ → RevealError
  wrong_network_public_client : ℕ → RevealError
  identity_changed : RevealError
  stale_handle : RevealError
  call_failed : Text → RevealError

pub record PrivateBalanceIdentity : Type 0 where
  pub chain_id : ℕ
  pub account : Text
  pub token : Text
  pub handle : Text

-- `read_handle` is `confidentialBalanceOf` of a token for an account, with its retries, and
-- `decrypt` is `decryptPrivateValue` for an account, a token and a handle.
pub record PrivateBalanceClients (World : Type 0) : Type 0 where
  pub signer_account : Option Text
  pub account : Text
  pub wallet_chain_id : Calls RevealError World ℕ
  pub public_chain_id : Calls RevealError World ℕ
  pub read_handle : Text → Text → Calls RevealError World Text
  pub decrypt : Text → Text → Text → Calls RevealError World ℤ

pub record Revealed : Type 0 where
  pub identity : PrivateBalanceIdentity
  pub value : ℤ

abbrev zeros : ℕ → Text
zeros zero = []
zeros (suc n) = b'0' ∷ zeros n

abbrev pub zero_balance_handle : Text
zero_balance_handle = codes "0x" ++ zeros 64

unfoldable pub is_zero_balance_handle : Text → Bool
is_zero_balance_handle handle = list_beq (to_lower_case handle) zero_balance_handle

abbrev pub same_text : Text → Text → Bool
same_text left right = list_beq (to_lower_case left) (to_lower_case right)

unfoldable pub same_private_balance_identity :
    PrivateBalanceIdentity → PrivateBalanceIdentity → Bool
same_private_balance_identity left right =
    left.chain_id == right.chain_id
    && same_text left.account right.account
    && same_text left.token right.token
    && same_text left.handle right.handle

unfoldable pub throw_unless : Bool → RevealError → Result RevealError (Unit {0})
throw_unless true e = ok tt
throw_unless false e = err e

unfoldable pub is_signer : Option Text → Text → Bool
is_signer none account = false
is_signer (some []) account = false
is_signer (some (c ∷ cs)) account = same_text (c ∷ cs) account

module _ {World : Type 0} (configured : Option Text) where
  check_identity : PrivateBalanceClients World → Text → Text → Result RevealError Text
  unfolding is_signer
  check_identity clients token official =
      if not (same_text token official)
      then err wrong_token
      else if not (is_signer clients.signer_account clients.account)
      then err wrong_account
      else ok official

  require_configured : Option Text → PrivateBalanceClients World → Text → Result RevealError Text
  require_configured none clients token = err configuration_missing
  require_configured (some official) clients token = check_identity clients token official

  unfoldable pub assert_configured_identity :
      PrivateBalanceClients World → Text → Result RevealError Text
  unfolding require_configured check_identity
  assert_configured_identity clients token = require_configured configured clients token

  unfoldable pub assert_sepolia_clients : PrivateBalanceClients World → Calls RevealError World ℕ
  assert_sepolia_clients clients = do
    signer_chain_id ← clients.wallet_chain_id
    checked (
        throw_unless (signer_chain_id == leopold_chain_id)
          (wrong_network_wallet_client signer_chain_id))
    public_chain ← clients.public_chain_id
    checked
        (throw_unless (public_chain == leopold_chain_id) (wrong_network_public_client public_chain))
    done signer_chain_id

  unfoldable pub read_current_private_balance_handle :
      PrivateBalanceClients World → Text → Calls RevealError World PrivateBalanceIdentity
  read_current_private_balance_handle clients token = do
    official_token ← checked (assert_configured_identity clients token)
    chain_id ← assert_sepolia_clients clients
    handle ← clients.read_handle official_token clients.account
    done (record {
      chain_id = chain_id;
      account = clients.account;
      token = official_token;
      handle = handle;
    })

  unfoldable pub decrypt_current_private_balance :
      PrivateBalanceClients World → PrivateBalanceIdentity → Calls RevealError World ℤ
  decrypt_current_private_balance clients identity = do
    official_token ← checked (assert_configured_identity clients identity.token)
    chain_id ← assert_sepolia_clients clients
    checked (
        throw_unless
          (chain_id == identity.chain_id
            && same_text clients.account identity.account
            && same_text official_token identity.token)
          identity_changed)
    clients.decrypt clients.account official_token identity.handle

  module _ (get_current_clients : World → PrivateBalanceClients World)
      (on_stage : RevealStage → World → World)
      (on_identity : PrivateBalanceIdentity → World → World) where
    stage : RevealStage → Calls RevealError World (Unit {0})
    stage s w = (ok tt, on_stage s w)

    announce : PrivateBalanceIdentity → Calls RevealError World (Unit {0})
    announce identity w = (ok tt, on_identity identity w)

    -- The read with the clients as they are now, which has to give the same identity.
    unfoldable pub revalidate : Text → PrivateBalanceIdentity → ℤ → Calls RevealError World Revealed
    unfolding stage
    revalidate token requested value w =
        (do
          current ← read_current_private_balance_handle (get_current_clients w) token
          checked (throw_unless (same_private_balance_identity requested current) stale_handle)
          stage revealed
          done (record { identity = current; value = value }))
          w

    unfoldable pub reveal_identity :
        PrivateBalanceClients World
        → Text
        → PrivateBalanceIdentity
        → Calls RevealError World Revealed
    unfolding stage
    reveal_identity clients token requested =
        if is_zero_balance_handle requested.handle then revalidate token requested (pos 0) else (do
          stage awaiting_decrypt_authorization
          stage decrypting
          value ← decrypt_current_private_balance clients requested
          stage revalidating_handle
          revalidate token requested value)

    unfoldable pub reveal_private_balance_from_current_handle :
        PrivateBalanceClients World → Text → Calls RevealError World Revealed
    unfolding stage announce
    reveal_private_balance_from_current_handle clients token = do
      stage reading_handle
      requested ← read_current_private_balance_handle clients token
      announce requested
      reveal_identity clients token requested
