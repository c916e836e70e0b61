-- ===== src/Frontend/Recovery.antt =====
-- frontend/lib/auth/recovery.ts: what the application asks of a user whose wallet is not ready. The
-- statuses are those of frontend/lib/auth/account-state.ts and frontend/lib/auth/wallet-identity.ts.
use Prim.Native.String.{String}
use leopold.Prelude.{◌≡◌, ◌↔◌, ◌≢◌, ◌⊎◌, Bool, true, false, arith, if◌then◌else◌}

pub data AccountStatus : Type 0 where
  auth_loading : AccountStatus
  signed_out : AccountStatus
  signed_in_profile_incomplete : AccountStatus
  signed_in_ready : AccountStatus

pub data FinancialWalletMetadataStatus : Type 0 where
  metadata_loading : FinancialWalletMetadataStatus
  metadata_unavailable : FinancialWalletMetadataStatus
  metadata_none : FinancialWalletMetadataStatus
  metadata_present : FinancialWalletMetadataStatus
  metadata_error : FinancialWalletMetadataStatus

pub data WalletSessionState : Type 0 where
  bootstrapping : WalletSessionState
  disconnected : WalletSessionState
  connecting : WalletSessionState
  wrong_network : WalletSessionState
  connected : WalletSessionState
  session_error : WalletSessionState

pub data WalletSessionReason : Type 0 where
  sdk_initializing : WalletSessionReason
  financial_wallet_not_linked : WalletSessionReason
  no_active_session : WalletSessionReason
  user_disconnected : WalletSessionReason
  account_changed : WalletSessionReason
  provider_disconnected : WalletSessionReason
  account_selection_required : WalletSessionReason
  provider_unavailable : WalletSessionReason
  provider_timeout : WalletSessionReason
  connect_cancelled : WalletSessionReason
  connect_timeout : WalletSessionReason
  reason_wrong_network : WalletSessionReason
  dynamic_wallet_unavailable : WalletSessionReason
  dynamic_primary_mismatch : WalletSessionReason
  wagmi_account_mismatch : WalletSessionReason
  walletclient_account_mismatch : WalletSessionReason
  walletclient_network_mismatch : WalletSessionReason
  session_restore_invalid : WalletSessionReason
  reason_connected : WalletSessionReason

pub data WalletRpcHealthState : Type 0 where
  not_checked : WalletRpcHealthState
  checking : WalletRpcHealthState
  healthy : WalletRpcHealthState
  app_rpc_unavailable : WalletRpcHealthState
  wallet_rpc_unavailable : WalletRpcHealthState
  health_unknown : WalletRpcHealthState

pub data WalletGateMode : Type 0 where
  gate_auth_loading : WalletGateMode
  gate_signed_out : WalletGateMode
  gate_profile_incomplete : WalletGateMode
  gate_financial_metadata_loading : WalletGateMode
  gate_financial_metadata_error : WalletGateMode
  gate_application : WalletGateMode

pub data LeopoldRecoveryAction : Type 0 where
  link_financial_wallet : LeopoldRecoveryAction
  confirm_financial_wallet : LeopoldRecoveryAction
  connect_verified_wallet : LeopoldRecoveryAction
  confirm_account_selection : LeopoldRecoveryAction
  cancel_connection : LeopoldRecoveryAction
  switch_to_sepolia : LeopoldRecoveryAction
  retry_provider : LeopoldRecoveryAction
  retry_network : LeopoldRecoveryAction
  no_action : LeopoldRecoveryAction
  error_action : LeopoldRecoveryAction

-- `financialWalletIntegrity`, with its absence as a value.
pub data Integrity : Type 0 where
  integrity_absent : Integrity
  integrity_loading : Integrity
  integrity_ready : Integrity
  integrity_error : Integrity

pub record LeopoldRecovery : Type 0 where
  pub visible : Bool
  pub action : LeopoldRecoveryAction
  pub message : String
  pub detail : String

pub record RecoveryInputs : Type 0 where
  pub account_status : AccountStatus
  pub financial_metadata_status : FinancialWalletMetadataStatus
  pub wallet_session_status : WalletSessionState
  pub wallet_session_reason : WalletSessionReason
  pub network_health : WalletRpcHealthState
  pub can_confirm_financial_wallet : Bool
  pub financial_wallet_integrity : Integrity

unfoldable pub derive_wallet_gate_mode :
    AccountStatus → FinancialWalletMetadataStatus → WalletGateMode
derive_wallet_gate_mode auth_loading m = gate_auth_loading
derive_wallet_gate_mode signed_out m = gate_signed_out
derive_wallet_gate_mode signed_in_profile_incomplete m = gate_profile_incomplete
derive_wallet_gate_mode signed_in_ready metadata_loading = gate_financial_metadata_loading
derive_wallet_gate_mode signed_in_ready metadata_error = gate_financial_metadata_error
derive_wallet_gate_mode signed_in_ready metadata_unavailable = gate_financial_metadata_error
derive_wallet_gate_mode signed_in_ready m = gate_application

abbrev shown : LeopoldRecoveryAction → String → String → LeopoldRecovery
shown action message detail = record {
  visible = true;
  action = action;
  message = message;
  detail = detail;
}

abbrev hidden_recovery : LeopoldRecovery
hidden_recovery = record { visible = false; action = no_action; message = ""; detail = "" }

for_connecting : WalletSessionReason → LeopoldRecovery
for_connecting account_selection_required =
    shown confirm_account_selection "Select your verified account in Rabby or MetaMask."
      "Leopold will not adopt another wallet account."
for_connecting reason =
    shown cancel_connection "Connecting your verified financial wallet…"
      "This user-initiated connection attempt is verifying your provider, account, and network."

for_health : WalletRpcHealthState → LeopoldRecovery
for_health wallet_rpc_unavailable =
    shown retry_network "Your wallet's Sepolia connection isn't working."
      "Your Leopold wallet session remains connected, but its Sepolia RPC is unavailable."
for_health app_rpc_unavailable =
    shown retry_network "Leopold's Sepolia service is currently unavailable."
      "Your wallet remains connected, but Leopold's public Sepolia service is unavailable."
for_health health_unknown =
    shown retry_network "Network health could not be confirmed."
      "Your wallet remains connected while network health is retried."
for_health h = hidden_recovery

for_unlinked : Integrity → Bool → LeopoldRecovery
for_unlinked integrity_loading can_confirm = hidden_recovery
for_unlinked integrity_error can_confirm =
    shown error_action "Financial-wallet linking is temporarily unavailable."
      "Leopold could not verify that unique wallet ownership is enforced. No account data was changed."
for_unlinked integrity can_confirm =
    if can_confirm
    then shown confirm_financial_wallet
        "Confirm your authenticated wallet for Leopold financial actions."
        "This wallet is already verified on your current Leopold account. Confirmation will not merge accounts."
    else shown link_financial_wallet "Link your financial wallet to continue."
        "Leopold has no verified financial wallet for this account yet."

for_session : RecoveryInputs → WalletSessionState → LeopoldRecovery
unfolding for_connecting for_health
for_session i bootstrapping = hidden_recovery
for_session i disconnected =
    shown connect_verified_wallet "Connect your verified financial wallet to continue."
      "Financial and private actions remain paused. Public Leopold information remains available."
for_session i connecting = for_connecting i.wallet_session_reason
for_session i wrong_network =
    shown switch_to_sepolia "Switch to Ethereum Sepolia to continue."
      "No financial transaction will be attempted until your verified wallet is on Sepolia."
for_session i session_error =
    shown retry_provider "Your wallet connection could not be completed."
      "The connection attempt ended safely. You can retry without refreshing the page."
for_session i connected = for_health i.network_health

for_metadata : RecoveryInputs → FinancialWalletMetadataStatus → LeopoldRecovery
unfolding for_unlinked for_session
for_metadata i metadata_loading = hidden_recovery
for_metadata i metadata_none =
    for_unlinked i.financial_wallet_integrity i.can_confirm_financial_wallet
for_metadata i metadata_present = for_session i i.wallet_session_status
for_metadata i status =
    shown error_action "Your verified financial-wallet metadata could not be resolved."
      "Financial actions remain paused. Your account metadata has not been changed."

for_account : RecoveryInputs → AccountStatus → LeopoldRecovery
unfolding for_metadata
for_account i signed_in_ready = for_metadata i i.financial_metadata_status
for_account i status = hidden_recovery

-- The last branch of the code, for a session status that is none of the six, is out of reach.
unfoldable pub derive_leopold_recovery : RecoveryInputs → LeopoldRecovery
unfolding for_account
derive_leopold_recovery i = for_account i i.account_status

-- The statuses in which a signed-in user has nothing to recover.
abbrev pub IsSettled : RecoveryInputs → Type 0
IsSettled i =
    ((i.financial_metadata_status ≡ metadata_none)
      × (i.financial_wallet_integrity ≡ integrity_loading))
    ⊎ ((i.financial_metadata_status ≡ metadata_present)
        × ((i.wallet_session_status ≡ bootstrapping)
            ⊎ ((i.wallet_session_status ≡ connected)
                × ((i.network_health ≡ healthy)
                    ⊎ (i.network_health ≡ checking)
                    ⊎ (i.network_health ≡ not_checked)))))

-- Nothing is asked of the user while the gate is closed. At a metadata error of the gate something
-- is shown. In the application nothing is shown exactly while the ownership of the wallet is
-- being checked, the session is starting, or it is connected and the network is not known to fail.
pub derive_leopold_recovery_gate :
    (i : RecoveryInputs)
    → ((derive_leopold_recovery i).visible ≡ false) ↔ (
        (derive_wallet_gate_mode i.account_status i.financial_metadata_status ≢ gate_application)
          × (derive_wallet_gate_mode i.account_status i.financial_metadata_status
              ≢ gate_financial_metadata_error)
        ⊎ ((derive_wallet_gate_mode i.account_status i.financial_metadata_status ≡ gate_application)
            × IsSettled i))
unfolding derive_leopold_recovery derive_wallet_gate_mode
derive_leopold_recovery_gate i = ground arith
