-- ===== src/Frontend/Wallet/Snapshot.antt =====
-- What the application sees of a wallet session (frontend/lib/auth/wallet-identity.ts), with the texts
-- and tests that `deriveWalletSession` uses.
use Prim.Native.String.{String}
use leopold.Prelude.{
  ℕ, Bool, true, false, ◌||◌, Option, none, some, List, [], ◌∷◌, ◌++◌, ◌==◌, if◌then◌else◌,
}
use leopold.Prelude.Eq.{nat_eq}
use leopold.Prelude.Text.{Text, codes}
use leopold.Frontend.Recovery.{
  WalletSessionState, disconnected, connecting, wrong_network, connected, session_error,
  WalletSessionReason, sdk_initializing, financial_wallet_not_linked, no_active_session,
  user_disconnected, account_changed, provider_disconnected, account_selection_required,
  provider_unavailable, provider_timeout, connect_cancelled, connect_timeout, reason_wrong_network,
  dynamic_wallet_unavailable, dynamic_primary_mismatch, wagmi_account_mismatch,
  walletclient_account_mismatch, walletclient_network_mismatch, session_restore_invalid,
  reason_connected, not_checked, checking, healthy, WalletRpcHealthState,
}
use leopold.Frontend.Wallet.{
  WalletSessionIntent, WalletConnectPhase, WalletRpcHealth, DynamicWalletDescriptor,
  ProviderObservation, WalletRuntimeObservation, WalletSessionControl,
}

abbrev pub leopold_chain_id : ℕ
leopold_chain_id = 11_155_111

pub data WalletSessionRecoveryAction : Type 0 where
  link_wallet : WalletSessionRecoveryAction
  connect_wallet : WalletSessionRecoveryAction
  switch_network : WalletSessionRecoveryAction
  retry_connection : WalletSessionRecoveryAction
  no_recovery : WalletSessionRecoveryAction

pub record WalletSessionInputs : Type 0 where
  pub initialized : Bool
  pub verified_financial_wallet : Option Text
  pub control : WalletSessionControl
  pub provider : ProviderObservation
  pub runtime : WalletRuntimeObservation
  pub network_health : WalletRpcHealth

pub record WalletSessionSnapshot : Type 0 where
  pub state : WalletSessionState
  pub status : WalletSessionState
  pub intent : WalletSessionIntent
  pub reason : WalletSessionReason
  pub revision : ℕ
  pub epoch : ℕ
  pub connect_attempt_id : Option Text
  pub connect_started_at : Option ℕ
  pub connect_phase : Option WalletConnectPhase
  pub verified_address : Option Text
  pub address : Option Text
  pub connected_address : Option Text
  pub chain_id : Option ℕ
  pub provider_observation : ProviderObservation
  pub dynamic_primary_address : Option Text
  pub dynamic_linked_wallets : List DynamicWalletDescriptor
  pub dynamic_wallet_object : Option DynamicWalletDescriptor
  pub provider_active_account : Option Text
  pub provider_account_known : Bool
  pub provider_is_connected : Bool
  pub wagmi_account : Option Text
  pub wallet_client_account : Option Text
  pub wallet_client_chain_id : Option ℕ
  pub network_health : WalletRpcHealth
  pub runtime_aligned : Bool
  pub can_use_financial_actions : Bool
  pub recovery_action : WalletSessionRecoveryAction
  pub recovery_message : String
  pub technical_detail : Option Text

unchecked_health : WalletRpcHealthState → WalletRpcHealth
unchecked_health state = record {
  state = state;
  checked_at = none;
  dynamic_wallet_chain_id = none;
  wallet_client_chain_id = none;
  app_chain_id = none;
  technical_detail = none;
}

pub create_not_checked_wallet_rpc_health : WalletRpcHealth
unfolding unchecked_health
create_not_checked_wallet_rpc_health = unchecked_health not_checked

pub create_checking_wallet_rpc_health : WalletRpcHealth
unfolding unchecked_health
create_checking_wallet_rpc_health = unchecked_health checking

-- `===` on a chain id that may be `null`.
unfoldable pub same_chain : Option ℕ → Option ℕ → Bool
same_chain none none = true
same_chain none (some b) = false
same_chain (some a) none = false
same_chain (some a) (some b) = a == b

unfoldable pub is_healthy : WalletRpcHealthState → Bool
is_healthy healthy = true
is_healthy state = false

unfoldable pub is_connected_status : WalletSessionState → Bool
is_connected_status connected = true
is_connected_status status = false

has_error_status : WalletSessionState → Bool
has_error_status session_error = true
has_error_status status = false

-- `{ aligned: false, reason }`, or `none` for `{ aligned: true, reason: null }`.
abbrev pub Misalignment : Type 0
Misalignment = Option WalletSessionReason

unfoldable pub is_aligned : Misalignment → Bool
is_aligned none = true
is_aligned (some reason) = false

unfoldable pub recovery_for :
    WalletSessionState → WalletSessionReason → Option Text → WalletSessionRecoveryAction × String
recovery_for status reason none = (link_wallet, "Link your financial wallet to continue.")
recovery_for status reason (some []) = (link_wallet, "Link your financial wallet to continue.")
recovery_for wrong_network reason (some (c ∷ cs)) =
    (switch_network, "Switch to Ethereum Sepolia to continue.")
recovery_for connecting account_selection_required (some (c ∷ cs)) =
    (no_recovery, "Select your verified account in Rabby or MetaMask.")
recovery_for connecting reason (some (c ∷ cs)) =
    (no_recovery, "Connecting your verified financial wallet…")
recovery_for session_error reason (some (c ∷ cs)) =
    (retry_connection, "Your wallet connection could not be completed.")
recovery_for disconnected account_changed (some (c ∷ cs)) =
    (connect_wallet, "Your wallet account changed. Reconnect your verified wallet to continue.")
recovery_for disconnected reason (some (c ∷ cs)) =
    (connect_wallet, "Connect your verified financial wallet to continue.")
recovery_for status reason (some (c ∷ cs)) = (no_recovery, "")

reason_text : WalletSessionReason → Text
reason_text sdk_initializing = codes "SDK_INITIALIZING"
reason_text financial_wallet_not_linked = codes "FINANCIAL_WALLET_NOT_LINKED"
reason_text no_active_session = codes "NO_ACTIVE_SESSION"
reason_text user_disconnected = codes "USER_DISCONNECTED"
reason_text account_changed = codes "ACCOUNT_CHANGED"
reason_text provider_disconnected = codes "PROVIDER_DISCONNECTED"
reason_text account_selection_required = codes "ACCOUNT_SELECTION_REQUIRED"
reason_text provider_unavailable = codes "PROVIDER_UNAVAILABLE"
reason_text provider_timeout = codes "PROVIDER_TIMEOUT"
reason_text connect_cancelled = codes "CONNECT_CANCELLED"
reason_text connect_timeout = codes "CONNECT_TIMEOUT"
reason_text reason_wrong_network = codes "WRONG_NETWORK"
reason_text dynamic_wallet_unavailable = codes "DYNAMIC_WALLET_UNAVAILABLE"
reason_text dynamic_primary_mismatch = codes "DYNAMIC_PRIMARY_MISMATCH"
reason_text wagmi_account_mismatch = codes "WAGMI_ACCOUNT_MISMATCH"
reason_text walletclient_account_mismatch = codes "WALLETCLIENT_ACCOUNT_MISMATCH"
reason_text walletclient_network_mismatch = codes "WALLETCLIENT_NETWORK_MISMATCH"
reason_text session_restore_invalid = codes "SESSION_RESTORE_INVALID"
reason_text reason_connected = codes "CONNECTED"

has_lost_account : WalletSessionReason → Bool
has_lost_account account_changed = true
has_lost_account provider_disconnected = true
has_lost_account reason = false

unfoldable pub session_detail : WalletSessionState → WalletSessionReason → Option Text
unfolding has_error_status has_lost_account reason_text
session_detail status reason =
    if has_error_status status || has_lost_account reason
    then some (codes "WALLET_SESSION:" ++ reason_text reason)
    else none

unfoldable pub session_address : WalletSessionState → Option Text → Option Text
session_address connected verified = verified
session_address wrong_network verified = verified
session_address status verified = none

unfoldable pub present : List (Option DynamicWalletDescriptor) → List DynamicWalletDescriptor
present [] = []
present (none ∷ os) = present os
present (some d ∷ os) = d ∷ present os

-- The status of a session whose runtime has been compared.
unfoldable pub aligned_status : Misalignment → WalletSessionState × WalletSessionReason
aligned_status none = (connected, reason_connected)
aligned_status (some reason) = (session_error, reason)

unfoldable pub inactive_status : WalletSessionState → WalletSessionState
inactive_status session_error = session_error
inactive_status status = disconnected
