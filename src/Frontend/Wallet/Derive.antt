-- ===== src/Frontend/Wallet/Derive.antt =====
-- `deriveWalletSession` of frontend/lib/auth/wallet-identity.ts: the session that the application
-- sees. `isAddress` and `getAddress` of viem are parameters.
pub mod Authority
use Prim.Native.String.{String}
use leopold.Prelude.{
  ℕ, Bool, true, false, not, ◌&&◌, ◌||◌, Option, none, some, List, [], ◌∷◌, ◌++◌, ◌==◌,
  if◌then◌else◌,
}
use leopold.Prelude.Eq.{nat_eq}
use leopold.Prelude.Text.{Text, codes}
use leopold.Frontend.Readiness.{is_truthy, normalize_wallet_address, wallets_match}
use leopold.Frontend.Recovery.{
  WalletSessionState, bootstrapping, disconnected, connecting, wrong_network, connected,
  session_error, WalletSessionReason, sdk_initializing, financial_wallet_not_linked,
  no_active_session, user_disconnected, account_changed, provider_disconnected,
  account_selection_required, provider_unavailable, provider_timeout, connect_cancelled,
  connect_timeout, reason_wrong_network, dynamic_wallet_unavailable, dynamic_primary_mismatch,
  wagmi_account_mismatch, walletclient_account_mismatch, walletclient_network_mismatch,
  session_restore_invalid, reason_connected, not_checked, checking, healthy, WalletRpcHealthState,
}
use leopold.Frontend.Wallet.{
  WalletSessionIntent, inactive, intent_connecting, active, WalletConnectPhase, WalletRpcHealth,
  DynamicWalletDescriptor, ProviderObservation, WalletRuntimeObservation, WalletSessionControl,
  or_else,
}
use leopold.Frontend.Wallet.Snapshot.{
  leopold_chain_id, WalletSessionInputs, WalletSessionSnapshot, same_chain, is_healthy,
  is_connected_status, Misalignment, is_aligned, recovery_for, session_detail, session_address,
  present, aligned_status, inactive_status,
}

module _ (is_address : Text → Bool) (get_address : Text → Text) where
  normalized_descriptor : Text → Option Text → Option DynamicWalletDescriptor
  normalized_descriptor id none = none
  normalized_descriptor id (some []) = none
  normalized_descriptor id (some (c ∷ cs)) = some (record { id = id; address = c ∷ cs })

  unfoldable pub normalize_descriptor :
      Option DynamicWalletDescriptor → Option DynamicWalletDescriptor
  unfolding normalized_descriptor
  normalize_descriptor none = none
  normalize_descriptor (some wallet) =
      normalized_descriptor wallet.id
        (normalize_wallet_address is_address get_address (some wallet.address))

  linked : List DynamicWalletDescriptor → List (Option DynamicWalletDescriptor)
  linked [] = []
  linked (d ∷ ds) = normalize_descriptor (some d) ∷ linked ds

  unfoldable pub align_wallets :
      Option Text
      → Option ℕ
      → WalletRuntimeObservation
      → Option DynamicWalletDescriptor
      → Misalignment
  align_wallets verified chain_id runtime none = some dynamic_wallet_unavailable
  align_wallets verified chain_id runtime (some wallet) =
      if not (wallets_match is_address get_address runtime.dynamic_primary_wallet verified)
      then some dynamic_primary_mismatch
      else if not (wallets_match is_address get_address runtime.wagmi_account verified)
      then some wagmi_account_mismatch
      else if not (wallets_match is_address get_address runtime.wallet_client_account verified)
      then some walletclient_account_mismatch
      else if not (same_chain runtime.wallet_client_chain_id chain_id)
      then some walletclient_network_mismatch
      else none

  unfoldable pub runtime_alignment :
      Option Text → Option Text → Option ℕ → WalletRuntimeObservation → Misalignment
  runtime_alignment verified account chain_id runtime =
      if not (is_truthy verified)
        || not (is_truthy account)
        || not (wallets_match is_address get_address verified account)
      then some account_changed
      else align_wallets verified chain_id runtime runtime.dynamic_wallet_object

  -- The branches of `intent === "ACTIVE"`.
  unfoldable pub active_status :
      WalletSessionInputs → Option Text → Option Text → WalletSessionState × WalletSessionReason
  active_status i verified account =
      if not (same_chain i.control.provider_revision (some i.provider.revision))
      then (disconnected, account_changed)
      else if not i.provider.account_known || not i.provider.is_connected || not (is_truthy account)
      then (disconnected, provider_disconnected)
      else if not (wallets_match is_address get_address account verified)
      then (disconnected, account_changed)
      else if not (same_chain i.provider.chain_id (some leopold_chain_id))
      then (wrong_network, reason_wrong_network)
      else aligned_status (runtime_alignment verified account i.provider.chain_id i.runtime)

  unfoldable pub status_by_intent :
      WalletSessionInputs
      → Option Text
      → Option Text
      → WalletSessionIntent
      → WalletSessionState × WalletSessionReason
  unfolding inactive_status
  status_by_intent i verified account inactive =
      (inactive_status i.control.status, i.control.reason)
  status_by_intent i verified account active = active_status i verified account
  status_by_intent i verified account intent_connecting = (i.control.status, i.control.reason)

  unfoldable pub session_status :
      WalletSessionInputs → Option Text → Option Text → WalletSessionState × WalletSessionReason
  session_status i verified account =
      if not i.initialized
      then (bootstrapping, sdk_initializing)
      else if not (is_truthy verified)
      then (disconnected, financial_wallet_not_linked)
      else status_by_intent i verified account i.control.intent

  -- The runtime with its addresses normalized.
  unfoldable pub normalized_runtime : WalletRuntimeObservation → WalletRuntimeObservation
  unfolding linked present
  normalized_runtime r = record r {
    dynamic_primary_wallet =
        normalize_wallet_address is_address get_address r.dynamic_primary_wallet;
    dynamic_linked_wallets = present (linked r.dynamic_linked_wallets);
    dynamic_wallet_object = normalize_descriptor r.dynamic_wallet_object;
    wagmi_account = normalize_wallet_address is_address get_address r.wagmi_account;
    wallet_client_account = normalize_wallet_address is_address get_address r.wallet_client_account;
  }

  unfoldable pub is_runtime_aligned : WalletSessionInputs → Option Text → Option Text → Bool
  is_runtime_aligned i verified account =
      is_aligned
        (runtime_alignment verified account i.provider.chain_id (normalized_runtime i.runtime))
      && same_chain i.provider.chain_id (some leopold_chain_id)

  -- The snapshot, once the addresses are normalized and the status is known.
  unfoldable pub session_snapshot :
      WalletSessionInputs
      → Option Text
      → Option Text
      → WalletRuntimeObservation
      → WalletSessionState × WalletSessionReason
      → WalletSessionSnapshot
  unfolding session_detail session_address
  session_snapshot i verified account runtime (status, reason) = record {
    state = status;
    status = status;
    intent = i.control.intent;
    reason = reason;
    revision = i.control.epoch;
    epoch = i.control.epoch;
    connect_attempt_id = i.control.connect_attempt_id;
    connect_started_at = i.control.connect_started_at;
    connect_phase = i.control.connect_phase;
    verified_address = verified;
    address = session_address status verified;
    connected_address = session_address status verified;
    chain_id = i.provider.chain_id;
    provider_observation = record i.provider { active_account = account };
    dynamic_primary_address = runtime.dynamic_primary_wallet;
    dynamic_linked_wallets = runtime.dynamic_linked_wallets;
    dynamic_wallet_object = runtime.dynamic_wallet_object;
    provider_active_account = account;
    provider_account_known = i.provider.account_known;
    provider_is_connected = i.provider.is_connected;
    wagmi_account = runtime.wagmi_account;
    wallet_client_account = runtime.wallet_client_account;
    wallet_client_chain_id = runtime.wallet_client_chain_id;
    network_health = i.network_health;
    runtime_aligned = is_runtime_aligned i verified account;
    can_use_financial_actions =
        is_connected_status status
        && is_runtime_aligned i verified account
        && is_healthy i.network_health.state;
    recovery_action = (recovery_for status reason verified).0;
    recovery_message = (recovery_for status reason verified).1;
    technical_detail = session_detail status reason;
  }

  unfoldable pub derive_wallet_session : WalletSessionInputs → WalletSessionSnapshot
  derive_wallet_session i =
      let verified = normalize_wallet_address is_address get_address i.verified_financial_wallet in
      let account = normalize_wallet_address is_address get_address i.provider.active_account in
      session_snapshot i verified account (normalized_runtime i.runtime)
        (session_status i verified account)

  unfoldable pub wallet_session_runtime_aligned : WalletSessionSnapshot → Bool
  wallet_session_runtime_aligned s =
      is_connected_status s.status
      && s.runtime_aligned
      && wallets_match is_address get_address s.address s.verified_address
      && same_chain s.chain_id (some leopold_chain_id)
