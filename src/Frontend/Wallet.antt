-- ===== src/Frontend/Wallet.antt =====
-- frontend/lib/auth/wallet-identity.ts: the control state of a wallet session, its reducer, and what
-- the session's parts hold.
pub mod Session
pub mod Snapshot
pub mod Derive
use leopold.Prelude.{
  ℕ, Bool, true, false, not, ◌||◌, Option, none, some, List, [], ◌∷◌, if◌then◌else◌,
}
use leopold.Prelude.Eq.{list_beq, nat_eq}
use leopold.Prelude.Text.{Text}
use leopold.Frontend.Recovery.{
  WalletSessionState, bootstrapping, disconnected, connecting, wrong_network, connected,
  session_error, WalletSessionReason, sdk_initializing, no_active_session,
  account_selection_required, connect_cancelled, reason_wrong_network, reason_connected,
  WalletRpcHealthState,
}

pub data WalletSessionIntent : Type 0 where
  inactive : WalletSessionIntent
  intent_connecting : WalletSessionIntent
  active : WalletSessionIntent

pub data WalletConnectPhase : Type 0 where
  starting : WalletConnectPhase
  syncing_provider : WalletConnectPhase
  waiting_for_account_selection : WalletConnectPhase
  verifying_account : WalletConnectPhase
  verifying_network : WalletConnectPhase
  verifying_runtime : WalletConnectPhase

pub data ConnectOrigin : Type 0 where
  user : ConnectOrigin
  restore : ConnectOrigin

pub record WalletRpcHealth : Type 0 where
  pub state : WalletRpcHealthState
  pub checked_at : Option ℕ
  pub dynamic_wallet_chain_id : Option ℕ
  pub wallet_client_chain_id : Option ℕ
  pub app_chain_id : Option ℕ
  pub technical_detail : Option Text

pub record DynamicWalletDescriptor : Type 0 where
  pub id : Text
  pub address : Text

pub record ProviderObservation : Type 0 where
  pub revision : ℕ
  pub available : Bool
  pub is_connected : Bool
  pub account_known : Bool
  pub active_account : Option Text
  pub chain_id : Option ℕ

pub record WalletRuntimeObservation : Type 0 where
  pub dynamic_primary_wallet : Option Text
  pub dynamic_linked_wallets : List DynamicWalletDescriptor
  pub dynamic_wallet_object : Option DynamicWalletDescriptor
  pub wagmi_account : Option Text
  pub wallet_client_account : Option Text
  pub wallet_client_id : Option Text
  pub wallet_client_chain_id : Option ℕ

pub record WalletSessionControl : Type 0 where
  pub intent : WalletSessionIntent
  pub status : WalletSessionState
  pub reason : WalletSessionReason
  pub epoch : ℕ
  pub provider_revision : Option ℕ
  pub connect_origin : Option ConnectOrigin
  pub connect_attempt_id : Option Text
  pub connect_started_at : Option ℕ
  pub connect_phase : Option WalletConnectPhase

-- The fields of an event are in the order of the source; those it may lack are options.
pub data WalletSessionEvent : Type 0 where
  sdk_ready : Option WalletSessionReason → WalletSessionEvent
  restore_started : Text → ℕ → ℕ → WalletSessionEvent
  connect_started : Text → ℕ → ℕ → WalletSessionEvent
  phase_reached : Text → WalletConnectPhase → Option WalletSessionReason → WalletSessionEvent
  provider_connected : Option Text → ℕ → Option ℕ → WalletSessionEvent
  found_wrong_network : Option Text → ℕ → Option ℕ → WalletSessionEvent
  invalidate : WalletSessionReason → ℕ → WalletSessionEvent
  connect_failed : WalletSessionReason → Text → ℕ → WalletSessionEvent

-- `??`
unfoldable pub or_else : {A : Type 0} → Option A → A → A
or_else none b = b
or_else (some a) b = a

abbrev pub initial_wallet_session_control : WalletSessionControl
initial_wallet_session_control = record {
  intent = inactive;
  status = bootstrapping;
  reason = sdk_initializing;
  epoch = 0;
  provider_revision = none;
  connect_origin = none;
  connect_attempt_id = none;
  connect_started_at = none;
  connect_phase = none;
}

-- `state.connectAttemptId === attemptId`
unfoldable pub is_attempt : Option Text → Text → Bool
is_attempt none id = false
is_attempt (some current) id = list_beq current id

unfoldable pub is_current_attempt : WalletSessionControl → Option Text → Bool
is_current_attempt state none = true
is_current_attempt state (some id) = is_attempt state.connect_attempt_id id

unfoldable is_bootstrapping : WalletSessionState → Bool
is_bootstrapping bootstrapping = true
is_bootstrapping status = false

unfoldable pub is_connecting : WalletSessionIntent → Bool
is_connecting intent_connecting = true
is_connecting intent = false

start_connecting : ConnectOrigin → Text → ℕ → ℕ → WalletSessionControl
start_connecting origin id started_at epoch = record {
  intent = intent_connecting;
  status = connecting;
  reason = no_active_session;
  epoch = epoch;
  provider_revision = none;
  connect_origin = some origin;
  connect_attempt_id = some id;
  connect_started_at = some started_at;
  connect_phase = some starting;
}

activate :
    WalletSessionControl
    → WalletSessionState
    → WalletSessionReason
    → ℕ
    → Option ℕ
    → WalletSessionControl
unfolding or_else
activate state status reason revision epoch = record {
  intent = active;
  status = status;
  reason = reason;
  epoch = or_else epoch state.epoch;
  provider_revision = some revision;
  connect_origin = none;
  connect_attempt_id = none;
  connect_started_at = none;
  connect_phase = none;
}

deactivate : WalletSessionState → WalletSessionReason → ℕ → WalletSessionControl
deactivate status reason epoch = record {
  intent = inactive;
  status = status;
  reason = reason;
  epoch = epoch;
  provider_revision = none;
  connect_origin = none;
  connect_attempt_id = none;
  connect_started_at = none;
  connect_phase = none;
}

failed_status : WalletSessionReason → WalletSessionState
failed_status account_selection_required = disconnected
failed_status connect_cancelled = disconnected
failed_status reason = session_error

unfoldable pub wallet_session_reducer :
    WalletSessionControl → WalletSessionEvent → WalletSessionControl
unfolding or_else is_bootstrapping is_connecting start_connecting activate deactivate failed_status
    is_attempt is_current_attempt
wallet_session_reducer state (sdk_ready reason) =
    if is_bootstrapping state.status
    then record state { status = disconnected; reason = or_else reason no_active_session }
    else state
wallet_session_reducer state (restore_started id started_at epoch) =
    start_connecting restore id started_at epoch
wallet_session_reducer state (connect_started id started_at epoch) =
    start_connecting user id started_at epoch
wallet_session_reducer state (phase_reached id phase reason) =
    if not (is_attempt state.connect_attempt_id id) || not (is_connecting state.intent)
    then state
    else record state {
      status = connecting;
      reason = or_else reason state.reason;
      connect_phase = some phase;
    }
wallet_session_reducer state (provider_connected id revision epoch) =
    if not (is_current_attempt state id)
    then state
    else activate state connected reason_connected revision epoch
wallet_session_reducer state (found_wrong_network id revision epoch) =
    if not (is_current_attempt state id)
    then state
    else activate state wrong_network reason_wrong_network revision epoch
wallet_session_reducer state (invalidate reason epoch) = deactivate disconnected reason epoch
wallet_session_reducer state (connect_failed reason id epoch) =
    if not (is_attempt state.connect_attempt_id id)
    then state
    else deactivate (failed_status reason) reason epoch

-- The control state after a sequence of events.
unfoldable pub dispatch : WalletSessionControl → List WalletSessionEvent → WalletSessionControl
dispatch state [] = state
dispatch state (event ∷ events) = dispatch (wallet_session_reducer state event) events
