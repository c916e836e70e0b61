-- ===== src/Tests/Wallet.antt =====
-- frontend/lib/auth/wallet-identity.ts on one session.
use leopold.Prelude.{◌≡◌, refl, Bool, true, none, some, List, [], ◌∷◌, leb}
use leopold.Prelude.Eq.{list_beq, nat_eq}
use leopold.Prelude.Lists.{length}
use leopold.Prelude.Text.{Text, codes, to_lower_case, lower_char}
use leopold.Frontend.Readiness.{normalize_wallet_address, wallets_match}
use leopold.Frontend.Recovery.{user_disconnected, healthy, connect_timeout}
use leopold.Frontend.Wallet.{
  inactive, WalletSessionEvent, sdk_ready, connect_started, phase_reached, verifying_account,
  provider_connected, invalidate, connect_failed, or_else, initial_wallet_session_control,
  is_attempt, is_current_attempt, is_connecting, wallet_session_reducer, dispatch,
  DynamicWalletDescriptor,
}
use leopold.Frontend.Wallet.Session.{IsCoherent, dispatch-IsCoherent, invalidated_stays_inactive}
use leopold.Frontend.Wallet.Snapshot.{
  leopold_chain_id, WalletSessionInputs, aligned_status, is_aligned, is_healthy,
  is_connected_status, same_chain,
}
use leopold.Frontend.Wallet.Derive.{
  derive_wallet_session, session_snapshot, session_status, status_by_intent, active_status,
  runtime_alignment, align_wallets, is_runtime_aligned, normalized_runtime, normalize_descriptor,
}
use leopold.Frontend.Wallet.Derive.Authority.{Authorized, derive_wallet_session-Authorized}

abbrev long_enough : Text → Bool
long_enough t = leb 3 (length t)

abbrev as_written : Text → Text
as_written t = t

abbrev connects : List WalletSessionEvent
connects =
    sdk_ready none
    ∷ connect_started (codes "a") 5 1
    ∷ phase_reached (codes "a") verifying_account none
    ∷ provider_connected (some (codes "a")) 3 none
    ∷ []

abbrev comes_late : List WalletSessionEvent
comes_late =
    provider_connected (some (codes "a")) 4 none ∷ connect_failed connect_timeout (codes "a") 2 ∷ []

dispatch-IsCoherent_example : IsCoherent (dispatch initial_wallet_session_control connects)
dispatch-IsCoherent_example = dispatch-IsCoherent connects

invalidated_stays_inactive_example :
    (dispatch
      (wallet_session_reducer
        (dispatch initial_wallet_session_control connects)
        (invalidate user_disconnected 2))
      comes_late).intent
    ≡ inactive
invalidated_stays_inactive_example =
    invalidated_stays_inactive connects comes_late user_disconnected 2 (tt, (tt, tt))

abbrev wallet : DynamicWalletDescriptor
wallet = record { id = codes "w"; address = codes "0xAb" }

abbrev inputs : WalletSessionInputs
inputs = record {
  initialized = true;
  verified_financial_wallet = some (codes "0xAB");
  control = dispatch initial_wallet_session_control connects;
  provider = record {
    revision = 3;
    available = true;
    is_connected = true;
    account_known = true;
    active_account = some (codes "0xab");
    chain_id = some leopold_chain_id;
  };
  runtime = record {
    dynamic_primary_wallet = some (codes "0xab");
    dynamic_linked_wallets = wallet ∷ [];
    dynamic_wallet_object = some wallet;
    wagmi_account = some (codes "0xaB");
    wallet_client_account = some (codes "0xAb");
    wallet_client_id = none;
    wallet_client_chain_id = some leopold_chain_id;
  };
  network_health = record {
    state = healthy;
    checked_at = some 4;
    dynamic_wallet_chain_id = some leopold_chain_id;
    wallet_client_chain_id = some leopold_chain_id;
    app_chain_id = some leopold_chain_id;
    technical_detail = none;
  };
}

may_act : (derive_wallet_session long_enough as_written inputs).can_use_financial_actions ≡ true
unfolding derive_wallet_session session_snapshot session_status status_by_intent active_status
    aligned_status runtime_alignment align_wallets is_runtime_aligned is_aligned normalized_runtime
    normalize_descriptor is_healthy is_connected_status same_chain dispatch wallet_session_reducer
    is_attempt is_current_attempt is_connecting or_else normalize_wallet_address wallets_match
    to_lower_case lower_char list_beq
may_act = refl

derive_wallet_session-Authorized_example :
    Authorized long_enough as_written inputs (derive_wallet_session long_enough as_written inputs)
derive_wallet_session-Authorized_example =
    derive_wallet_session-Authorized long_enough as_written connects inputs refl may_act
