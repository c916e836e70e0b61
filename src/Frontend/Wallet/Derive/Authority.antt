-- ===== src/Frontend/Wallet/Derive/Authority.antt =====
-- What a wallet session (frontend/lib/auth/wallet-identity.ts) has to be before it may act.
use leopold.Prelude.{
  ℕ, ◌≡◌, refl, sym, subst, ◌∙◌, Bool, true, false, ◌&&◌, Option, none, some, List, arith,
}
use leopold.Prelude.Eq.{nat_eq}
use leopold.Prelude.Text.{Text}
use leopold.Frontend.Readiness.{is_truthy, normalize_wallet_address, wallets_match}
use leopold.Frontend.Recovery.{
  WalletSessionState, session_error, connected, connecting, WalletRpcHealthState, healthy,
}
use leopold.Frontend.Wallet.{
  WalletSessionIntent, inactive, intent_connecting, active, WalletRuntimeObservation,
  WalletSessionEvent, initial_wallet_session_control, dispatch, DynamicWalletDescriptor,
}
use leopold.Frontend.Wallet.Session.{Matches, IsCoherent, dispatch-IsCoherent}
use leopold.Frontend.Wallet.Snapshot.{
  leopold_chain_id, WalletSessionInputs, WalletSessionSnapshot, same_chain, is_healthy,
  is_connected_status, session_address, Misalignment, is_aligned, inactive_status,
}
use leopold.Frontend.Wallet.Derive.{
  align_wallets, runtime_alignment, active_status, status_by_intent, session_status,
  normalized_runtime, is_runtime_aligned, session_snapshot, derive_wallet_session,
}

same_chain_lem : (a b : Option ℕ) → same_chain a b ≡ true → a ≡ b
unfolding same_chain
same_chain_lem none none h = refl
same_chain_lem none (some b) h = absurd (ground arith)
same_chain_lem (some a) none h = absurd (ground arith)
same_chain_lem (some a) (some b) h = ground arith

healthy_lem : (h : WalletRpcHealthState) → is_healthy h ≡ true → h ≡ healthy
unfolding is_healthy
healthy_lem healthy q = refl
healthy_lem h q = absurd (ground arith)

not_connected : (status : WalletSessionState) → is_connected_status (inactive_status status) ≡ false
unfolding is_connected_status inactive_status
not_connected session_error = refl
not_connected status = refl

not_connecting :
    (status : WalletSessionState)
    → Matches intent_connecting status
    → is_connected_status status ≡ false
unfolding is_connected_status
not_connecting connecting m = refl
not_connecting status m = absurd m

and_left : (a b : Bool) → a && b ≡ true → a ≡ true
and_left a b h = ground arith

and_right : (a b : Bool) → a && b ≡ true → b ≡ true
and_right a b h = ground arith

module _ (is_address : Text → Bool) (get_address : Text → Text) where
  -- The session of a user who may act: an active session of the provider as it is now, in which
  -- the provider's account, the primary wallet and the accounts of wagmi and of the wallet client
  -- match the verified wallet, on Sepolia. Of the wallet object no more is asked than that there is
  -- one: its own address is not compared.
  pub record Authorized (i : WalletSessionInputs) (s : WalletSessionSnapshot) : Type 0 where
    pub initialized : i.initialized ≡ true
    pub is_active : i.control.intent ≡ active
    pub is_current : i.control.provider_revision ≡ some i.provider.revision
    pub account_known : i.provider.account_known ≡ true
    pub provider_connected : i.provider.is_connected ≡ true
    pub has_wallet : is_truthy s.verified_address ≡ true
    pub provider_matches :
        wallets_match is_address get_address s.provider_active_account s.verified_address ≡ true
    pub primary_matches :
        wallets_match is_address get_address s.dynamic_primary_address s.verified_address ≡ true
    pub wagmi_matches :
        wallets_match is_address get_address s.wagmi_account s.verified_address ≡ true
    pub client_matches :
        wallets_match is_address get_address s.wallet_client_account s.verified_address ≡ true
    pub has_wallet_object : (d : DynamicWalletDescriptor) × (s.dynamic_wallet_object ≡ some d)
    pub on_sepolia : s.chain_id ≡ some leopold_chain_id
    pub client_on_sepolia : s.wallet_client_chain_id ≡ some leopold_chain_id
    pub is_healthy : s.network_health.state ≡ healthy
    pub acts_as : s.address ≡ s.verified_address

  aligned_parts :
      (v a : Option Text) (chain : Option ℕ) (r : WalletRuntimeObservation)
      (d : Option DynamicWalletDescriptor)
      → align_wallets is_address get_address v chain r d ≡ none
      → (wallets_match is_address get_address r.dynamic_primary_wallet v ≡ true)
        × (wallets_match is_address get_address r.wagmi_account v ≡ true)
        × (wallets_match is_address get_address r.wallet_client_account v ≡ true)
        × (same_chain r.wallet_client_chain_id chain ≡ true)
        × ((w : DynamicWalletDescriptor) × (d ≡ some w))
  unfolding align_wallets
  aligned_parts v a chain r none h = absurd (ground arith)
  aligned_parts v a chain r (some wallet) h =
      (ground arith, ground arith, ground arith, ground arith, (wallet, refl))

  aligned_none : (m : Misalignment) → is_aligned m ≡ true → m ≡ none
  unfolding is_aligned
  aligned_none none h = refl
  aligned_none (some r) h = absurd (ground arith)

  runtime_parts :
      (i : WalletSessionInputs) (v a : Option Text)
      → is_runtime_aligned is_address get_address i v a ≡ true
      → let r = normalized_runtime is_address get_address i.runtime in
        (wallets_match is_address get_address r.dynamic_primary_wallet v ≡ true)
        × (wallets_match is_address get_address r.wagmi_account v ≡ true)
        × (wallets_match is_address get_address r.wallet_client_account v ≡ true)
        × (same_chain r.wallet_client_chain_id i.provider.chain_id ≡ true)
        × ((w : DynamicWalletDescriptor) × (r.dynamic_wallet_object ≡ some w))
  unfolding is_runtime_aligned runtime_alignment
  runtime_parts i v a h =
      let r = normalized_runtime is_address get_address i.runtime in
      let q =
        aligned_none (runtime_alignment is_address get_address v a i.provider.chain_id r)
          (ground arith) in
      aligned_parts v a i.provider.chain_id r r.dynamic_wallet_object (ground arith)

  active_connected :
      (i : WalletSessionInputs) (v a : Option Text)
      → is_connected_status (active_status is_address get_address i v a).0 ≡ true
      → (same_chain i.control.provider_revision (some i.provider.revision) ≡ true)
        × (i.provider.account_known ≡ true)
        × (i.provider.is_connected ≡ true)
        × (wallets_match is_address get_address a v ≡ true)
        × (same_chain i.provider.chain_id (some leopold_chain_id) ≡ true)
  unfolding active_status is_connected_status
  active_connected i v a h = ground arith

  coherent_connected :
      (i : WalletSessionInputs) (v a : Option Text) (intent : WalletSessionIntent)
      → Matches intent i.control.status
      → is_connected_status (status_by_intent is_address get_address i v a intent).0 ≡ true
      → (intent ≡ active)
        × (is_connected_status (active_status is_address get_address i v a).0 ≡ true)
  unfolding status_by_intent is_connected_status
  coherent_connected i v a inactive m h = absurd (ground (arith, not_connected i.control.status))
  coherent_connected i v a intent_connecting m h =
      absurd (ground (arith, not_connecting i.control.status m))
  coherent_connected i v a active m h = (refl, h)

  session_parts :
      (i : WalletSessionInputs) (v a : Option Text)
      → is_connected_status (session_status is_address get_address i v a).0 ≡ true
      → (i.initialized ≡ true)
        × (is_truthy v ≡ true)
        × (is_connected_status (status_by_intent is_address get_address i v a i.control.intent).0
            ≡ true)
  unfolding session_status is_connected_status
  session_parts i v a h = ground arith

  address_of_connected :
      (status : WalletSessionState) (v : Option Text)
      → is_connected_status status ≡ true
      → session_address status v ≡ v
  unfolding is_connected_status session_address
  address_of_connected connected v h = refl
  address_of_connected status v h = absurd (ground arith)

  -- When the application lets a session perform financial actions, after whatever events its
  -- control state went through, the session is active for the provider as it is now, the provider is
  -- connected with a known account, that account, the primary wallet and the accounts of wagmi and of
  -- the wallet client match the verified wallet, a wallet object is present, the provider and the
  -- wallet client are on Sepolia, the network is healthy and the session acts as that wallet.
  pub derive_wallet_session-Authorized :
      (events : List WalletSessionEvent) (i : WalletSessionInputs)
      → i.control ≡ dispatch initial_wallet_session_control events
      → (derive_wallet_session is_address get_address i).can_use_financial_actions ≡ true
      → Authorized i (derive_wallet_session is_address get_address i)
  unfolding derive_wallet_session session_snapshot
  derive_wallet_session-Authorized events i reached h =
      let v = normalize_wallet_address is_address get_address i.verified_financial_wallet in
      let a = normalize_wallet_address is_address get_address i.provider.active_account in
      let coherent : IsCoherent i.control =
        subst IsCoherent (sym reached) (dispatch-IsCoherent events) in
      let is_on : is_connected_status (session_status is_address get_address i v a).0 ≡ true =
        and_left _ _ (and_left _ _ h) in
      let (ready, linked, by_intent) = session_parts i v a is_on in
      let (acts, now) = coherent_connected i v a i.control.intent coherent.matches by_intent in
      let (current, known, there, same, sepolia) = active_connected i v a now in
      let (primary, wagmi, client, client_chain, object) =
        runtime_parts i v a (and_right _ _ (and_left _ _ h)) in
      let here = same_chain_lem i.provider.chain_id (some leopold_chain_id) sepolia in
      record {
        initialized = ready;
        is_active = acts;
        is_current = same_chain_lem _ _ current;
        account_known = known;
        provider_connected = there;
        has_wallet = linked;
        provider_matches = same;
        primary_matches = primary;
        wagmi_matches = wagmi;
        client_matches = client;
        has_wallet_object = object;
        on_sepolia = here;
        client_on_sepolia = same_chain_lem _ _ client_chain ∙ here;
        is_healthy = healthy_lem _ (and_right _ _ h);
        acts_as = address_of_connected _ v is_on;
      }
