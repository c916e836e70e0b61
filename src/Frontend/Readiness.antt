-- ===== src/Frontend/Readiness.antt =====
-- frontend/lib/auth/readiness.ts: how far a session is, and the last test before a financial wallet
-- is linked. `isAddress` and `getAddress` of viem are parameters.
use Prim.Native.String.{String}
use leopold.Prelude.{
  ◌≡◌, Bool, true, false, not, ◌&&◌, ◌||◌, Option, none, some, List, [], ◌∷◌, arith, if◌then◌else◌,
}
use leopold.Prelude.Eq.{list_beq, nat_eq}
use leopold.Prelude.Search.{find}
use leopold.Prelude.Text.{Text, to_lower_case}

pub data AuthReadinessState : Type 0 where
  anonymous : AuthReadinessState
  email_authenticated : AuthReadinessState
  wallet_authenticated_incomplete : AuthReadinessState
  profile_incomplete : AuthReadinessState
  wallet_required : AuthReadinessState
  account_ready : AuthReadinessState
  session_expired : AuthReadinessState
  account_conflict : AuthReadinessState

-- An optional flag that is absent is false.
pub record AuthIdentitySnapshot : Type 0 where
  pub is_authenticated : Bool
  pub email_verified : Bool
  pub username : Option Text
  pub provider_user_id : Option Text
  pub financial_wallet : Option Text
  pub connected_wallet : Option Text
  pub wallet_authenticated : Bool
  pub is_session_expired : Bool
  pub has_account_conflict : Bool

-- Whether a string is one that counts as true.
abbrev pub is_truthy : Option Text → Bool
is_truthy none = false
is_truthy (some []) = false
is_truthy (some (c ∷ cs)) = true

unfoldable pub get_auth_readiness : AuthIdentitySnapshot → AuthReadinessState
get_auth_readiness i =
    if i.is_session_expired
    then session_expired
    else if i.has_account_conflict
    then account_conflict
    else if not i.is_authenticated
    then anonymous
    else if not i.email_verified && i.wallet_authenticated
    then wallet_authenticated_incomplete
    else if not i.email_verified
    then email_authenticated
    else if not (is_truthy i.username)
    then profile_incomplete
    else if not (is_truthy i.financial_wallet)
    then wallet_required
    else account_ready

pub data WalletLinkGuardResult : Type 0 where
  allowed : Text → WalletLinkGuardResult
  denied : String → String → WalletLinkGuardResult

module _ (is_address : Text → Bool) (get_address : Text → Text) where
  unfoldable pub normalize_wallet_address : Option Text → Option Text
  normalize_wallet_address none = none
  normalize_wallet_address (some []) = none
  normalize_wallet_address (some (c ∷ cs)) =
      if not (is_address (c ∷ cs)) then none else some (get_address (to_lower_case (c ∷ cs)))

  same_normalized : Option Text → Option Text → Bool
  same_normalized none r = false
  same_normalized (some l) none = false
  same_normalized (some l) (some r) =
      is_truthy (some l) && is_truthy (some r) && list_beq (to_lower_case l) (to_lower_case r)

  unfoldable pub wallets_match : Option Text → Option Text → Bool
  unfolding same_normalized
  wallets_match left right =
      same_normalized (normalize_wallet_address left) (normalize_wallet_address right)

  unfoldable pub find_wallet_by_address : List Text → Option Text → Option Text
  find_wallet_by_address wallets address =
      if not (is_truthy (normalize_wallet_address address))
      then none
      else find (λ w. wallets_match (some w) address) wallets

  check_candidate : AuthIdentitySnapshot → Option Text → WalletLinkGuardResult
  check_candidate i none =
      denied "WALLET_SIGNATURE_REQUIRED" "Connect and sign with the wallet you intend to verify."
  check_candidate i (some candidate) =
      if not (is_truthy (some candidate))
        || not (is_truthy i.connected_wallet)
        || not (wallets_match (some candidate) i.connected_wallet)
      then denied "WALLET_SIGNATURE_REQUIRED"
          "Connect and sign with the wallet you intend to verify."
      else if not i.wallet_authenticated
      then denied "WALLET_SIGNATURE_REQUIRED"
          "Sign with your external wallet to verify ownership before continuing."
      else if is_truthy i.financial_wallet
          && not (wallets_match i.financial_wallet (some candidate))
      then denied "FINANCIAL_WALLET_CHANGE_REQUIRES_REAUTH"
          "The verified financial wallet cannot be replaced automatically."
      else allowed candidate

  unfoldable pub check_financial_wallet_link :
      AuthIdentitySnapshot → Option Text → WalletLinkGuardResult
  unfolding check_candidate
  check_financial_wallet_link i candidate =
      if i.is_session_expired
      then denied "AUTH_SESSION_EXPIRED" "Your Leopold session expired. Sign in again."
      else if i.has_account_conflict
      then denied "AUTH_ACCOUNT_CONFLICT"
          "Resolve the account credential conflict before linking a wallet."
      else if not i.is_authenticated
          || not (is_truthy i.provider_user_id)
          || not i.email_verified
          || not (is_truthy i.username)
      then denied "FINANCIAL_IDENTITY_REQUIRED"
          "Verify your email and choose a username before linking a financial wallet."
      else check_candidate i (normalize_wallet_address candidate)

  -- What holds of a session whose wallet may be linked.
  pub record MayLink (i : AuthIdentitySnapshot) (candidate : Option Text) (wallet : Text)
      : Type 0 where
    pub normalized : normalize_wallet_address candidate ≡ some wallet
    pub is_connected : wallets_match (some wallet) i.connected_wallet ≡ true
    pub is_signed : i.wallet_authenticated ≡ true
    pub keeps_designation :
        is_truthy i.financial_wallet ≡ true → wallets_match i.financial_wallet (some wallet) ≡ true
    pub ready :
        get_auth_readiness i
        ≡ (if is_truthy i.financial_wallet then account_ready else wallet_required)

  check_candidate_link :
      (i : AuthIdentitySnapshot) (candidate : Option Text) (n : Option Text) (wallet : Text)
      → check_candidate i n ≡ allowed wallet
      → (n ≡ some wallet)
        × (wallets_match (some wallet) i.connected_wallet ≡ true)
        × (i.wallet_authenticated ≡ true)
        × (is_truthy i.financial_wallet ≡ true
            → wallets_match i.financial_wallet (some wallet) ≡ true)
  unfolding check_candidate
  check_candidate_link i candidate none wallet e = absurd (ground arith)
  check_candidate_link i candidate (some c) wallet e = ground arith

  -- A wallet that may be linked is the normalized candidate, is the connected wallet and has signed;
  -- a wallet that was designated before is the same one; and but for the wallet itself nothing is
  -- missing of the account's readiness.
  pub check_financial_wallet_link-MayLink :
      (i : AuthIdentitySnapshot) (candidate : Option Text) (wallet : Text)
      → check_financial_wallet_link i candidate ≡ allowed wallet
      → MayLink i candidate wallet
  unfolding check_financial_wallet_link get_auth_readiness
  check_financial_wallet_link-MayLink i candidate wallet e =
      let (a, b, c, d) =
        check_candidate_link i candidate (normalize_wallet_address candidate) wallet
          (ground arith) in
      record {
        normalized = a;
        is_connected = b;
        is_signed = c;
        keeps_designation = d;
        ready = ground arith;
      }
