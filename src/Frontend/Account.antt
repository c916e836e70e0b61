-- ===== src/Frontend/Account.antt =====
-- frontend/lib/auth/username.ts and frontend/lib/auth/account-state.ts: the account that a profile of
-- the identity provider gives. `isAddress` and `getAddress` of viem and the NFKC normalization of a
-- string are parameters.
pub mod Integrity
pub mod Designation
use leopold.Prelude.{
  ℕ, zero, suc, Bool, true, false, not, ◌&&◌, ◌||◌, ◌==◌, Option, none, some, List, [], ◌∷◌, leb,
  if◌then◌else◌,
}
use leopold.Prelude.Eq.{list_beq, nat_eq, list_eq, get}
use leopold.Prelude.Lists.{length}
use leopold.Prelude.Results.{Result, ok, err}
use leopold.Prelude.Text.{Text, codes, to_lower_case, trim}
use mathlib.Core.List.{reverse}
use leopold.Frontend.Readiness.{is_truthy, normalize_wallet_address}
use leopold.Frontend.Recovery.{
  AccountStatus, auth_loading, signed_out, signed_in_profile_incomplete, signed_in_ready,
  FinancialWalletMetadataStatus, metadata_loading, metadata_unavailable, metadata_none,
  metadata_present, metadata_error,
}

abbrev pub financial_wallet_metadata_key : Text
financial_wallet_metadata_key = codes "leopoldFinancialWallet"

abbrev pub leopold_username_metadata_key : Text
leopold_username_metadata_key = codes "Leopold Username"

-- A value of the metadata: `null` or `undefined`, a string, or something else with its string.
pub data MetadataValue : Type 0 where
  nullish : MetadataValue
  text : Text → MetadataValue
  other : Text → MetadataValue

abbrev pub Metadata : Type 0
Metadata = List (Text × MetadataValue)

-- `missingFields` is not read. The credentials are given by their formats.
pub record DynamicAccountProfile : Type 0 where
  pub email : Option Text
  pub metadata : Option Metadata
  pub user_id : Option Text
  pub verified_credentials : List (Option Text)

pub data AccountAuthenticationStatus : Type 0 where
  authentication_loading : AccountAuthenticationStatus
  not_signed_in : AccountAuthenticationStatus
  signed_in : AccountAuthenticationStatus

pub data AccountProfileStatus : Type 0 where
  profile_loading : AccountProfileStatus
  incomplete : AccountProfileStatus
  complete : AccountProfileStatus
  profile_error : AccountProfileStatus

-- Whether the metadata is invalid is the error.
pub record FinancialWalletMetadata : Type 0 where
  pub status : FinancialWalletMetadataStatus
  pub address : Option Text
  pub is_invalid : Bool

pub record AccountState : Type 0 where
  pub status : AccountStatus
  pub authentication : AccountAuthenticationStatus
  pub authenticated : Bool
  pub profile_status : AccountProfileStatus
  pub identity : Option DynamicAccountProfile
  pub email : Option Text
  pub email_verified : Bool
  pub username : Option Text
  pub provider_user_id : Option Text
  pub financial_wallet : FinancialWalletMetadata

pub record AccountStateInputs : Type 0 where
  pub client_ready : Bool
  pub completed_user : Option DynamicAccountProfile
  pub incomplete_user : Option DynamicAccountProfile

is_username_char : ℕ → Bool
is_username_char c = (leb b'a' c && leb c b'z') || (leb b'0' c && leb c b'9') || c == b'_'

are_username_chars : Text → Bool
unfolding is_username_char
are_username_chars [] = true
are_username_chars (c ∷ cs) = is_username_char c && are_username_chars cs

matches_username : Text → Bool
unfolding are_username_chars
matches_username t = are_username_chars t && leb 3 (length t) && leb (length t) 20

-- `canonicalizeUsername`, without a result where it throws.
unfoldable pub canonicalize_username : (Text → Text) → Text → Option Text
unfolding matches_username
canonicalize_username nfkc value =
    let normalized = to_lower_case (nfkc (trim value)) in
    if not (matches_username normalized) then none else some normalized

pub is_valid_username : (Text → Text) → Text → Bool
is_valid_username nfkc value = elim (canonicalize_username nfkc value) [
  | none ↦ false
  | some u ↦ true
]

metadata_or_empty : Option Metadata → Metadata
metadata_or_empty none = []
metadata_or_empty (some metadata) = metadata

unfoldable pub metadata_of : DynamicAccountProfile → Metadata
unfolding metadata_or_empty
metadata_of identity = metadata_or_empty identity.metadata

-- The string of a value that is there.
unfoldable pub string_of : Option MetadataValue → Option Text
string_of none = none
string_of (some nullish) = none
string_of (some (text t)) = some t
string_of (some (other t)) = some t

username_text : (Text → Text) → Option MetadataValue → Option Text
username_text nfkc (some (text t)) = canonicalize_username nfkc t
username_text nfkc value = none

pub username_of : (Text → Text) → DynamicAccountProfile → Option Text
unfolding username_text
username_of nfkc identity =
    username_text nfkc (get (metadata_of identity) leopold_username_metadata_key)

has_email_format : List (Option Text) → Bool
has_email_format [] = false
has_email_format (none ∷ formats) = has_email_format formats
has_email_format (some f ∷ formats) = list_beq f (codes "email") || has_email_format formats

unfoldable pub no_financial_wallet : FinancialWalletMetadataStatus → FinancialWalletMetadata
no_financial_wallet status = record { status = status; address = none; is_invalid = false }

module _ (is_address : Text → Bool) (get_address : Text → Text) (nfkc : Text → Text) where
  unfoldable pub normalized_metadata : Option Text → FinancialWalletMetadata
  normalized_metadata none = record { status = metadata_error; address = none; is_invalid = true }
  normalized_metadata (some []) = record {
    status = metadata_error;
    address = none;
    is_invalid = true;
  }
  normalized_metadata (some (c ∷ cs)) = record {
    status = metadata_present;
    address = some (c ∷ cs);
    is_invalid = false;
  }

  unfoldable pub wallet_metadata : Option Text → FinancialWalletMetadata
  wallet_metadata none = no_financial_wallet metadata_none
  wallet_metadata (some t) =
      normalized_metadata (normalize_wallet_address is_address get_address (some t))

  unfoldable pub wallet_metadata_of : DynamicAccountProfile → FinancialWalletMetadata
  wallet_metadata_of identity =
      wallet_metadata (string_of (get (metadata_of identity) financial_wallet_metadata_key))

  without_identity :
      AccountStatus
      → AccountAuthenticationStatus
      → AccountProfileStatus
      → FinancialWalletMetadataStatus
      → AccountState
  without_identity status authentication profile wallet = record {
    status = status;
    authentication = authentication;
    authenticated = false;
    profile_status = profile;
    identity = none;
    email = none;
    email_verified = false;
    username = none;
    provider_user_id = none;
    financial_wallet = no_financial_wallet wallet;
  }

  is_present : {A : Type 0} → Option A → Bool
  is_present none = false
  is_present (some a) = true

  with_identity : AccountStateInputs → DynamicAccountProfile → AccountState
  unfolding is_present has_email_format
  with_identity i identity =
      let is_complete =
        has_email_format identity.verified_credentials
        && (is_truthy (username_of nfkc identity) && is_present i.completed_user) in
      record {
        status = if is_complete then signed_in_ready else signed_in_profile_incomplete;
        authentication = signed_in;
        authenticated = true;
        profile_status = if is_complete then complete else incomplete;
        identity = some identity;
        email = identity.email;
        email_verified = has_email_format identity.verified_credentials;
        username = username_of nfkc identity;
        provider_user_id = identity.user_id;
        financial_wallet = wallet_metadata_of identity;
      }

  -- `completedUser ?? incompleteUser`
  state_of :
      AccountStateInputs
      → Option DynamicAccountProfile
      → Option DynamicAccountProfile
      → AccountState
  unfolding with_identity without_identity
  state_of i (some identity) second = with_identity i identity
  state_of i none (some identity) = with_identity i identity
  state_of i none none = without_identity signed_out not_signed_in incomplete metadata_unavailable

  unfoldable pub derive_account_state : AccountStateInputs → AccountState
  unfolding state_of without_identity
  derive_account_state i =
      if not i.client_ready
      then without_identity auth_loading authentication_loading profile_loading metadata_loading
      else state_of i i.completed_user i.incomplete_user
