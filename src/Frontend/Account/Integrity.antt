-- ===== src/Frontend/Account/Integrity.antt =====
-- frontend/lib/auth/account-integrity.ts: the policy of the account fields, and the updates of the
-- metadata.
use leopold.Prelude.{
  Bool, true, false, not, ◌||◌, Option, none, some, List, [], ◌∷◌, ◌++◌, if◌then◌else◌,
}
use leopold.Prelude.Eq.{nat_eq, list_eq, option_beq, get, set}
use leopold.Prelude.Search.{find}
use leopold.Prelude.Results.{Result, ok, err, ◌>>◌, throw_if}
use leopold.Prelude.Text.{Text, codes}
use leopold.Frontend.Readiness.{is_truthy, normalize_wallet_address, wallets_match}
use leopold.Frontend.Account.{
  DynamicAccountProfile, text, Metadata, metadata_of, string_of, canonicalize_username,
  financial_wallet_metadata_key, leopold_username_metadata_key,
}

abbrev leopold_username_pattern_source : Text
leopold_username_pattern_source = codes "^[a-z0-9_]{3,20}$"

-- An optional flag that is absent is false; `unique` of the rules is `rule_unique`.
pub record DynamicProjectField : Type 0 where
  pub enabled : Bool
  pub name : Option Text
  pub required : Bool
  pub unique : Bool
  pub regex : Option Text
  pub rule_unique : Bool

pub record DynamicProjectSettings : Type 0 where
  pub custom_fields : List DynamicProjectField
  pub kyc : List DynamicProjectField

pub data IntegrityFieldStatus : Type 0 where
  field_loading : IntegrityFieldStatus
  field_ready : IntegrityFieldStatus
  field_error : IntegrityFieldStatus

pub data IntegrityError : Type 0 where
  username_field_missing : IntegrityError
  username_field_disabled : IntegrityError
  username_field_not_required : IntegrityError
  username_field_not_unique : IntegrityError
  username_field_pattern_mismatch : IntegrityError

pub record AccountIntegrityPolicy : Type 0 where
  pub status : IntegrityFieldStatus
  pub username : IntegrityFieldStatus
  pub financial_wallet : IntegrityFieldStatus
  pub errors : List IntegrityError

field_by_name : DynamicProjectSettings → Text → Option DynamicProjectField
field_by_name settings name =
    find (λ f. option_beq f.name (some name)) (settings.custom_fields ++ settings.kyc)

error_if : Bool → IntegrityError → List IntegrityError
error_if true e = e ∷ []
error_if false e = []

field_errors : Option DynamicProjectField → List IntegrityError
unfolding error_if
field_errors none = username_field_missing ∷ []
field_errors (some f) =
    error_if (not f.enabled) username_field_disabled
    ++ (error_if (not f.required) username_field_not_required
        ++ (error_if (not (f.unique || f.rule_unique)) username_field_not_unique
            ++ error_if (not (option_beq f.regex (some leopold_username_pattern_source)))
                username_field_pattern_mismatch))

-- Every error is one of the user name.
status_of : List IntegrityError → IntegrityFieldStatus
status_of [] = field_ready
status_of (e ∷ es) = field_error

pub evaluate_account_integrity_policy : Option DynamicProjectSettings → AccountIntegrityPolicy
unfolding field_by_name field_errors status_of
evaluate_account_integrity_policy none = record {
  status = field_loading;
  username = field_loading;
  financial_wallet = field_ready;
  errors = [];
}
evaluate_account_integrity_policy (some settings) =
    let errors = field_errors (field_by_name settings leopold_username_metadata_key) in
    record {
      status = status_of errors;
      username = status_of errors;
      financial_wallet = field_ready;
      errors = errors;
    }

pub data AccountIntegrityError : Type 0 where
  account_identity_required : AccountIntegrityError
  username_uniqueness_not_enforced : AccountIntegrityError
  financial_wallet_uniqueness_not_enforced : AccountIntegrityError
  invalid_financial_wallet_metadata : AccountIntegrityError
  financial_wallet_change_requires_reauth : AccountIntegrityError
  invalid_username : AccountIntegrityError

unfoldable pub is_ready : IntegrityFieldStatus → Bool
is_ready field_ready = true
is_ready status = false

stored_username : Metadata → Option Text → Result AccountIntegrityError Metadata
stored_username metadata none = err invalid_username
stored_username metadata (some username) =
    ok (set metadata leopold_username_metadata_key (text username))

pub create_username_metadata_update :
    (Text → Text)
    → DynamicAccountProfile
    → Text
    → AccountIntegrityPolicy
    → Result AccountIntegrityError Metadata
unfolding stored_username
create_username_metadata_update nfkc identity username policy = do
  throw_if (not (is_truthy identity.user_id)) account_identity_required
  throw_if (not (is_ready policy.username)) username_uniqueness_not_enforced
  stored_username (metadata_of identity) (canonicalize_username nfkc username)

module _ (is_address : Text → Bool) (get_address : Text → Text) where
  -- The guards on the wallet that is designated already.
  unfoldable pub check_existing : Option Text → Text → Result AccountIntegrityError (Unit {0})
  check_existing none candidate = ok tt
  check_existing (some value) candidate =
      let existing = normalize_wallet_address is_address get_address (some value) in
      if not (is_truthy existing)
      then err invalid_financial_wallet_metadata
      else if not (wallets_match is_address get_address existing (some candidate))
      then err financial_wallet_change_requires_reauth
      else ok tt

  unfoldable pub create_financial_wallet_metadata_update :
      DynamicAccountProfile → Text → AccountIntegrityPolicy → Result AccountIntegrityError Metadata
  create_financial_wallet_metadata_update identity candidate policy = do
    throw_if (not (is_truthy identity.user_id)) account_identity_required
    throw_if (not (is_ready policy.financial_wallet)) financial_wallet_uniqueness_not_enforced
    check_existing (string_of (get (metadata_of identity) financial_wallet_metadata_key)) candidate
    ok (set (metadata_of identity) financial_wallet_metadata_key (text candidate))
