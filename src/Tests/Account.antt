-- ===== src/Tests/Account.antt =====
-- frontend/lib/auth/account-integrity.ts and frontend/lib/auth/account-state.ts on one profile.
use leopold.Prelude.{◌≡◌, refl, Bool, none, some, [], ◌∷◌, leb}
use leopold.Prelude.Eq.{list_beq, nat_eq, list_eq, get, set}
use leopold.Prelude.Lists.{length}
use leopold.Prelude.Results.{ok}
use leopold.Prelude.Text.{Text, codes, to_lower_case, lower_char, trim}
use leopold.Frontend.Readiness.{normalize_wallet_address, wallets_match}
use leopold.Frontend.Account.{
  DynamicAccountProfile, text, Metadata, metadata_of, string_of, financial_wallet_metadata_key,
  leopold_username_metadata_key, canonicalize_username,
}
use leopold.Frontend.Account.Integrity.{
  AccountIntegrityPolicy, field_ready, is_ready, check_existing,
  create_financial_wallet_metadata_update,
}
use leopold.Frontend.Account.Designation.{
  Designates, create_financial_wallet_metadata_update-Designates,
}

abbrev long_enough : Text → Bool
long_enough t = leb 3 (length t)

abbrev as_written : Text → Text
as_written t = t

canonical : canonicalize_username as_written (codes " Ann_7 ") ≡ some (codes "ann_7")
unfolding canonicalize_username to_lower_case lower_char trim
canonical = refl

abbrev policy : AccountIntegrityPolicy
policy = record {
  status = field_ready;
  username = field_ready;
  financial_wallet = field_ready;
  errors = [];
}

abbrev profile : DynamicAccountProfile
profile = record {
  email = none;
  metadata = some (
      (leopold_username_metadata_key, text (codes "ann"))
      ∷ (financial_wallet_metadata_key, text (codes "0xaB"))
      ∷ []);
  user_id = some (codes "u1");
  verified_credentials = some (codes "email") ∷ [];
}

abbrev updated : Metadata
updated =
    (leopold_username_metadata_key, text (codes "ann"))
    ∷ (financial_wallet_metadata_key, text (codes "0xAb"))
    ∷ []

update_made :
    create_financial_wallet_metadata_update long_enough as_written profile (codes "0xAb") policy
    ≡ ok updated
unfolding create_financial_wallet_metadata_update check_existing is_ready metadata_of string_of
    normalize_wallet_address wallets_match to_lower_case lower_char list_beq get set
update_made = refl

normalized :
    normalize_wallet_address long_enough as_written (some (codes "0xAb")) ≡ some (codes "0xab")
unfolding normalize_wallet_address to_lower_case lower_char
normalized = refl

create_financial_wallet_metadata_update-Designates_example :
    Designates long_enough as_written as_written profile (codes "0xAb") (codes "0xab") updated
create_financial_wallet_metadata_update-Designates_example =
    create_financial_wallet_metadata_update-Designates long_enough as_written as_written profile
      (codes "0xAb") (codes "0xab") policy updated normalized refl update_made
