-- ===== src/Tests/Readiness.antt =====
-- frontend/lib/auth/readiness.ts on one account.
use leopold.Prelude.{◌≡◌, refl, Bool, true, false, none, some, leb}
use leopold.Prelude.Eq.{list_beq, nat_eq}
use leopold.Prelude.Lists.{length}
use leopold.Prelude.Text.{Text, codes, to_lower_case, lower_char}
use leopold.Frontend.Readiness.{
  AuthIdentitySnapshot, allowed, normalize_wallet_address, wallets_match,
  check_financial_wallet_link, MayLink, check_financial_wallet_link-MayLink,
}

abbrev long_enough : Text → Bool
long_enough t = leb 3 (length t)

abbrev as_written : Text → Text
as_written t = t

abbrev account : AuthIdentitySnapshot
account = record {
  is_authenticated = true;
  email_verified = true;
  username = some (codes "ann");
  provider_user_id = some (codes "u1");
  financial_wallet = none;
  connected_wallet = some (codes "0xAb");
  wallet_authenticated = true;
  is_session_expired = false;
  has_account_conflict = false;
}

may_link :
    check_financial_wallet_link long_enough as_written account (some (codes "0xaB"))
    ≡ allowed (codes "0xab")
unfolding check_financial_wallet_link normalize_wallet_address wallets_match to_lower_case
    lower_char list_beq
may_link = refl

check_financial_wallet_link-MayLink_example :
    MayLink long_enough as_written account (some (codes "0xaB")) (codes "0xab")
check_financial_wallet_link-MayLink_example =
    check_financial_wallet_link-MayLink long_enough as_written account (some (codes "0xaB"))
      (codes "0xab") may_link
