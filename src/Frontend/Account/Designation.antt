-- ===== src/Frontend/Account/Designation.antt =====
-- The designation of a financial wallet (frontend/lib/auth/account-integrity.ts), as
-- frontend/lib/auth/account-state.ts reads it.
use leopold.Prelude.{
  ◌≡◌, refl, ap, ◌∙◌, ◌⊎◌, inl, inr, Bool, true, false, not, Option, none, some, [], ◌∷◌, arith,
  if◌then◌else◌,
}
use leopold.Prelude.Eq.{list_beq, list_beq_iff, nat_eq, list_eq, get, set, get-set}
use leopold.Prelude.Results.{Result, ok, err, ◌>>◌, throw_if}
use leopold.Prelude.Text.{Text}
use leopold.Frontend.Readiness.{is_truthy, normalize_wallet_address, wallets_match}
use leopold.Frontend.Recovery.{metadata_present}
use leopold.Frontend.Account.{
  DynamicAccountProfile, text, Metadata, metadata_of, string_of, wallet_metadata,
  wallet_metadata_of, normalized_metadata, financial_wallet_metadata_key,
}
use leopold.Frontend.Account.Integrity.{
  AccountIntegrityError, account_identity_required, financial_wallet_uniqueness_not_enforced,
  AccountIntegrityPolicy, is_ready, check_existing, create_financial_wallet_metadata_update,
}

passed :
    (a b : Bool) (r : Result AccountIntegrityError (Unit {0})) (s m : Metadata)
    → (throw_if (not a) account_identity_required
        >> (throw_if (not b) financial_wallet_uniqueness_not_enforced >> (r >> ok s)))
      ≡ ok m
    → (a ≡ true) × (r ≡ ok tt) × (m ≡ s)
passed false b r s m h = absurd (ground arith)
passed true false r s m h = absurd (ground arith)
passed true true (err e) s m h = absurd (ground arith)
passed true true (ok u) s m h = (refl, refl, ground arith)

chosen : {A : Type 0} {b : Bool} (x y : A) → b ≡ true → (if b then x else y) ≡ x
chosen x y h = ground arith

module _ (is_address : Text → Bool) (get_address nfkc : Text → Text) where
  -- The wallet that the metadata designates already, if it does.
  abbrev designated : DynamicAccountProfile → Option Text
  designated identity = string_of (get (metadata_of identity) financial_wallet_metadata_key)

  -- What an update of the designation does to a profile.
  pub record Designates (identity : DynamicAccountProfile) (candidate address : Text) (m : Metadata)
      : Type 0 where
    pub has_user : is_truthy identity.user_id ≡ true
    pub is_read :
        wallet_metadata_of is_address get_address nfkc (record identity { metadata = some m })
        ≡ record { status = metadata_present; address = some address; is_invalid = false }
    pub others_stay :
        (k : Text)
        → get m k ≡ (
            if list_beq financial_wallet_metadata_key k
            then some (text candidate)
            else get (metadata_of identity) k)
    pub replaces_none :
        (designated identity ≡ none)
        ⊎ ((value : Text) × (designated identity ≡ some value)
            × (wallets_match is_address get_address
                  (normalize_wallet_address is_address get_address (some value))
                  (some candidate)
                ≡ true))

  checked_existing :
      (o : Option Text) (candidate : Text)
      → check_existing is_address get_address o candidate ≡ ok tt
      → (o ≡ none)
        ⊎ ((value : Text) × (o ≡ some value)
            × (wallets_match is_address get_address
                  (normalize_wallet_address is_address get_address (some value))
                  (some candidate)
                ≡ true))
  unfolding check_existing
  checked_existing none candidate h = inl refl
  checked_existing (some value) candidate h = inr (value, refl, ground arith)

  read_again :
      (candidate address : Text)
      → normalize_wallet_address is_address get_address (some candidate) ≡ some address
      → is_truthy (some address) ≡ true
      → wallet_metadata is_address get_address nfkc (string_of (some (text candidate)))
        ≡ record { status = metadata_present; address = some address; is_invalid = false }
  unfolding wallet_metadata normalized_metadata string_of
  read_again candidate [] n t = absurd (ground arith)
  read_again candidate (c ∷ cs) n t = rw n refl

  written :
      (identity : DynamicAccountProfile) (candidate : Text) (policy : AccountIntegrityPolicy)
      (m : Metadata)
      → create_financial_wallet_metadata_update is_address get_address identity candidate policy
        ≡ ok m
      → (is_truthy identity.user_id ≡ true)
        × (check_existing is_address get_address (designated identity) candidate ≡ ok tt)
        × (m ≡ set (metadata_of identity) financial_wallet_metadata_key (text candidate))
  unfolding create_financial_wallet_metadata_update
  written identity candidate policy m h =
      passed (is_truthy identity.user_id) (is_ready policy.financial_wallet) _ _ m h

  -- What the update is, and what the account state reads after it: when it is made, the account has a
  -- user, no other wallet was designated before, every other key of the metadata keeps its value, and
  -- the account state then has the candidate's address as the financial wallet.
  pub create_financial_wallet_metadata_update-Designates :
      (identity : DynamicAccountProfile) (candidate address : Text)
      (policy : AccountIntegrityPolicy) (m : Metadata)
      → normalize_wallet_address is_address get_address (some candidate) ≡ some address
      → is_truthy (some address) ≡ true
      → create_financial_wallet_metadata_update is_address get_address identity candidate policy
        ≡ ok m
      → Designates identity candidate address m
  unfolding wallet_metadata_of metadata_of
  create_financial_wallet_metadata_update-Designates identity candidate address policy m n t h =
      let (user, existing, made) = written identity candidate policy m h in
      let after : (k : Text)
          → get m k ≡ (
              if list_beq financial_wallet_metadata_key k
              then some (text candidate)
              else get (metadata_of identity) k) =
        λ k.
          ap (λ x. get x k) made
          ∙ get-set (metadata_of identity) financial_wallet_metadata_key k (text candidate) in
      record {
        has_user = user;
        is_read =
            ap (λ o. wallet_metadata is_address get_address nfkc (string_of o))
              (after financial_wallet_metadata_key
                ∙ chosen _ _ (
                    (list_beq_iff financial_wallet_metadata_key financial_wallet_metadata_key).1
                      refl))
            ∙ read_again candidate address n t;
        others_stay = after;
        replaces_none = checked_existing (designated identity) candidate existing;
      }
