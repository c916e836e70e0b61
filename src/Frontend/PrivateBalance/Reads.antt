-- ===== src/Frontend/PrivateBalance/Reads.antt =====
-- What the reads and the decryptions of frontend/lib/leopold/private-balance.ts answer, and from
-- which world on.
use leopold.Prelude.{◌≡◌, refl, sym, ap, ◌∙◌, Bool, true, false, Option, none, some, arith}
use leopold.Prelude.Int.{ℤ}
use leopold.Prelude.Eq.{nat_eq}
use leopold.Prelude.Results.{Result, ok, err}
use leopold.Prelude.Calls.{Calls, checked, ◌>>=◌, Gives, bind-Gives, done-Gives, call-Gives}
use leopold.Prelude.Text.{Text}
use leopold.Frontend.Wallet.Snapshot.{leopold_chain_id}
use leopold.Frontend.PrivateBalance.{
  RevealError, PrivateBalanceIdentity, PrivateBalanceClients, same_text, throw_unless, is_signer,
  check_identity, require_configured, assert_configured_identity, assert_sepolia_clients,
  read_current_private_balance_handle, decrypt_current_private_balance,
}

pub throw_unless_ok : (b : Bool) (e : RevealError) → throw_unless b e ≡ ok tt → b ≡ true
unfolding throw_unless
throw_unless_ok true e h = refl
throw_unless_ok false e h = absurd (ground arith)

module _ {World B : Type 0} {P : B → World → Type 0} (w : World) where
  -- What follows a check that has passed starts in the same world.
  pub checked_then :
      {A : Type 0} {k : A → Calls RevealError World B} (r : Result RevealError A)
      → ((a : A) → r ≡ ok a → Gives P w (k a))
      → Gives P w (checked r >>= k)
  unfolding checked ◌>>=◌
  checked_then {k = k} (ok a) f = record { holds = (f a refl).holds }
  checked_then (err e) f = record { holds = λ b p. absurd (ground (arith, p)) }

module _ {World : Type 0} (configured : Option Text) where
  -- The world that the two chain ids, the wallet's and the public client's, leave.
  abbrev after_checks : PrivateBalanceClients World → World → World
  after_checks c w = (c.public_chain_id (c.wallet_chain_id w).1).1

  -- The wallet's chain and the public client's are Sepolia.
  abbrev AreOnSepolia : PrivateBalanceClients World → World → Type 0
  AreOnSepolia c w =
      ((c.wallet_chain_id w).0 ≡ ok leopold_chain_id)
      × ((c.public_chain_id (c.wallet_chain_id w).1).0 ≡ ok leopold_chain_id)

  -- An identity as clients read it from a world on: the handle is the one that the token's contract
  -- answers after the two chain ids, and the world after its answer is the last one.
  pub record IsRead (c : PrivateBalanceClients World) (token : Text) (w : World)
      (i : PrivateBalanceIdentity) (w' : World) : Type 0 where
    pub on_sepolia : i.chain_id ≡ leopold_chain_id
    pub clients_on_sepolia : AreOnSepolia c w
    pub official : configured ≡ some i.token
    pub same_token : same_text token i.token ≡ true
    pub has_signer : is_signer c.signer_account c.account ≡ true
    pub of_account : i.account ≡ c.account
    pub was_read : c.read_handle i.token c.account (after_checks c w) ≡ (ok i.handle, w')

  sepolia-Gives :
      (c : PrivateBalanceClients World) (w : World)
      → Gives
          (λ n v. (n ≡ leopold_chain_id) × (v ≡ after_checks c w) × AreOnSepolia c w)
          w
          (assert_sepolia_clients configured c)
  unfolding assert_sepolia_clients
  sepolia-Gives c w = bind-Gives (call-Gives w c.wallet_chain_id) (λ chain v got.
      checked_then v _ (λ u is_sepolia.
        bind-Gives (call-Gives v c.public_chain_id) (λ public_chain v' got'.
          checked_then v' _ (λ u' same.
            let chain_eq : chain ≡ leopold_chain_id =
              ground (arith, throw_unless_ok _ _ is_sepolia) in
            let public_eq : public_chain ≡ leopold_chain_id =
              ground (arith, throw_unless_ok _ _ same) in
            let after : (c.wallet_chain_id w).1 ≡ v = ap (λ r. r.1) got in
            done-Gives v' chain (
              chain_eq,
              sym (ap (λ x. (c.public_chain_id x).1) after ∙ ap (λ r. r.1) got'),
              (
                ap (λ r. r.0) got ∙ ap ok chain_eq,
                ap (λ x. (c.public_chain_id x).0) after ∙ ap (λ r. r.0) got' ∙ ap ok public_eq,
              ),
            )))))

  identity_ok :
      (c : PrivateBalanceClients World) (token t : Text)
      → assert_configured_identity configured c token ≡ ok t
      → (configured ≡ some t)
        × (same_text token t ≡ true)
        × (is_signer c.signer_account c.account ≡ true)
  unfolding assert_configured_identity require_configured check_identity
  identity_ok c token t h = of configured refl h
    where
      of :
          (o : Option Text)
          → configured ≡ o
          → require_configured configured o c token ≡ ok t
          → (configured ≡ some t)
            × (same_text token t ≡ true)
            × (is_signer c.signer_account c.account ≡ true)
      of none q k = absurd (ground arith)
      of (some official) q k = ground arith

  pub handle-IsRead :
      (c : PrivateBalanceClients World) (token : Text) (w : World)
      → Gives (IsRead c token w) w (read_current_private_balance_handle configured c token)
  unfolding read_current_private_balance_handle
  handle-IsRead c token w =
      checked_then w (assert_configured_identity configured c token) (λ official checks.
        let known = identity_ok c token official checks in
        bind-Gives (sepolia-Gives c w) (λ chain v is_sepolia.
          bind-Gives (call-Gives v (c.read_handle official c.account)) (λ handle v' got.
            done-Gives v' _ (record {
              on_sepolia = is_sepolia.0;
              clients_on_sepolia = is_sepolia.2;
              official = known.0;
              same_token = known.1;
              has_signer = known.2;
              of_account = refl;
              was_read = ap (c.read_handle official c.account) (sym is_sepolia.1) ∙ got;
            }))))

  -- A value that clients decrypt from a world on, for the signer's account, the official token and
  -- a handle: the relayer's answer after the two chain ids.
  pub record IsDecrypted (c : PrivateBalanceClients World) (i : PrivateBalanceIdentity) (w : World)
      (value : ℤ) (w' : World) : Type 0 where
    pub token : Text
    pub official : configured ≡ some token
    pub clients_on_sepolia : AreOnSepolia c w
    pub same_account : same_text c.account i.account ≡ true
    pub was_decrypted : c.decrypt c.account token i.handle (after_checks c w) ≡ (ok value, w')

  pub decrypt-IsDecrypted :
      (c : PrivateBalanceClients World) (i : PrivateBalanceIdentity) (w : World)
      → Gives (IsDecrypted c i w) w (decrypt_current_private_balance configured c i)
  unfolding decrypt_current_private_balance
  decrypt-IsDecrypted c i w =
      checked_then w (assert_configured_identity configured c i.token) (λ official checks.
        bind-Gives (sepolia-Gives c w) (λ chain v is_sepolia. checked_then v _ (λ u same.
          decrypted official (identity_ok c i.token official checks).0
            (ground (arith, throw_unless_ok _ _ same)) v is_sepolia.1 is_sepolia.2)))
    where
      decrypted :
          (official : Text)
          → configured ≡ some official
          → same_text c.account i.account ≡ true
          → (v : World) → v ≡ after_checks c w
          → AreOnSepolia c w
          → Gives (IsDecrypted c i w) v (c.decrypt c.account official i.handle)
      decrypted official known same v moved here = record {
        holds = λ value p. record {
          token = official;
          official = known;
          clients_on_sepolia = here;
          same_account = same;
          was_decrypted =
              ap (c.decrypt c.account official i.handle) (sym moved)
              ∙ (call-Gives v (c.decrypt c.account official i.handle)).holds value p;
        };
      }
