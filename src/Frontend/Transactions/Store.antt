-- ===== src/Frontend/Transactions/Store.antt =====
-- What a persisted record (frontend/lib/leopold/transactions.ts) leaves in the browser.
use leopold.Prelude.{
  ℕ, zero, suc, ◌≡◌, ◌≢◌, refl, subst, ap, ◌∙◌, Bool, true, false, List, [], ◌∷◌, arith,
  if◌then◌else◌,
}
use leopold.Prelude.Eq.{list_beq, list_beq_iff, nat_eq}
use leopold.Prelude.Lists.{take}
use leopold.Prelude.Search.{keep}
use leopold.Prelude.Text.{Text, to_lower_case}
use leopold.Frontend.Transactions.{
  SafeTransactionRecord, Storage, no_window, absent, malformed, records, is_of_account,
  load_safe_transactions, has_other_id, stored_records, persist_safe_transaction,
}

-- Every item passes the test.
abbrev All : (SafeTransactionRecord → Bool) → List SafeTransactionRecord → Type 0
All p [] = Unit {0}
All p (x ∷ xs) = (p x ≡ true) × All p xs

keep-All : (p : SafeTransactionRecord → Bool) (xs : List SafeTransactionRecord) → All p (keep p xs)
unfolding keep
keep-All p [] = tt
keep-All p (x ∷ xs) = ground (arith, keep-All p xs)

module _ (p : SafeTransactionRecord → Bool) where
  keep-keeps :
      (q : SafeTransactionRecord → Bool) (xs : List SafeTransactionRecord)
      → All p xs
      → All p (keep q xs)
  unfolding keep
  keep-keeps q [] h = tt
  keep-keeps q (x ∷ xs) h = ground (arith, keep-keeps q xs h.1)

  take-All : (n : ℕ) (xs : List SafeTransactionRecord) → All p xs → All p (take n xs)
  unfolding take
  take-All zero xs h = tt
  take-All (suc n) [] h = tt
  take-All (suc n) (x ∷ xs) h = (h.0, take-All n xs h.1)

  All-keep : (xs : List SafeTransactionRecord) → All p xs → keep p xs ≡ xs
  unfolding keep
  All-keep [] h = refl
  All-keep (x ∷ xs) h = ground (arith, All-keep xs h.1)

  keep_none :
      (q : SafeTransactionRecord → Bool) (xs : List SafeTransactionRecord)
      → ((x : SafeTransactionRecord) → p x ≡ true → q x ≡ false)
      → All p xs
      → keep q xs ≡ []
  unfolding keep
  keep_none q [] apart h = refl
  keep_none q (x ∷ xs) apart h = ground (arith, apart x h.0, keep_none q xs apart h.1)

take-take : (n : ℕ) (xs : List SafeTransactionRecord) → take n (take n xs) ≡ take n xs
unfolding take
take-take zero xs = refl
take-take (suc n) [] = refl
take-take (suc n) (x ∷ xs) = ap (λ ys. x ∷ ys) (take-take n xs)

take-nil : (n : ℕ) → take {A = SafeTransactionRecord} n [] ≡ []
unfolding take
take-nil zero = refl
take-nil (suc n) = refl

same_account : (a b : Text) → to_lower_case a ≡ to_lower_case b → is_of_account a ≡ is_of_account b
same_account a b h = ap (λ t (x : SafeTransactionRecord). list_beq (to_lower_case x.account) t) h

stored-All :
    (s : Storage) (r : SafeTransactionRecord) → All (is_of_account r.account) (stored_records s r)
unfolding stored_records load_safe_transactions
stored-All s r =
    take-All (is_of_account r.account) 20 _
      (self, keep-keeps (is_of_account r.account) (has_other_id r.id) _ (loaded s))
  where
    self : is_of_account r.account r ≡ true
    self = (list_beq_iff (to_lower_case r.account) (to_lower_case r.account)).1 refl

    loaded : (s : Storage) → All (is_of_account r.account) (load_safe_transactions s r.account)
    loaded no_window = tt
    loaded absent = tt
    loaded malformed = tt
    loaded (records items) =
        take-All (is_of_account r.account) 20 _ (keep-All (is_of_account r.account) items)

persisted :
    (s : Storage) (r : SafeTransactionRecord)
    → s ≢ no_window
    → persist_safe_transaction s r ≡ records (stored_records s r)
unfolding persist_safe_transaction
persisted no_window r h = absurd (h refl)
persisted absent r h = refl
persisted malformed r h = refl
persisted (records items) r h = refl

loaded_again :
    (s : Storage) (r : SafeTransactionRecord) (account : Text) (b : Bool)
    → list_beq (to_lower_case r.account) (to_lower_case account) ≡ b
    → take 20 (keep (is_of_account account) (stored_records s r))
      ≡ (if b then stored_records s r else [])
unfolding stored_records
loaded_again s r account true h =
    ap (take 20) (
      All-keep (is_of_account account) (stored_records s r) (
        subst (λ p. All p (stored_records s r))
          (same_account r.account account
            ((list_beq_iff (to_lower_case r.account) (to_lower_case account)).0 h))
          (stored-All s r)))
    ∙ take-take 20 _
loaded_again s r account false h =
    ap (take 20) (
      keep_none (is_of_account r.account) (is_of_account account) (stored_records s r) apart
        (stored-All s r))
    ∙ take-nil 20
  where
    apart :
        (x : SafeTransactionRecord)
        → is_of_account r.account x ≡ true
        → is_of_account account x ≡ false
    apart x p =
        ap (λ t. list_beq t (to_lower_case account))
          ((list_beq_iff (to_lower_case x.account) (to_lower_case r.account)).0 p)
        ∙ h

-- In a browser, after a record is persisted, the account it is of loads it first and then what it
-- loaded before without the record of the same id, twenty records at most; and every other account
-- loads nothing, whatever was stored of it.
pub load-persist :
    (s : Storage) (r : SafeTransactionRecord) (account : Text)
    → s ≢ no_window
    → load_safe_transactions (persist_safe_transaction s r) account ≡ (
        if list_beq (to_lower_case r.account) (to_lower_case account)
        then take 20 (r ∷ keep (has_other_id r.id) (load_safe_transactions s r.account))
        else [])
unfolding load_safe_transactions stored_records
load-persist s r account h =
    ap (λ t. load_safe_transactions t account) (persisted s r h)
    ∙ loaded_again s r account (list_beq (to_lower_case r.account) (to_lower_case account)) refl
