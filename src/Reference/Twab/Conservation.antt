-- ===== src/Reference/Twab/Conservation.antt =====
-- The weights of `TwabReferenceModel` (reference/leopoldModels.ts): each account's and the vault's.
use leopold.Prelude.{
  ℕ, ◌+◌, ◌≡◌, refl, sym, ap, ap₂, ◌∙◌, false, List, [], ◌∷◌, arith, ◌==◌, Bool-cases, inl, inr,
  if◌then◌else◌,
}
use leopold.Prelude.Int.{ℤ, pos, ◌+ℤ◌, ◌-ℤ◌, ◌≤ℤ◌, int_laws, parts_of_eq, +ℤ_assoc}
use leopold.Prelude.Eq.{list_beq, list_beq_iff, list_eq, nat_eq}
use leopold.Prelude.Results.{Result, ok, ◌>>=◌}
use leopold.Prelude.Text.{Text}
use leopold.Reference.Twab.{
  VaultId, vault_number, BalanceAction, Model, key, user_checkpoints, total_checkpoints,
}
use leopold.Reference.Twab.Interpolate.{QueryError, cumulative_at, weight, aggregate_weight}
use leopold.Reference.Twab.Search.{interpolate-eq-walk}
use leopold.Reference.Twab.History.{measure, share, integral}
use leopold.Reference.Twab.Ledger.{
  Entry, user_history, total_history, user_at, total_at, Faithful, vault_number_of_key,
}

-- How many of the accounts have this key in the vault.
unfoldable pub count_key : VaultId → Text → List Text → ℕ
count_key v k [] = 0
count_key v k (a ∷ accounts) = (if list_beq k (key v a) then 1 else 0) + count_key v k accounts

-- Each of the vault's entries belongs to exactly one of the accounts.
abbrev pub Covers : VaultId → List Text → List Entry → Type 0
Covers v accounts [] = Unit {0}
Covers v accounts (e ∷ log) =
    (vault_number e.vault ≡ vault_number v → count_key v (key e.vault e.account) accounts ≡ 1)
    × Covers v accounts log

-- A quantity over the accounts' histories, added up.
unfoldable pub sum_users : (BalanceAction → ℤ) → VaultId → List Text → List Entry → ℤ
sum_users f v [] log = pos 0
sum_users f v (a ∷ accounts) log =
    measure f (user_history (key v a) log) +ℤ sum_users f v accounts log

sum_users-nil :
    (f : BalanceAction → ℤ) (v : VaultId) (accounts : List Text) → sum_users f v accounts [] ≡ pos 0
unfolding sum_users user_history measure
sum_users-nil f v [] = refl
sum_users-nil f v (a ∷ accounts) = omega (int_laws, parts_of_eq _ _ (sum_users-nil f v accounts))

module _ (f : BalanceAction → ℤ) (v : VaultId) (e : Entry) (log : List Entry) where
  history-cons :
      (k : Text)
      → measure f (user_history k (e ∷ log)) ≡ (
          if list_beq (key e.vault e.account) k
          then f e.action +ℤ measure f (user_history k log)
          else measure f (user_history k log))
  unfolding measure user_history
  history-cons k = ground arith

  skipped :
      (accounts : List Text)
      → count_key v (key e.vault e.account) accounts ≡ 0
      → sum_users f v accounts (e ∷ log) ≡ sum_users f v accounts log
  unfolding sum_users count_key
  skipped [] n = refl
  skipped (a ∷ accounts) n = ground (arith, history-cons (key v a), skipped accounts)

  counted :
      (accounts : List Text)
      → count_key v (key e.vault e.account) accounts ≡ 1
      → sum_users f v accounts (e ∷ log) ≡ f e.action +ℤ sum_users f v accounts log
  unfolding sum_users count_key
  counted [] n = ground arith
  counted (a ∷ accounts) n = elim (Bool-cases (list_beq (key e.vault e.account) (key v a))) [
    | inl here ↦ ground (
      arith,
      history-cons (key v a),
      skipped accounts,
      +ℤ_assoc (f e.action) (measure f (user_history (key v a) log)) (sum_users f v accounts log),
    )
    | inr later ↦ omega (
      int_laws,
      parts_of_eq _ _ (
          history-cons (key v a)
          ∙ ap
              (λ c.
                if c
                then f e.action +ℤ measure f (user_history (key v a) log)
                else measure f (user_history (key v a) log))
              later),
      parts_of_eq _ _ (counted accounts (ground arith)),
    )
  ]

  elsewhere :
      (accounts : List Text)
      → (vault_number e.vault == vault_number v) ≡ false
      → count_key v (key e.vault e.account) accounts ≡ 0
  unfolding count_key
  elsewhere [] n = refl
  elsewhere (a ∷ accounts) n = ground (
    arith,
    elsewhere accounts n,
    list_beq_iff (key e.vault e.account) (key v a),
    vault_number_of_key e.vault v e.account a,
  )

-- Over accounts that cover the vault's log, the accounts' quantities add up to the vault's.
pub sum_users-total :
    (f : BalanceAction → ℤ) (v : VaultId) (accounts : List Text) (log : List Entry)
    → Covers v accounts log
    → sum_users f v accounts log ≡ measure f (total_history (vault_number v) log)
unfolding total_history measure
sum_users-total f v accounts [] c = sum_users-nil f v accounts
sum_users-total f v accounts (e ∷ log) c =
    elim (Bool-cases (vault_number e.vault == vault_number v)) [
      | inl same ↦ ground (
        arith,
        counted f v e log accounts (c.0 (ground arith)),
        sum_users-total f v accounts log c.1,
      )
      | inr other ↦ ground (
        arith,
        skipped f v e log accounts (elsewhere f v e log accounts other),
        sum_users-total f v accounts log c.1,
      )
    ]

-- The accounts' weights over a round, added up; each query must succeed.
pub sum_weights : Model → VaultId → List Text → ℤ → ℤ → Result QueryError ℤ
sum_weights m v [] opens_at closes_at = ok (pos 0)
sum_weights m v (a ∷ accounts) opens_at closes_at = do
  w ← weight m v a opens_at closes_at
  rest ← sum_weights m v accounts opens_at closes_at
  ok (w +ℤ rest)

module _ (m : Model) (log : List Entry) (h : Faithful m log) (v : VaultId) where
  -- On a faithful model an account's weight over an interval is the exact integral of the
  -- account's balance over it, for every account, also one that has no checkpoints.
  pub weight_of_Faithful :
      (a : Text) (opens_at closes_at : ℤ)
      → opens_at ≤ℤ closes_at
      → weight m v a opens_at closes_at
        ≡ ok (
            integral (user_history (key v a) log) closes_at
            -ℤ integral (user_history (key v a) log) opens_at)
  unfolding weight cumulative_at user_checkpoints user_at
  weight_of_Faithful a o c le =
      let r = h.users (key v a) in
      ground (
        arith,
        interpolate-eq-walk (user_at m (key v a)) c r.ordered,
        interpolate-eq-walk (user_at m (key v a)) o r.ordered,
        r.exact c,
        r.exact o,
      )

  aggregate_weight_of_Faithful :
      (opens_at closes_at : ℤ)
      → aggregate_weight m v opens_at closes_at
        ≡ ok (
            integral (total_history (vault_number v) log) closes_at
            -ℤ integral (total_history (vault_number v) log) opens_at)
  unfolding aggregate_weight total_checkpoints total_at
  aggregate_weight_of_Faithful o c =
      let r = h.totals (vault_number v) in
      ground (
        arith,
        interpolate-eq-walk (total_at m (vault_number v)) c r.ordered,
        interpolate-eq-walk (total_at m (vault_number v)) o r.ordered,
        r.exact c,
        r.exact o,
      )

  sum_weights_of_Faithful :
      (accounts : List Text) (opens_at closes_at : ℤ)
      → opens_at ≤ℤ closes_at
      → sum_weights m v accounts opens_at closes_at
        ≡ ok (
            sum_users (share closes_at) v accounts log -ℤ sum_users (share opens_at) v accounts log)
  unfolding sum_weights sum_users
  sum_weights_of_Faithful [] o c le = ap ok (omega int_laws)
  sum_weights_of_Faithful (a ∷ accounts) o c le =
      rw (weight_of_Faithful a o c le)
        (rw (sum_weights_of_Faithful accounts o c le) (ap ok (omega int_laws)))

  -- On a faithful model, over accounts to which each entry of the vault belongs exactly once, the
  -- accounts' weights add up to the vault's aggregate weight.
  pub weights_of_Faithful :
      (accounts : List Text) (opens_at closes_at : ℤ)
      → Covers v accounts log
      → opens_at ≤ℤ closes_at
      → sum_weights m v accounts opens_at closes_at ≡ aggregate_weight m v opens_at closes_at
  weights_of_Faithful accounts o c covers le =
      sum_weights_of_Faithful accounts o c le
      ∙ ap ok (
          ap₂ (λ x y. x -ℤ y) (sum_users-total (share c) v accounts log covers)
            (sum_users-total (share o) v accounts log covers))
      ∙ sym (aggregate_weight_of_Faithful o c)
