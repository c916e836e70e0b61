-- ===== src/Reference/Twab/Ledger.antt =====
-- `TwabReferenceModel` (reference/leopoldModels.ts) as a whole against the log of its changes.
use leopold.Prelude.{
  ℕ, ◌≡◌, refl, sym, ap, ◌∙◌, subst, some, List, [], ◌∷◌, arith, if◌then◌else◌, ◌==◌, ==_iff,
  Bool-cases, inl, inr, true, false,
}
use leopold.Prelude.Int.{ℤ, pos, ◌+ℤ◌, ◌≤ℤ◌}
use leopold.Prelude.Eq.{get, set, get-set, list_beq, list_beq_iff, list_eq, nat_eq}
use leopold.Prelude.Text.{Text}
use leopold.Reference.Twab.{
  VaultId, vault_number, BalanceAction, Checkpoint, Model, new, done, key, last, or_empty,
  balance_of, balance, total_balance, change,
}
use leopold.Reference.Twab.Search.{walk}
use leopold.Reference.Twab.Writes.{Extends, Until, write-Extends}
use leopold.Reference.Twab.History.{measure, net, Represents, empty-Represents, write-Represents}

pub record Entry : Type 0 where
  pub vault : VaultId
  pub account : Text
  pub action : BalanceAction

abbrev pub entry_of : VaultId → Text → ℤ → ℤ → Entry
entry_of v a delta t = record {
  vault = v;
  account = a;
  action = record { timestamp = t; delta = delta };
}

-- The actions under one key of `checkpoints`, and those of one vault, newest first.
unfoldable pub user_history : Text → List Entry → List BalanceAction
user_history k [] = []
user_history k (e ∷ log) =
    let rest = user_history k log in
    if list_beq (key e.vault e.account) k then e.action ∷ rest else rest

unfoldable pub total_history : ℕ → List Entry → List BalanceAction
total_history n [] = []
total_history n (e ∷ log) =
    let rest = total_history n log in if vault_number e.vault == n then e.action ∷ rest else rest

unfoldable pub user_at : Model → Text → List Checkpoint
user_at m k = or_empty (get m.checkpoints k)

unfoldable pub total_at : Model → ℕ → List Checkpoint
total_at m n = or_empty (get m.vault_totals n)

user_history-other :
    (k : Text) (e : Entry) (log : List Entry)
    → list_beq (key e.vault e.account) k ≡ false
    → user_history k (e ∷ log) ≡ user_history k log
unfolding user_history
user_history-other k e log n = rw n

total_history-other :
    (n : ℕ) (e : Entry) (log : List Entry)
    → (vault_number e.vault == n) ≡ false
    → total_history n (e ∷ log) ≡ total_history n log
unfolding total_history
total_history-other n e log o = rw o

-- Every account's and every vault's checkpoints are the exact record of their part of the log.
pub record Faithful (m : Model) (log : List Entry) : Type 0 where
  pub users : (k : Text) → Represents (user_at m k) (user_history k log)
  pub totals : (n : ℕ) → Represents (total_at m n) (total_history n log)
  pub behind :
      (v : VaultId) (a : Text) (t : ℤ)
      → Until (total_at m (vault_number v)) t
      → Until (user_at m (key v a)) t
  pub solvent : (k : Text) → pos 0 ≤ℤ net (user_history k log)
  pub funded : (n : ℕ) → pos 0 ≤ℤ net (total_history n log)

pub new-Faithful : Faithful new []
unfolding user_at total_at user_history total_history get
new-Faithful = record {
  users = λ k. empty-Represents;
  totals = λ n. empty-Represents;
  behind = λ v a t h. h;
  solvent = λ k. unfold measure in omega arith;
  funded = λ n. unfold measure in omega arith;
}

pub vault_number_of_key :
    (v w : VaultId) (a b : Text) → key v a ≡ key w b → vault_number v ≡ vault_number w
unfolding key
vault_number_of_key v w a b e = ground arith

module _ (m : Model) (k : Text) (n : ℕ) (user total : List Checkpoint) where
  abbrev changed : Model
  changed = record {
    checkpoints = set m.checkpoints k user;
    vault_totals = set m.vault_totals n total;
  }

  user_at-changed : (j : Text) → user_at changed j ≡ (if list_beq k j then user else user_at m j)
  unfolding user_at
  user_at-changed j = rw (get-set m.checkpoints k j user) (ground arith)

  total_at-changed : (j : ℕ) → total_at changed j ≡ (if n == j then total else total_at m j)
  unfolding total_at
  total_at-changed j = rw (get-set m.vault_totals n j total) (ground arith)

some_timestamp :
    (c p : Checkpoint)
    → some c ≡ some p
    → (p.timestamp ≤ℤ c.timestamp) × (c.timestamp ≤ℤ p.timestamp)
some_timestamp c p e = ground arith

module _ (m : Model) (log : List Entry) (v : VaultId) (a : Text) (delta t : ℤ) (h : Faithful m log)
    (until : Until (total_at m (vault_number v)) t) where
  abbrev entry : Entry
  entry = entry_of v a delta t

  abbrev user_point : Checkpoint
  user_point = record {
    timestamp = t;
    balance = balance_of (last (user_at m (key v a))) +ℤ delta;
    cumulative = walk (user_at m (key v a)) t;
  }

  abbrev total_point : Checkpoint
  total_point = record {
    timestamp = t;
    balance = balance_of (last (total_at m (vault_number v))) +ℤ delta;
    cumulative = walk (total_at m (vault_number v)) t;
  }

  module _ (user total : List Checkpoint) (x : Extends (user_at m (key v a)) user_point user)
      (y : Extends (total_at m (vault_number v)) total_point total) where
    abbrev after : Model
    after = changed m (key v a) (vault_number v) user total

    users_after : (k : Text) → Represents (user_at after k) (user_history k (entry ∷ log))
    unfolding user_history
    users_after k =
        rw (user_at-changed m (key v a) (vault_number v) user total k)
          (elim (Bool-cases (list_beq (key v a) k)) [
            | inl same ↦ rw same (
                subst (λ j. Represents user (entry.action ∷ user_history j log))
                  ((list_beq_iff (key v a) k).0 same)
                  (write-Represents (user_at m (key v a)) user (user_history (key v a) log)
                    entry.action user_point.balance (h.users (key v a)) (h.behind v a t until) x
                    refl))
            | inr other ↦ rw other (h.users k)
          ])

    totals_after : (n : ℕ) → Represents (total_at after n) (total_history n (entry ∷ log))
    unfolding total_history
    totals_after n =
        rw (total_at-changed m (key v a) (vault_number v) user total n)
          (elim (Bool-cases (vault_number v == n)) [
            | inl same ↦ rw same (
                subst (λ j. Represents total (entry.action ∷ total_history j log))
                  ((==_iff _ n).0 same)
                  (write-Represents (total_at m (vault_number v)) total
                    (total_history (vault_number v) log) entry.action total_point.balance
                    (h.totals (vault_number v)) until y refl))
            | inr other ↦ rw other (h.totals n)
          ])

    behind_same :
        (w : VaultId) (b : Text) (u : ℤ)
        → vault_number v ≡ vault_number w
        → t ≤ℤ u
        → Until (user_at after (key w b)) u
    behind_same w b u same le p e = elim (Bool-cases (list_beq (key v a) (key w b))) [
      | inl written ↦
          let e' : last user ≡ some p = ap last (sym (moved written)) ∙ e in
          omega (arith, some_timestamp user_point p (sym x.newest ∙ e'))
      | inr kept ↦ omega (
        arith,
        h.behind w b t (subst (λ n. Until (total_at m n) t) same until) p
            (ap last (sym (stays kept)) ∙ e),
      )
    ]
      where
        moved : list_beq (key v a) (key w b) ≡ true → user_at after (key w b) ≡ user
        moved q =
            user_at-changed m (key v a) (vault_number v) user total (key w b)
            ∙ ap (λ c. if c then user else user_at m (key w b)) q

        stays : list_beq (key v a) (key w b) ≡ false → user_at after (key w b) ≡ user_at m (key w b)
        stays q =
            user_at-changed m (key v a) (vault_number v) user total (key w b)
            ∙ ap (λ c. if c then user else user_at m (key w b)) q

    behind_other :
        (w : VaultId) (b : Text) (u : ℤ)
        → (vault_number v == vault_number w) ≡ false
        → Until (total_at after (vault_number w)) u
        → Until (user_at after (key w b)) u
    behind_other w b u other q =
        subst (λ cs. Until cs u) (sym stays_user)
          (h.behind w b u (subst (λ cs. Until cs u) stays_total q))
      where
        stays_total : total_at after (vault_number w) ≡ total_at m (vault_number w)
        stays_total =
            total_at-changed m (key v a) (vault_number v) user total (vault_number w)
            ∙ ap (λ c. if c then total else total_at m (vault_number w)) other

        differs : list_beq (key v a) (key w b) ≡ false
        differs = elim (Bool-cases (list_beq (key v a) (key w b))) [
          | inl same ↦
              absurd (ground (arith, vault_number_of_key v w a b ((list_beq_iff _ _).0 same)))
          | inr n ↦ n
        ]

        stays_user : user_at after (key w b) ≡ user_at m (key w b)
        stays_user =
            user_at-changed m (key v a) (vault_number v) user total (key w b)
            ∙ ap (λ c. if c then user else user_at m (key w b)) differs

    behind_after :
        (w : VaultId) (b : Text) (u : ℤ)
        → Until (total_at after (vault_number w)) u
        → Until (user_at after (key w b)) u
    behind_after w b u q = elim (Bool-cases (vault_number v == vault_number w)) [
      | inl same ↦ behind_same w b u ((==_iff _ _).0 same) (q total_point (newest_total same))
      | inr other ↦ behind_other w b u other q
    ]
      where
        newest_total :
            (vault_number v == vault_number w) ≡ true
            → last (total_at after (vault_number w)) ≡ some total_point
        newest_total same =
            ap last (
              total_at-changed m (key v a) (vault_number v) user total (vault_number w)
              ∙ ap (λ c. if c then total else total_at m (vault_number w)) same)
            ∙ y.newest

    solvent_after :
        pos 0 ≤ℤ user_point.balance → (k : Text) → pos 0 ≤ℤ net (user_history k (entry ∷ log))
    solvent_after p k = elim (Bool-cases (list_beq (key v a) k)) [
      | inl same ↦ rw (← (users_after k).holds) (
          rw (user_at-changed m (key v a) (vault_number v) user total k)
            (rw same (rw (x.newest) p)))
      | inr other ↦ rw (user_history-other k entry log other) (h.solvent k)
    ]

    funded_after :
        pos 0 ≤ℤ total_point.balance → (n : ℕ) → pos 0 ≤ℤ net (total_history n (entry ∷ log))
    funded_after p n = elim (Bool-cases (vault_number v == n)) [
      | inl same ↦ rw (← (totals_after n).holds) (
          rw (total_at-changed m (key v a) (vault_number v) user total n)
            (rw same (rw (y.newest) p)))
      | inr other ↦ rw (total_history-other n entry log other) (h.funded n)
    ]

    after-Faithful :
        pos 0 ≤ℤ user_point.balance → pos 0 ≤ℤ total_point.balance → Faithful after (entry ∷ log)
    after-Faithful p q = record {
      users = users_after;
      totals = totals_after;
      behind = behind_after;
      solvent = solvent_after p;
      funded = funded_after q;
    }

  -- The change itself.
  pub change-Faithful :
      pos 0 ≤ℤ balance m v a +ℤ delta
      → pos 0 ≤ℤ total_balance m v +ℤ delta
      → (m' : Model) × (change v a delta t m ≡ (done, m'))
        × Faithful m' (entry_of v a delta t ∷ log)
  unfolding change balance total_balance user_at total_at
  change-Faithful p q =
      let (user, eu, x) =
        write-Extends (user_at m (key v a)) user_point.balance t (h.users (key v a)).ordered
          (h.behind v a t until) in
      let (total, et, y) =
        write-Extends (total_at m (vault_number v)) total_point.balance t
          (h.totals (vault_number v)).ordered until in
      (after user total x y, ground (arith, eu, et), after-Faithful user total x y p q)
