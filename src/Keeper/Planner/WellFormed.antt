-- ===== src/Keeper/Planner/WellFormed.antt =====
-- The snapshots that the vault contracts present to keeper/src/planner.ts.
use leopold.Prelude.{
  ◌<◌, ◌≡◌, refl, sym, ap, ◌∙◌, Bool, true, false, some, List, [], ◌∷◌, arith, ◌==◌,
}
use leopold.Prelude.Eq.{list_beq_iff, nat_eq}
use leopold.Prelude.Search.{In, find}
use leopold.Prelude.Text.{Text, to_lower_case}
use leopold.Keeper.Lifecycle.{
  uninitialized, RoundSnapshot, VaultSnapshot, ProtocolSnapshot, process_selection,
  process_allocation, LifecycleAction,
}
use leopold.Keeper.Planner.Actions.{is_open, find_round}
use leopold.Keeper.Planner.Required.{
  same_address, find_vault, in_phase, required_in, is_action_required,
}

module _ {A : Type 0} (same : A → A → Bool) where
  abbrev pub Distinct : List A → Type 0
  Distinct [] = Unit {0}
  Distinct (x ∷ xs) = ((y : A) → In y xs → same x y ≡ false) × Distinct xs

  pub find-Distinct :
      (xs : List A) (x : A)
      → Distinct xs
      → In x xs
      → same x x ≡ true
      → find (λ y. same y x) xs ≡ some x
  unfolding find
  find-Distinct [] x d h r = absurd h
  find-Distinct (y ∷ ys) x d h r = ground (arith, d.0 x, find-Distinct ys x d.1)

pub record WellFormed (s : ProtocolSnapshot) : Type 0 where
  -- No two vaults share an address.
  pub addresses : Distinct (λ v w. same_address v.vault.address w.vault.address) s.vaults
  pub round_ids :
      (v : VaultSnapshot) → In v s.vaults → Distinct (λ r q. r.round_id == q.round_id) v.rounds
  pub accounts :
      (v : VaultSnapshot)
      → In v s.vaults
      → Distinct (λ e f. same_address e.account f.account) v.auto_entry_candidates
  -- The active round is listed and open, and the rounds after it have not begun.
  pub active :
      (v : VaultSnapshot)
      → In v s.vaults
      → (r : RoundSnapshot) × In r v.rounds
        × (r.round_id ≡ v.active_round_id)
        × (is_open r.state ≡ true)
  pub later :
      (v : VaultSnapshot) (r : RoundSnapshot)
      → In v s.vaults
      → In r v.rounds
      → v.active_round_id < r.round_id
      → r.state ≡ uninitialized
  -- A round whose participants are being processed has some left.
  pub selecting :
      (v : VaultSnapshot) (r : RoundSnapshot)
      → In v s.vaults
      → In r v.rounds
      → in_phase process_selection r.state ≡ true
      → r.selection_cursor < r.participant_count
  pub allocating :
      (v : VaultSnapshot) (r : RoundSnapshot)
      → In v s.vaults
      → In r v.rounds
      → in_phase process_allocation r.state ≡ true
      → r.allocation_cursor < r.participant_count

pub same_address_self : (a : Text) → same_address a a ≡ true
unfolding same_address
same_address_self a = (list_beq_iff (to_lower_case a) (to_lower_case a)).1 refl

module _ (s : ProtocolSnapshot) (wf : WellFormed s) (v : VaultSnapshot) (hv : In v s.vaults) where
  pub find_vault_self : find_vault s v.vault.address ≡ some v
  unfolding find_vault
  find_vault_self =
      find-Distinct (λ v w. same_address v.vault.address w.vault.address) s.vaults v wf.addresses hv
        (same_address_self v.vault.address)

  pub find_round_self : (r : RoundSnapshot) → In r v.rounds → find_round v r.round_id ≡ some r
  unfolding find_round
  find_round_self r h =
      find-Distinct (λ r q. r.round_id == q.round_id) v.rounds r (wf.round_ids v hv) h
        (ground arith)

  -- The active round, as the planner finds it.
  pub find_active :
      (r : RoundSnapshot) × (find_round v v.active_round_id ≡ some r)
      × In r v.rounds
      × (r.round_id ≡ v.active_round_id)
      × (is_open r.state ≡ true)
  find_active =
      let (r, h, e, o) = wf.active v hv in
      (r, ap (find_round v) (sym e) ∙ find_round_self r h, h, e, o)

  -- An action on a listed vault and round is judged on them.
  pub required_at :
      (r : RoundSnapshot) (a : LifecycleAction)
      → In r v.rounds
      → a.vault ≡ v.vault
      → a.round_id ≡ r.round_id
      → is_action_required s a ≡ required_in a.kind s a v r
  unfolding is_action_required
  required_at r a h ev er =
      rw (ap (λ c. find_vault s c.address) ev ∙ find_vault_self)
        (rw (ap (find_round v) er ∙ find_round_self r h))
