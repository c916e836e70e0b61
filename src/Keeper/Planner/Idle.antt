-- ===== src/Keeper/Planner/Idle.antt =====
-- keeper/src/planner.ts: `planNextAction` returns nothing only when nothing is required.
use leopold.Prelude.{
  ◌<◌, ◌≡◌, ◌⊎◌, inl, inr, true, false, Option, none, some, arith, Bool-cases, Option-cases,
}
use leopold.Prelude.Search.{
  In, find, first_some, first, find-some, find-none, In-keep, first_some-none, sort_by-In,
}
use native.Mathlib.Decide.{dec_lt}
use leopold.Prelude.Text.{Text}
use leopold.Keeper.Lifecycle.{
  RoundState, uninitialized, RoundSnapshot, VaultSnapshot, ProtocolSnapshot, LifecycleAction,
  register_auto_entry, prune_auto_entry, close_round, LifecycleActionKind,
}
use leopold.Keeper.Planner.Actions.{is_open, is_settled, find_round, action_for_round}
use leopold.Keeper.Planner.Required.{
  same_account, find_vault, find_candidate, in_phase, can_register, can_prune, required_in,
  is_action_required,
}
use leopold.Keeper.Planner.WellFormed.{WellFormed, find_active, find_round_self}
use leopold.Keeper.Planner.Soundness.{no_closure, by_id-In}
use leopold.Keeper.Planner.{
  due_closure, due_closures, is_eligible, is_stale, entry_action, unfinished, unfinished_action,
  by_id, plan_next_action,
}

-- Between rounds that are not the active one, a state that calls for no action fits no kind.
no_action :
    (v : VaultSnapshot) (r : RoundSnapshot) (k : LifecycleActionKind)
    → action_for_round v r ≡ none
    → is_open r.state ≡ false
    → in_phase k r.state ≡ false
unfolding action_for_round
no_action v r register_auto_entry n o = ground arith
no_action v r _ n o = ground arith

open_phase :
    (k : LifecycleActionKind) (s : RoundState)
    → is_open s ≡ true
    → (k ≡ close_round) ⊎ (in_phase k s ≡ false)
open_phase register_auto_entry s o = ground arith
open_phase _ s o = ground arith

no_phase : (k : LifecycleActionKind) (s : RoundState) → s ≡ uninitialized → in_phase k s ≡ false
no_phase register_auto_entry s e = ground arith
no_phase _ s e = ground arith

-- A vault for which none of the planner's three loops finds anything.
module _ (s : ProtocolSnapshot) (wf : WellFormed s) (v : VaultSnapshot) (h : In v s.vaults)
    (closed : due_closure s.block_timestamp v ≡ none)
    (entered : entry_action s.block_timestamp v ≡ none)
    (finished : unfinished_action v ≡ none) where
  not_past :
      (r : RoundSnapshot)
      → In r v.rounds
      → r.round_id < v.active_round_id
      → action_for_round v r ≡ none
  unfolding unfinished_action unfinished
  not_past r k lt = elim (Bool-cases (is_settled r.state)) [
    | inl t ↦ unfold action_for_round in ground arith
    | inr n ↦
        first_some-none (action_for_round v) _ r finished
          (sort_by-In _ _ r (In-keep _ v.rounds r k (ground arith)))
  ]

  active_closed :
      (r : RoundSnapshot)
      → In r v.rounds
      → r.round_id ≡ v.active_round_id
      → is_open r.state ≡ false
      → ⊥
  active_closed r hr e n =
      let (act, q, ha, ea, o) = find_active s wf v h in
      ground (arith, find_round_self s wf v h r hr)

  active_running :
      (r : RoundSnapshot)
      → find_round v v.active_round_id ≡ some r
      → is_open r.state ≡ true
      → s.block_timestamp < r.closes_at
  unfolding due_closure
  active_running r q o = ground arith

  nobody_waits :
      (r : RoundSnapshot)
      → find_round v v.active_round_id ≡ some r
      → is_open r.state ≡ true
      → (find (is_eligible v.bond_amount) v.auto_entry_candidates ≡ none)
        × (find is_stale v.auto_entry_candidates ≡ none)
  unfolding entry_action
  nobody_waits r q o = ground (arith, active_running r q o)

  -- The state of a listed round calls for no action but, at most, its closing.
  phase_lem :
      (r : RoundSnapshot) (k : LifecycleActionKind)
      → In r v.rounds
      → (k ≡ close_round) ⊎ (in_phase k r.state ≡ false)
  phase_lem r k hr = elim (Bool-cases (is_open r.state)) [
    | inl o ↦ open_phase k r.state o
    | inr n ↦ elim (dec_lt r.round_id v.active_round_id) [
      | yes lt ↦ inr (no_action v r k (not_past r hr lt) n)
      | no ge ↦ elim (dec_lt v.active_round_id r.round_id) [
        | yes gt ↦ inr (no_phase k r.state (wf.later v r h hr gt))
        | no le ↦ absurd (active_closed r hr (omega arith) n)
      ]
    ]
  ]

  not_registering :
      (account : Option Text)
      → find (is_eligible v.bond_amount) v.auto_entry_candidates ≡ none
      → can_register v.bond_amount (find_candidate v account) ≡ false
  unfolding can_register find_candidate
  not_registering account n =
      elim (Option-cases (find (λ e. same_account account e.account) v.auto_entry_candidates)) [
        | inl m ↦ rw m
        | inr (c, q) ↦
            let (k, t) = find-some _ v.auto_entry_candidates c q in
            rw q (find-none _ v.auto_entry_candidates c n k)
      ]

  not_pruning :
      (account : Option Text)
      → find is_stale v.auto_entry_candidates ≡ none
      → can_prune (find_candidate v account) ≡ false
  unfolding can_prune find_candidate
  not_pruning account n =
      elim (Option-cases (find (λ e. same_account account e.account) v.auto_entry_candidates)) [
        | inl m ↦ rw m
        | inr (c, q) ↦
            let (k, t) = find-some _ v.auto_entry_candidates c q in
            rw q (ground (arith, find-none is_stale v.auto_entry_candidates c n k))
      ]

  idle_vault :
      (k : LifecycleActionKind) (a : LifecycleAction) (r : RoundSnapshot)
      → In r v.rounds
      → r.round_id ≡ a.round_id
      → required_in k s a v r ≡ false
  unfolding required_in
  idle_vault register_auto_entry a r hr e =
      let (act, q, ha, ea, o) = find_active s wf v h in
      ground (arith, not_registering a.account (nobody_waits act q o).0)
  idle_vault prune_auto_entry a r hr e =
      let (act, q, ha, ea, o) = find_active s wf v h in
      ground (arith, not_pruning a.account (nobody_waits act q o).1)
  idle_vault close_round a r hr e =
      let (act, q, ha, ea, o) = find_active s wf v h in
      ground (arith, active_running act q o, find_round_self s wf v h r hr)
  idle_vault k a r hr e = ground (arith, phase_lem r k hr)

module _ (s : ProtocolSnapshot) (wf : WellFormed s) (idle : plan_next_action s ≡ none) where
  idle_loops :
      (v : VaultSnapshot)
      → In v s.vaults
      → (due_closure s.block_timestamp v ≡ none)
        × (entry_action s.block_timestamp v ≡ none)
        × (unfinished_action v ≡ none)
  unfolding plan_next_action
  idle_loops v h =
      let n : first (due_closures s) ≡ none = ground arith in
      let m : first_some (entry_action s.block_timestamp) (by_id s.vaults) ≡ none = ground arith in
      let l : first_some unfinished_action (by_id s.vaults) ≡ none = ground arith in
      (
        no_closure s v h n,
        first_some-none _ (by_id s.vaults) v m (by_id-In s v h),
        first_some-none _ (by_id s.vaults) v l (by_id-In s v h),
      )

  -- On a well-formed snapshot, when no action is planned no action at all is required.
  pub plan_next_action_idle : (a : LifecycleAction) → is_action_required s a ≡ false
  unfolding is_action_required find_vault find_round
  plan_next_action_idle a = elim (Option-cases (find_vault s a.vault.address)) [
    | inl n ↦ ground arith
    | inr (v, q) ↦
        let (h, t) = find-some _ s.vaults v q in
        let (c, e, u) = idle_loops v h in
        elim (Option-cases (find_round v a.round_id)) [
          | inl m ↦ ground arith
          | inr (r, p) ↦
              let (k, i) = find-some _ v.rounds r p in
              rw q (rw p (idle_vault s wf v h c e u a.kind a r k (ground arith)))
        ]
  ]
