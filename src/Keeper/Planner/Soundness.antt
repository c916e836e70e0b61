-- ===== src/Keeper/Planner/Soundness.antt =====
-- keeper/src/planner.ts: what `planNextAction` returns is required by `isActionRequired`.
use leopold.Prelude.{
  ◌≡◌, refl, sym, ap, ◌∙◌, ◌⊎◌, inl, inr, true, Option, none, some, List, [], ◌∷◌, arith,
  Option-cases,
}
use leopold.Prelude.Search.{
  In, find, first_some, first, find-some, keep-In, first_some-some, In-sort_by, sort_by-In,
}
use leopold.Keeper.Lifecycle.{
  RoundSnapshot, AutoEntryCandidate, VaultSnapshot, ProtocolSnapshot, LifecycleAction,
}
use leopold.Keeper.Planner.Actions.{create_action, action_for_round}
use leopold.Keeper.Planner.Required.{same_address, find_candidate, required_in, is_action_required}
use leopold.Keeper.Planner.WellFormed.{
  WellFormed, find-Distinct, same_address_self, find_active, required_at,
}
use leopold.Keeper.Planner.{
  due_closure, filter_map, due_closures, is_eligible, is_stale, entry_action, unfinished,
  unfinished_action, by_id, plan_next_action,
}

pub filter_map-In :
    {A B : Type 0} (f : A → Option B) (xs : List A) (b : B)
    → In b (filter_map f xs)
    → (x : A) × In x xs × (f x ≡ some b)
unfolding filter_map
filter_map-In f [] b h = absurd h
filter_map-In f (x ∷ xs) b h = elim (Option-cases (f x)) [
  | inl n ↦ let (y, k, e) = filter_map-In f xs b (ground arith) in (y, inr k, e)
  | inr (c, q) ↦
      let h' : (b ≡ c) ⊎ In b (filter_map f xs) = ground arith in
      elim h' [
        | inl e ↦ (x, inl refl, q ∙ ap some (sym e))
        | inr k ↦ let (y, m, e) = filter_map-In f xs b k in (y, inr m, e)
      ]
]

pub In-filter_map :
    {A B : Type 0} (f : A → Option B) (xs : List A) (x : A) (b : B)
    → In x xs
    → f x ≡ some b
    → In b (filter_map f xs)
unfolding filter_map
In-filter_map f [] x b h e = absurd h
In-filter_map f (y ∷ ys) x b h e = ground (arith, In-filter_map f ys x b)

first-none : {A : Type 0} (xs : List A) (x : A) → first xs ≡ none → In x xs → ⊥
first-none [] x e h = h
first-none (y ∷ ys) x e h = cc

module _ (s : ProtocolSnapshot) where
  pub In-due_closures :
      (v : VaultSnapshot) (c : LifecycleAction)
      → In v s.vaults
      → due_closure s.block_timestamp v ≡ some c
      → In c (due_closures s)
  unfolding due_closures
  In-due_closures v c h e = sort_by-In _ _ c (In-filter_map _ s.vaults v c h e)

  -- When no closure is due for the plan, none is due for any vault.
  pub no_closure :
      (v : VaultSnapshot)
      → In v s.vaults
      → first (due_closures s) ≡ none
      → due_closure s.block_timestamp v ≡ none
  no_closure v h e = elim (Option-cases (due_closure s.block_timestamp v)) [
    | inl n ↦ n
    | inr (c, q) ↦ absurd (first-none (due_closures s) c e (In-due_closures v c h q))
  ]

  pub closure_source :
      (c : LifecycleAction)
      → In c (due_closures s)
      → (v : VaultSnapshot) × In v s.vaults × (due_closure s.block_timestamp v ≡ some c)
  unfolding due_closures
  closure_source c h = filter_map-In _ s.vaults c (In-sort_by _ _ c h)

  pub In-by_id : (v : VaultSnapshot) → In v (by_id s.vaults) → In v s.vaults
  unfolding by_id
  In-by_id v h = In-sort_by _ s.vaults v h

  pub by_id-In : (v : VaultSnapshot) → In v s.vaults → In v (by_id s.vaults)
  unfolding by_id
  by_id-In v h = sort_by-In _ s.vaults v h

pub first-In : {A : Type 0} (xs : List A) (x : A) → first xs ≡ some x → In x xs
first-In [] x e = cc
first-In (y ∷ ys) x e = ground arith

module _ (s : ProtocolSnapshot) (wf : WellFormed s) where
  closure_required :
      (v : VaultSnapshot) (c : LifecycleAction)
      → In v s.vaults
      → due_closure s.block_timestamp v ≡ some c
      → is_action_required s c ≡ true
  unfolding due_closure create_action required_in
  closure_required v c h e =
      let (r, q, hr, er, o) = find_active s wf v h in
      required_at s wf v h r c hr (ground arith) (ground arith) ∙ ground arith

  find_candidate_self :
      (v : VaultSnapshot) (e : AutoEntryCandidate)
      → In v s.vaults
      → In e v.auto_entry_candidates
      → find_candidate v (some e.account) ≡ some e
  unfolding find_candidate
  find_candidate_self v e h k =
      find-Distinct (λ e f. same_address e.account f.account) v.auto_entry_candidates e
        (wf.accounts v h) k (same_address_self e.account)

  -- The candidate that an entry action is for.
  entry_required :
      (v : VaultSnapshot) (a : LifecycleAction)
      → In v s.vaults
      → entry_action s.block_timestamp v ≡ some a
      → is_action_required s a ≡ true
  unfolding entry_action create_action required_in
  entry_required v a h e =
      let (r, q, hr, er, o) = find_active s wf v h in
      elim (Option-cases (find (is_eligible v.bond_amount) v.auto_entry_candidates)) [
        | inr (c, qc) ↦
            let (k, t) = find-some (is_eligible v.bond_amount) v.auto_entry_candidates c qc in
            required_at s wf v h r a hr (ground arith) (ground arith)
            ∙ ground (arith, find_candidate_self v c h k)
        | inl n ↦ elim (Option-cases (find is_stale v.auto_entry_candidates)) [
          | inr (c, qc) ↦
              let (k, t) = find-some is_stale v.auto_entry_candidates c qc in
              required_at s wf v h r a hr (ground arith) (ground arith)
              ∙ ground (arith, find_candidate_self v c h k)
          | inl m ↦ absurd (ground arith)
        ]
      ]

  -- The round that an unfinished round's action is for: it is judged by its own state.
  round_required :
      (v : VaultSnapshot) (r : RoundSnapshot) (a : LifecycleAction)
      → In v s.vaults
      → In r v.rounds
      → due_closure s.block_timestamp v ≡ none
      → action_for_round v r ≡ some a
      → is_action_required s a ≡ true
  unfolding action_for_round create_action required_in due_closure
  round_required v r a h k n e =
      let (act, q, hr, er, o) = find_active s wf v h in
      required_at s wf v h r a k (ground arith) (ground arith)
      ∙ ground (arith, wf.selecting v r h k, wf.allocating v r h k)

  unfinished_required :
      (v : VaultSnapshot) (a : LifecycleAction)
      → In v s.vaults
      → due_closure s.block_timestamp v ≡ none
      → unfinished_action v ≡ some a
      → is_action_required s a ≡ true
  unfolding unfinished_action unfinished
  unfinished_required v a h n e =
      let (r, k, q) = first_some-some (action_for_round v) (unfinished v) a e in
      let k' = keep-In _ v.rounds r (In-sort_by _ _ r k) in round_required v r a h k'.0 n q

  -- On a well-formed snapshot the planned action is one that the snapshot requires.
  pub plan_next_action_required :
      (a : LifecycleAction) → plan_next_action s ≡ some a → is_action_required s a ≡ true
  unfolding plan_next_action
  plan_next_action_required a e = elim (Option-cases (first (due_closures s))) [
    | inr (c, q) ↦
        let (v, h, d) = closure_source s c (first-In (due_closures s) c q) in
        ap (is_action_required s) (let p : a ≡ c = ground arith in p) ∙ closure_required v c h d
    | inl n ↦ elim (Option-cases (first_some (entry_action s.block_timestamp) (by_id s.vaults))) [
      | inr (c, q) ↦
          let (v, h, d) = first_some-some (entry_action s.block_timestamp) (by_id s.vaults) c q in
          ap (is_action_required s) (let p : a ≡ c = ground arith in p)
          ∙ entry_required v c (In-by_id s v h) d
      | inl m ↦
          let (v, h, d) = first_some-some unfinished_action (by_id s.vaults) a (ground arith) in
          unfinished_required v a (In-by_id s v h) (no_closure s v (In-by_id s v h) n) d
    ]
  ]
