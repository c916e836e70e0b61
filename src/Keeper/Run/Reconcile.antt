-- ===== src/Keeper/Run/Reconcile.antt =====
-- `#reconcileEntry`, `#reconcileOutstanding` and `#waitAndReconcile` (keeper/src/engine.ts) in a run:
-- what they leave in the journal.
use leopold.Prelude.{
  ℕ, zero, suc, ◌≡◌, refl, ◌∙◌, inl, inr, Bool, true, false, not, Option, none, some, List, [], ◌∷◌,
  arith, Bool-cases, leb,
}
use leopold.Prelude.Eq.{nat_eq, list_eq}
use leopold.Prelude.Search.{In, keep, In-keep, keep-In}
use leopold.Prelude.Results.{ok}
use leopold.Prelude.Text.{Text}
use leopold.Keeper.Lifecycle.{ProtocolSnapshot}
use leopold.Keeper.Journal.{JournalEntry, JournalStore, put}
use leopold.Keeper.Engine.{
  is_unresolved, is_closed, Observation, TransactionReceipt, reconcile_entry, values,
}
use leopold.Keeper.Engine.Outstanding.{
  Covered, set-Covered, attempt_id-reconcile, put_ok, In-values,
}
use leopold.Keeper.Gateway.{KeeperGateway}
use leopold.Keeper.Run.{KeeperOptions, Broadcast, gets, ◌>>=◌}
use leopold.Keeper.Run.Steps.{
  is_waiting, nonces, observe_transaction, observe_receipt, observe, settle, reconcile,
  reconcile_all, reconcile_journal, pause, wait_until, wait_and_reconcile,
}
use leopold.Keeper.Run.Hoare.{
  Condition, Hoare, bind-Hoare, call-Hoare, pure-Hoare, raise-Hoare, gets-Hoare, if-Hoare,
  weaken-Hoare, given-Hoare, put_entry-Hoare,
}
use leopold.Keeper.Run.Live.{IsMap-IsKeyed, get-values, Only, Clear, IsSafe, Only-IsSafe, set-Only}

-- `J` implies `I` at every point.
abbrev pub Entails : Condition → Condition → Type 0
Entails P I = (j : JournalStore) (b : List Broadcast) → P j b → I j b

module _ {World : Type 0} (gateway : KeeperGateway World) (options : KeeperOptions)
    (I : Condition) where
  module _ (P : Condition) (safe : Entails P I) where
    nonces-Hoare : (b : Bool) → Hoare I P (nonces gateway options b) (λ n. P)
    unfolding nonces
    nonces-Hoare false = pure-Hoare I _ (λ j b p. p)
    nonces-Hoare true =
        bind-Hoare I (call-Hoare I _ safe)
          (λ a. bind-Hoare I (call-Hoare I _ safe) (λ b. pure-Hoare I _ (λ j b p. p)))

    observe_transaction-Hoare :
        (e : JournalEntry) (s : ProtocolSnapshot)
        → Hoare I P (observe_transaction gateway options e s) (λ o. P)
    unfolding observe_transaction
    observe_transaction-Hoare e s = bind-Hoare I (call-Hoare I _ safe) (λ found.
        bind-Hoare I (gets-Hoare I _) (λ checked.
          bind-Hoare I (nonces-Hoare _)
            (λ counts. bind-Hoare I (gets-Hoare I _) (λ now. pure-Hoare I _ (λ j b p. p)))))

    observe_receipt-Hoare :
        (e : JournalEntry) (s : ProtocolSnapshot) (r : Option TransactionReceipt)
        → Hoare I P (observe_receipt gateway options e s r) (λ o. P)
    observe_receipt-Hoare e s none =
        if-Hoare I (is_closed e.status)
          (λ c. bind-Hoare I (gets-Hoare I _) (λ now. pure-Hoare I _ (λ j b p. p)))
          (λ c. observe_transaction-Hoare e s)
    observe_receipt-Hoare e s (some r) =
        bind-Hoare I (gets-Hoare I _) (λ now. pure-Hoare I _ (λ j b p. p))

    observe-Hoare : (e : JournalEntry) → Hoare I P (observe gateway options e) (λ o. P)
    unfolding observe
    observe-Hoare e =
        bind-Hoare I (call-Hoare I _ safe)
          (λ receipt. bind-Hoare I (call-Hoare I _ safe) (λ s. observe_receipt-Hoare e s receipt))

    -- From what the decision says of a kept and of a changed entry.
    pub reconcile-Hoare :
        (entry : JournalEntry) (Q : JournalEntry → Condition)
        → ((o : Observation) (j : JournalStore) (b : List Broadcast)
            → reconcile_entry options.reconciling o entry ≡ none
            → P j b
            → Q entry j b)
        → ((o : Observation) (r : JournalEntry) (j j' : JournalStore) (b : List Broadcast)
            → reconcile_entry options.reconciling o entry ≡ some r
            → put j r ≡ ok j'
            → P j b
            → Q r j' b)
        → Hoare I P (reconcile gateway options entry) Q
    unfolding reconcile
    reconcile-Hoare entry Q stay step =
        bind-Hoare I (observe-Hoare entry)
          (λ o. settled o (reconcile_entry options.reconciling o entry) refl)
      where
        settled :
            (o : Observation) (d : Option JournalEntry)
            → reconcile_entry options.reconciling o entry ≡ d
            → Hoare I P (settle gateway options entry d) Q
        settled o none e = pure-Hoare I _ (λ j b p. stay o j b e p)
        settled o (some r) e =
            bind-Hoare I {Q = λ u. Q r}
              (put_entry-Hoare I r safe (λ j j' b h p. step o r j j' b e h p))
              (λ u. pure-Hoare I _ (λ j b p. p))

  -- An entry of the one live attempt stays of that attempt.
  pub reconcile-Only :
      (entry : JournalEntry) (id : Text)
      → Entails (Only id) I
      → entry.attempt_id ≡ id
      → Hoare I
          (Only id)
          (reconcile gateway options entry)
          (λ r j b. (r.attempt_id ≡ id) × Only id j b)
  reconcile-Only entry id safe same =
      reconcile-Hoare (Only id) safe entry _ (λ o j b e p. (same, p))
        (λ o r j j' b e h p.
          let q = attempt_id-reconcile options.reconciling o entry r e ∙ same in
          (q, rw (put_ok j r j' h) (set-Only id j b r p q)))

  -- The loop over the unresolved entries, which are all of one attempt.
  reconcile_all-Hoare :
      (entries : List JournalEntry) (id : Text)
      → Entails (Only id) I
      → ((x : JournalEntry) → In x entries → (is_unresolved x.status ≡ true) × (x.attempt_id ≡ id))
      → Hoare I
          (λ j b. Only id j b × Covered j entries)
          (reconcile_all gateway options entries)
          (λ r. elim r [ none ↦ Clear | some e ↦ Only id ])
  unfolding reconcile_all
  reconcile_all-Hoare [] id safe live = pure-Hoare I _ (λ j b p.
      (p.0.0, (λ k e g. elim (p.1 k e g) [ inl h ↦ h | inr (x, i, q) ↦ absurd i ]), p.0.2))
  reconcile_all-Hoare (x ∷ xs) id safe live =
      bind-Hoare I {Q = λ r j b. Only id j b × (is_unresolved r.status ≡ false → Covered j xs)}
        (reconcile-Hoare (λ j b. Only id j b × Covered j (x ∷ xs)) (λ j b p. safe j b p.0) x _
          (λ o j b e p. (p.0, λ h. absurd (ground (arith, h, live x (inl refl)))))
          (λ o r j j' b e h p.
            let q = attempt_id-reconcile options.reconciling o x r e in
            rw (put_ok j r j' h) (
              set-Only id j b r p.0 (q ∙ (live x (inl refl)).1),
              λ u. set-Covered j x r xs (IsMap-IsKeyed j p.0.0) p.1 q u,
            )))
        (λ r.
          if-Hoare I (is_unresolved r.status) (λ e. pure-Hoare I _ (λ j b p. p.0))
            (λ e.
              weaken-Hoare I (λ j b p. (p.0, p.1 e)) (λ a j b q. q)
                (reconcile_all-Hoare xs id safe (λ y i. live y (inr i)))))

  settled-IsSafe :
      (id : Text) (a : Option JournalEntry) (j : JournalStore) (b : List Broadcast)
      → (elim a as (λ _. Condition) [ none ↦ Clear | some e ↦ Only id ]) j b
      → (elim a as (λ _. Condition) [ none ↦ Clear | some e ↦ IsSafe ]) j b
  settled-IsSafe id none j b h = h
  settled-IsSafe id (some e) j b h = Only-IsSafe id j b h

  unresolved-live :
      (j : JournalStore) (b : List Broadcast) (p : IsSafe j b) (x : JournalEntry)
      → In x (keep (λ e. is_unresolved e.status) (values j))
      → (is_unresolved x.status ≡ true) × (x.attempt_id ≡ p.live_id)
  unresolved-live j b p x i =
      let (within, live) = keep-In _ (values j) x i in
      (live, p.only_live x.attempt_id x (get-values j x p.is_map within) live)

  unresolved-Covered :
      (j : JournalStore) → Covered j (keep (λ e. is_unresolved e.status) (values j))
  unresolved-Covered j k e g = elim (Bool-cases (is_unresolved e.status)) [
    | inl live ↦ inr (e, In-keep _ (values j) e (In-values j k e g) live, refl)
    | inr resolved ↦ inl resolved
  ]

  -- From a safe journal, the engine goes on only with every entry resolved.
  pub reconcile_journal-Hoare :
      Entails IsSafe I
      → Hoare I IsSafe
          (reconcile_journal gateway options)
          (λ r. elim r [ none ↦ Clear | some e ↦ IsSafe ])
  unfolding reconcile_journal ◌>>=◌ gets
  reconcile_journal-Hoare safe = record {
    holds = λ s p.
        let h =
          weaken-Hoare I (λ j b q. q) (settled-IsSafe p.live_id)
            (reconcile_all-Hoare (keep (λ e. is_unresolved e.status) (values s.journal)) p.live_id
              (λ j b q. safe j b (Only-IsSafe p.live_id j b q))
              (unresolved-live s.journal s.broadcasts p)) in
        h.holds s ((p.is_map, p.only_live, p.all_prepared), unresolved-Covered s.journal);
  }

  pause-Hoare : {P : Condition} → Hoare I P (pause gateway options) (λ u. P)
  unfolding pause
  pause-Hoare = record { holds = λ s p. p }

  wait_until-Only :
      (fuel deadline : ℕ) (entry : JournalEntry) (id : Text)
      → Entails (Only id) I
      → entry.attempt_id ≡ id
      → Hoare I (Only id) (wait_until gateway options fuel deadline entry) (λ r. Only id)
  unfolding wait_until
  wait_until-Only zero deadline entry id safe same = raise-Hoare I _ safe
  wait_until-Only (suc fuel) deadline entry id safe same =
      bind-Hoare I (reconcile-Only entry id safe same) (λ current. given-Hoare I (λ still.
        if-Hoare I (not (is_waiting current.status)) (λ c. pure-Hoare I _ (λ j b p. p))
          (λ c. bind-Hoare I (gets-Hoare I _) (λ now.
            if-Hoare I (leb deadline now) (λ c. pure-Hoare I _ (λ j b p. p))
              (λ c.
                bind-Hoare I pause-Hoare
                  (λ u. wait_until-Only fuel deadline current id safe still))))))

  pub wait_and_reconcile-Only :
      (entry : JournalEntry) (id : Text)
      → Entails (Only id) I
      → entry.attempt_id ≡ id
      → Hoare I (Only id) (wait_and_reconcile gateway options entry) (λ r. Only id)
  unfolding wait_and_reconcile
  wait_and_reconcile-Only entry id safe same =
      bind-Hoare I (gets-Hoare I _) (λ now. wait_until-Only _ _ entry id safe same)
