-- ===== src/Keeper/Run/Safety.antt =====
-- `runOnce` (keeper/src/engine.ts): what every run keeps, whatever the gateway answers or throws.
use leopold.Prelude.{ℕ, zero, suc, ◌≡◌, refl, ◌∙◌, not, Option, none, some, List, [], ◌∷◌, arith}
use leopold.Prelude.Eq.{nat_eq, list_eq, list_beq, list_beq_iff, get-set}
use leopold.Prelude.Results.{Result, ok, err}
use leopold.Prelude.Text.{Text, to_lower_case}
use leopold.Keeper.Lifecycle.{LifecycleAction}
use leopold.Keeper.Planner.Required.{is_action_required}
use leopold.Keeper.Journal.{JournalEntry, JournalStore, put, submitted, journal_entry_for_prepared}
use leopold.Keeper.Engine.{is_unresolved, update_entry, no_options}
use leopold.Keeper.Engine.Outstanding.{put_ok}
use leopold.Keeper.Gateway.{SignedLifecycleTransaction, KeeperGateway}
use leopold.Keeper.Run.{EngineError, hash_mismatch, KeeperOptions, Broadcast, EngineState}
use leopold.Keeper.Run.Steps.{
  preflight, give_up, after_submitted, record_submitted, after_broadcast, send, to_prepare, submit,
  prepare_data, unprepared, after_preparation, act_after, act, after_outstanding, run_once, poll,
}
use leopold.Keeper.Run.Hoare.{
  Condition, Post, Hoare, bind-Hoare, call-Hoare, pure-Hoare, raise-Hoare, gets-Hoare,
  raise_if-Hoare, guard_balance-Hoare, if-Hoare, attempt-Hoare, put_entry-Hoare,
}
use leopold.Keeper.Run.Live.{Only, Clear, IsSafe, Only-IsSafe, Clear-Only, set-Only, IsPrepared}
use leopold.Keeper.Run.Reconcile.{Entails, reconcile_journal-Hoare, wait_and_reconcile-Only}

module _ {World : Type 0} (gateway : KeeperGateway World) (options : KeeperOptions) where
  kept : Entails IsSafe IsSafe
  kept j b p = p

  clear : Entails Clear IsSafe
  clear j b p = Only-IsSafe [] j b (Clear-Only [] j b p)

  preflight-IsSafe : Hoare IsSafe IsSafe (preflight gateway options) (λ balance. IsSafe)
  unfolding preflight
  preflight-IsSafe = bind-Hoare IsSafe (call-Hoare IsSafe _ kept) (λ chain_id.
      bind-Hoare IsSafe (raise_if-Hoare IsSafe _ _ kept) (λ u.
        bind-Hoare IsSafe (call-Hoare IsSafe _ kept) (λ balance.
          bind-Hoare IsSafe (guard_balance-Hoare IsSafe options balance kept)
            (λ v. pure-Hoare IsSafe _ (λ j b p. p)))))

  module _ (id : Text) where
    one : Entails (Only id) IsSafe
    one = Only-IsSafe id

    put-Only :
        (e : JournalEntry)
        → e.attempt_id ≡ id
        → (j j' : JournalStore) (b : List Broadcast) → put j e ≡ ok j'
        → Only id j b
        → Only id j' b
    put-Only e same j j' b h p = rw (put_ok j e j' h) (set-Only id j b e p same)

    give_up-IsSafe :
        (e : JournalEntry) (key : Text) (error : EngineError)
        → e.attempt_id ≡ id
        → Hoare IsSafe (Only id) (give_up gateway options e key error) (λ r. IsSafe)
    unfolding give_up update_entry
    give_up-IsSafe e key error same = bind-Hoare IsSafe (gets-Hoare IsSafe _) (λ now.
        bind-Hoare IsSafe (put_entry-Hoare IsSafe _ one (put-Only _ same))
          (λ u. pure-Hoare IsSafe _ one))

    after_submitted-IsSafe :
        (e : JournalEntry) (key hash : Text) (r : Result EngineError (Unit {0}))
        → e.attempt_id ≡ id
        → Hoare IsSafe (Only id) (after_submitted gateway options e key hash r) (λ r. IsSafe)
    after_submitted-IsSafe e key hash (err x) same = give_up-IsSafe e key x same
    after_submitted-IsSafe e key hash (ok u) same =
        bind-Hoare IsSafe (wait_and_reconcile-Only gateway options IsSafe e id one same)
          (λ final. pure-Hoare IsSafe _ one)

    self : Entails (Only id) (Only id)
    self j b p = p

    record_submitted-IsSafe :
        (e : JournalEntry) (key hash : Text)
        → e.attempt_id ≡ id
        → Hoare IsSafe (Only id) (record_submitted gateway options e key hash) (λ r. IsSafe)
    unfolding record_submitted update_entry
    record_submitted-IsSafe e key hash same = bind-Hoare IsSafe (gets-Hoare IsSafe _) (λ now.
        bind-Hoare IsSafe
          (attempt-Hoare IsSafe (Only id)
            (put_entry-Hoare (Only id) _ {Q = Only id} self (put-Only _ same)))
          (λ r. after r now))
      where
        after :
            (r : Result EngineError (Unit {0})) (now : ℕ)
            → Hoare IsSafe
                (elim r as (λ _. Condition) [ ok a ↦ Only id | err x ↦ Only id ])
                (after_submitted gateway options
                  (update_entry e submitted now no_options)
                  key
                  hash
                  r)
                (λ r. IsSafe)
        after (ok u) now = after_submitted-IsSafe _ key hash (ok u) same
        after (err x) now = after_submitted-IsSafe _ key hash (err x) same

    after_broadcast-IsSafe :
        (e : JournalEntry) (key hash : Text) (r : Result EngineError Text)
        → e.attempt_id ≡ id
        → Hoare IsSafe
            (elim r as (λ _. Condition) [ ok a ↦ Only id | err x ↦ Only id ])
            (after_broadcast gateway options e key hash r)
            (λ r. IsSafe)
    after_broadcast-IsSafe e key hash (err x) same = give_up-IsSafe e key x same
    after_broadcast-IsSafe e key hash (ok returned) same =
        if-Hoare IsSafe (not (list_beq (to_lower_case returned) (to_lower_case hash)))
          (λ c. give_up-IsSafe e key hash_mismatch same)
          (λ c. record_submitted-IsSafe e key hash same)

    -- The broadcast of a transaction whose prepared entry is in the journal.
    send-Only :
        (t : SignedLifecycleTransaction)
        → Hoare
            (Only id)
            (λ j b. IsPrepared (record { transaction = t; journal = j }) × Only id j b)
            (send gateway options t)
            (λ h. Only id)
    unfolding send
    send-Only t = record {
      holds = λ s p.
          let h = call-Hoare (Only id) (gateway.broadcast t) self in
          h.holds
            (record s {
              broadcasts = record { transaction = t; journal = s.journal } ∷ s.broadcasts;
            })
            (p.1.0, p.1.1, (p.0, p.1.2));
    }

  put-Clear :
      (action : LifecycleAction) (t : SignedLifecycleTransaction) (now : ℕ) (replay : Option Text)
      (j j' : JournalStore) (b : List Broadcast)
      → put j (journal_entry_for_prepared action (to_prepare t) now replay) ≡ ok j'
      → Clear j b
      → IsPrepared (record { transaction = t; journal = j' })
        × Only (journal_entry_for_prepared action (to_prepare t) now replay).attempt_id j' b
  put-Clear action t now replay j j' b h p =
      let e = journal_entry_for_prepared action (to_prepare t) now replay in
      let only = set-Only e.attempt_id j b e (Clear-Only e.attempt_id j b p) refl in
      rw (put_ok j e j' h) (
        record {
          entry = e;
          stored =
              get-set j e.attempt_id e.attempt_id e
              ∙ ground (arith, list_beq_iff e.attempt_id e.attempt_id);
          has_status = unfold journal_entry_for_prepared in refl;
          same_hash = unfold journal_entry_for_prepared in refl;
          same_nonce = unfold journal_entry_for_prepared in refl;
          only = only.1;
        },
        only,
      )

  submit-IsSafe :
      (action : LifecycleAction) (replay : Option Text) (calldata : Text)
      → Hoare IsSafe Clear (submit gateway options action replay calldata) (λ r. IsSafe)
  unfolding submit
  submit-IsSafe action replay calldata = bind-Hoare IsSafe (call-Hoare IsSafe _ clear) (λ t.
      bind-Hoare IsSafe (call-Hoare IsSafe _ clear) (λ balance.
        bind-Hoare IsSafe (guard_balance-Hoare IsSafe options balance clear) (λ u.
          bind-Hoare IsSafe (raise_if-Hoare IsSafe _ _ clear) (λ v.
            bind-Hoare IsSafe (gets-Hoare IsSafe _) (λ now.
              bind-Hoare IsSafe (put_entry-Hoare IsSafe _ clear (put-Clear action t now replay))
                (λ w.
                  bind-Hoare IsSafe (attempt-Hoare IsSafe (Only _) (send-Only _ t))
                    (λ r. after_broadcast-IsSafe _ _ action.key t.hash r refl)))))))

  prepare_data-Clear :
      (action : LifecycleAction)
      → Hoare Clear Clear (prepare_data gateway options action) (λ r. Clear)
  unfolding prepare_data
  prepare_data-Clear action = bind-Hoare Clear (call-Hoare Clear _ (λ j b p. p)) (λ calldata.
      bind-Hoare Clear (call-Hoare Clear _ (λ j b p. p)) (λ u. pure-Hoare Clear _ (λ j b p. p)))

  after_preparation-IsSafe :
      (action : LifecycleAction) (replay : Option Text) (r : Result EngineError Text)
      → Hoare IsSafe
          (elim r as (λ _. Condition) [ ok a ↦ Clear | err x ↦ Clear ])
          (after_preparation gateway options action replay r)
          (λ r. IsSafe)
  unfolding unprepared
  after_preparation-IsSafe action replay (ok calldata) = submit-IsSafe action replay calldata
  after_preparation-IsSafe action replay (err x) =
      bind-Hoare IsSafe (call-Hoare IsSafe _ clear) (λ snapshot.
        if-Hoare IsSafe (not (is_action_required snapshot action)) (λ c. pure-Hoare IsSafe _ clear)
          (λ c. raise-Hoare IsSafe _ clear))

  act_after-IsSafe :
      (action : LifecycleAction) (previous : Option JournalEntry)
      → Hoare IsSafe Clear (act_after gateway options action previous) (λ r. IsSafe)
  unfolding act_after
  act_after-IsSafe action none =
      bind-Hoare IsSafe (attempt-Hoare IsSafe Clear (prepare_data-Clear action))
        (after_preparation-IsSafe action none)
  act_after-IsSafe action (some previous) =
      if-Hoare IsSafe (is_unresolved previous.status) (λ c. pure-Hoare IsSafe _ clear)
        (λ c.
          bind-Hoare IsSafe (attempt-Hoare IsSafe Clear (prepare_data-Clear action))
            (after_preparation-IsSafe action (some previous.attempt_id)))

  act-IsSafe :
      (action : Option LifecycleAction)
      → Hoare IsSafe Clear (act gateway options action) (λ r. IsSafe)
  act-IsSafe none = pure-Hoare IsSafe _ clear
  act-IsSafe (some action) =
      bind-Hoare IsSafe (gets-Hoare IsSafe _) (λ entries. act_after-IsSafe action _)

  after_outstanding-IsSafe :
      (outstanding : Option JournalEntry)
      → Hoare IsSafe
          (elim outstanding as (λ _. Condition) [ none ↦ Clear | some e ↦ IsSafe ])
          (after_outstanding gateway options outstanding)
          (λ r. IsSafe)
  after_outstanding-IsSafe (some e) = pure-Hoare IsSafe _ kept
  after_outstanding-IsSafe none =
      bind-Hoare IsSafe (call-Hoare IsSafe _ clear)
        (λ snapshot. bind-Hoare IsSafe (raise_if-Hoare IsSafe _ _ clear) (λ u. act-IsSafe _))

  run_once-IsSafe : Hoare IsSafe IsSafe (run_once gateway options) (λ r. IsSafe)
  unfolding run_once
  run_once-IsSafe = bind-Hoare IsSafe preflight-IsSafe (λ balance.
      bind-Hoare IsSafe (reconcile_journal-Hoare gateway options IsSafe kept)
        after_outstanding-IsSafe)

  Post-IsSafe :
      {A : Type 0} (r : Result EngineError A) (s : EngineState World)
      → Post IsSafe (λ a. IsSafe) r s
      → IsSafe s.journal s.broadcasts
  Post-IsSafe (ok a) s p = p
  Post-IsSafe (err e) s p = p

  -- Whatever the gateway answers, throws or delays, any number of polls of an engine whose journal
  -- has at most one unresolved attempt leaves at most one, also after errors; and every transaction
  -- that was ever broadcast had its prepared entry in the journal at that moment, with its hash and
  -- nonce, and no other attempt was unresolved.
  pub poll-IsSafe :
      (interval n : ℕ) (s : EngineState World)
      → IsSafe s.journal s.broadcasts
      → IsSafe
          (poll gateway options interval n s).journal
          (poll gateway options interval n s).broadcasts
  unfolding poll
  poll-IsSafe interval zero s p = p
  poll-IsSafe interval (suc n) s p = poll-IsSafe interval n _ (
      Post-IsSafe (run_once gateway options s).0 (run_once gateway options s).1
        (run_once-IsSafe.holds s p))
