-- ===== src/Keeper/Run/Hoare.antt =====
-- Conditions on the journal and the broadcasts before and after a part of a run of the engine
-- (keeper/src/engine.ts), whatever the world does.
use leopold.Prelude.{◌≡◌, refl, Bool, true, false, inl, inr, List, if◌then◌else◌}
use leopold.Prelude.Results.{Result, ok, err, Result-cases}
use leopold.Keeper.Journal.{JournalEntry, JournalStore, put}
use leopold.Prelude.Int.{ℤ}
use leopold.Keeper.Balance.{assert_keeper_balance_within_limits}
use leopold.Keeper.Gateway.{Thrown}
use leopold.Keeper.Run.{
  KeeperOptions, EngineError, EngineState, Broadcast, Engine, call, pure, raise, gets, attempt,
  ◌>>=◌, raise_if, guard_balance, put_entry, lift, check_balance, stored,
}

abbrev pub Condition : Type 1
Condition = JournalStore → List Broadcast → Type 0

-- A returned value meets `Q`; an error leaves `I`, which holds at every point where a call may throw.
module _ {World : Type 0} (I : Condition) where
  abbrev pub Post :
      {A : Type 0} → (A → Condition) → Result EngineError A → EngineState World → Type 0
  Post Q (ok a) s = Q a s.journal s.broadcasts
  Post Q (err e) s = I s.journal s.broadcasts

  pub record Hoare {A : Type 0} (P : Condition) (m : Engine World A) (Q : A → Condition)
      : Type 0 where
    pub holds : (s : EngineState World) → P s.journal s.broadcasts → Post Q (m s).0 (m s).1

  continue :
      {A B : Type 0} (k : A → Engine World B) (Q : A → Condition) (R : B → Condition)
      (r : Result EngineError A) (s : EngineState World)
      → ((a : A) → Hoare (Q a) (k a) R)
      → Post Q r s
      → Post R
          (elim r as (λ _. Result EngineError B × EngineState World) [
            | ok a ↦ k a s
            | err e ↦ (err e, s)
          ]).0
          (elim r as (λ _. Result EngineError B × EngineState World) [
            | ok a ↦ k a s
            | err e ↦ (err e, s)
          ]).1
  continue k Q R (ok a) s h q = let x = h a in x.holds s q
  continue k Q R (err e) s h q = q

  pub bind-Hoare :
      {A B : Type 0} {P : Condition} {Q : A → Condition} {R : B → Condition} {m : Engine World A}
      {k : A → Engine World B}
      → Hoare P m Q
      → ((a : A) → Hoare (Q a) (k a) R)
      → Hoare P (m >>= k) R
  unfolding ◌>>=◌
  bind-Hoare {Q = Q} {R = R} {m = m} {k = k} h g = record {
    holds = λ s p. continue k Q R (m s).0 (m s).1 g (h.holds s p);
  }

  -- A call of the gateway changes the world only.
  pub call-Hoare :
      {A : Type 0} (f : World → Result Thrown A × World) {P : Condition}
      → ((j : JournalStore) (b : List Broadcast) → P j b → I j b)
      → Hoare P (call f) (λ a. P)
  unfolding call lift
  call-Hoare f {P = P} safe = record {
    holds = λ s p. elim (Result-cases (f s.world).0) [
      | inl (e, h) ↦ rw h (safe s.journal s.broadcasts p)
      | inr (a, h) ↦ rw h p
    ];
  }

  pub pure-Hoare :
      {A : Type 0} (a : A) {P : Condition} {Q : A → Condition}
      → ((j : JournalStore) (b : List Broadcast) → P j b → Q a j b)
      → Hoare P (pure a) Q
  unfolding pure
  pure-Hoare a h = record { holds = λ s p. h s.journal s.broadcasts p }

  pub raise-Hoare :
      {A : Type 0} (e : EngineError) {P : Condition} {Q : A → Condition}
      → ((j : JournalStore) (b : List Broadcast) → P j b → I j b)
      → Hoare P (raise e) Q
  unfolding raise
  raise-Hoare e h = record { holds = λ s p. h s.journal s.broadcasts p }

  pub gets-Hoare :
      {A : Type 0} {P : Condition} (f : EngineState World → A) → Hoare P (gets f) (λ a. P)
  unfolding gets
  gets-Hoare f = record { holds = λ s p. p }

  pub raise_if-Hoare :
      (b : Bool) (e : EngineError) {P : Condition}
      → ((j : JournalStore) (b : List Broadcast) → P j b → I j b)
      → Hoare P (raise_if b e) (λ u. P)
  unfolding raise_if
  raise_if-Hoare true e h = raise-Hoare e h
  raise_if-Hoare false e h = pure-Hoare tt (λ j b p. p)

  pub guard_balance-Hoare :
      (options : KeeperOptions) (balance : ℤ) {P : Condition}
      → ((j : JournalStore) (b : List Broadcast) → P j b → I j b)
      → Hoare P (guard_balance options balance) (λ u. P)
  unfolding guard_balance check_balance pure raise
  guard_balance-Hoare options balance h =
      elim (Result-cases (
        assert_keeper_balance_within_limits balance options.minimum_balance_wei
          options.maximum_balance_wei)) [
            | inl (e, q) ↦ record { holds = λ s p. rw q (h s.journal s.broadcasts p) }
            | inr (a, q) ↦ record { holds = λ s p. rw q p }
          ]

  pub if-Hoare :
      {A : Type 0} (b : Bool) {P : Condition} {m n : Engine World A} {Q : A → Condition}
      → (b ≡ true → Hoare P m Q)
      → (b ≡ false → Hoare P n Q)
      → Hoare P (if b then m else n) Q
  if-Hoare true h g = h refl
  if-Hoare false h g = g refl

  pub weaken-Hoare :
      {A : Type 0} {P P' : Condition} {m : Engine World A} {Q Q' : A → Condition}
      → ((j : JournalStore) (b : List Broadcast) → P' j b → P j b)
      → ((a : A) (j : JournalStore) (b : List Broadcast) → Q a j b → Q' a j b)
      → Hoare P m Q
      → Hoare P' m Q'
  weaken-Hoare {A = A} {m = m} {Q = Q} {Q' = Q'} before after h = record {
    holds = λ s p. weakened (m s).0 (m s).1 (h.holds s (before s.journal s.broadcasts p));
  }
    where
      weakened : (r : Result EngineError A) (s : EngineState World) → Post Q r s → Post Q' r s
      weakened (ok a) s q = after a s.journal s.broadcasts q
      weakened (err e) s q = q

  -- A put that the journal refuses changes nothing.
  pub put_entry-Hoare :
      (entry : JournalEntry) {P : Condition} {Q : Condition}
      → ((j : JournalStore) (b : List Broadcast) → P j b → I j b)
      → ((j j' : JournalStore) (b : List Broadcast) → put j entry ≡ ok j' → P j b → Q j' b)
      → Hoare P (put_entry entry) (λ u. Q)
  unfolding put_entry stored
  put_entry-Hoare entry {P = P} {Q = Q} safe step = record {
    holds = λ s p. elim (Result-cases (put s.journal entry)) [
      | inl (e, q) ↦ rw q (safe s.journal s.broadcasts p)
      | inr (j, q) ↦ rw q (step s.journal j s.broadcasts q p)
    ];
  }

  -- A fact of the precondition, in hand.
  pub given-Hoare :
      {A : Type 0} {F : Type 0} {P : Condition} {m : Engine World A} {Q : A → Condition}
      → (F → Hoare P m Q)
      → Hoare (λ j b. F × P j b) m Q
  given-Hoare h = record { holds = λ s p. let x = h p.0 in x.holds s p.1 }

-- A caught error meets the condition that the part keeps where it throws.
module _ {World : Type 0} (I J : Condition) where
  pub attempt-Hoare :
      {A : Type 0} {P : Condition} {m : Engine World A} {Q : A → Condition}
      → Hoare J P m Q
      → Hoare I P (attempt m) (λ r. elim r as (λ _. Condition) [ ok a ↦ Q a | err e ↦ J ])
  unfolding attempt
  attempt-Hoare {A = A} {P = P} {m = m} {Q = Q} h = record {
    holds = λ s p. caught (m s).0 (m s).1 (h.holds s p);
  }
    where
      caught :
          (r : Result EngineError A) (s : EngineState World)
          → Post J Q r s
          → (elim r as (λ _. Condition) [ ok a ↦ Q a | err e ↦ J ]) s.journal s.broadcasts
      caught (ok a) s q = q
      caught (err e) s q = q
