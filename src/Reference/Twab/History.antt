-- ===== src/Reference/Twab/History.antt =====
-- The checkpoints of `TwabReferenceModel` (reference/leopoldModels.ts) against the balance actions
-- that were written to them.
use leopold.Prelude.{◌≡◌, refl, ap, ◌∙◌, List, [], ◌∷◌, arith, if◌then◌else◌, Bool-cases, inl, inr}
use leopold.Prelude.Int.{ℤ, pos, ◌+ℤ◌, ◌-ℤ◌, ◌*ℤ◌, ◌≤ℤ◌, ltb_ℤ, int_laws, parts_of_eq, add_mul}
use leopold.Reference.Twab.{BalanceAction, Checkpoint, last, balance_of}
use leopold.Reference.Twab.Interpolate.{value_at}
use leopold.Reference.Twab.Search.{Chronological, walk}
use leopold.Reference.Twab.Writes.{Extends, Until, walk-linear}

-- The sum of a quantity over the actions, newest first.
unfoldable pub measure : (BalanceAction → ℤ) → List BalanceAction → ℤ
measure f [] = pos 0
measure f (a ∷ hist) = f a +ℤ measure f hist

abbrev pub net : List BalanceAction → ℤ
net = measure (λ a. a.delta)

-- What one action adds to the balance-time that has passed at `t`.
abbrev pub share : ℤ → BalanceAction → ℤ
share t a = if ltb_ℤ t a.timestamp then pos 0 else a.delta *ℤ (t -ℤ a.timestamp)

-- The exact integral of the balance over time.
abbrev pub integral : List BalanceAction → ℤ → ℤ
integral hist t = measure (share t) hist

-- The checkpoints are the exact record of the actions.
pub record Represents (cs : List Checkpoint) (hist : List BalanceAction) : Type 0 where
  pub ordered : Chronological cs
  pub holds : balance_of (last cs) ≡ net hist
  pub exact : (t : ℤ) → walk cs t ≡ integral hist t

pub empty-Represents : Represents [] []
unfolding last walk measure
empty-Represents = record { ordered = tt; holds = refl; exact = λ t. refl }

module _ (cs cs' : List Checkpoint) (hist : List BalanceAction) (a : BalanceAction) (b : ℤ)
    (r : Represents cs hist) (until : Until cs a.timestamp)
    (x : Extends cs
      (record { timestamp = a.timestamp; balance = b; cumulative = walk cs a.timestamp })
      cs')
    (e : b ≡ balance_of (last cs) +ℤ a.delta) where
  exact_after :
      (t : ℤ)
      → a.timestamp ≤ℤ t
      → value_at
          (record { timestamp = a.timestamp; balance = b; cumulative = walk cs a.timestamp })
          t
        ≡ a.delta *ℤ (t -ℤ a.timestamp) +ℤ integral hist t
  exact_after t le = omega (
    int_laws,
    parts_of_eq _ _ (r.exact t),
    parts_of_eq _ _ (walk-linear cs a.timestamp t r.ordered until le),
    parts_of_eq _ _ (ap (λ z. z *ℤ (t -ℤ a.timestamp)) e),
    parts_of_eq _ _ (add_mul (balance_of (last cs)) a.delta (t -ℤ a.timestamp)),
  )

  pub write-Represents : Represents cs' (a ∷ hist)
  unfolding measure
  write-Represents = record {
    ordered = x.ordered;
    holds = rw (x.newest) (omega (int_laws, parts_of_eq _ _ e, parts_of_eq _ _ r.holds));
    exact = λ t. x.walks t ∙ (elim (Bool-cases (ltb_ℤ t a.timestamp)) [
      | inl before ↦ rw before (r.exact t ∙ omega int_laws)
      | inr from ↦ rw from (exact_after t (ground arith))
    ]);
  }
