-- ===== src/Reference/Twab/Search.antt =====
-- `interpolate` of `TwabReferenceModel` (reference/leopoldModels.ts) against a walk along the list.
use leopold.Prelude.{
  ℕ, zero, suc, ◌+◌, ◌-◌, ◌/◌, ◌≤◌, ◌<◌, ◌≡◌, refl, sym, ap, subst, inl, inr, false, some, List, [],
  ◌∷◌, arith, ltb, if◌then◌else◌, Bool-cases,
}
use leopold.Prelude.Int.{ℤ, pos, ◌≤ℤ◌, ◌<ℤ◌, ltb_ℤ, leb_ℤ}
use leopold.Prelude.Lists.{length, get_elem?, get_elem?-some, get_elem?_end}
use leopold.Prelude.Results.{ok}
use leopold.Reference.Twab.{Checkpoint}
use leopold.Reference.Twab.Interpolate.{search_loop, value_at, read, interpolate}

-- Timestamps grow strictly.
abbrev pub After : Checkpoint → List Checkpoint → Type 0
After c [] = Unit {0}
After c (d ∷ ds) = (c.timestamp <ℤ d.timestamp) × After d ds

abbrev pub Chronological : List Checkpoint → Type 0
Chronological [] = Unit {0}
Chronological (c ∷ cs) = After c cs

-- The last checkpoint that is not later than the timestamp.
unfoldable pub latest : Checkpoint → List Checkpoint → ℤ → Checkpoint
latest c [] t = c
latest c (d ∷ ds) t = let rest = latest d ds t in if ltb_ℤ t d.timestamp then c else rest

-- The cumulative balance-time at a timestamp, by walking along the checkpoints.
unfoldable pub walk : List Checkpoint → ℤ → ℤ
unfolding latest
walk [] t = pos 0
walk (c ∷ cs) t = if ltb_ℤ t c.timestamp then pos 0 else value_at (latest c cs t) t

abbrev Reached : List Checkpoint → ℤ → ℕ → Type 0
Reached cs t i = (c : Checkpoint) × (get_elem? cs i ≡ some c) × (c.timestamp ≤ℤ t)

abbrev Passed : List Checkpoint → ℤ → ℕ → Type 0
Passed cs t i = (d : Checkpoint) → get_elem? cs i ≡ some d → t <ℤ d.timestamp

-- With fuel for the width of the range, the loop ends at an index that is reached, whose
-- successor is not.
search_loop_lem :
    (fuel : ℕ) (cs : List Checkpoint) (t : ℤ) (low high : ℕ)
    → high - low ≤ fuel
    → low < high
    → high ≤ length cs
    → Reached cs t low
    → Passed cs t high
    → (i : ℕ) × (search_loop fuel cs t low high ≡ ok i) × Reached cs t i × Passed cs t (suc i)
unfolding search_loop
search_loop_lem zero cs t low high f lt le r p = absurd (omega arith)
search_loop_lem (suc fuel) cs t low high f lt le r p = elim (Bool-cases (ltb (low + 1) high)) [
  | inr last ↦ (low, rw last, r, subst (Passed cs t) (let e : high ≡ suc low = ground arith in e) p)
  | inl wide ↦
      let middle = low + (high - low) / 2 in
      let (c, e) = get_elem?-some cs middle (ground arith) in
      elim (Bool-cases (leb_ℤ c.timestamp t)) [
        | inl up ↦
            let (i, q, s, n) =
              search_loop_lem fuel cs t middle high (ground arith) (ground arith) le
                (c, e, ground arith) p in
            (i, rw (wide, e) (rw up q), s, n)
        | inr down ↦
            let (i, q, s, n) =
              search_loop_lem fuel cs t low middle (ground arith) (ground arith) (ground arith) r
                (λ d x. ground arith) in
            (i, rw (wide, e) (rw down q), s, n)
      ]
]

head-le :
    (c : Checkpoint) (cs : List Checkpoint) (i : ℕ) (o : Checkpoint)
    → After c cs
    → get_elem? (c ∷ cs) i ≡ some o
    → c.timestamp ≤ℤ o.timestamp
head-le c cs zero o a e = ground arith
head-le c [] (suc i) o a e = cc
head-le c (d ∷ ds) (suc i) o a e = omega (arith, head-le d ds i o a.1 e, a.0)

latest_unique :
    (c : Checkpoint) (cs : List Checkpoint) (t : ℤ) (i : ℕ) (o : Checkpoint)
    → After c cs
    → get_elem? (c ∷ cs) i ≡ some o
    → o.timestamp ≤ℤ t
    → Passed (c ∷ cs) t (suc i)
    → latest c cs t ≡ o
unfolding latest
latest_unique c [] t zero o a e le p = cc
latest_unique c [] t (suc i) o a e le p = cc
latest_unique c (d ∷ ds) t zero o a e le p = ground (arith, p d refl)
latest_unique c (d ∷ ds) t (suc i) o a e le p =
    ground (arith, head-le d ds i o a.1 e, latest_unique d ds t i o a.1 e le p)

interpolate_found :
    (c : Checkpoint) (cs : List Checkpoint) (t : ℤ) (i : ℕ) (o : Checkpoint)
    → ltb_ℤ t c.timestamp ≡ false
    → search_loop (length (c ∷ cs)) (c ∷ cs) t 0 (length (c ∷ cs)) ≡ ok i
    → get_elem? (c ∷ cs) i ≡ some o
    → latest c cs t ≡ o
    → interpolate (c ∷ cs) t ≡ ok (walk (c ∷ cs) t)
unfolding interpolate walk
interpolate_found c cs t i o from q e l =
    rw from (rw q (rw (e, read) (ap (λ v. ok (value_at v t)) (sym l))))

-- On checkpoints in chronological order `interpolate` returns, without an access out of bounds,
-- the value that a walk along the list finds.
pub interpolate-eq-walk :
    (cs : List Checkpoint) (t : ℤ) → Chronological cs → interpolate cs t ≡ ok (walk cs t)
unfolding interpolate walk
interpolate-eq-walk [] t h = refl
interpolate-eq-walk (c ∷ cs) t h = elim (Bool-cases (ltb_ℤ t c.timestamp)) [
  | inl before ↦ rw before
  | inr from ↦
      let (i, q, (o, e, le), p) =
        search_loop_lem (length (c ∷ cs)) (c ∷ cs) t 0 (length (c ∷ cs)) (omega arith) (omega arith)
          (omega arith) (c, refl, ground arith) (λ d x. cc (get_elem?_end (c ∷ cs))) in
      interpolate_found c cs t i o from q e (latest_unique c cs t i o h e le p)
]
