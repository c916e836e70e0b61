-- ===== src/Prelude/Search.antt =====
-- `find`, `filter`, a loop that returns its first hit, and a stable sort, with what they keep.
use mathlib.Core.Path.{◌≡◌, refl}
use mathlib.Core.Logic.{◌⊎◌, inl, inr}
use mathlib.Core.Bool.{Bool, true, false}
use mathlib.Core.Option.{Option, none, some}
use mathlib.Core.List.{List, [], ◌∷◌}
use native.Mathlib.Omega.{arith}
use leopold.Prelude.Tests.{if◌then◌else◌, Bool-cases, Option-cases}

module _ {A : Type 0} where
  abbrev pub In : A → List A → Type 0
  In x [] = ⊥
  In x (y ∷ ys) = (x ≡ y) ⊎ In x ys

  unfoldable pub find : (A → Bool) → List A → Option A
  find p [] = none
  find p (x ∷ xs) = let rest = find p xs in if p x then some x else rest

  unfoldable pub keep : (A → Bool) → List A → List A
  keep p [] = []
  keep p (x ∷ xs) = let rest = keep p xs in if p x then x ∷ rest else rest

  -- A loop over the list that returns from the first item with a result.
  unfoldable pub first_some : {B : Type 0} → (A → Option B) → List A → Option B
  first_some f [] = none
  first_some f (x ∷ xs) = let rest = first_some f xs in elim (f x) [ some b ↦ some b | none ↦ rest ]

  -- `sort` is stable: an item goes before the first one that does not come before it.
  unfoldable pub insert : (A → A → Bool) → A → List A → List A
  insert before x [] = x ∷ []
  insert before x (y ∷ ys) =
      let rest = insert before x ys in if before y x then y ∷ rest else x ∷ y ∷ ys

  unfoldable pub sort_by : (A → A → Bool) → List A → List A
  sort_by before [] = []
  sort_by before (x ∷ xs) = insert before x (sort_by before xs)

  abbrev pub first : List A → Option A
  first [] = none
  first (x ∷ xs) = some x

module _ {A : Type 0} where
  pub find-some : (p : A → Bool) (xs : List A) (x : A) → find p xs ≡ some x → In x xs × (p x ≡ true)
  unfolding find
  find-some p [] x e = cc
  find-some p (y ∷ ys) x e = elim (Bool-cases (p y)) [
    | inl h ↦ ground arith
    | inr n ↦ ground (arith, find-some p ys x)
  ]

  pub find-none : (p : A → Bool) (xs : List A) (x : A) → find p xs ≡ none → In x xs → p x ≡ false
  unfolding find
  find-none p [] x e h = absurd h
  find-none p (y ∷ ys) x e h = ground (arith, find-none p ys x)

  pub keep-In : (p : A → Bool) (xs : List A) (x : A) → In x (keep p xs) → In x xs × (p x ≡ true)
  unfolding keep
  keep-In p [] x h = absurd h
  keep-In p (y ∷ ys) x h = elim (Bool-cases (p y)) [
    | inl t ↦ ground (arith, keep-In p ys x)
    | inr n ↦ ground (arith, keep-In p ys x)
  ]

  pub In-keep : (p : A → Bool) (xs : List A) (x : A) → In x xs → p x ≡ true → In x (keep p xs)
  unfolding keep
  In-keep p [] x h t = absurd h
  In-keep p (y ∷ ys) x h t = ground (arith, In-keep p ys x)

  pub first_some-some :
      {B : Type 0} (f : A → Option B) (xs : List A) (b : B)
      → first_some f xs ≡ some b
      → (x : A) × In x xs × (f x ≡ some b)
  unfolding first_some
  first_some-some f [] b e = cc
  first_some-some f (y ∷ ys) b e = elim (Option-cases (f y)) [
    | inl n ↦ let (x, h, q) = first_some-some f ys b (ground arith) in (x, inr h, q)
    | inr (c, q) ↦ (y, inl refl, ground arith)
  ]

  pub first_some-none :
      {B : Type 0} (f : A → Option B) (xs : List A) (x : A)
      → first_some f xs ≡ none
      → In x xs
      → f x ≡ none
  unfolding first_some
  first_some-none f [] x e h = absurd h
  first_some-none f (y ∷ ys) x e h = ground (arith, first_some-none f ys x)

module _ {A : Type 0} (before : A → A → Bool) where
  In-insert : (x : A) (ys : List A) (z : A) → In z (insert before x ys) → (z ≡ x) ⊎ In z ys
  unfolding insert
  In-insert x [] z h = h
  In-insert x (y ∷ ys) z h = ground (arith, In-insert x ys z)

  insert-In : (x : A) (ys : List A) (z : A) → (z ≡ x) ⊎ In z ys → In z (insert before x ys)
  unfolding insert
  insert-In x [] z h = h
  insert-In x (y ∷ ys) z h = ground (arith, insert-In x ys z)

  pub In-sort_by : (xs : List A) (z : A) → In z (sort_by before xs) → In z xs
  unfolding sort_by
  In-sort_by [] z h = h
  In-sort_by (x ∷ xs) z h = ground (arith, In-insert x (sort_by before xs) z, In-sort_by xs z)

  pub sort_by-In : (xs : List A) (z : A) → In z xs → In z (sort_by before xs)
  unfolding sort_by
  sort_by-In [] z h = h
  sort_by-In (x ∷ xs) z h = insert-In x (sort_by before xs) z (ground (arith, sort_by-In xs z))

  module _ (asym : (x y : A) → before x y ≡ true → before y x ≡ false)
      (trans : (x y z : A) → before x y ≡ false → before y z ≡ false → before x z ≡ false) where
    first-insert :
        (x : A) (ys : List A)
        → ((m : A) → first ys ≡ some m → (z : A) → In z ys → before z m ≡ false)
        → (m : A) → first (insert before x ys) ≡ some m
        → (z : A) → (z ≡ x) ⊎ In z ys
        → before z m ≡ false
    unfolding insert
    first-insert x [] least m e z h = ground (arith, asym x x)
    first-insert x (y ∷ ys) least m e z h =
        ground (arith, asym x x, asym y x, least y refl z, trans z y x)

    -- The first item of a sorted list has nothing before it.
    pub first-sort_by :
        (xs : List A) (m : A)
        → first (sort_by before xs) ≡ some m
        → (z : A) → In z xs
        → before z m ≡ false
    unfolding sort_by
    first-sort_by [] m e z h = absurd h
    first-sort_by (x ∷ xs) m e z h =
        first-insert x (sort_by before xs)
          (λ m' e' z' h'. first-sort_by xs m' e' z' (In-sort_by xs z' h')) m e z
          (ground (arith, sort_by-In xs z))
