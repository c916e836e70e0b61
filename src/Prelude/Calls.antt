-- ===== src/Prelude/Calls.antt =====
-- Asynchronous code: each call may change the world behind it, and may throw.
use mathlib.Core.Path.{◌≡◌, refl, ap, subst}
use mathlib.Core.Bool.{Bool, true, false}
use leopold.Prelude.Tests.{if◌then◌else◌}
use native.Mathlib.Omega.{arith}
use leopold.Prelude.Results.{Result, ok, err}

abbrev pub Calls : Type 0 → Type 0 → Type 0 → Type 0
Calls E World A = World → Result E A × World

module _ {E World A : Type 0} where
  unfoldable pub done : A → Calls E World A
  done a w = (ok a, w)

  -- A check that has been made.
  unfoldable pub checked : Result E A → Calls E World A
  checked r w = (r, w)

infixl 5 ◌>>=◌ ◌>>◌
unfoldable pub ◌>>=◌ :
    {E World A B : Type 0} → Calls E World A → (A → Calls E World B) → Calls E World B
◌>>=◌ m k w = elim (m w).0 [ ok a ↦ k a (m w).1 | err e ↦ (err e, (m w).1) ]

abbrev pub ◌>>◌ : {E World A B : Type 0} → Calls E World A → Calls E World B → Calls E World B
m >> k = m >>= λ _. k

-- Whatever value the calls give, begun in a world, has a property together with the world that
-- they leave.
pub record Gives {E World A : Type 0} (P : A → World → Type 0) (w : World) (m : Calls E World A)
    : Type 0 where
  pub holds : (a : A) → (m w).0 ≡ ok a → P a (m w).1

module _ {E World A B : Type 0} {P : B → World → Type 0} where
  gives_from :
      (k : A → Calls E World B) (r : Result E A) (v : World)
      → ((a : A) → r ≡ ok a → Gives P v (k a))
      → let n = elim r as (λ _. Result E B × World) [ ok a ↦ k a v | err e ↦ (err e, v) ] in
        (b : B) → n.0 ≡ ok b → P b n.1
  gives_from k (ok a) v f b p = let rest = f a refl in rest.holds b p
  gives_from k (err e) v f b p = absurd (ground (arith, p))

  pub bind-Gives :
      {Q : A → World → Type 0} {w : World} {m : Calls E World A} {k : A → Calls E World B}
      → Gives Q w m
      → ((a : A) (v : World) → Q a v → Gives P v (k a))
      → Gives P w (m >>= k)
  unfolding ◌>>=◌
  bind-Gives {w = w} {m = m} {k = k} h f = record {
    holds = gives_from k (m w).0 (m w).1 (λ a q. f a (m w).1 (h.holds a q));
  }

module _ {E World A : Type 0} {P : A → World → Type 0} (w : World) where
  pub done-Gives : (a : A) → P a w → Gives {E = E} P w (done a)
  unfolding done
  done-Gives a h = record { holds = λ b p. subst (λ c. P c w) (ground (arith, p)) h }

pub if-Gives :
    {E World A : Type 0} {P : A → World → Type 0} {w : World} (b : Bool) {m n : Calls E World A}
    → (b ≡ true → Gives P w m)
    → (b ≡ false → Gives P w n)
    → Gives P w (if b then m else n)
if-Gives true f g = f refl
if-Gives false f g = g refl

-- A call gives what it gave in the world it was made in, and leaves that call's world.
pub call-Gives :
    {E World A : Type 0} (w : World) (f : Calls E World A) → Gives (λ a v. f w ≡ (ok a, v)) w f
call-Gives w f = record { holds = λ a p. ap (λ r. (r, (f w).1)) p }
