-- ===== src/Reference/Twab/Writes.antt =====
-- `write` of `TwabReferenceModel` (reference/leopoldModels.ts): what a new checkpoint changes.
use leopold.Prelude.{
  ◌≡◌, refl, ap, subst, ==_iff, some, List, [], ◌∷◌, ◌++◌, arith, Bool-cases, ◌⊎◌, inl, inr,
  if◌then◌else◌,
}
use leopold.Prelude.Int.{
  ℤ, pos, ◌+ℤ◌, ◌-ℤ◌, ◌*ℤ◌, ◌≤ℤ◌, ◌<ℤ◌, ltb_ℤ, eqb_ℤ, eq_of_parts, int_laws, *ℤ_parts, parts_of_eq,
  mul_add, sub_sub,
}
use leopold.Reference.Twab.{Checkpoint, last, balance_of, set_last, write}
use leopold.Reference.Twab.Interpolate.{value_at}
use leopold.Reference.Twab.Search.{After, Chronological, latest, walk}

head-le-last :
    (c : Checkpoint) (cs : List Checkpoint) (p : Checkpoint)
    → After c cs
    → last (c ∷ cs) ≡ some p
    → c.timestamp ≤ℤ p.timestamp
unfolding last
head-le-last c [] p a e = ground arith
head-le-last c (d ∷ ds) p a e = omega (arith, head-le-last d ds p a.1 e, a.0)

-- From the last checkpoint on the balance is that checkpoint's.
latest-last :
    (c : Checkpoint) (cs : List Checkpoint) (p : Checkpoint) (t : ℤ)
    → After c cs
    → last (c ∷ cs) ≡ some p
    → p.timestamp ≤ℤ t
    → latest c cs t ≡ p
unfolding latest last
latest-last c [] p t a e le = cc
latest-last c (d ∷ ds) p t a e le =
    ground (arith, head-le-last d ds p a.1 e, latest-last d ds p t a.1 e le)

pub walk-last :
    (cs : List Checkpoint) (p : Checkpoint) (t : ℤ)
    → Chronological cs
    → last cs ≡ some p
    → p.timestamp ≤ℤ t
    → walk cs t ≡ value_at p t
unfolding walk
walk-last [] p t h e le = unfold last in cc
walk-last (c ∷ cs) p t h e le = ground (arith, head-le-last c cs p h e, latest-last c cs p t h e le)

module _ (n : Checkpoint) where
  After-append :
      (c : Checkpoint) (cs : List Checkpoint) (p : Checkpoint)
      → After c cs
      → last (c ∷ cs) ≡ some p
      → p.timestamp <ℤ n.timestamp
      → After c (cs ++ n ∷ [])
  unfolding last
  After-append c [] p a e lt = ground arith
  After-append c (d ∷ ds) p a e lt = (a.0, After-append d ds p a.1 e lt)

  latest-append :
      (c : Checkpoint) (cs : List Checkpoint) (p : Checkpoint) (t : ℤ)
      → After c cs
      → last (c ∷ cs) ≡ some p
      → p.timestamp <ℤ n.timestamp
      → latest c (cs ++ n ∷ []) t ≡ (if ltb_ℤ t n.timestamp then latest c cs t else n)
  unfolding latest last
  latest-append c [] p t a e lt = ground arith
  latest-append c (d ∷ ds) p t a e lt =
      ground (arith, head-le-last d ds p a.1 e, latest-append d ds p t a.1 e lt)

last-append : (cs : List Checkpoint) (n : Checkpoint) → last (cs ++ n ∷ []) ≡ some n
unfolding last
last-append [] n = refl
last-append (c ∷ []) n = refl
last-append (c ∷ d ∷ cs) n = last-append (d ∷ cs) n

module _ (nb cum : ℤ) where
  last-set_last :
      (cs : List Checkpoint) (p : Checkpoint)
      → last cs ≡ some p
      → last (set_last cs nb cum) ≡ some (record p { balance = nb; cumulative = cum })
  unfolding last set_last
  last-set_last [] p e = cc
  last-set_last (c ∷ []) p e = ground arith
  last-set_last (c ∷ d ∷ []) p e = last-set_last (d ∷ []) p e
  last-set_last (c ∷ d ∷ f ∷ cs) p e = last-set_last (d ∷ f ∷ cs) p e

  After-set_last :
      (c d : Checkpoint) (ds : List Checkpoint)
      → After c (d ∷ ds)
      → After c (set_last (d ∷ ds) nb cum)
  unfolding set_last
  After-set_last c d [] a = a
  After-set_last c d (f ∷ fs) a = (a.0, After-set_last d f fs a.1)

  latest-set_last :
      (c d : Checkpoint) (ds : List Checkpoint) (p : Checkpoint) (t : ℤ)
      → After c (d ∷ ds)
      → last (d ∷ ds) ≡ some p
      → latest c (set_last (d ∷ ds) nb cum) t ≡ (
          if ltb_ℤ t p.timestamp
          then latest c (d ∷ ds) t
          else record p { balance = nb; cumulative = cum })
  unfolding latest last set_last
  latest-set_last c d [] p t a e = ground arith
  latest-set_last c d (f ∷ fs) p t a e =
      ground (arith, head-le-last d (f ∷ fs) p a.1 e, latest-set_last d f fs p t a.1 e)

-- A list of checkpoints after a write: `n` is its last one, and before it nothing has changed.
pub record Extends (cs : List Checkpoint) (n : Checkpoint) (cs' : List Checkpoint) : Type 0 where
  pub ordered : Chronological cs'
  pub newest : last cs' ≡ some n
  pub walks : (t : ℤ) → walk cs' t ≡ (if ltb_ℤ t n.timestamp then walk cs t else value_at n t)

first-Extends : (n : Checkpoint) → Extends [] n (n ∷ [])
unfolding walk last latest
first-Extends n = record { ordered = tt; newest = refl; walks = λ t. refl }

append-Extends :
    (cs : List Checkpoint) (p n : Checkpoint)
    → Chronological cs
    → last cs ≡ some p
    → p.timestamp <ℤ n.timestamp
    → Extends cs n (cs ++ n ∷ [])
unfolding walk
append-Extends [] p n h e lt = unfold last in cc
append-Extends (c ∷ cs) p n h e lt = record {
  ordered = After-append n c cs p h e lt;
  newest = last-append (c ∷ cs) n;
  walks = λ t. ground (arith, head-le-last c cs p h e, latest-append n c cs p t h e lt);
}

set_last-Extends :
    (cs : List Checkpoint) (p : Checkpoint) (nb cum : ℤ)
    → Chronological cs
    → last cs ≡ some p
    → Extends cs (record p { balance = nb; cumulative = cum }) (set_last cs nb cum)
unfolding walk set_last
set_last-Extends [] p nb cum h e = unfold last in cc
set_last-Extends (c ∷ []) p nb cum h e = record {
  ordered = tt;
  newest = last-set_last nb cum (c ∷ []) p e;
  walks = λ t. unfold last latest in ground arith;
}
set_last-Extends (c ∷ d ∷ ds) p nb cum h e = record {
  ordered = After-set_last nb cum c d ds h;
  newest = last-set_last nb cum (c ∷ d ∷ ds) p e;
  walks = λ t.
      let e' : last (d ∷ ds) ≡ some p = unfold last in e in
      ground (arith, head-le-last c (d ∷ ds) p h e, latest-set_last nb cum c d ds p t h e');
}

-- The last checkpoint is not later than the timestamp.
abbrev pub Until : List Checkpoint → ℤ → Type 0
Until cs t = (p : Checkpoint) → last cs ≡ some p → p.timestamp ≤ℤ t

last_cases : (cs : List Checkpoint) → (cs ≡ []) ⊎ ((p : Checkpoint) × (last cs ≡ some p))
unfolding last
last_cases [] = inl refl
last_cases (c ∷ []) = inr (c, refl)
last_cases (c ∷ d ∷ cs) = elim (last_cases (d ∷ cs)) [ inl e ↦ absurd (cc) | inr q ↦ inr q ]

-- Past the last checkpoint the walk goes on at the last balance.
pub walk-linear :
    (cs : List Checkpoint) (t u : ℤ)
    → Chronological cs
    → Until cs t
    → t ≤ℤ u
    → walk cs u ≡ walk cs t +ℤ balance_of (last cs) *ℤ (u -ℤ t)
walk-linear cs t u h until le = elim (last_cases cs) [
  | inl e ↦ rw e (unfold walk last in omega (int_laws, *ℤ_parts))
  | inr (p, e) ↦ rw (walk-last cs p u h e (omega (arith, until p e))) (
      rw (walk-last cs p t h e (until p e)) (
        rw e (
          omega (
            int_laws,
            parts_of_eq _ _ (mul_add p.balance (t -ℤ p.timestamp) (u -ℤ t)),
            parts_of_eq _ _ (ap (λ z. p.balance *ℤ z) (sub_sub t p.timestamp u)),
          ))))
]

module _ (cs : List Checkpoint) (p : Checkpoint) (nb t : ℤ) (e : last cs ≡ some p) where
  write_same : p.timestamp ≡ t → write cs nb t ≡ some (set_last cs nb (value_at p t))
  unfolding write
  write_same q = rw e (ground (arith, parts_of_eq p.timestamp t q))

  write_later :
      p.timestamp <ℤ t
      → write cs nb t
        ≡ some (cs ++ record { timestamp = t; balance = nb; cumulative = value_at p t } ∷ [])
  unfolding write
  write_later lt = rw e (ground arith)

write-Extends_empty :
    (nb t : ℤ)
    → (cs' : List Checkpoint) × (write [] nb t ≡ some cs')
      × Extends [] (record { timestamp = t; balance = nb; cumulative = walk [] t }) cs'
unfolding write last walk
write-Extends_empty nb t =
    let n : Checkpoint = record { timestamp = t; balance = nb; cumulative = pos 0 } in
    (n ∷ [], refl, first-Extends n)

-- A write that is not earlier than the last checkpoint succeeds, and its checkpoint holds the
-- cumulative value reached there.
pub write-Extends :
    (cs : List Checkpoint) (nb t : ℤ)
    → Chronological cs
    → Until cs t
    → (cs' : List Checkpoint) × (write cs nb t ≡ some cs')
      × Extends cs (record { timestamp = t; balance = nb; cumulative = walk cs t }) cs'
write-Extends cs nb t h until = elim (last_cases cs) [
  | inl e ↦ rw e (write-Extends_empty nb t)
  | inr (p, e) ↦ rw (walk-last cs p t h e (until p e)) (elim (Bool-cases (eqb_ℤ p.timestamp t)) [
    | inl same ↦
        let q : p.timestamp ≡ t = eq_of_parts p.timestamp t ((==_iff _ _).0 same) in
        (
          set_last cs nb (value_at p t),
          write_same cs p nb t e q,
          subst
              (λ s.
                Extends cs (record { timestamp = s; balance = nb; cumulative = value_at p t })
                  (set_last cs nb (value_at p t)))
              q (set_last-Extends cs p nb (value_at p t) h e),
        )
    | inr differs ↦
        let lt : p.timestamp <ℤ t = ground (arith, until p e) in
        (
          cs ++ record { timestamp = t; balance = nb; cumulative = value_at p t } ∷ [],
          write_later cs p nb t e lt,
          append-Extends cs p _ h e lt,
        )
  ])
]
