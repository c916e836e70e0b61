-- ===== src/Reference/Rejection/Uniform.antt =====
-- `mapCandidate` (reference/leopoldModels.ts) gives every ticket the same number of candidates.
use leopold.Prelude.{
  ℕ, ◌+◌, ◌*◌, ◌/◌, ◌^◌, ◌≤◌, ◌<◌, ◌≡◌, ◌↔◌, true, false, none, some, arith, ap, ◌∙◌, ◌%◌, ◌==◌,
}
use leopold.Prelude.Int.{ℤ, pos, ◌*ℤ◌, ◌/ℤ◌, ◌%ℤ◌}
use leopold.Prelude.Results.{ok}
use native.Mathlib.Decide.{dec_lt}
use native.Mathlib.Nat.{mul-add-mod_self_right, mod-eq_of_lt}
use leopold.Reference.Rejection.{MappedCandidate, rejection_parameters, map_candidate}

abbrev pub accept : ℤ → MappedCandidate
accept t = record { accepted = true; ticket = some t }

abbrev pub reject : MappedCandidate
reject = record { accepted = false; ticket = none }

pos-%ℤ : (c w : ℕ) → 0 < w → pos c %ℤ pos w ≡ pos (c % w)
unfolding ◌%ℤ◌
pos-%ℤ c w h = ground arith

module _ (w : ℕ) (positive : 0 < w) (small : w < 2 ^ 128) where
  rejection_parameters_lem :
      rejection_parameters (pos w)
      ≡ ok (record {
        quotient = pos (2 ^ 128 / w);
        limit = pos (2 ^ 128 / w * w);
        accepts_all = (2 ^ 128 / w * w) == 2 ^ 128;
      })
  unfolding rejection_parameters ◌/ℤ◌ ◌*ℤ◌
  rejection_parameters_lem = ground arith

  limit-le-domain : 2 ^ 128 / w * w ≤ 2 ^ 128
  limit-le-domain = grind arith

  map_candidate_below :
      (c : ℕ) → c < 2 ^ 128 / w * w → map_candidate (pos c) (pos w) ≡ ok (accept (pos (c % w)))
  unfolding map_candidate
  map_candidate_below c h =
      ground (arith, rejection_parameters_lem, limit-le-domain, pos-%ℤ c w positive)

  map_candidate_above :
      (c : ℕ) → c < 2 ^ 128 → 2 ^ 128 / w * w ≤ c → map_candidate (pos c) (pos w) ≡ ok reject
  unfolding map_candidate
  map_candidate_above c h k = ground (arith, rejection_parameters_lem)

  below_of_accept :
      (c t : ℕ)
      → c < 2 ^ 128
      → map_candidate (pos c) (pos w) ≡ ok (accept (pos t))
      → (c < 2 ^ 128 / w * w) × (c % w ≡ t)
  below_of_accept c t h e = elim (dec_lt c (2 ^ 128 / w * w)) [
    | yes below ↦ (below, ground (arith, map_candidate_below c below))
    | no above ↦ absurd (ground (arith, map_candidate_above c h (omega arith)))
  ]

  -- The candidates that give the ticket `t` are the numbers `k * w + t` with `k` below the
  -- quotient: every ticket below the total weight has exactly that many, and no other number is one.
  pub map_candidate_uniform :
      (c t : ℕ)
      → c < 2 ^ 128
      → (map_candidate (pos c) (pos w) ≡ ok (accept (pos t)))
        ↔ ((k : ℕ) × (k < 2 ^ 128 / w) × (t < w) × (c ≡ k * w + t))
  map_candidate_uniform c t h = (
    λ e. (
      c / w,
      grind (arith, below_of_accept c t h e),
      grind (arith, below_of_accept c t h e),
      grind (arith, below_of_accept c t h e),
    ),
    λ (k, small_k, small_t, e).
        map_candidate_below c (grind arith)
        ∙ ap (λ r. ok (accept (pos r)))
            (ap (λ n. n % w) e ∙ mul-add-mod_self_right k w t ∙ mod-eq_of_lt small_t),
  )

  -- A candidate below 2 ^ 128 is rejected exactly from the limit on, and there are fewer rejected
  -- candidates than the total weight.
  pub map_candidate_rejects :
      (c : ℕ)
      → c < 2 ^ 128
      → ((map_candidate (pos c) (pos w) ≡ ok reject) ↔ (2 ^ 128 / w * w ≤ c))
        × (2 ^ 128 < 2 ^ 128 / w * w + w)
  map_candidate_rejects c h = (
    (
      λ e. elim (dec_lt c (2 ^ 128 / w * w)) [
        | yes below ↦ absurd (ground (arith, map_candidate_below c below))
        | no above ↦ omega arith
      ],
      map_candidate_above c h,
    ),
    grind arith,
  )
