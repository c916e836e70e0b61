-- ===== src/Reference/Round/Diagram.antt =====
-- The transitions of `RoundStateReferenceModel` (reference/leopoldModels.ts) as a diagram.
use leopold.Prelude.{
  ◌≡◌, refl, subst, ap, ◌∙◌, ◌≢◌, ◌↔◌, inl, inr, Bool, true, false, ◌||◌, not, List, [], ◌∷◌, arith,
  Bool-cases, if◌then◌else◌,
}
use leopold.Prelude.Int.{ℤ, pos, eqb_ℤ, parts_of_eq, eq_of_parts}
use leopold.Prelude.Results.{ok}
use leopold.Reference.Round.{
  ReferenceRoundState, open_round, aggregate_pending, aggregate_finalized, empty, validity_pending,
  rejected, accepted, Call, close_call, finalize_call, candidate_call, validity_call, call, after,
  run,
}

-- The rounds' diagram: a round is closed, its aggregate is finalized as empty or not, and of a
-- round that is not empty candidates are drawn until one is accepted.
pub data Edge : ReferenceRoundState → Call → ReferenceRoundState → Type 0 where
  closing : Edge open_round close_call aggregate_pending
  nobody : (w : ℤ) → w ≡ pos 0 → Edge aggregate_pending (finalize_call w) empty
  somebody : (w : ℤ) → w ≢ pos 0 → Edge aggregate_pending (finalize_call w) aggregate_finalized
  first_sure : Edge aggregate_finalized (candidate_call true) accepted
  first_open : Edge aggregate_finalized (candidate_call false) validity_pending
  again_sure : Edge rejected (candidate_call true) accepted
  again_open : Edge rejected (candidate_call false) validity_pending
  valid : Edge validity_pending (validity_call true) accepted
  invalid : Edge validity_pending (validity_call false) rejected

ruleset edges =
    (closing, nobody, somebody, first_sure, first_open, again_sure, again_open, valid, invalid)

finalize-Edge :
    (w : ℤ) (t : ReferenceRoundState)
    → (if eqb_ℤ w (pos 0) then empty else aggregate_finalized) ≡ t
    → Edge aggregate_pending (finalize_call w) t
finalize-Edge w t e = elim (Bool-cases (eqb_ℤ w (pos 0))) [
  | inl z ↦ subst (Edge aggregate_pending (finalize_call w)) (rw z at e) (nobody w (ground arith))
  | inr n ↦
      subst (Edge aggregate_pending (finalize_call w)) (rw n at e)
        (somebody w (λ z. ground (arith, parts_of_eq w (pos 0) z)))
]

Edge_of_call : (c : Call) (s t : ReferenceRoundState) → call c s ≡ ok t → Edge s c t
unfolding call
Edge_of_call close_call s t e = grind (arith, edges)
Edge_of_call (finalize_call w) aggregate_pending t e = finalize-Edge w t (ground arith)
Edge_of_call (finalize_call w) s t e = cc
Edge_of_call (candidate_call true) s t e = grind (arith, edges)
Edge_of_call (candidate_call false) s t e = grind (arith, edges)
Edge_of_call (validity_call true) s t e = grind (arith, edges)
Edge_of_call (validity_call false) s t e = grind (arith, edges)

call_of_Edge : {c : Call} {s t : ReferenceRoundState} → Edge s c t → call c s ≡ ok t
unfolding call
call_of_Edge closing = refl
call_of_Edge (nobody w z) = ground (arith, parts_of_eq w (pos 0) z)
call_of_Edge (somebody w n) = ground (arith, eq_of_parts w (pos 0))
call_of_Edge first_sure = refl
call_of_Edge first_open = refl
call_of_Edge again_sure = refl
call_of_Edge again_open = refl
call_of_Edge valid = refl
call_of_Edge invalid = refl

-- A call succeeds exactly along an edge of the diagram, and goes to the edge's end.
pub call_iff_Edge : (c : Call) (s t : ReferenceRoundState) → (call c s ≡ ok t) ↔ Edge s c t
call_iff_Edge c s t = (Edge_of_call c s t, call_of_Edge)

-- Whether the calls finalize an aggregate weight other than 0.
abbrev pub finalizes_weight : List Call → Bool
finalizes_weight [] = false
finalizes_weight (finalize_call w ∷ cs) = not (eqb_ℤ w (pos 0)) || finalizes_weight cs
finalizes_weight (c ∷ cs) = finalizes_weight cs

abbrev unweighted : ReferenceRoundState → Bool
unweighted open_round = true
unweighted aggregate_pending = true
unweighted empty = true
unweighted s = false

step_unweighted :
    (c : Call) (cs : List Call) (s : ReferenceRoundState)
    → unweighted s ≡ true
    → finalizes_weight (c ∷ cs) ≡ false
    → (unweighted (after (call c s) s) ≡ true) × (finalizes_weight cs ≡ false)
unfolding call after
step_unweighted close_call cs s u f = ground arith
step_unweighted (finalize_call w) cs s u f = ground arith
step_unweighted (candidate_call b) cs s u f = ground arith
step_unweighted (validity_call b) cs s u f = ground arith

run-unweighted :
    (cs : List Call) (s : ReferenceRoundState)
    → unweighted s ≡ true
    → finalizes_weight cs ≡ false
    → unweighted (run cs s) ≡ true
unfolding run
run-unweighted [] s u f = u
run-unweighted (c ∷ cs) s u f =
    let (u', f') = step_unweighted c cs s u f in run-unweighted cs (after (call c s) s) u' f'

stays :
    (c : Call)
    → (after (call c accepted) accepted ≡ accepted) × (after (call c empty) empty ≡ empty)
unfolding call after
stays close_call = (refl, refl)
stays _ = (refl, refl)

run_stays : (cs : List Call) → (run cs accepted ≡ accepted) × (run cs empty ≡ empty)
unfolding run
run_stays [] = (refl, refl)
run_stays (c ∷ cs) =
    (ap (run cs) (stays c).0 ∙ (run_stays cs).0, ap (run cs) (stays c).1 ∙ (run_stays cs).1)

-- A sequence of calls that brings an open round to an accepted ticket has finalized an aggregate
-- weight other than 0, and no further calls take the round out of that state.
pub run_accepts_weighted :
    (cs later : List Call)
    → run cs open_round ≡ accepted
    → (finalizes_weight cs ≡ true) × (run later (run cs open_round) ≡ accepted)
run_accepts_weighted cs later e = (
  elim (Bool-cases (finalizes_weight cs)) [
    | inl w ↦ w
    | inr n ↦ absurd (ground (arith, run-unweighted cs open_round refl n))
  ],
  ap (run later) e ∙ (run_stays later).0,
)
