-- ===== src/Tests/Rounds.antt =====
-- `RoundStateReferenceModel` (reference/leopoldModels.ts) on small inputs.
use leopold.Prelude.{◌≡◌, ◌↔◌, refl, true, false, List, [], ◌∷◌}
use leopold.Prelude.Int.{pos}
use leopold.Prelude.Results.{ok}
use leopold.Reference.Round.{
  open_round, aggregate_pending, accepted, Call, close_call, finalize_call, candidate_call,
  validity_call, call, after, run,
}
use leopold.Reference.Round.Diagram.{Edge, call_iff_Edge, finalizes_weight, run_accepts_weighted}

abbrev drawn : List Call
drawn =
    close_call
    ∷ finalize_call (pos 12)
    ∷ candidate_call false
    ∷ validity_call false
    ∷ candidate_call true
    ∷ []

call_iff_Edge_example :
    (call close_call open_round ≡ ok aggregate_pending)
    ↔ Edge open_round close_call aggregate_pending
call_iff_Edge_example = call_iff_Edge close_call open_round aggregate_pending

drawn_accepts : run drawn open_round ≡ accepted
unfolding run call after
drawn_accepts = refl

run_accepts_weighted_example :
    (finalizes_weight drawn ≡ true) × (run (close_call ∷ []) (run drawn open_round) ≡ accepted)
run_accepts_weighted_example = run_accepts_weighted drawn (close_call ∷ []) drawn_accepts
