-- ===== src/Tests/Draws.antt =====
-- The draw of reference/leopoldModels.ts on small inputs.
use leopold.Prelude.{ℕ, ◌≡◌, ◌↔◌, ◌*◌, ◌/◌, ◌^◌, refl, true, false, List, [], ◌∷◌, arith}
use leopold.Prelude.Int.{pos, ◌+ℤ◌}
use leopold.Prelude.Results.{ok, err}
use leopold.Prelude.Text.{codes}
use leopold.Reference.Chunks.{deterministic_chunks, range}
use leopold.Reference.Chunks.Coverage.{concat, Sized, deterministic_chunks_cover}
use leopold.Reference.Rejection.{candidate_objectively_rejected}
use leopold.Reference.Draw.{
  DrawParticipant, DrawSettlementResult, CompleteDrawResult, settle_private_draw,
  complete_private_draw,
}
use leopold.Reference.Draw.Winner.{sum, weight}
use leopold.Reference.Draw.Conservation.{Conserves, settle_private_draw-Conserves}
use leopold.Reference.Draw.Fairness.{
  Wins, won, complete_private_draw_fair, complete_private_draw_rejects,
}

abbrev ann : DrawParticipant
ann = record {
  account = codes "0xA1";
  weight = pos 3;
  principal = pos 100;
  winnings = pos 0;
  auto_save = true;
}

abbrev ben : DrawParticipant
ben = record {
  account = codes "0xB2";
  weight = pos 4;
  principal = pos 50;
  winnings = pos 2;
  auto_save = false;
}

total_weight : sum weight (ann ∷ ben ∷ []) ≡ pos 7
unfolding sum ◌+ℤ◌
total_weight = refl

weight_before : sum weight (ann ∷ []) ≡ pos 3
unfolding sum ◌+ℤ◌
weight_before = refl

deterministic_chunks_cover_example :
    (chunks : List (List ℕ)) × (deterministic_chunks (pos 5) (pos 2) ≡ ok chunks)
    × (concat chunks ≡ range 0 5)
    × Sized 2 chunks
deterministic_chunks_cover_example =
    deterministic_chunks_cover 5 2 (omega arith) (omega arith) (omega arith)

settle_private_draw-Conserves_example :
    (r : DrawSettlementResult) × (settle_private_draw
        (ann ∷ ben ∷ [])
        (pos 5)
        (pos 9)
        (pos 1)
        (pos 120)
      ≡ ok r)
    × Conserves (pos 9) (pos 1) (pos 120) (ann ∷ ben ∷ []) r
settle_private_draw-Conserves_example =
    settle_private_draw-Conserves (pos 9) (pos 1) (pos 120) (ann ∷ ben ∷ []) (pos 5) (omega arith)
      (omega arith, (omega arith, tt)) (omega arith) (rw total_weight (omega arith))

abbrev ben_won : CompleteDrawResult
ben_won = won (pos 9) (pos 1) (pos 120) (ann ∷ []) ben [] 18 4

ben-Wins : Wins (pos 9) (pos 1) (pos 120) 7 (omega arith) (omega arith) (ann ∷ ben ∷ []) 18 ben_won
ben-Wins = record {
  before = ann ∷ [];
  winner = ben;
  after = [];
  parts = refl;
  k = 2;
  b = 3;
  j = 1;
  small_k = omega arith;
  start = weight_before;
  small_j = omega arith;
  here = refl;
  result = refl;
}

complete_private_draw_fair_example :
    (complete_private_draw (ann ∷ ben ∷ []) (pos 18) (pos 9) (pos 1) (pos 120) ≡ ok ben_won)
    ↔ Wins (pos 9) (pos 1) (pos 120) 7 (omega arith) (omega arith) (ann ∷ ben ∷ []) 18 ben_won
complete_private_draw_fair_example =
    complete_private_draw_fair (pos 9) (pos 1) (pos 120) 7 (omega arith) (omega arith)
      (ann ∷ ben ∷ []) 18 ben_won (omega arith) (omega arith, (omega arith, tt)) total_weight
      (omega arith)

complete_private_draw_rejects_example :
    complete_private_draw (ann ∷ ben ∷ []) (pos (2 ^ 128 / 7 * 7)) (pos 9) (pos 1) (pos 120)
    ≡ err candidate_objectively_rejected
complete_private_draw_rejects_example =
    complete_private_draw_rejects (pos 9) (pos 1) (pos 120) 7 (omega arith) (omega arith)
      (ann ∷ ben ∷ []) (2 ^ 128 / 7 * 7) total_weight (omega arith) (omega arith)
