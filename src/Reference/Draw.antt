-- ===== src/Reference/Draw.antt =====
-- `settlePrivateDraw` and `completePrivateDraw` of reference/leopoldModels.ts.
pub mod Winner
pub mod Settlement
pub mod Conservation
pub mod Fairness
use leopold.Prelude.{
  ℕ, ◌+◌, Bool, true, false, not, ◌&&◌, ◌||◌, Option, none, some, List, [], ◌∷◌, ◌==◌,
  if◌then◌else◌,
}
use leopold.Prelude.Int.{ℤ, pos, negsuc, ◌+ℤ◌, ◌-ℤ◌, ltb_ℤ, leb_ℤ, eqb_ℤ}
use leopold.Reference.Rejection.{
  DrawError, negative_prize, empty_round, ticket_outside_aggregate, negative_weight,
  winner_reconciliation_failed, prize_conservation_failed, candidate_objectively_rejected,
  MappedCandidate, map_candidate,
}
use leopold.Prelude.Results.{Result, ok, err, ◌>>=◌, ◌>>◌, throw_if}

pub record DrawParticipant : Type 0 where
  pub account : List ℕ
  pub weight : ℤ
  pub principal : ℤ
  pub winnings : ℤ
  pub auto_save : Bool

pub record SettledParticipant : Type 0 where
  pub participant : DrawParticipant
  pub winner : Bool
  pub auto_saved_prize : ℤ
  pub kept_prize : ℤ
  pub auto_save_timestamp : Option ℤ

pub record DrawSettlementResult : Type 0 where
  pub total_weight : ℤ
  pub winner_index : ℤ
  pub final_cumulative : ℤ
  pub allocated_prize : ℤ
  pub principal_added : ℤ
  pub winnings_added : ℤ
  pub participants : List SettledParticipant

pub record CompleteDrawResult : Type 0 where
  pub settlement : DrawSettlementResult
  pub candidate : ℤ
  pub candidate_valid : Bool
  pub accepted_ticket : ℤ

-- `participants.reduce((total, participant) => total + field, 0n)`
unfoldable pub sum_from : (DrawParticipant → ℤ) → ℤ → List DrawParticipant → ℤ
sum_from field total [] = total
sum_from field total (p ∷ ps) = sum_from field (total +ℤ field p) ps

pub some_negative : List DrawParticipant → Bool
some_negative [] = false
some_negative (p ∷ ps) = ltb_ℤ p.weight (pos 0) || some_negative ps

-- The winner predicates, the final `cumulative` and the final `winnerIndex`.
pub find_winner : ℤ → List DrawParticipant → ℕ → ℤ → ℤ → List Bool × ℤ × ℤ
find_winner ticket [] index cumulative winner_index = ([], cumulative, winner_index)
find_winner ticket (p ∷ ps) index start winner_index =
    let cumulative = start +ℤ p.weight in
    let winner = ltb_ℤ (pos 0) p.weight && leb_ℤ start ticket && ltb_ℤ ticket cumulative in
    let rest =
      find_winner ticket ps (index + 1) cumulative (if winner then pos index else winner_index) in
    (winner ∷ rest.0, rest.1, rest.2)

-- `winnerPredicates.filter(Boolean).length`
pub count_true : List Bool → ℕ
count_true [] = 0
count_true (b ∷ bs) = (if b then 1 else 0) + count_true bs

pub record Tally : Type 0 where
  pub total_principal : ℤ
  pub principal_added : ℤ
  pub winnings_added : ℤ

-- The totals before the settling `map`.
pub opening_tally : List DrawParticipant → Tally
opening_tally participants = record {
  total_principal = sum_from (λ p. p.principal) (pos 0) participants;
  principal_added = pos 0;
  winnings_added = pos 0;
}

module _ (prize conversion_timestamp principal_cap : ℤ) where
  -- The body of the settling `map`, for one participant.
  pub settle_one : Tally → DrawParticipant → Bool → SettledParticipant × Tally
  settle_one t p winner =
      let won = if winner then prize else pos 0 in
      let can_auto_save = p.auto_save && leb_ℤ (t.total_principal +ℤ won) principal_cap in
      let auto_saved = if can_auto_save then won else pos 0 in
      let kept = won -ℤ auto_saved in
      (
        record {
          participant = record p {
            principal = p.principal +ℤ auto_saved;
            winnings = p.winnings +ℤ kept;
          };
          winner = winner;
          auto_saved_prize = auto_saved;
          kept_prize = kept;
          auto_save_timestamp =
              if ltb_ℤ (pos 0) auto_saved then some conversion_timestamp else none;
        },
        record {
          total_principal = t.total_principal +ℤ auto_saved;
          principal_added = t.principal_added +ℤ auto_saved;
          winnings_added = t.winnings_added +ℤ kept;
        },
      )

  -- `winnerPredicates` has an entry for each participant; `undefined` would be falsy.
  pub settle_all : Tally → List DrawParticipant → List Bool → List SettledParticipant × Tally
  settle_all t [] winners = ([], t)
  settle_all t (p ∷ ps) [] =
      let (settled, t') = settle_one t p false in
      let rest = settle_all t' ps [] in (settled ∷ rest.0, rest.1)
  settle_all t (p ∷ ps) (w ∷ ws) =
      let (settled, t') = settle_one t p w in
      let rest = settle_all t' ps ws in (settled ∷ rest.0, rest.1)

pub settle_private_draw :
    List DrawParticipant → ℤ → ℤ → ℤ → ℤ → Result DrawError DrawSettlementResult
settle_private_draw participants ticket prize conversion_timestamp principal_cap = do
  throw_if (ltb_ℤ prize (pos 0)) negative_prize
  let total_weight = sum_from (λ p. p.weight) (pos 0) participants
  throw_if (leb_ℤ total_weight (pos 0)) empty_round
  throw_if (ltb_ℤ ticket (pos 0) || leb_ℤ total_weight ticket) ticket_outside_aggregate
  throw_if (some_negative participants) negative_weight
  let found = find_winner ticket participants 0 (pos 0) (negsuc 0)
  throw_if
      (not (eqb_ℤ found.1 total_weight) || not (count_true found.0 == 1) || ltb_ℤ found.2 (pos 0))
      winner_reconciliation_failed
  let settled =
      settle_all prize conversion_timestamp principal_cap (opening_tally participants) participants
        found.0
  throw_if (not (eqb_ℤ (settled.1.principal_added +ℤ settled.1.winnings_added) prize))
      prize_conservation_failed
  ok (record {
    total_weight = total_weight;
    winner_index = found.2;
    final_cumulative = found.1;
    allocated_prize = prize;
    principal_added = settled.1.principal_added;
    winnings_added = settled.1.winnings_added;
    participants = settled.0;
  })

-- `!mapped.accepted || mapped.ticket === undefined`
pub accepted_ticket_of : MappedCandidate → Result DrawError ℤ
accepted_ticket_of mapped =
    if mapped.accepted
    then elim mapped.ticket [ some t ↦ ok t | none ↦ err candidate_objectively_rejected ]
    else err candidate_objectively_rejected

pub complete_private_draw :
    List DrawParticipant → ℤ → ℤ → ℤ → ℤ → Result DrawError CompleteDrawResult
complete_private_draw participants candidate prize conversion_timestamp principal_cap = do
  let total_weight = sum_from (λ p. p.weight) (pos 0) participants
  mapped ← map_candidate candidate total_weight
  ticket ← accepted_ticket_of mapped
  settlement ← settle_private_draw participants ticket prize conversion_timestamp principal_cap
  ok (record {
    settlement = settlement;
    candidate = candidate;
    candidate_valid = true;
    accepted_ticket = ticket;
  })
