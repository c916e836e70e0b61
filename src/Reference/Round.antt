-- ===== src/Reference/Round.antt =====
-- `RoundStateReferenceModel` of reference/leopoldModels.ts. The model's one field is its state.
pub mod Diagram
use leopold.Prelude.{Bool, ◌&&◌, not, List, [], ◌∷◌, if◌then◌else◌}
use leopold.Prelude.Int.{ℤ, pos, eqb_ℤ}
use leopold.Prelude.Results.{Result, ok, err}

pub data ReferenceRoundState : Type 0 where
  open_round : ReferenceRoundState
  aggregate_pending : ReferenceRoundState
  aggregate_finalized : ReferenceRoundState
  empty : ReferenceRoundState
  validity_pending : ReferenceRoundState
  rejected : ReferenceRoundState
  accepted : ReferenceRoundState
  winner_processing : ReferenceRoundState
  winnings_allocated : ReferenceRoundState
  settled : ReferenceRoundState

pub data RoundError : Type 0 where
  illegal_round_transition : RoundError
  illegal_candidate_generation : RoundError

-- The enum's value.
abbrev pub number : ReferenceRoundState → ℤ
number open_round = pos 0
number aggregate_pending = pos 1
number aggregate_finalized = pos 2
number empty = pos 3
number validity_pending = pos 4
number rejected = pos 5
number accepted = pos 6
number winner_processing = pos 7
number winnings_allocated = pos 8
number settled = pos 9

transition :
    ReferenceRoundState
    → ReferenceRoundState
    → ReferenceRoundState
    → Result RoundError ReferenceRoundState
transition expected next state =
    if not (eqb_ℤ (number state) (number expected)) then err illegal_round_transition else ok next

pub close : ReferenceRoundState → Result RoundError ReferenceRoundState
unfolding transition
close = transition open_round aggregate_pending

pub finalize_aggregate : ℤ → ReferenceRoundState → Result RoundError ReferenceRoundState
unfolding transition
finalize_aggregate total_weight =
    transition aggregate_pending (if eqb_ℤ total_weight (pos 0) then empty else aggregate_finalized)

pub candidate : Bool → ReferenceRoundState → Result RoundError ReferenceRoundState
candidate accepts_all state =
    if not (eqb_ℤ (number state) (number aggregate_finalized))
      && not (eqb_ℤ (number state) (number rejected))
    then err illegal_candidate_generation
    else ok (if accepts_all then accepted else validity_pending)

pub validity : Bool → ReferenceRoundState → Result RoundError ReferenceRoundState
unfolding transition
validity valid = transition validity_pending (if valid then accepted else rejected)

-- A call of one of the methods.
pub data Call : Type 0 where
  close_call : Call
  finalize_call : ℤ → Call
  candidate_call : Bool → Call
  validity_call : Bool → Call

unfoldable pub call : Call → ReferenceRoundState → Result RoundError ReferenceRoundState
unfolding close finalize_aggregate candidate validity
call close_call = close
call (finalize_call w) = finalize_aggregate w
call (candidate_call b) = candidate b
call (validity_call b) = validity b

-- A call that throws leaves the state.
unfoldable pub after :
    Result RoundError ReferenceRoundState → ReferenceRoundState → ReferenceRoundState
after (ok s) old = s
after (err e) old = old

unfoldable pub run : List Call → ReferenceRoundState → ReferenceRoundState
unfolding after
run [] s = s
run (c ∷ cs) s = run cs (after (call c s) s)
