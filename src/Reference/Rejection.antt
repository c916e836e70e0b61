-- ===== src/Reference/Rejection.antt =====
-- `rejectionParameters` and `mapCandidate` of reference/leopoldModels.ts: a random candidate below
-- 2 ^ 128 becomes a ticket below the total weight, or is rejected.
pub mod Uniform
use leopold.Prelude.{◌^◌, Bool, true, false, not, ◌&&◌, ◌||◌, Option, none, some, if◌then◌else◌}
use leopold.Prelude.Int.{ℤ, pos, ◌*ℤ◌, ◌/ℤ◌, ◌%ℤ◌, ltb_ℤ, leb_ℤ, eqb_ℤ}
use leopold.Prelude.Results.{Result, ok, ◌>>=◌, ◌>>◌, throw_if}

pub data DrawError : Type 0 where
  total_weight_outside_source_domain : DrawError
  candidate_outside_uint128 : DrawError
  negative_prize : DrawError
  empty_round : DrawError
  ticket_outside_aggregate : DrawError
  negative_weight : DrawError
  winner_reconciliation_failed : DrawError
  prize_conservation_failed : DrawError
  candidate_objectively_rejected : DrawError

-- `1n << 128n`
abbrev pub uint128_domain : ℤ
uint128_domain = pos (2 ^ 128)

pub record RejectionParameters : Type 0 where
  pub quotient : ℤ
  pub limit : ℤ
  pub accepts_all : Bool

pub rejection_parameters : ℤ → Result DrawError RejectionParameters
rejection_parameters total_weight = do
  throw_if (leb_ℤ total_weight (pos 0) || leb_ℤ uint128_domain total_weight)
      total_weight_outside_source_domain
  let quotient = uint128_domain /ℤ total_weight
  let limit = quotient *ℤ total_weight
  ok (record { quotient = quotient; limit = limit; accepts_all = eqb_ℤ limit uint128_domain })

pub record MappedCandidate : Type 0 where
  pub accepted : Bool
  pub ticket : Option ℤ

pub map_candidate : ℤ → ℤ → Result DrawError MappedCandidate
map_candidate candidate total_weight = do
  throw_if (ltb_ℤ candidate (pos 0) || leb_ℤ uint128_domain candidate) candidate_outside_uint128
  parameters ← rejection_parameters total_weight
  if not parameters.accepts_all && leb_ℤ parameters.limit candidate
      then ok (record { accepted = false; ticket = none })
      else ok (record { accepted = true; ticket = some (candidate %ℤ total_weight) })
