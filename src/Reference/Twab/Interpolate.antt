-- ===== src/Reference/Twab/Interpolate.antt =====
-- The queries of `TwabReferenceModel` (reference/leopoldModels.ts): `interpolate` and what reads it.
use leopold.Prelude.{ℕ, zero, suc, ◌+◌, ◌-◌, ◌/◌, none, some, List, [], ◌∷◌, ltb, if◌then◌else◌}
use leopold.Prelude.Int.{ℤ, pos, ◌+ℤ◌, ◌-ℤ◌, ◌*ℤ◌, ltb_ℤ, leb_ℤ}
use leopold.Prelude.Lists.{length, get_elem?}
use leopold.Prelude.Results.{Result, ok, err, ◌>>=◌, ◌>>◌, throw_if}
use leopold.Prelude.Text.{Text}
use leopold.Reference.Twab.{
  VaultId, Checkpoint, TwabError, invalid_interval, Model, user_checkpoints, total_checkpoints,
}

-- What a query may throw: a read past the end of the array is the engine's `TypeError`.
pub data QueryError : Type 0 where
  type_error : QueryError
  rejected : TwabError → QueryError

-- `while (low + 1 < high)`, on fuel; `high - low` falls in every round.
unfoldable pub search_loop : ℕ → List Checkpoint → ℤ → ℕ → ℕ → Result QueryError ℕ
search_loop zero cs timestamp low high = ok low
search_loop (suc fuel) cs timestamp low high =
    let middle = low + (high - low) / 2 in
    let up = search_loop fuel cs timestamp middle high in
    let down = search_loop fuel cs timestamp low middle in
    if ltb (low + 1) high
    then elim (get_elem? cs middle) [
      | none ↦ err type_error
      | some c ↦ if leb_ℤ c.timestamp timestamp then up else down
    ]
    else ok low

abbrev pub value_at : Checkpoint → ℤ → ℤ
value_at c timestamp = c.cumulative +ℤ c.balance *ℤ (timestamp -ℤ c.timestamp)

pub read : List Checkpoint → ℕ → Result QueryError Checkpoint
read cs i = elim (get_elem? cs i) [ none ↦ err type_error | some c ↦ ok c ]

unfoldable pub interpolate : List Checkpoint → ℤ → Result QueryError ℤ
unfolding read
interpolate [] timestamp = ok (pos 0)
interpolate (c ∷ cs) timestamp = if ltb_ℤ timestamp c.timestamp then ok (pos 0) else (do
  low ← search_loop (length (c ∷ cs)) (c ∷ cs) timestamp 0 (length (c ∷ cs))
  observation ← read (c ∷ cs) low
  ok (value_at observation timestamp))

unfoldable pub cumulative_at : Model → VaultId → Text → ℤ → Result QueryError ℤ
cumulative_at m v a timestamp = interpolate (user_checkpoints m v a) timestamp

unfoldable pub weight : Model → VaultId → Text → ℤ → ℤ → Result QueryError ℤ
weight m v a opens_at closes_at = do
  throw_if (ltb_ℤ closes_at opens_at) (rejected invalid_interval)
  closing ← cumulative_at m v a closes_at
  opening ← cumulative_at m v a opens_at
  ok (closing -ℤ opening)

unfoldable pub aggregate_weight : Model → VaultId → ℤ → ℤ → Result QueryError ℤ
aggregate_weight m v opens_at closes_at = do
  closing ← interpolate (total_checkpoints m v) closes_at
  opening ← interpolate (total_checkpoints m v) opens_at
  ok (closing -ℤ opening)
