-- ===== src/Reference/Chunks.antt =====
-- `deterministicChunks` of reference/leopoldModels.ts. The arguments are numbers without a fraction;
-- below 2 ^ 53 the loop's sums are exact, or past `participantCount` whichever way they round.
pub mod Coverage
use leopold.Prelude.{
  ℕ, zero, suc, ◌+◌, ◌-◌, ◌^◌, ◌||◌, not, Bool, List, [], ◌∷◌, ltb, if◌then◌else◌,
}
use leopold.Prelude.Int.{ℤ, pos, negsuc, ltb_ℤ, leb_ℤ}
use leopold.Prelude.Results.{Result, ok, ◌>>=◌, ◌>>◌, throw_if}
use Prim.Native.Nat.{min}

pub data ChunkError : Type 0 where
  invalid_participant_count : ChunkError
  invalid_chunk_size : ChunkError

-- `Number.isSafeInteger`
is_safe_integer : ℤ → Bool
is_safe_integer (pos n) = ltb n (2 ^ 53)
is_safe_integer (negsuc n) = ltb (n + 1) (2 ^ 53)

-- `Array.from({ length }, (_, offset) => cursor + offset)`
unfoldable pub range : ℕ → ℕ → List ℕ
range cursor zero = []
range cursor (suc count) = cursor ∷ range (cursor + 1) count

-- The loop, on fuel: the cursor grows by at least 1 in a round.
pub chunks_from : ℕ → ℕ → ℕ → ℕ → List (List ℕ)
chunks_from zero cursor count size = []
chunks_from (suc fuel) cursor count size =
    let end = min (cursor + size) count in
    let rest = chunks_from fuel (cursor + size) count size in
    if ltb cursor count then range cursor (end - cursor) ∷ rest else []

pub natural : ℤ → ℕ
natural (pos n) = n
natural (negsuc n) = 0

pub deterministic_chunks : ℤ → ℤ → Result ChunkError (List (List ℕ))
unfolding is_safe_integer natural
deterministic_chunks participant_count requested_chunk_size = do
  throw_if (not (is_safe_integer participant_count) || ltb_ℤ participant_count (pos 0))
      invalid_participant_count
  throw_if (not (is_safe_integer requested_chunk_size) || leb_ℤ requested_chunk_size (pos 0))
      invalid_chunk_size
  ok (
      chunks_from (natural participant_count) 0 (natural participant_count)
        (natural requested_chunk_size))
