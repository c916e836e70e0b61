-- ===== src/Reference/Chunks/Coverage.antt =====
-- `deterministicChunks` (reference/leopoldModels.ts): the chunks are the participants in order.
use leopold.Prelude.{
  ℕ, zero, suc, ◌+◌, ◌-◌, ◌^◌, ◌≤◌, ◌<◌, ◌≡◌, refl, sym, ap, ap₂, ◌∙◌, List, [], ◌∷◌, ◌++◌, arith,
  ltb, Bool-cases, inl, inr,
}
use leopold.Prelude.Int.{pos}
use leopold.Prelude.Lists.{length}
use leopold.Prelude.Results.{ok}
use Prim.Native.Nat.{min}
use native.Mathlib.Decide.{dec_le}
use mathlib.Core.List.{append-nil}
use leopold.Reference.Chunks.{range, chunks_from, deterministic_chunks}

abbrev pub concat : List (List ℕ) → List ℕ
concat [] = []
concat (c ∷ cs) = c ++ concat cs

-- No chunk is empty or longer than the size.
abbrev pub Sized : ℕ → List (List ℕ) → Type 0
Sized size [] = Unit {0}
Sized size (c ∷ cs) = (1 ≤ length c) × (length c ≤ size) × Sized size cs

length-range : (cursor n : ℕ) → length (range cursor n) ≡ n
unfolding range
length-range cursor zero = refl
length-range cursor (suc n) = ap suc (length-range (cursor + 1) n)

range-append : (cursor m n : ℕ) → range cursor m ++ range (cursor + m) n ≡ range cursor (m + n)
unfolding range
range-append cursor zero n = ap₂ range (omega arith) (omega arith)
range-append cursor (suc m) n =
    ap (λ r. cursor ∷ r)
      (ap (λ c. range (cursor + 1) m ++ range c n) (omega arith) ∙ range-append (cursor + 1) m n)
    ∙ ap (range cursor) (let e : suc (m + n) ≡ suc m + n = omega arith in e)

range_empty : (cursor count : ℕ) → count ≤ cursor → range cursor (count - cursor) ≡ []
unfolding range
range_empty cursor count le = ap (range cursor) (let e : count - cursor ≡ 0 = omega arith in e)

-- The first chunk and the rest, from any cursor below the count.
range-split :
    (cursor count size : ℕ)
    → cursor < count
    → range cursor (min (cursor + size) count - cursor)
        ++ range (cursor + size) (count - (cursor + size))
      ≡ range cursor (count - cursor)
unfolding range
range-split cursor count size lt = elim (dec_le (cursor + size) count) [
  | yes le ↦
      ap₂ (λ a b. range cursor a ++ range b (count - (cursor + size)))
        (let e : min (cursor + size) count - cursor ≡ size = omega arith in e) refl
      ∙ range-append cursor size (count - (cursor + size))
      ∙ ap (range cursor) (omega arith)
  | no past ↦
      ap₂ (λ a b. range cursor a ++ range (cursor + size) b)
        (let e : min (cursor + size) count - cursor ≡ count - cursor = omega arith in e)
        (let e : count - (cursor + size) ≡ 0 = omega arith in e)
      ∙ append-nil (range cursor (count - cursor))
]

chunks_from_lem :
    (fuel cursor count size : ℕ)
    → 0 < size
    → count - cursor ≤ fuel
    → (concat (chunks_from fuel cursor count size) ≡ range cursor (count - cursor))
      × Sized size (chunks_from fuel cursor count size)
unfolding chunks_from
chunks_from_lem zero cursor count size p f = (sym (range_empty cursor count (omega arith)), tt)
chunks_from_lem (suc fuel) cursor count size p f = elim (Bool-cases (ltb cursor count)) [
  | inl more ↦
      let (e, s) = chunks_from_lem fuel (cursor + size) count size p (ground arith) in
      rw more (
        ap (λ r. range cursor (min (cursor + size) count - cursor) ++ r) e
            ∙ range-split cursor count size (ground arith),
        (
          ground (arith, length-range cursor (min (cursor + size) count - cursor)),
          ground (arith, length-range cursor (min (cursor + size) count - cursor)),
          s,
        ),
      )
  | inr end ↦ rw end (sym (range_empty cursor count (ground arith)), tt)
]

-- For safe integers, the count not negative and the size positive, the chunks put together are the
-- participants' indices 0, 1, … in order, whatever the size, and no chunk is empty or longer than
-- the size.
pub deterministic_chunks_cover :
    (count size : ℕ)
    → count < 2 ^ 53
    → 0 < size
    → size < 2 ^ 53
    → (chunks : List (List ℕ)) × (deterministic_chunks (pos count) (pos size) ≡ ok chunks)
      × (concat chunks ≡ range 0 count)
      × Sized size chunks
unfolding deterministic_chunks
deterministic_chunks_cover count size small p small' =
    let (e, s) = chunks_from_lem count 0 count size p (omega arith) in
    (chunks_from count 0 count size, ground arith, e ∙ ap (range 0) (omega arith), s)
