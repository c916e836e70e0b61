-- ===== src/Reference/Draw/Winner.antt =====
-- The winner predicates of `settlePrivateDraw` (reference/leopoldModels.ts).
use leopold.Prelude.{ℕ, ◌+◌, ◌≡◌, refl, ap, ◌∙◌, Bool, true, false, List, [], ◌∷◌, ◌++◌, map, arith}
use leopold.Prelude.Int.{
  ℤ, pos, ◌+ℤ◌, ◌≤ℤ◌, ◌<ℤ◌, int_laws, +ℤ_assoc, +ℤ_parts, +ℤ_zero, zero-+ℤ, ◌-ℤ◌, pos_part,
  neg_part,
}
use leopold.Prelude.Lists.{length}
use native.Mathlib.Decide.{dec_le}
use leopold.Reference.Draw.{DrawParticipant, sum_from, some_negative, find_winner, count_true}

-- The sum of a field, without an accumulator.
unfoldable pub sum : (DrawParticipant → ℤ) → List DrawParticipant → ℤ
sum field [] = pos 0
sum field (p ∷ ps) = field p +ℤ sum field ps

abbrev pub weight : DrawParticipant → ℤ
weight p = p.weight

pub sum_from-eq-sum :
    (field : DrawParticipant → ℤ) (total : ℤ) (ps : List DrawParticipant)
    → sum_from field total ps ≡ total +ℤ sum field ps
unfolding sum_from sum
sum_from-eq-sum field total [] = omega int_laws
sum_from-eq-sum field total (p ∷ ps) = sum_from-eq-sum field (total +ℤ field p) ps ∙ omega int_laws

abbrev pub NonnegWeights : List DrawParticipant → Type 0
NonnegWeights [] = Unit {0}
NonnegWeights (p ∷ ps) = (pos 0 ≤ℤ p.weight) × NonnegWeights ps

pub sum_nonneg : (ps : List DrawParticipant) → NonnegWeights ps → pos 0 ≤ℤ sum weight ps
unfolding sum
sum_nonneg [] h = omega arith
sum_nonneg (p ∷ ps) h = omega (int_laws, sum_nonneg ps h.1)

pub NonnegWeights-split :
    (before : List DrawParticipant) (p : DrawParticipant) (after : List DrawParticipant)
    → NonnegWeights (before ++ p ∷ after)
    → NonnegWeights before
      × NonnegWeights after
      × (sum weight before +ℤ p.weight ≤ℤ sum weight (before ++ p ∷ after))
unfolding sum
NonnegWeights-split [] p after h = (tt, h.1, omega (int_laws, sum_nonneg after h.1))
NonnegWeights-split (b ∷ bs) p after h =
    let (nb, na, le) = NonnegWeights-split bs p after h.1 in ((h.0, nb), na, omega int_laws)

pub sum_from-zero :
    (field : DrawParticipant → ℤ) (ps : List DrawParticipant)
    → sum_from field (pos 0) ps ≡ sum field ps
sum_from-zero field ps = sum_from-eq-sum field (pos 0) ps ∙ zero-+ℤ (sum field ps)

pub some_negative-false : (ps : List DrawParticipant) → NonnegWeights ps → some_negative ps ≡ false
unfolding some_negative
some_negative-false [] h = refl
some_negative-false (p ∷ ps) h = ground (arith, some_negative-false ps h.1)

abbrev pub losers : List DrawParticipant → List Bool
losers = map (λ _. false)

-- Where the running sum is past the ticket nobody wins.
find_winner_after :
    (ticket : ℤ) (ps : List DrawParticipant) (index : ℕ) (start w : ℤ)
    → NonnegWeights ps
    → ticket <ℤ start
    → find_winner ticket ps index start w ≡ (losers ps, start +ℤ sum weight ps, w)
unfolding find_winner sum
find_winner_after ticket [] index start w h lt = ap (λ t. ([], t, w)) (omega int_laws)
find_winner_after ticket (p ∷ ps) index start w h lt = ground (
  arith,
  find_winner_after ticket ps (index + 1) (start +ℤ p.weight) w h.1,
  +ℤ_parts start p.weight,
  +ℤ_assoc start p.weight (sum weight ps),
)

-- The participant whose interval holds the ticket wins, and nobody else.
pub find_winner_at :
    (ticket : ℤ) (before : List DrawParticipant) (p : DrawParticipant)
    (after : List DrawParticipant) (index : ℕ) (start w : ℤ)
    → NonnegWeights before
    → NonnegWeights after
    → start +ℤ sum weight before ≤ℤ ticket
    → ticket <ℤ start +ℤ sum weight before +ℤ p.weight
    → find_winner ticket (before ++ p ∷ after) index start w ≡ (
      losers before ++ true ∷ losers after,
      start +ℤ sum weight (before ++ p ∷ after),
      pos (index + length before),
    )
unfolding find_winner sum
find_winner_at ticket [] p after index start w hb ha le lt = ground (
  arith,
  find_winner_after ticket after (index + 1) (start +ℤ p.weight) (pos index) ha,
  +ℤ_parts start p.weight,
  +ℤ_zero start,
  +ℤ_assoc start p.weight (sum weight after),
)
find_winner_at ticket (b ∷ bs) p after index start w hb ha le lt = ground (
  arith,
  find_winner_at ticket bs p after (index + 1) (start +ℤ b.weight) w hb.1 ha,
  +ℤ_parts start b.weight,
  +ℤ_parts (start +ℤ b.weight) (sum weight bs),
  sum_nonneg bs hb.1,
  +ℤ_assoc start b.weight (sum weight bs),
  +ℤ_assoc start b.weight (sum weight (bs ++ p ∷ after)),
)

count_true-losers : (ps : List DrawParticipant) → count_true (losers ps) ≡ 0
unfolding count_true
count_true-losers [] = refl
count_true-losers (p ∷ ps) = omega (arith, count_true-losers ps)

pub count_true_one :
    (before after : List DrawParticipant) → count_true (losers before ++ true ∷ losers after) ≡ 1
unfolding count_true
count_true_one [] after = omega (arith, count_true-losers after)
count_true_one (b ∷ bs) after = omega (arith, count_true_one bs after)

-- Every ticket below the total weight falls into one participant's interval.
pub record Split (ps : List DrawParticipant) (ticket : ℤ) : Type 0 where
  pub before : List DrawParticipant
  pub chosen : DrawParticipant
  pub after : List DrawParticipant
  pub parts : ps ≡ before ++ chosen ∷ after
  pub from : sum weight before ≤ℤ ticket
  pub until : ticket <ℤ sum weight before +ℤ chosen.weight

cons-Split :
    (p : DrawParticipant) (ps : List DrawParticipant) (ticket : ℤ)
    → Split ps (ticket -ℤ p.weight)
    → Split (p ∷ ps) ticket
unfolding sum
cons-Split p ps ticket s = record {
  before = p ∷ s.before;
  chosen = s.chosen;
  after = s.after;
  parts = ap (λ t. p ∷ t) s.parts;
  from = omega (int_laws, s.from);
  until = omega (int_laws, s.until);
}

pub Split-at :
    (ps : List DrawParticipant) (ticket : ℤ)
    → pos 0 ≤ℤ ticket
    → ticket <ℤ sum weight ps
    → Split ps ticket
unfolding sum
Split-at [] ticket h lt = absurd (omega arith)
Split-at (p ∷ ps) ticket h lt =
    elim (dec_le (pos_part p.weight + neg_part ticket) (pos_part ticket + neg_part p.weight)) [
      | yes past ↦
          cons-Split p ps ticket
            (Split-at ps (ticket -ℤ p.weight) (omega int_laws) (omega int_laws))
      | no here ↦ record {
        before = [];
        chosen = p;
        after = ps;
        parts = refl;
        from = h;
        until = omega int_laws;
      }
    ]
