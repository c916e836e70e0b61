-- ===== src/Reference/Draw/Fairness.antt =====
-- `completePrivateDraw` (reference/leopoldModels.ts): which candidates make a participant win.
use native.Mathlib.Decide.{dec_lt}
use leopold.Prelude.{
  ℕ, ◌+◌, ◌-◌, ◌*◌, ◌/◌, ◌%◌, ◌^◌, ◌≤◌, ◌<◌, ◌≡◌, ◌↔◌, refl, sym, ap, ap₂, subst, ◌∙◌, true, List,
  ◌∷◌, ◌++◌, arith,
}
use leopold.Prelude.Int.{ℤ, pos, negsuc, ◌≤ℤ◌, ◌<ℤ◌, int_laws, parts_of_eq}
use leopold.Prelude.Results.{Result, ok, err}
use leopold.Reference.Rejection.{candidate_objectively_rejected}
use leopold.Reference.Rejection.Uniform.{map_candidate_uniform, map_candidate_rejects}
use leopold.Reference.Draw.{
  DrawParticipant, DrawError, CompleteDrawResult, accepted_ticket_of, complete_private_draw,
}
use leopold.Reference.Draw.Winner.{
  Split-at, sum_nonneg, sum, weight, sum_from-zero, NonnegWeights, NonnegWeights-split,
}
use leopold.Reference.Draw.Settlement.{settled, settle_split}

nonneg_pos : (z : ℤ) → pos 0 ≤ℤ z → (n : ℕ) × (z ≡ pos n)
nonneg_pos (pos n) h = (n, refl)
nonneg_pos (negsuc n) h = absurd (omega arith)

ok_injective : {A : Type 0} (x y : A) → ◌≡◌ {A = Result DrawError A} (ok x) (ok y) → x ≡ y
ok_injective x y e = ground (arith, e)

err_not_ok : {A : Type 0} {x : DrawError} {y : A} → err x ≡ ok y → ⊥
err_not_ok e = ground (arith, e)

module _ (prize timestamp cap : ℤ) where
  -- The completed draw of a candidate and its ticket in which the participant between the others
  -- wins.
  abbrev pub won :
      List DrawParticipant → DrawParticipant → List DrawParticipant → ℕ → ℕ → CompleteDrawResult
  won before p after c ticket = record {
    settlement = settled prize timestamp cap before p after;
    candidate = pos c;
    candidate_valid = true;
    accepted_ticket = pos ticket;
  }

module _ (prize timestamp cap : ℤ) (w : ℕ) (positive : 0 < w) (small : w < 2 ^ 128) where
  below : {t : ℕ} (k : ℕ) → t < w → k < 2 ^ 128 / w → k * w + t < 2 ^ 128
  below k lt h = grind arith

  complete_private_draw_wins :
      (before : List DrawParticipant) (p : DrawParticipant) (after : List DrawParticipant)
      (k b j : ℕ)
      → pos 0 ≤ℤ prize
      → NonnegWeights (before ++ p ∷ after)
      → sum weight (before ++ p ∷ after) ≡ pos w
      → sum weight before ≡ pos b
      → k < 2 ^ 128 / w
      → pos j <ℤ p.weight
      → complete_private_draw (before ++ p ∷ after) (pos (k * w + (b + j))) prize timestamp cap
        ≡ ok (won prize timestamp cap before p after (k * w + (b + j)) (b + j))
  unfolding complete_private_draw accepted_ticket_of
  complete_private_draw_wins before p after k b j hp h total start small_k small_j =
      let (hb, ha, le) = NonnegWeights-split before p after h in
      let t : b + j < w = omega (int_laws, parts_of_eq _ _ total, parts_of_eq _ _ start) in
      rw (sum_from-zero weight (before ++ p ∷ after) ∙ total) (
        rw
          ((map_candidate_uniform w positive small (k * w + (b + j)) (b + j) (below k t small_k)).1
            (k, small_k, t, refl))
          (rw (
            settle_split prize timestamp cap (pos (b + j)) before p after hp h
              (omega (arith, parts_of_eq _ _ start)) (omega (int_laws, parts_of_eq _ _ start)))))

  -- A candidate from the limit on is rejected: nothing is settled.
  pub complete_private_draw_rejects :
      (ps : List DrawParticipant) (c : ℕ)
      → sum weight ps ≡ pos w
      → 2 ^ 128 / w * w ≤ c
      → c < 2 ^ 128
      → complete_private_draw ps (pos c) prize timestamp cap ≡ err candidate_objectively_rejected
  unfolding complete_private_draw accepted_ticket_of
  complete_private_draw_rejects ps c total above h =
      rw (sum_from-zero weight ps ∙ total)
        (rw ((map_candidate_rejects w positive small c h).0.1 above))

  -- A participant wins with a candidate: the candidate is `k * w + b + j` for a `k` below the
  -- quotient `2 ^ 128 / w`, the weight `b` before the participant and a `j` below their weight.
  pub record Wins (ps : List DrawParticipant) (c : ℕ) (r : CompleteDrawResult) : Type 0 where
    pub before : List DrawParticipant
    pub winner : DrawParticipant
    pub after : List DrawParticipant
    pub parts : ps ≡ before ++ winner ∷ after
    pub k : ℕ
    pub b : ℕ
    pub j : ℕ
    pub small_k : k < 2 ^ 128 / w
    pub start : sum weight before ≡ pos b
    pub small_j : pos j <ℤ winner.weight
    pub here : c ≡ k * w + (b + j)
    pub result : r ≡ won prize timestamp cap before winner after c (b + j)

  module _ (ps : List DrawParticipant) (c : ℕ) (r : CompleteDrawResult) (hp : pos 0 ≤ℤ prize)
      (h : NonnegWeights ps) (total : sum weight ps ≡ pos w) (in_range : c < 2 ^ 128) where
    completed_of_Wins : Wins ps c r → complete_private_draw ps (pos c) prize timestamp cap ≡ ok r
    completed_of_Wins x =
        ap₂ (λ qs n. complete_private_draw qs (pos n) prize timestamp cap) x.parts x.here
        ∙ complete_private_draw_wins x.before x.winner x.after x.k x.b x.j hp
            (subst NonnegWeights x.parts h) (ap (sum weight) (sym x.parts) ∙ total) x.start
            x.small_k x.small_j
        ∙ ap ok (
            ap (λ n. won prize timestamp cap x.before x.winner x.after n (x.b + x.j)) (sym x.here)
            ∙ sym x.result)

    Wins-of_accepted :
        complete_private_draw ps (pos c) prize timestamp cap ≡ ok r
        → c < 2 ^ 128 / w * w
        → Wins ps c r
    Wins-of_accepted e accepted =
        let s = Split-at ps (pos (c % w)) (omega arith) (rw total (grind arith)) in
        let (hb, ha, le) =
          NonnegWeights-split s.before s.chosen s.after (subst NonnegWeights s.parts h) in
        let (b, start) = nonneg_pos (sum weight s.before) (sum_nonneg s.before hb) in
        let le_b : b ≤ c % w = omega (int_laws, parts_of_eq _ _ start, s.from) in
        let small : pos (c % w - b) <ℤ s.chosen.weight =
          omega (int_laws, parts_of_eq _ _ start, s.until) in
        let here : c ≡ c / w * w + (b + (c % w - b)) = grind arith in
        let again =
          ap₂ (λ qs n. complete_private_draw qs (pos n) prize timestamp cap) s.parts here
          ∙ complete_private_draw_wins s.before s.chosen s.after (c / w) b (c % w - b) hp
              (subst NonnegWeights s.parts h) (ap (sum weight) (sym s.parts) ∙ total) start
              (grind arith) small in
        record {
          before = s.before;
          winner = s.chosen;
          after = s.after;
          parts = s.parts;
          k = c / w;
          b = b;
          j = c % w - b;
          small_k = grind arith;
          start = start;
          small_j = small;
          here = here;
          result =
              ok_injective _ _ (sym e ∙ again)
              ∙ ap (λ n. won prize timestamp cap s.before s.chosen s.after n (b + (c % w - b)))
                  (sym here);
        }

    -- With weights and a prize that are not negative, a total weight `w` between 0 and 2 ^ 128 and a
    -- candidate below 2 ^ 128, the draw completes with a result exactly where some participant wins
    -- with the candidate and the result is the settlement in which that participant wins. The
    -- candidates with which a participant wins are the numbers `k * w + b + j`, for `k` below
    -- `2 ^ 128 / w`, `b` the weight before the participant and `j` below the participant's weight.
    pub complete_private_draw_fair :
        (complete_private_draw ps (pos c) prize timestamp cap ≡ ok r) ↔ Wins ps c r
    complete_private_draw_fair = (
      λ e. elim (dec_lt c (2 ^ 128 / w * w)) [
        | yes accepted ↦ Wins-of_accepted e accepted
        | no above ↦
            absurd (
              err_not_ok
                (sym (complete_private_draw_rejects ps c total (omega arith) in_range) ∙ e))
      ],
      completed_of_Wins,
    )
