-- ===== src/Reference/Draw/Conservation.antt =====
-- What `settlePrivateDraw` (reference/leopoldModels.ts) adds to the participants' holdings.
use leopold.Prelude.{◌≡◌, refl, sym, subst, ◌⊎◌, inl, inr, ap, List, [], ◌∷◌, ◌++◌, map, arith}
use leopold.Prelude.Int.{ℤ, pos, ◌+ℤ◌, ◌-ℤ◌, ◌≤ℤ◌, ◌<ℤ◌, parts_of_eq, int_laws}
use leopold.Prelude.Results.{ok}
use leopold.Reference.Draw.{
  DrawParticipant, SettledParticipant, DrawSettlementResult, settle_private_draw,
}
use leopold.Reference.Draw.Winner.{sum, weight, NonnegWeights}
use leopold.Reference.Draw.Settlement.{unchanged, saved, paid, settled, settle_private_draw_total}

abbrev pub principal : DrawParticipant → ℤ
principal p = p.principal

abbrev pub winnings : DrawParticipant → ℤ
winnings p = p.winnings

-- The sum of a field of the settled participants.
pub settled_sum : (DrawParticipant → ℤ) → List SettledParticipant → ℤ
settled_sum field [] = pos 0
settled_sum field (q ∷ qs) = field q.participant +ℤ settled_sum field qs

settled_sum-unchanged :
    (field : DrawParticipant → ℤ) (ps : List DrawParticipant)
    → settled_sum field (map unchanged ps) ≡ sum field ps
unfolding settled_sum sum
settled_sum-unchanged field [] = omega int_laws
settled_sum-unchanged field (p ∷ ps) = ap (λ z. field p +ℤ z) (settled_sum-unchanged field ps)

-- One settled participant among unchanged ones.
settled_sum-at :
    (field : DrawParticipant → ℤ) (before : List DrawParticipant) (p : DrawParticipant)
    (q : SettledParticipant) (after : List DrawParticipant) (gain : ℤ)
    → field q.participant ≡ field p +ℤ gain
    → settled_sum field (map unchanged before ++ q ∷ map unchanged after)
      ≡ sum field (before ++ p ∷ after) +ℤ gain
unfolding settled_sum sum
settled_sum-at field [] p q after gain e =
    omega (int_laws, parts_of_eq _ _ e, parts_of_eq _ _ (settled_sum-unchanged field after))
settled_sum-at field (b ∷ bs) p q after gain e =
    omega (int_laws, parts_of_eq _ _ (settled_sum-at field bs p q after gain e))

saved_capped :
    (prize cap total : ℤ) (p : DrawParticipant)
    → (saved prize cap total p ≡ pos 0) ⊎ (total +ℤ saved prize cap total p ≤ℤ cap)
unfolding saved
saved_capped prize cap total p = ground arith

module _ (prize timestamp cap : ℤ) where
  -- What a settlement of these participants keeps.
  pub record Conserves (ps : List DrawParticipant) (r : DrawSettlementResult) : Type 0 where
    pub principal_grows :
        settled_sum principal r.participants ≡ sum principal ps +ℤ r.principal_added
    pub winnings_grow : settled_sum winnings r.participants ≡ sum winnings ps +ℤ r.winnings_added
    pub whole_prize : r.principal_added +ℤ r.winnings_added ≡ prize
    pub capped : (r.principal_added ≡ pos 0) ⊎ (settled_sum principal r.participants ≤ℤ cap)

  settled-Conserves :
      (before : List DrawParticipant) (p : DrawParticipant) (after : List DrawParticipant)
      → Conserves (before ++ p ∷ after) (settled prize timestamp cap before p after)
  unfolding paid
  settled-Conserves before p after =
      let total = sum principal (before ++ p ∷ after) in
      let s = saved prize cap total p in
      let grows =
        settled_sum-at principal before p (paid prize timestamp cap total p) after s refl in
      record {
        principal_grows = grows;
        winnings_grow =
            settled_sum-at winnings before p (paid prize timestamp cap total p) after (prize -ℤ s)
              refl;
        whole_prize = omega int_laws;
        capped = elim (saved_capped prize cap total p) [
          | inl e ↦ inl e
          | inr le ↦ inr (rw grows le)
        ];
      }

  -- For weights and a prize that are not negative and a ticket below the total weight, the
  -- settlement returns, the whole prize is added to the participants' principal and winnings
  -- together and nothing else is, and either no principal is added or the total principal stays
  -- within the cap.
  pub settle_private_draw-Conserves :
      (ps : List DrawParticipant) (ticket : ℤ)
      → pos 0 ≤ℤ prize
      → NonnegWeights ps
      → pos 0 ≤ℤ ticket
      → ticket <ℤ sum weight ps
      → (r : DrawSettlementResult) × (settle_private_draw ps ticket prize timestamp cap ≡ ok r)
        × Conserves ps r
  settle_private_draw-Conserves ps ticket hp h from until =
      let (s, e) = settle_private_draw_total prize timestamp cap ps ticket hp h from until in
      (
        settled prize timestamp cap s.before s.chosen s.after,
        e,
        subst (λ q. Conserves q (settled prize timestamp cap s.before s.chosen s.after))
            (sym s.parts) (settled-Conserves s.before s.chosen s.after),
      )
