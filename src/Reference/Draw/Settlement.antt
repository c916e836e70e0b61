-- ===== src/Reference/Draw/Settlement.antt =====
-- `settlePrivateDraw` and `completePrivateDraw` (reference/leopoldModels.ts) as a whole.
use leopold.Prelude.{
  ℕ, ◌≡◌, refl, ap, ap₂, subst, ◌∙◌, true, false, ◌&&◌, none, some, List, [], ◌∷◌, ◌++◌, map, arith,
  if◌then◌else◌,
}
use leopold.Prelude.Int.{
  ℤ, pos, ◌+ℤ◌, ◌-ℤ◌, ◌≤ℤ◌, ◌<ℤ◌, ltb_ℤ, leb_ℤ, +ℤ_zero, -ℤ_zero, zero-+ℤ, negsuc, +ℤ_parts,
  -ℤ_parts, int_laws,
}
use leopold.Prelude.Lists.{length}
use leopold.Prelude.Results.{ok}
use leopold.Reference.Draw.{
  DrawParticipant, SettledParticipant, DrawSettlementResult, Tally, opening_tally, settle_one,
  settle_all, find_winner, settle_private_draw,
}
use leopold.Reference.Draw.Winner.{
  sum, weight, sum_from-zero, NonnegWeights, NonnegWeights-split, sum_nonneg, some_negative-false,
  losers, find_winner_at, count_true_one, Split, Split-at,
}

-- A participant who did not win is settled as they were.
abbrev pub unchanged : DrawParticipant → SettledParticipant
unchanged p = record {
  participant = p;
  winner = false;
  auto_saved_prize = pos 0;
  kept_prize = pos 0;
  auto_save_timestamp = none;
}

-- What the winner saves: the whole prize, if they asked for it and the cap has room for it.
unfoldable pub saved : ℤ → ℤ → ℤ → DrawParticipant → ℤ
saved prize cap principal p = if p.auto_save && leb_ℤ (principal +ℤ prize) cap then prize else pos 0

module _ (prize timestamp cap : ℤ) where
  unfoldable pub paid : ℤ → DrawParticipant → SettledParticipant
  paid principal p =
      let s = saved prize cap principal p in
      record {
        participant = record p {
          principal = p.principal +ℤ s;
          winnings = p.winnings +ℤ (prize -ℤ s);
        };
        winner = true;
        auto_saved_prize = s;
        kept_prize = prize -ℤ s;
        auto_save_timestamp = if ltb_ℤ (pos 0) s then some timestamp else none;
      }

  settle_one_lost :
      (t : Tally) (p : DrawParticipant)
      → settle_one prize timestamp cap t p false ≡ (unchanged p, t)
  unfolding settle_one
  settle_one_lost t p = ground (
    arith,
    +ℤ_zero p.principal,
    +ℤ_zero p.winnings,
    +ℤ_zero t.total_principal,
    +ℤ_zero t.principal_added,
    +ℤ_zero t.winnings_added,
    -ℤ_zero (pos 0),
  )

  settle_losers :
      (t : Tally) (ps : List DrawParticipant)
      → settle_all prize timestamp cap t ps (losers ps) ≡ (map unchanged ps, t)
  unfolding settle_all
  settle_losers t [] = refl
  settle_losers t (p ∷ ps) =
      rw (settle_one_lost t p) (ap (λ r. (unchanged p ∷ r.0, r.1)) (settle_losers t ps))

  abbrev tally_after : Tally → DrawParticipant → Tally
  tally_after t p = record {
    total_principal = t.total_principal +ℤ saved prize cap t.total_principal p;
    principal_added = t.principal_added +ℤ saved prize cap t.total_principal p;
    winnings_added = t.winnings_added +ℤ (prize -ℤ saved prize cap t.total_principal p);
  }

  settle_one_won :
      (t : Tally) (p : DrawParticipant)
      → settle_one prize timestamp cap t p true ≡ (paid t.total_principal p, tally_after t p)
  unfolding settle_one saved paid
  settle_one_won t p = refl

  settle_all_at :
      (t : Tally) (before : List DrawParticipant) (p : DrawParticipant)
      (after : List DrawParticipant)
      → settle_all prize timestamp cap t
          (before ++ p ∷ after)
          (losers before ++ true ∷ losers after)
        ≡ (map unchanged before ++ paid t.total_principal p ∷ map unchanged after, tally_after t p)
  unfolding settle_all
  settle_all_at t [] p after =
      rw (settle_one_won t p)
        (ap (λ r. (paid t.total_principal p ∷ r.0, r.1)) (settle_losers (tally_after t p) after))
  settle_all_at t (b ∷ bs) p after =
      rw (settle_one_lost t b) (ap (λ r. (unchanged b ∷ r.0, r.1)) (settle_all_at t bs p after))

  -- The result when `p`, who stands between `before` and `after`, wins.
  abbrev pub settled :
      List DrawParticipant → DrawParticipant → List DrawParticipant → DrawSettlementResult
  settled before p after =
      let ps = before ++ p ∷ after in
      let principal = sum (λ q. q.principal) ps in
      record {
        total_weight = sum weight ps;
        winner_index = pos (length before);
        final_cumulative = sum weight ps;
        allocated_prize = prize;
        principal_added = saved prize cap principal p;
        winnings_added = prize -ℤ saved prize cap principal p;
        participants = map unchanged before ++ paid principal p ∷ map unchanged after;
      }

  find_winner_start :
      (ticket : ℤ) (before : List DrawParticipant) (p : DrawParticipant)
      (after : List DrawParticipant)
      → NonnegWeights (before ++ p ∷ after)
      → sum weight before ≤ℤ ticket
      → ticket <ℤ sum weight before +ℤ p.weight
      → find_winner ticket (before ++ p ∷ after) 0 (pos 0) (negsuc 0) ≡ (
        losers before ++ true ∷ losers after,
        sum weight (before ++ p ∷ after),
        pos (length before),
      )
  find_winner_start ticket before p after h from until =
      let (hb, ha, le) = NonnegWeights-split before p after h in
      find_winner_at ticket before p after 0 (pos 0) (negsuc 0) hb ha (omega int_laws)
        (omega int_laws)
      ∙ ap₂ {A = ℤ} {B = ℕ} (λ z n. (losers before ++ true ∷ losers after, z, pos n))
          (zero-+ℤ (sum weight (before ++ p ∷ after))) (omega arith)

  pub settle_split :
      (ticket : ℤ) (before : List DrawParticipant) (p : DrawParticipant)
      (after : List DrawParticipant)
      → pos 0 ≤ℤ prize
      → NonnegWeights (before ++ p ∷ after)
      → sum weight before ≤ℤ ticket
      → ticket <ℤ sum weight before +ℤ p.weight
      → settle_private_draw (before ++ p ∷ after) ticket prize timestamp cap
        ≡ ok (settled before p after)
  unfolding settle_private_draw opening_tally
  settle_split ticket before p after hp h from until =
      let ps = before ++ p ∷ after in
      let (hb, ha, le) = NonnegWeights-split before p after h in
      rw (sum_from-zero weight ps) (
        rw (sum_from-zero (λ q. q.principal) ps) (
          rw (find_winner_start ticket before p after h from until) (
            rw
              (settle_all_at
                (record {
                  total_principal = sum (λ q. q.principal) ps;
                  principal_added = pos 0;
                  winnings_added = pos 0;
                })
                before p after)
              (ground (
                arith,
                some_negative-false ps h,
                count_true_one before after,
                sum_nonneg before hb,
                zero-+ℤ (saved prize cap (sum (λ q. q.principal) ps) p),
                zero-+ℤ (prize -ℤ (saved prize cap (sum (λ q. q.principal) ps) p)),
                +ℤ_parts (saved prize cap (sum (λ q. q.principal) ps) p)
                    (prize -ℤ saved prize cap (sum (λ q. q.principal) ps) p),
                -ℤ_parts prize (saved prize cap (sum (λ q. q.principal) ps) p),
                +ℤ_parts (sum weight before) p.weight,
              )))))

  -- For weights and a prize that are not negative and a ticket below their sum, the settlement
  -- returns: none of its reconciliations fails. One participant's interval of cumulative weight
  -- holds the ticket; that participant wins, is paid the prize as saved or kept, and every other
  -- participant is left as they were.
  pub settle_private_draw_total :
      (ps : List DrawParticipant) (ticket : ℤ)
      → pos 0 ≤ℤ prize
      → NonnegWeights ps
      → pos 0 ≤ℤ ticket
      → ticket <ℤ sum weight ps
      → (s : Split ps ticket) × (settle_private_draw ps ticket prize timestamp cap
          ≡ ok (settled s.before s.chosen s.after))
  settle_private_draw_total ps ticket hp h from until =
      let s = Split-at ps ticket from until in
      (
        s,
        ap (λ q. settle_private_draw q ticket prize timestamp cap) s.parts
            ∙ settle_split ticket s.before s.chosen s.after hp (subst NonnegWeights s.parts h)
                s.from s.until,
      )
