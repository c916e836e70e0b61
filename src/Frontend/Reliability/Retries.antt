-- ===== src/Frontend/Reliability/Retries.antt =====
-- The tries of a read (frontend/lib/ops/reliability.ts).
use leopold.Prelude.{
  ℕ, zero, suc, ◌+◌, ◌≤◌, ◌≡◌, refl, Bool, true, false, not, ◌||◌, List, [], ◌∷◌, leb, ltb, arith,
  if◌then◌else◌,
}
use leopold.Prelude.Lists.{length}
use leopold.Prelude.Results.{Result, ok, err}
use leopold.Frontend.Reliability.Failures.{ReadError, classify_read_failure}
use leopold.Frontend.Reliability.{
  default_read_max_attempts, Response, race, Run, failure, stop, with_outcome, attempt_once,
  attempts_from, with_read_reliability,
}

-- How the outcomes of at most some reads lead to a result: a value is the result at once, an error is
-- one when no read is left or it may not be retried, and else the reads go on.
pub data Retried {A : Type 0} (should_retry : ReadError → Bool)
    : ℕ → List (Result ReadError A) → Result ReadError A → Type 0 where
  succeeds : {left : ℕ} (a : A) → Retried should_retry (suc left) (ok a ∷ []) (ok a)
  exhausted : (e : ReadError) → Retried should_retry 1 (err e ∷ []) (err e)
  not_retried :
      {left : ℕ} (e : ReadError)
      → should_retry e ≡ false
      → Retried should_retry (suc left) (err e ∷ []) (err e)
  goes_on :
      {left : ℕ} (e : ReadError) {outcomes : List (Result ReadError A)} {r : Result ReadError A}
      → should_retry e ≡ true
      → Retried should_retry left outcomes r
      → Retried should_retry (suc left) (err e ∷ outcomes) r

length-Retried :
    {A : Type 0} {should_retry : ReadError → Bool} (left : ℕ) (outcomes : List (Result ReadError A))
    (r : Result ReadError A)
    → Retried should_retry left outcomes r
    → length outcomes ≤ left
length-Retried (suc left) _ _ (succeeds a) = omega arith
length-Retried _ _ _ (exhausted e) = omega arith
length-Retried (suc left) _ _ (not_retried e h) = omega arith
length-Retried (suc left) (x ∷ outcomes) r (goes_on e h t) =
    let k = length-Retried left outcomes r t in omega arith

module _ {World A : Type 0} (read : ℕ → World → Response A × World)
    (should_retry : ReadError → Bool) (sleep_after : ℕ → World → World)
    (timeout_ms max_attempts : ℕ) where
  abbrev once : (attempt : ℕ) → Result ReadError A → World → (World → Run World A) → Run World A
  once = attempt_once read should_retry sleep_after timeout_ms max_attempts

  failed-Retried :
      (left attempt : ℕ) (x : ReadError) (w : World) (rest : World → Run World A)
      (last retry : Bool)
      → leb max_attempts attempt ≡ last
      → should_retry x ≡ retry
      → attempt + left ≡ max_attempts
      → ((v : World) → 1 ≤ left → Retried should_retry left (rest v).outcomes (rest v).result)
      → let run =
          (if last || not retry
            then stop read should_retry sleep_after timeout_ms max_attempts
                (err x)
                (failure (classify_read_failure x))
                w
            else with_outcome read should_retry sleep_after timeout_ms max_attempts
                (err x)
                (failure (classify_read_failure x))
                (rest (sleep_after attempt w))) in
        Retried should_retry (suc left) run.outcomes run.result
  unfolding stop with_outcome
  failed-Retried left attempt x w rest true false l q e h = not_retried x q
  failed-Retried left attempt x w rest false false l q e h = not_retried x q
  failed-Retried zero attempt x w rest true true l q e h = exhausted x
  failed-Retried (suc left) attempt x w rest true true l q e h = absurd (ground (arith, l, e))
  failed-Retried left attempt x w rest false true l q e h =
      goes_on x q (h (sleep_after attempt w) (ground (arith, l, e)))

  attempt_once-Retried :
      (left attempt : ℕ) (r : Result ReadError A) (w : World) (rest : World → Run World A)
      → attempt + left ≡ max_attempts
      → ((v : World) → 1 ≤ left → Retried should_retry left (rest v).outcomes (rest v).result)
      → Retried should_retry
          (suc left)
          (once attempt r w rest).outcomes
          (once attempt r w rest).result
  unfolding attempt_once stop
  attempt_once-Retried left attempt (ok a) w rest e h = succeeds a
  attempt_once-Retried left attempt (err x) w rest e h =
      failed-Retried left attempt x w rest (leb max_attempts attempt) (should_retry x) refl refl e h

  attempts_from-Retried :
      (fuel attempt : ℕ) (w : World)
      → attempt + fuel ≡ suc max_attempts
      → 1 ≤ fuel
      → let run =
          attempts_from read should_retry sleep_after timeout_ms max_attempts fuel attempt w in
        Retried should_retry fuel run.outcomes run.result
  unfolding attempts_from
  attempts_from-Retried zero attempt w e f = absurd (omega arith)
  attempts_from-Retried (suc fuel) attempt w e f =
      attempt_once-Retried fuel attempt (race timeout_ms (read attempt w).0) (read attempt w).1
        (attempts_from read should_retry sleep_after timeout_ms max_attempts fuel (suc attempt))
        (omega arith) (λ v g. attempts_from-Retried fuel (suc attempt) v (omega arith) g)

  -- With a limit of one to three attempts, the outcomes of the reads lead to the result by the rule
  -- of retries, and there are no more of them than the limit: the first value is the result, an
  -- error that may be retried is followed by another read while attempts are left, and otherwise the
  -- error of the last read is the result. The loop never ends without the result of a read.
  pub with_read_reliability-Retried :
      (w : World)
      → 1 ≤ max_attempts
      → max_attempts ≤ default_read_max_attempts
      → let run = with_read_reliability read should_retry sleep_after timeout_ms max_attempts w in
        Retried should_retry max_attempts run.outcomes run.result
        × (length run.outcomes ≤ max_attempts)
  unfolding with_read_reliability
  with_read_reliability-Retried w some few = rw enough (all, length-Retried max_attempts _ _ all)
    where
      enough : ltb max_attempts 1 || ltb default_read_max_attempts max_attempts ≡ false
      enough = ground arith

      all :
          let run =
            attempts_from read should_retry sleep_after timeout_ms max_attempts max_attempts 1 w in
          Retried should_retry max_attempts run.outcomes run.result
      all = attempts_from-Retried max_attempts 1 w (omega arith) some
