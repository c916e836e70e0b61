-- ===== src/Frontend/Reliability.antt =====
-- frontend/lib/ops/reliability.ts: reads that are tried again, and writes that are not.
pub mod Failures
pub mod Retries
use leopold.Prelude.{
  ℕ, zero, suc, ◌+◌, Bool, true, false, not, ◌||◌, List, [], ◌∷◌, leb, ltb, if◌then◌else◌,
}
use leopold.Prelude.Results.{Result, ok, err}
use leopold.Prelude.Text.{Text, codes}
use Failures.{ReadError, read_timeout, plain_error, MetricFailureCategory, classify_read_failure}

abbrev pub default_read_max_attempts : ℕ
default_read_max_attempts = 3

-- What a read does: it settles after some milliseconds, or never.
pub data Response (A : Type 0) : Type 0 where
  settles : ℕ → Result ReadError A → Response A
  never : Response A

-- The timer is set before the read is started, so it goes first when both are due.
unfoldable pub race : {A : Type 0} → ℕ → Response A → Result ReadError A
race timeout_ms (settles after result) =
    if ltb after timeout_ms then result else err (read_timeout timeout_ms)
race timeout_ms never = err (read_timeout timeout_ms)

pub data Metric : Type 0 where
  success : Metric
  failure : MetricFailureCategory → Metric

-- The world after the reads, what each of them gave, the metrics and the result.
pub record Run (World A : Type 0) : Type 0 where
  pub world : World
  pub outcomes : List (Result ReadError A)
  pub metrics : List Metric
  pub result : Result ReadError A

module _ {World A : Type 0} (read : ℕ → World → Response A × World)
    (should_retry : ReadError → Bool) (sleep_after : ℕ → World → World)
    (timeout_ms max_attempts : ℕ) where
  attempts_end : World → Run World A
  attempts_end w = record {
    world = w;
    outcomes = [];
    metrics = [];
    result = err (plain_error (codes "Error:READ_RETRY_EXHAUSTED"));
  }

  with_outcome : Result ReadError A → Metric → Run World A → Run World A
  with_outcome r metric rest = record rest {
    outcomes = r ∷ rest.outcomes;
    metrics = metric ∷ rest.metrics;
  }

  stop : Result ReadError A → Metric → World → Run World A
  stop r metric w = record { world = w; outcomes = r ∷ []; metrics = metric ∷ []; result = r }

  -- One round of the loop, with the rest of it.
  unfoldable pub attempt_once : ℕ → Result ReadError A → World → (World → Run World A) → Run World A
  unfolding stop with_outcome
  attempt_once attempt (ok value) w rest = stop (ok value) success w
  attempt_once attempt (err e) w rest =
      if leb max_attempts attempt || not (should_retry e)
      then stop (err e) (failure (classify_read_failure e)) w
      else with_outcome (err e) (failure (classify_read_failure e)) (rest (sleep_after attempt w))

  -- The loop, on fuel; `max_attempts` rounds are enough.
  unfoldable pub attempts_from : ℕ → ℕ → World → Run World A
  unfolding attempts_end
  attempts_from zero attempt w = attempts_end w
  attempts_from (suc fuel) attempt w =
      attempt_once attempt (race timeout_ms (read attempt w).0) (read attempt w).1
        (attempts_from fuel (suc attempt))

  refuse_limit : World → Run World A
  refuse_limit w = record {
    world = w;
    outcomes = [];
    metrics = [];
    result = err (plain_error (codes "Error:INVALID_READ_ATTEMPT_LIMIT"));
  }

  unfoldable pub with_read_reliability : World → Run World A
  unfolding refuse_limit
  with_read_reliability w =
      if ltb max_attempts 1 || ltb default_read_max_attempts max_attempts
      then refuse_limit w
      else attempts_from max_attempts 1 w

submitted_once : {World A : Type 0} → Result ReadError A × World → Run World A
submitted_once (ok value, w) = record {
  world = w;
  outcomes = ok value ∷ [];
  metrics = success ∷ [];
  result = ok value;
}
submitted_once (err e, w) = record {
  world = w;
  outcomes = err e ∷ [];
  metrics = failure (classify_read_failure e) ∷ [];
  result = err e;
}

pub submit_financial_write_once :
    {World A : Type 0} → (World → Result ReadError A × World) → World → Run World A
unfolding submitted_once
submit_financial_write_once write w = submitted_once (write w)
