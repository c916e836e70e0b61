-- ===== src/Tests/Reliability.antt =====
-- frontend/lib/ops/reliability.ts with a read that fails once.
use leopold.Prelude.{ℕ, zero, suc, ◌+◌, ◌≤◌, ◌≡◌, refl, arith}
use leopold.Prelude.Lists.{length}
use leopold.Prelude.Results.{ok, err}
use leopold.Prelude.Text.{codes, to_lower_case, lower_char}
use leopold.Frontend.Reliability.Failures.{
  http_read, plain_error, is_transient_read_failure, classify_read_failure, network,
}
use leopold.Frontend.Reliability.{Response, settles, Run, with_read_reliability}
use leopold.Frontend.Reliability.Retries.{Retried, with_read_reliability-Retried}

classified : classify_read_failure (plain_error (codes "Error:Connection reset by peer")) ≡ network
unfolding classify_read_failure to_lower_case lower_char
classified = refl

-- The first read is refused by the server, the others give 7.
abbrev read : ℕ → ℕ → Response ℕ × ℕ
read (suc zero) w = (settles 10 (err (http_read 503)), w)
read attempt w = (settles 10 (ok 7), w)

abbrev sleep_after : ℕ → ℕ → ℕ
sleep_after attempt w = w + 200

abbrev run : Run ℕ ℕ
run = with_read_reliability read is_transient_read_failure sleep_after 8_000 3 0

with_read_reliability-Retried_example :
    Retried is_transient_read_failure 3 run.outcomes run.result × (length run.outcomes ≤ 3)
with_read_reliability-Retried_example =
    with_read_reliability-Retried read is_transient_read_failure sleep_after 8_000 3 0 (omega arith)
      (omega arith)
