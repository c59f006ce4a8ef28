-- ===== src/Examples/Retries.antt =====
-- The retry loop in a world whose requests are scripted.
use fluss_go.Prelude.{
  ℕ, suc, ◌+◌, ◌<◌, ◌≤◌, ◌≡◌, refl, arith, List, [], ◌∷◌, none, some, true, false,
}
use fluss_go.Prelude.Int.{pos}
use fluss_go.Prelude.Errors.{server, err_invalid_config}
use fluss_go.Writer.Retry.{
  World, WriterRetryPolicy, Outcome, execute_writer_attempts, duplicate_writer_sequence,
  writer_retryable, doubling_delay,
}
use fluss_go.Writer.Retry.Loop.{HasAcknowledgement, success_acknowledged, attempts_counted}

-- The outcomes that are left, and the requests that were made.
abbrev Script : Type 0
Script = List Outcome × ℕ

abbrev next_call : Script → Outcome × Script
next_call ([], n) =
    (record { offset = 0; offset_known = false; error = some err_invalid_config }, ([], suc n))
next_call (o ∷ os, n) = (o, (os, suc n))

abbrev scripted : World Script
scripted = record {
  call = next_call;
  ctx_err = λ w. none;
  observe = λ attempt e w. w;
  wait = λ delay w. (none, w);
}

abbrev five_attempts : WriterRetryPolicy
five_attempts = record { max_attempts = pos 5; backoff = some (doubling_delay 100) }

-- One retriable error, and then offset 8.
abbrev second_time : Script
second_time = (
  record { offset = 0; offset_known = false; error = some (server 6 true) }
      ∷ record { offset = 8; offset_known = true; error = none }
      ∷ [],
  0,
)

succeeds : (execute_writer_attempts scripted five_attempts second_time).0.error ≡ none
unfolding execute_writer_attempts duplicate_writer_sequence writer_retryable
succeeds = refl

success_acknowledged_example :
    HasAcknowledgement scripted five_attempts 1 second_time
      (execute_writer_attempts scripted five_attempts second_time)
success_acknowledged_example = success_acknowledged scripted five_attempts second_time succeeds

calls_counted : (w : Script) → (next_call w).1.1 ≡ suc w.1
calls_counted ([], n) = refl
calls_counted (o ∷ os, n) = refl

attempts_counted_example :
    let r = execute_writer_attempts scripted five_attempts second_time in
    (r.1.1 ≡ 0 + r.0.attempts) × (1 ≤ r.0.attempts) × (r.0.attempts ≤ 5)
attempts_counted_example =
    attempts_counted scripted five_attempts (λ w. w.1) calls_counted (λ attempt e w. refl)
      second_time (omega arith)

-- An error that is not retried.
abbrev refused : Script
refused = (record { offset = 0; offset_known = false; error = some (server 3 false) } ∷ [], 0)

fails : (execute_writer_attempts scripted five_attempts refused).0.error ≡ some (server 3 false)
unfolding execute_writer_attempts duplicate_writer_sequence writer_retryable
fails = refl

early : (execute_writer_attempts scripted five_attempts refused).0.attempts < 5
unfolding execute_writer_attempts duplicate_writer_sequence writer_retryable
early = omega arith
