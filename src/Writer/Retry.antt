-- ===== src/Writer/Retry.antt =====
-- pkg/fgo/writer_retry.go: the bounded retries of one encoded batch. What the loop meets (the
-- requests, the context and the timer) is a world W that each of its steps may change.
pub mod Backoff
pub mod Loop
pub mod Policy
use fluss_go.Prelude.{
  ℕ, zero, suc, ◌+◌, ◌*◌, ◌-◌, ◌^◌, is_some, Bool, true, false, ◌&&◌, ◌||◌, not, Option, none, some,
}
use fluss_go.Prelude.{List, [], ◌∷◌, ◌++◌, ltb, leb, ◌==◌, if◌then◌else◌}
use fluss_go.Prelude.Int.{ℤ, pos, negsuc, pos_part, neg_part, ltb_ℤ, is_minus_one}
use fluss_go.Prelude.Errors.{GoError, server, err_closed, err_invalid_config, canceled}
use fluss_go.Prelude.Errors.{deadline_exceeded, connection_closed, network, err_writer_state}

abbrev pub max_writer_attempts : ℕ
max_writer_attempts = 100

-- ErrorCodeDuplicateSequenceException of pkg/fmsg/api_keys_gen.go
abbrev pub duplicate_sequence : ℕ
duplicate_sequence = 32

-- shouldReplaceConnection of pkg/fgo/client.go
unfoldable pub should_replace_connection : GoError → Bool
should_replace_connection err_closed = true
should_replace_connection connection_closed = true
should_replace_connection canceled = false
should_replace_connection deadline_exceeded = false
should_replace_connection network = true
should_replace_connection _ = false

unfoldable pub writer_retryable : GoError → Bool
writer_retryable (server code retriable) = retriable
writer_retryable e = should_replace_connection e

unfoldable pub duplicate_writer_sequence : GoError → Bool
duplicate_writer_sequence (server code retriable) = code == duplicate_sequence
duplicate_writer_sequence e = false

-- Durations are in nanoseconds.
abbrev pub second : ℕ
second = 10 ^ 9

-- `for current := 1; current < attempt && delay < time.Second; current++ { delay *= 2 }`, by the
-- rounds that are left.
double_loop : ℕ → ℕ → ℕ
double_loop zero delay = delay
double_loop (suc rounds) delay =
    let rest = double_loop rounds (delay * 2) in if ltb delay second then rest else delay

-- The delay before the next attempt: `first` doubled for each failed attempt, one second at most.
unfoldable pub doubling_delay : ℕ → ℕ → ℕ
unfolding double_loop
doubling_delay first attempt =
    let delay = double_loop (attempt - 1) first in if ltb second delay then second else delay

pub record WriterRetryPolicy : Type 0 where
  pub max_attempts : ℤ
  pub backoff : Option (ℕ → ℕ)

unfoldable pub default_writer_retry_policy : WriterRetryPolicy
default_writer_retry_policy = record {
  max_attempts = pos 1;
  backoff = some (doubling_delay (100 * 10 ^ 6));
}

-- The test of MaxAttempts, and then the test that retries want acks of -1.
unfoldable pub validate_writer_retry_policy : WriterRetryPolicy → ℤ → Option GoError
validate_writer_retry_policy policy acks =
    if ltb_ℤ policy.max_attempts (pos 1) || ltb_ℤ (pos max_writer_attempts) policy.max_attempts
    then some err_invalid_config
    else if ltb_ℤ (pos 1) policy.max_attempts && not (is_minus_one acks)
    then some err_invalid_config
    else none

-- What one request returns: the offset, whether it is known, and the error.
pub record Outcome : Type 0 where
  pub offset : ℕ
  pub offset_known : Bool
  pub error : Option GoError

pub record WriterAttemptResult : Type 0 where
  pub offset : ℕ
  pub offset_known : Bool
  pub attempts : ℕ
  pub error : Option GoError

-- The effects of the loop: the request, ctx.Err, the retry metric (with the next attempt's number
-- and the error), and waitContext.
pub record World (W : Type 0) : Type 0 where
  pub call : W → Outcome × W
  pub ctx_err : W → Option GoError
  pub observe : ℕ → GoError → W → W
  pub wait : ℕ → W → Option GoError × W

abbrev result_of : Outcome → ℕ → Option GoError → WriterAttemptResult
result_of o attempt e = record {
  offset = o.offset;
  offset_known = o.offset_known;
  attempts = attempt;
  error = e;
}

module _ {W : Type 0} (world : World W) (policy : WriterRetryPolicy) where
  open world use {call, ctx_err, observe, wait}

  unfoldable pub delay_before : Option (ℕ → ℕ) → ℕ → ℕ
  delay_before none attempt = 0
  delay_before (some f) attempt = f attempt

  stops : ℕ → GoError → W → Bool
  stops attempt e w =
      attempt == pos_part policy.max_attempts || not (writer_retryable e) || is_some (ctx_err w)

  -- The end of waitContext: the next round, or its error.
  waited : Option GoError × W → ℕ → (W → WriterAttemptResult × W) → WriterAttemptResult × W
  waited (none, w) attempt again = again w
  waited (some e, w) attempt again =
      (record { offset = 0; offset_known = false; attempts = attempt; error = some e }, w)

  -- What follows a request that returned an error.
  after_error : Outcome → GoError → ℕ → W → (W → WriterAttemptResult × W) → WriterAttemptResult × W
  unfolding delay_before stops waited
  after_error o e attempt w again =
      if duplicate_writer_sequence e
      then (result_of o attempt none, w)
      else if stops attempt e w
      then (result_of o attempt (some e), w)
      else waited (wait (delay_before policy.backoff attempt) (observe (attempt + 1) e w)) attempt
          again

  after_call : Outcome × W → ℕ → (W → WriterAttemptResult × W) → WriterAttemptResult × W
  unfolding after_error
  after_call (o, w) attempt again = elim o.error [
    | none ↦ (result_of o attempt none, w)
    | some e ↦ after_error o e attempt w again
  ]

  -- The loop `for attempt := 1; attempt <= policy.MaxAttempts; attempt++` by the rounds that are left.
  attempts_loop : ℕ → ℕ → W → WriterAttemptResult × W
  unfolding after_call
  attempts_loop zero attempt w = (
    record { offset = 0; offset_known = false; attempts = 0; error = some err_invalid_config },
    w,
  )
  attempts_loop (suc rounds) attempt w =
      after_call (call w) attempt (attempts_loop rounds (attempt + 1))

  unfoldable pub execute_writer_attempts : W → WriterAttemptResult × W
  unfolding attempts_loop
  execute_writer_attempts w = attempts_loop (pos_part policy.max_attempts) 1 w

  -- `if result.err != nil && requestCtx.Err() != nil { result.err = requestCtx.Err() }`
  context_error_first : WriterAttemptResult → Option GoError → WriterAttemptResult
  context_error_first r c = if is_some r.error && is_some c then record r { error = c } else r

  unfoldable pub execute_writer_request : W → WriterAttemptResult × W
  unfolding context_error_first execute_writer_attempts
  execute_writer_request w =
      let (r, w') = execute_writer_attempts w in (context_error_first r (ctx_err w'), w')
