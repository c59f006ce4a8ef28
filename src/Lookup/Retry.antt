-- ===== src/Lookup/Retry.antt =====
-- retryLookup of pkg/fgo/lookup_scheduler.go, over a world W of requests, contexts and timers. The
-- retry metric changes nothing that the loop reads and is left out. A call is the argument of retryLookup,
-- which may send more than one request: Lookup.Reroute has what it does.
pub mod Once
use fluss_go.Prelude.{ℕ, zero, suc, ◌+◌, Bool, true, false, ◌||◌, not, Option, none, some, is_some}
use fluss_go.Prelude.{◌==◌, if◌then◌else◌}
use fluss_go.Prelude.Errors.{GoError, Result, ok, err, err_validation}
use fluss_go.Writer.Retry.{writer_retryable}

pub record LookupWorld (W T : Type 0) : Type 0 where
  pub call : W → Result T × W
  pub ctx_err : W → Option GoError
  pub wait : ℕ → W → Option GoError × W

-- RetryPolicy: MaxAttempts is not negative.
pub record RetryPolicy : Type 0 where
  pub max_attempts : ℕ
  pub backoff : Option (ℕ → ℕ)

module _ {W T : Type 0} (world : LookupWorld W T) (policy : RetryPolicy) (mutation : Bool) where
  open world use {call, ctx_err, wait}

  -- The delay after a failed attempt: Backoff(attempt + 1), or none without a Backoff.
  unfoldable pub lookup_delay : Option (ℕ → ℕ) → ℕ → ℕ
  lookup_delay none attempt = 0
  lookup_delay (some f) attempt = f (attempt + 1)

  -- waitContext, and then the next round or its error.
  unfoldable pub lookup_waited : ℕ → W → (W → Result T × W) → Option GoError × W → Result T × W
  lookup_waited delay w again (some e, w') = (err e, w')
  lookup_waited delay w again (none, w') = again w'

  unfoldable pub lookup_wait : ℕ → W → Option GoError × W
  lookup_wait delay w = if delay == 0 then (none, w) else wait delay w

  unfoldable pub gives_up : ℕ → GoError → W → Bool
  gives_up attempt e w =
      mutation || attempt == policy.max_attempts || not (writer_retryable e) || is_some (ctx_err w)

  unfoldable pub after_lookup : Result T × W → ℕ → (W → Result T × W) → Result T × W
  unfolding lookup_delay lookup_waited lookup_wait gives_up
  after_lookup (ok value, w) attempt again = (ok value, w)
  after_lookup (err e, w) attempt again =
      let delay = lookup_delay policy.backoff attempt in
      if gives_up attempt e w then (err e, w) else lookup_waited delay w again (lookup_wait delay w)

  -- `for attempt := 1; attempt <= policy.MaxAttempts; attempt++`, by the rounds that are left.
  unfoldable pub lookup_rounds : ℕ → ℕ → W → Result T × W
  unfolding after_lookup
  lookup_rounds zero attempt w = (err err_validation, w)
  lookup_rounds (suc rounds) attempt w =
      after_lookup (call w) attempt (lookup_rounds rounds (attempt + 1))

  unfoldable pub retry_lookup : W → Result T × W
  unfolding lookup_rounds
  retry_lookup w = lookup_rounds policy.max_attempts 1 w
