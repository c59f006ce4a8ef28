-- ===== src/Writer/Retry/Loop.antt =====
-- The retry loop in any world: how often it calls, when it succeeds, and why it gives up.
use fluss_go.Prelude.{
  ℕ, zero, suc, ◌+◌, ◌≤◌, ◌<◌, ◌≡◌, ◌≢◌, refl, ◌∙◌, arith, ◌⊎◌, inl, inr, true, false, Bool, ap,
  ==_iff,
}
use fluss_go.Prelude.{Option, none, some, Bool-cases, Option-cases, is_some}
use fluss_go.Prelude.Int.{pos_part}
use fluss_go.Prelude.Errors.{GoError, server}
use fluss_go.Writer.Retry.{World, WriterRetryPolicy, Outcome, WriterAttemptResult, result_of}
use fluss_go.Writer.Retry.{attempts_loop, after_call, after_error, waited, stops, delay_before}
use fluss_go.Writer.Retry.{execute_writer_attempts, duplicate_writer_sequence, writer_retryable}

module _ {W : Type 0} (world : World W) (policy : WriterRetryPolicy) where
  open world use {call, ctx_err, observe, wait}

  abbrev pause : ℕ → GoError → W → Option GoError × W
  pause attempt e w =
      wait (delay_before world policy policy.backoff attempt) (observe (attempt + 1) e w)

  abbrev Run : Type 0
  Run = WriterAttemptResult × W

  waited_cases {ℓ} :
      (Q : Run → Type ℓ) (p : Option GoError × W) (attempt : ℕ) (again : W → Run)
      → ((c : GoError)
          → p.0 ≡ some c
          → Q (
            record { offset = 0; offset_known = false; attempts = attempt; error = some c },
            p.1,
          ))
      → (p.0 ≡ none → Q (again p.1))
      → Q (waited world policy p attempt again)
  unfolding waited
  waited_cases Q (none, w) attempt again bad good = good refl
  waited_cases Q (some c, w) attempt again bad good = bad c refl

  -- The five ends of one round.
  after_call_cases {ℓ} :
      (Q : Run → Type ℓ) (o : Outcome) (w : W) (attempt : ℕ) (again : W → Run)
      → (o.error ≡ none → Q (result_of o attempt none, w))
      → ((e : GoError)
          → o.error ≡ some e
          → duplicate_writer_sequence e ≡ true
          → Q (result_of o attempt none, w))
      → ((e : GoError)
          → o.error ≡ some e
          → stops world policy attempt e w ≡ true
          → Q (result_of o attempt (some e), w))
      → ((e c : GoError)
          → (pause attempt e w).0 ≡ some c
          → Q (
            record { offset = 0; offset_known = false; attempts = attempt; error = some c },
            (pause attempt e w).1,
          ))
      → ((e : GoError)
          → o.error ≡ some e
          → stops world policy attempt e w ≡ false
          → (pause attempt e w).0 ≡ none
          → Q (again (pause attempt e w).1))
      → Q (after_call world policy (o, w) attempt again)
  unfolding after_call after_error
  after_call_cases Q o w attempt again fine dup stop broken more = elim (Option-cases o.error) [
    | inl e ↦ rw (e, after_call) (fine e)
    | inr (err, e) ↦
        rw (e, after_call)
          (elim (Bool-cases (duplicate_writer_sequence err)) [
            | inl d ↦ rw (d, after_error) (dup err e d)
            | inr d ↦ elim (Bool-cases (stops world policy attempt err w)) [
              | inl s ↦ rw (d, after_error, s) (stop err e s)
              | inr s ↦
                  rw (d, after_error, s)
                    (waited_cases Q (pause attempt err w) attempt again (broken err)
                      (λ p. more err e s p))
            ]
          ])
  ]

  -- The outcome of a request that ended well: without an error, or with the server's error of the code
  -- 32, DUPLICATE_SEQUENCE_EXCEPTION.
  abbrev pub IsAcknowledged : Outcome → Type 0
  IsAcknowledged o =
      (o.error ≡ none) ⊎ ((retriable : Bool) × (o.error ≡ some (server 32 retriable)))

  -- The run goes from an attempt to a later one by requests that failed, each with a wait behind it.
  pub data Reaches : ℕ → W → ℕ → W → Type 0 where
    at_once : (attempt : ℕ) (w : W) → Reaches attempt w attempt w
    again_after :
        (attempt later : ℕ) (w v : W) (e : GoError)
        → (call w).0.error ≡ some e
        → (pause attempt e (call w).1).0 ≡ none
        → Reaches (attempt + 1) (pause attempt e (call w).1).1 later v
        → Reaches attempt w later v

  -- The run ended with a request that ended well, at the attempt that it reports: the result has the
  -- offset of this request, and nothing was done after it.
  abbrev pub HasAcknowledgement : ℕ → W → Run → Type 0
  HasAcknowledgement attempt w r =
      (v : W) × Reaches attempt w r.0.attempts v
      × IsAcknowledged (call v).0
      × (r.0.offset ≡ (call v).0.offset)
      × (r.0.offset_known ≡ (call v).0.offset_known)
      × (r.1 ≡ (call v).1)

  duplicate-server :
      (e : GoError)
      → duplicate_writer_sequence e ≡ true
      → (retriable : Bool) × (e ≡ server 32 retriable)
  unfolding duplicate_writer_sequence
  duplicate-server (server code retriable) h =
      let same : code ≡ 32 = (==_iff code 32).0 h in (retriable, ap (λ n. server n retriable) same)
  duplicate-server _ h = cc

  loop-HasAcknowledgement :
      (rounds attempt : ℕ) (w : W)
      → (attempts_loop world policy rounds attempt w).0.error ≡ none
      → HasAcknowledgement attempt w (attempts_loop world policy rounds attempt w)
  unfolding attempts_loop
  loop-HasAcknowledgement zero attempt w = λ e. cc
  loop-HasAcknowledgement (suc rounds) attempt w =
      after_call_cases (λ r. r.0.error ≡ none → HasAcknowledgement attempt w r) (call w).0
        (call w).1 attempt (attempts_loop world policy rounds (attempt + 1))
        (λ fine _. (w, at_once attempt w, inl fine, refl, refl, refl))
        (λ e is dup _.
          let (retriable, code) = duplicate-server e dup in
          (w, at_once attempt w, inr (retriable, is ∙ ap some code), refl, refl, refl))
        (λ _ _ _ h. cc) (λ _ _ _ h. cc)
        (λ e is s p h.
          let (v, reached, fine, offset, known, last) =
            loop-HasAcknowledgement rounds (attempt + 1) _ h in
          (v, again_after attempt _ w v e is p reached, fine, offset, known, last))

  -- Why a loop gives up before its last attempt.
  abbrev pub HasReason : GoError → Type 0
  HasReason e =
      (writer_retryable e ≡ false)
      ⊎ ((w : W) × (is_some (ctx_err w) ≡ true))
      ⊎ ((d : ℕ) × (w : W) × ((wait d w).0 ≡ some e))

  stop_reason :
      (attempt : ℕ) (e : GoError) (w : W)
      → stops world policy attempt e w ≡ true
      → (attempt ≡ pos_part policy.max_attempts)
        ⊎ (writer_retryable e ≡ false)
        ⊎ (is_some (ctx_err w) ≡ true)
  unfolding stops
  stop_reason attempt e w h = ground arith

  not_last :
      (attempt : ℕ) (e : GoError) (w : W)
      → stops world policy attempt e w ≡ false
      → attempt ≢ pos_part policy.max_attempts
  unfolding stops
  not_last attempt e w h = ground arith

  stopped-HasReason :
      (attempt : ℕ) (e e' : GoError) (w : W)
      → stops world policy attempt e' w ≡ true
      → some e' ≡ some e
      → attempt < pos_part policy.max_attempts
      → HasReason e
  stopped-HasReason attempt e e' w s h early = elim (stop_reason attempt e' w s) [
    | inl last ↦ absurd (omega arith)
    | inr (inl never) ↦ let q : e' ≡ e = cc in inl (rw (← q) never)
    | inr (inr gone) ↦ inr (inl (w, gone))
  ]

  loop-HasReason :
      (rounds attempt : ℕ) (w : W) (e : GoError)
      → attempt + rounds ≡ suc (pos_part policy.max_attempts)
      → 1 ≤ rounds
      → (attempts_loop world policy rounds attempt w).0.error ≡ some e
      → (attempts_loop world policy rounds attempt w).0.attempts < pos_part policy.max_attempts
      → HasReason e
  unfolding attempts_loop
  loop-HasReason zero attempt w e total pos = λ _ _. absurd (omega arith)
  loop-HasReason (suc rounds) attempt w e total pos =
      after_call_cases
        (λ r. r.0.error ≡ some e → r.0.attempts < pos_part policy.max_attempts → HasReason e)
        (call w).0 (call w).1 attempt (attempts_loop world policy rounds (attempt + 1))
        (λ fine h. cc) (λ e' is dup h. cc)
        (λ e' is s h early. stopped-HasReason attempt e e' (call w).1 s h early)
        (λ e' c p h early. inr (inr (_, _, p ∙ h)))
        (λ e' is s p h early.
          loop-HasReason rounds (attempt + 1) _ e (omega arith)
            (omega (arith, not_last attempt e' (call w).1 s)) h early)

  -- Every request is counted by `count`, and nothing else of the loop changes it.
  module _ (count : W → ℕ) (counts : (w : W) → count (call w).1 ≡ suc (count w))
      (keeps : (attempt : ℕ) (e : GoError) (w : W) → count (pause attempt e w).1 ≡ count w) where
    loop_attempts :
        (rounds attempt : ℕ) (w : W)
        → attempt + rounds ≡ suc (pos_part policy.max_attempts)
        → 1 ≤ rounds
        → let r = attempts_loop world policy rounds attempt w in
          (count r.1 + attempt ≡ suc (count w + r.0.attempts))
          × (attempt ≤ r.0.attempts)
          × (r.0.attempts ≤ pos_part policy.max_attempts)
    unfolding attempts_loop
    loop_attempts zero attempt w total pos = absurd (omega arith)
    loop_attempts (suc rounds) attempt w total pos =
        let n = counts w in
        after_call_cases
          (λ r.
            (count r.1 + attempt ≡ suc (count w + r.0.attempts))
            × (attempt ≤ r.0.attempts)
            × (r.0.attempts ≤ pos_part policy.max_attempts))
          (call w).0 (call w).1 attempt (attempts_loop world policy rounds (attempt + 1))
          (λ _. omega arith) (λ _ _ _. omega arith) (λ _ _ _. omega arith)
          (λ e c p. omega (arith, keeps attempt e (call w).1))
          (λ e is s p. omega (
            arith,
            keeps attempt e (call w).1,
            loop_attempts rounds (attempt + 1) (pause attempt e (call w).1).1 (omega arith)
                (omega (arith, not_last attempt e (call w).1 s)),
          ))

    -- With MaxAttempts of 1 or more, and a count of the requests that nothing else changes, the
    -- loop makes exactly as many requests as it reports, which are at least one and at most
    -- MaxAttempts.
    pub attempts_counted :
        (w : W)
        → 1 ≤ pos_part policy.max_attempts
        → let r = execute_writer_attempts world policy w in
          (count r.1 ≡ count w + r.0.attempts)
          × (1 ≤ r.0.attempts)
          × (r.0.attempts ≤ pos_part policy.max_attempts)
    unfolding execute_writer_attempts
    attempts_counted w h =
        omega (arith, loop_attempts (pos_part policy.max_attempts) 1 w (omega arith) h)

  -- A result without an error is that of the request which the run made last, at the attempt that it
  -- reports: the result has this request's offset, and the request had no error, or the server's error
  -- DUPLICATE_SEQUENCE_EXCEPTION of the code 32. Each request before it failed and was followed by a wait
  -- that the context did not end.
  pub success_acknowledged :
      (w : W)
      → (execute_writer_attempts world policy w).0.error ≡ none
      → HasAcknowledgement 1 w (execute_writer_attempts world policy w)
  unfolding execute_writer_attempts
  success_acknowledged w = loop-HasAcknowledgement (pos_part policy.max_attempts) 1 w

  -- With MaxAttempts of 1 or more, a failure before the last attempt has a reason: an error that
  -- is not retried, a context that is done, or a wait that the context ended with this error.
  pub early_failure_reason :
      (w : W) (e : GoError)
      → 1 ≤ pos_part policy.max_attempts
      → (execute_writer_attempts world policy w).0.error ≡ some e
      → (execute_writer_attempts world policy w).0.attempts < pos_part policy.max_attempts
      → HasReason e
  unfolding execute_writer_attempts
  early_failure_reason w e h = loop-HasReason (pos_part policy.max_attempts) 1 w e (omega arith) h
