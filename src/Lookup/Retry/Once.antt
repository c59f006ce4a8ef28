-- ===== src/Lookup/Retry/Once.antt =====
-- How often retryLookup calls.
use fluss_go.Prelude.{
  ℕ, zero, suc, ◌+◌, ◌≤◌, ◌≡◌, refl, arith, Bool, true, Option, none, some, Bool-cases, inl, inr,
}
use fluss_go.Prelude.Errors.{GoError, Result, ok, err}
use fluss_go.Lookup.Retry.{
  LookupWorld, RetryPolicy, lookup_delay, lookup_waited, lookup_wait, gives_up, after_lookup,
  lookup_rounds, retry_lookup,
}

-- A lookup that may insert is the first call, whatever that gives.
pub mutation-call :
    {W T : Type 0} (world : LookupWorld W T) (policy : RetryPolicy) (w : W)
    → 1 ≤ policy.max_attempts
    → retry_lookup world policy true w ≡ world.call w
unfolding retry_lookup
mutation-call {W} {T} world policy w h = rounds policy.max_attempts h
  where
    after_first :
        (p : Result T × W) (again : W → Result T × W) → after_lookup world policy true p 1 again ≡ p
    after_first (ok value, v) again = refl
    after_first (err e, v) again = refl

    rounds : (n : ℕ) → 1 ≤ n → lookup_rounds world policy true n 1 w ≡ world.call w
    rounds zero h = absurd (omega arith)
    rounds (suc n) h = after_first (world.call w) (lookup_rounds world policy true n 2)

-- Every call is counted by `count`, and nothing else changes it.
module _ {W T : Type 0} (world : LookupWorld W T) (policy : RetryPolicy) (count : W → ℕ)
    (counts : (w : W) → count (world.call w).1 ≡ suc (count w)) where
  module _ (mutation : Bool)
      (waits : (delay : ℕ) (w : W)
        → count (lookup_wait world policy mutation delay w).1 ≡ count w) where
    waited_count :
        (delay rounds : ℕ) (w : W) (again : W → Result T × W) (p : Option GoError × W)
        → ((v : W) → count (again v).1 ≤ count v + rounds)
        → count (lookup_waited world policy mutation delay w again p).1 ≤ count p.1 + rounds
    unfolding lookup_waited
    waited_count delay rounds w again (some e, v) h = omega arith
    waited_count delay rounds w again (none, v) h = h v

    after_lookup_count :
        (attempt rounds : ℕ) (p : Result T × W) (again : W → Result T × W)
        → ((v : W) → count (again v).1 ≤ count v + rounds)
        → count (after_lookup world policy mutation p attempt again).1 ≤ count p.1 + rounds
    unfolding after_lookup
    after_lookup_count attempt rounds (ok value, w) again h = omega arith
    after_lookup_count attempt rounds (err e, w) again h =
        let delay = lookup_delay world policy mutation policy.backoff attempt in
        elim (Bool-cases (gives_up world policy mutation attempt e w)) [
          | inl stop ↦ rw stop (omega arith)
          | inr next ↦ rw next (
              omega (
                arith,
                waits delay w,
                waited_count delay rounds w again (lookup_wait world policy mutation delay w) h,
              ))
        ]

    lookup_rounds_count :
        (rounds attempt : ℕ) (w : W)
        → count (lookup_rounds world policy mutation rounds attempt w).1 ≤ count w + rounds
    unfolding lookup_rounds
    lookup_rounds_count zero attempt w = omega arith
    lookup_rounds_count (suc rounds) attempt w = omega (
      arith,
      counts w,
      after_lookup_count attempt rounds (world.call w)
          (lookup_rounds world policy mutation rounds (attempt + 1))
          (lookup_rounds_count rounds (attempt + 1)),
    )

    -- With a count of the calls that nothing else changes, a lookup makes MaxAttempts calls at most.
    pub lookup_attempts :
        (w : W) → count (retry_lookup world policy mutation w).1 ≤ count w + policy.max_attempts
    unfolding retry_lookup
    lookup_attempts w = lookup_rounds_count policy.max_attempts 1 w
