-- ===== src/Writer/Retry/Policy.antt =====
-- Which retry policies a writer accepts.
use fluss_go.Prelude.{zero, suc, true, inl, inr, Bool-cases, ◌≡◌, refl, arith, ◌⊎◌, ◌↔◌, none}
use fluss_go.Prelude.Int.{ℤ, pos, negsuc, ◌≤ℤ◌, is_minus_one}
use fluss_go.Writer.Retry.{WriterRetryPolicy, validate_writer_retry_policy}

minus_one : (a : ℤ) → is_minus_one a ≡ true → a ≡ negsuc 0
minus_one (pos n) h = cc
minus_one (negsuc zero) h = refl
minus_one (negsuc (suc n)) h = cc

accepted :
    (policy : WriterRetryPolicy) (acks : ℤ)
    → validate_writer_retry_policy policy acks ≡ none
    → (pos 1 ≤ℤ policy.max_attempts)
      × (policy.max_attempts ≤ℤ pos 100)
      × ((policy.max_attempts ≤ℤ pos 1) ⊎ (acks ≡ negsuc 0))
unfolding validate_writer_retry_policy
accepted policy acks h = elim (Bool-cases (is_minus_one acks)) [
  | inl m ↦ (ground arith, ground arith, inr (minus_one acks m))
  | inr m ↦ (ground arith, ground arith, inl (ground arith))
]

acceptable :
    (policy : WriterRetryPolicy) (acks : ℤ)
    → (pos 1 ≤ℤ policy.max_attempts)
      × (policy.max_attempts ≤ℤ pos 100)
      × ((policy.max_attempts ≤ℤ pos 1) ⊎ (acks ≡ negsuc 0))
    → validate_writer_retry_policy policy acks ≡ none
unfolding validate_writer_retry_policy
acceptable policy acks (lo, hi, inl one) = ground arith
acceptable policy acks (lo, hi, inr m) = rw m (ground arith)

-- A policy is accepted exactly if it makes 1 to 100 attempts, and retries only with acks of -1.
pub validate_iff :
    (policy : WriterRetryPolicy) (acks : ℤ)
    → (validate_writer_retry_policy policy acks ≡ none) ↔ (
        (pos 1 ≤ℤ policy.max_attempts)
        × (policy.max_attempts ≤ℤ pos 100)
        × ((policy.max_attempts ≤ℤ pos 1) ⊎ (acks ≡ negsuc 0)))
validate_iff policy acks = (accepted policy acks, acceptable policy acks)
