-- ===== src/Partition/Create.antt =====
-- pkg/fgo/partition.go: the creation of a partition that a writer misses. What it meets (the checks
-- of the metadata, the request that creates the partition, and the timer) is a world W that each of
-- its steps may change.
pub mod Bounded
use fluss_go.Prelude.{
  ℕ, zero, suc, ◌+◌, ◌*◌, ◌^◌, Bool, true, false, ◌&&◌, ◌||◌, not, Option, none, some,
}
use fluss_go.Prelude.{◌==◌, if◌then◌else◌}
use fluss_go.Prelude.Int.{ℤ, pos, negsuc, pos_part, ltb_ℤ}
use fluss_go.Prelude.Errors.{GoError, Result, ok, err, err_invalid_config}
use fluss_go.Prelude.Errors.{err_unknown_partition, err_no_bucket_leader, err_metadata}
use fluss_go.Writer.Retry.{doubling_delay}

-- DynamicPartitionCreationConfig, with the backoff in nanoseconds.
pub record CreationSettings : Type 0 where
  pub metadata_attempts : ℕ
  pub retry_backoff : ℕ

abbrev is_zero : ℤ → Bool
is_zero (pos zero) = true
is_zero _ = false

-- WithDynamicPartitionCreation: the defaults, and then the tests.
unfoldable pub with_dynamic_partition_creation : ℤ → ℤ → Result CreationSettings
with_dynamic_partition_creation metadata_attempts retry_backoff =
    let attempts = if is_zero metadata_attempts then pos 3 else metadata_attempts in
    let backoff = if is_zero retry_backoff then pos (25 * 10 ^ 6) else retry_backoff in
    if ltb_ℤ attempts (pos 1)
      || ltb_ℤ (pos 10) attempts
      || ltb_ℤ backoff (pos 0)
      || ltb_ℤ (pos (60 * 10 ^ 9)) backoff
    then err err_invalid_config
    else ok (record { metadata_attempts = pos_part attempts; retry_backoff = pos_part backoff })

unfoldable pub is_missing : GoError → Bool
is_missing err_unknown_partition = true
is_missing _ = false

unfoldable pub pending_partition_metadata : GoError → Bool
pending_partition_metadata err_unknown_partition = true
pending_partition_metadata err_no_bucket_leader = true
pending_partition_metadata err_metadata = true
pending_partition_metadata _ = false

-- partitionCreationBackend, and the timer of waitContext.
pub record CreationWorld (W : Type 0) : Type 0 where
  pub check : W → Option GoError × W
  pub create : W → Option GoError × W
  pub wait : ℕ → W → Option GoError × W

module _ {W : Type 0} (world : CreationWorld W) (settings : CreationSettings) where
  open world use {check, create, wait}

  unfoldable pub wait_context : ℕ → W → Option GoError × W
  wait_context delay w = if delay == 0 then (none, w) else wait delay w

  unfoldable pub retry_delay : ℕ → ℕ
  retry_delay attempt = doubling_delay settings.retry_backoff attempt

  -- The next round, or the error of the wait.
  unfoldable pub after_wait : Option GoError × W → (W → Option GoError × W) → Option GoError × W
  after_wait (none, w) again = again w
  after_wait (some e, w) again = (some e, w)

  -- One round: what the check returned.
  unfoldable pub after_check :
      Option GoError × W → ℕ → (W → Option GoError × W) → Option GoError × W
  unfolding wait_context retry_delay after_wait
  after_check (none, w) attempt again = (none, w)
  after_check (some e, w) attempt again =
      if not (pending_partition_metadata e) || attempt == settings.metadata_attempts
      then (some e, w)
      else after_wait (wait_context (retry_delay attempt) w) again

  -- `for attempt := 1; attempt <= MetadataAttempts; attempt++`, by the rounds that are left.
  unfoldable pub check_rounds : ℕ → ℕ → GoError → W → Option GoError × W
  unfolding after_check
  check_rounds zero attempt last w = (some last, w)
  check_rounds (suc rounds) attempt last w =
      after_check (check w) attempt (check_rounds rounds (attempt + 1) last)

  unfoldable pub after_create : Option GoError × W → GoError → Option GoError × W
  unfolding check_rounds
  after_create (some e, w) last = (some e, w)
  after_create (none, w) last = check_rounds settings.metadata_attempts 1 last w

  unfoldable pub after_first_check : Option GoError × W → Option GoError × W
  unfolding after_create
  after_first_check (none, w) = (none, w)
  after_first_check (some e, w) =
      if not (is_missing e) && not (pending_partition_metadata e)
      then (some e, w)
      else if is_missing e
      then after_create (create w) e
      else check_rounds settings.metadata_attempts 1 e w

  -- ensure
  unfoldable pub ensure : W → Option GoError × W
  unfolding after_first_check
  ensure w = after_first_check (check w)
