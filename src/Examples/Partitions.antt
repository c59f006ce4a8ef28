-- ===== src/Examples/Partitions.antt =====
-- The creation of a partition in a world whose checks are scripted.
use fluss_go.Prelude.{ℕ, suc, ◌≡◌, refl, List, [], ◌∷◌, Option, none, some}
use fluss_go.Prelude.Errors.{GoError, err_unknown_partition, err_metadata}
use fluss_go.Partition.Create.{
  CreationWorld, CreationSettings, ensure, is_missing, pending_partition_metadata,
}
use fluss_go.Partition.Create.{wait_context, retry_delay}
use fluss_go.Writer.Retry.{doubling_delay}
use fluss_go.Prelude.{◌==◌, Bool-cases, inl, inr}
use fluss_go.Partition.Create.Bounded.{WasFound, ensure-WasFound}

-- The checks that still fail, and the number of those that were made.
abbrev Checks : Type 0
Checks = List GoError × ℕ

abbrev next_check : Checks → Option GoError × Checks
next_check ([], n) = (none, ([], suc n))
next_check (e ∷ es, n) = (some e, (es, suc n))

abbrev scripted_checks : CreationWorld Checks
scripted_checks = record {
  check = next_check;
  create = λ w. (none, w);
  wait = λ delay w. (none, w);
}

abbrev three_attempts : CreationSettings
three_attempts = record { metadata_attempts = 3; retry_backoff = 0 }

-- Missing, then without metadata once, and then there.
abbrev missing_once : Checks
missing_once = (err_unknown_partition ∷ err_metadata ∷ [], 0)

created : (ensure scripted_checks three_attempts missing_once).0 ≡ none
unfolding ensure is_missing pending_partition_metadata doubling_delay
created = refl

ensure-WasFound_example : WasFound scripted_checks three_attempts
ensure-WasFound_example = ensure-WasFound scripted_checks three_attempts missing_once created

checks_counted : (w : Checks) → (next_check w).1.1 ≡ suc w.1
checks_counted ([], n) = refl
checks_counted (e ∷ es, n) = refl

waits_counted :
    (attempt : ℕ) (w : Checks)
    → (wait_context scripted_checks three_attempts
        (retry_delay scripted_checks three_attempts attempt)
        w).1.1
      ≡ w.1
unfolding wait_context
waits_counted attempt w =
    elim (Bool-cases (retry_delay scripted_checks three_attempts attempt == 0)) [
      | inl e ↦ rw e refl
      | inr e ↦ rw e refl
    ]
