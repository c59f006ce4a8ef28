-- ===== src/Partition/Create/Bounded.antt =====
-- The creation of a partition: when it succeeds, and how often it checks the metadata.
use fluss_go.Prelude.{ℕ, zero, suc, ◌+◌, ◌≤◌, ◌≡◌, refl, arith, ◌&&◌, ◌||◌, not, Option, none, some}
use fluss_go.Prelude.{◌==◌, Bool-cases, inl, inr}
use fluss_go.Prelude.Errors.{GoError}
use fluss_go.Partition.Create.{
  CreationWorld, CreationSettings, pending_partition_metadata, is_missing,
}
use fluss_go.Partition.Create.{
  wait_context, retry_delay, after_wait, after_check, check_rounds, after_create, after_first_check,
  ensure,
}

module _ {W : Type 0} (world : CreationWorld W) (settings : CreationSettings) where
  open world use {check, create, wait}

  abbrev pause : ℕ → W → Option GoError × W
  pause attempt w = wait_context world settings (retry_delay world settings attempt) w

  after_wait_cases {ℓ} :
      (Q : Option GoError × W → Type ℓ) (p : Option GoError × W) (again : W → Option GoError × W)
      → ((e : GoError) → Q (some e, p.1))
      → Q (again p.1)
      → Q (after_wait world settings p again)
  unfolding after_wait
  after_wait_cases Q (none, w) again bad good = good
  after_wait_cases Q (some e, w) again bad good = bad e

  -- The ends of one round.
  after_check_cases {ℓ} :
      (Q : Option GoError × W → Type ℓ) (p : Option GoError × W) (attempt : ℕ)
      (again : W → Option GoError × W)
      → (p.0 ≡ none → Q (none, p.1))
      → ((e : GoError) → Q (some e, p.1))
      → ((e : GoError) → Q (some e, (pause attempt p.1).1))
      → Q (again (pause attempt p.1).1)
      → Q (after_check world settings p attempt again)
  unfolding after_check
  after_check_cases Q (none, w) attempt again fine failed broken more = fine refl
  after_check_cases Q (some e, w) attempt again fine failed broken more =
      elim (Bool-cases
        (not (pending_partition_metadata e) || attempt == settings.metadata_attempts)) [
          | inl stop ↦ rw stop (failed e)
          | inr next ↦ rw next (after_wait_cases Q (pause attempt w) again broken more)
        ]

  -- Some check of the metadata found the partition.
  abbrev pub WasFound : Type 0
  WasFound = (w : W) × ((check w).0 ≡ none)

  check_rounds-WasFound :
      (rounds attempt : ℕ) (last : GoError) (w : W)
      → (check_rounds world settings rounds attempt last w).0 ≡ none
      → WasFound
  unfolding check_rounds
  check_rounds-WasFound zero attempt last w = λ h. cc
  check_rounds-WasFound (suc rounds) attempt last w =
      after_check_cases (λ r. r.0 ≡ none → WasFound) (check w) attempt
        (check_rounds world settings rounds (attempt + 1) last) (λ found h. (w, found)) (λ e h. cc)
        (λ e h. cc) (check_rounds-WasFound rounds (attempt + 1) last _)

  after_create-WasFound :
      (p : Option GoError × W) (last : GoError)
      → (after_create world settings p last).0 ≡ none
      → WasFound
  unfolding after_create
  after_create-WasFound (some e, w) last h = cc
  after_create-WasFound (none, w) last h =
      check_rounds-WasFound settings.metadata_attempts 1 last w h

  after_first_check-WasFound :
      (w : W) (p : Option GoError × W)
      → check w ≡ p
      → (after_first_check world settings p).0 ≡ none
      → WasFound
  unfolding after_first_check
  after_first_check-WasFound w (none, v) same = λ h. (w, rw same refl)
  after_first_check-WasFound w (some e, v) same =
      elim (Bool-cases (not (is_missing e) && not (pending_partition_metadata e))) [
        | inl other ↦ rw other (λ h. cc)
        | inr pending ↦ elim (Bool-cases (is_missing e)) [
          | inl gone ↦ rw (pending, gone) (after_create-WasFound (create v) e)
          | inr there ↦ rw (pending, there) (check_rounds-WasFound settings.metadata_attempts 1 e v)
        ]
      ]

  -- A partition is reported as there only if a check of the metadata found it.
  pub ensure-WasFound : (w : W) → (ensure world settings w).0 ≡ none → WasFound
  unfolding ensure
  ensure-WasFound w = after_first_check-WasFound w (check w) refl

  -- Every check is counted by `count`, and nothing else changes it.
  module _ (count : W → ℕ) (counts : (w : W) → count (check w).1 ≡ suc (count w))
      (creates : (w : W) → count (create w).1 ≡ count w)
      (waits : (attempt : ℕ) (w : W) → count (pause attempt w).1 ≡ count w) where
    check_rounds_count :
        (rounds attempt : ℕ) (last : GoError) (w : W)
        → count (check_rounds world settings rounds attempt last w).1 ≤ count w + rounds
    unfolding check_rounds
    check_rounds_count zero attempt last w = omega arith
    check_rounds_count (suc rounds) attempt last w =
        let n = counts w in
        let paused = waits attempt (check w).1 in
        after_check_cases (λ r. count r.1 ≤ count w + suc rounds) (check w) attempt
          (check_rounds world settings rounds (attempt + 1) last) (λ found. omega arith)
          (λ e. omega arith) (λ e. omega arith)
          (omega
            (arith, check_rounds_count rounds (attempt + 1) last (pause attempt (check w).1).1))

    after_create_count :
        (p : Option GoError × W) (last : GoError)
        → count (after_create world settings p last).1 ≤ count p.1 + settings.metadata_attempts
    unfolding after_create
    after_create_count (some e, w) last = omega arith
    after_create_count (none, w) last = check_rounds_count settings.metadata_attempts 1 last w

    after_first_check_count :
        (p : Option GoError × W)
        → count (after_first_check world settings p).1 ≤ count p.1 + settings.metadata_attempts
    unfolding after_first_check
    after_first_check_count (none, w) = omega arith
    after_first_check_count (some e, w) =
        elim (Bool-cases (not (is_missing e) && not (pending_partition_metadata e))) [
          | inl other ↦ rw other (omega arith)
          | inr pending ↦ elim (Bool-cases (is_missing e)) [
            | inl gone ↦
                rw (pending, gone) (omega (arith, creates w, after_create_count (create w) e))
            | inr there ↦ rw (pending, there) (check_rounds_count settings.metadata_attempts 1 e w)
          ]
        ]

    -- With a count of the checks that nothing else changes: the metadata is checked once, and then
    -- MetadataAttempts times at most.
    pub ensure_checks :
        (w : W) → count (ensure world settings w).1 ≤ count w + 1 + settings.metadata_attempts
    unfolding ensure
    ensure_checks w = omega (arith, counts w, after_first_check_count (check w))
