-- ===== src/Writer/Upsert/Weights.antt =====
-- A weight of the writes that a bucket holds and of those whose future was completed: what the steps on
-- one bucket keep. A weight of 1 for one write and 0 for the others counts the write.
use fluss_go.Prelude.{ℕ, ◌+◌, Bool, false, List, [], ◌∷◌, ◌++◌, Option, none, some}
use fluss_go.Prelude.{◌==◌, ◌≡◌, refl, ap, arith, if_cases, Bool-cases, inl, inr}
use fluss_go.Prelude.Int.{ℤ, pos}
use fluss_go.Prelude.Errors.{GoError}
use fluss_go.Writer.Upsert.Slot.{
  KvWrite, KvPending, KvSlot, KvDone, KvReply, Pressure, failed, acknowledged, complete_writes,
  complete_kv_batch, complete_kv_batches, has_items, flush_batch, flush_open, flush_kv_slot,
  finish_kv_batch, finish_running, finish_kv_slot, append_kv_slot, drop_kv_slot, is_kv_ready,
  start_batch, start_kv_slot, add_to_batch, batch_for,
}
use fluss_go.Writer.Upsert.Kept.{ready_idle}
use fluss_go.Writer.Upsert.{KvAction, at_kv_bucket, find_kv_slot, dispatch_kv_pass}

module _ (w : KvWrite → ℕ) where
  abbrev pub weigh : List KvWrite → ℕ
  weigh [] = 0
  weigh (i ∷ is) = w i + weigh is

  abbrev pub weigh_open : Option KvPending → ℕ
  weigh_open none = 0
  weigh_open (some b) = weigh b.items

  abbrev pub weigh_batches : List KvPending → ℕ
  weigh_batches [] = 0
  weigh_batches (b ∷ bs) = weigh b.items + weigh_batches bs

  abbrev pub weigh_slot : KvSlot → ℕ
  weigh_slot s = weigh_open s.batch + weigh_batches s.pending + weigh_open s.running

  abbrev pub weigh_slots : List KvSlot → ℕ
  weigh_slots [] = 0
  weigh_slots (s ∷ ss) = weigh_slot s + weigh_slots ss

  abbrev pub weigh_done : List KvDone → ℕ
  weigh_done [] = 0
  weigh_done (d ∷ ds) = w d.item + weigh_done ds

  weigh-append : (xs ys : List KvWrite) → weigh (xs ++ ys) ≡ weigh xs + weigh ys
  weigh-append [] ys = omega arith
  weigh-append (x ∷ xs) ys = omega (arith, weigh-append xs ys)

  weigh_batches-append :
      (xs ys : List KvPending) → weigh_batches (xs ++ ys) ≡ weigh_batches xs + weigh_batches ys
  weigh_batches-append [] ys = omega arith
  weigh_batches-append (x ∷ xs) ys = omega (arith, weigh_batches-append xs ys)

  pub weigh_done-append :
      (xs ys : List KvDone) → weigh_done (xs ++ ys) ≡ weigh_done xs + weigh_done ys
  weigh_done-append [] ys = omega arith
  weigh_done-append (x ∷ xs) ys = omega (arith, weigh_done-append xs ys)

  weigh_done-complete_writes :
      (is : List KvWrite) (b : ℕ) (offset : ℤ) (known : Bool) (p : Option Pressure)
      (e : Option GoError)
      → weigh_done (complete_writes is b offset known p e) ≡ weigh is
  unfolding complete_writes
  weigh_done-complete_writes [] b offset known p e = refl
  weigh_done-complete_writes (i ∷ is) b offset known p e =
      omega (arith, weigh_done-complete_writes is b _ known p e)

  weigh_done-complete_kv_batch :
      (x : KvPending) (b : ℕ) (log_end : ℤ) (known : Bool) (p : Option Pressure)
      (e : Option GoError)
      → weigh_done (complete_kv_batch x b log_end known p e) ≡ weigh x.items
  unfolding complete_kv_batch
  weigh_done-complete_kv_batch x b log_end known p e =
      weigh_done-complete_writes x.items b _ known p e

  weigh_done-complete_kv_batches :
      (xs : List KvPending) (b : ℕ) (e : Option GoError)
      → weigh_done (complete_kv_batches xs b e) ≡ weigh_batches xs
  unfolding complete_kv_batches
  weigh_done-complete_kv_batches [] b e = refl
  weigh_done-complete_kv_batches (x ∷ xs) b e = omega (
    arith,
    weigh_done-append (complete_kv_batch x b (pos 0) false none e) (complete_kv_batches xs b e),
    weigh_done-complete_kv_batch x b (pos 0) false none e,
    weigh_done-complete_kv_batches xs b e,
  )

  -- An action that completes what it takes out of the bucket, and puts k into it.
  abbrev pub Keeps : ℕ → KvSlot × List KvDone → KvSlot → Type 0
  Keeps k r s = weigh_slot r.0 + weigh_done r.1 ≡ weigh_slot s + k

  flush_batch-Keeps :
      (b : KvPending) (poisoned : Option GoError) (s : KvSlot)
      → s.batch ≡ some b
      → Keeps 0 (flush_batch b poisoned s) s
  unfolding flush_batch
  flush_batch-Keeps b (some e) s h =
      omega (arith, ap weigh_open h, weigh_done-complete_kv_batch b s.bucket (pos 0) false none _)
  flush_batch-Keeps b none s h =
      omega (arith, ap weigh_open h, weigh_batches-append s.pending (b ∷ []))

  flush_open-Keeps : (o : Option KvPending) (s : KvSlot) → s.batch ≡ o → Keeps 0 (flush_open o s) s
  unfolding flush_open
  flush_open-Keeps none s h = omega arith
  flush_open-Keeps (some b) s h =
      if_cases (λ (r : KvSlot × List KvDone). Keeps 0 r s) (has_items b)
        (λ _. flush_batch-Keeps b s.poisoned s h) (λ _. omega arith)

  pub flush_kv_slot-Keeps : (s : KvSlot) → Keeps 0 (flush_kv_slot s) s
  unfolding flush_kv_slot
  flush_kv_slot-Keeps s = flush_open-Keeps s.batch s refl

  finish_running-Keeps :
      (max now : ℕ) (reply : KvReply) (o : Option KvPending) (s : KvSlot)
      → s.running ≡ o
      → Keeps 0 (finish_running max now reply o s) s
  unfolding finish_running finish_kv_batch
  finish_running-Keeps max now reply none s h = omega arith
  finish_running-Keeps max now (failed e) (some b) s h = omega (
    arith,
    ap weigh_open h,
    weigh_done-append (complete_kv_batch b s.bucket (pos 0) false none (some e)) _,
    weigh_done-complete_kv_batch b s.bucket (pos 0) false none (some e),
    weigh_done-complete_kv_batches s.pending s.bucket _,
  )
  finish_running-Keeps max now (acknowledged log_end known p) (some b) s h =
      omega (arith, ap weigh_open h, weigh_done-complete_kv_batch b s.bucket log_end known p none)

  pub finish_kv_slot-Keeps :
      (max now : ℕ) (reply : KvReply) (s : KvSlot) → Keeps 0 (finish_kv_slot max now reply s) s
  unfolding finish_kv_slot
  finish_kv_slot-Keeps max now reply s = finish_running-Keeps max now reply s.running s refl

  add_to_batch-weigh :
      (i : KvWrite) (o : Option KvPending)
      → weigh (add_to_batch i (batch_for i o)).items ≡ weigh_open o + w i
  add_to_batch-weigh i none = omega arith
  add_to_batch-weigh i (some b) = omega (arith, weigh-append b.items (i ∷ []))

  pub append_kv_slot-Keeps : (i : KvWrite) (s : KvSlot) → Keeps (w i) (append_kv_slot i s) s
  unfolding append_kv_slot
  append_kv_slot-Keeps i s = omega (arith, add_to_batch-weigh i s.batch)

  pub drop_kv_slot-Keeps : (s : KvSlot) → weigh_open s.batch ≡ 0 → Keeps 0 (drop_kv_slot s) s
  unfolding drop_kv_slot
  drop_kv_slot-Keeps s h = omega arith

  start_batch-weigh :
      (now : ℕ) (pending : List KvPending) (s : KvSlot)
      → s.pending ≡ pending
      → s.running ≡ none
      → weigh_slot (start_batch now pending s) ≡ weigh_slot s
  unfolding start_batch
  start_batch-weigh now [] s p r = refl
  start_batch-weigh now (b ∷ bs) s p r = omega (arith, ap weigh_batches p, ap weigh_open r)

  pub dispatch_pass-weigh :
      (now max n : ℕ) (ss : List KvSlot)
      → weigh_slots (dispatch_kv_pass now max n ss).0 ≡ weigh_slots ss
  unfolding dispatch_kv_pass start_kv_slot
  dispatch_pass-weigh now max n [] = refl
  dispatch_pass-weigh now max n (s ∷ ss) =
      let Q : List KvSlot × ℕ × Bool → Type 0 = λ r. weigh_slots r.0 ≡ weigh_slots (s ∷ ss) in
      let more = dispatch_pass-weigh now max (n + 1) ss in
      let rest = dispatch_pass-weigh now max n ss in
      if_cases Q (is_kv_ready s)
        (λ ready.
          let started = start_batch-weigh now s.pending s refl (ready_idle s ready) in
          if_cases Q (n + 1 == max) (λ _. omega (arith, started))
            (λ _. omega (arith, started, more)))
        (λ _. omega (arith, rest))

  -- An action on the slot of a bucket keeps the weight of all slots, when it keeps that of the slot.
  pub at_kv_bucket-Keeps :
      (b : ℕ) (act : KvAction) (ss : List KvSlot)
      → ((s : KvSlot) → find_kv_slot b ss ≡ some s → Keeps 0 (act s) s)
      → weigh_slots (at_kv_bucket b act ss).0 + weigh_done (at_kv_bucket b act ss).1
        ≡ weigh_slots ss
  unfolding at_kv_bucket find_kv_slot
  at_kv_bucket-Keeps b act [] = λ h. omega arith
  at_kv_bucket-Keeps b act (s ∷ ss) = elim (Bool-cases (s.bucket == b)) [
    | inl q ↦ rw q (λ h. omega (arith, h s refl))
    | inr q ↦ rw q (λ h. omega (arith, at_kv_bucket-Keeps b act ss h))
  ]

  -- A write that joins the batch of a bucket that the writer has.
  pub at_kv_bucket-adds :
      (b : ℕ) (i : KvWrite) (ss : List KvSlot) (s : KvSlot)
      → find_kv_slot b ss ≡ some s
      → weigh_slots (at_kv_bucket b (append_kv_slot i) ss).0
          + weigh_done (at_kv_bucket b (append_kv_slot i) ss).1
        ≡ weigh_slots ss + w i
  unfolding at_kv_bucket find_kv_slot
  at_kv_bucket-adds b i [] s = λ h. cc
  at_kv_bucket-adds b i (x ∷ ss) s = elim (Bool-cases (x.bucket == b)) [
    | inl q ↦ rw q (λ h. omega (arith, append_kv_slot-Keeps i x))
    | inr q ↦ rw q (λ h. omega (arith, at_kv_bucket-adds b i ss s h))
  ]
