-- ===== src/Writer/Upsert/Uniform.antt =====
-- The batches of the upsert writer: what is sent in one request belongs together.
use mathlib.Core.Path.{subst}
use fluss_go.Prelude.{
  ℕ, Bool, true, false, ◌&&◌, not, List, [], ◌∷◌, ◌++◌, Option, none, some, All, All-append,
}
use fluss_go.Prelude.{◌≡◌, refl, sym, ap, ◌∙◌, if_cases, map, inl, inr, Bool-cases, ◌==◌, ==_iff}
use fluss_go.Prelude.Errors.{GoError}
use fluss_go.RecordBatch.Kv.{KvRecord}
use fluss_go.Writer.Upsert.Slot.{
  KvWrite, KvPending, KvSlot, KvDone, KvReply, failed, acknowledged, has_items, flush_batch,
  flush_open, flush_kv_slot, finish_kv_batch, finish_running, finish_kv_slot, append_kv_slot,
  drop_kv_slot, start_batch, start_kv_slot, add_to_batch, batch_for,
}
use fluss_go.Writer.Upsert.{
  UpsertConfig, UpsertLoop, UpsertEvent, is_incompatible, same_targets, run_upsert,
}
use fluss_go.Writer.Upsert.Kept.{IsStepKept, run_upsert-All}

abbrev pub record_of : KvWrite → KvRecord
record_of i = i.record_data

-- The writes of a batch update the batch's target columns, and its records are theirs, in order.
unfoldable pub IsUniform : KvPending → Type 0
IsUniform b =
    All (λ (i : KvWrite). i.targets ≡ b.targets) b.items × (b.records ≡ map record_of b.items)

abbrev pub IsUniformOption : Option KvPending → Type 0
IsUniformOption none = Unit
IsUniformOption (some b) = IsUniform b

-- The open batch of a bucket, the pending ones and the one in flight.
unfoldable pub AllUniform : KvSlot → Type 0
unfolding IsUniform
AllUniform s = IsUniformOption s.batch × All IsUniform s.pending × IsUniformOption s.running

same_targets_lem : (xs ys : List ℕ) → same_targets xs ys ≡ true → xs ≡ ys
unfolding same_targets
same_targets_lem [] [] h = refl
same_targets_lem [] (y ∷ ys) h = cc
same_targets_lem (x ∷ xs) [] h = cc
same_targets_lem (x ∷ xs) (y ∷ ys) h = elim (Bool-cases (x == y)) [
  | inl e ↦
      let one : x ≡ y = (==_iff x y).0 e in
      rw (one, same_targets_lem xs ys (subst (λ b. b && same_targets xs ys ≡ true) e h)) refl
  | inr e ↦ cc (subst (λ b. b && same_targets xs ys ≡ true) e h)
]

map-snoc :
    (is : List KvWrite) (i : KvWrite)
    → map record_of (is ++ (i ∷ [])) ≡ map record_of is ++ (i.record_data ∷ [])
map-snoc [] i = refl
map-snoc (j ∷ is) i = ap (λ (rs : List KvRecord). j.record_data ∷ rs) (map-snoc is i)

not-false : (b : Bool) → not b ≡ false → b ≡ true
not-false true h = refl
not-false false h = cc

append-IsUniform :
    (i : KvWrite) (o : Option KvPending)
    → is_incompatible o i ≡ false
    → IsUniformOption o
    → IsUniform (add_to_batch i (batch_for i o))
unfolding is_incompatible IsUniform
append-IsUniform i none fits u = ((refl, _), refl)
append-IsUniform i (some b) fits (all, records) =
    let same : i.targets ≡ b.targets =
      sym (
        same_targets_lem b.targets i.targets (not-false (same_targets b.targets i.targets) fits)) in
    (
      All-append (λ (j : KvWrite). j.targets ≡ b.targets) b.items (i ∷ []) all (same, _),
      ap (λ (rs : List KvRecord). rs ++ (i.record_data ∷ [])) records ∙ sym (map-snoc b.items i),
    )

flush-AllUniform :
    (b : KvPending) (poisoned : Option GoError) (s : KvSlot)
    → IsUniform b
    → AllUniform s
    → AllUniform (flush_batch b poisoned s).0
unfolding flush_batch AllUniform
flush-AllUniform b (some e) s u (open', pending, running) = (_, pending, running)
flush-AllUniform b none s u (open', pending, running) =
    (_, All-append IsUniform s.pending (b ∷ []) pending (u, _), running)

flush_open-AllUniform :
    (o : Option KvPending) (s : KvSlot)
    → IsUniformOption o
    → AllUniform s
    → AllUniform (flush_open o s).0
unfolding flush_open
flush_open-AllUniform none s u h = h
flush_open-AllUniform (some b) s u h =
    if_cases (λ (r : KvSlot × List KvDone). AllUniform r.0) (has_items b)
      (λ _. flush-AllUniform b s.poisoned s u h) (λ _. h)

finish-AllUniform :
    (max now : ℕ) (reply : KvReply) (o : Option KvPending) (s : KvSlot)
    → AllUniform s
    → AllUniform (finish_running max now reply o s).0
unfolding finish_running finish_kv_batch AllUniform
finish-AllUniform max now reply none s h = h
finish-AllUniform max now (failed e) (some b) s (open', pending, running) = (open', _, _)
finish-AllUniform max now (acknowledged log_end known pressure) (some b) s
      (open', pending, running) =
    (open', pending, _)

start-AllUniform :
    (now : ℕ) (pending : List KvPending) (s : KvSlot)
    → All IsUniform pending
    → AllUniform s
    → AllUniform (start_batch now pending s)
unfolding start_batch AllUniform
start-AllUniform now [] s all h = h
start-AllUniform now (b ∷ bs) s (u, all) (open', pending, running) = (open', all, u)

AllUniform-IsStepKept : IsStepKept AllUniform
unfolding AllUniform flush_kv_slot finish_kv_slot start_kv_slot drop_kv_slot append_kv_slot
AllUniform-IsStepKept = record {
  by_flush = λ s h. flush_open-AllUniform s.batch s h.0 h;
  by_drop = λ s (open', pending, running). (_, pending, running);
  by_finish = λ max now reply s h. finish-AllUniform max now reply s.running s h;
  by_append = λ i s fits (open', pending, running).
      (append-IsUniform i s.batch fits open', pending, running);
  by_start = λ now s ready h. start-AllUniform now s.pending s h.1 h;
}

-- In every bucket, whatever writes, flushes, ticks and completions come, the writes of a batch, be it
-- open, pending or in flight, update the same target columns, those of the batch, and the records of
-- the batch are theirs in their order: a partial update is never sent with another's columns. It holds
-- after a run when it holds before, as it does of a bucket without a batch.
pub run_upsert-AllUniform :
    (c : UpsertConfig) (xs : List UpsertEvent) (l : UpsertLoop)
    → All AllUniform l.slots
    → All AllUniform (run_upsert c xs l).slots
run_upsert-AllUniform c xs l = run_upsert-All AllUniform AllUniform-IsStepKept c xs l
