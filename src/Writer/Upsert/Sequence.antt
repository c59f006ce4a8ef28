-- ===== src/Writer/Upsert/Sequence.antt =====
-- The sequence numbers that the upsert writer gives the batches of a bucket.
use fluss_go.Prelude.{ℕ, zero, suc, ◌+◌, ◌%◌, ◌^◌, List, [], ◌∷◌, ◌++◌, Option, none, some, All}
use fluss_go.Prelude.{◌≡◌, refl, ap, ◌∙◌, arith, if_cases, map}
use mathlib.Core.Path.{subst, subst⁻¹}
use fluss_go.Prelude.Errors.{GoError}
use fluss_go.Writer.Upsert.Slot.{
  KvPending, KvSlot, KvDone, KvReply, SentBatch, failed, acknowledged, has_items, flush_batch,
  flush_open, flush_kv_slot, finish_kv_batch, finish_running, finish_kv_slot, append_kv_slot,
  drop_kv_slot, start_batch, start_kv_slot, delay_until,
}
use fluss_go.Writer.Upsert.{UpsertConfig, UpsertLoop, UpsertEvent, run_upsert}
use fluss_go.Writer.Upsert.Kept.{IsStepKept, run_upsert-All, ready_idle}

-- 0, 1, 2, … as uint32, `count` of them from n on.
abbrev pub sequences : ℕ → ℕ → List ℕ
sequences n zero = []
sequences n (suc count) = n % 2 ^ 32 ∷ sequences (n + 1) count

sequences-snoc :
    (n count : ℕ) → sequences n count ++ ((n + count) % 2 ^ 32 ∷ []) ≡ sequences n (count + 1)
sequences-snoc n zero = let e : n + 0 ≡ n = omega arith in rw e refl
sequences-snoc n (suc count) =
    let e : n + suc count ≡ n + 1 + count = omega arith in
    let f : suc count + 1 ≡ suc (count + 1) = omega arith in
    rw (e, f, sequences-snoc (n + 1) count) refl

abbrev pub sequence_of : SentBatch → ℕ
sequence_of b = b.sequence

-- Where a bucket is, after `count` batches were sent: idle with the next number, or waiting for the
-- last one, or poisoned with nothing that could be sent.
abbrev pub Stage : Option KvPending → Option GoError → List KvPending → ℕ → ℕ → Type 0
Stage none none pending sequence count = sequence ≡ count % 2 ^ 32
Stage (some b) none pending sequence count = (j : ℕ) × (count ≡ j + 1) × (sequence ≡ j % 2 ^ 32)
Stage none (some e) pending sequence count = pending ≡ []
Stage (some b) (some e) pending sequence count = ⊥

-- A bucket's batches were sent with the numbers 0, 1, 2, … in turn.
unfoldable pub IsSequenced : KvSlot → Type 0
IsSequenced s =
    (count : ℕ) × (map sequence_of s.sent ≡ sequences 0 count)
    × Stage s.running s.poisoned s.pending s.sequence count

acknowledge :
    (b : KvPending) (poisoned : Option GoError) (pending : List KvPending) (sequence count : ℕ)
    → Stage (some b) poisoned pending sequence count
    → Stage none poisoned pending ((sequence + 1) % 2 ^ 32) count
acknowledge b none pending sequence count (j, one, at) = omega arith
acknowledge b (some e) pending sequence count h = elim h [ ]

finish_stage :
    (max now : ℕ) (reply : KvReply) (running : Option KvPending) (s : KvSlot)
    → s.running ≡ running
    → IsSequenced s
    → IsSequenced (finish_running max now reply running s).0
unfolding finish_running finish_kv_batch IsSequenced
finish_stage max now reply none s e h = h
finish_stage max now (failed x) (some b) s e (count, sent, stage) = (count, sent, refl)
finish_stage max now (acknowledged log_end known pressure) (some b) s e (count, sent, stage) =
    let waiting = subst (λ r. Stage r s.poisoned s.pending s.sequence count) e stage in
    (count, sent, acknowledge b s.poisoned s.pending s.sequence count waiting)

queue :
    (running : Option KvPending) (pending : List KvPending) (sequence count : ℕ) (b : KvPending)
    → Stage running none pending sequence count
    → Stage running none (pending ++ (b ∷ [])) sequence count
queue none pending sequence count b h = h
queue (some r) pending sequence count b h = h

flush_stage :
    (b : KvPending) (poisoned : Option GoError) (s : KvSlot)
    → s.poisoned ≡ poisoned
    → IsSequenced s
    → IsSequenced (flush_batch b poisoned s).0
unfolding flush_batch IsSequenced
flush_stage b (some x) s e h = h
flush_stage b none s e (count, sent, stage) =
    let healthy = subst (λ p. Stage s.running p s.pending s.sequence count) e stage in
    (
      count,
      sent,
      subst⁻¹ (λ p. Stage s.running p (s.pending ++ (b ∷ [])) s.sequence count) e
          (queue s.running s.pending s.sequence count b healthy),
    )

flush_open_stage :
    (batch : Option KvPending) (s : KvSlot) → IsSequenced s → IsSequenced (flush_open batch s).0
unfolding flush_open
flush_open_stage none s h = h
flush_open_stage (some b) s h =
    if_cases (λ (r : KvSlot × List KvDone). IsSequenced r.0) (has_items b)
      (λ _. flush_stage b s.poisoned s refl h) (λ _. h)

map-snoc :
    (xs : List SentBatch) (b : SentBatch)
    → map sequence_of (xs ++ (b ∷ [])) ≡ map sequence_of xs ++ (b.sequence ∷ [])
map-snoc [] b = refl
map-snoc (x ∷ xs) b = ap (λ (ns : List ℕ). x.sequence ∷ ns) (map-snoc xs b)

start_stage :
    (now : ℕ) (pending : List KvPending) (running : Option KvPending) (poisoned : Option GoError)
    (s : KvSlot)
    → s.pending ≡ pending
    → s.running ≡ running
    → s.poisoned ≡ poisoned
    → running ≡ none
    → IsSequenced s
    → IsSequenced (start_batch now pending s)
unfolding start_batch IsSequenced
start_stage now [] running poisoned s e r p idle h = h
start_stage now (b ∷ bs) (some x) poisoned s e r p idle h = cc
start_stage now (b ∷ bs) none (some x) s e r p idle (count, sent, stage) =
    let here = subst (λ q. Stage q s.poisoned s.pending s.sequence count) r stage in
    let stuck : s.pending ≡ [] = subst (λ q. Stage none q s.pending s.sequence count) p here in cc
start_stage now (b ∷ bs) none none s e r p idle (count, sent, stage) =
    let here = subst (λ q. Stage q s.poisoned s.pending s.sequence count) r stage in
    let next : s.sequence ≡ count % 2 ^ 32 =
      subst (λ q. Stage none q s.pending s.sequence count) p here in
    let number : s.sequence ≡ (0 + count) % 2 ^ 32 = omega arith in
    (
      count + 1,
      map-snoc s.sent (record { sequence = s.sequence; delay = delay_until now s.throttle })
          ∙ ap (λ (ns : List ℕ). ns ++ (s.sequence ∷ [])) sent
          ∙ ap (λ (q : ℕ). sequences 0 count ++ (q ∷ [])) number
          ∙ sequences-snoc 0 count,
      subst⁻¹ (λ q. Stage (some b) q bs s.sequence (count + 1)) p (count, refl, next),
    )

IsSequenced-IsStepKept : IsStepKept IsSequenced
unfolding IsSequenced flush_kv_slot finish_kv_slot start_kv_slot drop_kv_slot append_kv_slot
IsSequenced-IsStepKept = record {
  by_flush = λ s h. flush_open_stage s.batch s h;
  by_drop = λ s h. h;
  by_finish = λ max now reply s h. finish_stage max now reply s.running s refl h;
  by_append = λ i s fits h. h;
  by_start = λ now s ready h.
      start_stage now s.pending s.running s.poisoned s refl refl refl (ready_idle s ready) h;
}

-- In every bucket, whatever writes, flushes, ticks and completions come, the batches that were given to
-- a request had the sequence numbers 0, 1, 2, … modulo 2 ^ 32, each once and in turn; a batch is sent
-- only once the one before it was acknowledged, and after a failure none is pending any more. It holds
-- after a run when it holds before, as it does of a bucket that has sent nothing.
pub run_upsert-IsSequenced :
    (c : UpsertConfig) (xs : List UpsertEvent) (l : UpsertLoop)
    → All IsSequenced l.slots
    → All IsSequenced (run_upsert c xs l).slots
run_upsert-IsSequenced c xs l = run_upsert-All IsSequenced IsSequenced-IsStepKept c xs l
