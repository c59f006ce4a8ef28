-- ===== src/Writer/Upsert/Buckets.antt =====
-- The buckets of the upsert writer of pkg/fgo/kv_writer.go, and their open batches, through flushBucket
-- and dispatch.
use fluss_go.Prelude.{
  ℕ, zero, suc, ltb, ◌+◌, Bool, true, false, ◌||◌, List, [], ◌∷◌, Option, none, some,
}
use fluss_go.Prelude.{
  ◌==◌, ◌≡◌, refl, sym, ap, ◌∙◌, if_cases, Bool-cases, inl, inr, map, if◌then◌else◌,
}
use fluss_go.Prelude.Errors.{GoError}
use fluss_go.Writer.Upsert.Slot.{
  KvPending, KvSlot, KvDone, KvReply, failed, acknowledged, has_items, flush_batch, flush_open,
  flush_kv_slot, finish_kv_batch, finish_running, finish_kv_slot, is_kv_ready, start_batch,
  start_kv_slot,
}
use fluss_go.Writer.Upsert.{
  UpsertConfig, UpsertLoop, KvAction, at_kv_bucket, apply_kv, find_kv_slot, kv_batch_at,
  dispatch_kv_pass, dispatch_kv_rounds, dispatch_kv, after_kv_flush, flush_kv_bucket, open_batch,
  holds_items, poison,
}

abbrev pub bucket_of : KvSlot → ℕ
bucket_of s = s.bucket

abbrev pub knows_bucket : ℕ → List ℕ → Bool
knows_bucket b [] = false
knows_bucket b (x ∷ xs) = (x == b) || knows_bucket b xs

pub find_kv_slot-some :
    (b : ℕ) (ss : List KvSlot)
    → knows_bucket b (map bucket_of ss) ≡ true
    → (s : KvSlot) × (find_kv_slot b ss ≡ some s)
unfolding find_kv_slot
find_kv_slot-some b [] = λ h. cc
find_kv_slot-some b (s ∷ ss) = elim (Bool-cases (s.bucket == b)) [
  | inl q ↦ rw q (λ h. (s, refl))
  | inr q ↦ rw q (λ h. find_kv_slot-some b ss h)
]

-- An action that leaves the bucket's number.
abbrev pub InPlace : KvAction → Type 0
InPlace act = (s : KvSlot) → (act s).0.bucket ≡ s.bucket

flush_batch-bucket :
    (b : KvPending) (o : Option GoError) (s : KvSlot) → (flush_batch b o s).0.bucket ≡ s.bucket
unfolding flush_batch
flush_batch-bucket b none s = refl
flush_batch-bucket b (some e) s = refl

flush_open-bucket : (o : Option KvPending) (s : KvSlot) → (flush_open o s).0.bucket ≡ s.bucket
unfolding flush_open
flush_open-bucket none s = refl
flush_open-bucket (some b) s =
    if_cases (λ (r : KvSlot × List KvDone). r.0.bucket ≡ s.bucket) (has_items b)
      (λ _. flush_batch-bucket b s.poisoned s) (λ _. refl)

pub flush_kv_slot-InPlace : InPlace flush_kv_slot
unfolding flush_kv_slot
flush_kv_slot-InPlace s = flush_open-bucket s.batch s

finish_running-bucket :
    (max now : ℕ) (reply : KvReply) (o : Option KvPending) (s : KvSlot)
    → (finish_running max now reply o s).0.bucket ≡ s.bucket
unfolding finish_running finish_kv_batch
finish_running-bucket max now reply none s = refl
finish_running-bucket max now (failed e) (some b) s = refl
finish_running-bucket max now (acknowledged log_end known p) (some b) s = refl

pub finish_kv_slot-InPlace :
    (max now : ℕ) (reply : KvReply) → InPlace (finish_kv_slot max now reply)
unfolding finish_kv_slot
finish_kv_slot-InPlace max now reply s = finish_running-bucket max now reply s.running s

pub at_kv_bucket-buckets :
    (b : ℕ) (act : KvAction) (ss : List KvSlot)
    → InPlace act
    → map bucket_of (at_kv_bucket b act ss).0 ≡ map bucket_of ss
unfolding at_kv_bucket
at_kv_bucket-buckets b act [] place = refl
at_kv_bucket-buckets b act (s ∷ ss) place =
    if_cases (λ (r : List KvSlot × List KvDone). map bucket_of r.0 ≡ map bucket_of (s ∷ ss))
      (s.bucket == b) (λ _. ap (λ n. n ∷ map bucket_of ss) (place s))
      (λ _. ap (λ ns. s.bucket ∷ ns) (at_kv_bucket-buckets b act ss place))

-- A slot's number and open batch: what dispatch leaves.
start_batch-open :
    (now : ℕ) (pending : List KvPending) (s : KvSlot)
    → ((start_batch now pending s).bucket ≡ s.bucket)
      × ((start_batch now pending s).batch ≡ s.batch)
unfolding start_batch
start_batch-open now [] s = (refl, refl)
start_batch-open now (b ∷ bs) s = (refl, refl)

abbrev opens : KvSlot → ℕ × Option KvPending
opens s = (s.bucket, s.batch)

start_kv_slot-opens : (now : ℕ) (s : KvSlot) → opens (start_kv_slot now s) ≡ opens s
unfolding start_kv_slot
start_kv_slot-opens now s = let (p, q) = start_batch-open now s.pending s in rw (p, q) refl

dispatch_pass-opens :
    (now max n : ℕ) (ss : List KvSlot) → map opens (dispatch_kv_pass now max n ss).0 ≡ map opens ss
unfolding dispatch_kv_pass
dispatch_pass-opens now max n [] = refl
dispatch_pass-opens now max n (s ∷ ss) =
    let Q : List KvSlot × ℕ × Bool → Type 0 = λ r. map opens r.0 ≡ map opens (s ∷ ss) in
    let started = start_kv_slot-opens now s in
    if_cases Q (is_kv_ready s)
      (λ _.
        if_cases Q (n + 1 == max) (λ _. ap (λ o. o ∷ map opens ss) started)
          (λ _. rw (started, dispatch_pass-opens now max (n + 1) ss) refl))
      (λ _. ap (λ os. opens s ∷ os) (dispatch_pass-opens now max n ss))

abbrev find_open : ℕ → List (ℕ × Option KvPending) → Option KvPending
find_open b [] = none
find_open b (o ∷ os) = if o.0 == b then o.1 else find_open b os

open_batch-opens :
    (b : ℕ) (ss : List KvSlot) → open_batch (find_kv_slot b ss) ≡ find_open b (map opens ss)
unfolding find_kv_slot
open_batch-opens b [] = refl
open_batch-opens b (s ∷ ss) = elim (Bool-cases (s.bucket == b)) [
  | inl q ↦ rw q refl
  | inr q ↦ rw q (open_batch-opens b ss)
]

buckets-opens :
    (ss : List KvSlot) → map bucket_of ss ≡ map (λ (o : ℕ × Option KvPending). o.0) (map opens ss)
buckets-opens [] = refl
buckets-opens (s ∷ ss) = ap (λ ns. s.bucket ∷ ns) (buckets-opens ss)

pub dispatch_pass-open_batch :
    (b now max n : ℕ) (ss : List KvSlot)
    → open_batch (find_kv_slot b (dispatch_kv_pass now max n ss).0) ≡ open_batch (find_kv_slot b ss)
dispatch_pass-open_batch b now max n ss =
    open_batch-opens b (dispatch_kv_pass now max n ss).0
    ∙ ap (find_open b) (dispatch_pass-opens now max n ss)
    ∙ sym (open_batch-opens b ss)

pub dispatch_pass-buckets :
    (now max n : ℕ) (ss : List KvSlot)
    → map bucket_of (dispatch_kv_pass now max n ss).0 ≡ map bucket_of ss
dispatch_pass-buckets now max n ss =
    buckets-opens (dispatch_kv_pass now max n ss).0
    ∙ ap (map (λ (o : ℕ × Option KvPending). o.0)) (dispatch_pass-opens now max n ss)
    ∙ sym (buckets-opens ss)

flush_batch-batch :
    (b : KvPending) (o : Option GoError) (s : KvSlot) → (flush_batch b o s).0.batch ≡ none
unfolding flush_batch
flush_batch-batch b none s = refl
flush_batch-batch b (some e) s = refl

flush_open-empties :
    (o : Option KvPending) (s : KvSlot) → s.batch ≡ o → holds_items (flush_open o s).0.batch ≡ false
unfolding flush_open
flush_open-empties none s h = ap holds_items h
flush_open-empties (some b) s h =
    if_cases (λ (r : KvSlot × List KvDone). holds_items r.0.batch ≡ false) (has_items b)
      (λ _. ap holds_items (flush_batch-batch b s.poisoned s)) (λ e. ap holds_items h ∙ e)

-- The bucket has no batch with a write in it.
abbrev pub IsEmptied : ℕ → List KvSlot → Type 0
IsEmptied b ss = holds_items (open_batch (find_kv_slot b ss)) ≡ false

flush_kv_slot-IsEmptied :
    (b : ℕ) (ss : List KvSlot) → IsEmptied b (at_kv_bucket b flush_kv_slot ss).0
unfolding at_kv_bucket find_kv_slot flush_kv_slot
flush_kv_slot-IsEmptied b [] = refl
flush_kv_slot-IsEmptied b (s ∷ ss) = elim (Bool-cases (s.bucket == b)) [
  | inl q ↦
      let here : ((flush_open s.batch s).0.bucket == b) ≡ true =
        rw (flush_open-bucket s.batch s) q in
      rw (q, here) (flush_open-empties s.batch s refl)
  | inr q ↦ rw (q, q) (flush_kv_slot-IsEmptied b ss)
]

dispatch_rounds-open_batch :
    (b rounds max : ℕ) (l : UpsertLoop)
    → kv_batch_at b (dispatch_kv_rounds rounds max l) ≡ kv_batch_at b l
unfolding dispatch_kv_rounds kv_batch_at
dispatch_rounds-open_batch b zero max l = refl
dispatch_rounds-open_batch b (suc rounds) max l =
    let p = dispatch_kv_pass l.now max l.in_flight l.slots in
    let l' = record l { slots = p.0; in_flight = p.1 } in
    let passed = dispatch_pass-open_batch b l.now max l.in_flight l.slots in
    let Q : UpsertLoop → Type 0 = λ r. kv_batch_at b r ≡ kv_batch_at b l in
    if_cases Q (ltb l.in_flight max)
      (λ _. if_cases Q p.2 (λ _. dispatch_rounds-open_batch b rounds max l' ∙ passed) (λ _. passed))
      (λ _. refl)

after_flush-IsEmptied :
    (c : UpsertConfig) (b : ℕ) (o : Option GoError) (l : UpsertLoop)
    → IsEmptied b l.slots
    → IsEmptied b (after_kv_flush c o l).0.slots
unfolding after_kv_flush dispatch_kv kv_batch_at
after_flush-IsEmptied c b (some e) l h = h
after_flush-IsEmptied c b none l h =
    ap holds_items (dispatch_rounds-open_batch b c.max_concurrent c.max_concurrent l) ∙ h

pub flush_bucket-IsEmptied :
    (c : UpsertConfig) (b : ℕ) (l : UpsertLoop) → IsEmptied b (flush_kv_bucket c b l).0.slots
unfolding flush_kv_bucket apply_kv kv_batch_at
flush_bucket-IsEmptied c b l =
    let flushed = apply_kv b flush_kv_slot l in
    if_cases (λ (r : UpsertLoop × List GoError). IsEmptied b r.0.slots)
      (holds_items (kv_batch_at b l))
      (λ _.
        after_flush-IsEmptied c b (poison (find_kv_slot b l.slots)) flushed
          (flush_kv_slot-IsEmptied b l.slots))
      (λ empty. empty)
