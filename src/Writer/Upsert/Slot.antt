-- ===== src/Writer/Upsert/Slot.antt =====
-- pkg/fgo/kv_writer.go: one bucket's share of the state of upsertWriterLoop, and what the loop does to
-- it. The keys of the maps batches, pending, active, sequences, poisoned and throttle are buckets of the
-- writer.
use fluss_go.Prelude.{ℕ, ◌+◌, ◌-◌, ◌%◌, ◌^◌, Bool, true, false, ◌&&◌}
use fluss_go.Prelude.{List, [], ◌∷◌, ◌++◌, Option, none, some, length, ltb, if◌then◌else◌}
use fluss_go.Prelude.Int.{ℤ, pos, ◌-ℤ◌, ◌+ℤ◌}
use fluss_go.Prelude.Errors.{GoError, err_writer_state}
use fluss_go.RecordBatch.Kv.{KvRecord}

-- pendingKVWrite: `id` stands for its future.
pub record KvWrite : Type 0 where
  pub id : ℕ
  pub record_data : KvRecord
  pub bucket : ℕ
  pub targets : List ℕ
  pub size : ℕ

-- kvPendingBatch
pub record KvPending : Type 0 where
  pub items : List KvWrite
  pub records : List KvRecord
  pub targets : List ℕ
  pub bytes : ℕ

-- The pressure that the server reports: whether it is above 0, and the delay that the product of
-- BackpressureMaxThrottle with its square gives.
pub record Pressure : Type 0 where
  pub is_positive : Bool
  pub delay : ℕ

-- A future that was completed: WriteResult, with the write whose future it is.
pub record KvDone : Type 0 where
  pub item : KvWrite
  pub bucket : ℕ
  pub base_offset : ℤ
  pub offset_known : Bool
  pub pressure : Option Pressure
  pub error : Option GoError

-- What a request was started with. `sent` in the state of a bucket has all of them, oldest first.
pub record SentBatch : Type 0 where
  pub sequence : ℕ
  pub delay : ℕ

-- `running` is the batch of the request in flight: the bucket is active.
pub record KvSlot : Type 0 where
  pub bucket : ℕ
  pub batch : Option KvPending
  pub pending : List KvPending
  pub running : Option KvPending
  pub sequence : ℕ
  pub poisoned : Option GoError
  pub throttle : Option ℕ
  pub sent : List SentBatch

abbrev complete_write : KvWrite → ℕ → ℤ → Bool → Option Pressure → Option GoError → KvDone
complete_write i bucket offset known pressure e = record {
  item = i;
  bucket = bucket;
  base_offset = offset;
  offset_known = known;
  pressure = pressure;
  error = e;
}

-- The loop of completeKVBatch: each write has the offset after that of the one before it.
unfoldable pub complete_writes :
    List KvWrite → ℕ → ℤ → Bool → Option Pressure → Option GoError → List KvDone
complete_writes [] bucket offset known pressure e = []
complete_writes (i ∷ is) bucket offset known pressure e =
    complete_write i bucket offset known pressure e
    ∷ complete_writes is bucket (offset +ℤ pos 1) known pressure e

-- completeKVBatch: the writes of the batch end at logEnd.
unfoldable pub complete_kv_batch :
    KvPending → ℕ → ℤ → Bool → Option Pressure → Option GoError → List KvDone
unfolding complete_writes
complete_kv_batch b bucket log_end known pressure e =
    let first = if known then log_end -ℤ pos (length b.items) else pos 0 in
    complete_writes b.items bucket first known pressure e

unfoldable pub complete_kv_batches : List KvPending → ℕ → Option GoError → List KvDone
unfolding complete_kv_batch
complete_kv_batches [] bucket e = []
complete_kv_batches (b ∷ bs) bucket e =
    complete_kv_batch b bucket (pos 0) false none e ++ complete_kv_batches bs bucket e

-- flushBucket on the batch of a bucket, when it has an item.
unfoldable pub flush_batch : KvPending → Option GoError → KvSlot → KvSlot × List KvDone
unfolding complete_kv_batch
flush_batch b (some e) s = (
  record s { batch = none },
  complete_kv_batch b s.bucket (pos 0) false none (some (err_writer_state e)),
)
flush_batch b none s = (record s { batch = none; pending = s.pending ++ (b ∷ []) }, [])

abbrev pub has_items : KvPending → Bool
has_items b = elim b.items as (λ _. Bool) [ [] ↦ false | _ ∷ _ ↦ true ]

unfoldable pub flush_open : Option KvPending → KvSlot → KvSlot × List KvDone
unfolding flush_batch
flush_open none s = (s, [])
flush_open (some b) s = if has_items b then flush_batch b s.poisoned s else (s, [])

unfoldable pub flush_kv_slot : KvSlot → KvSlot × List KvDone
unfolding flush_open
flush_kv_slot s = flush_open s.batch s

-- What a request returned: the error, or logEnd, whether it is known, and the pressure.
pub data KvReply : Type 0 where
  failed : GoError → KvReply
  acknowledged : ℤ → Bool → Option Pressure → KvReply

-- The throttle of a bucket after a request, at the time `now`.
unfoldable pub next_throttle : ℕ → ℕ → Option Pressure → Option ℕ → Option ℕ
next_throttle max now none old = old
next_throttle max now (some p) old =
    if p.is_positive && ltb 0 max then some (now + p.delay) else none

-- handleCompletion for the batch that was running.
unfoldable pub finish_kv_batch : ℕ → ℕ → KvReply → KvPending → KvSlot → KvSlot × List KvDone
unfolding complete_kv_batch complete_kv_batches next_throttle
finish_kv_batch max now (failed e) b s = (
  record s { running = none; poisoned = some e; pending = [] },
  complete_kv_batch b s.bucket (pos 0) false none (some e)
      ++ complete_kv_batches s.pending s.bucket (some (err_writer_state e)),
)
finish_kv_batch max now (acknowledged log_end known pressure) b s = (
  record s {
    running = none;
    sequence = (s.sequence + 1) % 2 ^ 32;
    throttle = next_throttle max now pressure s.throttle;
  },
  complete_kv_batch b s.bucket log_end known pressure none,
)

unfoldable pub finish_running : ℕ → ℕ → KvReply → Option KvPending → KvSlot → KvSlot × List KvDone
unfolding finish_kv_batch
finish_running max now reply none s = (s, [])
finish_running max now reply (some b) s = finish_kv_batch max now reply b s

unfoldable pub finish_kv_slot : ℕ → ℕ → KvReply → KvSlot → KvSlot × List KvDone
unfolding finish_running
finish_kv_slot max now reply s = finish_running max now reply s.running s

-- newBatch
abbrev pub new_kv_batch : KvWrite → KvPending
new_kv_batch i = record { items = []; records = []; targets = i.targets; bytes = 0 }

abbrev pub add_to_batch : KvWrite → KvPending → KvPending
add_to_batch i b = record b {
  items = b.items ++ (i ∷ []);
  records = b.records ++ (i.record_data ∷ []);
  bytes = b.bytes + i.size;
}

abbrev pub batch_for : KvWrite → Option KvPending → KvPending
batch_for i none = new_kv_batch i
batch_for i (some b) = b

-- The write joins the batch of its bucket, or a new one.
unfoldable pub append_kv_slot : KvWrite → KvSlot → KvSlot × List KvDone
append_kv_slot i s = (record s { batch = some (add_to_batch i (batch_for i s.batch)) }, [])

-- newBatch takes the place of the batch that the bucket had: what is left of it is not looked at again.
unfoldable pub drop_kv_slot : KvSlot → KvSlot × List KvDone
drop_kv_slot s = (record s { batch = none }, [])

-- `time.Until(l.throttle[bucket])`, and 0 when it is over.
unfoldable pub delay_until : ℕ → Option ℕ → ℕ
delay_until now none = 0
delay_until now (some t) = t - now

unfoldable pub kept_throttle : ℕ → Option ℕ → Option ℕ
kept_throttle now none = none
kept_throttle now (some t) = if ltb now t then some t else none

unfoldable pub is_kv_ready : KvSlot → Bool
is_kv_ready s = elim s.running [
  | some _ ↦ false
  | none ↦ elim s.pending [ [] ↦ false | _ ∷ _ ↦ true ]
]

-- dispatch of the first pending batch.
unfoldable pub start_batch : ℕ → List KvPending → KvSlot → KvSlot
unfolding delay_until kept_throttle
start_batch now [] s = s
start_batch now (b ∷ bs) s = record s {
  pending = bs;
  running = some b;
  throttle = kept_throttle now s.throttle;
  sent = s.sent ++ (record { sequence = s.sequence; delay = delay_until now s.throttle } ∷ []);
}

unfoldable pub start_kv_slot : ℕ → KvSlot → KvSlot
unfolding start_batch
start_kv_slot now s = start_batch now s.pending s
