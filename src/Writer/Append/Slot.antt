-- ===== src/Writer/Append/Slot.antt =====
-- One bucket's share of the append writer's state, and what the scheduler does to it.
use fluss_go.Prelude.{ℕ, ◌+◌, ◌%◌, ◌^◌, Bool, true, false}
use fluss_go.Prelude.{List, [], ◌∷◌, ◌++◌, Option, none, some, ◌==◌, if◌then◌else◌}
use fluss_go.Prelude.Errors.{GoError, Result, err_writer_state}

-- pendingWrite: `count` is 1 for a row and the number of changes for an Arrow batch; `bucket` is the
-- explicit bucket, and `key` what bucketKeyValues and encodeKeyColumns give for the row.
pub record Item : Type 0 where
  pub id : ℕ
  pub size : ℕ
  pub count : ℕ
  pub arrow : Bool
  pub bucket : Option ℕ
  pub key : Result (List ℕ)

-- bucketBatch. A batch with no item stands for a missing one; `records` repeats the items' rows.
pub record Batch : Type 0 where
  pub items : List Item
  pub bytes : ℕ

abbrev pub empty_batch : Batch
empty_batch = record { items = []; bytes = 0 }

-- A future that was completed: WriteResult, with the item whose future it is.
pub record Done : Type 0 where
  pub item : Item
  pub bucket : ℕ
  pub base_offset : ℕ
  pub offset_known : Bool
  pub records : ℕ
  pub error : Option GoError

-- `running` is the batch of the request in flight with its sequence number: the bucket is active.
pub record SlotState : Type 0 where
  pub bucket : ℕ
  pub batch : Batch
  pub pending : List Batch
  pub running : Option (Batch × ℕ)
  pub sequence : ℕ
  pub poisoned : Option GoError

abbrev pub complete_item : Item → ℕ → ℕ → Bool → ℕ → Option GoError → Done
complete_item i bucket offset known records e = record {
  item = i;
  bucket = bucket;
  base_offset = offset;
  offset_known = known;
  records = records;
  error = e;
}

-- completeBatch: with a known offset each item starts where the one before it ends.
unfoldable pub complete_items : List Item → ℕ → ℕ → Bool → Option GoError → List Done
complete_items [] bucket offset known e = []
complete_items (i ∷ is) bucket offset known e =
    complete_item i bucket offset known i.count e
    ∷ complete_items is bucket (if known then (offset + i.count) % 2 ^ 64 else offset) known e

unfoldable pub complete_batches : List Batch → ℕ → Option GoError → List Done
complete_batches [] bucket e = []
complete_batches (b ∷ bs) bucket e =
    complete_items b.items bucket 0 false e ++ complete_batches bs bucket e

-- flushBucket on a batch that has items: it fails in a poisoned bucket, and else is pending.
unfoldable pub flush_slot : SlotState → SlotState × List Done
flush_slot s = elim s.poisoned [
  | some e ↦ (
    record s { batch = empty_batch },
    complete_items s.batch.items s.bucket 0 false (some (err_writer_state e)),
  )
  | none ↦ (record s { batch = empty_batch; pending = s.pending ++ (s.batch ∷ []) }, [])
]

-- What a request returned: the error, or the offset and whether it is known.
pub data Reply : Type 0 where
  failed : GoError → Reply
  acknowledged : ℕ → Bool → Reply

-- handleCompletion for the batch that was running.
unfoldable pub finish_batch : SlotState → Batch → Reply → SlotState × List Done
finish_batch s b (failed e) = (
  record s { running = none; poisoned = some e; pending = [] },
  complete_items b.items s.bucket 0 false (some e)
      ++ complete_batches s.pending s.bucket (some (err_writer_state e)),
)
finish_batch s b (acknowledged offset known) = (
  record s { running = none; sequence = (s.sequence + 1) % 2 ^ 32 },
  complete_items b.items s.bucket offset known none,
)

unfoldable pub finish_slot : Reply → SlotState → SlotState × List Done
unfolding finish_batch
finish_slot reply s = elim s.running [ none ↦ (s, []) | some (b, _) ↦ finish_batch s b reply ]

unfoldable pub append_slot : Item → SlotState → SlotState × List Done
append_slot i s = (
  record s { batch = record { items = s.batch.items ++ (i ∷ []); bytes = s.batch.bytes + i.size } },
  [],
)

-- `l.batches[bucket] = &bucketBatch{items: []*pendingWrite{item}}`
unfoldable pub renew_slot : Item → SlotState → SlotState × List Done
renew_slot i s = (record s { batch = record { items = i ∷ []; bytes = 0 } }, [])

unfoldable pub is_empty : Batch → Bool
is_empty b = elim b.items [ [] ↦ true | _ ∷ _ ↦ false ]

-- A bucket whose next batch can be sent: not active, and with a pending batch.
unfoldable pub is_ready : SlotState → Bool
is_ready s = elim s.running [ some _ ↦ false | none ↦ elim s.pending [ [] ↦ false | _ ∷ _ ↦ true ] ]

unfoldable pub start_next : List Batch → SlotState → SlotState
start_next [] s = s
start_next (b ∷ bs) s = record s { running = some (b, s.sequence); pending = bs }

unfoldable pub start_slot : SlotState → SlotState
unfolding start_next
start_slot s = start_next s.pending s

-- One pass of dispatch over the buckets: the slots, the requests in flight, and what was sent.
unfoldable pub dispatch_pass : ℕ → ℕ → List SlotState → List SlotState × ℕ × List (ℕ × ℕ)
dispatch_pass max n [] = ([], n, [])
dispatch_pass max n (s ∷ ss) =
    let skip = dispatch_pass max n ss in
    let rest = dispatch_pass max (n + 1) ss in
    let s' = start_slot s in
    if is_ready s
    then if n + 1 == max
      then (s' ∷ ss, n + 1, (s.bucket, s.sequence) ∷ [])
      else (s' ∷ rest.0, rest.1, (s.bucket, s.sequence) ∷ rest.2)
    else (s ∷ skip.0, skip.1, skip.2)
