-- ===== src/Examples/Upserts.antt =====
-- An upsert writer with two buckets, full updates and partial ones.
use fluss_go.Prelude.{ℕ, ◌+◌, ◌≡◌, refl, true, false, List, [], ◌∷◌, none, some, All}
use fluss_go.Prelude.Int.{pos}
use fluss_go.Prelude.Errors.{network}
use fluss_go.Writer.Upsert.Slot.{KvWrite, KvSlot, acknowledged, failed}
use fluss_go.Writer.Upsert.{
  UpsertConfig, UpsertLoop, UpsertEvent, write_command, timer_event, completion_event, time_passes,
  run_upsert,
}
use fluss_go.Writer.Upsert.Sequence.{IsSequenced, run_upsert-IsSequenced}
use fluss_go.Writer.Upsert.Conserves.{all_brought, run_upsert-conserves}
use fluss_go.Writer.Upsert.Moves.{total}
use fluss_go.Writer.Upsert.Uniform.{AllUniform, run_upsert-AllUniform}

abbrev pairs : UpsertConfig
pairs = record {
  max_batch_records = 2;
  max_batch_bytes = 1000;
  max_concurrent = 1;
  has_batch_timeout = true;
  max_throttle = 100;
}

abbrev idle : ℕ → KvSlot
idle b = record {
  bucket = b;
  batch = none;
  pending = [];
  running = none;
  sequence = 0;
  poisoned = none;
  throttle = none;
  sent = [];
}

abbrev fresh : UpsertLoop
fresh = record {
  slots = idle 0 ∷ idle 1 ∷ [];
  in_flight = 0;
  timer_armed = false;
  now = 0;
  done = [];
}

abbrev write : ℕ → List ℕ → KvWrite
write id targets = record {
  id = id;
  record_data = record { key = id ∷ []; value = some (7 ∷ []) };
  bucket = 0;
  targets = targets;
  size = 10;
}

-- Two full updates, a partial one, an acknowledgement with pressure, and a failure.
abbrev mixed : List UpsertEvent
mixed =
    write_command none (write 1 [])
    ∷ write_command none (write 2 [])
    ∷ write_command none (write 3 (0 ∷ 2 ∷ []))
    ∷ timer_event
    ∷ completion_event 0
        (acknowledged (pos 2) true (some (record { is_positive = true; delay = 25 })))
    ∷ time_passes 5
    ∷ completion_event 0 (failed network)
    ∷ []

fresh-IsSequenced : All IsSequenced fresh.slots
unfolding IsSequenced
fresh-IsSequenced = ((0, refl, refl), ((0, refl, refl), _))

run_upsert-IsSequenced_example : All IsSequenced (run_upsert pairs mixed fresh).slots
run_upsert-IsSequenced_example = run_upsert-IsSequenced pairs mixed fresh fresh-IsSequenced

fresh-AllUniform : All AllUniform fresh.slots
unfolding AllUniform
fresh-AllUniform = ((_, _, _), ((_, _, _), _))

run_upsert-AllUniform_example : All AllUniform (run_upsert pairs mixed fresh).slots
run_upsert-AllUniform_example = run_upsert-AllUniform pairs mixed fresh fresh-AllUniform

run_upsert-conserves_example :
    total (λ i. i.size) (run_upsert pairs mixed fresh)
    ≡ total (λ i. i.size) fresh + all_brought (λ i. i.size) mixed
run_upsert-conserves_example =
    run_upsert-conserves (λ i. i.size) pairs mixed fresh
      (refl, (refl, (refl, (_, (_, (_, (_, _)))))))
