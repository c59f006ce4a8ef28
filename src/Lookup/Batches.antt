-- ===== src/Lookup/Batches.antt =====
-- pkg/fgo/lookup_scheduler.go: the tasks of a group in batches, and the completion of a batch.
-- `complete` of a task has an effect once; a completion is listed when it is asked for.
pub mod Exact
use fluss_go.Prelude.{
  ℕ, zero, suc, ◌+◌, ◌-◌, Bool, true, false, not, List, [], ◌∷◌, ◌++◌, Option, none, some, length,
  take, drop, map,
}
use fluss_go.Prelude.{ltb, ◌==◌, if◌then◌else◌}
use fluss_go.Prelude.Errors.{GoError, Result, ok, err, err_closed, err_validation}

-- lookupTask, with what its context reports.
pub record LookupTask : Type 0 where
  pub id : ℕ
  pub encoded : List ℕ
  pub ctx_err : Option GoError

module _ (V : Type 0) where
  -- A completion of a task: rawLookupResult, with the value or the rows.
  pub record Completed : Type 0 where
    pub task : LookupTask
    pub result : Result V

  -- dispatchGroup: the batches that were sent, the completions, and whether all was sent.
  pub record Dispatched : Type 0 where
    pub sent : List (List LookupTask)
    pub completed : List Completed
    pub all_sent : Bool

module _ {V : Type 0} where
  unfoldable pub complete_lookup_tasks : List LookupTask → Result V → List (Completed V)
  complete_lookup_tasks [] r = []
  complete_lookup_tasks (t ∷ ts) r = record { task = t; result = r } ∷ complete_lookup_tasks ts r

  unfoldable pub complete_each : List LookupTask → List V → List (Completed V)
  complete_each [] vs = []
  complete_each (t ∷ ts) [] = []
  complete_each (t ∷ ts) (v ∷ vs) = record { task = t; result = ok v } ∷ complete_each ts vs

  -- completePointLookupBatch, and with lists of rows completePrefixLookupBatch.
  unfoldable pub complete_lookup_batch : List LookupTask → Result (List V) → List (Completed V)
  unfolding complete_lookup_tasks complete_each
  complete_lookup_batch ts (err e) = complete_lookup_tasks ts (err e)
  complete_lookup_batch ts (ok vs) =
      if length vs == length ts
      then complete_each ts vs
      else complete_lookup_tasks ts (err err_validation)

  -- The tasks of a batch whose context is not done, and the completions of the others.
  unfoldable pub split_active : List LookupTask → List LookupTask × List (Completed V)
  split_active [] = ([], [])
  split_active (t ∷ ts) =
      let rest = split_active ts in
      elim t.ctx_err [
        | none ↦ (t ∷ rest.0, rest.1)
        | some e ↦ (rest.0, record { task = t; result = err e } ∷ rest.1)
      ]

  -- One batch of runLookupWorker, with what the request for the active tasks returns.
  unfoldable pub run_lookup_batch :
      (List LookupTask → Result (List V)) → List LookupTask → List (Completed V)
  unfolding split_active complete_lookup_batch
  run_lookup_batch request ts =
      let (active, gone) = split_active ts in
      if length active == 0 then gone else gone ++ complete_lookup_batch active (request active)

  -- The loop of dispatchGroup: `room` batches are taken from the channel before the client's life
  -- ends. With a positive MaxBatchKeys each round takes a task, so a round for each is enough.
  unfoldable pub dispatch_tasks : ℕ → ℕ → ℕ → List LookupTask → Dispatched V
  unfolding complete_lookup_tasks
  dispatch_tasks zero max room ts = record { sent = []; completed = []; all_sent = true }
  dispatch_tasks (suc rounds) max room ts =
      let count = if ltb (length ts) max then length ts else max in
      let batch = take count ts in
      let rest = dispatch_tasks rounds max (room - 1) (drop count ts) in
      if length ts == 0
      then record { sent = []; completed = []; all_sent = true }
      else if room == 0
      then record {
        sent = [];
        completed = complete_lookup_tasks batch (err err_closed);
        all_sent = false;
      }
      else record rest { sent = batch ∷ rest.sent }

  unfoldable pub dispatch_group : ℕ → ℕ → List LookupTask → Dispatched V
  unfolding dispatch_tasks
  dispatch_group max room ts = dispatch_tasks (length ts) max room ts
