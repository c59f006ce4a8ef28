-- ===== src/Lookup/Batches/Exact.antt =====
-- No task of a lookup is lost: every task of a group is sent, in order and in batches of the right
-- size, and every task of a batch is completed once.
use fluss_go.Prelude.{
  ℕ, zero, suc, ◌+◌, ◌-◌, ◌≤◌, ◌<◌, true, false, List, [], ◌∷◌, ◌++◌, length, drop, All,
}
use fluss_go.Prelude.{
  ltb, ◌==◌, if◌then◌else◌, ◌≡◌, refl, arith, Bool-cases, Option-cases, inl, inr, take-append-drop,
  length-take, length-drop,
}
use fluss_go.Prelude.Errors.{Result, ok, err, err_validation}
use fluss_go.Lookup.Batches.{
  LookupTask, Completed, complete_lookup_tasks, complete_each, complete_lookup_batch,
}
use fluss_go.Lookup.Batches.{split_active, run_lookup_batch, dispatch_tasks, dispatch_group}

module _ (w : LookupTask → ℕ) where
  abbrev pub weigh_tasks : List LookupTask → ℕ
  weigh_tasks [] = 0
  weigh_tasks (t ∷ ts) = w t + weigh_tasks ts

  no_tasks : (ts : List LookupTask) → length ts ≡ 0 → weigh_tasks ts ≡ 0
  no_tasks [] h = refl
  no_tasks (t ∷ ts) h = absurd (omega arith)

module _ (V : Type 0) (w : LookupTask → ℕ) where
  abbrev pub weigh_completed : List (Completed V) → ℕ
  weigh_completed [] = 0
  weigh_completed (c ∷ cs) = w c.task + weigh_completed cs

  weigh_completed-append :
      (xs ys : List (Completed V))
      → weigh_completed (xs ++ ys) ≡ weigh_completed xs + weigh_completed ys
  weigh_completed-append [] ys = omega arith
  weigh_completed-append (x ∷ xs) ys = omega (arith, weigh_completed-append xs ys)

  complete_lookup_tasks-weigh :
      (ts : List LookupTask) (r : Result V)
      → weigh_completed (complete_lookup_tasks ts r) ≡ weigh_tasks w ts
  unfolding complete_lookup_tasks
  complete_lookup_tasks-weigh [] r = refl
  complete_lookup_tasks-weigh (t ∷ ts) r = omega (arith, complete_lookup_tasks-weigh ts r)

  complete_each-weigh :
      (ts : List LookupTask) (vs : List V)
      → length vs ≡ length ts
      → weigh_completed (complete_each ts vs) ≡ weigh_tasks w ts
  unfolding complete_each
  complete_each-weigh [] vs h = refl
  complete_each-weigh (t ∷ ts) [] h = absurd (omega arith)
  complete_each-weigh (t ∷ ts) (v ∷ vs) h = omega (arith, complete_each-weigh ts vs (omega arith))

  complete_lookup_batch-weigh :
      (ts : List LookupTask) (r : Result (List V))
      → weigh_completed (complete_lookup_batch ts r) ≡ weigh_tasks w ts
  unfolding complete_lookup_batch
  complete_lookup_batch-weigh ts (err e) = complete_lookup_tasks-weigh ts (err e)
  complete_lookup_batch-weigh ts (ok vs) = elim (Bool-cases (length vs == length ts)) [
    | inl same ↦ rw same (complete_each-weigh ts vs (ground arith))
    | inr other ↦ rw other (complete_lookup_tasks-weigh ts (err err_validation))
  ]

  split_active-weigh :
      (ts : List LookupTask)
      → let p = split_active {V = V} ts in
        weigh_tasks w p.0 + weigh_completed p.1 ≡ weigh_tasks w ts
  unfolding split_active
  split_active-weigh [] = refl
  split_active-weigh (t ∷ ts) = elim (Option-cases t.ctx_err) [
    | inl e ↦ rw e (omega (arith, split_active-weigh ts))
    | inr (x, e) ↦ rw e (omega (arith, split_active-weigh ts))
  ]

  -- A worker completes every task of its batch, whatever the request returns: for any weight of
  -- the tasks, the completions weigh as much as the batch.
  pub run_lookup_batch-weigh :
      (request : List LookupTask → Result (List V)) (ts : List LookupTask)
      → weigh_completed (run_lookup_batch request ts) ≡ weigh_tasks w ts
  unfolding run_lookup_batch
  run_lookup_batch-weigh request ts =
      let (active, gone) = split_active {V = V} ts in
      let split = split_active-weigh ts in
      elim (Bool-cases (length active == 0)) [
        | inl nobody ↦
            let empty : length active ≡ 0 = ground arith in
            rw nobody (omega (arith, no_tasks w active empty))
        | inr some_left ↦ rw some_left (
            omega (
              arith,
              weigh_completed-append gone (complete_lookup_batch active (request active)),
              complete_lookup_batch-weigh active (request active),
            ))
      ]

abbrev pub concat_batches : List (List LookupTask) → List LookupTask
concat_batches [] = []
concat_batches (b ∷ bs) = b ++ concat_batches bs

-- Every batch has a task, and MaxBatchKeys at most.
abbrev pub AllSized : ℕ → List (List LookupTask) → Type 0
AllSized max = All (λ b. (1 ≤ length b) × (length b ≤ max))

module _ (V : Type 0) where
  dispatch_tasks_exact :
      (rounds max room : ℕ) (ts : List LookupTask)
      → 0 < max
      → length ts ≤ rounds
      → length ts ≤ room
      → let d = dispatch_tasks {V = V} rounds max room ts in
        (d.all_sent ≡ true) × (concat_batches d.sent ≡ ts) × AllSized max d.sent
  unfolding dispatch_tasks
  dispatch_tasks_exact zero max room [] positive enough fits = (refl, refl, tt)
  dispatch_tasks_exact zero max room (t ∷ ts) positive enough fits = absurd (omega arith)
  dispatch_tasks_exact (suc rounds) max room [] positive enough fits = (refl, refl, tt)
  dispatch_tasks_exact (suc rounds) max room (t ∷ ts) positive enough fits =
      let all = t ∷ ts in
      let count = if ltb (length all) max then length all else max in
      let small : (1 ≤ count) × (count ≤ max) × (count ≤ length all) =
        (ground arith, ground arith, ground arith) in
      let taken = length-take count all in
      let left = length-drop count all in
      let some_tasks : (length all == 0) ≡ false = ground arith in
      let some_room : (room == 0) ≡ false = ground arith in
      let (sent, whole, sized) =
        dispatch_tasks_exact rounds max (room - 1) (drop count all) positive (omega arith)
          (omega arith) in
      rw (some_tasks, some_room)
        (sent, rw whole (take-append-drop count all), ((omega arith, omega arith), sized))

  -- With a positive MaxBatchKeys, and a channel that takes as many batches as there are tasks
  -- before the client closes, a group is sent whole: its batches are its tasks in their order, and
  -- each has at least one task and MaxBatchKeys at most.
  pub dispatch_group_exact :
      (max room : ℕ) (ts : List LookupTask)
      → 0 < max
      → length ts ≤ room
      → let d = dispatch_group {V = V} max room ts in
        (d.all_sent ≡ true) × (concat_batches d.sent ≡ ts) × AllSized max d.sent
  unfolding dispatch_group
  dispatch_group_exact max room ts positive fits =
      dispatch_tasks_exact (length ts) max room ts positive (omega arith) fits
