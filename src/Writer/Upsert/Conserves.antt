-- ===== src/Writer/Upsert/Conserves.antt =====
-- The weight of all that the upsert writer's loop holds or has completed, through its rounds.
use fluss_go.Prelude.{
  ℕ, zero, suc, ◌+◌, true, false, ◌||◌, not, List, [], ◌∷◌, Option, none, some, All,
}
use fluss_go.Prelude.{◌≡◌, refl, ap, ◌∙◌, arith, if_cases, ltb}
use mathlib.Core.Path.{subst⁻¹}
use fluss_go.Prelude.Errors.{GoError}
use fluss_go.Writer.Upsert.Slot.{KvWrite, KvReply, append_kv_slot}
use fluss_go.Writer.Upsert.{
  UpsertConfig, UpsertLoop, UpsertEvent, write_command, flush_command, timer_event,
  completion_event, time_passes, apply_kv, kv_batch_at, flush_kv_bucket, handle_kv_completion,
  is_incompatible, compatible_batch, make_room, place_write, reject_write, add_write, flush_kv_each,
  queue_kv_all, drain_kv, flush_kv_all, handle_upsert, run_upsert, arm_kv_timer, kv_batch_full,
  kv_batch_full_with, kv_buckets,
}
use fluss_go.Writer.Upsert.Buckets.{knows_bucket}
use fluss_go.Writer.Upsert.Weights.{weigh_done-append}
use fluss_go.Writer.Upsert.Moves.{
  Has, total, Moves, same, then_moves, moves_then, append-Moves, flush_bucket-Moves,
  completion-Moves, renew-Moves,
}

-- The writes go to buckets that the writer has.
abbrev pub IsRouted : List ℕ → UpsertEvent → Type 0
IsRouted bs (write_command ctx i) = knows_bucket i.bucket bs ≡ true
IsRouted bs (flush_command next fuel) = Unit
IsRouted bs timer_event = Unit
IsRouted bs (completion_event b reply) = Unit
IsRouted bs (time_passes t) = Unit

module _ (w : KvWrite → ℕ) where
  compatible-Moves :
      (c : UpsertConfig) (i : KvWrite) (l : UpsertLoop) → Moves w 0 l (compatible_batch c i l)
  unfolding compatible_batch
  compatible-Moves c i l =
      if_cases (Moves w 0 l) (is_incompatible (kv_batch_at i.bucket l) i)
        (λ _. renew-Moves w c i.bucket l) (λ _. same w l)

  make_room-Moves :
      (c : UpsertConfig) (i : KvWrite) (l : UpsertLoop) → Moves w 0 l (make_room c i l)
  unfolding make_room
  make_room-Moves c i l =
      if_cases (Moves w 0 l) (kv_batch_full_with c (kv_batch_at i.bucket l) i)
        (λ _. renew-Moves w c i.bucket l) (λ _. same w l)

  place-Moves :
      (c : UpsertConfig) (i : KvWrite) (l : UpsertLoop)
      → Has i l
      → Moves w (w i) l (place_write c i l)
  unfolding place_write arm_kv_timer
  place-Moves c i l h =
      let added = apply_kv i.bucket (append_kv_slot i) l in
      let joined = append-Moves w i l h in
      if_cases (Moves w (w i) l)
        (kv_batch_full c (kv_batch_at i.bucket added) || not c.has_batch_timeout)
        (λ _.
          moves_then w (w i) l added (flush_kv_bucket c i.bucket added).0 joined
            (flush_bucket-Moves w c i.bucket added))
        (λ _. joined)

  add-Moves :
      (c : UpsertConfig) (ctx : Option GoError) (i : KvWrite) (l : UpsertLoop)
      → Has i l
      → Moves w (w i) l (add_write c ctx i l)
  unfolding add_write reject_write
  add-Moves c (some e) i l h = (omega (arith, weigh_done-append w l.done _), refl)
  add-Moves c none i l h =
      let fitting = compatible_batch c i l in
      let roomy = make_room c i fitting in
      let ready =
        then_moves w 0 l fitting roomy (compatible-Moves c i l) (make_room-Moves c i fitting) in
      then_moves w (w i) l roomy (place_write c i roomy) ready
        (place-Moves c i roomy (ap (knows_bucket i.bucket) ready.1 ∙ h))

  flush_each-Moves :
      (c : UpsertConfig) (bs : List ℕ) (l : UpsertLoop) → Moves w 0 l (flush_kv_each c bs l).0
  unfolding flush_kv_each
  flush_each-Moves c [] l = same w l
  flush_each-Moves c (b ∷ bs) l =
      let first = (flush_kv_bucket c b l).0 in
      then_moves w 0 l first (flush_kv_each c bs first).0 (flush_bucket-Moves w c b l)
        (flush_each-Moves c bs first)

  drain-Moves :
      (c : UpsertConfig) (next : UpsertLoop → ℕ × KvReply) (fuel : ℕ) (l : UpsertLoop)
      → Moves w 0 l (drain_kv c next fuel l).0
  unfolding drain_kv
  drain-Moves c next zero l = same w l
  drain-Moves c next (suc fuel) l =
      let handled = (handle_kv_completion c (next l).0 (next l).1 l).0 in
      if_cases (λ (r : UpsertLoop × List GoError). Moves w 0 l r.0) (ltb 0 l.in_flight)
        (λ _.
          then_moves w 0 l handled (drain_kv c next fuel handled).0
            (completion-Moves w c (next l).0 (next l).1 l) (drain-Moves c next fuel handled))
        (λ _. same w l)

  -- What an event brings: the weight of the write of a command.
  abbrev pub brought : UpsertEvent → ℕ
  brought (write_command ctx i) = w i
  brought (flush_command next fuel) = 0
  brought timer_event = 0
  brought (completion_event b reply) = 0
  brought (time_passes t) = 0

  abbrev pub all_brought : List UpsertEvent → ℕ
  all_brought [] = 0
  all_brought (x ∷ xs) = brought x + all_brought xs

  handle-Moves :
      (c : UpsertConfig) (x : UpsertEvent) (l : UpsertLoop)
      → IsRouted (kv_buckets l) x
      → Moves w (brought x) l (handle_upsert c x l)
  unfolding handle_upsert queue_kv_all flush_kv_all
  handle-Moves c (write_command ctx i) l h = add-Moves c ctx i l h
  handle-Moves c (flush_command next fuel) l h =
      let queued = (queue_kv_all c l).0 in
      then_moves w 0 l queued (drain_kv c next fuel queued).0
        (flush_each-Moves c (kv_buckets l) (record l { timer_armed = false }))
        (drain-Moves c next fuel queued)
  handle-Moves c timer_event l h =
      flush_each-Moves c (kv_buckets l) (record l { timer_armed = false })
  handle-Moves c (completion_event b reply) l h = completion-Moves w c b reply l
  handle-Moves c (time_passes t) l h = same w l

  run-total :
      (c : UpsertConfig) (xs : List UpsertEvent) (l : UpsertLoop) (bs : List ℕ)
      → kv_buckets l ≡ bs
      → All (IsRouted bs) xs
      → total w (run_upsert c xs l) ≡ total w l + all_brought xs
  unfolding run_upsert
  run-total c [] l bs e all = omega arith
  run-total c (x ∷ xs) l bs e (h, hs) =
      let (t, b) = handle-Moves c x l (subst⁻¹ (λ ns. IsRouted ns x) e h) in
      omega (arith, t, run-total c xs (handle_upsert c x l) bs (b ∙ e) hs)

-- Whatever writes, flushes, ticks and completions come, every write that was given to the upsert writer
-- is in a bucket's open batch, in a batch that waits or runs, or among the completed futures, once: for
-- any weight of the writes, the weight of all these grows by the weight of the writes of the commands.
-- It holds when the writes go to buckets that the writer has.
pub run_upsert-conserves :
    (w : KvWrite → ℕ) (c : UpsertConfig) (xs : List UpsertEvent) (l : UpsertLoop)
    → All (IsRouted (kv_buckets l)) xs
    → total w (run_upsert c xs l) ≡ total w l + all_brought w xs
run_upsert-conserves w c xs l all = run-total w c xs l (kv_buckets l) refl all
