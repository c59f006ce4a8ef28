-- ===== src/Writer/Upsert/Kept.antt =====
-- What the steps on one bucket keep, the loop of the upsert writer keeps for every bucket.
use fluss_go.Prelude.{
  ℕ, zero, suc, ◌+◌, Bool, true, false, not, ◌||◌, List, [], ◌∷◌, Option, none, some, All,
}
use fluss_go.Prelude.{ltb, ◌==◌, ◌≡◌, refl, if_cases, Bool-cases, inl, inr, ap, sym, Option-cases}
use mathlib.Core.Path.{subst}
use fluss_go.Prelude.Errors.{GoError}
use fluss_go.Writer.Upsert.Slot.{
  KvWrite, KvSlot, KvReply, flush_kv_slot, finish_kv_slot, append_kv_slot, drop_kv_slot,
  is_kv_ready, start_kv_slot,
}
use fluss_go.Writer.Upsert.{
  UpsertConfig, UpsertLoop, UpsertEvent, write_command, flush_command, timer_event,
  completion_event, time_passes, KvAction, at_kv_bucket, apply_kv, holds_items, poison, open_batch,
  find_kv_slot, kv_batch_at, dispatch_kv_pass, dispatch_kv_rounds, dispatch_kv, after_kv_flush,
  flush_kv_bucket, handle_kv_completion, is_incompatible, renew_kv_batch, compatible_batch,
  make_room, place_write, reject_write, add_write, flush_kv_each, queue_kv_all, drain_kv,
  flush_kv_all, handle_upsert, run_upsert, arm_kv_timer, kv_batch_full, kv_batch_full_with,
  kv_buckets,
}

-- The steps on a bucket keep P.
pub record IsStepKept (P : KvSlot → Type 0) : Type 0 where
  pub by_flush : (s : KvSlot) → P s → P (flush_kv_slot s).0
  pub by_drop : (s : KvSlot) → P s → P (drop_kv_slot s).0
  pub by_finish :
      (max now : ℕ) (reply : KvReply) (s : KvSlot) → P s → P (finish_kv_slot max now reply s).0
  pub by_append :
      (i : KvWrite) (s : KvSlot)
      → is_incompatible s.batch i ≡ false
      → P s
      → P (append_kv_slot i s).0
  pub by_start : (now : ℕ) (s : KvSlot) → is_kv_ready s ≡ true → P s → P (start_kv_slot now s)

pub ready_idle : (s : KvSlot) → is_kv_ready s ≡ true → s.running ≡ none
unfolding is_kv_ready
ready_idle s h = elim (Option-cases s.running) [
  | inl e ↦ e
  | inr (b, e) ↦ let busy : is_kv_ready s ≡ false = rw e refl in cc
]

at_kv_bucket-drop :
    (b : ℕ) (ss : List KvSlot) (s' : KvSlot)
    → find_kv_slot b (at_kv_bucket b drop_kv_slot ss).0 ≡ some s'
    → s'.batch ≡ none
unfolding at_kv_bucket find_kv_slot drop_kv_slot
at_kv_bucket-drop b [] s' = λ e. cc
at_kv_bucket-drop b (s ∷ ss) s' = elim (Bool-cases (s.bucket == b)) [
  | inl q ↦
      rw (q, q)
        (λ e.
          let same : record s { batch = none } ≡ s' = cc in ap (λ (r : KvSlot). r.batch) (sym same))
  | inr q ↦ rw (q, q) (at_kv_bucket-drop b ss s')
]

module _ (P : KvSlot → Type 0) (k : IsStepKept P) where
  at_kv_bucket-All :
      (b : ℕ) (act : KvAction) (ss : List KvSlot)
      → ((s : KvSlot) → find_kv_slot b ss ≡ some s → P s → P (act s).0)
      → All P ss
      → All P (at_kv_bucket b act ss).0
  unfolding at_kv_bucket find_kv_slot
  at_kv_bucket-All b act [] = λ step all. all
  at_kv_bucket-All b act (s ∷ ss) = elim (Bool-cases (s.bucket == b)) [
    | inl q ↦ rw q (λ step (p, ps). (step s refl p, ps))
    | inr q ↦ rw q (λ step (p, ps). (p, at_kv_bucket-All b act ss step ps))
  ]

  dispatch_pass-All :
      (now max n : ℕ) (ss : List KvSlot) → All P ss → All P (dispatch_kv_pass now max n ss).0
  unfolding dispatch_kv_pass
  dispatch_pass-All now max n [] all = all
  dispatch_pass-All now max n (s ∷ ss) (p, ps) =
      let Q : List KvSlot × ℕ × Bool → Type 0 = λ r. All P r.0 in
      if_cases Q (is_kv_ready s)
        (λ ready.
          if_cases Q (n + 1 == max) (λ _. (k.by_start now s ready p, ps))
            (λ _. (k.by_start now s ready p, dispatch_pass-All now max (n + 1) ss ps)))
        (λ _. (p, dispatch_pass-All now max n ss ps))

  abbrev AllKept : UpsertLoop → Type 0
  AllKept l = All P l.slots

  dispatch_rounds-All :
      (rounds max : ℕ) (l : UpsertLoop) → AllKept l → AllKept (dispatch_kv_rounds rounds max l)
  unfolding dispatch_kv_rounds
  dispatch_rounds-All zero max l all = all
  dispatch_rounds-All (suc rounds) max l all =
      let p = dispatch_kv_pass l.now max l.in_flight l.slots in
      let l' = record l { slots = p.0; in_flight = p.1 } in
      let passed = dispatch_pass-All l.now max l.in_flight l.slots all in
      if_cases AllKept (ltb l.in_flight max)
        (λ _. if_cases AllKept p.2 (λ _. dispatch_rounds-All rounds max l' passed) (λ _. passed))
        (λ _. all)

  apply-All :
      (b : ℕ) (act : KvAction) (l : UpsertLoop)
      → ((s : KvSlot) → P s → P (act s).0)
      → AllKept l
      → AllKept (apply_kv b act l)
  unfolding apply_kv
  apply-All b act l step all = at_kv_bucket-All b act l.slots (λ s e p. step s p) all

  dispatch-All : (c : UpsertConfig) (l : UpsertLoop) → AllKept l → AllKept (dispatch_kv c l)
  unfolding dispatch_kv
  dispatch-All c l all = dispatch_rounds-All c.max_concurrent c.max_concurrent l all

  abbrev Kept : UpsertLoop × List GoError → Type 0
  Kept r = AllKept r.0

  after_flush-All :
      (c : UpsertConfig) (o : Option GoError) (l : UpsertLoop)
      → AllKept l
      → Kept (after_kv_flush c o l)
  unfolding after_kv_flush
  after_flush-All c (some e) l all = all
  after_flush-All c none l all = dispatch-All c l all

  flush_bucket-All :
      (c : UpsertConfig) (b : ℕ) (l : UpsertLoop) → AllKept l → Kept (flush_kv_bucket c b l)
  unfolding flush_kv_bucket
  flush_bucket-All c b l all =
      if_cases Kept (holds_items (kv_batch_at b l))
        (λ _.
          after_flush-All c (poison (find_kv_slot b l.slots)) (apply_kv b flush_kv_slot l)
            (apply-All b flush_kv_slot l k.by_flush all))
        (λ _. all)

  completion-All :
      (c : UpsertConfig) (b : ℕ) (reply : KvReply) (l : UpsertLoop)
      → AllKept l
      → Kept (handle_kv_completion c b reply l)
  unfolding handle_kv_completion
  completion-All c b reply l all = dispatch-All c _ (
      apply-All b (finish_kv_slot c.max_throttle l.now reply) l
        (λ s p. k.by_finish c.max_throttle l.now reply s p) all)

  renew-All :
      (c : UpsertConfig) (b : ℕ) (l : UpsertLoop) → AllKept l → AllKept (renew_kv_batch c b l)
  unfolding renew_kv_batch
  renew-All c b l all =
      apply-All b drop_kv_slot (flush_kv_bucket c b l).0 k.by_drop (flush_bucket-All c b l all)

  -- The batch that a write is added to has the write's targets.
  abbrev Ready : KvWrite → UpsertLoop → Type 0
  Ready i l = is_incompatible (kv_batch_at i.bucket l) i ≡ false

  renew-Ready :
      (c : UpsertConfig) (i : KvWrite) (l : UpsertLoop) → Ready i (renew_kv_batch c i.bucket l)
  unfolding renew_kv_batch apply_kv kv_batch_at is_incompatible
  renew-Ready c i l =
      let ss = (flush_kv_bucket c i.bucket l).0.slots in
      elim (Option-cases (find_kv_slot i.bucket (at_kv_bucket i.bucket drop_kv_slot ss).0)) [
        | inl e ↦ rw e refl
        | inr (s, e) ↦ rw (e, at_kv_bucket-drop i.bucket ss s e) refl
      ]

  compatible-Ready :
      (c : UpsertConfig) (i : KvWrite) (l : UpsertLoop) → Ready i (compatible_batch c i l)
  unfolding compatible_batch
  compatible-Ready c i l =
      if_cases (Ready i) (is_incompatible (kv_batch_at i.bucket l) i) (λ _. renew-Ready c i l)
        (λ fits. fits)

  make_room-Ready :
      (c : UpsertConfig) (i : KvWrite) (l : UpsertLoop) → Ready i l → Ready i (make_room c i l)
  unfolding make_room
  make_room-Ready c i l fits =
      if_cases (Ready i) (kv_batch_full_with c (kv_batch_at i.bucket l) i) (λ _. renew-Ready c i l)
        (λ _. fits)

  compatible-All :
      (c : UpsertConfig) (i : KvWrite) (l : UpsertLoop)
      → AllKept l
      → AllKept (compatible_batch c i l)
  unfolding compatible_batch
  compatible-All c i l all =
      if_cases AllKept (is_incompatible (kv_batch_at i.bucket l) i)
        (λ _. renew-All c i.bucket l all) (λ _. all)

  make_room-All :
      (c : UpsertConfig) (i : KvWrite) (l : UpsertLoop) → AllKept l → AllKept (make_room c i l)
  unfolding make_room
  make_room-All c i l all =
      if_cases AllKept (kv_batch_full_with c (kv_batch_at i.bucket l) i)
        (λ _. renew-All c i.bucket l all) (λ _. all)

  append-All :
      (i : KvWrite) (l : UpsertLoop)
      → Ready i l
      → AllKept l
      → AllKept (apply_kv i.bucket (append_kv_slot i) l)
  unfolding apply_kv kv_batch_at
  append-All i l fits all =
      at_kv_bucket-All i.bucket (append_kv_slot i) l.slots
        (λ s e p. k.by_append i s (subst (λ o. is_incompatible (open_batch o) i ≡ false) e fits) p)
        all

  place-All :
      (c : UpsertConfig) (i : KvWrite) (l : UpsertLoop)
      → Ready i l
      → AllKept l
      → AllKept (place_write c i l)
  unfolding place_write arm_kv_timer
  place-All c i l fits all =
      let added = apply_kv i.bucket (append_kv_slot i) l in
      let kept = append-All i l fits all in
      if_cases AllKept (kv_batch_full c (kv_batch_at i.bucket added) || not c.has_batch_timeout)
        (λ _. flush_bucket-All c i.bucket added kept) (λ _. kept)

  add-All :
      (c : UpsertConfig) (ctx : Option GoError) (i : KvWrite) (l : UpsertLoop)
      → AllKept l
      → AllKept (add_write c ctx i l)
  unfolding add_write reject_write
  add-All c (some e) i l all = all
  add-All c none i l all =
      let fitting = compatible_batch c i l in
      place-All c i (make_room c i fitting) (make_room-Ready c i fitting (compatible-Ready c i l))
        (make_room-All c i fitting (compatible-All c i l all))

  flush_each-All :
      (c : UpsertConfig) (bs : List ℕ) (l : UpsertLoop) → AllKept l → Kept (flush_kv_each c bs l)
  unfolding flush_kv_each
  flush_each-All c [] l all = all
  flush_each-All c (b ∷ bs) l all =
      flush_each-All c bs (flush_kv_bucket c b l).0 (flush_bucket-All c b l all)

  drain-All :
      (c : UpsertConfig) (next : UpsertLoop → ℕ × KvReply) (fuel : ℕ) (l : UpsertLoop)
      → AllKept l
      → Kept (drain_kv c next fuel l)
  unfolding drain_kv
  drain-All c next zero l all = all
  drain-All c next (suc fuel) l all =
      let handled = handle_kv_completion c (next l).0 (next l).1 l in
      if_cases Kept (ltb 0 l.in_flight)
        (λ _. drain-All c next fuel handled.0 (completion-All c (next l).0 (next l).1 l all))
        (λ _. all)

  handle-All :
      (c : UpsertConfig) (x : UpsertEvent) (l : UpsertLoop)
      → AllKept l
      → AllKept (handle_upsert c x l)
  unfolding handle_upsert queue_kv_all flush_kv_all
  handle-All c (write_command ctx i) l all = add-All c ctx i l all
  handle-All c (flush_command next fuel) l all =
      drain-All c next fuel (queue_kv_all c l).0
        (flush_each-All c (kv_buckets l) (record l { timer_armed = false }) all)
  handle-All c timer_event l all =
      flush_each-All c (kv_buckets l) (record l { timer_armed = false }) all
  handle-All c (completion_event b reply) l all = completion-All c b reply l all
  handle-All c (time_passes t) l all = all

  -- What the steps on a bucket keep holds of every bucket, whatever comes.
  pub run_upsert-All :
      (c : UpsertConfig) (xs : List UpsertEvent) (l : UpsertLoop)
      → All P l.slots
      → All P (run_upsert c xs l).slots
  unfolding run_upsert
  run_upsert-All c [] l all = all
  run_upsert-All c (x ∷ xs) l all = run_upsert-All c xs (handle_upsert c x l) (handle-All c x l all)
