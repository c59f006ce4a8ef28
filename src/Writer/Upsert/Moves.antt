-- ===== src/Writer/Upsert/Moves.antt =====
-- What each step of the upsert writer's loop adds to the weight of all that it holds or has completed.
use fluss_go.Prelude.{ℕ, zero, suc, ◌+◌, ◌-◌, Bool, true, false, List, [], ◌∷◌, Option, none, some}
use fluss_go.Prelude.{◌≡◌, refl, ◌∙◌, arith, if_cases, ltb}
use mathlib.Core.Path.{subst}
use fluss_go.Prelude.Errors.{GoError}
use fluss_go.Writer.Upsert.Slot.{
  KvWrite, KvPending, KvSlot, KvReply, flush_kv_slot, finish_kv_slot, append_kv_slot, drop_kv_slot,
}
use fluss_go.Writer.Upsert.{
  UpsertConfig, UpsertLoop, KvAction, at_kv_bucket, apply_kv, holds_items, poison, open_batch,
  find_kv_slot, kv_batch_at, dispatch_kv_pass, dispatch_kv_rounds, dispatch_kv, after_kv_flush,
  flush_kv_bucket, handle_kv_completion, renew_kv_batch, kv_buckets,
}
use fluss_go.Writer.Upsert.Buckets.{
  knows_bucket, find_kv_slot-some, InPlace, flush_kv_slot-InPlace, finish_kv_slot-InPlace,
  at_kv_bucket-buckets, dispatch_pass-buckets, flush_bucket-IsEmptied,
}
use fluss_go.Writer.Upsert.Weights.{
  weigh, weigh_open, weigh_slots, weigh_done, weigh_done-append, Keeps, flush_kv_slot-Keeps,
  finish_kv_slot-Keeps, drop_kv_slot-Keeps, dispatch_pass-weigh, at_kv_bucket-Keeps,
  at_kv_bucket-adds,
}

emptied-weigh :
    (w : KvWrite → ℕ) (o : Option KvPending) → holds_items o ≡ false → weigh_open w o ≡ 0
emptied-weigh w none h = refl
emptied-weigh w (some b) h = nothing b.items h
  where
    nothing :
        (is : List KvWrite)
        → (elim is as (λ _. Bool) [ [] ↦ false | _ ∷ _ ↦ true ]) ≡ false
        → weigh w is ≡ 0
    nothing [] h = refl
    nothing (i ∷ is) h = cc

-- The writer has the bucket of the write.
abbrev pub Has : KvWrite → UpsertLoop → Type 0
Has i l = knows_bucket i.bucket (kv_buckets l) ≡ true

module _ (w : KvWrite → ℕ) where
  -- The weight of the writes in the buckets, and of those whose future was completed.
  abbrev pub total : UpsertLoop → ℕ
  total l = weigh_slots w l.slots + weigh_done w l.done

  -- The buckets stay, and the weight grows by k.
  abbrev pub Moves : ℕ → UpsertLoop → UpsertLoop → Type 0
  Moves k l l' = (total l' ≡ total l + k) × (kv_buckets l' ≡ kv_buckets l)

  pub same : (l : UpsertLoop) → Moves 0 l l
  same l = (omega arith, refl)

  pub then_moves : (k : ℕ) (l l' l'' : UpsertLoop) → Moves 0 l l' → Moves k l' l'' → Moves k l l''
  then_moves k l l' l'' (t, b) (t', b') = (omega arith, b' ∙ b)

  pub moves_then : (k : ℕ) (l l' l'' : UpsertLoop) → Moves k l l' → Moves 0 l' l'' → Moves k l l''
  moves_then k l l' l'' (t, b) (t', b') = (omega arith, b' ∙ b)

  apply-Moves :
      (b : ℕ) (act : KvAction) (l : UpsertLoop)
      → InPlace act
      → ((s : KvSlot) → find_kv_slot b l.slots ≡ some s → Keeps w 0 (act s) s)
      → Moves 0 l (apply_kv b act l)
  unfolding apply_kv
  apply-Moves b act l place keeps = (
    omega (
      arith,
      at_kv_bucket-Keeps w b act l.slots keeps,
      weigh_done-append w l.done (at_kv_bucket b act l.slots).1,
    ),
    at_kv_bucket-buckets b act l.slots place,
  )

  pub append-Moves :
      (i : KvWrite) (l : UpsertLoop)
      → Has i l
      → Moves (w i) l (apply_kv i.bucket (append_kv_slot i) l)
  unfolding apply_kv append_kv_slot
  append-Moves i l h =
      let (s, e) = find_kv_slot-some i.bucket l.slots h in
      (
        omega (
          arith,
          at_kv_bucket-adds w i.bucket i l.slots s e,
          weigh_done-append w l.done (at_kv_bucket i.bucket (append_kv_slot i) l.slots).1,
        ),
        at_kv_bucket-buckets i.bucket (append_kv_slot i) l.slots (λ x. refl),
      )

  dispatch_rounds-Moves :
      (rounds max : ℕ) (l : UpsertLoop) → Moves 0 l (dispatch_kv_rounds rounds max l)
  unfolding dispatch_kv_rounds
  dispatch_rounds-Moves zero max l = same l
  dispatch_rounds-Moves (suc rounds) max l =
      let p = dispatch_kv_pass l.now max l.in_flight l.slots in
      let l' = record l { slots = p.0; in_flight = p.1 } in
      let passed : Moves 0 l l' = (
        omega (arith, dispatch_pass-weigh w l.now max l.in_flight l.slots),
        dispatch_pass-buckets l.now max l.in_flight l.slots,
      ) in
      if_cases (Moves 0 l) (ltb l.in_flight max)
        (λ _.
          if_cases (Moves 0 l) p.2
            (λ _.
              then_moves 0 l l' (dispatch_kv_rounds rounds max l') passed
                (dispatch_rounds-Moves rounds max l'))
            (λ _. passed))
        (λ _. same l)

  dispatch-Moves : (c : UpsertConfig) (l : UpsertLoop) → Moves 0 l (dispatch_kv c l)
  unfolding dispatch_kv
  dispatch-Moves c l = dispatch_rounds-Moves c.max_concurrent c.max_concurrent l

  flush_slot-Moves : (b : ℕ) (l : UpsertLoop) → Moves 0 l (apply_kv b flush_kv_slot l)
  flush_slot-Moves b l =
      apply-Moves b flush_kv_slot l flush_kv_slot-InPlace (λ s e. flush_kv_slot-Keeps w s)

  after_flush-Moves :
      (c : UpsertConfig) (o : Option GoError) (l : UpsertLoop) → Moves 0 l (after_kv_flush c o l).0
  unfolding after_kv_flush
  after_flush-Moves c (some e) l = same l
  after_flush-Moves c none l = dispatch-Moves c l

  pub flush_bucket-Moves :
      (c : UpsertConfig) (b : ℕ) (l : UpsertLoop) → Moves 0 l (flush_kv_bucket c b l).0
  unfolding flush_kv_bucket
  flush_bucket-Moves c b l =
      let flushed = apply_kv b flush_kv_slot l in
      let o = poison (find_kv_slot b l.slots) in
      if_cases (λ (r : UpsertLoop × List GoError). Moves 0 l r.0) (holds_items (kv_batch_at b l))
        (λ _.
          then_moves 0 l flushed (after_kv_flush c o flushed).0 (flush_slot-Moves b l)
            (after_flush-Moves c o flushed))
        (λ _. same l)

  pub completion-Moves :
      (c : UpsertConfig) (b : ℕ) (reply : KvReply) (l : UpsertLoop)
      → Moves 0 l (handle_kv_completion c b reply l).0
  unfolding handle_kv_completion
  completion-Moves c b reply l =
      let act = finish_kv_slot c.max_throttle l.now reply in
      let finished = apply_kv b act l in
      let released = record finished { in_flight = finished.in_flight - 1 } in
      let taken : Moves 0 l released =
        apply-Moves b act l (finish_kv_slot-InPlace c.max_throttle l.now reply)
          (λ s e. finish_kv_slot-Keeps w c.max_throttle l.now reply s) in
      then_moves 0 l released (dispatch_kv c released) taken (dispatch-Moves c released)

  pub renew-Moves : (c : UpsertConfig) (b : ℕ) (l : UpsertLoop) → Moves 0 l (renew_kv_batch c b l)
  unfolding renew_kv_batch drop_kv_slot
  renew-Moves c b l =
      let flushed = (flush_kv_bucket c b l).0 in
      let empty = flush_bucket-IsEmptied c b l in
      then_moves 0 l flushed (apply_kv b drop_kv_slot flushed) (flush_bucket-Moves c b l) (
        apply-Moves b drop_kv_slot flushed (λ s. refl)
          (λ s e.
            drop_kv_slot-Keeps w s
              (emptied-weigh w s.batch (subst (λ o. holds_items (open_batch o) ≡ false) e empty))))
