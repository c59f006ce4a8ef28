-- ===== src/Writer/Append/Frame.antt =====
-- What the actions of the append writer's loop leave alone: the buckets, the open batches, and the
-- position of the sticky assigner.
use fluss_go.Prelude.{ℕ, zero, suc, ◌+◌, ◌==◌, List, [], ◌∷◌, Option, none, some, map, ltb}
use fluss_go.Prelude.{◌≡◌, refl, ap, ◌∙◌, arith, Bool-cases, Option-cases, inl, inr, true, is_some}
use fluss_go.Prelude.Int.{ℤ}
use fluss_go.Writer.Append.Slot.{
  Batch, SlotState, empty_batch, Reply, flush_slot, finish_slot, start_slot,
}
use fluss_go.Writer.Append.Slot.{
  finish_batch, start_next, dispatch_pass, failed, acknowledged, is_ready, is_empty,
}
use fluss_go.Writer.Append.Actions.{
  LoopState, Config, Action, at_bucket, apply_at, find_slot, buckets, passed, none_sent,
}
use fluss_go.Writer.Append.Actions.{
  dispatch_rounds, dispatch, flush_found, flush_bucket, handle_completion, release,
}

module _ {A : Type 0} (f : SlotState → A) where
  pub at_bucket-map :
      (b : ℕ) (act : Action) (ss : List SlotState)
      → ((s : SlotState) → f (act s).0 ≡ f s)
      → map f (at_bucket b act ss).0 ≡ map f ss
  unfolding at_bucket
  at_bucket-map b act [] h = refl
  at_bucket-map b act (s ∷ ss) h = elim (Bool-cases (s.bucket == b)) [
    | inl e ↦ rw e (rw (h s))
    | inr e ↦ rw e (rw (at_bucket-map b act ss h))
  ]

  pub dispatch_pass-map :
      (max n : ℕ) (ss : List SlotState)
      → ((s : SlotState) → f (start_slot s) ≡ f s)
      → map f (dispatch_pass max n ss).0 ≡ map f ss
  unfolding dispatch_pass
  dispatch_pass-map max n [] h = refl
  dispatch_pass-map max n (s ∷ ss) h = elim (Bool-cases (is_ready s)) [
    | inl r ↦ elim (Bool-cases ((n + 1) == max)) [
      | inl last ↦ rw (r, last) (rw (h s))
      | inr more ↦ rw (r, more) (rw (h s, dispatch_pass-map max (n + 1) ss h))
    ]
    | inr r ↦ rw r (rw (dispatch_pass-map max n ss h))
  ]

abbrev pub kept : SlotState → ℕ × Batch
kept s = (s.bucket, s.batch)

start_next-kept : (bs : List Batch) (s : SlotState) → kept (start_next bs s) ≡ kept s
unfolding start_next
start_next-kept [] s = refl
start_next-kept (b ∷ bs) s = refl

start_slot-kept : (s : SlotState) → kept (start_slot s) ≡ kept s
unfolding start_slot
start_slot-kept s = start_next-kept s.pending s

finish_batch-kept :
    (s : SlotState) (b : Batch) (reply : Reply) → kept (finish_batch s b reply).0 ≡ kept s
unfolding finish_batch
finish_batch-kept s b (failed e) = refl
finish_batch-kept s b (acknowledged offset known) = refl

pub finish_slot-kept : (reply : Reply) (s : SlotState) → kept (finish_slot reply s).0 ≡ kept s
unfolding finish_slot
finish_slot-kept reply s = elim (Option-cases s.running) [
  | inl e ↦ rw e refl
  | inr ((b, n), e) ↦ rw (e, finish_slot) (finish_batch-kept s b reply)
]

pub flush_slot-bucket : (s : SlotState) → (flush_slot s).0.bucket ≡ s.bucket
unfolding flush_slot
flush_slot-bucket s = elim (Option-cases s.poisoned) [ inl e ↦ rw e refl | inr (x, e) ↦ rw e refl ]

pub flush_slot-open : (s : SlotState) → (flush_slot s).0.batch.items ≡ []
unfolding flush_slot
flush_slot-open s = elim (Option-cases s.poisoned) [ inl e ↦ rw e refl | inr (x, e) ↦ rw e refl ]

-- The open batches with their buckets, and the sticky index.
abbrev pub open_view : LoopState → List (ℕ × Batch) × ℤ
open_view l = (map kept l.slots, l.sticky_index)

passed-open_view : (max : ℕ) (l : LoopState) → open_view (passed max l) ≡ open_view l
unfolding passed
passed-open_view max l = rw (dispatch_pass-map kept max l.in_flight l.slots start_slot-kept)

dispatch_rounds-open_view :
    (rounds max : ℕ) (l : LoopState) → open_view (dispatch_rounds rounds max l) ≡ open_view l
unfolding dispatch_rounds
dispatch_rounds-open_view zero max l = refl
dispatch_rounds-open_view (suc rounds) max l = elim (Bool-cases (ltb l.in_flight max)) [
  | inl room ↦ elim (Bool-cases (none_sent (dispatch_pass max l.in_flight l.slots).2)) [
    | inl idle ↦ rw (room, idle) (passed-open_view max l)
    | inr more ↦
        rw (room, more)
          (dispatch_rounds-open_view rounds max (passed max l) ∙ passed-open_view max l)
  ]
  | inr full ↦ rw full refl
]

pub dispatch-open_view : (c : Config) (l : LoopState) → open_view (dispatch c l) ≡ open_view l
unfolding dispatch
dispatch-open_view c l = dispatch_rounds-open_view c.max_concurrent c.max_concurrent l

pub handle_completion-open_view :
    (c : Config) (b : ℕ) (reply : Reply) (l : LoopState)
    → open_view (handle_completion c b reply l).0 ≡ open_view l
unfolding handle_completion release apply_at
handle_completion-open_view c b reply l =
    dispatch-open_view c (release (apply_at b (finish_slot reply) l))
    ∙ rw (at_bucket-map kept b (finish_slot reply) l.slots (finish_slot-kept reply))

-- The buckets and the sticky index.
abbrev pub frame : LoopState → List ℕ × ℤ
frame l = (buckets l, l.sticky_index)

pub map-kept :
    (ss : List SlotState)
    → map (λ (p : ℕ × Batch). p.0) (map kept ss) ≡ map (λ (s : SlotState). s.bucket) ss
map-kept [] = refl
map-kept (s ∷ ss) = rw (map-kept ss)

pub buckets_of_view :
    (l l' : LoopState) → map kept l'.slots ≡ map kept l.slots → buckets l' ≡ buckets l
buckets_of_view l l' e = rw (← map-kept l'.slots, ← map-kept l.slots, e)

pub frame_of_open : (l l' : LoopState) → open_view l' ≡ open_view l → frame l' ≡ frame l
frame_of_open l l' e =
    let b : map kept l'.slots ≡ map kept l.slots = ap (λ (p : List (ℕ × Batch) × ℤ). p.0) e in
    let s : l'.sticky_index ≡ l.sticky_index = ap (λ (p : List (ℕ × Batch) × ℤ). p.1) e in
    rw (← map-kept l'.slots, ← map-kept l.slots, b, s)

pub dispatch-frame : (c : Config) (l : LoopState) → frame (dispatch c l) ≡ frame l
dispatch-frame c l = frame_of_open l (dispatch c l) (dispatch-open_view c l)

pub apply_at-frame :
    (b : ℕ) (act : Action) (l : LoopState)
    → ((s : SlotState) → (act s).0.bucket ≡ s.bucket)
    → frame (apply_at b act l) ≡ frame l
unfolding apply_at
apply_at-frame b act l h = rw (at_bucket-map (λ (s : SlotState). s.bucket) b act l.slots h)

flush_found-frame :
    (c : Config) (s : SlotState) (b : ℕ) (l : LoopState) → frame (flush_found c s b l).0 ≡ frame l
unfolding flush_found
flush_found-frame c s b l = elim (Bool-cases (is_empty s.batch)) [
  | inl e ↦ rw e refl
  | inr e ↦
      let flushed = apply_at-frame b flush_slot l flush_slot-bucket in
      elim (Option-cases s.poisoned) [
        | inl p ↦ rw (e, p) (dispatch-frame c (apply_at b flush_slot l) ∙ flushed)
        | inr (x, p) ↦ rw (e, p) flushed
      ]
]

pub flush_bucket-frame :
    (c : Config) (b : ℕ) (l : LoopState) → frame (flush_bucket c b l).0 ≡ frame l
unfolding flush_bucket
flush_bucket-frame c b l = elim (Option-cases (find_slot b l.slots)) [
  | inl e ↦ rw (e, flush_bucket) refl
  | inr (s, e) ↦ rw (e, flush_bucket) (flush_found-frame c s b l)
]

-- Whether a bucket has a slot depends on the buckets.
pub find_slot-frame :
    (b : ℕ) (ss ts : List SlotState)
    → map (λ (s : SlotState). s.bucket) ss ≡ map (λ (s : SlotState). s.bucket) ts
    → is_some (find_slot b ss) ≡ is_some (find_slot b ts)
unfolding find_slot
find_slot-frame b [] [] e = refl
find_slot-frame b [] (t ∷ ts) e = cc
find_slot-frame b (s ∷ ss) [] e = cc
find_slot-frame b (s ∷ ss) (t ∷ ts) e =
    let q : s.bucket ≡ t.bucket = cc in
    let rest : map (λ (s : SlotState). s.bucket) ss ≡ map (λ (s : SlotState). s.bucket) ts = cc in
    elim (Bool-cases (t.bucket == b)) [
      | inl h ↦ rw (q, h) refl
      | inr h ↦ rw (q, h) (find_slot-frame b ss ts rest)
    ]

abbrev pub batch_of : Option SlotState → Batch
batch_of none = empty_batch
batch_of (some s) = s.batch

pub find_slot-kept :
    (b : ℕ) (ss ts : List SlotState)
    → map kept ss ≡ map kept ts
    → batch_of (find_slot b ss) ≡ batch_of (find_slot b ts)
unfolding find_slot
find_slot-kept b [] [] e = refl
find_slot-kept b [] (t ∷ ts) e = cc
find_slot-kept b (s ∷ ss) [] e = cc
find_slot-kept b (s ∷ ss) (t ∷ ts) e =
    let k : kept s ≡ kept t = cc in
    let q : s.bucket ≡ t.bucket = ap (λ (p : ℕ × Batch). p.0) k in
    let same : s.batch ≡ t.batch = ap (λ (p : ℕ × Batch). p.1) k in
    let rest : map kept ss ≡ map kept ts = cc in
    elim (Bool-cases (t.bucket == b)) [
      | inl h ↦ rw (q, h) same
      | inr h ↦ rw (q, h) (find_slot-kept b ss ts rest)
    ]

at_bucket-flushed :
    (b : ℕ) (ss : List SlotState)
    → (batch_of (find_slot b (at_bucket b flush_slot ss).0)).items ≡ []
unfolding at_bucket find_slot
at_bucket-flushed b [] = refl
at_bucket-flushed b (s ∷ ss) = elim (Bool-cases (s.bucket == b)) [
  | inl h ↦ rw h (rw (flush_slot-bucket s, h) (flush_slot-open s))
  | inr h ↦ rw h (rw h (at_bucket-flushed b ss))
]

is_empty-items : (b : Batch) → is_empty b ≡ true → b.items ≡ []
unfolding is_empty
is_empty-items b h = ground arith

flush_found-open :
    (c : Config) (s : SlotState) (b : ℕ) (l : LoopState)
    → find_slot b l.slots ≡ some s
    → (batch_of (find_slot b (flush_found c s b l).0.slots)).items ≡ []
unfolding flush_found apply_at
flush_found-open c s b l found = elim (Bool-cases (is_empty s.batch)) [
  | inl e ↦ rw (e, found) (is_empty-items s.batch e)
  | inr e ↦ elim (Option-cases s.poisoned) [
    | inr (x, p) ↦ rw (e, p) (at_bucket-flushed b l.slots)
    | inl p ↦
        let view = dispatch-open_view c (apply_at b flush_slot l) in
        rw (e, p)
          (ap (λ (q : Batch). q.items)
              (find_slot-kept b _ _ (ap (λ (q : List (ℕ × Batch) × ℤ). q.0) view))
            ∙ at_bucket-flushed b l.slots)
  ]
]

-- After flushBucket the bucket's open batch is empty.
pub flush_bucket-open :
    (c : Config) (b : ℕ) (l : LoopState)
    → (batch_of (find_slot b (flush_bucket c b l).0.slots)).items ≡ []
unfolding flush_bucket
flush_bucket-open c b l = elim (Option-cases (find_slot b l.slots)) [
  | inl e ↦ rw (e, flush_bucket) (rw e refl)
  | inr (s, e) ↦ rw (e, flush_bucket) (flush_found-open c s b l e)
]
