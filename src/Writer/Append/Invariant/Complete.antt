-- ===== src/Writer/Append/Invariant/Complete.antt =====
-- After a flush the append writer holds nothing: every future was completed.
use fluss_go.Prelude.{ℕ, ◌+◌, ◌<◌, ◌≤◌, List, [], ◌∷◌, none, All, map, length, ◌==◌}
use fluss_go.Prelude.{
  ◌≡◌, ◌≢◌, refl, ap, sym, ◌∙◌, arith, Bool-cases, Option-cases, inl, inr, true, false,
}
use fluss_go.Prelude.Int.{ℤ}
use mathlib.Core.Path.{subst}
use fluss_go.Writer.Append.Slot.{Item, Batch, SlotState, Reply, flush_slot, is_ready, is_empty}
use fluss_go.Writer.Append.Actions.{
  LoopState, Config, at_bucket, apply_at, find_slot, buckets, dispatch, flush_found, flush_bucket,
}
use fluss_go.Writer.Append.Frame.{
  buckets_of_view, kept, batch_of, flush_bucket-open, flush_bucket-frame, frame, find_slot-kept,
}
use fluss_go.Writer.Append.Frame.{flush_slot-bucket, flush_slot-open, dispatch-open_view}
use fluss_go.Writer.Append.Conserves.{
  weigh, weigh_slot, weigh_slots, weigh_done, weigh_batches, weigh_running,
}
use fluss_go.Writer.Append.Conserves.Loop.{total, flush_all-total}
use fluss_go.Writer.Append.Invariant.{sum_by, busy, busy_of, queued, IsSettled, AllIdle}
use fluss_go.Writer.Append.Invariant.Flush.{
  AllDistinct, IsCompletion, drain-IsSettled, flush_each-IsSettled,
}
use fluss_go.Writer.Append.{flush_each, queue_all, drain, flush_all}

-- The open batch of a bucket has no item.
abbrev IsShut : List SlotState → ℕ → Type 0
IsShut ss b = (batch_of (find_slot b ss)).items ≡ []

at_bucket-IsShut :
    (a b : ℕ) (ss : List SlotState) → IsShut ss a → IsShut (at_bucket b flush_slot ss).0 a
unfolding at_bucket find_slot
at_bucket-IsShut a b [] = λ h. h
at_bucket-IsShut a b (s ∷ ss) = elim (Bool-cases (s.bucket == b)) [
  | inl e ↦ elim (Bool-cases (s.bucket == a)) [
    | inl f ↦ rw (e, f) (λ h. rw (flush_slot-bucket s, f) (flush_slot-open s))
    | inr f ↦ rw (e, f) (λ h. rw (flush_slot-bucket s, f) h)
  ]
  | inr e ↦ elim (Bool-cases (s.bucket == a)) [
    | inl f ↦ rw (e, f) (λ h. h)
    | inr f ↦ rw (e, f) (at_bucket-IsShut a b ss)
  ]
]

view-IsShut :
    (a : ℕ) (l l' : LoopState)
    → map kept l'.slots ≡ map kept l.slots
    → IsShut l.slots a
    → IsShut l'.slots a
view-IsShut a l l' e h = ap (λ (q : Batch). q.items) (find_slot-kept a l'.slots l.slots e) ∙ h

flush_found-IsShut :
    (c : Config) (s : SlotState) (a b : ℕ) (l : LoopState)
    → IsShut l.slots a
    → IsShut (flush_found c s b l).0.slots a
unfolding flush_found apply_at
flush_found-IsShut c s a b l h =
    let flushed = at_bucket-IsShut a b l.slots h in
    elim (Bool-cases (is_empty s.batch)) [
      | inl e ↦ rw e h
      | inr e ↦ elim (Option-cases s.poisoned) [
        | inr (x, p) ↦ rw (e, p) flushed
        | inl p ↦
            let l' = apply_at b flush_slot l in
            let view = ap (λ (q : List (ℕ × Batch) × ℤ). q.0) (dispatch-open_view c l') in
            rw (e, p) (view-IsShut a l' (dispatch c l') view flushed)
      ]
    ]

flush_bucket-IsShut :
    (c : Config) (a b : ℕ) (l : LoopState)
    → IsShut l.slots a
    → IsShut (flush_bucket c b l).0.slots a
unfolding flush_bucket
flush_bucket-IsShut c a b l h = elim (Option-cases (find_slot b l.slots)) [
  | inl e ↦ rw (e, flush_bucket) h
  | inr (s, e) ↦ rw (e, flush_bucket) (flush_found-IsShut c s a b l h)
]

flush_each_keeps-IsShut :
    (c : Config) (a : ℕ) (bs : List ℕ) (l : LoopState)
    → IsShut l.slots a
    → IsShut (flush_each c bs l).0.slots a
unfolding flush_each
flush_each_keeps-IsShut c a [] l h = h
flush_each_keeps-IsShut c a (b ∷ bs) l h =
    flush_each_keeps-IsShut c a bs (flush_bucket c b l).0 (flush_bucket-IsShut c a b l h)

flush_each-IsShut :
    (c : Config) (bs : List ℕ) (l : LoopState) → All (IsShut (flush_each c bs l).0.slots) bs
unfolding flush_each
flush_each-IsShut c [] l = tt
flush_each-IsShut c (b ∷ bs) l = (
  flush_each_keeps-IsShut c b bs (flush_bucket c b l).0 (flush_bucket-open c b l),
  flush_each-IsShut c bs (flush_bucket c b l).0,
)

pub flush_each-frame :
    (c : Config) (bs : List ℕ) (l : LoopState) → frame (flush_each c bs l).0 ≡ frame l
unfolding flush_each
flush_each-frame c [] l = refl
flush_each-frame c (b ∷ bs) l =
    flush_each-frame c bs (flush_bucket c b l).0 ∙ flush_bucket-frame c b l

skip_first :
    (s : SlotState) (ss : List SlotState) (bs : List ℕ)
    → All (λ b. s.bucket ≢ b) bs
    → All (IsShut (s ∷ ss)) bs
    → All (IsShut ss) bs
unfolding find_slot
skip_first s ss [] other = λ shut. tt
skip_first s ss (b ∷ bs) (ne, other) =
    let e : (s.bucket == b) ≡ false = ground arith in
    rw e (λ (h, shut). (h, skip_first s ss bs other shut))

first_shut : (s : SlotState) (ss : List SlotState) → IsShut (s ∷ ss) s.bucket → s.batch.items ≡ []
unfolding find_slot
first_shut s ss = let e : (s.bucket == s.bucket) ≡ true = ground arith in rw e (λ h. h)

view-AllShut :
    (bs : List ℕ) (l l' : LoopState)
    → map kept l'.slots ≡ map kept l.slots
    → All (IsShut l.slots) bs
    → All (IsShut l'.slots) bs
view-AllShut [] l l' e shut = tt
view-AllShut (b ∷ bs) l l' e (here, shut) = (view-IsShut b l l' e here, view-AllShut bs l l' e shut)

settled_idle :
    (c : Config) (l : LoopState)
    → 0 < c.max_concurrent
    → l.in_flight ≡ 0
    → IsSettled c l
    → AllIdle l.slots
settled_idle c l positive none_left (counted, inl full) = absurd (omega arith)
settled_idle c l positive none_left (counted, inr idle) = idle

module _ (w : Item → ℕ) where
  no_pending :
      (s : SlotState) → s.running ≡ none → is_ready s ≡ false → weigh_batches w s.pending ≡ 0
  unfolding is_ready
  no_pending s e waits = ground arith

  idle-weigh :
      (s : SlotState) → s.batch.items ≡ [] → busy s ≡ 0 → is_ready s ≡ false → weigh_slot w s ≡ 0
  unfolding is_ready
  idle-weigh s shut idle waits = elim (Option-cases s.running) [
    | inr (r, e) ↦ absurd (omega (arith, ap busy_of e))
    | inl e ↦ omega (arith, ap (weigh w) shut, ap (weigh_running w) e, no_pending s e waits)
  ]

  idle-weigh_slots :
      (ss : List SlotState)
      → AllDistinct (map (λ (s : SlotState). s.bucket) ss)
      → All (IsShut ss) (map (λ (s : SlotState). s.bucket) ss)
      → sum_by busy ss ≡ 0
      → AllIdle ss
      → weigh_slots w ss ≡ 0
  idle-weigh_slots [] distinct shut idle waits = refl
  idle-weigh_slots (s ∷ ss) (other, distinct) (here, shut) idle (wait, waits) = omega (
    arith,
    idle-weigh s (first_shut s ss here) (omega arith) wait,
    idle-weigh_slots ss distinct (skip_first s ss _ other shut) (omega arith) waits,
  )

  -- A flush of a settled writer with distinct buckets and a positive MaxConcurrentRequests, given
  -- completions of requests in flight and a round for each batch, ends: nothing is in flight, no
  -- bucket holds an item, and for any weight the completed futures weigh what the writer held or had
  -- completed before.
  pub flush_all-completes :
      (c : Config) (next : LoopState → ℕ × Reply) (fuel : ℕ) (l : LoopState)
      → 0 < c.max_concurrent
      → AllDistinct (buckets l)
      → IsCompletion next
      → IsSettled c l
      → sum_by queued l.slots + length (buckets l) ≤ fuel
      → let l' = (flush_all c next fuel l).0 in
        (l'.in_flight ≡ 0) × (weigh_slots w l'.slots ≡ 0) × (weigh_done w l'.done ≡ total w l)
  unfolding flush_all queue_all
  flush_all-completes c next fuel l positive distinct completes settled enough =
      let start : LoopState = record l { timer_armed = false } in
      let each = flush_each c (buckets l) start in
      let (queued_settled, few) = flush_each-IsSettled c (buckets l) start settled in
      let frames = ap (λ (p : List ℕ × ℤ). p.0) (flush_each-frame c (buckets l) start) in
      let (end_settled, none_left, view) =
        drain-IsSettled c next fuel each.0 completes (subst AllDistinct (sym frames) distinct)
          queued_settled (omega arith) in
      let l' = (drain c next fuel each.0).0 in
      let same : buckets l' ≡ buckets l = buckets_of_view each.0 l' view ∙ frames in
      let shut = view-AllShut (buckets l) each.0 l' view (flush_each-IsShut c (buckets l) start) in
      let empty =
        idle-weigh_slots l'.slots (subst AllDistinct (sym same) distinct)
          (subst (All (IsShut l'.slots)) (sym same) shut) (omega arith)
          (settled_idle c l' positive none_left end_settled) in
      (none_left, empty, omega (arith, flush_all-total w c next fuel l))
