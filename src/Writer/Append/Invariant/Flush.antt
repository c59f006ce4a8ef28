-- ===== src/Writer/Append/Invariant/Flush.antt =====
-- Flushing the append writer: every round of the drain ends a request, and at the end no bucket
-- holds an item.
use fluss_go.Prelude.{ℕ, zero, suc, ◌+◌, ◌<◌, ◌≤◌, List, [], ◌∷◌, some, All, map, length, ltb, ◌==◌}
use fluss_go.Prelude.{
  ◌≡◌, ◌≢◌, refl, sym, ap, ◌∙◌, arith, false, Bool-cases, Option-cases, inl, inr,
}
use mathlib.Core.Path.{subst}
use fluss_go.Prelude.Int.{ℤ}
use fluss_go.Prelude.Errors.{GoError}
use fluss_go.Writer.Append.Slot.{Batch, SlotState, Reply, flush_slot, is_ready, is_empty}
use fluss_go.Writer.Append.Actions.{
  LoopState, buckets, Config, Action, at_bucket, apply_at, find_slot, flush_found,
}
use fluss_go.Writer.Append.Actions.{flush_bucket, handle_completion}
use fluss_go.Writer.Append.Frame.{buckets_of_view, kept, handle_completion-open_view}
use fluss_go.Writer.Append.Invariant.{sum_by, busy, queued, IsSettled, IsBusyAt}
use fluss_go.Writer.Append.Invariant.{
  dispatch-IsSettled, handle_completion-IsSettled, flush_bucket-IsCounted, flushed-IsCounted,
}
use fluss_go.Writer.Append.{flush_each, drain}

find_slot-All :
    (P : SlotState → Type 0) (b : ℕ) (ss : List SlotState) (s : SlotState)
    → find_slot b ss ≡ some s
    → All P ss
    → P s
unfolding find_slot
find_slot-All P b [] s = λ h _. cc
find_slot-All P b (x ∷ ss) s = elim (Bool-cases (x.bucket == b)) [
  | inl e ↦ rw e (λ h all. let q : s ≡ x = cc in rw q all.0)
  | inr e ↦ rw e (λ h all. find_slot-All P b ss s h all.1)
]

at_bucket-All :
    (P : SlotState → Type 0) (b : ℕ) (act : Action) (ss : List SlotState) (s : SlotState)
    → find_slot b ss ≡ some s
    → P (act s).0
    → All P ss
    → All P (at_bucket b act ss).0
unfolding at_bucket find_slot
at_bucket-All P b act [] s = λ _ _ _. tt
at_bucket-All P b act (x ∷ ss) s = elim (Bool-cases (x.bucket == b)) [
  | inl e ↦ rw e (λ h p all. let q : x ≡ s = cc in (rw q p, all.1))
  | inr e ↦ rw e (λ h p all. (all.0, at_bucket-All P b act ss s h p all.1))
]

poisoned-ready :
    (s : SlotState) {x : GoError} → s.poisoned ≡ some x → is_ready (flush_slot s).0 ≡ is_ready s
unfolding flush_slot is_ready
poisoned-ready s e = rw e refl

flush_found-IsSettled :
    (c : Config) (s : SlotState) (b : ℕ) (l : LoopState)
    → find_slot b l.slots ≡ some s
    → IsSettled c l
    → IsSettled c (flush_found c s b l).0
unfolding flush_found
flush_found-IsSettled c s b l found (counted, settled) =
    let (counted', more) = flushed-IsCounted c b l counted in
    elim (Bool-cases (is_empty s.batch)) [
      | inl e ↦ rw e (counted, settled)
      | inr e ↦ elim (Option-cases s.poisoned) [
        | inl p ↦ rw (e, p) (dispatch-IsSettled c (apply_at b flush_slot l) counted')
        | inr (x, p) ↦
            rw (e, p)
              (
                counted',
                elim settled [
                  | inl full ↦ inl full
                  | inr idle ↦ inr (
                      at_bucket-All (λ t. is_ready t ≡ false) b flush_slot l.slots s found
                        (poisoned-ready s p
                          ∙ find_slot-All (λ t. is_ready t ≡ false) b l.slots s found idle)
                        idle)
                ],
              )
      ]
    ]

pub flush_bucket-IsSettled :
    (c : Config) (b : ℕ) (l : LoopState) → IsSettled c l → IsSettled c (flush_bucket c b l).0
unfolding flush_bucket
flush_bucket-IsSettled c b l settled = elim (Option-cases (find_slot b l.slots)) [
  | inl e ↦ rw (e, flush_bucket) settled
  | inr (s, e) ↦ rw (e, flush_bucket) (flush_found-IsSettled c s b l e settled)
]

pub flush_each-IsSettled :
    (c : Config) (bs : List ℕ) (l : LoopState)
    → IsSettled c l
    → let l' = (flush_each c bs l).0 in
      IsSettled c l' × (sum_by queued l'.slots ≤ sum_by queued l.slots + length bs)
unfolding flush_each
flush_each-IsSettled c [] l settled = (settled, omega arith)
flush_each-IsSettled c (b ∷ bs) l settled =
    let (done, more) =
      flush_each-IsSettled c bs (flush_bucket c b l).0 (flush_bucket-IsSettled c b l settled) in
    (done, omega (arith, flush_bucket-IsCounted c b l settled.0))

-- No bucket stands twice in the list.
abbrev pub AllDistinct : List ℕ → Type 0
AllDistinct [] = Unit {0}
AllDistinct (b ∷ bs) = All (λ c. b ≢ c) bs × AllDistinct bs

-- What the channel gives is the completion of a request in flight.
abbrev pub IsCompletion : (LoopState → ℕ × Reply) → Type 0
IsCompletion next =
    (l : LoopState) → AllDistinct (buckets l) → 0 < sum_by busy l.slots → IsBusyAt (next l).0 l

queued-busy : (ss : List SlotState) → sum_by busy ss ≤ sum_by queued ss
queued-busy [] = omega arith
queued-busy (s ∷ ss) = omega (arith, queued-busy ss)

pub drain-IsSettled :
    (c : Config) (next : LoopState → ℕ × Reply) (fuel : ℕ) (l : LoopState)
    → IsCompletion next
    → AllDistinct (buckets l)
    → IsSettled c l
    → sum_by queued l.slots ≤ fuel
    → let l' = (drain c next fuel l).0 in
      IsSettled c l' × (l'.in_flight ≡ 0) × (map kept l'.slots ≡ map kept l.slots)
unfolding drain
drain-IsSettled c next zero l completes distinct settled enough =
    (settled, omega (arith, queued-busy l.slots), refl)
drain-IsSettled c next (suc fuel) l completes distinct settled enough =
    elim (Bool-cases (ltb 0 l.in_flight)) [
      | inr empty ↦ rw empty (settled, ground arith, refl)
      | inl some_left ↦
          let left : 0 < sum_by busy l.slots = ground arith in
          let l' = (handle_completion c (next l).0 (next l).1 l).0 in
          let (next_settled, less) =
            handle_completion-IsSettled c (next l).0 (next l).1 l settled.0
              (completes l distinct left) in
          let view =
            ap (λ (q : List (ℕ × Batch) × ℤ). q.0)
              (handle_completion-open_view c (next l).0 (next l).1 l) in
          let (s, none_left, same) =
            drain-IsSettled c next fuel l' completes
              (subst AllDistinct (sym (buckets_of_view l l' view)) distinct) next_settled
              (omega arith) in
          rw some_left (s, none_left, same ∙ view)
    ]
