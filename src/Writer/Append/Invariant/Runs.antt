-- ===== src/Writer/Append/Invariant/Runs.antt =====
-- What holds of the append writer's loop whatever happens to it.
use fluss_go.Prelude.{
  ℕ, zero, suc, ◌+◌, ◌<◌, ◌≤◌, List, [], ◌∷◌, ◌++◌, if◌then◌else◌, length, ltb, false,
}
use fluss_go.Prelude.{◌≡◌, refl, ap, sym, ◌∙◌, arith, Bool-cases, inl, inr}
use mathlib.Core.Path.{subst}
use fluss_go.Prelude.Int.{ℤ}
use fluss_go.Writer.Append.Slot.{Item, Reply}
use fluss_go.Writer.Append.Actions.{LoopState, Config, buckets, handle_completion}
use fluss_go.Writer.Append.Frame.{frame, frame_of_open, handle_completion-open_view}
use fluss_go.Writer.Append.Conserves.{weigh, weigh-append, weigh_slots, weigh_done}
use fluss_go.Writer.Append.Conserves.Loop.{
  total, flush_all-total, flush_each-total, handle_completion-total,
}
use fluss_go.Writer.Append.Conserves.Add.{IsReady, IsKnown, frame-IsReady, add-Takes}
use fluss_go.Writer.Append.Invariant.{
  sum_by, queued, IsSettled, IsBusyAt, handle_completion-IsSettled,
}
use fluss_go.Writer.Append.Invariant.Flush.{
  AllDistinct, IsCompletion, flush_each-IsSettled, drain-IsSettled,
}
use fluss_go.Writer.Append.Invariant.Complete.{flush_each-frame, flush_all-completes}
use fluss_go.Writer.Append.Invariant.Adds.{add-IsOrderly, IsOrderly}
use fluss_go.Writer.Append.Run.{
  Event, item_command, flush_command, close_command, timer_fired, completion, handle_event, run,
  is_close,
}
use fluss_go.Writer.Append.{flush_each, queue_all, drain, flush_all}

-- When an event can happen: an explicit bucket is the writer's, a completion is one of a request in
-- flight, and a flush is given completions, as many as it has batches.
abbrev pub IsPossible : Event → LoopState → Type 0
IsPossible (item_command ctx_err i) l = IsKnown i l
IsPossible (flush_command next fuel) l =
    IsCompletion next × (sum_by queued l.slots + length (buckets l) ≤ fuel)
IsPossible (close_command next fuel) l =
    IsCompletion next × (sum_by queued l.slots + length (buckets l) ≤ fuel)
IsPossible timer_fired l = Unit {0}
IsPossible (completion b reply) l = IsBusyAt b l

-- Each event of the list can happen when its turn comes.
abbrev pub ArePossible : Config → List Event → LoopState → Type 0
ArePossible c [] l = Unit {0}
ArePossible c (e ∷ es) l = IsPossible e l × ArePossible c es (handle_event c e l)

abbrev items_of : Event → List Item
items_of (item_command ctx_err i) = i ∷ []
items_of _ = []

-- The items that the loop takes: those of the commands up to a close.
abbrev pub taken : List Event → List Item
taken [] = []
taken (e ∷ es) = let rest = taken es in if is_close e then items_of e else items_of e ++ rest

-- The state of a running loop.
abbrev pub IsSound : Config → LoopState → Type 0
IsSound c l = IsReady l × IsOrderly c l

drain-frame :
    (c : Config) (next : LoopState → ℕ × Reply) (fuel : ℕ) (l : LoopState)
    → frame (drain c next fuel l).0 ≡ frame l
unfolding drain
drain-frame c next zero l = refl
drain-frame c next (suc fuel) l = elim (Bool-cases (ltb 0 l.in_flight)) [
  | inr empty ↦ rw empty refl
  | inl more ↦
      let l' = (handle_completion c (next l).0 (next l).1 l).0 in
      rw more (
        drain-frame c next fuel l'
        ∙ frame_of_open l l' (handle_completion-open_view c (next l).0 (next l).1 l))
]

flush_all-frame :
    (c : Config) (next : LoopState → ℕ × Reply) (fuel : ℕ) (l : LoopState)
    → frame (flush_all c next fuel l).0 ≡ frame l
unfolding flush_all queue_all
flush_all-frame c next fuel l =
    drain-frame c next fuel (queue_all c l).0
    ∙ flush_each-frame c (buckets l) (record l { timer_armed = false })

frame-IsSound :
    (c : Config) (l l' : LoopState)
    → frame l' ≡ frame l
    → IsSettled c l'
    → IsSound c l
    → IsSound c l'
frame-IsSound c l l' e settled (ready, (_, distinct)) =
    let same : buckets l' ≡ buckets l = ap (λ (p : List ℕ × ℤ). p.0) e in
    (frame-IsReady l l' e ready, (settled, subst AllDistinct (sym same) distinct))

flush_all-IsSound :
    (c : Config) (next : LoopState → ℕ × Reply) (fuel : ℕ) (l : LoopState)
    → IsCompletion next
    → sum_by queued l.slots + length (buckets l) ≤ fuel
    → IsSound c l
    → IsSound c (flush_all c next fuel l).0
unfolding flush_all queue_all
flush_all-IsSound c next fuel l completes enough (ready, (settled, distinct)) =
    let start : LoopState = record l { timer_armed = false } in
    let each = (flush_each c (buckets l) start).0 in
    let (each_settled, few) = flush_each-IsSettled c (buckets l) start settled in
    let same : buckets each ≡ buckets l =
      ap (λ (p : List ℕ × ℤ). p.0) (flush_each-frame c (buckets l) start) in
    let (end_settled, none_left, view) =
      drain-IsSettled c next fuel each completes (subst AllDistinct (sym same) distinct)
        each_settled (omega arith) in
    frame-IsSound c l (flush_all c next fuel l).0 (flush_all-frame c next fuel l) end_settled
      (ready, (settled, distinct))

module _ (w : Item → ℕ) (c : Config) where
  -- One event takes its item, if it has one, and leaves the loop in order.
  abbrev Continues : Event → LoopState → LoopState → Type 0
  Continues e l l' = IsSound c l' × (total w l' ≡ total w l + weigh w (items_of e))

  handle_event-Continues :
      (e : Event) (l : LoopState)
      → IsSound c l
      → IsPossible e l
      → Continues e l (handle_event c e l)
  unfolding handle_event queue_all
  handle_event-Continues (item_command x i) l (ready, orderly) known =
      let (taken, ready') = add-Takes w c x i l ready known in
      ((ready', add-IsOrderly c x i l ready known orderly), omega arith)
  handle_event-Continues (flush_command next fuel) l sound (completes, enough) = (
    flush_all-IsSound c next fuel l completes enough sound,
    omega (arith, flush_all-total w c next fuel l),
  )
  handle_event-Continues (close_command next fuel) l sound (completes, enough) = (
    flush_all-IsSound c next fuel l completes enough sound,
    omega (arith, flush_all-total w c next fuel l),
  )
  handle_event-Continues timer_fired l (ready, (settled, distinct)) possible =
      let start : LoopState = record l { timer_armed = false } in
      let each = (flush_each c (buckets l) start).0 in
      (
        frame-IsSound c l each (flush_each-frame c (buckets l) start)
            (flush_each-IsSettled c (buckets l) start settled).0 (ready, (settled, distinct)),
        omega (arith, flush_each-total w c (buckets l) start),
      )
  handle_event-Continues (completion b reply) l (ready, (settled, distinct)) busy_there =
      let l' = (handle_completion c b reply l).0 in
      (
        frame-IsSound c l l' (frame_of_open l l' (handle_completion-open_view c b reply l))
            (handle_completion-IsSettled c b reply l settled.0 busy_there).0
            (ready, (settled, distinct)),
        omega (arith, handle_completion-total w c b reply l),
      )

  run-Continues :
      (es : List Event) (l : LoopState)
      → IsSound c l
      → ArePossible c es l
      → IsSound c (run c es l) × (total w (run c es l) ≡ total w l + weigh w (taken es))
  unfolding run
  run-Continues [] l sound possible = (sound, omega arith)
  run-Continues (e ∷ es) l sound (possible, later) =
      let (sound', counted) = handle_event-Continues e l sound possible in
      elim (Bool-cases (is_close e)) [
        | inl ends ↦ rw ends (sound', counted)
        | inr goes_on ↦
            let (sound'', counted') = run-Continues es (handle_event c e l) sound' later in
            rw goes_on (sound'', omega (arith, weigh-append w (items_of e) (taken es)))
      ]

  -- Start from a sound state, with a positive MaxConcurrentRequests, and take any commands, ticks and
  -- completions that can happen, in any order. Then a flush that is given completions of requests in
  -- flight, and a round for each batch, ends with no request in flight and no item left in a bucket,
  -- and for any weight of the items the completed futures weigh as much as what the first state
  -- held or had completed and the items that were taken.
  pub run-completes :
      (es : List Event) (l : LoopState) (next : LoopState → ℕ × Reply) (fuel : ℕ)
      → 0 < c.max_concurrent
      → IsSound c l
      → ArePossible c es l
      → IsCompletion next
      → sum_by queued (run c es l).slots + length (buckets (run c es l)) ≤ fuel
      → let l' = (flush_all c next fuel (run c es l)).0 in
        (l'.in_flight ≡ 0)
        × (weigh_slots w l'.slots ≡ 0)
        × (weigh_done w l'.done ≡ total w l + weigh w (taken es))
  run-completes es l next fuel positive sound possible completes enough =
      let ((ready, (settled, distinct)), counted) = run-Continues es l sound possible in
      let (none_left, empty, completed) =
        flush_all-completes w c next fuel (run c es l) positive distinct completes settled enough in
      (none_left, empty, completed ∙ counted)
