-- ===== src/Writer/Append/Conserves/Loop.antt =====
-- The weight of all that the append writer's loop holds or has completed, through its actions.
use fluss_go.Prelude.{ℕ, zero, suc, ◌+◌, List, [], ◌∷◌, some, ltb, false}
use fluss_go.Prelude.{◌≡◌, refl, ◌∙◌, arith, Bool-cases, Option-cases, inl, inr}
use fluss_go.Prelude.Errors.{GoError}
use fluss_go.Writer.Append.Slot.{
  Item, SlotState, Reply, flush_slot, finish_slot, dispatch_pass, is_empty,
}
use fluss_go.Writer.Append.Actions.{
  LoopState, Config, Action, at_bucket, apply_at, find_slot, passed, none_sent, buckets,
}
use fluss_go.Writer.Append.Actions.{
  dispatch_rounds, dispatch, flush_found, flush_bucket, handle_completion, release,
}
use fluss_go.Writer.Append.Actions.{reject}
use fluss_go.Writer.Append.Conserves.{
  weigh_slots, weigh_done, Keeps, weigh_done-append, flush_slot-Keeps,
}
use fluss_go.Writer.Append.Conserves.{
  finish_slot-Keeps, dispatch_pass-weigh, at_bucket-Keeps, at_bucket-none,
}
use fluss_go.Writer.Append.{flush_each, queue_all, drain, flush_all}

module _ (w : Item → ℕ) where
  -- The weight of the items in the slots, and of those whose future was completed.
  abbrev pub total : LoopState → ℕ
  total l = weigh_slots w l.slots + weigh_done w l.done

  pub apply_at-total :
      (b k : ℕ) (act : Action) (l : LoopState) (s : SlotState)
      → find_slot b l.slots ≡ some s
      → Keeps w k (act s) s
      → total (apply_at b act l) ≡ total l + k
  unfolding apply_at
  apply_at-total b k act l s h keeps = omega (
    arith,
    at_bucket-Keeps w b k act l.slots s h keeps,
    weigh_done-append w l.done (at_bucket b act l.slots).1,
  )

  pub apply_at_always-total :
      (b : ℕ) (act : Action) (l : LoopState)
      → ((s : SlotState) → Keeps w 0 (act s) s)
      → total (apply_at b act l) ≡ total l
  unfolding apply_at
  apply_at_always-total b act l keeps = elim (Option-cases (find_slot b l.slots)) [
    | inl e ↦ rw (at_bucket-none b act l.slots e) (omega (arith, weigh_done-append w l.done []))
    | inr (s, e) ↦ omega (arith, apply_at-total b 0 act l s e (keeps s))
  ]

  dispatch_rounds-total :
      (rounds max : ℕ) (l : LoopState) → total (dispatch_rounds rounds max l) ≡ total l
  unfolding dispatch_rounds passed
  dispatch_rounds-total zero max l = refl
  dispatch_rounds-total (suc rounds) max l =
      let pass = dispatch_pass-weigh w max l.in_flight l.slots in
      elim (Bool-cases (ltb l.in_flight max)) [
        | inl room ↦ elim (Bool-cases (none_sent (dispatch_pass max l.in_flight l.slots).2)) [
          | inl idle ↦ rw (room, idle) (omega arith)
          | inr more ↦
              rw (room, more) (omega (arith, dispatch_rounds-total rounds max (passed max l)))
        ]
        | inr full ↦ rw full refl
      ]

  pub dispatch-total : (c : Config) (l : LoopState) → total (dispatch c l) ≡ total l
  unfolding dispatch
  dispatch-total c l = dispatch_rounds-total c.max_concurrent c.max_concurrent l

  flush_found-total :
      (c : Config) (s : SlotState) (b : ℕ) (l : LoopState) → total (flush_found c s b l).0 ≡ total l
  unfolding flush_found
  flush_found-total c s b l =
      let flushed = apply_at_always-total b flush_slot l (flush_slot-Keeps w) in
      elim (Bool-cases (is_empty s.batch)) [
        | inl e ↦ rw e refl
        | inr e ↦ elim (Option-cases s.poisoned) [
          | inl p ↦ rw (e, p) (dispatch-total c (apply_at b flush_slot l) ∙ flushed)
          | inr (x, p) ↦ rw (e, p) flushed
        ]
      ]

  pub flush_bucket-total :
      (c : Config) (b : ℕ) (l : LoopState) → total (flush_bucket c b l).0 ≡ total l
  unfolding flush_bucket
  flush_bucket-total c b l = elim (Option-cases (find_slot b l.slots)) [
    | inl e ↦ rw (e, flush_bucket) refl
    | inr (s, e) ↦ rw (e, flush_bucket) (flush_found-total c s b l)
  ]

  pub handle_completion-total :
      (c : Config) (b : ℕ) (reply : Reply) (l : LoopState)
      → total (handle_completion c b reply l).0 ≡ total l
  unfolding handle_completion release
  handle_completion-total c b reply l =
      dispatch-total c (release (apply_at b (finish_slot reply) l))
      ∙ apply_at_always-total b (finish_slot reply) l (finish_slot-Keeps w reply)

  pub reject-total : (i : Item) (e : GoError) (l : LoopState) → total (reject i e l) ≡ total l + w i
  unfolding reject
  reject-total i e l = omega (arith, weigh_done-append w l.done _)

  pub flush_each-total :
      (c : Config) (bs : List ℕ) (l : LoopState) → total (flush_each c bs l).0 ≡ total l
  unfolding flush_each
  flush_each-total c [] l = refl
  flush_each-total c (b ∷ bs) l =
      flush_each-total c bs (flush_bucket c b l).0 ∙ flush_bucket-total c b l

  drain-total :
      (c : Config) (next : LoopState → ℕ × Reply) (fuel : ℕ) (l : LoopState)
      → total (drain c next fuel l).0 ≡ total l
  unfolding drain
  drain-total c next zero l = refl
  drain-total c next (suc fuel) l = elim (Bool-cases (ltb 0 l.in_flight)) [
    | inl more ↦ rw more (
        drain-total c next fuel (handle_completion c (next l).0 (next l).1 l).0
        ∙ handle_completion-total c (next l).0 (next l).1 l)
    | inr empty ↦ rw empty refl
  ]

  pub flush_all-total :
      (c : Config) (next : LoopState → ℕ × Reply) (fuel : ℕ) (l : LoopState)
      → total (flush_all c next fuel l).0 ≡ total l
  unfolding flush_all queue_all
  flush_all-total c next fuel l =
      drain-total c next fuel (queue_all c l).0
      ∙ flush_each-total c (buckets l) (record l { timer_armed = false })
