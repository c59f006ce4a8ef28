-- ===== src/Writer/Append/Invariant/Saturates.antt =====
-- dispatch of the append writer: when it stops.
use fluss_go.Prelude.{ℕ, ◌≤◌, false, List, [], ◌∷◌, Option, none, some, All, ◌⊎◌, inl, inr}
use fluss_go.Prelude.{◌≡◌, refl, sym}
use fluss_go.Writer.Append.Slot.{Batch, SlotState, is_ready}
use fluss_go.Writer.Append.Actions.{LoopState, Config, dispatch}
use fluss_go.Writer.Append.Invariant.{sum_by, busy, dispatch-IsSettled}

-- The bucket has a request in flight.
abbrev pub IsRunning : SlotState → Type 0
IsRunning s = (r : Batch × ℕ) × (s.running ≡ some r)

-- The bucket has nothing to send, or must wait for its request.
abbrev pub CannotSend : SlotState → Type 0
CannotSend s = IsRunning s ⊎ (s.pending ≡ [])

idle-CannotSend : (s : SlotState) → is_ready s ≡ false → CannotSend s
unfolding is_ready
idle-CannotSend s h = waits s.running s.pending refl refl h
  where
    waits :
        (running : Option (Batch × ℕ)) (pending : List Batch)
        → s.running ≡ running
        → s.pending ≡ pending
        → is_ready s ≡ false
        → CannotSend s
    waits (some r) pending e p h = inl (r, e)
    waits none [] e p h = inr p
    waits none (b ∷ bs) e p h = cc (rw (e, p) at h)

All-CannotSend : (ss : List SlotState) → All (λ s. is_ready s ≡ false) ss → All CannotSend ss
All-CannotSend [] h = _
All-CannotSend (s ∷ ss) (h, hs) = (idle-CannotSend s h, All-CannotSend ss hs)

-- If the requests in flight are counted right and not above the maximum, then so they are after dispatch,
-- and either they are as many as the maximum, or every bucket has a request in flight or has no pending
-- batch.
pub dispatch-saturates :
    (c : Config) (l : LoopState)
    → sum_by busy l.slots ≡ l.in_flight
    → l.in_flight ≤ c.max_concurrent
    → let l' = dispatch c l in
      (sum_by busy l'.slots ≡ l'.in_flight)
      × (l'.in_flight ≤ c.max_concurrent)
      × ((l'.in_flight ≡ c.max_concurrent) ⊎ All CannotSend l'.slots)
dispatch-saturates c l counted within =
    let ((counted', within'), stop) = dispatch-IsSettled c l (sym counted, within) in
    (
      sym counted',
      within',
      elim stop [ inl full ↦ inl full | inr idle ↦ inr (All-CannotSend (dispatch c l).slots idle) ],
    )
