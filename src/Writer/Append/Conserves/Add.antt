-- ===== src/Writer/Append/Conserves/Add.antt =====
-- Adding an item to the append writer's loop: the item is in a slot, or its future was completed.
use fluss_go.Prelude.{
  ℕ, zero, suc, ◌+◌, ◌^◌, ◌<◌, List, [], ◌∷◌, Option, none, some, is_some, map, length, get_or,
}
use fluss_go.Prelude.{
  true, false, ltb, ◌||◌, not, ◌==◌, ◌≡◌, refl, ap, sym, ◌∙◌, arith, Bool-cases, Option-cases, inl,
  inr, if_cases,
}
use fluss_go.Prelude.Int.{ℤ, pos, negsuc, pos_part}
use fluss_go.Prelude.Errors.{GoError, Result, ok, err, Result-cases, ◌>>=◌}
use native.Mathlib.Nat.{mod-lt}
use mathlib.Core.Path.{subst}
use fluss_go.Bucket.{fluss_bucket}
use fluss_go.Bucket.Bounds.{fluss_bucket-lt}
use fluss_go.Writer.Append.Slot.{Item, SlotState, append_slot, renew_slot, is_empty}
use fluss_go.Writer.Append.Actions.{
  LoopState, Config, apply_at, find_slot, buckets, flush_bucket, reject, batch_at,
}
use fluss_go.Writer.Append.Frame.{
  frame, batch_of, flush_bucket-open, flush_bucket-frame, apply_at-frame, find_slot-frame,
}
use fluss_go.Writer.Append.Conserves.{weigh, append_slot-Keeps, renew_slot-Keeps}
use fluss_go.Writer.Append.Conserves.Loop.{total, apply_at-total, flush_bucket-total, reject-total}
use fluss_go.Writer.Append.{
  assign_bucket, assign_in_turn, next_sticky, bucket_of_key, advance_sticky,
  effective_no_key_assigner, is_round_robin, is_sticky, batch_full,
}
use fluss_go.Writer.Append.{
  batch_full_with, arm_timer, reassigned, available_batch, place, add_arrow, add_assigned, add,
}

-- The writer has buckets, and the sticky index is one of their positions.
abbrev pub IsReadyFrame : List ℕ × ℤ → Type 0
IsReadyFrame (bs, i) = (0 < length bs) × (length bs < 2 ^ 31) × (pos_part i < length bs)

abbrev pub IsReady : LoopState → Type 0
IsReady l = IsReadyFrame (frame l)

abbrev pub Has : ℕ → LoopState → Type 0
Has b l = is_some (find_slot b l.slots) ≡ true

-- An explicit bucket is one of the writer's, as AppendArrow checks.
abbrev pub IsKnown : Item → LoopState → Type 0
IsKnown i l = (b : ℕ) → i.bucket ≡ some b → Has b l

get_or-Has :
    (ss : List SlotState) (n : ℕ)
    → n < length (map (λ (s : SlotState). s.bucket) ss)
    → is_some (find_slot (get_or (map (λ (s : SlotState). s.bucket) ss) n 0) ss) ≡ true
unfolding find_slot
get_or-Has [] n h = absurd (omega arith)
get_or-Has (s ∷ ss) zero h = let e : (s.bucket == s.bucket) ≡ true = ground arith in rw e refl
get_or-Has (s ∷ ss) (suc n) h =
    elim (Bool-cases (s.bucket == get_or (map (λ (s : SlotState). s.bucket) ss) n 0)) [
      | inl e ↦ rw e refl
      | inr e ↦ rw e (get_or-Has ss n (omega arith))
    ]

pub frame-Has : (b : ℕ) (l l' : LoopState) → frame l' ≡ frame l → Has b l → Has b l'
frame-Has b l l' e h = find_slot-frame b l'.slots l.slots (ap (λ (p : List ℕ × ℤ). p.0) e) ∙ h

pub frame-IsReady : (l l' : LoopState) → frame l' ≡ frame l → IsReady l → IsReady l'
frame-IsReady l l' e h = subst IsReadyFrame (sym e) h

bucket_of_key-Has :
    (ss : List SlotState) (key : List ℕ) (b : ℕ)
    → let bs = map (λ (s : SlotState). s.bucket) ss in
      0 < length bs
      → length bs < 2 ^ 31
      → bucket_of_key bs key ≡ ok b
      → is_some (find_slot b ss) ≡ true
unfolding bucket_of_key fluss_bucket
bucket_of_key-Has ss [] b some_buckets fits = λ h. cc
bucket_of_key-Has ss (k ∷ ks) b some_buckets fits =
    let bs = map (λ (s : SlotState). s.bucket) ss in
    let (n, e, lt) = fluss_bucket-lt (k ∷ ks) (length bs) (λ q. cc) some_buckets fits in
    rw (bucket_of_key, e) (λ h. let q : get_or bs n 0 ≡ b = cc in rw (← q) (get_or-Has ss n lt))

key_bucket-Has :
    (ss : List SlotState) (key : Result (List ℕ)) (b : ℕ)
    → let bs = map (λ (s : SlotState). s.bucket) ss in
      0 < length bs
      → length bs < 2 ^ 31
      → (key >>= bucket_of_key bs) ≡ ok b
      → is_some (find_slot b ss) ≡ true
key_bucket-Has ss (err e) b some_buckets fits h = cc
key_bucket-Has ss (ok key) b some_buckets fits h = bucket_of_key-Has ss key b some_buckets fits h

assign_in_turn_cases {ℓ} :
    (Q : LoopState × Result ℕ → Type ℓ) (c : Config) (l : LoopState)
    → IsReady l
    → ((l' : LoopState) (b : ℕ)
        → l'.slots ≡ l.slots
        → l'.done ≡ l.done
        → l'.in_flight ≡ l.in_flight
        → IsReady l'
        → Has b l'
        → Q (l', ok b))
    → Q (assign_in_turn c l)
unfolding assign_in_turn
assign_in_turn_cases Q c l ready good =
    elim (Bool-cases (is_round_robin (effective_no_key_assigner c))) [
      | inl r ↦
          rw r (good _ _ refl refl refl ready (get_or-Has l.slots _ (mod-lt l.next_round ready.0)))
      | inr r ↦ rw r (good _ _ refl refl refl ready (get_or-Has l.slots _ ready.2))
    ]

-- An assignment changes neither the slots nor the futures.
pub assign_cases {ℓ} :
    (Q : LoopState × Result ℕ → Type ℓ) (c : Config) (i : Item) (l : LoopState)
    → IsReady l
    → IsKnown i l
    → ((l' : LoopState) (b : ℕ)
        → l'.slots ≡ l.slots
        → l'.done ≡ l.done
        → l'.in_flight ≡ l.in_flight
        → IsReady l'
        → Has b l'
        → Q (l', ok b))
    → ((l' : LoopState) (e : GoError)
        → l'.slots ≡ l.slots
        → l'.done ≡ l.done
        → l'.in_flight ≡ l.in_flight
        → IsReady l'
        → Q (l', err e))
    → Q (assign_bucket c i l)
unfolding assign_bucket
assign_cases Q c i l ready known good bad = elim (Option-cases i.bucket) [
  | inr (b, e) ↦ rw (e, assign_bucket) (good l b refl refl refl ready (known b e))
  | inl e ↦ rw e (
      if_cases Q c.has_bucket_key
        (λ _. elim (Result-cases (i.key >>= bucket_of_key (buckets l))) [
          | inl (b, r) ↦
              rw r
                (good l b refl refl refl ready (key_bucket-Has l.slots i.key b ready.0 ready.1 r))
          | inr (x, r) ↦ rw r (bad l x refl refl refl ready)
        ])
        (λ _. assign_in_turn_cases Q c l ready good))
]

pub place_cases {ℓ} :
    (Q : LoopState → Type ℓ) (c : Config) (i : Item) (b : ℕ) (l : LoopState)
    → let added = apply_at b (append_slot i) l in
      let flushed = (flush_bucket c b added).0 in
      Q (advance_sticky flushed) → Q flushed → Q (arm_timer c added) → Q (place c i (l, some b))
unfolding place
place_cases Q c i b l advanced flushed armed =
    if_cases Q (batch_full c (batch_at b (apply_at b (append_slot i) l)) || not c.has_batch_timeout)
      (λ _. if_cases Q (is_sticky (effective_no_key_assigner c)) (λ _. advanced) (λ _. flushed))
      (λ _. armed)

pub available_cases {ℓ} :
    (Q : LoopState × Option ℕ → Type ℓ) (c : Config) (i : Item) (b : ℕ) (l : LoopState)
    → let flushed = (flush_bucket c b l).0 in
      Q (l, some b)
      → Q (flushed, some b)
      → Q (reassigned i (assign_bucket c i (advance_sticky flushed)))
      → Q (available_batch c b i l)
unfolding available_batch
available_cases Q c i b l same flushed moved =
    if_cases Q (is_empty (batch_at b l) || not (batch_full_with c (batch_at b l) i)) (λ _. same)
      (λ _. if_cases Q (not (is_sticky (effective_no_key_assigner c))) (λ _. flushed) (λ _. moved))

next_sticky-lt : (count : ℕ) (index : ℤ) → 0 < count → pos_part (next_sticky count index) < count
unfolding next_sticky
next_sticky-lt count (negsuc n) h = h
next_sticky-lt count (pos n) h = mod-lt (n + 1) h

pub advance_sticky-IsReady : (l : LoopState) → IsReady l → IsReady (advance_sticky l)
unfolding advance_sticky
advance_sticky-IsReady l (some_buckets, fits, within) =
    elim (Bool-cases (ltb 1 (length (buckets l)))) [
      | inl more ↦ rw more (some_buckets, fits, next_sticky-lt _ l.sticky_index some_buckets)
      | inr one ↦ rw one (some_buckets, fits, within)
    ]

pub append_slot-bucket : (i : Item) (s : SlotState) → (append_slot i s).0.bucket ≡ s.bucket
unfolding append_slot
append_slot-bucket i s = refl

pub renew_slot-bucket : (i : Item) (s : SlotState) → (renew_slot i s).0.bucket ≡ s.bucket
unfolding renew_slot
renew_slot-bucket i s = refl

pub advance_sticky-slots :
    (l : LoopState)
    → ((advance_sticky l).slots ≡ l.slots)
      × ((advance_sticky l).done ≡ l.done)
      × ((advance_sticky l).in_flight ≡ l.in_flight)
unfolding advance_sticky
advance_sticky-slots l = elim (Bool-cases (ltb 1 (length (buckets l)))) [
  | inl more ↦ rw more (refl, refl, refl)
  | inr one ↦ rw one (refl, refl, refl)
]

module _ (w : Item → ℕ) (c : Config) where
  -- What an operation does with one more item.
  abbrev pub Takes : Item → LoopState → LoopState → Type 0
  Takes i l l' = (total w l' ≡ total w l + w i) × IsReady l'

  advance_sticky-Takes :
      (i : Item) (l l' : LoopState) → Takes i l l' → Takes i l (advance_sticky l')
  unfolding advance_sticky
  advance_sticky-Takes i l l' (t, ready) = (ground arith, advance_sticky-IsReady l' ready)

  flush_bucket-Takes :
      (i : Item) (b : ℕ) (l l' : LoopState) → Takes i l l' → Takes i l (flush_bucket c b l').0
  flush_bucket-Takes i b l l' (t, ready) = (
    flush_bucket-total w c b l' ∙ t,
    frame-IsReady l' (flush_bucket c b l').0 (flush_bucket-frame c b l') ready,
  )

  append_slot-Takes :
      (i : Item) (b : ℕ) (l : LoopState)
      → IsReady l
      → Has b l
      → Takes i l (apply_at b (append_slot i) l)
  append_slot-Takes i b l ready has = elim (Option-cases (find_slot b l.slots)) [
    | inl e ↦ absurd (let h : is_some (find_slot b l.slots) ≡ false = rw e refl in cc)
    | inr (s, e) ↦ (
      apply_at-total w b (w i) (append_slot i) l s e (append_slot-Keeps w i s),
      frame-IsReady l (apply_at b (append_slot i) l)
          (apply_at-frame b (append_slot i) l (append_slot-bucket i)) ready,
    )
  ]

  place-Takes :
      (i : Item) (b : ℕ) (l : LoopState) → IsReady l → Has b l → Takes i l (place c i (l, some b))
  unfolding arm_timer
  place-Takes i b l ready has =
      let l' = apply_at b (append_slot i) l in
      let added = append_slot-Takes i b l ready has in
      let flushed = flush_bucket-Takes i b l l' added in
      place_cases (Takes i l) c i b l (advance_sticky-Takes i l (flush_bucket c b l').0 flushed)
        flushed added

  reject-Takes : (i : Item) (e : GoError) (l : LoopState) → IsReady l → Takes i l (reject i e l)
  unfolding reject
  reject-Takes i e l ready = (reject-total w i e l, ready)

  -- To take an item after a step that changes no weight.
  unchanged_before :
      (i : Item) (l m n : LoopState) → total w m ≡ total w l → Takes i m n → Takes i l n
  unchanged_before i l m n e (t, ready) = (omega arith, ready)

  reassigned-Takes :
      (i : Item) (l : LoopState)
      → IsReady l
      → IsKnown i l
      → Takes i l (place c i (reassigned i (assign_bucket c i l)))
  unfolding reassigned place
  reassigned-Takes i l ready known =
      assign_cases (λ r. Takes i l (place c i (reassigned i r))) c i l ready known
        (λ l' b same kept flight ready' has.
          unchanged_before i l l' (place c i (l', some b)) (rw (same, kept))
            (place-Takes i b l' ready' has))
        (λ l' e same kept flight ready'.
          unchanged_before i l l' (reject i e l') (rw (same, kept)) (reject-Takes i e l' ready'))

  add_row-Takes :
      (i : Item) (b : ℕ) (l : LoopState)
      → IsReady l
      → IsKnown i l
      → Has b l
      → Takes i l (place c i (available_batch c b i l))
  add_row-Takes i b l ready known has =
      let flushed = (flush_bucket c b l).0 in
      let frames = flush_bucket-frame c b l in
      let kept = flush_bucket-total w c b l in
      let ready' = frame-IsReady l flushed frames ready in
      let (slots, done, flight) = advance_sticky-slots flushed in
      available_cases (λ r. Takes i l (place c i r)) c i b l (place-Takes i b l ready has)
        (unchanged_before i l flushed (place c i (flushed, some b)) kept
          (place-Takes i b flushed ready' (frame-Has b l flushed frames has)))
        (unchanged_before i l (advance_sticky flushed)
          (place c i (reassigned i (assign_bucket c i (advance_sticky flushed))))
          (rw (slots, done) kept)
          (reassigned-Takes i (advance_sticky flushed) (advance_sticky-IsReady flushed ready')
            (λ b' e. rw slots (frame-Has b' l flushed frames (known b' e)))))

  renew_slot-Takes :
      (i : Item) (b : ℕ) (l : LoopState)
      → IsReady l
      → Has b l
      → (batch_of (find_slot b l.slots)).items ≡ []
      → Takes i l (apply_at b (renew_slot i) l)
  renew_slot-Takes i b l ready has = elim (Option-cases (find_slot b l.slots)) [
    | inl e ↦ absurd (let h : is_some (find_slot b l.slots) ≡ false = rw e refl in cc)
    | inr (s, e) ↦ rw e (λ shut. (
      apply_at-total w b (w i) (renew_slot i) l s e (renew_slot-Keeps w i s (ap (weigh w) shut)),
      frame-IsReady l (apply_at b (renew_slot i) l)
          (apply_at-frame b (renew_slot i) l (renew_slot-bucket i)) ready,
    ))
  ]

  add_arrow-Takes :
      (i : Item) (b : ℕ) (l : LoopState) → IsReady l → Has b l → Takes i l (add_arrow c i b l)
  unfolding add_arrow
  add_arrow-Takes i b l ready has =
      let flushed = (flush_bucket c b l).0 in
      let frames = flush_bucket-frame c b l in
      let renewed = apply_at b (renew_slot i) flushed in
      unchanged_before i l flushed (add_arrow c i b l) (flush_bucket-total w c b l) (
        flush_bucket-Takes i b flushed renewed (
          renew_slot-Takes i b flushed (frame-IsReady l flushed frames ready)
            (frame-Has b l flushed frames has) (flush_bucket-open c b l)))

  -- In a writer with 1 to 2^31 - 1 buckets and its sticky index in range, and for an item whose
  -- explicit bucket, if any, is the writer's: add puts the item into a slot or completes its future,
  -- once (any weight of the items grows by the item's), and the buckets and the index stay in range.
  pub add-Takes :
      (ctx_err : Option GoError) (i : Item) (l : LoopState)
      → IsReady l
      → IsKnown i l
      → Takes i l (add c ctx_err i l)
  unfolding add add_assigned
  add-Takes (some e) i l ready known = reject-Takes i e l ready
  add-Takes none i l ready known =
      assign_cases (λ r. Takes i l (add_assigned c i r)) c i l ready known
        (λ l' b same kept flight ready' has.
          if_cases (Takes i l) i.arrow
            (λ _.
              unchanged_before i l l' (add_arrow c i b l') (rw (same, kept))
                (add_arrow-Takes i b l' ready' has))
            (λ _.
              unchanged_before i l l' (place c i (available_batch c b i l')) (rw (same, kept))
                (add_row-Takes i b l' ready' (λ b' e. rw same (known b' e)) has)))
        (λ l' e same kept flight ready'.
          unchanged_before i l l' (reject i e l') (rw (same, kept)) (reject-Takes i e l' ready'))
