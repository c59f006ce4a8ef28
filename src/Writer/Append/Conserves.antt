-- ===== src/Writer/Append/Conserves.antt =====
-- A weight of the items that a slot holds and of those whose future was completed: what the actions
-- on one slot keep. A weight of 1 for one item and 0 for the others counts the item.
pub mod Loop
pub mod Add
use fluss_go.Prelude.{ℕ, suc, ◌+◌, List, [], ◌∷◌, ◌++◌, Option, none, some, true, false, Bool}
use fluss_go.Prelude.{
  ◌≡◌, refl, ap, arith, Bool-cases, Option-cases, inl, inr, if◌then◌else◌, ◌==◌, ==_iff, ◌%◌, ◌^◌,
}
use fluss_go.Prelude.Errors.{GoError, err_writer_state}
use fluss_go.Writer.Append.Slot.{Item, Batch, SlotState, Done, Reply, failed, acknowledged}
use fluss_go.Writer.Append.Slot.{
  complete_item, complete_items, complete_batches, flush_slot, append_slot, renew_slot,
}
use fluss_go.Writer.Append.Slot.{
  finish_batch, finish_slot, is_ready, start_next, start_slot, dispatch_pass,
}
use fluss_go.Writer.Append.Actions.{at_bucket, Action, find_slot}

module _ (w : Item → ℕ) where
  abbrev pub weigh : List Item → ℕ
  weigh [] = 0
  weigh (i ∷ is) = w i + weigh is

  abbrev pub weigh_batches : List Batch → ℕ
  weigh_batches [] = 0
  weigh_batches (b ∷ bs) = weigh b.items + weigh_batches bs

  abbrev pub weigh_running : Option (Batch × ℕ) → ℕ
  weigh_running none = 0
  weigh_running (some (b, n)) = weigh b.items

  abbrev pub weigh_slot : SlotState → ℕ
  weigh_slot s = weigh s.batch.items + weigh_batches s.pending + weigh_running s.running

  abbrev pub weigh_slots : List SlotState → ℕ
  weigh_slots [] = 0
  weigh_slots (s ∷ ss) = weigh_slot s + weigh_slots ss

  abbrev pub weigh_done : List Done → ℕ
  weigh_done [] = 0
  weigh_done (d ∷ ds) = w d.item + weigh_done ds

  pub weigh-append : (xs ys : List Item) → weigh (xs ++ ys) ≡ weigh xs + weigh ys
  weigh-append [] ys = omega arith
  weigh-append (x ∷ xs) ys = omega (arith, weigh-append xs ys)

  weigh_batches-append :
      (xs ys : List Batch) → weigh_batches (xs ++ ys) ≡ weigh_batches xs + weigh_batches ys
  weigh_batches-append [] ys = omega arith
  weigh_batches-append (x ∷ xs) ys = omega (arith, weigh_batches-append xs ys)

  pub weigh_done-append :
      (xs ys : List Done) → weigh_done (xs ++ ys) ≡ weigh_done xs + weigh_done ys
  weigh_done-append [] ys = omega arith
  weigh_done-append (x ∷ xs) ys = omega (arith, weigh_done-append xs ys)

  weigh_done-complete_items :
      (is : List Item) (b offset : ℕ) (known : Bool) (e : Option GoError)
      → weigh_done (complete_items is b offset known e) ≡ weigh is
  unfolding complete_items
  weigh_done-complete_items [] b offset known e = refl
  weigh_done-complete_items (i ∷ is) b offset known e =
      omega (arith, weigh_done-complete_items is b _ known e)

  weigh_done-complete_batches :
      (bs : List Batch) (b : ℕ) (e : Option GoError)
      → weigh_done (complete_batches bs b e) ≡ weigh_batches bs
  unfolding complete_batches
  weigh_done-complete_batches [] b e = refl
  weigh_done-complete_batches (x ∷ bs) b e = omega (
    arith,
    weigh_done-append (complete_items x.items b 0 false e) (complete_batches bs b e),
    weigh_done-complete_items x.items b 0 false e,
    weigh_done-complete_batches bs b e,
  )

  -- An action that completes what it takes out of the slot.
  abbrev pub Keeps : ℕ → (SlotState × List Done) → SlotState → Type 0
  Keeps k r s = weigh_slot r.0 + weigh_done r.1 ≡ weigh_slot s + k

  pub flush_slot-Keeps : (s : SlotState) → Keeps 0 (flush_slot s) s
  unfolding flush_slot
  flush_slot-Keeps s = elim (Option-cases s.poisoned) [
    | inl e ↦ rw e (omega (arith, weigh_batches-append s.pending (s.batch ∷ [])))
    | inr (x, e) ↦ rw e (
        omega (
          arith,
          weigh_done-complete_items s.batch.items s.bucket 0 false (some (err_writer_state x)),
        ))
  ]

  pub append_slot-Keeps : (i : Item) (s : SlotState) → Keeps (w i) (append_slot i s) s
  unfolding append_slot
  append_slot-Keeps i s = omega (arith, weigh-append s.batch.items (i ∷ []))

  pub renew_slot-Keeps :
      (i : Item) (s : SlotState) → weigh s.batch.items ≡ 0 → Keeps (w i) (renew_slot i s) s
  unfolding renew_slot
  renew_slot-Keeps i s e = omega arith

  finish_batch-Keeps :
      (s : SlotState) (b : Batch) (reply : Reply)
      → let r = finish_batch s b reply in
        weigh_slot r.0 + weigh_done r.1
        ≡ weigh s.batch.items + weigh_batches s.pending + weigh b.items + 0
  unfolding finish_batch
  finish_batch-Keeps s b (failed x) =
      let done = complete_items b.items s.bucket 0 false (some x) in
      let rest = complete_batches s.pending s.bucket (some (err_writer_state x)) in
      omega (
        arith,
        weigh_done-append done rest,
        weigh_done-complete_items b.items s.bucket 0 false (some x),
        weigh_done-complete_batches s.pending s.bucket (some (err_writer_state x)),
      )
  finish_batch-Keeps s b (acknowledged offset known) =
      omega (arith, weigh_done-complete_items b.items s.bucket offset known none)

  pub finish_slot-Keeps : (reply : Reply) (s : SlotState) → Keeps 0 (finish_slot reply s) s
  unfolding finish_slot
  finish_slot-Keeps reply s = elim (Option-cases s.running) [
    | inl e ↦ rw e (omega (arith, ap weigh_running e))
    | inr ((b, n), e) ↦ rw (e, finish_slot) (finish_batch-Keeps s b reply)
  ]

  start_next-weigh :
      (bs : List Batch) (s : SlotState)
      → s.pending ≡ bs
      → weigh_running s.running ≡ 0
      → weigh_slot (start_next bs s) ≡ weigh_slot s
  unfolding start_next
  start_next-weigh [] s e h = refl
  start_next-weigh (b ∷ bs) s e h = omega (arith, ap weigh_batches e)

  start_slot-weigh : (s : SlotState) → is_ready s ≡ true → weigh_slot (start_slot s) ≡ weigh_slot s
  unfolding start_slot is_ready
  start_slot-weigh s h = elim (Option-cases s.running) [
    | inl e ↦ start_next-weigh s.pending s refl (ap weigh_running e)
    | inr (x, e) ↦ ground arith
  ]

  pub dispatch_pass-weigh :
      (max n : ℕ) (ss : List SlotState) → weigh_slots (dispatch_pass max n ss).0 ≡ weigh_slots ss
  unfolding dispatch_pass
  dispatch_pass-weigh max n [] = refl
  dispatch_pass-weigh max n (s ∷ ss) = elim (Bool-cases (is_ready s)) [
    | inl r ↦ elim (Bool-cases ((n + 1) == max)) [
      | inl last ↦ rw (r, last) (omega (arith, start_slot-weigh s r))
      | inr more ↦
          rw (r, more) (omega (arith, start_slot-weigh s r, dispatch_pass-weigh max (n + 1) ss))
    ]
    | inr r ↦ rw r (omega (arith, dispatch_pass-weigh max n ss))
  ]

  pub at_bucket-Keeps :
      (b k : ℕ) (act : Action) (ss : List SlotState) (s : SlotState)
      → find_slot b ss ≡ some s
      → Keeps k (act s) s
      → weigh_slots (at_bucket b act ss).0 + weigh_done (at_bucket b act ss).1 ≡ weigh_slots ss + k
  unfolding at_bucket find_slot
  at_bucket-Keeps b k act [] s = λ h keeps. cc
  at_bucket-Keeps b k act (x ∷ ss) s = elim (Bool-cases (x.bucket == b)) [
    | inl e ↦
        rw e (λ h keeps.
          let q : x ≡ s = cc in let here : Keeps k (act x) x = rw q keeps in omega arith)
    | inr e ↦ rw e (λ h keeps. omega (arith, at_bucket-Keeps b k act ss s h keeps))
  ]

pub at_bucket-none :
    (b : ℕ) (act : Action) (ss : List SlotState)
    → find_slot b ss ≡ none
    → at_bucket b act ss ≡ (ss, [])
unfolding at_bucket find_slot
at_bucket-none b act [] = λ h. refl
at_bucket-none b act (x ∷ ss) = elim (Bool-cases (x.bucket == b)) [
  | inl e ↦ rw e (λ h. cc)
  | inr e ↦ rw e (λ h. rw (at_bucket-none b act ss h))
]
