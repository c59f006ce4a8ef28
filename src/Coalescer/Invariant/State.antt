-- ===== src/Coalescer/Invariant/State.antt =====
-- The map of calls, and the induction over executions.
use fluss_go.Prelude.{ℕ, ◌+◌, ◌<◌, ◌≡◌, ◌≢◌, refl, sym, ap, ◌∙◌, arith, ◌⊎◌, Bool, true, false}
use fluss_go.Prelude.{Option, none, some, if◌then◌else◌, ◌==◌, inl, inr, Bool-cases, if_cases}
use fluss_go.Prelude.Errors.{GoError, Result}
use fluss_go.Coalescer.{SharedCall, Coalescer, set_call, is_current, join_call, join}
use fluss_go.Coalescer.{
  drop_current, settle, settled_call, release_locked, claim, abandon, close, empty,
}
use fluss_go.Coalescer.{released, leaves_alone}
use fluss_go.Coalescer.Steps.{Step, joins, settles, claims, abandons, closes, Reach, start, later}
use fluss_go.Coalescer.Invariant.Call.{CallOk, new_call-CallOk, joined-CallOk, settled-CallOk}
use fluss_go.Coalescer.Invariant.Call.{
  cancelled-CallOk, abandoned, abandoned-CallOk, taken, taken-CallOk,
}
use mathlib.Core.Path.{subst, fun_ext}
use mathlib.Core.Option.{some-injective}
use mathlib.Core.Logic.{if_pos, if_neg}

is_current→eq : (o : Option ℕ) (id : ℕ) → is_current o id ≡ true → o ≡ some id
is_current→eq none id h = cc
is_current→eq (some j) id h = ground arith

is_current_self : (o : Option ℕ) (id : ℕ) → o ≡ some id → is_current o id ≡ true
is_current_self none id h = cc
is_current_self (some j) id h = ground arith

eq_self : (id : ℕ) → (id == id) ≡ true
eq_self id = ground arith

set_call_twice :
    {K V : Type 0} (id : ℕ) (a b : SharedCall K V) (s : Coalescer K V)
    → set_call id a (set_call id b s) ≡ set_call id a s
set_call_twice id a b s =
    ap (λ (f : ℕ → SharedCall _ _). record s { store = f }) (fun_ext (λ j. over (id == j) j))
  where
    over :
        (t : Bool) (j : ℕ)
        → (if t then a else if t then b else s.store j) ≡ (if t then a else s.store j)
    over true j = refl
    over false j = refl

module _ {K V : Type 0} (same : Discrete K) where
  pub record Inv (s : Coalescer K V) : Type 0 where
    -- every call is sound
    pub sound : (id : ℕ) → id < s.next → CallOk (s.store id)
    -- the call under a key runs, is of that key, and is waited for
    pub mapped :
        (k : K) (id : ℕ)
        → s.calls k ≡ some id
        → (id < s.next)
          × ((s.store id).key ≡ k)
          × ((s.store id).completed ≡ false)
          × (0 < (s.store id).waiters)
    -- a running call that is waited for stands under its key
    pub found :
        (id : ℕ)
        → id < s.next
        → (s.store id).completed ≡ false
        → 0 < (s.store id).waiters
        → s.calls (s.store id).key ≡ some id

  -- Deleting a call from the map leaves the other calls there.
  dropped_calls :
      (id : ℕ) (s : Coalescer K V)
      → Inv s
      → (k : K) (j : ℕ) → (drop_current same id s).calls k ≡ some j
      → (s.calls k ≡ some j) × (j ≢ id)
  unfolding drop_current
  dropped_calls id s inv k j e = elim (Bool-cases (is_current (s.calls (s.store id).key) id)) [
    | inl cur ↦
        let e' = rw (cur, drop_current) at e in
        elim (same (s.store id).key k) [
          | yes eq ↦ cc (rw (if_pos _ eq) at e')
          | no ne ↦
              let e'' = rw (if_neg _ ne) at e' in
              (
                e'',
                λ same_id.
                    ne (ap (λ (t : ℕ). (s.store t).key) (sym same_id) ∙ (inv.mapped k j e'').1),
              )
        ]
    | inr cur ↦
        let e' = rw (cur, drop_current) at e in
        (e', λ same_id. stays cur (subst (λ t. s.calls k ≡ some t) same_id e'))
  ]
    where
      stays : is_current (s.calls (s.store id).key) id ≡ false → s.calls k ≡ some id → ⊥
      stays cur h =
          let now : s.calls (s.store id).key ≡ some id = rw (inv.mapped k id h).1 h in
          cc (is_current_self (s.calls (s.store id).key) id now)

  kept_calls :
      (id : ℕ) (s : Coalescer K V) (k : K) (j : ℕ)
      → s.calls k ≡ some j
      → j ≢ id
      → (drop_current same id s).calls k ≡ some j
  unfolding drop_current
  kept_calls id s k j e ne = elim (Bool-cases (is_current (s.calls (s.store id).key) id)) [
    | inl cur ↦
        rw (cur, drop_current)
          (elim (same (s.store id).key k) [
            | yes eq ↦ absurd (
                ne (
                  some-injective j id (
                    sym e ∙ ap s.calls (sym eq) ∙ is_current→eq (s.calls (s.store id).key) id cur)))
            | no other ↦ rw (if_neg _ other) e
          ])
    | inr cur ↦ rw (cur, drop_current) e
  ]

  empty-Inv : (unused : SharedCall K V) → Inv (empty same unused)
  unfolding empty
  empty-Inv unused = record {
    sound = λ id h. absurd (omega arith);
    mapped = λ k id h. cc;
    found = λ id h. absurd (omega arith);
  }

  module _ (id : ℕ) (c' : SharedCall K V) (s : Coalescer K V) (inv : Inv s) (used : id < s.next)
      (same_key : c'.key ≡ (s.store id).key) where
    gone_absurd :
        (c'.completed ≡ true) ⊎ (c'.waiters ≡ 0) → c'.completed ≡ false → 0 < c'.waiters → ⊥
    gone_absurd (inl t) f w = cc
    gone_absurd (inr z) f w = omega arith

    -- A call that takes itself out of the map: it has completed, or nobody waits for it.
    dropping-Inv :
        CallOk c'
        → (c'.completed ≡ true) ⊎ (c'.waiters ≡ 0)
        → Inv (set_call id c' (drop_current same id s))
    unfolding drop_current
    dropping-Inv good gone = record {
      sound =
          λ j h. elim (Bool-cases (id == j)) [ inl e ↦ rw e good | inr e ↦ rw e (inv.sound j h) ];
      mapped = λ k j h.
          let (before, other) = dropped_calls id s inv k j h in
          let e : (id == j) ≡ false = ground arith in rw e (inv.mapped k j before);
      found = λ j h f w. elim (Bool-cases (id == j)) [
        | inl e ↦ absurd (gone_absurd gone (rw e at f) (rw e at w))
        | inr e ↦ rw e (
            kept_calls id s (s.store j).key j (inv.found j h (rw e at f) (rw e at w))
              (ground arith))
      ];
    }

    -- A call that stays as it is in the map: it had completed, or it still runs for somebody.
    keeping-Inv :
        CallOk c'
        → c'.completed ≡ (s.store id).completed
        → ((s.store id).completed ≡ true) ⊎ ((0 < (s.store id).waiters) × (0 < c'.waiters))
        → Inv (set_call id c' s)
    keeping-Inv good same_state stays = record {
      sound =
          λ j h. elim (Bool-cases (id == j)) [ inl e ↦ rw e good | inr e ↦ rw e (inv.sound j h) ];
      mapped = λ k j h.
          let (a, b, c, d) = inv.mapped k j h in
          elim (Bool-cases (id == j)) [
            | inl e ↦ rw e (mapped_here k j (ground arith) a b c d)
            | inr e ↦ rw e (a, b, c, d)
          ];
      found = λ j h f w. elim (Bool-cases (id == j)) [
        | inl e ↦ rw e (found_here j (ground arith) (rw e at f))
        | inr e ↦ rw e (inv.found j h (rw e at f) (rw e at w))
      ];
    }
      where
        mapped_here :
            (k : K) (j : ℕ)
            → id ≡ j
            → j < s.next
            → (s.store j).key ≡ k
            → (s.store j).completed ≡ false
            → 0 < (s.store j).waiters
            → (j < s.next) × (c'.key ≡ k) × (c'.completed ≡ false) × (0 < c'.waiters)
        mapped_here k j e a b c d =
            let fin : (s.store id).completed ≡ false =
              ap (λ (t : ℕ). (s.store t).completed) e ∙ c in
            elim stays [
              | inl t ↦ cc
              | inr (_, w) ↦
                  (a, same_key ∙ (ap (λ (t : ℕ). (s.store t).key) e ∙ b), same_state ∙ fin, w)
            ]

        found_here : (j : ℕ) → id ≡ j → c'.completed ≡ false → s.calls c'.key ≡ some j
        found_here j e f =
            let fin : (s.store id).completed ≡ false = sym same_state ∙ f in
            elim stays [
              | inl t ↦ cc
              | inr (w, _) ↦ ap s.calls same_key ∙ inv.found id used fin w ∙ ap some e
            ]

  settle-Inv :
      (id : ℕ) (r : Result V) (s : Coalescer K V)
      → Inv s
      → id < s.next
      → (s.store id).completed ≡ false
      → Inv (settle same id r s)
  unfolding settle settled_call
  settle-Inv id r s inv used runs =
      dropping-Inv id (settled_call same (s.store id) r s.closed s.close_err) s inv used refl
        (settled-CallOk same (s.store id) r s.closed s.close_err (inv.sound id used) runs)
        (inl refl)

  released_state : ℕ → Coalescer K V → Coalescer K V
  released_state id s = if leaves_alone same (s.store id) then drop_current same id s else s

  abandon_lem :
      (id : ℕ) (s : Coalescer K V)
      → abandon same id s ≡ set_call id (abandoned same (s.store id)) (released_state id s)
  unfolding abandon release_locked released_state
  abandon_lem id s = rw (eq_self id) (
      set_call_twice id (abandoned same (s.store id)) (released same (s.store id))
        (released_state id s))

  -- The call that was left, after `abandon`.
  pub store-abandon :
      (id : ℕ) (s : Coalescer K V) → (abandon same id s).store id ≡ abandoned same (s.store id)
  store-abandon id s = rw (abandon_lem id s) (rw (eq_self id))

  pub store-settle :
      (id : ℕ) (r : Result V) (s : Coalescer K V)
      → (settle same id r s).store id ≡ settled_call same (s.store id) r s.closed s.close_err
  unfolding settle
  store-settle id r s = rw (eq_self id)

  abandon-Inv :
      (id : ℕ) (s : Coalescer K V)
      → Inv s
      → id < s.next
      → 0 < (s.store id).waiters
      → Inv (abandon same id s)
  unfolding released_state released leaves_alone
  abandon-Inv id s inv used pos =
      let good = abandoned-CallOk same (s.store id) (inv.sound id used) pos in
      rw (abandon_lem id s) (
        if_cases (λ t. Inv (set_call id (abandoned same (s.store id)) t))
          (leaves_alone same (s.store id))
          (λ alone.
            dropping-Inv id (abandoned same (s.store id)) s inv used refl good (inr (ground arith)))
          (λ others.
            keeping-Inv id (abandoned same (s.store id)) s inv used refl good refl
              (elim (Bool-cases (s.store id).completed) [
                | inl done ↦ inl done
                | inr runs ↦ inr (pos, ground arith)
              ])))

  claim_lem :
      (id : ℕ) (s : Coalescer K V)
      → (s.store id).completed ≡ true
      → (claim same id s).2 ≡ set_call id (released same (taken same (s.store id))) s
  unfolding claim release_locked
  claim_lem id s done =
      let took = taken same (s.store id) in
      rw (eq_self id) (
        if_cases
          (λ t.
            set_call id (released same (taken same (s.store id))) t
            ≡ set_call id (released same (taken same (s.store id))) s)
          (leaves_alone same took) (λ alone. unfold leaves_alone in ground arith)
          (λ others. set_call_twice id (released same took) took s))

  claim-Inv :
      (id : ℕ) (s : Coalescer K V)
      → Inv s
      → id < s.next
      → (s.store id).completed ≡ true
      → 0 < (s.store id).waiters
      → Inv (claim same id s).2
  unfolding released
  claim-Inv id s inv used done pos = rw (claim_lem id s done) (
      keeping-Inv id (released same (taken same (s.store id))) s inv used refl
        (taken-CallOk same (s.store id) (inv.sound id used) done pos) refl (inl done))

  close-Inv : (reason : Option GoError) (s : Coalescer K V) → Inv s → Inv (close same reason s)
  unfolding close
  close-Inv reason s inv =
      if_cases Inv s.closed (λ _. inv)
        (λ open_still. record {
          sound = λ id h.
              cancelled-CallOk same (is_current (s.calls (s.store id).key) id) (s.store id)
                (inv.sound id h);
          mapped = inv.mapped;
          found = inv.found;
        })

  join_call-Inv :
      (o : Option ℕ) (k : K) (disposes : Bool) (s : Coalescer K V)
      → s.calls k ≡ o
      → Inv s
      → Inv (join_call same o k disposes s).1
  unfolding join_call
  join_call-Inv (some id) k disposes s e inv =
      let (used, _, runs, pos) = inv.mapped k id e in
      keeping-Inv id (record (s.store id) { waiters = (s.store id).waiters + 1 }) s inv used refl
        (joined-CallOk same (s.store id) (inv.sound id used) runs) refl (inr (pos, omega arith))
  join_call-Inv none k disposes s e inv = record {
    sound = λ id h. elim (Bool-cases (s.next == id)) [
      | inl new ↦ rw new (new_call-CallOk same k disposes)
      | inr old ↦ rw old (inv.sound id (ground arith))
    ];
    mapped = λ k' id h. elim (same k k') [
      | yes eq ↦
          let now : s.next ≡ id = some-injective s.next id (rw (if_pos _ eq) at h) in
          let new : (s.next == id) ≡ true = ground arith in
          rw new (omega arith, eq, refl, omega arith)
      | no ne ↦
          let (a, b, c, d) = inv.mapped k' id (rw (if_neg _ ne) at h) in
          let old : (s.next == id) ≡ false = ground arith in rw old (omega arith, b, c, d)
    ];
    found = λ id h f w. elim (Bool-cases (s.next == id)) [
      | inl new ↦ rw new (if_pos (same k k) refl (some s.next) (s.calls k) ∙ ap some (ground arith))
      | inr old ↦
          let now = inv.found id (ground arith) (rw old at f) (rw old at w) in
          rw old (elim (same k (s.store id).key) [
            | yes eq ↦ cc (ap s.calls eq)
            | no ne ↦
                if_neg (same k (s.store id).key) ne (some s.next) (s.calls (s.store id).key) ∙ now
          ])
    ];
  }

  join-Inv : (k : K) (disposes : Bool) (s : Coalescer K V) → Inv s → Inv (join same k disposes s).1
  unfolding join
  join-Inv k disposes s inv =
      if_cases (λ (r : Result ℕ × Coalescer K V). Inv r.1) s.closed (λ _. inv)
        (λ _. join_call-Inv (s.calls k) k disposes s refl inv)

  Step-Inv : {s t : Coalescer K V} → Step same s t → Inv s → Inv t
  Step-Inv {s} (joins k d) inv = join-Inv k d s inv
  Step-Inv {s} (settles id r used runs) inv = settle-Inv id r s inv used runs
  Step-Inv {s} (claims id used done pos) inv = claim-Inv id s inv used done pos
  Step-Inv {s} (abandons id used pos) inv = abandon-Inv id s inv used pos
  Step-Inv {s} (closes reason) inv = close-Inv reason s inv

  -- Every execution keeps the invariant.
  pub Reach-Inv : {unused : SharedCall K V} {s : Coalescer K V} → Reach same unused s → Inv s
  Reach-Inv {unused} start = empty-Inv unused
  Reach-Inv (later r st) = Step-Inv st (Reach-Inv r)
