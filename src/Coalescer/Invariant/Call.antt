-- ===== src/Coalescer/Invariant/Call.antt =====
-- One call: what its counters may be, and that each critical section keeps it so.
use fluss_go.Prelude.{◌+◌, ◌≤◌, ◌<◌, ◌≡◌, arith, Bool, true, false}
use fluss_go.Prelude.{none, is_some, inl, inr, Bool-cases, if◌then◌else◌}
use fluss_go.Prelude.Errors.{GoError, Result, ok, err}
use fluss_go.Coalescer.{SharedCall, new_call, settled_call, delivered}
use fluss_go.Coalescer.{released, must_dispose, leaves_alone}

pub record CallOk {K V : Type 0} (c : SharedCall K V) : Type 0 where
  pub fresh : c.completed ≡ false → (c.disposals ≡ 0) × (c.deliveries ≡ 0) × (c.claimed ≡ false)
  pub idle : c.completed ≡ false → c.waiters ≡ 0 → c.cancelled ≡ true
  pub good : c.completed ≡ true → c.error ≡ none → c.succeeded ≡ true
  pub waiting : c.error ≡ none → 0 < c.waiters → c.disposals ≡ 0
  pub once : c.error ≡ none → c.disposals ≤ 1
  pub pending : 0 < c.waiters → c.disposals ≤ 1
  pub twice : c.disposals ≤ 2
  pub marked : 0 < c.deliveries → c.claimed ≡ true
  pub exclusive : 0 < c.deliveries → c.disposals ≡ 0
  pub disposed :
      c.completed ≡ true
      → c.waiters ≡ 0
      → c.claimed ≡ false
      → c.succeeded ≡ true
      → c.has_dispose ≡ true
      → 0 < c.disposals

module _ {K V : Type 0} (same : Discrete K) where
  pub new_call-CallOk : (k : K) (d : Bool) → CallOk (new_call {V = V} same k d)
  new_call-CallOk k d = ground arith

  pub joined-CallOk :
      (c : SharedCall K V)
      → CallOk c
      → c.completed ≡ false
      → CallOk (record c { waiters = c.waiters + 1 })
  joined-CallOk c h f = ground arith

  pub settled-CallOk :
      (c : SharedCall K V) (r : Result V) (closed : Bool) (e : GoError)
      → CallOk c
      → c.completed ≡ false
      → CallOk (settled_call same c r closed e)
  unfolding settled_call
  settled-CallOk c (ok v) closed e h f = ground arith
  settled-CallOk c (err x) closed e h f = ground arith

  pub cancelled-CallOk :
      (b : Bool) (c : SharedCall K V)
      → CallOk c
      → CallOk (record c { cancelled = if b then true else c.cancelled })
  cancelled-CallOk true c h = ground arith
  cancelled-CallOk false c h = ground arith

  -- A waiter leaves a call, and disposes of the value as releaseLocked says.
  abbrev pub abandoned : SharedCall K V → SharedCall K V
  abandoned c = record (released same c) {
    disposals = if must_dispose same c then c.disposals + 1 else c.disposals;
  }

  pub abandoned-CallOk : (c : SharedCall K V) → CallOk c → 0 < c.waiters → CallOk (abandoned c)
  unfolding released must_dispose leaves_alone
  abandoned-CallOk c h pos = elim (Bool-cases c.completed) [
    | inl f ↦ ground arith
    | inr f ↦ ground arith
  ]

  -- A waiter takes the result.
  abbrev pub taken : SharedCall K V → SharedCall K V
  taken c = record c {
    claimed = true;
    deliveries = if is_some (delivered same c) then c.deliveries + 1 else c.deliveries;
  }

  pub taken-CallOk :
      (c : SharedCall K V)
      → CallOk c
      → c.completed ≡ true
      → 0 < c.waiters
      → CallOk (released same (taken c))
  unfolding released delivered leaves_alone
  taken-CallOk c h f pos = ground arith
