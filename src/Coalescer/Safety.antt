-- ===== src/Coalescer/Safety.antt =====
-- What the invariant gives for the users of a coalescer.
use fluss_go.Prelude.{ℕ, ◌≤◌, ◌<◌, ◌≡◌, sym, ap, ◌∙◌, arith, Bool, true, false}
use fluss_go.Prelude.{none}
use fluss_go.Prelude.Errors.{GoError, ok}
use fluss_go.Coalescer.{SharedCall, Coalescer, settle, settled_call, abandon, released}
use fluss_go.Coalescer.{must_dispose}
use fluss_go.Coalescer.Steps.{Reach}
use fluss_go.Coalescer.Invariant.{abandoned, Reach-Inv, store-abandon, store-settle}
use mathlib.Core.Option.{some-injective}

module _ {K V : Type 0} (same : Discrete K) where
  -- In every reachable state, two running calls of one key that are both waited for are one call.
  pub single_flight :
      {unused : SharedCall K V} {s : Coalescer K V}
      → Reach same unused s
      → (i j : ℕ) → i < s.next
      → j < s.next
      → (s.store i).key ≡ (s.store j).key
      → (s.store i).completed ≡ false
      → (s.store j).completed ≡ false
      → 0 < (s.store i).waiters
      → 0 < (s.store j).waiters
      → i ≡ j
  single_flight {s} r i j hi hj e fi fj wi wj =
      let inv = Reach-Inv same r in
      some-injective i j (sym (inv.found i hi fi wi) ∙ ap s.calls e ∙ inv.found j hj fj wj)

  -- In every reachable state, a call whose value was handed to a waiter has not disposed of it.
  pub delivered_not_disposed :
      {unused : SharedCall K V} {s : Coalescer K V}
      → Reach same unused s
      → (id : ℕ) → id < s.next
      → 0 < (s.store id).deliveries
      → (s.store id).disposals ≡ 0
  delivered_not_disposed r id used h = ((Reach-Inv same r).sound id used).exclusive h

  -- In every reachable state, the value of a call that succeeded, that nobody claimed and that
  -- nobody waits for any more has been disposed of, if the call came with a dispose function.
  pub unclaimed_disposed :
      {unused : SharedCall K V} {s : Coalescer K V}
      → Reach same unused s
      → (id : ℕ) → id < s.next
      → (s.store id).completed ≡ true
      → (s.store id).waiters ≡ 0
      → (s.store id).claimed ≡ false
      → (s.store id).succeeded ≡ true
      → (s.store id).has_dispose ≡ true
      → 0 < (s.store id).disposals
  unclaimed_disposed r id used = ((Reach-Inv same r).sound id used).disposed

  -- In every reachable state, a call that did not end with an error has disposed of its value at
  -- most once.
  pub disposed_once :
      {unused : SharedCall K V} {s : Coalescer K V}
      → Reach same unused s
      → (id : ℕ) → id < s.next
      → (s.store id).error ≡ none
      → (s.store id).disposals ≤ 1
  disposed_once r id used = ((Reach-Inv same r).sound id used).once

  -- In every reachable state, a running call that nobody waits for has been cancelled.
  pub abandoned_cancelled :
      {unused : SharedCall K V} {s : Coalescer K V}
      → Reach same unused s
      → (id : ℕ) → id < s.next
      → (s.store id).completed ≡ false
      → (s.store id).waiters ≡ 0
      → (s.store id).cancelled ≡ true
  abandoned_cancelled r id used = ((Reach-Inv same r).sound id used).idle

  -- A call with a dispose function that is not claimed, has disposed of nothing, and settles with
  -- a value after Close while one waiter is left disposes of the value, and that waiter disposes
  -- of it once more when its own context ends.
  pub disposed_twice :
      (s : Coalescer K V) (id : ℕ) (v : V)
      → s.closed ≡ true
      → (s.store id).waiters ≡ 1
      → (s.store id).claimed ≡ false
      → (s.store id).has_dispose ≡ true
      → (s.store id).disposals ≡ 0
      → ((abandon same id (settle same id (ok v) s)).store id).disposals ≡ 2
  unfolding settled_call must_dispose released
  disposed_twice s id v c w u d n =
      rw (store-abandon same id (settle same id (ok v) s), store-settle same id (ok v) s)
        (left_after_closing (s.store id) s.closed s.close_err c w u d n)
    where
      left_after_closing :
          (call : SharedCall K V) (closed : Bool) (e : GoError)
          → closed ≡ true
          → call.waiters ≡ 1
          → call.claimed ≡ false
          → call.has_dispose ≡ true
          → call.disposals ≡ 0
          → (abandoned same (settled_call same call (ok v) closed e)).disposals ≡ 2
      left_after_closing call closed e hc hw hu hd hn = ground arith
